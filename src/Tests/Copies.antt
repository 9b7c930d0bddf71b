-- ===== src/Tests/Copies.antt =====
-- A sqlite3 that counts on getting each handle back once, and two objects that hold the same one.
use sqxx.Base.{ℕ, ◌≡◌, refl, Bool, true, false, not, ◌||◌, none, some, if◌then◌else◌, ◌==◌}
use sqxx.Base.Int.{pos}
use sqxx.Effect.{sqlite_ok, sqlite_nomem}
use sqxx.Statement.{Handle}
use sqxx.Backup.{Backup, BackupApi, destroy as finish}
use sqxx.Backup.Copied.{copy, FinishLaws, strays-copy}

record Handles : Type 0 where
  valid : ℕ → Bool
  stray : Bool

abbrev give_back : Handle → Handles → Handles
give_back none w = w
give_back (some p) w = record {
  valid = λ q. if q == p then false else w.valid q;
  stray = w.stray || not (w.valid p);
}

abbrev seven_valid : Handles
seven_valid = record { valid = λ q. q == 7; stray = false }

abbrev finisher : BackupApi Handles
finisher = record {
  errstr = λ c. "error";
  errcode = λ h w. sqlite_nomem;
  errmsg = λ h w. "error";
  backup_init = λ s sdb d ddb w. (none, w);
  backup_step = λ h n w. (sqlite_ok, w);
  backup_finish = give_back;
  backup_remaining = λ h w. pos 0;
  backup_pagecount = λ h w. pos 0;
}

abbrev finisher-FinishLaws : FinishLaws finisher
finisher-FinishLaws = record {
  in_progress = λ q w. w.valid q;
  strays = λ w. w.stray;
  finishes = λ p w q. refl;
  given = λ p w. refl;
}

abbrev half_copied : Backup
half_copied = record { handle = some 7 }

strays-copy_example :
    let (new_one, old_one) = copy half_copied in
    (finish finisher old_one (finish finisher new_one seven_valid)).stray ≡ true
strays-copy_example = strays-copy finisher finisher-FinishLaws 7 half_copied seven_valid refl
