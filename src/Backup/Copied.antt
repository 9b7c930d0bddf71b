-- ===== src/Backup/Copied.antt =====
-- backup.hpp, which declares a destructor and leaves the copy constructor to the compiler, and the destructors
-- of both objects.
use sqxx.Base.{
  ℕ, ◌≡◌, ◌∙◌, refl, Bool, true, false, not, ◌||◌, some, if◌then◌else◌, ◌==◌, ==_iff, arith,
}
use sqxx.Backup.{Backup, BackupApi, destroy, finish_if}

-- The copy and the original.
pub copy : Backup → Backup × Backup
copy b = (b, b)

-- What sqlite3 documents of sqlite3_backup_finish. `strays` says that it was given a backup that is not there any
-- more, of which sqlite3 says nothing.
pub record FinishLaws {W : Type 0} (api : BackupApi W) : Type 0 where
  pub in_progress : ℕ → W → Bool
  pub strays : W → Bool
  pub finishes :
      (p : ℕ) (w : W) (q : ℕ)
      → in_progress q (api.backup_finish (some p) w) ≡ (if q == p then false else in_progress q w)
  pub given :
      (p : ℕ) (w : W) → strays (api.backup_finish (some p) w) ≡ strays w || not (in_progress p w)

module _ {W : Type 0} (api : BackupApi W) (laws : FinishLaws api) where
  destroy-some :
      (p : ℕ) (b : Backup) (w : W)
      → b.handle ≡ some p
      → destroy api b w ≡ api.backup_finish (some p) w
  unfolding destroy finish_if
  destroy-some p b w h = rw h refl

  -- For a sqlite3 that finishes backups as documented: where a backup with a handle is copied, as
  -- `for (auto b : backup)` does in each round, and both objects are destroyed, sqlite3 is given a
  -- backup that is finished.
  pub strays-copy :
      (p : ℕ) (b : Backup) (w : W)
      → b.handle ≡ some p
      → let (new_one, old_one) = copy b in
        laws.strays (destroy api old_one (destroy api new_one w)) ≡ true
  unfolding copy
  strays-copy p b w h =
      rw (destroy-some p b w h, destroy-some p b (api.backup_finish (some p) w) h)
        (laws.given p (api.backup_finish (some p) w)
          ∙ ground (arith, laws.finishes p w p, (==_iff p p).1 refl))
