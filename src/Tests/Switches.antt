-- ===== src/Tests/Switches.antt =====
-- A sqlite3 with two switches, which keeps what is asked of it.
use mathlib.Core.Logic.{ite}
use sqxx.Base.{◌≡◌, refl, sym, ◌∙◌, Bool, true, false, none, if◌then◌else◌}
use sqxx.Base.Int.{pos, to_bool}
use sqxx.Effect.{sqlite_ok, sqlite_error}
use sqxx.Connection.Info.{Switch, enable_fkey, enable_trigger, InfoApi}
use sqxx.Connection.Info.Switches.{Switch-discrete, switched, SwitchLaws}

abbrev switches : InfoApi (Switch → Bool)
switches = record {
  errstr = λ c. "error";
  errcode = λ h w. sqlite_error;
  errmsg = λ h w. "error";
  db_config = λ h i v w. (
    sqlite_ok,
    if switched v (w i) then pos 1 else pos 0,
    λ j. ite (Switch-discrete i j) (switched v (w j)) (w j),
  );
  db_lookaside = λ h buf size count w. (sqlite_ok, w);
  db_readonly = λ h db w. pos 0;
  table_column_metadata = λ h db table column w. (
    sqlite_ok,
    record {
      datatype = none;
      collseq = none;
      notnull = pos 0;
      primarykey = pos 0;
      autoinc = pos 0;
    },
    w,
  );
  wal_checkpoint = λ h db mode w. (sqlite_ok, (pos 0, pos 0), w);
}

to_bool_lem : (b : Bool) → to_bool (if b then pos 1 else pos 0) ≡ b
to_bool_lem true = refl
to_bool_lem false = refl

own_switch : (i : Switch) (a b : Bool) → ite (Switch-discrete i i) a b ≡ a
unfolding Switch-discrete
own_switch enable_fkey a b = refl
own_switch enable_trigger a b = refl

abbrev switches-SwitchLaws : SwitchLaws switches
switches-SwitchLaws = record {
  is_on = λ h i w. w i;
  succeeds = λ h i v w. refl;
  tells = λ h i v w. to_bool_lem (switched v (w i)) ∙ sym (own_switch i (switched v (w i)) (w i));
  sets = λ h i j v w. refl;
}
