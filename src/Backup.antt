-- ===== src/Backup.antt =====
-- backup.hpp and backup.cpp: copying a database in steps, and the iterator over the steps.
pub mod Steps
pub mod Copied
use mathlib.Core.Option
use sqxx.Base.{
  ℕ, zero, suc, ◌+◌, String, Bool, true, false, Option, none, some, List, [], ◌∷◌, if◌then◌else◌,
}
use sqxx.Base.Int.{ℤ, pos, negsuc}
use sqxx.Effect.{
  Code, sqlite_ok, sqlite_done, error, Exec, Obj, Outcome, returned, thrown, ◌>>=◌, ◌>>◌, pure,
  throw, call, gets, static_error,
}
use sqxx.Statement.{Handle}

pub record BackupApi (W : Type 0) : Type 0 where
  pub errstr : Code → String
  pub errcode : Handle → W → Code
  pub errmsg : Handle → W → String
  pub backup_init : Handle → String → Handle → String → W → Handle × W
  pub backup_step : Handle → ℤ → W → Code × W
  pub backup_finish : Handle → W → W
  pub backup_remaining : Handle → W → ℤ
  pub backup_pagecount : Handle → W → ℤ

pub record Backup : Type 0 where
  pub handle : Handle

module _ {W : Type 0} (api : BackupApi W) where
  made : Handle → Handle → W → Outcome Backup × W
  made dest none w = (thrown (error (api.errcode dest w) (api.errmsg dest w)), w)
  made dest (some p) w = (returned (record { handle = some p }), w)

  -- backup(dest, ddb, source, sdb), with recent_error(dest) where there is no handle
  pub init : Handle → String → Handle → String → W → Outcome Backup × W
  unfolding made
  init dest ddb source sdb w =
      let (handle, w') = api.backup_init source sdb dest ddb w in made dest handle w'

  finish_if : Handle → W → W
  finish_if none w = w
  finish_if (some p) w = api.backup_finish (some p) w

  -- ~backup()
  pub destroy : Backup → W → W
  unfolding finish_if
  destroy b w = finish_if b.handle w

  after_step : Code → Exec (Obj Backup W) Bool
  after_step sqlite_ok = pure true
  after_step sqlite_done = pure false
  after_step rv = throw (static_error api.errstr rv)

  pub step : ℤ → Exec (Obj Backup W) Bool
  unfolding after_step
  step pages = do
    handle ← gets (λ b. b.handle)
    rv ← call (api.backup_step handle pages)
    after_step rv

  pub run : Exec (Obj Backup W) (Unit {0})
  unfolding step
  run = do _ ← step (negsuc 0); pure tt

  pub remaining : Exec (Obj Backup W) ℤ
  remaining = do handle ← gets (λ b. b.handle); call (λ w. (api.backup_remaining handle w, w))

  pub pagecount : Exec (Obj Backup W) ℤ
  pagecount = do handle ← gets (λ b. b.handle); call (λ w. (api.backup_pagecount handle w, w))

  -- step_iterator: whether its pointer to the backup is not null. operator++ drops it after the last step.
  pub advance : ℤ → Exec (Obj Backup W) Bool
  unfolding step
  advance stepsize = step stepsize

  -- `for (auto &b : backup.begin(stepsize)…) out.push_back(look());`, at most `fuel` tests of the loop.
  pub loop : {V : Type 0} → (W → V) → ℤ → ℕ → Bool → Exec (Obj Backup W) (Option (List V))
  unfolding advance
  loop look stepsize zero attached = pure none
  loop look stepsize (suc fuel) false = pure (some [])
  loop look stepsize (suc fuel) true = do
    v ← call (λ w. (look w, w))
    next ← advance stepsize
    rest ← loop look stepsize fuel next
    pure (Option.map (λ out. v ∷ out) rest)

  pub for_each : {V : Type 0} → (W → V) → ℤ → ℕ → Exec (Obj Backup W) (Option (List V))
  unfolding loop
  for_each look stepsize fuel = loop look stepsize fuel true
