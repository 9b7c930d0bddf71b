-- ===== src/Backup/Steps.antt =====
-- Which steps the range-based `for` over a backup makes.
use mathlib.Core.Option
use sqxx.Base.{
  ℕ, zero, suc, ◌+◌, ◌<◌, ◌≤◌, ◌≡◌, ◌≢◌, refl, true, Option, some, List, [], ◌∷◌, length, arith,
}
use sqxx.Base.Int.{ℤ}
use sqxx.Effect.{
  Code, sqlite_ok, sqlite_done, Obj, Outcome, returned, thrown, static_error, continue, pure,
}
use sqxx.Statement.{Handle}
use sqxx.Backup.{Backup, BackupApi, loop, for_each}

module _ {W V : Type 0} (api : BackupApi W) (h : Handle) (look : W → V) (stepsize : ℤ) where
  -- The steps of sqlite3 from a state on, with what is seen before each, up to the first code that is not
  -- SQLITE_OK.
  pub data Copies : W → List V → Code → W → Type 0 where
    last :
        {w w' : W} {v : V} {c : Code}
        → v ≡ look w
        → api.backup_step h stepsize w ≡ (c, w')
        → c ≢ sqlite_ok
        → Copies w (v ∷ []) c w'
    more :
        {w w' w'' : W} {v : V} {vs : List V} {c : Code}
        → v ≡ look w
        → api.backup_step h stepsize w ≡ (sqlite_ok, w')
        → Copies w' vs c w''
        → Copies w (v ∷ vs) c w''

module _ {W V : Type 0} (api : BackupApi W) where
  -- How a loop ends whose last step gave this code.
  abbrev pub ended : Code → List V → Backup → W → Outcome (Option (List V)) × Obj Backup W
  ended sqlite_done out b w = (returned (some out), record { self = b; world = w })
  ended c out b w = (thrown (static_error api.errstr c), record { self = b; world = w })

  last_step :
      (look : W → V) (stepsize : ℤ) (k : ℕ) (b : Backup) (w w' : W) (c : Code)
      → api.backup_step b.handle stepsize w ≡ (c, w')
      → c ≢ sqlite_ok
      → loop api look stepsize (suc (suc k)) true (record { self = b; world = w })
        ≡ ended c (look w ∷ []) b w'
  unfolding loop
  last_step look stepsize k b w w' sqlite_ok e n = absurd (n refl)
  last_step look stepsize k b w w' sqlite_done e n = rw e
  last_step look stepsize k b w w' c e n = rw e

  prepend :
      (v : V) (out : List V) (c : Code) (b : Backup) (w : W)
      → continue
          (ended c out b w).0
          (λ rest. pure (Option.map (λ t. v ∷ t) rest))
          (ended c out b w).1
        ≡ ended c (v ∷ out) b w
  prepend v out sqlite_done b w = refl
  prepend v out c b w = refl

  -- Iterating over a backup, with more fuel than steps: the loop visits it before each step that
  -- sqlite3 makes, the last one included, and ends where that gives SQLITE_DONE; any other code that
  -- is not SQLITE_OK is thrown after as many visits.
  pub for_each_lem :
      (look : W → V) (stepsize : ℤ) (fuel : ℕ) (b : Backup) {w w' : W} {vs : List V} {c : Code}
      → length vs < fuel
      → Copies api b.handle look stepsize w vs c w'
      → for_each api look stepsize fuel (record { self = b; world = w }) ≡ ended c vs b w'
  unfolding for_each loop
  for_each_lem look stepsize zero b f y = absurd (omega arith)
  for_each_lem look stepsize (suc zero) b f (last v e n) = absurd (omega arith)
  for_each_lem look stepsize (suc zero) b f (more v e y) = absurd (omega arith)
  for_each_lem look stepsize (suc (suc k)) b f (last {w = w} {w' = w'} {c = c} v e n) =
      rw v (last_step look stepsize k b w w' c e n)
  for_each_lem look stepsize (suc (suc k)) b {w = w} f (more v e y) =
      rw (v, e, for_each_lem look stepsize (suc k) b (omega arith) y) (prepend (look w) _ _ b _)

module _ {W V : Type 0} (api : BackupApi W) (b : Backup) (look : W → V) (stepsize : ℤ) where
  -- From a state on there are at most so many steps, up to a code that ends the backup.
  abbrev Ends : ℕ → W → Type 0
  Ends n w =
      (vs : List V) × (c : Code) × (w' : W) × Copies api b.handle look stepsize w vs c w'
      × (c ≢ sqlite_ok)
      × (length vs ≤ n)

  one_more :
      (n : ℕ) (w w' : W) (c : Code)
      → api.backup_step b.handle stepsize w ≡ (c, w')
      → (c ≡ sqlite_ok → Ends n w')
      → Ends (suc n) w
  one_more n w w' sqlite_ok e later =
      let (vs, c, last_world, copies, ended, short) = later refl in
      (look w ∷ vs, c, last_world, more refl e copies, ended, omega (arith, short))
  one_more n w w' c e later = (look w ∷ [], c, w', last refl e (λ q. cc), (λ q. cc), omega arith)

  ends_lem :
      (left : W → ℕ) (n : ℕ) (w : W)
      → ((w : W)
          → let (c, w') = api.backup_step b.handle stepsize w in c ≡ sqlite_ok → left w' < left w)
      → left w < n
      → Ends n w
  ends_lem left zero w progress f = absurd (omega arith)
  ends_lem left (suc n) w progress f =
      one_more n w (api.backup_step b.handle stepsize w).1 (api.backup_step b.handle stepsize w).0
        refl
        (λ q.
          ends_lem left n (api.backup_step b.handle stepsize w).1 progress
            (omega (arith, progress w q)))

  -- Iterating over a backup, where each step that gives SQLITE_OK leaves less to do, and with fuel for at
  -- least two more tests of the loop than there is to do: the loop ends, after at most as many visits
  -- as there is to do and one more, and returns what it saw if its last step gave SQLITE_DONE;
  -- otherwise it throws the code of that step, which is not SQLITE_OK.
  pub for_each-ends :
      (left : W → ℕ) (fuel : ℕ) (w : W)
      → ((w : W)
          → let (c, w') = api.backup_step b.handle stepsize w in c ≡ sqlite_ok → left w' < left w)
      → left w + 1 < fuel
      → (vs : List V) × (c : Code) × (w' : W) × (for_each api look stepsize fuel
            (record { self = b; world = w })
          ≡ ended api c vs b w')
        × (c ≢ sqlite_ok)
        × (length vs ≤ left w + 1)
  for_each-ends left fuel w progress f =
      let (vs, c, w', copies, done, short) = ends_lem left (left w + 1) w progress (omega arith) in
      (vs, c, w', for_each_lem api look stepsize fuel b (omega (arith, short)) copies, done, short)
