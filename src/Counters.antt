-- ===== src/Counters.antt =====
-- datatypes.hpp, `counter`, and what both `status()` functions do with sqlite3's answer.
use sqxx.Base.{◌≡◌, ◌∙◌, ap, String, Bool, true, false, if◌then◌else◌}
use mathlib.Core.Logic.{ite}
use sqxx.Base.Int.{ℤ}
use sqxx.Effect.{Code, sqlite_ok, Outcome, returned, thrown, static_error, is_ok}

-- struct tcounter, widened to counter
pub record Counter : Type 0 where
  pub current : ℤ
  pub highwater : ℤ

-- sqlite3_db_status() for one connection, or sqlite3_status64(); `Key` holds the constants.
pub record StatusApi (Key W : Type 0) : Type 0 where
  pub errstr : Code → String
  pub status : Key → Bool → W → Code × Counter × W

-- int rv = sqlite3_…status(op, &result.current, &result.highwater, reset); if (rv != SQLITE_OK) throw …
unfoldable pub read_counter :
    {Key W : Type 0} → StatusApi Key W → Key → Bool → W → Outcome Counter × W
read_counter api op reset w =
    let (rv, result, w') = api.status op reset w in
    (if is_ok rv then returned result else thrown (static_error api.errstr rv), w')

-- What sqlite3 documents of the counters: a call tells the two values, and with `reset` it sets the
-- highest one back to the current one.
pub record CounterLaws {Key W : Type 0} (api : StatusApi Key W) (id : Discrete Key) : Type 0 where
  pub current : Key → W → ℤ
  pub highwater : Key → W → ℤ
  pub succeeds : (i : Key) (reset : Bool) (w : W) → (api.status i reset w).0 ≡ sqlite_ok
  pub answers :
      (i : Key) (reset : Bool) (w : W)
      → (api.status i reset w).1 ≡ (record { current = current i w; highwater = highwater i w })
  pub keeps : (i j : Key) (reset : Bool) (w : W) → current j (api.status i reset w).2 ≡ current j w
  pub reads : (i j : Key) (w : W) → highwater j (api.status i false w).2 ≡ highwater j w
  pub resets :
      (i j : Key) (w : W)
      → highwater j (api.status i true w).2 ≡ ite (id i j) (current j w) (highwater j w)

module _ {Key W : Type 0} (api : StatusApi Key W) (id : Discrete Key)
    (laws : CounterLaws api id) where
  -- A counter that is read after another was reset.
  pub read_counter_lem :
      (i j : Key) (reset : Bool) (w : W)
      → (read_counter api j reset (read_counter api i true w).1).0
        ≡ returned (record {
          current = laws.current j w;
          highwater = ite (id i j) (laws.current j w) (laws.highwater j w);
        })
  unfolding read_counter
  read_counter_lem i j reset w =
      let w' = (api.status i true w).2 in
      rw (laws.succeeds j reset w') (
        ap returned (
          laws.answers j reset w' ∙ λ t. record {
            current = laws.keeps i j true w t;
            highwater = laws.resets i j w t;
          }))
