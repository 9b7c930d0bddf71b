-- ===== src/Connection/Info/Switches.antt =====
-- Foreign keys and triggers: each function sets its own switch, and tells what it is then.
use mathlib.Core.Logic.{ite}
use sqxx.Base.{zero, suc, ◌≡◌, refl, ◌∙◌, ap, Bool, true, false}
use sqxx.Base.Int.{ℤ, pos, negsuc, to_bool}
use sqxx.Effect.{sqlite_ok, Outcome, returned}
use sqxx.Statement.{Handle}
use sqxx.Connection.Info.{
  Switch, enable_fkey, enable_trigger, InfoApi, answer, config_enable_fkey, config_enable_trigger,
}

unfoldable pub Switch-discrete : Discrete Switch
Switch-discrete enable_fkey enable_fkey = yes refl
Switch-discrete enable_fkey enable_trigger = no (λ e. cc)
Switch-discrete enable_trigger enable_fkey = no (λ e. cc)
Switch-discrete enable_trigger enable_trigger = yes refl

-- A switch after a new value is asked for; a negative one leaves it.
unfoldable pub switched : ℤ → Bool → Bool
switched (pos zero) b = false
switched (pos (suc n)) b = true
switched (negsuc n) b = b

-- What sqlite3 documents.
pub record SwitchLaws {W : Type 0} (api : InfoApi W) : Type 0 where
  pub is_on : Handle → Switch → W → Bool
  pub succeeds : (h : Handle) (i : Switch) (v : ℤ) (w : W) → (api.db_config h i v w).0 ≡ sqlite_ok
  pub tells :
      (h : Handle) (i : Switch) (v : ℤ) (w : W)
      → to_bool (api.db_config h i v w).1 ≡ is_on h i (api.db_config h i v w).2
  pub sets :
      (h : Handle) (i j : Switch) (v : ℤ) (w : W)
      → is_on h j (api.db_config h i v w).2
        ≡ ite (Switch-discrete i j) (switched v (is_on h j w)) (is_on h j w)

module _ {W : Type 0} (api : InfoApi W) (handle : Handle) where
  -- The function that is named for a switch.
  unfoldable pub enable_of : Switch → ℤ → W → Outcome Bool × W
  enable_of enable_fkey = config_enable_fkey api handle
  enable_of enable_trigger = config_enable_trigger api handle

module _ {W : Type 0} (api : InfoApi W) (laws : SwitchLaws api) (handle : Handle) where
  enable_of_lem :
      (i : Switch) (v : ℤ) (w : W)
      → enable_of api handle i v w ≡ (
        returned (laws.is_on handle i (api.db_config handle i v w).2),
        (api.db_config handle i v w).2,
      )
  unfolding enable_of config_enable_fkey config_enable_trigger answer
  enable_of_lem enable_fkey v w =
      rw (laws.succeeds handle enable_fkey v w, laws.tells handle enable_fkey v w)
  enable_of_lem enable_trigger v w =
      rw (laws.succeeds handle enable_trigger v w, laws.tells handle enable_trigger v w)

  -- For a sqlite3_db_config as documented: after config_enable_fkey() or config_enable_trigger(), either
  -- function asked with a negative value returns true or false as its own switch is on or off: as the first
  -- call has set it where both are named for one switch, and as it was otherwise.
  pub enable_of-enable_of :
      (i j : Switch) (v : ℤ) (w : W)
      → (enable_of api handle j (negsuc 0) (enable_of api handle i v w).1).0
        ≡ returned
            (ite (Switch-discrete i j) (switched v (laws.is_on handle j w)) (laws.is_on handle j w))
  unfolding switched
  enable_of-enable_of i j v w =
      ap (λ x. x.0) (enable_of_lem j (negsuc 0) _)
      ∙ ap returned (
          laws.sets handle j j (negsuc 0) _
          ∙ kept (Switch-discrete j j) _
          ∙ ap (λ x. laws.is_on handle j x.1) (enable_of_lem i v w)
          ∙ laws.sets handle i j v w)
    where
      kept : (d : Dec (j ≡ j)) (b : Bool) → ite d (switched (negsuc 0) b) b ≡ b
      kept (yes e) b = refl
      kept (no n) b = refl
