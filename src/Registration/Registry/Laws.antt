-- ===== src/Registration/Registry/Laws.antt =====
-- What sqlite3 documents of its registry of functions and collations.
use mathlib.Core.Logic.{ite}
use sqxx.Base.{ℕ, ◌≡◌, String, true, false, Option, none, some}
use sqxx.Effect.{is_ok}
use sqxx.Heap.{Heap, delete}
use sqxx.Slots.{Table, set_slot}
use sqxx.Statement.{Handle}
use sqxx.Registration.{Destroy, run_destroy, Kind, RegisterApi}

-- The data that sqlite3 is to destroy.
abbrev pub kept : Option ℕ → Destroy → Option ℕ
kept p none = none
kept p (some f) = p

-- What a table has for a key after another value was put there.
abbrev pub entered_at : {K V : Type 0} → Discrete K → K → V → (K → V) → K → V
entered_at d k v t j = ite (d k j) v (t j)

-- sqlite3 keeps functions and collations under keys that it makes of their names and numbers of
-- arguments; two names that differ in case may have one key. Every destructor that the library registers
-- is `delete` of the data.
pub record RegistryLaws {W K : Type 0} (api : RegisterApi W) (d : Discrete K) (handle : Handle)
    : Type 0 where
  pub function_key : String → ℕ → K
  pub collation_key : String → K
  pub owned : W → Table K
  -- whether there is a function, an aggregate, a collation or nothing under a key
  pub entered : W → K → Kind
  -- what is replaced or removed is destroyed
  pub function_works :
      (name : String) (argc : ℕ) (kind : Kind) (p : Option ℕ) (f : Destroy) (h : Heap) (w : W)
      → let (rv, h', w') = api.create_function_v2 handle name argc kind p f h w in
        is_ok rv ≡ true
        → (h' ≡ delete (owned w (function_key name argc)) h)
          × (owned w' ≡ set_slot d (function_key name argc) (kept p f) (owned w))
          × (entered w' ≡ entered_at d (function_key name argc) kind (entered w))
  -- where it fails, sqlite3_create_function_v2 destroys the new data
  pub function_fails :
      (name : String) (argc : ℕ) (kind : Kind) (p : Option ℕ) (f : Destroy) (h : Heap) (w : W)
      → let (rv, h', w') = api.create_function_v2 handle name argc kind p f h w in
        is_ok rv ≡ false → (h' ≡ run_destroy f h) × (owned w' ≡ owned w) × (entered w' ≡ entered w)
  pub collation_works :
      (name : String) (kind : Kind) (p : Option ℕ) (f : Destroy) (h : Heap) (w : W)
      → let (rv, h', w') = api.create_collation_v2 handle name kind p f h w in
        is_ok rv ≡ true
        → (h' ≡ delete (owned w (collation_key name)) h)
          × (owned w' ≡ set_slot d (collation_key name) (kept p f) (owned w))
          × (entered w' ≡ entered_at d (collation_key name) kind (entered w))
  -- sqlite3_create_collation_v2 does not
  pub collation_fails :
      (name : String) (kind : Kind) (p : Option ℕ) (f : Destroy) (h : Heap) (w : W)
      → let (rv, h', w') = api.create_collation_v2 handle name kind p f h w in
        is_ok rv ≡ false → (h' ≡ h) × (owned w' ≡ owned w) × (entered w' ≡ entered w)
