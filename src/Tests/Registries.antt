-- ===== src/Tests/Registries.antt =====
-- A registry of functions of fewer than 128 arguments and of collations, and the theorem at it.
use native.Mathlib.Decide.{ℕ_discrete}
use text.Mathlib.Text.{◌==◌}
use sqxx.Base.{
  some, ap, ◌+◌, ℕ, ◌≡◌, refl, Bool, true, false, none, Option, List, [], ◌∷◌, ltb, not,
}
use sqxx.Effect.{bad_alloc, returned, thrown, Code, sqlite_ok, sqlite_misuse, is_ok}
use sqxx.Heap.{Heap, unused, delete}
use sqxx.Slots.{Table, set_slot}
use sqxx.Slots.{Owns}
use sqxx.Registration.Ownership.{Fate, create-Fate}
use sqxx.Registration.Registry.Kinds.{Typed, kinds_all}
use sqxx.Registration.{
  Kind, scalar, nothing, Destroy, run_destroy, RegisterApi, create_function, create_aggregate,
  create_collation,
}
use sqxx.Registration.Registry.{
  Registering, creates_function, creates_aggregate, creates_collation, creates_static_function,
  removes_collation, Program, register, call_of, register_all,
}
use sqxx.Registration.Registry.Laws.{RegistryLaws, kept, entered_at}
use sqxx.Registration.Registry.Using.{
  tag, Entry, scalar_entry, aggregate_entry, collation_entry, Use, groups, Reply, gives,
}
use sqxx.Registration.Registry.Calling.{use_registered, use_registered-register_all}
use sqxx.Callbacks.{Log}
use sqxx.Function.{Callable, Output, int, result_int, finish_call, result}
use sqxx.Function.Aggregate.Group.{fold_rows, summary}
use sqxx.Function.Aggregate.{Aggregate}
use sqxx.Function.Aggregate.Final.{default_final, with_default_final}
use sqxx.Tests.Functions.{contexts, contexts-ContextLaws}
use sqxx.Base.Int.{pos}
use sqxx.Registration.Registry.Refines.{view, IsSafe, noted_all, register_all-refines}

record Registry : Type 0 where
  owned : Table ℕ
  entered : ℕ → Kind

-- Functions have the key of their number of arguments, and collations one more.
abbrev enter : Bool → ℕ → Kind → Option ℕ → Destroy → Heap → Registry → Code × Heap × Registry
enter true k kind p f h w = (
  sqlite_ok,
  delete (w.owned k) h,
  record {
    owned = set_slot ℕ_discrete k (kept p f) w.owned;
    entered = entered_at ℕ_discrete k kind w.entered;
  },
)
enter false k kind p f h w = (sqlite_misuse, h, w)

abbrev enter_function :
    Bool → ℕ → Kind → Option ℕ → Destroy → Heap → Registry → Code × Heap × Registry
enter_function true k kind p f h w = enter true k kind p f h w
enter_function false k kind p f h w = (sqlite_misuse, run_destroy f h, w)

abbrev registry : RegisterApi Registry
registry = record {
  errstr = λ c. "error";
  create_function_v2 =
      λ handle name argc kind p f h w. enter_function (ltb argc 128) argc kind p f h w;
  create_collation_v2 = λ handle name kind p f h w. enter (not (name == "")) 1000 kind p f h w;
}

function_works :
    (b : Bool) (k : ℕ) (kind : Kind) (p : Option ℕ) (f : Destroy) (h : Heap) (w : Registry)
    → is_ok (enter_function b k kind p f h w).0 ≡ true
    → let (rv, h', w') = enter_function b k kind p f h w in
      (h' ≡ delete (w.owned k) h)
      × (w'.owned ≡ set_slot ℕ_discrete k (kept p f) w.owned)
      × (w'.entered ≡ entered_at ℕ_discrete k kind w.entered)
function_works true k kind p f h w e = (refl, refl, refl)
function_works false k kind p f h w e = absurd (cc)

function_fails :
    (b : Bool) (k : ℕ) (kind : Kind) (p : Option ℕ) (f : Destroy) (h : Heap) (w : Registry)
    → is_ok (enter_function b k kind p f h w).0 ≡ false
    → let (rv, h', w') = enter_function b k kind p f h w in
      (h' ≡ run_destroy f h) × (w'.owned ≡ w.owned) × (w'.entered ≡ w.entered)
function_fails true k kind p f h w e = absurd (cc)
function_fails false k kind p f h w e = (refl, refl, refl)

collation_works :
    (b : Bool) (k : ℕ) (kind : Kind) (p : Option ℕ) (f : Destroy) (h : Heap) (w : Registry)
    → is_ok (enter b k kind p f h w).0 ≡ true
    → let (rv, h', w') = enter b k kind p f h w in
      (h' ≡ delete (w.owned k) h)
      × (w'.owned ≡ set_slot ℕ_discrete k (kept p f) w.owned)
      × (w'.entered ≡ entered_at ℕ_discrete k kind w.entered)
collation_works true k kind p f h w e = (refl, refl, refl)
collation_works false k kind p f h w e = absurd (cc)

collation_fails :
    (b : Bool) (k : ℕ) (kind : Kind) (p : Option ℕ) (f : Destroy) (h : Heap) (w : Registry)
    → is_ok (enter b k kind p f h w).0 ≡ false
    → let (rv, h', w') = enter b k kind p f h w in
      (h' ≡ h) × (w'.owned ≡ w.owned) × (w'.entered ≡ w.entered)
collation_fails true k kind p f h w e = absurd (cc)
collation_fails false k kind p f h w e = (refl, refl, refl)

abbrev registry-RegistryLaws : RegistryLaws registry ℕ_discrete none
registry-RegistryLaws = record {
  function_key = λ name argc. argc;
  collation_key = λ name. 1000;
  owned = λ w. w.owned;
  entered = λ w. w.entered;
  function_works = λ name argc kind p f h w e. function_works (ltb argc 128) argc kind p f h w e;
  function_fails = λ name argc kind p f h w e. function_fails (ltb argc 128) argc kind p f h w e;
  collation_works = λ name kind p f h w e. collation_works (not (name == "")) 1000 kind p f h w e;
  collation_fails = λ name kind p f h w e. collation_fails (not (name == "")) 1000 kind p f h w e;
}

-- Callables are named by numbers.
abbrev begun : Program ℕ Registry
begun = record {
  heap = record { next = 0; cell = λ q. unused; broken = false };
  copies = λ q. none;
  world = record { owned = λ k. none; entered = λ k. nothing };
}

abbrev requests : List (Registering ℕ)
requests =
    creates_function "f" 2 50
    ∷ creates_collation "c" 51
    ∷ creates_function "g" 2 52
    ∷ creates_aggregate "h" 200 53
    ∷ removes_collation "c"
    ∷ creates_static_function "k" 3
    ∷ []

begun-IsSafe : IsSafe registry ℕ_discrete none registry-RegistryLaws begun
begun-IsSafe = record {
  living = λ k p e. absurd (cc);
  once = λ k j p a b. absurd (cc);
  fresh = λ p f. refl;
  owner = λ p a. absurd (cc);
  whole = refl;
}

register_all-refines_example :
    let (rs, s) = register_all registry none requests begun in
    IsSafe registry ℕ_discrete none registry-RegistryLaws s
    × (view registry ℕ_discrete none registry-RegistryLaws s
        ≡ noted_all registry ℕ_discrete none registry-RegistryLaws requests rs (λ k. none))
register_all-refines_example =
    register_all-refines registry ℕ_discrete none registry-RegistryLaws requests begun begun-IsSafe

-- A function of one argument, an aggregate that adds its arguments up from 5, and a collation that throws.
abbrev doubled : Callable ℕ (Log ℕ) (Output ℕ)
doubled [] u = (thrown bad_alloc, u)
doubled (n ∷ args) u = (returned (int (pos (n + n))), u)

abbrev add : Callable ℕ (ℕ × Log ℕ) (Unit {0})
add [] x = (thrown bad_alloc, x)
add (n ∷ args) (sum, u) = (returned tt, (sum + n, u))

abbrev total : Aggregate ℕ ℕ ℕ (Log ℕ)
total = with_default_final (λ sum u. (returned sum, u)) (λ sum. int (pos sum)) 5 1 16 add

abbrev entries : List (Registering (Entry ℕ ℕ ℕ ℕ ℕ))
entries =
    creates_function "f" 1 (scalar_entry 1 doubled)
    ∷ creates_function "g" 2 (scalar_entry 2 doubled)
    ∷ creates_collation "c" (collation_entry (λ texts l. (thrown bad_alloc, l)))
    ∷ creates_aggregate "g" 1 (aggregate_entry total)
    ∷ []

abbrev fresh : Program (Entry ℕ ℕ ℕ ℕ ℕ) Registry
fresh = record { heap = begun.heap; copies = λ q. none; world = begun.world }

abbrev quiet : Log ℕ
quiet = record { cerr = []; user = 0 }

abbrev used : Use ℕ ℕ → Reply ℕ × Log ℕ × ℕ
used x =
    use_registered contexts (pos 2) none registry ℕ_discrete none registry-RegistryLaws
      (register_all registry none entries fresh).1 1 x quiet 0

fresh-IsSafe : Owns {K = ℕ} (λ k. none) fresh.heap
fresh-IsSafe = record {
  living = λ k p e. absurd (cc);
  once = λ k j p a b. absurd (cc);
  fresh = λ p f. refl;
  owner = λ p a. absurd (cc);
  whole = refl;
}

abbrev tag_or : Kind → Option (Entry ℕ ℕ ℕ ℕ ℕ) → Kind
tag_or kind none = kind
tag_or kind (some e) = tag e

-- The types of C++ ensure this for each of the calls.
entries-Typed : Typed registry ℕ_discrete none registry-RegistryLaws tag entries
entries-Typed = (
  λ c e. ap (λ o. tag_or scalar o) e,
  (
    λ c e. ap (λ o. tag_or scalar o) e,
    (λ c e. ap (λ o. tag_or scalar o) e, (λ c e. ap (λ o. tag_or scalar o) e, tt)),
  ),
)

-- The sum of two rows.
use_registered-register_all_example :
    used (groups 1 ((λ i. 4) ∷ (λ i. 6) ∷ [])) ≡ (gives (result_int (pos 15)), quiet, 0)
unfolding register_all register call_of create_function create_aggregate create_collation noted_all
    kinds_all fold_rows summary default_final finish_call result ℕ_discrete
use_registered-register_all_example =
    use_registered-register_all contexts (pos 2) none registry ℕ_discrete none registry-RegistryLaws
      entries fresh 1 (groups 1 ((λ i. 4) ∷ (λ i. 6) ∷ [])) quiet 0 fresh-IsSafe
      (λ k p e. absurd (cc)) (λ k c e. absurd (cc)) entries-Typed (contexts-ContextLaws, refl)

-- A function, an aggregate and a collation where others were registered before, which are destroyed.
abbrev filled : Program ℕ Registry
filled = (register_all registry none requests begun).1

create-Fate_example :
    let at : ℕ = filled.heap.next in
    Fate at (create_function registry none "f" 2 filled.heap filled.world)
    × Fate at (create_aggregate registry none "f" 2 filled.heap filled.world)
    × Fate at (create_collation registry none "f" filled.heap filled.world)
create-Fate_example =
    create-Fate registry ℕ_discrete none registry-RegistryLaws "f" 2 filled.heap filled.world
      (register_all-refines registry ℕ_discrete none registry-RegistryLaws requests begun
        begun-IsSafe).0
