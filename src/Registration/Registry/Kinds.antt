-- ===== src/Registration/Registry/Kinds.antt =====
-- What sqlite3 has under each key: a function, an aggregate, a collation or nothing, as the calls of a program
-- enter it.
use mathlib.Core.Path.{fun_ext}
use mathlib.Core.Logic.{if_pos, if_neg}
use sqxx.Base.{◌≡◌, refl, sym, ap, ◌∙◌, Bool, Option, some, List, [], ◌∷◌}
use sqxx.Effect.{Outcome, returned, thrown}
use sqxx.Heap.{Heap}
use sqxx.Statement.{Handle}
use sqxx.Registration.{Kind, RegisterApi, Done}
use sqxx.Registration.Registry.{Registering, copied, Program, register, register_all}
use sqxx.Registration.Registry.Laws.{RegistryLaws}
use sqxx.Registration.Registry.Refines.{noted, noted_all}
use sqxx.Registration.Registry.Settled.{
  Settled, stored, discarded, cleared, refused, key_of, kind_of, call_of-Settled,
}

module _ {W K : Type 0} (api : RegisterApi W) (d : Discrete K) (handle : Handle)
    (laws : RegistryLaws api d handle) where
  settled_lem :
      (k : K) (kind : Kind) (b : Bool) (h : Heap) (w : W) (r : Done W)
      → Settled api d handle laws k kind h w r b
      → (j : K) → laws.entered r.world j ≡ noted d k kind r.result (laws.entered w) j
  settled_lem k kind b h w r (stored e _ _ f) j = rw (e, f) refl
  settled_lem k kind b h w r (discarded x e _ _ f) j = rw (e, f) refl
  settled_lem k kind b h w r (cleared e _ _ f) j = rw (e, f) refl
  settled_lem k kind b h w r (refused x e _ _ f) j = rw (e, f) refl

module _ {C W K : Type 0} (api : RegisterApi W) (d : Discrete K) (handle : Handle)
    (laws : RegistryLaws api d handle) where
  -- The kinds after the calls, of which each ended as it did.
  unfoldable pub kinds_all :
      List (Registering C) → List (Outcome (Unit {0})) → (K → Kind) → K → Kind
  kinds_all (op ∷ ops) (r ∷ rs) t =
      kinds_all ops rs (noted d (key_of api d handle laws op) (kind_of api d handle laws op) r t)
  kinds_all ops rs t = t

  -- What is under each key is what the last call for it that returned was to enter.
  pub entered-register_all :
      (ops : List (Registering C)) (s : Program C W)
      → let (rs, s') = register_all api handle ops s in
        laws.entered s'.world ≡ kinds_all ops rs (laws.entered s.world)
  unfolding register_all register kinds_all
  entered-register_all [] s = refl
  entered-register_all (op ∷ ops) s =
      entered-register_all ops (register api handle op s).1
      ∙ ap (kinds_all ops _) (
          fun_ext (
            settled_lem api d handle laws _ _ _ s.heap s.world _
              (call_of-Settled api d handle laws op s.heap s.world)))

  -- Whatever copy there is under a key is of the kind that is entered there.
  abbrev pub Agrees : (C → Kind) → (K → Option C) → (K → Kind) → Type 0
  Agrees tag t kinds = (k : K) (c : C) → t k ≡ some c → kinds k ≡ tag c

  -- Each call copies what it is to enter, which the types of C++ ensure.
  abbrev pub Typed : (C → Kind) → List (Registering C) → Type 0
  Typed tag [] = Unit {0}
  Typed tag (op ∷ ops) =
      ((c : C) → copied op ≡ some c → kind_of api d handle laws op ≡ tag c) × Typed tag ops

  noted-Agrees :
      (tag : C → Kind) (k : K) (c : Option C) (kind : Kind) (r : Outcome (Unit {0}))
      (t : K → Option C) (kinds : K → Kind)
      → ((x : C) → c ≡ some x → kind ≡ tag x)
      → Agrees tag t kinds
      → Agrees tag (noted d k c r t) (noted d k kind r kinds)
  noted-Agrees tag k c kind (returned _) t kinds new old j x e = elim (d k j) [
    | yes same ↦ if_pos (d k j) same kind (kinds j) ∙ new x (sym (if_pos (d k j) same c (t j)) ∙ e)
    | no other ↦
        if_neg (d k j) other kind (kinds j) ∙ old j x (sym (if_neg (d k j) other c (t j)) ∙ e)
  ]
  noted-Agrees tag k c kind (thrown _) t kinds new old j x e = old j x e

  pub noted_all-Agrees :
      (tag : C → Kind) (ops : List (Registering C)) (rs : List (Outcome (Unit {0})))
      (t : K → Option C) (kinds : K → Kind)
      → Typed tag ops
      → Agrees tag t kinds
      → Agrees tag (noted_all api d handle laws ops rs t) (kinds_all ops rs kinds)
  unfolding noted_all kinds_all
  noted_all-Agrees tag [] rs t kinds typed a = a
  noted_all-Agrees tag (op ∷ ops) [] t kinds typed a = a
  noted_all-Agrees tag (op ∷ ops) (r ∷ rs) t kinds (new, typed) a =
      noted_all-Agrees tag ops rs _ _ typed (
        noted-Agrees tag (key_of api d handle laws op) (copied op) (kind_of api d handle laws op) r
          t kinds new a)
