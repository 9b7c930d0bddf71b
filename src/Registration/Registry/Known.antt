-- ===== src/Registration/Registry/Known.antt =====
-- The pointers that sqlite3 keeps are those of copies that the library made.
use sqxx.Base.{ℕ, ◌≡◌, refl, Option, none, some, List, [], ◌∷◌, ◌==◌, ==_iff, Bool-cases, inl, inr}
use sqxx.Slots.{set_slot-cases}
use sqxx.Statement.{Handle}
use sqxx.Registration.{Kind, RegisterApi, Done}
use sqxx.Registration.Registry.{Registering, copied, copy_at, Program, register, register_all}
use sqxx.Registration.Registry.Laws.{RegistryLaws}
use sqxx.Registration.Registry.Settled.{
  Settled, stored, discarded, cleared, refused, is_given, key_of, call_of-Settled,
}

-- Of an address where a copy was made, that is so later.
copy_at-some :
    {C : Type 0} (next : ℕ) (c : Option C) (copies : ℕ → Option C) (p : ℕ) (e : C)
    → copies p ≡ some e
    → (e' : C) × (copy_at next c copies p ≡ some e')
copy_at-some next none copies p e f = (e, f)
copy_at-some next (some c) copies p e f = elim (Bool-cases (next == p)) [
  | inl same ↦ (c, rw same refl)
  | inr other ↦ (e, rw other f)
]

copy_at-next :
    {C : Type 0} (next : ℕ) (c : C) (copies : ℕ → Option C) (p : ℕ)
    → next ≡ p
    → copy_at next (some c) copies p ≡ some c
copy_at-next next c copies p e = rw ((==_iff next p).1 e) refl

module _ {C W K : Type 0} (api : RegisterApi W) (d : Discrete K) (handle : Handle)
    (laws : RegistryLaws api d handle) where
  abbrev pub IsKnown : Program C W → Type 0
  IsKnown s = (k : K) (p : ℕ) → laws.owned s.world k ≡ some p → (e : C) × (s.copies p ≡ some e)

  settled_lem :
      (c : Option C) (k : K) (kind : Kind) (s : Program C W) (r : Done W)
      → Settled api d handle laws k kind s.heap s.world r (is_given api d handle laws c)
      → IsKnown s
      → IsKnown (record { heap = r.heap; copies = copy_at s.heap.next c s.copies; world = r.world })
  settled_lem none k kind s r (cleared _ _ b _) v j p e =
      elim (set_slot-cases d k j none (laws.owned s.world) p (rw b at e)) [
        | inl (_, f) ↦ absurd (cc)
        | inr (_, f) ↦ v j p f
      ]
  settled_lem none k kind s r (refused _ _ _ b _) v j p e = v j p (rw b at e)
  settled_lem (some c) k kind s r (stored _ _ b _) v j p e =
      elim (set_slot-cases d k j (some s.heap.next) (laws.owned s.world) p (rw b at e)) [
        | inl (_, f) ↦ (c, copy_at-next s.heap.next c s.copies p (cc))
        | inr (_, f) ↦ let (x, g) = v j p f in copy_at-some s.heap.next (some c) s.copies p x g
      ]
  settled_lem (some c) k kind s r (discarded _ _ _ b _) v j p e =
      let (x, g) = v j p (rw b at e) in copy_at-some s.heap.next (some c) s.copies p x g

  -- It stays so, whatever a program registers and removes.
  pub register_all-IsKnown :
      (ops : List (Registering C)) (s : Program C W)
      → IsKnown s
      → IsKnown (register_all api handle ops s).1
  unfolding register_all register
  register_all-IsKnown [] s v = v
  register_all-IsKnown (op ∷ ops) s v = register_all-IsKnown ops (register api handle op s).1 (
      settled_lem (copied op) (key_of api d handle laws op) _ s _
        (call_of-Settled api d handle laws op s.heap s.world) v)
