-- ===== src/Slots/Moves.antt =====
-- The ways in which an operation changes a table of slots together with the heap; and two tables that own objects
-- of one heap.
use mathlib.Core.Path.{fun_ext}
use mathlib.Core.Logic.{ite, if_pos, if_neg}
use mathlib.Core.Sum
use mathlib.Core.List.{Mem, not-mem-nil, mem_of_ne_of_mem}
use sqxx.Base.{ℕ, ◌≡◌, refl, sym, ap, ◌∙◌, Option, none, some, ◌⊎◌, inl, inr, List, [], ◌∷◌}
use sqxx.Heap.{Heap, new, delete}
use sqxx.Slots.{Table, set_slot, Owns, drop-Owns, replace-Owns, discard-Owns}

-- Nothing; a slot was emptied; a new object was put in a slot; or one was made and deleted again.
pub data Moves {K : Type 0} (d : Discrete K) (t : Table K) (h : Heap) (t' : Table K) (h' : Heap)
    : Type 0 where
  keeps : t' ≡ t → h' ≡ h → Moves d t h t' h'
  drops : (k : K) → t' ≡ set_slot d k none t → h' ≡ delete (t k) h → Moves d t h t' h'
  replaces :
      (k : K) → t' ≡ set_slot d k (some h.next) t → h' ≡ delete (t k) (new h).1 → Moves d t h t' h'
  discards : t' ≡ t → h' ≡ delete (some h.next) (new h).1 → Moves d t h t' h'

pub Moves-Owns :
    {K : Type 0} (d : Discrete K) (t : Table K) (h : Heap) (t' : Table K) (h' : Heap)
    → Moves d t h t' h'
    → Owns t h
    → Owns t' h'
Moves-Owns d t h t' h' (keeps a b) v = rw (a, b) v
Moves-Owns d t h t' h' (drops k a b) v = rw (a, b) (drop-Owns d k t h (t k) refl v)
Moves-Owns d t h t' h' (replaces k a b) v = rw (a, b) (replace-Owns d k t h (t k) refl v)
Moves-Owns d t h t' h' (discards a b) v = rw (a, b) (discard-Owns d t h v)

abbrev pub union : {H K : Type 0} → Table H → Table K → Table (H ⊎ K)
union t r (inl k) = t k
union t r (inr k) = r k

ite_same :
    {P Q X : Type 0} (p : Dec P) (q : Dec Q) (x y : X) → (P → Q) → (Q → P) → ite p x y ≡ ite q x y
ite_same (yes a) q x y f g = sym (if_pos q (f a) x y)
ite_same (no n) q x y f g = sym (if_neg q (λ b. n (g b)) x y)

module _ {H K : Type 0} (dh : Discrete H) (dk : Discrete K) where
  abbrev pub either : Discrete (H ⊎ K)
  either = Sum.discrete dh dk

  union-set_slot-inl :
      (k : H) (v : Option ℕ) (t : Table H) (r : Table K)
      → union (set_slot dh k v t) r ≡ set_slot either (inl k) v (union t r)
  union-set_slot-inl k v t r = fun_ext go
    where
      go : (x : H ⊎ K) → union (set_slot dh k v t) r x ≡ set_slot either (inl k) v (union t r) x
      go (inl j) =
          ite_same (dh k j) (either (inl k) (inl j)) v (t j) (λ e. ap inl e) (Sum.inl-injective k j)
      go (inr j) = sym (if_neg (either (inl k) (inr j)) Sum.inl-ne-inr v (r j))

  union-set_slot-inr :
      (k : K) (v : Option ℕ) (t : Table H) (r : Table K)
      → union t (set_slot dk k v r) ≡ set_slot either (inr k) v (union t r)
  union-set_slot-inr k v t r = fun_ext go
    where
      go : (x : H ⊎ K) → union t (set_slot dk k v r) x ≡ set_slot either (inr k) v (union t r) x
      go (inl j) = sym (if_neg (either (inr k) (inl j)) Sum.inr-ne-inl v (t j))
      go (inr j) =
          ite_same (dk k j) (either (inr k) (inr j)) v (r j) (λ e. ap inr e) (Sum.inr-injective k j)

  -- A change of one of the tables is one of the two together.
  pub Moves-inl :
      (t t' : Table H) (r : Table K) (h h' : Heap)
      → Moves dh t h t' h'
      → Moves either (union t r) h (union t' r) h'
  Moves-inl t t' r h h' (keeps a b) = keeps (ap (λ x. union x r) a) b
  Moves-inl t t' r h h' (drops k a b) =
      drops (inl k) (ap (λ x. union x r) a ∙ union-set_slot-inl k none t r) b
  Moves-inl t t' r h h' (replaces k a b) =
      replaces (inl k) (ap (λ x. union x r) a ∙ union-set_slot-inl k (some h.next) t r) b
  Moves-inl t t' r h h' (discards a b) = discards (ap (λ x. union x r) a) b

  pub Moves-inr :
      (t : Table H) (r r' : Table K) (h h' : Heap)
      → Moves dk r h r' h'
      → Moves either (union t r) h (union t r') h'
  Moves-inr t r r' h h' (keeps a b) = keeps (ap (union t) a) b
  Moves-inr t r r' h h' (drops k a b) =
      drops (inr k) (ap (union t) a ∙ union-set_slot-inr k none t r) b
  Moves-inr t r r' h h' (replaces k a b) =
      replaces (inr k) (ap (union t) a ∙ union-set_slot-inr k (some h.next) t r) b
  Moves-inr t r r' h h' (discards a b) = discards (ap (union t) a) b

-- The slots of a table are emptied one after another, and what they own is deleted.
module _ {K : Type 0} (d : Discrete K) where
  unfoldable pub emptied : List K → Table K → Table K
  emptied [] t = t
  emptied (k ∷ ks) t = emptied ks (set_slot d k none t)

  unfoldable pub destroy_slots : List K → Table K → Heap → Heap
  destroy_slots [] t h = h
  destroy_slots (k ∷ ks) t h = destroy_slots ks (set_slot d k none t) (delete (t k) h)

  emptied-none : (ks : List K) (t : Table K) (j : K) → t j ≡ none → emptied ks t j ≡ none
  unfolding emptied
  emptied-none [] t j e = e
  emptied-none (k ∷ ks) t j e = emptied-none ks (set_slot d k none t) j (go (d k j))
    where
      go : (x : Dec (k ≡ j)) → ite x none (t j) ≡ none
      go (yes p) = refl
      go (no n) = e

  -- All are empty, where each that is not was in the list.
  pub emptied-all :
      (ks : List K) (t : Table K) (j : K)
      → ((p : ℕ) → t j ≡ some p → Mem j ks)
      → emptied ks t j ≡ none
  unfolding emptied
  emptied-all ks t j f = go (t j) refl
    where
      among : (ls : List K) (u : Table K) → Mem j ls → emptied ls u j ≡ none
      among [] u m = absurd (not-mem-nil m)
      among (k ∷ ls) u m = elim (d k j) [
        | yes same ↦ emptied-none ls (set_slot d k none u) j (if_pos (d k j) same none (u j))
        | no other ↦ among ls (set_slot d k none u) (mem_of_ne_of_mem (λ e. other (sym e)) m)
      ]

      go : (o : Option ℕ) → t j ≡ o → emptied ks t j ≡ none
      go none e = emptied-none ks t j e
      go (some p) e = among ks t (f p e)

  pub destroy_slots-Owns :
      (ks : List K) (t : Table K) (h : Heap) → Owns t h → Owns (emptied ks t) (destroy_slots ks t h)
  unfolding emptied destroy_slots
  destroy_slots-Owns [] t h v = v
  destroy_slots-Owns (k ∷ ks) t h v = destroy_slots-Owns ks _ _ (drop-Owns d k t h (t k) refl v)

module _ {H K : Type 0} (dh : Discrete H) (dk : Discrete K) where
  pub destroy_slots-inl :
      (ks : List H) (t : Table H) (r : Table K) (h : Heap)
      → Owns (union t r) h
      → Owns (union (emptied dh ks t) r) (destroy_slots dh ks t h)
  unfolding emptied destroy_slots
  destroy_slots-inl [] t r h v = v
  destroy_slots-inl (k ∷ ks) t r h v = destroy_slots-inl ks _ r _ (
      Moves-Owns (either dh dk) (union t r) h _ _ (Moves-inl dh dk t _ r h _ (drops k refl refl)) v)

  pub destroy_slots-inr :
      (ks : List K) (t : Table H) (r : Table K) (h : Heap)
      → Owns (union t r) h
      → Owns (union t (emptied dk ks r)) (destroy_slots dk ks r h)
  unfolding emptied destroy_slots
  destroy_slots-inr [] t r h v = v
  destroy_slots-inr (k ∷ ks) t r h v = destroy_slots-inr ks t _ _ (
      Moves-Owns (either dh dk) (union t r) h _ _ (Moves-inr dh dk t r _ h _ (drops k refl refl)) v)
