-- ===== src/Slots.antt =====
-- A table of slots that own objects on the heap, as the unique_ptr members of a callback table do: each
-- slot owns an object of its own, and nothing else is alive.
pub mod Moves
use mathlib.Core.Path.{fun_ext, subst}
use mathlib.Core.Logic.{ite, if_pos, if_neg}
use sqxx.Base.{
  ℕ, suc, ◌≤◌, ◌≡◌, ◌≢◌, refl, sym, ap, ◌∙◌, true, false, Option, none, some, if◌then◌else◌, ◌==◌,
  ==_iff, arith, Bool-cases, inl, inr, ◌⊎◌,
}
use sqxx.Heap.{unused, alive, deleted, Heap, new, is_alive, delete}

abbrev pub Table : Type 0 → Type 0
Table K = K → Option ℕ

abbrev pub set_slot : {K : Type 0} → Discrete K → K → Option ℕ → Table K → Table K
set_slot d k v t j = ite (d k j) v (t j)

pub record Owns {K : Type 0} (t : Table K) (h : Heap) : Type 0 where
  -- what the table owns is alive, and owned once
  pub living : (k : K) (p : ℕ) → t k ≡ some p → h.cell p ≡ alive
  pub once : (k j : K) (p : ℕ) → t k ≡ some p → t j ≡ some p → k ≡ j
  -- what is alive was allocated, and the table owns it
  pub fresh : (p : ℕ) → h.next ≤ p → h.cell p ≡ unused
  pub owner : (p : ℕ) → h.cell p ≡ alive → (k : K) × (t k ≡ some p)
  -- nothing was deleted twice
  pub whole : h.broken ≡ false

module _ {K : Type 0} (d : Discrete K) where
  -- What a slot holds after another value was put in one.
  pub set_slot-cases :
      (k j : K) (v : Option ℕ) (t : Table K) (p : ℕ)
      → set_slot d k v t j ≡ some p
      → ((k ≡ j) × (v ≡ some p)) ⊎ ((k ≢ j) × (t j ≡ some p))
  set_slot-cases k j v t p e = elim (d k j) [
    | yes same ↦ inl (same, sym (if_pos (d k j) same v (t j)) ∙ e)
    | no other ↦ inr (other, sym (if_neg (d k j) other v (t j)) ∙ e)
  ]

  module _ (k : K) (t : Table K) where
    pub set_slot-eq : (v : Option ℕ) → set_slot d k v t k ≡ v
    set_slot-eq v = if_pos (d k k) refl v (t k)

    pub set_slot-ne : (j : K) (v : Option ℕ) → k ≢ j → set_slot d k v t j ≡ t j
    set_slot-ne j v n = if_neg (d k j) n v (t j)

    set_slot-none-cases :
        (j : K) (p : ℕ) → set_slot d k none t j ≡ some p → (k ≢ j) × (t j ≡ some p)
    set_slot-none-cases j p e = elim (set_slot-cases k j none t p e) [
      | inl (same, f) ↦ absurd (cc)
      | inr held ↦ held
    ]

  -- Emptying a slot deletes what it owned, once.
  pub drop-Owns :
      (k : K) (t : Table K) (h : Heap) (o : Option ℕ)
      → t k ≡ o
      → Owns t h
      → Owns (set_slot d k none t) (delete o h)
  unfolding delete
  drop-Owns k t h none e v = record {
    living = λ j p s. v.living j p (set_slot-none-cases k t j p s).1;
    once = λ i j p a b.
        v.once i j p (set_slot-none-cases k t i p a).1 (set_slot-none-cases k t j p b).1;
    fresh = v.fresh;
    owner = λ p a.
        let (j, held) = v.owner p a in
        (j, set_slot-ne k t j none (λ same. cc (subst (λ x. t x ≡ none) same e)) ∙ held);
    whole = v.whole;
  }
  drop-Owns k t h (some q) e v = record {
    living = λ j p s.
        let (other, held) = set_slot-none-cases k t j p s in
        rw (differs j p other held) (v.living j p held);
    once = λ i j p a b.
        v.once i j p (set_slot-none-cases k t i p a).1 (set_slot-none-cases k t j p b).1;
    fresh = λ p f. ground (arith, v.fresh p f, v.living k q e);
    owner = λ p a.
        let (j, held) = v.owner p (ground arith) in
        (
          j,
          set_slot-ne k t j none (λ same. ground (arith, subst (λ x. t x ≡ some p) (sym same) held))
              ∙ held,
        );
    whole = ground (arith, v.living k q e, v.whole);
  }
    where
      differs : (j : K) (p : ℕ) → k ≢ j → t j ≡ some p → (q == p) ≡ false
      differs j p other held = elim (Bool-cases (q == p)) [
        | inl same ↦ absurd (other (v.once k j p (e ∙ ap some ((==_iff q p).0 same)) held))
        | inr n ↦ n
      ]

  -- A new object that is put in an empty slot is owned there.
  pub put-Owns :
      (k : K) (t : Table K) (h : Heap)
      → t k ≡ none
      → Owns t h
      → Owns (set_slot d k (some h.next) t) (new h).1
  unfolding new
  put-Owns k t h e v = record {
    living = λ j p s. elim (set_slot-cases k j (some h.next) t p s) [
      | inl (_, f) ↦ ground arith
      | inr (_, held) ↦ ground (arith, v.living j p held)
    ];
    once = λ i j p a b. elim (set_slot-cases k i (some h.next) t p a) [
      | inl (ki, f) ↦ elim (set_slot-cases k j (some h.next) t p b) [
        | inl (kj, _) ↦ sym ki ∙ kj
        | inr (_, held) ↦ absurd (taken p f j held)
      ]
      | inr (_, held) ↦ elim (set_slot-cases k j (some h.next) t p b) [
        | inl (_, f) ↦ absurd (taken p f i held)
        | inr (_, held') ↦ v.once i j p held held'
      ]
    ];
    fresh = λ p f. ground (arith, v.fresh p (omega arith));
    owner = λ p a. elim (Bool-cases (h.next == p)) [
      | inl same ↦ (k, set_slot-eq k t (some h.next) ∙ ap some ((==_iff h.next p).0 same))
      | inr n ↦
          let (j, held) = v.owner p (ground arith) in
          (j, set_slot-ne k t j (some h.next) (λ same. cc (subst (λ x. t x ≡ none) same e)) ∙ held)
    ];
    whole = v.whole;
  }
    where
      taken : (p : ℕ) → some h.next ≡ some p → (j : K) → t j ≢ some p
      taken p f j held = ground (arith, v.living j p held, v.fresh p (ground arith))

  -- The code allocates the new object before it deletes the old one, which comes to the same.
  new-delete :
      (h : Heap) (q : ℕ)
      → (h.next == q) ≡ false
      → (new (delete (some q) h)).1 ≡ delete (some q) (new h).1
  unfolding new delete
  new-delete h q n = λ i. record { next = suc h.next; cell = fun_ext cells i; broken = same i }
    where
      cells :
          (p : ℕ)
          → (if h.next == p then alive else if q == p then deleted else h.cell p)
            ≡ (if q == p then deleted else if h.next == p then alive else h.cell p)
      cells p = ground arith

      same :
          (if is_alive (h.cell q) then h.broken else true)
          ≡ (if is_alive (if h.next == q then alive else h.cell q) then h.broken else true)
      same = rw n

  set_slot-set_slot :
      (k : K) (v w : Option ℕ) (t : Table K) → set_slot d k v (set_slot d k w t) ≡ set_slot d k v t
  set_slot-set_slot k v w t = fun_ext λ j. ground arith

  -- A new object that is put in a slot: what was there before is deleted, once.
  pub replace-Owns :
      (k : K) (t : Table K) (h : Heap) (o : Option ℕ)
      → t k ≡ o
      → Owns t h
      → Owns (set_slot d k (some h.next) t) (delete o (new h).1)
  replace-Owns k t h none e v = unfold delete in put-Owns k t h e v
  replace-Owns k t h (some q) e v =
      subst (λ x. Owns x (delete (some q) (new h).1)) (set_slot-set_slot k (some h.next) none t)
        (subst (Owns (set_slot d k (some h.next) (set_slot d k none t))) (new-delete h q other) (
          unfold delete in
          put-Owns k (set_slot d k none t) (delete (some q) h) (set_slot-eq k t none)
            (drop-Owns k t h (some q) e v)))
    where
      other : (h.next == q) ≡ false
      other = ground (arith, v.living k q e, v.fresh q)

  -- A new object that was put in no slot, and deleted again, leaves the table as it was.
  pub discard-Owns : (t : Table K) (h : Heap) → Owns t h → Owns t (delete (some h.next) (new h).1)
  unfolding new delete
  discard-Owns t h v = record {
    living = λ k p s. ground (arith, v.living k p s, v.fresh p);
    once = v.once;
    fresh = λ p f. ground (arith, v.fresh p (omega arith));
    owner = λ p a. v.owner p (ground arith);
    whole = ground (arith, (==_iff h.next h.next).1 refl, v.whole);
  }
