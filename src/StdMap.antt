-- ===== src/StdMap.antt =====
-- std::map<std::string, V>, as its entries in the order in which their keys were last set: the source
-- never walks over its maps, so the order of std::map is not modelled.
use text.Mathlib.Text.{◌==◌}
use text.Mathlib.TextEquality.{eq_iff}
use sqxx.Base.{
  String, false, ◌≡◌, refl, Option, none, some, List, [], ◌∷◌, if◌then◌else◌, arith, Bool-cases,
  inl, inr,
}

module _ {ℓ} {V : Type ℓ} where
  found_at : String × V → String → Option V → Option V
  found_at (own, v) key later = if own == key then some v else later

  unfoldable pub lookup : String → List (String × V) → Option V
  unfolding found_at
  lookup key [] = none
  lookup key (entry ∷ entries) = found_at entry key (lookup key entries)

  erase : String → List (String × V) → List (String × V)
  erase key [] = []
  erase key (entry ∷ entries) =
      let others = erase key entries in if entry.0 == key then others else entry ∷ others

  -- m[key] = v
  unfoldable pub insert : String → V → List (String × V) → List (String × V)
  unfolding erase
  insert key v entries = (key, v) ∷ erase key entries

  pub lookup-nil : (key : String) → lookup key [] ≡ none
  unfolding lookup
  lookup-nil key = refl

  -- Erasing a key leaves the values of the others.
  lookup-erase :
      (key other : String) (entries : List (String × V))
      → (key == other) ≡ false
      → lookup other (erase key entries) ≡ lookup other entries
  unfolding lookup found_at erase
  lookup-erase key other [] e = refl
  lookup-erase key other ((own, v) ∷ entries) e =
      ground (
        arith,
        eq_iff own key,
        eq_iff own other,
        eq_iff key other,
        lookup-erase key other entries e,
      )

  pub lookup-insert :
      (key other : String) (v : V) (entries : List (String × V))
      → lookup other (insert key v entries)
        ≡ (if key == other then some v else lookup other entries)
  unfolding lookup found_at insert
  lookup-insert key other v entries = elim (Bool-cases (key == other)) [
    | inl same ↦ rw same
    | inr apart ↦ rw apart (lookup-erase key other entries apart)
  ]

-- The expression `m[key]`: a missing key is inserted with the value `fresh`.
abbrev pub index {ℓ} : {V : Type ℓ} → V → String → List (String × V) → V × List (String × V)
index fresh key m = elim (lookup key m) [ none ↦ (fresh, insert key fresh m) | some v ↦ (v, m) ]
