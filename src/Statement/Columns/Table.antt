-- ===== src/Statement/Columns/Table.antt =====
-- The lookup table that the loop of `statement::col_index()` builds.
use text.Mathlib.Text.{◌==◌}
use text.Mathlib.TextEquality.{eq_iff}
use sqxx.Base.{
  ℕ, zero, suc, ◌+◌, String, ◌≡◌, ◌≢◌, refl, ◌⊎◌, inl, inr, Option, none, some, List, [], ◌∷◌,
  get_elem?, if◌then◌else◌, arith, Bool-cases,
}
use sqxx.StdMap

-- No column has the name.
abbrev pub Absent : String → List String → Type 0
Absent name [] = Unit
Absent name (x ∷ xs) = (x ≢ name) × Absent name xs

-- The index that the loop leaves for a name, given what it had for it: the last one wins.
pub find_last : String → ℕ → List String → Option ℕ → Option ℕ
find_last name i [] found = found
find_last name i (x ∷ xs) found = find_last name (i + 1) xs (if x == name then some i else found)

-- What a lookup has found, of the columns with these names.
abbrev pub Found : String → List String → Option ℕ → Type 0
Found name names none = Absent name names
Found name names (some j) = get_elem? names j ≡ some name

-- The same for the tail of the names, with what was known before.
abbrev FoundFrom : String → ℕ → List String → Option ℕ → Option ℕ → Type 0
FoundFrom name i names found none = (found ≡ none) × Absent name names
FoundFrom name i names found (some j) =
    (found ≡ some j) ⊎ ((k : ℕ) × (j ≡ i + k) × (get_elem? names k ≡ some name))

FoundFrom-cons :
    (name x : String) (i : ℕ) (names : List String) (found r : Option ℕ)
    → FoundFrom name (i + 1) names (if x == name then some i else found) r
    → FoundFrom name i (x ∷ names) found r
FoundFrom-cons name x i names found none (e, h) =
    (ground (arith, eq_iff x name), (ground (arith, eq_iff x name), h))
FoundFrom-cons name x i names found (some j) (inl e) = elim (Bool-cases (x == name)) [
  | inl same ↦ inr (zero, ground arith, ground (arith, eq_iff x name))
  | inr other ↦ inl (ground arith)
]
FoundFrom-cons name x i names found (some j) (inr (k, e, h)) = inr (suc k, omega arith, h)

find_last-FoundFrom :
    (name : String) (i : ℕ) (names : List String) (found : Option ℕ)
    → FoundFrom name i names found (find_last name i names found)
unfolding find_last
find_last-FoundFrom name i [] none = (refl, tt)
find_last-FoundFrom name i [] (some j) = inl refl
find_last-FoundFrom name i (x ∷ xs) found =
    FoundFrom-cons name x i xs found _ (find_last-FoundFrom name (i + 1) xs _)

FoundFrom-Found :
    (name : String) (names : List String) (r : Option ℕ)
    → FoundFrom name 0 names none r
    → Found name names r
FoundFrom-Found name names none (_, h) = h
FoundFrom-Found name names (some j) (inl e) = absurd (cc)
FoundFrom-Found name names (some j) (inr (k, e, h)) =
    let same : j ≡ k = omega (arith, e) in rw same h

pub find_last-Found :
    (name : String) (names : List String) → Found name names (find_last name 0 names none)
find_last-Found name names = FoundFrom-Found name names _ (find_last-FoundFrom name 0 names none)

-- What a lookup in the finished table finds: a name of no column may have been added at index 0.
abbrev pub Answers : String → List String → Option ℕ → Type 0
Answers name names none = Absent name names
Answers name names (some j) = (get_elem? names j ≡ some name) ⊎ ((j ≡ 0) × Absent name names)

Found-Answers :
    (name : String) (names : List String) (r : Option ℕ) → Found name names r → Answers name names r
Found-Answers name names none h = h
Found-Answers name names (some j) h = inl h

-- The entries that the loop writes from index `i` on.
unfoldable pub put_all : ℕ → List String → List (String × ℕ) → List (String × ℕ)
put_all i [] table = table
put_all i (x ∷ xs) table = put_all (i + 1) xs (StdMap.insert x i table)

lookup-put_all :
    (name : String) (i : ℕ) (names : List String) (table : List (String × ℕ))
    → StdMap.lookup name (put_all i names table) ≡ find_last name i names (StdMap.lookup name table)
unfolding put_all find_last
lookup-put_all name i [] table = refl
lookup-put_all name i (x ∷ xs) table =
    rw (lookup-put_all name (i + 1) xs (StdMap.insert x i table))
      (rw (StdMap.lookup-insert x name i table))

abbrev pub Answering : List String → List (String × ℕ) → Type 0
Answering names table = (name : String) → Answers name names (StdMap.lookup name table)

pub put_all-Answering : (names : List String) → Answering names (put_all 0 names [])
put_all-Answering names name =
    rw (lookup-put_all name 0 names [], StdMap.lookup-nil {V = ℕ} name)
      (Found-Answers name names _ (find_last-Found name names))

insert_zero-Answers :
    (text name : String) (names : List String) (r : Option ℕ)
    → Absent text names
    → Answers name names r
    → Answers name names (if text == name then some 0 else r)
insert_zero-Answers text name names r a h = elim (Bool-cases (text == name)) [
  | inl same ↦ rw same (inr (refl, rw (← (eq_iff text name).0 same) a))
  | inr other ↦ rw other h
]

index-cases :
    (text : String) (names : List String) (table : List (String × ℕ)) (r : Option ℕ)
    → StdMap.lookup text table ≡ r
    → Answers text names r
    → Answering names table
    → (j : ℕ) × (t : List (String × ℕ)) × (StdMap.index 0 text table ≡ (j, t))
      × Answers text names (some j)
      × Answering names t
index-cases text names table none e a h = (
  0,
  StdMap.insert text 0 table,
  rw (e, StdMap.index),
  inr (refl, a),
  λ name.
      rw (StdMap.lookup-insert text name 0 table)
        (insert_zero-Answers text name names _ a (h name)),
)
index-cases text names table (some j) e a h = (j, table, rw (e, StdMap.index), a, h)

-- An access by name answers for the column, and leaves a table that answers.
pub index-Answering :
    (text : String) (names : List String) (table : List (String × ℕ))
    → Answering names table
    → (j : ℕ) × (t : List (String × ℕ)) × (StdMap.index 0 text table ≡ (j, t))
      × Answers text names (some j)
      × Answering names t
index-Answering text names table h = index-cases text names table _ refl (h text) h
