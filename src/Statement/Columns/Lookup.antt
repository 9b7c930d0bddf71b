-- ===== src/Statement/Columns/Lookup.antt =====
-- `statement::col_index()`: the cached table and the index that it answers with.
use sqxx.Base.{
  ℕ, suc, ◌+◌, String, ◌≡◌, refl, ap, if◌then◌else◌, Bool, true, false, some, List, [], ◌∷◌, length,
  get_elem?, arith, Bool-cases, inl, inr,
}
use native.Mathlib.Nat.{add-zero, zero-add}
use mathlib.Core.Path.{subst}
use sqxx.StdMap
use sqxx.Base.Int.{pos}
use sqxx.Effect.{Exec, Obj, Outcome, returned, pure, ◌>>◌}
use sqxx.Statement.{Handle, Statement, StmtApi}
use sqxx.Statement.Columns.{col_index, build_table, fill, at_name}
use sqxx.Statement.Columns.Table.{Answers, Answering, put_all, put_all-Answering, index-Answering}

-- What sqlite3 tells of a prepared statement: the names of its columns.
pub record HasColumns {W D : Type 0} (api : StmtApi W D) (h : Handle) (w : W) (names : List String)
    : Type 0 where
  pub count : api.column_count h w ≡ pos (length names)
  pub name_at :
      (i : ℕ) (x : String) → get_elem? names i ≡ some x → api.column_name h (pos i) w ≡ some x

-- The table is empty until it is built, and then answers for every name.
abbrev pub CoherentAt : List String → Bool → List (String × ℕ) → Type 0
CoherentAt names false table = table ≡ []
CoherentAt names true table = Answering names table

abbrev pub IsCoherent : List String → Statement → Type 0
IsCoherent names s = CoherentAt names s.col_index_table_built s.col_index_table

-- A run of `col_index(text)` on `o` that answers for the column, and keeps the table coherent.
abbrev pub AnswersWith :
    {W : Type 0} → List String → String → Obj Statement W → Outcome ℕ × Obj Statement W → Type 0
AnswersWith names text o r =
    (j : ℕ) × (s : Statement) × (r ≡ (returned j, record o { self = s }))
    × Answers text names (some j)
    × IsCoherent names s
    × (s.handle ≡ o.self.handle)
    × (s.completed ≡ o.self.completed)

module _ {W D : Type 0} (api : StmtApi W D) where
  fill_lem :
      (names : List String) (i : ℕ) (o : Obj Statement W)
      → ((k : ℕ) (x : String)
          → get_elem? names k ≡ some x
          → api.column_name o.self.handle (pos (i + k)) o.world ≡ some x)
      → fill api (length names) i o ≡ (
        returned tt,
        record o {
          self = record o.self { col_index_table = put_all i names o.self.col_index_table };
        },
      )
  unfolding fill put_all
  fill_lem [] i o h = refl
  fill_lem (x ∷ xs) i o h =
      let first : api.column_name o.self.handle (pos i) o.world ≡ some x =
        rw add-zero at (h 0 x refl) in
      rw first (
        fill_lem xs (i + 1)
          (record o {
            self = record o.self { col_index_table = StdMap.insert x i o.self.col_index_table };
          })
          (λ k y e. let next : i + 1 + k ≡ i + suc k = omega arith in rw next (h (suc k) y e)))

  build_table_lem :
      (names : List String) (o : Obj Statement W)
      → HasColumns api o.self.handle o.world names
      → build_table api o ≡ (
        returned tt,
        record o {
          self = record o.self {
            col_index_table = put_all 0 names o.self.col_index_table;
            col_index_table_built = true;
          };
        },
      )
  unfolding build_table
  build_table_lem names o c =
      rw c.count (rw (fill_lem names 0 o (λ k x e. rw zero-add (c.name_at k x e))))

  at_name-AnswersWith :
      (names : List String) (text : String) (o : Obj Statement W)
      → o.self.col_index_table_built ≡ true
      → Answering names o.self.col_index_table
      → AnswersWith names text o (at_name text o)
  unfolding at_name
  at_name-AnswersWith names text o b h =
      let (j, t, e, a, k) = index-Answering text names o.self.col_index_table h in
      (j, record o.self { col_index_table = t }, rw e, a, rw b k, refl, refl)

  abbrev prepare_then : String → Bool → Exec (Obj Statement W) ℕ
  prepare_then text built = (if built then pure tt else build_table api) >> at_name text

  col_index_of :
      (text : String) (built : Bool) (o : Obj Statement W)
      → o.self.col_index_table_built ≡ built
      → col_index api text o ≡ prepare_then text built o
  unfolding col_index
  col_index_of text built o e = ap (λ b. prepare_then text b o) e

  -- On a statement whose table is not built, or is coherent with the names of its columns, all of
  -- which sqlite3 can tell: `col_index(name)` returns an index of a column of that name, or 0 where
  -- no column has it; it keeps the table coherent, and changes nothing but the table.
  pub col_index-AnswersWith :
      (names : List String) (text : String) (o : Obj Statement W)
      → HasColumns api o.self.handle o.world names
      → IsCoherent names o.self
      → AnswersWith names text o (col_index api text o)
  col_index-AnswersWith names text o c h = elim (Bool-cases o.self.col_index_table_built) [
    | inl b ↦ rw (col_index_of text true o b) (
        at_name-AnswersWith names text o b
          (subst (λ x. CoherentAt names x o.self.col_index_table) b h))
    | inr b ↦
        let empty : o.self.col_index_table ≡ [] =
          subst (λ x. CoherentAt names x o.self.col_index_table) b h in
        rw (col_index_of text false o b, build_table_lem names o c)
          (at_name-AnswersWith names text _ refl (rw empty (put_all-Answering names)))
  ]
