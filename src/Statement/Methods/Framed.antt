-- ===== src/Statement/Methods/Framed.antt =====
-- The methods of a statement object, one by one, and all of them.
use sqxx.Base.{
  ℕ, zero, suc, ◌+◌, refl, String, Bool, true, false, Option, none, some, if◌then◌else◌, List, [],
  ◌∷◌,
}
use sqxx.Base.Int.{ℤ, pos, pos_part}
use sqxx.Effect.{Outcome, returned, thrown, Exec, Obj, ◌>>=◌, pure}
use sqxx.Statement.{Bytes, Statement, StmtApi, step, run, query, next_row}
use sqxx.Statement.Columns.{col_index, build_table, fill, name, at_name, col_count, to_string}
use sqxx.Statement.Rows.{RowIterator, begin, loop, advance, for_each}
use sqxx.Statement.Rows.Manual.{walk, unnumbered, walk-for_each}
use sqxx.Statement.Values.{
  val_int, val_int64, val_double, val_text, val_string, val_blob, string_of,
}
use sqxx.Statement.Methods.{
  reads_int, reads_int64, reads_double, reads_text, reads_blob, reads_bytes, Method, runs, queries,
  next_rows, clears, binds, binds_named, finds, loops, walks, vals_int, vals_int64, vals_double,
  vals_text, vals_string, vals_blob, row_ints, apply_method,
}
use sqxx.Statement.Methods.Frame.{
  Frame, Within, same, then-Within, step-Within, reset-Within, clear_bindings-Within, bind-Within,
  bind_named-Within,
}

module _ {W D : Type 0} (api : StmtApi W D) (Rel : Obj Statement W → Obj Statement W → Type 0)
    (frame : Frame api Rel) where
  to_string-Within : (t : Option String) → Within api Rel frame {R = String} (to_string t)
  to_string-Within none o = same api Rel frame o
  to_string-Within (some key) o = same api Rel frame o

  fill-Within : (rounds i : ℕ) → Within api Rel frame (fill api rounds i)
  unfolding fill name
  fill-Within zero i o = same api Rel frame o
  fill-Within (suc rounds) i o =
      then-Within api Rel frame (to_string (api.column_name o.self.handle (pos i) o.world)) _
        (to_string-Within _)
        (λ key o'. frame.and_then (frame.kept o' _ refl) (fill-Within rounds (i + 1) _)) o

  build_table-Within : Within api Rel frame (build_table api)
  unfolding build_table col_count
  build_table-Within o =
      then-Within api Rel frame (fill api (pos_part (api.column_count o.self.handle o.world)) 0) _
        (fill-Within _ 0) (λ _ o'. frame.kept o' _ refl) o

  at_name-Within : (key : String) → Within api Rel frame {R = ℕ} (at_name key)
  unfolding at_name
  at_name-Within key o = frame.kept o _ refl

  col_index-Within : (key : String) → Within api Rel frame (col_index api key)
  unfolding col_index
  col_index-Within key o =
      then-Within api Rel frame (if o.self.col_index_table_built then pure tt else build_table api)
        _ (table-Within o.self.col_index_table_built) (λ _. at_name-Within key) o
    where
      table-Within : (b : Bool) → Within api Rel frame (if b then pure tt else build_table api)
      table-Within true = same api Rel frame
      table-Within false = build_table-Within

  advance-Within : (it : RowIterator) → Within api Rel frame (advance api it)
  unfolding advance
  advance-Within it =
      then-Within api Rel frame (step api) _ (step-Within api Rel frame) (λ _. same api Rel frame)

  loop-Within :
      {V : Type 0} (body : Exec (Obj Statement W) V) (fuel : ℕ) (b : Bool) (i : ℕ)
      → Within api Rel frame body
      → Within api Rel frame (loop api (λ _. body) fuel (record { attached = b; rowidx = i }))
  unfolding loop
  loop-Within body zero b i f o = same api Rel frame o
  loop-Within body (suc fuel) false i f o = same api Rel frame o
  loop-Within body (suc fuel) true i f o =
      then-Within api Rel frame body _ f
        (λ v.
          then-Within api Rel frame (advance api (record { attached = true; rowidx = i })) _
            (advance-Within (record { attached = true; rowidx = i }))
            (λ next.
              then-Within api Rel frame (loop api (λ _. body) fuel next) _
                (loop-Within body fuel next.attached next.rowidx f) (λ rest. same api Rel frame)))
        o

  for_each-Within :
      {V : Type 0} (body : Exec (Obj Statement W) V) (fuel : ℕ)
      → Within api Rel frame body
      → Within api Rel frame (for_each api (λ _. body) fuel)
  unfolding for_each begin
  for_each-Within body fuel f o = loop-Within body fuel _ _ f o

  -- By the equivalence of the two loops.
  walk-Within :
      {V : Type 0} (body : Exec (Obj Statement W) V) (fuel : ℕ)
      → Within api Rel frame body
      → Within api Rel frame (walk api body fuel)
  walk-Within {V} body fuel f o =
      rw (walk-for_each api body fuel o)
        (go (for_each api (λ _. body) fuel o) (for_each-Within body fuel f o))
    where
      go :
          (x : Outcome (Option (List (ℕ × V))) × Obj Statement W)
          → Rel o x.1
          → Rel o (unnumbered api body x).1
      go (returned out, o') h = h
      go (thrown e, o') h = h

  row_ints-Within : (cols : List ℤ) → Within api Rel frame (row_ints api cols)
  unfolding row_ints val_int
  row_ints-Within [] o = same api Rel frame o
  row_ints-Within (i ∷ is) o = frame.and_then (frame.invoked (reads_int i) o) (
      then-Within api Rel frame (row_ints api is) _ (row_ints-Within is) (λ xs. same api Rel frame)
        _)

  string_of-Within : (t : Option Bytes) (n : ℕ) → Within api Rel frame {R = Bytes} (string_of t n)
  string_of-Within none zero o = same api Rel frame o
  string_of-Within none (suc n) o = same api Rel frame o
  string_of-Within (some bytes) n o = same api Rel frame o

  val_string-Within : (idx : ℤ) → Within api Rel frame (val_string api idx)
  unfolding val_string
  val_string-Within idx o =
      frame.and_then
        (frame.and_then (frame.invoked (reads_text idx) o) (frame.invoked (reads_bytes idx) _))
        (string_of-Within _ _ _)

  val_blob-Within : (idx : ℤ) → Within api Rel frame (val_blob api idx)
  unfolding val_blob
  val_blob-Within idx o =
      frame.and_then (frame.invoked (reads_blob idx) o) (frame.invoked (reads_bytes idx) _)

  without_value-Within :
      {R : Type 0} (m : Exec (Obj Statement W) R)
      → Within api Rel frame m
      → Within api Rel frame (m >>= λ _. pure tt)
  without_value-Within m f = then-Within api Rel frame m _ f (λ _. same api Rel frame)

  -- Whatever relation holds of changing the object but for its pointer, and of calling sqlite3 on that pointer, one
  -- after another, holds of every method, also where it throws.
  pub apply_method-Within : (m : Method D) → Within api Rel frame (apply_method api m)
  unfolding apply_method run query next_row val_int val_int64 val_double val_text
  apply_method-Within runs o = step-Within api Rel frame o
  apply_method-Within queries o = step-Within api Rel frame o
  apply_method-Within next_rows o = step-Within api Rel frame o
  apply_method-Within Method.resets o = reset-Within api Rel frame o
  apply_method-Within clears o = clear_bindings-Within api Rel frame o
  apply_method-Within (binds idx v) o = bind-Within api Rel frame idx v o
  apply_method-Within (binds_named key v) o = bind_named-Within api Rel frame key v o
  apply_method-Within (finds key) o =
      without_value-Within (col_index api key) (col_index-Within key) o
  apply_method-Within (loops fuel cols) o =
      without_value-Within (for_each api (λ _. row_ints api cols) fuel)
        (for_each-Within (row_ints api cols) fuel (row_ints-Within cols)) o
  apply_method-Within (walks fuel cols) o =
      without_value-Within (walk api (row_ints api cols) fuel)
        (walk-Within (row_ints api cols) fuel (row_ints-Within cols)) o
  apply_method-Within (vals_int idx) o = frame.invoked (reads_int idx) o
  apply_method-Within (vals_int64 idx) o = frame.invoked (reads_int64 idx) o
  apply_method-Within (vals_double idx) o = frame.invoked (reads_double idx) o
  apply_method-Within (vals_text idx) o = frame.invoked (reads_text idx) o
  apply_method-Within (vals_string idx) o =
      without_value-Within (val_string api idx) (val_string-Within idx) o
  apply_method-Within (vals_blob idx) o =
      without_value-Within (val_blob api idx) (val_blob-Within idx) o
