-- ===== src/Tests/Echoes.antt =====
-- A sqlite3 for `SELECT ?`, and the theorem at it.
use sqxx.Base.{
  Bool, false, not, leb, ◌≤◌, ◌==◌, arith, if◌then◌else◌, ℕ, ◌≡◌, refl, true, none, some, [], ◌∷◌,
  take,
}
use sqxx.Base.Int.{pos}
use sqxx.Effect.{
  Code, sqlite_ok, sqlite_error, sqlite_misuse, sqlite_done, sqlite_row, returned, ◌>>◌,
}
use sqxx.Statement.{StmtApi, init, run}
use sqxx.Tests.Cells.{int_in, real_in, text_in, blob_in, size_in}
use sqxx.Statement.Binding.{Value, str, bind}
use sqxx.Statement.Echo.{
  Cell, null_cell, integer, real, text_cell, blob_cell, zeros, EchoLaws, fetch, fetch-run-bind,
}

-- The value of the parameter, that of the row, and whether the statement was stepped.
record World : Type 0 where
  parameter : Cell ℕ
  row : Cell ℕ
  stepped : Bool

abbrev set : Cell ℕ → World → Code × World
set c w = if w.stepped then (sqlite_misuse, w) else (sqlite_ok, record w { parameter = c })

-- Lengths go to 1000.
abbrev set_long : ℕ → Cell ℕ → World → Code × World
set_long n c w = if leb n 1000 then set c w else (sqlite_error, w)

-- The double 0 stands for the NaN.
abbrev real_or_null : ℕ → Cell ℕ
real_or_null d = if d == 0 then null_cell else real d

abbrev echo : StmtApi World ℕ
echo = record {
  errstr = λ c. "error";
  step = λ h w.
      if w.stepped
      then (sqlite_done, record w { stepped = false })
      else (sqlite_row, record w { row = w.parameter; stepped = true });
  reset = λ h w. (sqlite_ok, record w { stepped = false });
  finalize = λ h w. (sqlite_ok, w);
  clear_bindings = λ h w. set null_cell w;
  bind_parameter_index = λ h name w. pos 0;
  bind_parameter_count = λ h w. pos 1;
  bind_parameter_name = λ h at w. none;
  bind_null = λ h at. set null_cell;
  bind_int = λ h at z. set (integer z);
  bind_int64 = λ h at z. set (integer z);
  bind_double = λ h at d. set (real_or_null d);
  bind_text64 = λ h at bytes n life. set_long n (text_cell (take n bytes));
  bind_blob64 = λ h at bytes n life. set_long n (blob_cell (take n bytes));
  bind_zeroblob64 = λ h at n. set_long n (blob_cell (zeros n));
  column_count = λ h w. pos 1;
  column_name = λ h i w. some "?";
  column_int = λ h i w. (int_in w.row, w);
  column_int64 = λ h i w. (int_in w.row, w);
  column_double = λ h i w. (real_in w.row, w);
  column_text = λ h i w. (text_in w.row, w);
  column_blob = λ h i w. (blob_in w.row, w);
  column_bytes = λ h i w. (size_in w.row, w);
}

is_free : (w : World) → not w.stepped ≡ true → w.stepped ≡ false
is_free w r = ground (arith, r)

Set : Cell ℕ → Code × World → Type 0
Set c (rv, w) = (rv ≡ sqlite_ok) × (w.parameter ≡ c) × (not w.stepped ≡ true)

set_lem : (c : Cell ℕ) (w : World) → not w.stepped ≡ true → Set c (set c w)
unfolding Set
set_lem c w r = rw (is_free w r) (refl, refl, refl)

set_long_lem :
    (n : ℕ) (c : Cell ℕ) (w : World) → n ≤ 1000 → not w.stepped ≡ true → Set c (set_long n c w)
set_long_lem n c w m r = rw (leb_true n m) (set_lem c w r)
  where
    leb_true : (n : ℕ) → n ≤ 1000 → leb n 1000 ≡ true
    leb_true n m = ground arith

abbrev echo-EchoLaws : EchoLaws echo (some 7)
unfolding Set
echo-EchoLaws = record {
  bound = λ w. w.parameter;
  row = λ w. w.row;
  is_ready = λ w. not w.stepped;
  is_nan = λ d. d == 0;
  limit = 1000;
  nulls = λ w r. set_lem null_cell w r;
  ints = λ z w f r. set_lem (integer z) w r;
  int64s = λ z w f r. set_lem (integer z) w r;
  doubles = λ d w n r. rw n (set_lem (real d) w r);
  texts = λ bytes n l w f m r. set_long_lem n (text_cell (take n bytes)) w m r;
  blobs = λ bytes n l w f m r. set_long_lem n (blob_cell (take n bytes)) w m r;
  zeroblobs = λ n w m r. set_long_lem n (blob_cell (zeros n)) w m r;
  steps = λ w r. rw (is_free w r) (refl, refl);
  null_text = λ w e. rw e refl;
  column_int = λ z w f e. rw e refl;
  column_int64 = λ z w f e. rw e refl;
  column_double = λ d w e. rw e refl;
  column_text = λ bytes w e. rw e (refl, refl);
  column_blob = λ bytes w e. rw e (refl, refl);
}

abbrev greeting : Value ℕ
greeting = str (104 ∷ 0 ∷ 105 ∷ []) true

abbrev not_stepped : World
not_stepped = record { parameter = null_cell; row = null_cell; stepped = false }

fetch-run-bind_example :
    ((bind echo (pos 0) greeting >> (run echo >> fetch echo greeting))
      (record { self = init 0 (some 7); world = not_stepped })).0
    ≡ returned greeting
unfolding init echo-EchoLaws
fetch-run-bind_example =
    fetch-run-bind echo (init 0 (some 7)) echo-EchoLaws greeting not_stepped (omega arith) refl
