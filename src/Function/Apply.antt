-- ===== src/Function/Apply.antt =====
-- The arguments that a callable gets, and the result that sqlite3 gets.
use mathlib.Core.List.{append-nil, append_assoc}
use sqxx.Base.{
  refl, ◌≢◌, Bool, true, false, Option, none, some, String, length, Bool-cases, inl, inr, ==_iff, ℕ,
  zero, suc, ◌+◌, ◌≡◌, sym, ap, ◌∙◌, List, [], ◌∷◌, ◌++◌, ◌==◌, if◌then◌else◌,
}
use sqxx.Base.Int.{ℤ}
use sqxx.Effect.{
  Code, sqlite_misuse, error, bad_alloc, std_exception, unknown, Outcome, returned, thrown,
}
use sqxx.Statement.{Bytes, transient, static}
use sqxx.Statement.Binding.{lifetime}
use sqxx.Function.{
  int, int64, double, text, str, blob, Result, result_int, result_int64, result_double, result_text,
  result_null, result_zeroblob, result_blob, result_error, result_error_code, result_error_nomem,
  result, catch_error, Output, Callable, result_error_misuse, apply_from, apply_value_array,
  finish_call, function_call,
}

-- argv[i], …, argv[i + n - 1]
abbrev pub items : {A : Type 0} → ℕ → ℕ → (ℕ → A) → List A
items i zero argv = []
items i (suc n) argv = argv i ∷ items (i + 1) n argv

module _ {A U R : Type 0} (f : Callable A U R) (argv : ℕ → A) where
  apply_from_lem :
      (i n : ℕ) (args : List A) (u : U)
      → apply_from i n f argv args u ≡ f (args ++ items i n argv) u
  unfolding apply_from
  apply_from_lem i zero args u = ap (λ l. f l u) (sym (append-nil args))
  apply_from_lem i (suc n) args u =
      apply_from_lem (i + 1) n (args ++ (argv i ∷ [])) u
      ∙ ap (λ l. f l u) (append_assoc args (argv i ∷ []) (items (i + 1) n argv))

  -- The callable is called once, with the base arguments and then argv[0] to argv[n - 1] in order.
  pub apply_value_array_lem :
      (n : ℕ) (baseargs : List A) (u : U)
      → apply_value_array n f argv baseargs u ≡ f (baseargs ++ items 0 n argv) u
  unfolding apply_value_array
  apply_value_array_lem n baseargs u = apply_from_lem 0 n baseargs u

module _ {A D U : Type 0} (f : Callable A U (Output D)) (argv : ℕ → A) where
  pub function_call_lem :
      (n argc : ℕ) (u : U)
      → function_call n f argc argv u
        ≡ (if argc == n then finish_call (f (items 0 n argv) u) else (result_error_misuse, u))
  unfolding function_call
  function_call_lem n argc u = rw (apply_value_array_lem f argv n [] u)

-- What SQL is to get for each value and each exception of a callable: the value as one of its SQL type, where
-- text and blobs are copied or not as the callable asks; a null pointer is NULL, and a blob with none is one
-- of zeros; a sqxx::error gives its code, std::bad_alloc that there is no memory, another std::exception its
-- text, and anything else a misuse.
pub data Answers {D : Type 0} : Outcome (Output D) → Result D → Type 0 where
  an_int : {z : ℤ} → Answers (returned (int z)) (result_int z)
  an_int64 : {z : ℤ} → Answers (returned (int64 z)) (result_int64 z)
  a_double : {x : D} → Answers (returned (double x)) (result_double x)
  no_text : {copy : Bool} → Answers (returned (text none copy)) result_null
  a_copied_text :
      {bytes : Bytes}
      → Answers (returned (text (some bytes) true)) (result_text bytes (length bytes) transient)
  a_static_text :
      {bytes : Bytes}
      → Answers (returned (text (some bytes) false)) (result_text bytes (length bytes) static)
  a_copied_string :
      {bytes : Bytes}
      → Answers (returned (str bytes true)) (result_text bytes (length bytes) transient)
  a_static_string :
      {bytes : Bytes}
      → Answers (returned (str bytes false)) (result_text bytes (length bytes) static)
  zeros :
      {size : ℕ} {copy : Bool}
      → Answers
          (returned (blob (record { address = none; size = size }) copy))
          (result_zeroblob size)
  a_copied_blob :
      {bytes : Bytes} {size : ℕ}
      → Answers
          (returned (blob (record { address = some bytes; size = size }) true))
          (result_blob bytes size transient)
  a_static_blob :
      {bytes : Bytes} {size : ℕ}
      → Answers
          (returned (blob (record { address = some bytes; size = size }) false))
          (result_blob bytes size static)
  an_error :
      {code : Code} {what : String} → Answers (thrown (error code what)) (result_error_code code)
  no_memory : Answers (thrown bad_alloc) result_error_nomem
  an_exception : {what : String} → Answers (thrown (std_exception what)) (result_error what)
  anything : {n : ℕ} → Answers (thrown (unknown n)) (result_error_code sqlite_misuse)

blob_lem :
    {D : Type 0} (a : Option Bytes) (size : ℕ) (copy : Bool)
    → let b : Output D = blob (record { address = a; size = size }) copy in
      Answers (returned b) (result b)
unfolding result lifetime
blob_lem none size copy = zeros
blob_lem (some bytes) size true = a_copied_blob
blob_lem (some bytes) size false = a_static_blob

module _ {D U : Type 0} where
  finish_call-Answers :
      (r : Outcome (Output D)) (u : U)
      → Answers r (finish_call (r, u)).0 × ((finish_call (r, u)).1 ≡ u)
  unfolding finish_call result catch_error lifetime
  finish_call-Answers (returned (int z)) u = (an_int, refl)
  finish_call-Answers (returned (int64 z)) u = (an_int64, refl)
  finish_call-Answers (returned (double x)) u = (a_double, refl)
  finish_call-Answers (returned (text none copy)) u = (no_text, refl)
  finish_call-Answers (returned (text (some bytes) true)) u = (a_copied_text, refl)
  finish_call-Answers (returned (text (some bytes) false)) u = (a_static_text, refl)
  finish_call-Answers (returned (str bytes true)) u = (a_copied_string, refl)
  finish_call-Answers (returned (str bytes false)) u = (a_static_string, refl)
  finish_call-Answers (returned (blob b copy)) u = (blob_lem b.address b.size copy, refl)
  finish_call-Answers (thrown (error code what)) u = (an_error, refl)
  finish_call-Answers (thrown bad_alloc) u = (no_memory, refl)
  finish_call-Answers (thrown (std_exception what)) u = (an_exception, refl)
  finish_call-Answers (thrown (unknown n)) u = (anything, refl)

-- What a call of a SQL function comes to: the callable is called once, with argv[0] to argv[n - 1]; or, with any
-- other number of arguments than it takes, it is not called.
pub data Called {A D U : Type 0} (f : Callable A U (Output D)) (argv : ℕ → A) (n argc : ℕ) (u : U)
    : Result D × U → Type 0 where
  once :
      {res : Result D} {u' : U}
      → argc ≡ n
      → Answers (f (items 0 n argv) u).0 res
      → (f (items 0 n argv) u).1 ≡ u'
      → Called f argv n argc u (res, u')
  never : argc ≢ n → Called f argv n argc u (result_error_code sqlite_misuse, u)

module _ {A D U : Type 0} (f : Callable A U (Output D)) (argv : ℕ → A) where
  -- A SQL function called with as many arguments as its callable takes calls it once, with those in
  -- order; its value is the result, as a value of the SQL type that belongs to it, and of an exception the
  -- error that belongs to its type: the code of a sqxx::error, no memory for std::bad_alloc, the text of any
  -- other std::exception, and a misuse for anything else. With any other number of arguments it is a
  -- misuse, and the callable is not called.
  pub function_call-Called :
      (n argc : ℕ) (u : U) → Called f argv n argc u (function_call n f argc argv u)
  function_call-Called n argc u = elim (Bool-cases (argc == n)) [
    | inl e ↦
        let r = f (items 0 n argv) u in
        let (given, kept) = finish_call-Answers r.0 r.1 in
        rw (function_call_lem f argv n argc u, e) (once ((==_iff argc n).0 e) given (sym kept))
    | inr e ↦
        rw (function_call_lem f argv n argc u, e) (never (λ same. cc ((==_iff argc n).1 same)))
  ]
