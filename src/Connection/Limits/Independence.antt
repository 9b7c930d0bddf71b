-- ===== src/Connection/Limits/Independence.antt =====
-- Each of the functions reads and sets the limit that it is named for, and no other.
use mathlib.Core.Path.{subst}
use mathlib.Core.Logic.{ite, if_neg}
use sqxx.Base.{arith, ℕ, ◌≤◌, ◌≡◌, refl, ◌∙◌, ap, if◌then◌else◌, leb}
use sqxx.Base.Int.{ℤ, pos, negsuc}
use sqxx.Statement.{Handle}
use sqxx.Connection.Limits.{
  LimitId, length, sql_length, column, expr_depth, compound_select, vdbe_op, function_arg, attached,
  like_pattern_length, variable_number, trigger_depth, worker_threads, LimitId-discrete, LimitApi,
  limit, limit_length, limit_sql_length, limit_column, limit_expr_depth, limit_compound_select,
  limit_vdbe_op, limit_function_arg, limit_attached, limit_like_pattern_length,
  limit_variable_number, limit_trigger_depth, limit_worker_threads,
}

-- What a limit is after a new value is asked for: no less than what it was for a negative value, and
-- no more than its hard upper bound.
unfoldable pub bounded : ℤ → ℕ → ℕ → ℕ
bounded (pos v) hard current = if leb v hard then v else hard
bounded (negsuc v) hard current = current

-- What sqlite3 documents.
pub record LimitLaws {W : Type 0} (api : LimitApi W) : Type 0 where
  pub current : Handle → LimitId → W → ℕ
  pub hard : LimitId → ℕ
  pub within : (h : Handle) (i : LimitId) (w : W) → current h i w ≤ hard i
  pub answers :
      (h : Handle) (i : LimitId) (v : ℤ) (w : W) → (api.limit h i v w).0 ≡ pos (current h i w)
  pub sets :
      (h : Handle) (i j : LimitId) (v : ℤ) (w : W)
      → current h j (api.limit h i v w).1
        ≡ ite (LimitId-discrete i j) (bounded v (hard j) (current h j w)) (current h j w)

bounded-Within : (v hard current : ℕ) → v ≤ hard → bounded (pos v) hard current ≡ v
unfolding bounded
bounded-Within v hard current h = ground arith

module _ {W : Type 0} (api : LimitApi W) (handle : Handle) where
  -- The function that is named for a limit.
  unfoldable pub limit_of : LimitId → ℤ → W → ℤ × W
  limit_of length = limit_length api handle
  limit_of sql_length = limit_sql_length api handle
  limit_of column = limit_column api handle
  limit_of expr_depth = limit_expr_depth api handle
  limit_of compound_select = limit_compound_select api handle
  limit_of vdbe_op = limit_vdbe_op api handle
  limit_of function_arg = limit_function_arg api handle
  limit_of attached = limit_attached api handle
  limit_of like_pattern_length = limit_like_pattern_length api handle
  limit_of variable_number = limit_variable_number api handle
  limit_of trigger_depth = limit_trigger_depth api handle
  limit_of worker_threads = limit_worker_threads api handle

  limit_of_lem : (i : LimitId) (v : ℤ) (w : W) → limit_of i v w ≡ api.limit handle i v w
  unfolding limit_of limit limit_length limit_sql_length limit_column limit_expr_depth
      limit_compound_select limit_vdbe_op limit_function_arg limit_attached
      limit_like_pattern_length limit_variable_number limit_trigger_depth limit_worker_threads
  limit_of_lem length v w = refl
  limit_of_lem sql_length v w = refl
  limit_of_lem column v w = refl
  limit_of_lem expr_depth v w = refl
  limit_of_lem compound_select v w = refl
  limit_of_lem vdbe_op v w = refl
  limit_of_lem function_arg v w = refl
  limit_of_lem attached v w = refl
  limit_of_lem like_pattern_length v w = refl
  limit_of_lem variable_number v w = refl
  limit_of_lem trigger_depth v w = refl
  limit_of_lem worker_threads v w = refl

module _ {W : Type 0} (api : LimitApi W) (laws : LimitLaws api) (handle : Handle) where
  -- For a sqlite3_limit as documented: a function asked with a negative value tells what a function
  -- before it has set, that is the new value within its hard bound where both are named for one
  -- limit, and the limit's old value otherwise.
  pub limit_of-limit_of :
      (i j : LimitId) (v : ℤ) (w : W)
      → (limit_of api handle j (negsuc 0) (limit_of api handle i v w).1).0
        ≡ pos (
            ite
              (LimitId-discrete i j)
              (bounded v (laws.hard j) (laws.current handle j w))
              (laws.current handle j w))
  limit_of-limit_of i j v w =
      ap (λ x. x.0) (limit_of_lem api handle j (negsuc 0) _)
      ∙ laws.answers handle j (negsuc 0) _
      ∙ ap (λ x. pos (laws.current handle j x.1)) (limit_of_lem api handle i v w)
      ∙ ap pos (laws.sets handle i j v w)

  -- For a sqlite3_limit as documented: setting a limit and then setting it to the value that the
  -- first call gave leaves every limit what it was.
  pub limit_of-restores :
      (i j : LimitId) (v : ℤ) (w : W)
      → let (old, w') = limit_of api handle i v w in
        laws.current handle j (limit_of api handle i old w').1 ≡ laws.current handle j w
  limit_of-restores i j v w =
      ap (λ x. laws.current handle j x.1) (limit_of_lem api handle i _ _)
      ∙ ap (λ x. laws.current handle j (api.limit handle i x.0 x.1).1)
          (limit_of_lem api handle i v w)
      ∙ ap (λ x. laws.current handle j (api.limit handle i x (api.limit handle i v w).1).1)
          (laws.answers handle i v w)
      ∙ laws.sets handle i j _ _
      ∙ go (LimitId-discrete i j) refl
    where
      go :
          (d : Dec (i ≡ j))
          → LimitId-discrete i j ≡ d
          → ite d
              (bounded
                (pos (laws.current handle i w))
                (laws.hard j)
                (laws.current handle j (api.limit handle i v w).1))
              (laws.current handle j (api.limit handle i v w).1)
            ≡ laws.current handle j w
      go (yes same) e =
          bounded-Within _ _ _
            (subst (λ x. laws.current handle i w ≤ laws.hard x) same (laws.within handle i w))
          ∙ ap (λ x. laws.current handle x w) same
      go (no other) e = laws.sets handle i j v w ∙ if_neg (LimitId-discrete i j) other _ _
