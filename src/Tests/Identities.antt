-- ===== src/Tests/Identities.antt =====
-- Values whose state is the one argument, and the theorem at them.
use sqxx.Base.{ℕ, ◌≡◌, refl, some, none, [], ◌∷◌}
use sqxx.Statement.Echo.{Cell, text_cell}
use sqxx.Function.{function_call}
use sqxx.Tests.Cells.{int_in, real_in, text_in, blob_in, size_in}
use sqxx.SqlValue.{ValueApi}
use sqxx.SqlValue.Identity.{ValueLaws, as_str, identity, result_cell, function_call-identity}

abbrev values : ValueApi (Cell ℕ) ℕ
values = record {
  null_type = 5;
  value_type = λ h w. (3, w);
  value_int = λ h w. (int_in w, w);
  value_int64 = λ h w. (int_in w, w);
  value_double = λ h w. (real_in w, w);
  value_text = λ h w. (text_in w, w);
  value_blob = λ h w. (blob_in w, w);
  value_bytes = λ h w. (size_in w, w);
}

abbrev values-ValueLaws : ValueLaws values
values-ValueLaws = record {
  cell = λ h w. w;
  value_int = λ z h w f e. rw e refl;
  value_int64 = λ z h w f e. rw e refl;
  value_double = λ d h w e. rw e refl;
  null_text = λ h w e. rw e refl;
  value_text = λ bytes h w e. rw e (refl, refl);
  value_blob = λ bytes h w e. rw e (refl, refl);
}

function_call-identity_example :
    result_cell
      (function_call 1 (identity values as_str) 1 (λ i. none) (text_cell (104 ∷ 0 ∷ 105 ∷ []))).0
    ≡ some (text_cell (104 ∷ 0 ∷ 105 ∷ []))
function_call-identity_example =
    function_call-identity values values-ValueLaws as_str (text_cell (104 ∷ 0 ∷ 105 ∷ []))
      (λ i. none) (text_cell (104 ∷ 0 ∷ 105 ∷ [])) refl tt
