-- ===== src/Callbacks/Guard.antt =====
-- No exception of a handler gets through to sqlite3, and which answer stands in for it.
use Prim.Native.String.{◌++◌}
use sqxx.Base.{String, ◌≡◌, ap, some, ◌∷◌}
use sqxx.Effect.{Exception, Outcome, returned, thrown}
use sqxx.Callbacks.{
  Log, ExceptionHandler, describe, default_callback_exception_handler, after_handler,
  handle_callback_exception, caught, guarded, converted, map_result,
}

module _ {U R : Type 0} (h : ExceptionHandler U) (cbname : String) (fallback : R) where
  guarded-thrown :
      (run : Log U → Outcome R × Log U) (ex : Exception) (l l' : Log U)
      → run l ≡ (thrown ex, l')
      → guarded h cbname fallback run l ≡ (fallback, handle_callback_exception h cbname ex l')
  unfolding guarded
  guarded-thrown run ex l l' e = ap (caught h cbname fallback) e

  guarded-returned :
      (run : Log U → Outcome R × Log U) (v : R) (l l' : Log U)
      → run l ≡ (returned v, l')
      → guarded h cbname fallback run l ≡ (v, l')
  unfolding guarded
  guarded-returned run v l l' e = ap (caught h cbname fallback) e

module _ {U A B : Type 0} (f : A → B) (run : Log U → Outcome A × Log U) where
  map_result-thrown :
      (ex : Exception) (l l' : Log U)
      → run l ≡ (thrown ex, l')
      → map_result f run l ≡ (thrown ex, l')
  map_result-thrown ex l l' e = ap (converted f) e

  map_result-returned :
      (v : A) (l l' : Log U) → run l ≡ (returned v, l') → map_result f run l ≡ (returned (f v), l')
  map_result-returned v l l' e = ap (converted f) e

module _ {U : Type 0} where
  -- Where the handler of exceptions throws itself, its exception does not get out: the default
  -- handler writes one line for it to std::cerr, and what the handler wrote before stays.
  pub handle_callback_exception-throwing :
      (handler : String → Exception → Log U → Outcome (Unit {0}) × Log U) (cbname : String)
      (ex ex' : Exception) (l l' : Log U)
      → handler cbname ex l ≡ (thrown ex', l')
      → handle_callback_exception (some handler) cbname ex l ≡ record l' {
        cerr =
            ("SQXX: uncaught exeption in " ++ "callback exception handler" ++ ": " ++ describe ex')
            ∷ l'.cerr;
      }
  unfolding handle_callback_exception default_callback_exception_handler
  handle_callback_exception-throwing handler cbname ex ex' l l' e = rw (e, after_handler)
