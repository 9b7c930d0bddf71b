-- ===== src/Global/Library.antt =====
-- global.cpp, the functions of the whole library besides the counters: its memory and the limit on it, its
-- version and options, random bytes, and whether a text is a complete statement.
use sqxx.Base.{String, Bool, Option}
use sqxx.Base.Int.{ℤ, to_bool}
use sqxx.Statement.{Bytes}

pub record LibraryApi (W : Type 0) : Type 0 where
  pub release_memory : ℤ → W → ℤ × W
  pub soft_heap_limit64 : ℤ → W → ℤ × W
  pub sourceid : String
  pub libversion : String
  pub libversion_number : ℤ
  pub threadsafe : ℤ
  pub compileoption_used : String → ℤ
  pub compileoption_get : ℤ → Option String
  pub complete : String → ℤ
  pub memory_used : W → ℤ
  pub memory_highwater : Bool → W → ℤ × W
  pub randomness : ℤ → W → Bytes × W

module _ {W : Type 0} (api : LibraryApi W) where
  pub release_memory : ℤ → W → ℤ × W
  release_memory amount = api.release_memory amount

  unfoldable pub soft_heap_limit : ℤ → W → ℤ × W
  soft_heap_limit limit = api.soft_heap_limit64 limit

  pub capi_source_id : String
  capi_source_id = api.sourceid

  pub capi_libversion : String
  capi_libversion = api.libversion

  pub capi_libversion_number : ℤ
  capi_libversion_number = api.libversion_number

  pub threadsafe : Bool
  threadsafe = to_bool api.threadsafe

  pub compileoption_used : String → ℤ
  compileoption_used name = api.compileoption_used name

  pub compileoption_get : ℤ → Option String
  compileoption_get nr = api.compileoption_get nr

  pub complete : String → Bool
  complete sql = to_bool (api.complete sql)

  pub memory_used : W → ℤ
  memory_used w = api.memory_used w

  pub memory_highwater : Bool → W → ℤ × W
  memory_highwater reset = api.memory_highwater reset

  -- The bytes that are written to the buffer.
  pub randomness : ℤ → W → Bytes × W
  randomness size = api.randomness size
