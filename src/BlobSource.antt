-- ===== src/BlobSource.antt =====
-- blob.hpp and blob.cpp: a seekable stream over the bytes of a blob. `int` and `std::streamsize` are
-- integers here, with the conversion to `int` written out.
pub mod Bounds
pub mod Seeking
pub mod Reading
pub mod Writing
use sqxx.Base.{
  ℕ, suc, ◌-◌, ◌%◌, ◌^◌, String, Bool, true, false, Option, ◌||◌, if◌then◌else◌, ltb, not,
}
use sqxx.Base.Int.{ℤ, pos, negsuc, ◌+ℤ◌, ◌-ℤ◌, ltb_ℤ}
use sqxx.Effect.{
  Code, std_exception, Exec, Obj, ◌>>=◌, ◌>>◌, pure, throw, call, gets, modify, check,
}
use sqxx.Statement.{Handle, Bytes}

pub record BlobApi (W : Type 0) : Type 0 where
  pub errstr : Code → String
  pub blob_bytes : Handle → W → ℤ
  pub blob_read : Handle → ℤ → ℤ → W → Code × Bytes × W
  pub blob_write : Handle → Bytes → ℤ → ℤ → W → Code × W
  pub blob_close : Handle → W → W

-- class blob_source; `offset` is its member `pos`.
pub record BlobSource : Type 0 where
  pub handle : Handle
  pub offset : ℤ
  pub len : ℤ

abbrev pub int_max : ℤ
int_max = pos 2147483647

-- The remainder modulo 2^32, from 0 on.
abbrev pub low_word : ℤ → ℕ
low_word (pos n) = n % 2 ^ 32
low_word (negsuc n) = 2 ^ 32 - 1 - n % 2 ^ 32

-- The conversion of a 64-bit integer to `int`.
abbrev pub to_int : ℤ → ℤ
to_int z = if ltb (low_word z) (2 ^ 31) then pos (low_word z) else negsuc (2 ^ 32 - 1 - low_word z)

-- std::min
abbrev pub min : ℤ → ℤ → ℤ
min a b = if ltb_ℤ b a then b else a

-- std::ios_base::seekdir; `unknown_way` is any other value.
pub data SeekDir : Type 0 where
  beg cur end unknown_way : SeekDir

module _ {W : Type 0} (api : BlobApi W) where
  pub init : Handle → W → BlobSource
  init handle w = record { handle = handle; offset = pos 0; len = api.blob_bytes handle w }

  -- The number of bytes read, and the bytes.
  unfoldable pub read : ℤ → Exec (Obj BlobSource W) (ℤ × Bytes)
  read n = do
    b ← gets (λ b. b)
    let limit = min (to_int (min n int_max)) (b.len -ℤ b.offset)
    (rv, bytes) ←
        call
          (λ w. let (rv, bytes, w') = api.blob_read b.handle limit b.offset w in ((rv, bytes), w'))
    check api.errstr rv
    modify (λ b. record b { offset = b.offset +ℤ limit })
    pure (limit, bytes)

  unfoldable pub write : Bytes → ℤ → Exec (Obj BlobSource W) ℤ
  write bytes n = do
    b ← gets (λ b. b)
    let limit = to_int n
    rv ← call (api.blob_write b.handle bytes limit b.offset)
    check api.errstr rv
    modify (λ b. record b { offset = b.offset +ℤ limit })
    pure limit

  pub close : Exec (Obj BlobSource W) (Unit {0})
  close o = (pure tt) (record o { world = api.blob_close o.self.handle o.world })

-- The place that `seek` goes to, as an `int`; none for a bad direction.
pub target : BlobSource → ℤ → SeekDir → Option ℤ
target b off beg = Option.some (to_int off)
target b off cur = Option.some (to_int (b.offset +ℤ off))
target b off end = Option.some (to_int (b.len +ℤ off -ℤ pos 1))
target b off unknown_way = Option.none

seek_to : {W : Type 0} → Option ℤ → Exec (Obj BlobSource W) ℤ
seek_to Option.none = throw (std_exception "bad seek direction")
seek_to (Option.some next) = do
  b ← gets (λ b. b)
  if ltb_ℤ next (pos 0) || not (ltb_ℤ next b.len)
      then throw (std_exception "bad seek offset")
      else do modify (λ b. record b { offset = next }); pure next

pub seek : {W : Type 0} → ℤ → SeekDir → Exec (Obj BlobSource W) ℤ
unfolding target seek_to
seek off way o = seek_to (target o.self off way) o
