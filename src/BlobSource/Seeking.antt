-- ===== src/BlobSource/Seeking.antt =====
-- Where `seek()` goes, and the truncation of its offset to `int`.
use sqxx.Base.{
  ℕ, ◌+◌, ◌-◌, ◌%◌, ◌^◌, ◌≡◌, ap, not, ◌&&◌, Option, none, some, arith, if◌then◌else◌, ltb,
}
use sqxx.Base.Int.{Fits, ℤ, pos, negsuc, ◌+ℤ◌, ◌-ℤ◌, ltb_ℤ}
use sqxx.Effect.{std_exception, Obj, returned, thrown}
use sqxx.BlobSource.{BlobSource, SeekDir, beg, cur, end, unknown_way, seek, seek_to, target, to_int}

to_int_lem : (z : ℤ) → Fits 32 z → to_int z ≡ z
to_int_lem (pos n) f = ground arith
to_int_lem (negsuc n) f = ground arith

to_int_of : (z t : ℤ) → some z ≡ some t → Fits 32 t → some (to_int z) ≡ some t
to_int_of z t e f = let same : z ≡ t = cc in rw same (ap some (to_int_lem t f))

-- The place that an offset names, with no truncation. From the end it counts from the last byte.
abbrev pub exact_target : BlobSource → ℤ → SeekDir → Option ℤ
exact_target b off beg = some off
exact_target b off cur = some (b.offset +ℤ off)
exact_target b off end = some (b.len +ℤ off -ℤ pos 1)
exact_target b off unknown_way = none

target_lem :
    (b : BlobSource) (off : ℤ) (way : SeekDir) (t : ℤ)
    → exact_target b off way ≡ some t
    → Fits 32 t
    → target b off way ≡ some t
unfolding target
target_lem b off beg t e f = to_int_of off t e f
target_lem b off cur t e f = to_int_of (b.offset +ℤ off) t e f
target_lem b off end t e f = to_int_of (b.len +ℤ off -ℤ pos 1) t e f
target_lem b off unknown_way t e f = absurd (cc)

module _ {W : Type 0} where
  -- Seeking to a place in the range of `int`, counted from the start, the position, or the last
  -- byte: to one within the blob it goes there and gives it; to any other, the end of the blob
  -- included, it throws and the position stays.
  pub seek_lem :
      (off : ℤ) (way : SeekDir) (t : ℤ) (o : Obj BlobSource W)
      → exact_target o.self off way ≡ some t
      → Fits 32 t
      → seek off way o ≡ (
          if not (ltb_ℤ t (pos 0)) && ltb_ℤ t o.self.len
          then (returned t, record o { self = record o.self { offset = t } })
          else (thrown (std_exception "bad seek offset"), o))
  unfolding seek seek_to
  seek_lem off way t o e f = rw (target_lem o.self off way t e f) (ground arith)

  -- An offset from the start is cut to 32 bits before it is tested: 2^32 more leads to the same place.
  pub seek_wraps :
      (n : ℕ) (o : Obj BlobSource W) → seek (pos (n + 2 ^ 32)) beg o ≡ seek (pos n) beg o
  unfolding seek target
  seek_wraps n o =
      let same : (n + 2 ^ 32) % 2 ^ 32 ≡ n % 2 ^ 32 = omega arith in
      ap (λ w. seek_to (some (if ltb w (2 ^ 31) then pos w else negsuc (2 ^ 32 - 1 - w))) o) same
