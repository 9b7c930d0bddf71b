-- ===== src/BlobSource/Bounds.antt =====
-- The position stays within the blob.
use sqxx.Base.{◌≡◌, true, Option, none, some, arith, Bool-cases, inl, inr}
use sqxx.Base.Int.{ℤ, pos, ◌+ℤ◌, ◌-ℤ◌, ◌≤ℤ◌, +ℤ_parts}
use sqxx.Effect.{is_ok, check, Obj}
use sqxx.Statement.{Handle, Bytes}
use sqxx.BlobSource.{
  BlobApi, BlobSource, SeekDir, read, write, seek, seek_to, target, to_int, min, int_max,
}

-- What sqlite3 documents: the calls that succeed stay within the blob.
pub record BlobLaws {W : Type 0} (api : BlobApi W) (h : Handle) (len : ℤ) : Type 0 where
  pub reads :
      (n at : ℤ) (w : W) → is_ok (api.blob_read h n at w).0 ≡ true → (pos 0 ≤ℤ n) × (at +ℤ n ≤ℤ len)
  pub writes :
      (bytes : Bytes) (n at : ℤ) (w : W)
      → is_ok (api.blob_write h bytes n at w).0 ≡ true
      → (pos 0 ≤ℤ n) × (at +ℤ n ≤ℤ len)

pub record IsValid (b : BlobSource) : Type 0 where
  pub low : pos 0 ≤ℤ b.offset
  pub high : b.offset ≤ℤ b.len

moved-IsValid :
    (b : BlobSource) (n : ℤ)
    → IsValid b
    → pos 0 ≤ℤ n
    → b.offset +ℤ n ≤ℤ b.len
    → IsValid (record b { offset = b.offset +ℤ n })
moved-IsValid b n v a h = record { low = omega (arith, v.low, a, +ℤ_parts b.offset n); high = h }

module _ {W : Type 0} (api : BlobApi W) where
  read-IsValid :
      (n : ℤ) (o : Obj BlobSource W)
      → BlobLaws api o.self.handle o.self.len
      → IsValid o.self
      → IsValid (read api n o).1.self
  unfolding read
  read-IsValid n o laws v =
      let limit = min (to_int (min n int_max)) (o.self.len -ℤ o.self.offset) in
      elim (Bool-cases (is_ok (api.blob_read o.self.handle limit o.self.offset o.world).0)) [
        | inl e ↦
            let (a, b) = laws.reads limit o.self.offset o.world e in
            rw (e, check) (moved-IsValid o.self limit v a b)
        | inr e ↦ rw (e, check) v
      ]

  write-IsValid :
      (bytes : Bytes) (n : ℤ) (o : Obj BlobSource W)
      → BlobLaws api o.self.handle o.self.len
      → IsValid o.self
      → IsValid (write api bytes n o).1.self
  unfolding write
  write-IsValid bytes n o laws v =
      let limit = to_int n in
      elim (Bool-cases (is_ok (api.blob_write o.self.handle bytes limit o.self.offset o.world).0)) [
        | inl e ↦
            let (a, b) = laws.writes bytes limit o.self.offset o.world e in
            rw (e, check) (moved-IsValid o.self limit v a b)
        | inr e ↦ rw (e, check) v
      ]

seek_to-IsValid :
    {W : Type 0} (next : Option ℤ) (o : Obj BlobSource W)
    → IsValid o.self
    → IsValid (seek_to next o).1.self
unfolding seek_to
seek_to-IsValid none o v = v
seek_to-IsValid (some next) o v = ground arith

-- The calls that a program makes.
pub data Access : Type 0 where
  reads : ℤ → Access
  writes : Bytes → ℤ → Access
  seeks : ℤ → SeekDir → Access

module _ {W : Type 0} (api : BlobApi W) where
  unfoldable pub access : Access → Obj BlobSource W → Obj BlobSource W
  access (reads n) o = (read api n o).1
  access (writes bytes n) o = (write api bytes n o).1
  access (seeks off way) o = (seek off way o).1

  -- For a sqlite3 that refuses what is not within the blob: a read, a write or a seek keeps the
  -- position from 0 to the length of the blob, whatever numbers it is called with, and also where it
  -- throws.
  pub access-IsValid :
      (a : Access) (o : Obj BlobSource W)
      → BlobLaws api o.self.handle o.self.len
      → IsValid o.self
      → IsValid (access a o).self
  unfolding access seek
  access-IsValid (reads n) o laws v = read-IsValid api n o laws v
  access-IsValid (writes bytes n) o laws v = write-IsValid api bytes n o laws v
  access-IsValid (seeks off way) o laws v = seek_to-IsValid (target o.self off way) o v
