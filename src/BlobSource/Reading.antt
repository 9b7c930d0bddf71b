-- ===== src/BlobSource/Reading.antt =====
-- Reading a blob to its end.
use native.Mathlib.Nat.{add-zero}
use Prim.Native.Nat.{min as nat_min}
use sqxx.Base.{
  ℕ, zero, suc, ◌+◌, ◌-◌, ◌<◌, ◌≤◌, ◌≡◌, refl, ap, Option, none, some, List, [], ◌∷◌, ◌++◌, length,
  take, drop, arith, drop-drop, take-append-drop,
}
use sqxx.Base.Int.{ℤ, pos, negsuc, ◌+ℤ◌, ◌-ℤ◌}
use sqxx.Effect.{sqlite_ok, Exec, Obj, returned, ◌>>=◌, pure}
use sqxx.Statement.{Handle, Bytes}
use sqxx.BlobSource.{BlobApi, BlobSource, read, min, to_int, int_max}

-- What sqlite3 does for a blob with these bytes.
pub record HoldsBlob {W : Type 0} (api : BlobApi W) (h : Handle) (content : Bytes) : Type 0 where
  pub reads :
      (k at : ℕ) (w : W)
      → at + k ≤ length content
      → api.blob_read h (pos k) (pos at) w ≡ (sqlite_ok, take k (drop at content), w)

append_to : Bytes → Option Bytes → Option Bytes
append_to bytes none = none
append_to bytes (some more) = some (bytes ++ more)

pub add_pos : (a b : ℕ) → pos a +ℤ pos b ≡ pos (a + b)
unfolding ◌+ℤ◌
add_pos a b = ground arith

drop-length : {A : Type 0} (xs : List A) → drop (length xs) xs ≡ []
drop-length [] = refl
drop-length (x ∷ xs) = drop-length xs

module _ {W : Type 0} (api : BlobApi W) where
  stop_or :
      ℤ → Bytes → Exec (Obj BlobSource W) (Option Bytes) → Exec (Obj BlobSource W) (Option Bytes)
  unfolding append_to
  stop_or (pos zero) bytes rest = pure (some [])
  stop_or (pos (suc k)) bytes rest = do out ← rest; pure (append_to bytes out)
  stop_or (negsuc k) bytes rest = pure (some [])

  -- `while ((k = read(buf, n)) > 0) out.append(buf, k);`, as a client of the stream does; none if the fuel
  -- ran out.
  pub read_all : ℕ → ℤ → Exec (Obj BlobSource W) (Option Bytes)
  unfolding stop_or
  read_all zero n = pure none
  read_all (suc fuel) n = do got ← read api n; stop_or got.0 got.1 (read_all fuel n)

  -- The stream at a place, over a blob of this length.
  abbrev pub at_offset : Handle → ℕ → ℕ → W → Obj BlobSource W
  at_offset h at len w = record {
    self = record { handle = h; offset = pos at; len = pos len };
    world = w;
  }

  pub limit_lem :
      (n at len : ℕ)
      → n ≤ 2147483647
      → at ≤ len
      → min (to_int (min (pos n) int_max)) (pos len -ℤ pos at) ≡ pos (nat_min n (len - at))
  unfolding ◌-ℤ◌
  limit_lem n at len f g = ground arith

  read_lem :
      (h : Handle) (content : Bytes) (n at : ℕ) (w : W)
      → HoldsBlob api h content
      → n ≤ 2147483647
      → at ≤ length content
      → let k = nat_min n (length content - at) in
        read api (pos n) (at_offset h at (length content) w)
        ≡ (returned (pos k, take k (drop at content)), at_offset h (at + k) (length content) w)
  unfolding read
  read_lem h content n at w holds f g = rw (
    limit_lem n at (length content) f g,
    holds.reads (nat_min n (length content - at)) at w (omega arith),
    add_pos,
  )

  -- One round of the loop, given what the later rounds do.
  round_lem :
      (fuel : ℕ) (h : Handle) (content : Bytes) (n at k : ℕ) (w : W)
      → at + k ≤ length content
      → (k ≡ 0 → at ≡ length content)
      → (0 < k
          → read_all fuel (pos n) (at_offset h (at + k) (length content) w) ≡ (
            returned (some (drop (at + k) content)),
            at_offset h (length content) (length content) w,
          ))
      → stop_or
          (pos k)
          (take k (drop at content))
          (read_all fuel (pos n))
          (at_offset h (at + k) (length content) w)
        ≡ (returned (some (drop at content)), at_offset h (length content) (length content) w)
  unfolding stop_or
  round_lem fuel h content n at zero w b z later = rw (add-zero at, z refl, drop-length content)
  round_lem fuel h content n at (suc k) w b z later =
      rw (later (omega arith), ← drop-drop at (suc k) content)
        (ap (λ t. (returned (some t), at_offset h (length content) (length content) w))
          (take-append-drop (suc k) (drop at content)))

  -- A blob that is read in pieces of `n` bytes, 0 < n < 2^31, from a place in it to where a read
  -- gives nothing, for a sqlite3 that reads as documented and with more fuel than there are bytes
  -- left: the reading ends, it gives all of the bytes from there on, in their order, and the
  -- position is then the end of the blob.
  pub read_all_lem :
      (fuel : ℕ) (h : Handle) (content : Bytes) (n at : ℕ) (w : W)
      → HoldsBlob api h content
      → 0 < n
      → n ≤ 2147483647
      → at ≤ length content
      → length content - at < fuel
      → read_all fuel (pos n) (at_offset h at (length content) w)
        ≡ (returned (some (drop at content)), at_offset h (length content) (length content) w)
  unfolding read_all
  read_all_lem zero h content n at w holds p f g enough = absurd (omega arith)
  read_all_lem (suc fuel) h content n at w holds p f g enough =
      let k = nat_min n (length content - at) in
      rw (read_lem h content n at w holds f g) (
        round_lem fuel h content n at k w (omega arith) (λ e. omega arith)
          (λ q. read_all_lem fuel h content n (at + k) w holds p f (omega arith) (omega arith)))
