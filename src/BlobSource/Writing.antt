-- ===== src/BlobSource/Writing.antt =====
-- Writing into a blob and reading it back.
use Prim.Native.Nat.{min as nat_min}
use native.Mathlib.Nat.{zero-add, add-zero, suc-add}
use sqxx.Base.{
  ℕ, zero, suc, ◌+◌, ◌-◌, ◌<◌, ◌≤◌, ◌≡◌, refl, sym, ◌∙◌, ap, List, [], ◌∷◌, ◌++◌, length,
  length-append, take, drop, arith,
}
use sqxx.Base.Int.{ℤ, pos}
use sqxx.Effect.{sqlite_ok, Exec, Obj, returned, ◌>>=◌, ◌>>◌, pure}
use sqxx.Statement.{Handle, Bytes}
use sqxx.BlobSource.{BlobApi, BlobSource, read, write, seek, beg, to_int}
use sqxx.BlobSource.Seeking.{seek_lem}
use sqxx.BlobSource.Reading.{at_offset, limit_lem, add_pos}

-- The bytes from a place on, replaced, as far as there are any.
abbrev pub overwrite : ℕ → Bytes → Bytes → Bytes
overwrite zero [] content = content
overwrite zero (b ∷ bytes) [] = []
overwrite zero (b ∷ bytes) (c ∷ content) = b ∷ overwrite zero bytes content
overwrite (suc at) bytes [] = []
overwrite (suc at) bytes (c ∷ content) = c ∷ overwrite at bytes content

-- What sqlite3 documents of an open blob that can be written: reads and writes within it succeed.
pub record StoresBlob {W : Type 0} (api : BlobApi W) (h : Handle) : Type 0 where
  pub content : W → Bytes
  pub reads :
      (k at : ℕ) (w : W)
      → at + k ≤ length (content w)
      → api.blob_read h (pos k) (pos at) w ≡ (sqlite_ok, take k (drop at (content w)), w)
  pub writes :
      (bytes : Bytes) (at : ℕ) (w : W)
      → at + length bytes ≤ length (content w)
      → let (c, w') = api.blob_write h bytes (pos (length bytes)) (pos at) w in
        (c ≡ sqlite_ok) × (content w' ≡ overwrite at bytes (content w))

length-overwrite :
    (at : ℕ) (bytes content : Bytes) → length (overwrite at bytes content) ≡ length content
length-overwrite zero [] content = refl
length-overwrite zero (b ∷ bytes) [] = refl
length-overwrite zero (b ∷ bytes) (c ∷ content) = ap suc (length-overwrite zero bytes content)
length-overwrite (suc at) bytes [] = refl
length-overwrite (suc at) bytes (c ∷ content) = ap suc (length-overwrite at bytes content)

overwrite-none : (at : ℕ) (content : Bytes) → overwrite at [] content ≡ content
overwrite-none zero content = refl
overwrite-none (suc at) [] = refl
overwrite-none (suc at) (c ∷ content) = ap (λ t. c ∷ t) (overwrite-none at content)

past_end : (at : ℕ) (bytes : Bytes) → overwrite at bytes [] ≡ []
past_end zero [] = refl
past_end zero (b ∷ bytes) = refl
past_end (suc at) bytes = refl

overwrite-overwrite :
    (at : ℕ) (a b content : Bytes)
    → overwrite (at + length a) b (overwrite at a content) ≡ overwrite at (a ++ b) content
overwrite-overwrite zero [] b content = refl
overwrite-overwrite zero (x ∷ a) b [] = past_end (zero + length (x ∷ a)) b
overwrite-overwrite zero (x ∷ a) b (c ∷ content) =
    rw zero-add (ap (λ t. x ∷ t) (rw zero-add at (overwrite-overwrite zero a b content)))
overwrite-overwrite (suc at) a b [] = past_end (suc at + length a) b
overwrite-overwrite (suc at) a b (c ∷ content) =
    rw suc-add (ap (λ t. c ∷ t) (overwrite-overwrite at a b content))

take-overwrite :
    (at : ℕ) (bytes content : Bytes)
    → at + length bytes ≤ length content
    → take (length bytes) (drop at (overwrite at bytes content)) ≡ bytes
take-overwrite zero [] content f = refl
take-overwrite zero (b ∷ bytes) [] f = absurd (omega arith)
take-overwrite zero (b ∷ bytes) (c ∷ content) f =
    ap (λ t. b ∷ t) (take-overwrite zero bytes content (omega arith))
take-overwrite (suc at) [] [] f = refl
take-overwrite (suc at) (b ∷ bytes) [] f = absurd (omega arith)
take-overwrite (suc at) bytes (c ∷ content) f = take-overwrite at bytes content (omega arith)

abbrev pub concat : List Bytes → Bytes
concat [] = []
concat (b ∷ pieces) = b ++ concat pieces

module _ {W : Type 0} (api : BlobApi W) where
  -- One `write()` after the other.
  unfoldable pub write_all : List Bytes → Exec (Obj BlobSource W) (Unit {0})
  write_all [] = pure tt
  write_all (b ∷ pieces) = do _ ← write api b (pos (length b)); write_all pieces

  -- What is written, sought and read.
  unfoldable pub rewrite : List Bytes → ℕ → Exec (Obj BlobSource W) (ℤ × Bytes)
  unfolding write_all
  rewrite pieces at = do
    write_all pieces
    _ ← seek (pos at) beg
    read api (pos (length (concat pieces)))

  module _ (h : Handle) (laws : StoresBlob api h) where
    write_lem :
        (bytes : Bytes) (at len : ℕ) (w : W)
        → at + length bytes ≤ length (laws.content w)
        → length (laws.content w) ≤ 2147483647
        → write api bytes (pos (length bytes)) (at_offset api h at len w) ≡ (
          returned (pos (length bytes)),
          at_offset api h
              (at + length bytes)
              len
              (api.blob_write h bytes (pos (length bytes)) (pos at) w).1,
        )
    unfolding write
    write_lem bytes at len w f g =
        let (ok, stored) = laws.writes bytes at w f in
        rw (exact, ok, add_pos at (length bytes)) refl
      where
        exact : to_int (pos (length bytes)) ≡ pos (length bytes)
        exact = ground arith

    write_all_lem :
        (pieces : List Bytes) (at len : ℕ) (w : W)
        → at + length (concat pieces) ≤ length (laws.content w)
        → length (laws.content w) ≤ 2147483647
        → (w' : W) × (write_all pieces (at_offset api h at len w)
            ≡ (returned tt, at_offset api h (at + length (concat pieces)) len w'))
          × (laws.content w' ≡ overwrite at (concat pieces) (laws.content w))
    unfolding write_all
    write_all_lem [] at len w f g = (w, rw add-zero refl, sym (overwrite-none at (laws.content w)))
    write_all_lem (b ∷ pieces) at len w f g =
        let total = length-append b (concat pieces) in
        let stored = (laws.writes b at w (omega (arith, total))).1 in
        let same : length (laws.content (api.blob_write h b (pos (length b)) (pos at) w).1)
            ≡ length (laws.content w) =
          ap length stored ∙ length-overwrite at b (laws.content w) in
        let (w', done, seen) =
          write_all_lem pieces (at + length b) len
            (api.blob_write h b (pos (length b)) (pos at) w).1 (omega (arith, same, total))
            (omega (arith, same)) in
        (
          w',
          rw (write_lem b at len w (omega (arith, total)) g)
              (done ∙ ap (λ k. (returned tt, at_offset api h k len w')) (omega (arith, total))),
          seen
              ∙ ap (overwrite (at + length b) (concat pieces)) stored
              ∙ overwrite-overwrite at b (concat pieces) (laws.content w),
        )

    seek_back :
        (at now len : ℕ) (w : W)
        → at < len
        → len ≤ 2147483647
        → seek (pos at) beg (at_offset api h now len w)
          ≡ (returned (pos at), at_offset api h at len w)
    seek_back at now len w f g =
        seek_lem (pos at) beg (pos at) (at_offset api h now len w) refl (ground arith, ground arith)
        ∙ ground arith

    read_back :
        (bytes : Bytes) (n at len : ℕ) (w : W)
        → length (laws.content w) ≡ len
        → take n (drop at (laws.content w)) ≡ bytes
        → at + n ≤ len
        → len ≤ 2147483647
        → read api (pos n) (at_offset api h at len w)
          ≡ (returned (pos n, bytes), at_offset api h (at + n) len w)
    unfolding read
    read_back bytes n at len w same found f g =
        let limit : nat_min n (len - at) ≡ n = omega arith in
        rw
          (
            limit_lem api n at len (omega arith) (omega arith),
            limit,
            laws.reads n at w (omega (arith, same)),
            add_pos at n,
            found,
          )
          refl

    -- For a sqlite3 that reads and writes a blob as documented, and a blob of less than 2^31 bytes: pieces
    -- that are written one after the other from a place before its end, and that fit into it, replace
    -- the bytes from there on and no others; seeking back to that place and reading as many bytes gives
    -- the pieces, joined, and the position is then the place after them. Nothing throws.
    pub rewrite_lem :
        (pieces : List Bytes) (at : ℕ) (w : W)
        → let bytes = concat pieces in
          let len = length (laws.content w) in
          at + length bytes ≤ len
          → at < len
          → len ≤ 2147483647
          → (w' : W) × (rewrite pieces at (at_offset api h at len w)
              ≡ (returned (pos (length bytes), bytes), at_offset api h (at + length bytes) len w'))
            × (laws.content w' ≡ overwrite at bytes (laws.content w))
    unfolding rewrite
    rewrite_lem pieces at w f p g =
        let len = length (laws.content w) in
        let (w', done, stored) = write_all_lem pieces at len w f g in
        let same : length (laws.content w') ≡ len =
          ap length stored ∙ length-overwrite at (concat pieces) (laws.content w) in
        let found =
          ap (λ t. take (length (concat pieces)) (drop at t)) stored
          ∙ take-overwrite at (concat pieces) (laws.content w) f in
        let back = read_back (concat pieces) (length (concat pieces)) at len w' same found f g in
        (w', rw (done, seek_back at (at + length (concat pieces)) len w' p g) back, stored)
