-- ===== src/Tests/Streams.antt =====
-- A blob of five bytes, a backup of three pages, and the theorems at them.
use sqxx.Base.{
  ℕ, zero, suc, ◌+◌, ◌^◌, ◌≡◌, ◌≢◌, ◌<◌, ◌≤◌, refl, List, length, if◌then◌else◌, Bool, true, false,
  some, [], ◌∷◌, take, drop, leb, arith,
}
use sqxx.Base.Int.{ℤ, pos, negsuc, ◌+ℤ◌, ◌-ℤ◌, ◌≤ℤ◌, +ℤ_parts}
use sqxx.Effect.{
  Code, sqlite_ok, sqlite_error, sqlite_done, is_ok, Obj, returned, thrown, std_exception,
}
use sqxx.Statement.{Bytes}
use sqxx.BlobSource.{BlobApi, BlobSource, beg, end, seek}
use sqxx.BlobSource.Bounds.{BlobLaws, IsValid, reads, access, access-IsValid}
use sqxx.BlobSource.Seeking.{seek_lem, seek_wraps}
use sqxx.BlobSource.Reading.{HoldsBlob, read_all, at_offset, read_all_lem}
use sqxx.Backup.{Backup, BackupApi, for_each}
use sqxx.Backup.Steps.{ended, last, more, for_each_lem, for_each-ends}
use sqxx.BlobSource.Writing.{StoresBlob, overwrite, rewrite, rewrite_lem}

abbrev content : Bytes
content = 10 ∷ 20 ∷ 30 ∷ 40 ∷ 50 ∷ []

abbrev read_if : Bool → ℕ → ℕ → ℕ → Code × Bytes × ℕ
read_if true k at w = (sqlite_ok, take k (drop at content), w)
read_if false k at w = (sqlite_error, [], w)

abbrev read_at : ℤ → ℤ → ℕ → Code × Bytes × ℕ
read_at (pos k) (pos at) w = read_if (leb (at + k) 5) k at w
read_at _ _ w = (sqlite_error, [], w)

abbrev blobs : BlobApi ℕ
blobs = record {
  errstr = λ c. "error";
  blob_bytes = λ h w. pos 5;
  blob_read = λ h n at w. read_at n at w;
  blob_write = λ h bytes n at w. (sqlite_error, suc w);
  blob_close = λ h w. w;
}

read_at-bounds :
    (n at : ℤ) (w : ℕ) → is_ok (read_at n at w).0 ≡ true → (pos 0 ≤ℤ n) × (at +ℤ n ≤ℤ pos 5)
read_at-bounds (pos k) (pos at) w e = ground (arith, +ℤ_parts (pos at) (pos k))
read_at-bounds (pos k) (negsuc at) w e = absurd (cc)
read_at-bounds (negsuc k) at w e = absurd (cc)

blobs-BlobLaws : BlobLaws blobs (some 1) (pos 5)
blobs-BlobLaws = record { reads = read_at-bounds; writes = λ bytes n at w e. absurd (cc) }

abbrev in_blob : Obj BlobSource ℕ
in_blob = record { self = record { handle = some 1; offset = pos 2; len = pos 5 }; world = 0 }

access-IsValid_example : IsValid (access blobs (reads (pos 9)) in_blob).self
access-IsValid_example =
    access-IsValid blobs (reads (pos 9)) in_blob blobs-BlobLaws
      (record { low = omega arith; high = omega arith })

seek_lem_example : seek (pos 1) end in_blob ≡ (thrown (std_exception "bad seek offset"), in_blob)
unfolding ◌+ℤ◌ ◌-ℤ◌
seek_lem_example = seek_lem (pos 1) end (pos 5) in_blob refl (omega arith, omega arith)

seek_wraps_example : seek (pos (3 + 2 ^ 32)) beg in_blob ≡ seek (pos 3) beg in_blob
seek_wraps_example = seek_wraps 3 in_blob

content-HoldsBlob : HoldsBlob blobs (some 1) content
content-HoldsBlob = record { reads = λ k at w f. ground arith }

read_all_lem_example :
    read_all blobs 9 (pos 2) (at_offset blobs (some 1) 1 5 0)
    ≡ (returned (some (20 ∷ 30 ∷ 40 ∷ 50 ∷ [])), at_offset blobs (some 1) 5 5 0)
read_all_lem_example =
    read_all_lem blobs 9 (some 1) content 2 1 0 content-HoldsBlob (omega arith) (omega arith)
      (omega arith) (omega arith)

-- The state is the number of pages left, of which each step copies one.
abbrev copy_page : ℕ → Code × ℕ
copy_page zero = (sqlite_done, zero)
copy_page (suc zero) = (sqlite_done, zero)
copy_page (suc (suc n)) = (sqlite_ok, suc n)

abbrev copier : BackupApi ℕ
copier = record {
  errstr = λ c. "error";
  errcode = λ h w. sqlite_error;
  errmsg = λ h w. "error";
  backup_init = λ s sdb d ddb w. (some 1, w);
  backup_step = λ h n w. copy_page w;
  backup_finish = λ h w. w;
  backup_remaining = λ h w. pos w;
  backup_pagecount = λ h w. pos 3;
}

abbrev at_start : Obj Backup ℕ
at_start = record { self = record { handle = some 1 }; world = 3 }

for_each_lem_example :
    for_each copier (λ w. w) (pos 1) 9 at_start
    ≡ (returned (some (3 ∷ 2 ∷ 1 ∷ [])), record at_start { world = 0 })
for_each_lem_example =
    for_each_lem copier (λ w. w) (pos 1) 9 (record { handle = some 1 }) (omega arith)
      (more refl refl (more refl refl (last refl refl (λ e. cc))))

copy_page-progress : (w : ℕ) → let (c, w') = copy_page w in c ≡ sqlite_ok → w' < w
copy_page-progress zero e = absurd (cc)
copy_page-progress (suc zero) e = absurd (cc)
copy_page-progress (suc (suc n)) e = omega arith

for_each-ends_example :
    (vs : List ℕ) × (c : Code) × (w' : ℕ) × (for_each copier (λ w. w) (pos 1) 9 at_start
      ≡ ended copier c vs (record { handle = some 1 }) w')
    × (c ≢ sqlite_ok)
    × (length vs ≤ 4)
for_each-ends_example =
    for_each-ends copier (record { handle = some 1 }) (λ w. w) (pos 1) (λ w. w) 9 3
      copy_page-progress (omega arith)

-- A blob that can be written; the state is its bytes.
abbrev read_bytes : ℤ → ℤ → Bytes → Code × Bytes × Bytes
read_bytes (pos k) (pos at) w =
    (if leb (at + k) (length w) then (sqlite_ok, take k (drop at w), w) else (sqlite_error, [], w))
read_bytes _ _ w = (sqlite_error, [], w)

abbrev write_bytes : Bytes → ℤ → Bytes → Code × Bytes
write_bytes bytes (pos at) w = (sqlite_ok, overwrite at bytes w)
write_bytes bytes (negsuc at) w = (sqlite_error, w)

abbrev store : BlobApi Bytes
store = record {
  errstr = λ c. "error";
  blob_bytes = λ h w. pos (length w);
  blob_read = λ h n at w. read_bytes n at w;
  blob_write = λ h bytes n at w. write_bytes bytes at w;
  blob_close = λ h w. w;
}

store-reads :
    (k at : ℕ) (w : Bytes)
    → at + k ≤ length w
    → read_bytes (pos k) (pos at) w ≡ (sqlite_ok, take k (drop at w), w)
store-reads k at w f = ground arith

abbrev store-StoresBlob : StoresBlob store (some 1)
store-StoresBlob = record {
  content = λ w. w;
  reads = store-reads;
  writes = λ bytes at w f. (refl, refl);
}

rewrite_lem_example :
    (w' : Bytes) × (rewrite store
        ((1 ∷ 2 ∷ []) ∷ (3 ∷ []) ∷ [])
        1
        (at_offset store (some 1) 1 5 content)
      ≡ (returned (pos 3, 1 ∷ 2 ∷ 3 ∷ []), at_offset store (some 1) 4 5 w'))
    × (w' ≡ 10 ∷ 1 ∷ 2 ∷ 3 ∷ 50 ∷ [])
rewrite_lem_example =
    rewrite_lem store (some 1) store-StoresBlob ((1 ∷ 2 ∷ []) ∷ (3 ∷ []) ∷ []) 1 content
      (omega arith) (omega arith) (omega arith)
