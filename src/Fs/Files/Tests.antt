-- ===== src/Fs/Files/Tests.antt =====
-- Runs of the file operations on an image with one file, and their theorems there.
use lilac_os.Base.{
  ℕ, ◌/◌, ◌≤◌, ◌<◌, ◌≡◌, ◌≢◌, ◌⊎◌, inl, inr, refl, List, [], ◌∷◌, Option, none, some, arith, ◌==◌,
  if◌then◌else◌, eq-cases,
}
use lilac_os.Memory.{Memory, IsBytes, load16, load32, store8}
use lilac_os.Strings.Laws.{IsString}
use lilac_os.Fs.{fat_at, fat_size}
use lilac_os.Fs.Files.{block_at, read_from_inode, read_loop, copy_bytes, max_read, readall, lookup}
use lilac_os.Fs.Files.Read.{IsFile, HasRead, read_from_inode_lem, readall_lem}
use lilac_os.Fs.Files.Find.{HasNames, IsFound, IsMissing, lookup_lem}

-- Entry 0 of the table is block 3, the inode of the file "a": 3 bytes, 7 8 9, in block 4. The
-- name "a" also stands at 2000000.
abbrev image : Memory
image q =
    if q == 1024
    then 3
    else if q == 1536
    then 3
    else if q == 1540
    then 97
    else if q == 1572
    then 1
    else if q == 1574
    then 4
    else if q == 2048
    then 7
    else if q == 2049
    then 8
    else if q == 2050
    then 9
    else if q == 2000000
    then 97
    else 0

image-IsBytes : IsBytes image
image-IsBytes q = ground arith

-- The bytes read, at the buffer 3000000.
abbrev bytes_of : Option (ℕ × Memory) → List ℕ
bytes_of none = []
bytes_of (some (n, m)) = n ∷ m 3000000 ∷ m 3000001 ∷ m 3000002 ∷ []

read_runs : bytes_of (read_from_inode image 1536 1 3000000 9) ≡ 2 ∷ 8 ∷ 9 ∷ 0 ∷ []
unfolding read_from_inode read_loop copy_bytes max_read block_at load16 load32 store8
read_runs = refl

small-IsFile : (n : ℕ) → n ≤ 3 → IsFile image 1536 n
unfolding load16 block_at
small-IsFile n p = record {
  bytes = image-IsBytes;
  inside = omega arith;
  bounded = omega arith;
  table = omega arith;
  blocks = λ k q. let first : k / 512 ≡ 0 = omega arith in rw first (omega arith);
}

read_from_inode_lem_example :
    HasRead image 1536 1 3000000 2 (read_from_inode image 1536 1 3000000 9)
unfolding load32
read_from_inode_lem_example =
    read_from_inode_lem image 1536 1 3000000 9 (omega arith) (omega arith)
      (small-IsFile 3 (omega arith)) (omega arith)

readall_lem_example : HasRead image 1536 0 3000000 3 (readall image 1536 3000000)
unfolding load32
readall_lem_example =
    readall_lem image 1536 3000000 (omega arith) (small-IsFile 3 (omega arith)) (omega arith)

abbrev names : ℕ → List ℕ
names i = 97 ∷ []

unused_entry : (i : ℕ) → i < fat_size → i ≢ 0 → load16 image (fat_at i) ≡ 0
unfolding load16
unused_entry i p ne = ground arith

image-HasNames : HasNames 9 image 2000000 (97 ∷ []) names
unfolding IsString load16
image-HasNames = record {
  target = (refl, (λ e. omega (arith, e)), refl);
  strings = λ i p used. elim (eq-cases i 0) [
    | inl e ↦ rw e (refl, (λ f. omega (arith, f)), refl)
    | inr ne ↦ absurd (used (unused_entry i p ne))
  ];
  enough = λ i p. omega arith;
}

lookup_lem_example :
    ((i : ℕ) × IsFound 9 image 2000000 (97 ∷ []) names 0 fat_size i (lookup 9 image 2000000))
    ⊎ IsMissing 9 image 2000000 (97 ∷ []) names 0 fat_size (lookup 9 image 2000000)
lookup_lem_example = lookup_lem 9 image 2000000 (97 ∷ []) names image-HasNames
