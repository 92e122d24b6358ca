-- ===== src/Fs/Files/Read.antt =====
-- `read_from_inode` against the bytes of the file, in the order of its blocks.
use lilac_os.Base.{
  ℕ, zero, suc, ◌+◌, ◌-◌, ◌*◌, ◌/◌, ◌%◌, ◌^◌, ◌≤◌, ◌<◌, min, ◌≡◌, subst, ◌∙◌, ◌⊎◌, inl, inr, refl,
  sym, ap, Option, some, arith, if◌then◌else◌, eq-cases, lt-cases, eq→==, ne→==, lt→ltb, le→ltb,
  gt→leb,
}
use lilac_os.Memory.{Memory, load16, IsBytes, load16-ext, load32-ext}
use lilac_os.Fs.{block_size, block_num, get_block}
use lilac_os.Fs.Files.{
  image_size, size_of, direct_at, indirect_at, block_at, copy_bytes, read_loop, max_read,
  read_from_inode, readall,
}
use lilac_os.Fs.Files.Copy.{copy_bytes_lem}

-- the address of block `i` of the file
abbrev pub block_of : Memory → (inode i : ℕ) → ℕ
block_of m inode i = block_at m inode (get_block (load16 m (indirect_at inode))) i

-- byte `k` of the file
abbrev pub file_byte : Memory → (inode k : ℕ) → ℕ
file_byte m inode k = m (get_block (block_of m inode (k / block_size)) + k % block_size)

-- The inode, its table of blocks and the blocks of its first `end` bytes are in the image.
pub record IsFile (m : Memory) (inode end : ℕ) : Type 0 where
  pub bytes : IsBytes m
  pub inside : inode + 64 ≤ image_size
  pub bounded : end ≤ 140 * block_size
  pub table : load16 m (indirect_at inode) < block_num
  pub blocks : (k : ℕ) → k < end → block_of m inode (k / block_size) < block_num

-- `n` bytes of the file from `off` on are at `buf`, and no other byte changed.
pub record HasRead (m : Memory) (inode off buf n : ℕ) (result : Option (ℕ × Memory)) : Type 0 where
  pub after : Memory
  pub returns : result ≡ some (n, after)
  pub read : (k : ℕ) → k < n → after (buf + k) ≡ file_byte m inode (off + k)
  pub outside : (q : ℕ) → (q < buf) ⊎ (buf + n ≤ q) → after q ≡ m q

module _ (m : Memory) (inode off buf n : ℕ) (file : IsFile m inode (off + n))
    (apart : image_size ≤ buf) where
  -- A state of the loop: `num` bytes are copied.
  record IsReading (now : Memory) (num : ℕ) : Type 0 where
    copied : (k : ℕ) → k < num → now (buf + k) ≡ file_byte m inode (off + k)
    kept : (q : ℕ) → (q < buf) ⊎ (buf + n ≤ q) → now q ≡ m q

  indirect : ℕ
  indirect = get_block (load16 m (indirect_at inode))

  same_block :
      (now : Memory) (num i : ℕ)
      → IsReading now num
      → i < 140
      → block_at now inode indirect i ≡ block_of m inode i
  unfolding block_at indirect
  same_block now num i r p = elim (lt-cases i 12) [
    | inl q ↦ rw (lt→ltb i 12 q) (
        load16-ext now m (direct_at inode i) λ a lo hi. r.kept a (inl (omega (arith, file.inside))))
    | inr q ↦ rw (le→ltb i 12 q) (
        load32-ext now m (indirect + 4 * (i - 12))
          λ a lo hi. r.kept a (inl (omega (arith, file.table))))
  ]

  -- One round of the loop: the part of block `i` from `block_off` on.
  module _ (now : Memory) (num i block_off : ℕ) (r : IsReading now num) (more : num < n)
      (low : block_off < block_size) (position : i * block_size + block_off ≡ off + num) where
    abbrev len : ℕ
    len = min (n - num) (block_size - block_off)

    abbrev src : ℕ
    src = get_block (block_at now inode indirect i) + block_off

    here : (k : ℕ) → k < len → (off + num + k) / block_size ≡ i
    here k p = omega (arith, position)

    offset : (k : ℕ) → k < len → (off + num + k) % block_size ≡ block_off + k
    offset k p = omega (arith, position)

    same : block_at now inode indirect i ≡ block_of m inode i
    same = same_block now num i r (omega (arith, position, file.bounded))

    block_inside : block_of m inode i < block_num
    block_inside = omega (
      arith,
      file.blocks (off + num) (omega arith),
      ap (block_of m inode) {x = (off + num) / block_size} {y = i} (omega (arith, position)),
    )

    source : (k : ℕ) → k < len → now (src + k) ≡ file_byte m inode (off + num + k)
    source k p =
        let address : src + k ≡ get_block (block_of m inode i) + (block_off + k) =
          omega (arith, same) in
        ap now address
        ∙ (r.kept (get_block (block_of m inode i) + (block_off + k))
              (inl (omega (arith, block_inside)))
            ∙ rw (here k p, offset k p))

    advanced : IsReading (copy_bytes len now (buf + num) src) (num + len)
    advanced =
        let c =
          copy_bytes_lem len now (buf + num) src
            (λ k p. omega (
              arith,
              source k p,
              file.bytes (
                  get_block (block_of m inode ((off + num + k) / block_size))
                  + (off + num + k) % block_size),
            ))
            (omega (arith, same, block_inside)) in
        record {
          copied = λ k p. elim (lt-cases k num) [
            | inl q ↦ c.outside (buf + k) (inl (omega arith)) ∙ r.copied k q
            | inr q ↦
                let at : buf + k ≡ buf + num + (k - num) = omega arith in
                let is : off + num + (k - num) ≡ off + k = omega arith in
                ap (copy_bytes len now (buf + num) src) at
                ∙ (c.inside (k - num) (omega arith)
                    ∙ (source (k - num) (omega arith) ∙ ap (file_byte m inode) is))
          ];
          kept = λ q h. c.outside q (ground arith) ∙ r.kept q h;
        }

  read_loop_lem :
      (rounds : ℕ) (now : Memory) (num i block_off : ℕ)
      → IsReading now num
      → n ≤ num + rounds
      → num ≤ n
      → block_off < block_size
      → (num < n → i * block_size + block_off ≡ off + num)
      → HasRead m inode off buf n
          (read_loop rounds now inode indirect n i block_off (buf + num) num)
  unfolding read_loop
  read_loop_lem zero now num i block_off r enough top low position =
      let all : num ≡ n = omega arith in
      rw (le→ltb num n (omega arith)) (record {
        after = now;
        returns = rw all;
        read = λ k p. r.copied k (omega arith);
        outside = r.kept;
      })
  read_loop_lem (suc rounds) now num i block_off r enough top low position = elim (lt-cases num n) [
    | inl more ↦
        let step = len now num i block_off r more low (position more) in
        let buffer : buf + num + step ≡ buf + (num + step) = omega arith in
        rw (lt→ltb num n more, if◌then◌else◌, buffer)
          (read_loop_lem rounds
            (copy_bytes step now (buf + num) (src now num i block_off r more low (position more)))
            (num + step) (i + 1) 0 (advanced now num i block_off r more low (position more))
            (omega arith) (omega arith) (omega arith) (λ q. omega (arith, position more)))
    | inr done ↦
        let all : num ≡ n = omega arith in
        rw (le→ltb num n (omega arith)) (record {
          after = now;
          returns = rw all;
          read = λ k p. r.copied k (omega arith);
          outside = r.kept;
        })
  ]

max_read-min :
    (m : Memory) (inode off count : ℕ)
    → size_of m inode < 2 ^ 31
    → off ≤ size_of m inode
    → max_read m inode off count ≡ min (size_of m inode - off) count
unfolding max_read
max_read-min m inode off count small top = ap (λ k. min k count) (omega arith)

-- From an offset that is not behind the end of a file of less than 2^31 bytes, where the bytes
-- that are asked for and left end within the file's first 140 blocks and the inode, its
-- indirect block and those blocks are in the image, read_from_inode ends and copies these
-- bytes to a buffer behind the image, in the order of the file's direct and indirect blocks,
-- and no other byte changes.
pub read_from_inode_lem :
    (m : Memory) (inode off buf count : ℕ)
    → off ≤ size_of m inode
    → size_of m inode < 2 ^ 31
    → IsFile m inode (off + min (size_of m inode - off) count)
    → image_size ≤ buf
    → HasRead m inode off buf
        (min (size_of m inode - off) count)
        (read_from_inode m inode off buf count)
unfolding read_from_inode indirect
read_from_inode_lem m inode off buf count top small file apart =
    let n = min (size_of m inode - off) count in
    let start : buf + 0 ≡ buf = omega arith in
    let run =
      read_loop_lem m inode off buf n file apart n m 0 (off / block_size) (off % block_size)
        (record { copied = λ k p. absurd (omega arith); kept = λ q h. refl }) (omega arith)
        (omega arith) (omega arith) (λ p. omega arith) in
    rw (max_read-min m inode off count small top) (elim (eq-cases n 0) [
      | inl e ↦ rw (eq→== n 0 e) (record {
        after = m;
        returns = rw e;
        read = λ k p. absurd (omega arith);
        outside = λ q h. refl;
      })
      | inr ne ↦
          rw (ne→== n 0 ne, gt→leb (2 ^ 31) n (omega arith))
            (subst
              (λ b. HasRead m inode off buf n (
                read_loop n m inode (indirect m inode off buf n file apart) n (off / block_size)
                  (off % block_size) b 0))
              start run)
    ])

-- For a file of at most 140 blocks whose inode, indirect block and blocks are in the image,
-- readall copies the whole file to a buffer behind the image and changes no other byte.
pub readall_lem :
    (m : Memory) (inode buf : ℕ)
    → size_of m inode < 2 ^ 31
    → IsFile m inode (size_of m inode)
    → image_size ≤ buf
    → HasRead m inode 0 buf (size_of m inode) (readall m inode buf)
unfolding readall
readall_lem m inode buf small file apart =
    let all : min (size_of m inode - 0) (size_of m inode) ≡ size_of m inode = omega arith in
    let end : 0 + min (size_of m inode - 0) (size_of m inode) ≡ size_of m inode = omega arith in
    subst (λ n. HasRead m inode 0 buf n (readall m inode buf)) all
      (read_from_inode_lem m inode 0 buf (size_of m inode) (omega arith) small
        (subst (IsFile m inode) (sym end) file) apart)
