-- ===== src/Fs/Files.antt =====
-- Files of kernel/fs.c: `lookup`, `read_from_inode` and `readall`. The memory is the kernel's,
-- with addresses counted from `_fs_img_start`, so that the image is its first `image_size` bytes.
-- The results of `strcmp` and of the copying loop are `none` where a loop exceeds its rounds.
pub mod Copy
pub mod Read
pub mod Find
mod Tests
use lilac_os.Base.{
  ℕ, zero, suc, ◌+◌, ◌-◌, ◌*◌, ◌/◌, ◌%◌, ◌^◌, min, ◌||◌, Option, none, some, ltb, leb, ◌==◌,
  if◌then◌else◌,
}
use lilac_os.Memory.{Memory, load16, load32, store8}
use lilac_os.Strings.{Comparison, minus_one, nought, one, strcmp}
use lilac_os.Fs.{block_size, block_num, get_block, fat_at, fat_size}

abbrev pub image_size : ℕ
image_size = block_num * block_size

-- The fields of `struct Inode`.
abbrev pub size_of : Memory → ℕ → ℕ
size_of m inode = load32 m inode

abbrev pub filename : ℕ → ℕ
filename inode = inode + 4

abbrev pub direct_at : ℕ → ℕ → ℕ
direct_at inode i = inode + 38 + 2 * i

abbrev pub indirect_at : ℕ → ℕ
indirect_at inode = inode + 62

-- `i < 12 ? inode->direct[i] : indirect[i - 12]`
unfoldable pub block_at : Memory → (inode indirect i : ℕ) → ℕ
block_at m inode indirect i =
    if ltb i 12 then load16 m (direct_at inode i) else load32 m (indirect + 4 * (i - 12))

-- `buf[j] = src[j]` for the next `n` indices
pub copy_bytes : ℕ → Memory → (buf src : ℕ) → Memory
copy_bytes zero m buf src = m
copy_bytes (suc n) m buf src = copy_bytes n (store8 m buf (m src)) (buf + 1) (src + 1)

-- The loop over the blocks from `i` on.
pub read_loop : ℕ → Memory → (inode indirect max_size i block_off buf num : ℕ) → Option (ℕ × Memory)
read_loop zero m inode indirect max_size i block_off buf num =
    if ltb num max_size then none else some (num, m)
read_loop (suc rounds) m inode indirect max_size i block_off buf num =
    let src = get_block (block_at m inode indirect i) + block_off in
    let len = min (max_size - num) (block_size - block_off) in
    let rest =
      read_loop rounds (copy_bytes len m buf src) inode indirect max_size (i + 1) 0 (buf + len)
        (num + len) in
    if ltb num max_size then rest else some (num, m)

-- `MIN(inode->size - off, count)`, compared as uint32
pub max_read : Memory → (inode off count : ℕ) → ℕ
max_read m inode off count = min ((size_of m inode + (2 ^ 32 - off)) % 2 ^ 32) count

-- `off` is not negative, and `count` is a 32-bit pattern.
pub read_from_inode : Memory → (inode off buf count : ℕ) → Option (ℕ × Memory)
read_from_inode m inode off buf count =
    let max_size = max_read m inode off count in
    let indirect = get_block (load16 m (indirect_at inode)) in
    let run =
      read_loop max_size m inode indirect max_size (off / block_size) (off % block_size) buf 0 in
    if max_size == 0 || leb (2 ^ 31) max_size then some (0, m) else run

pub readall : Memory → (inode buf : ℕ) → Option (ℕ × Memory)
readall m inode buf = read_from_inode m inode 0 buf (size_of m inode)

-- The inode is taken where `strcmp` returned 0, and the rest of the table is searched elsewhere.
pub take_match : Option Comparison → ℕ → Option (Option ℕ) → Option (Option ℕ)
take_match none inode rest = none
take_match (some nought) inode rest = some (some inode)
take_match (some minus_one) inode rest = rest
take_match (some one) inode rest = rest

-- The loop of `lookup` from entry `i` on. The inner `none` is NULL.
pub lookup_from : ℕ → ℕ → Memory → (i name : ℕ) → Option (Option ℕ)
lookup_from fuel zero m i name = some none
lookup_from fuel (suc rounds) m i name =
    let rest = lookup_from fuel rounds m (i + 1) name in
    let inode = get_block (load16 m (fat_at i)) in
    let compared = take_match (strcmp fuel m (filename inode) name) inode rest in
    if load16 m (fat_at i) == 0 then rest else compared

pub lookup : ℕ → Memory → ℕ → Option (Option ℕ)
lookup fuel m name = lookup_from fuel fat_size m 0 name
