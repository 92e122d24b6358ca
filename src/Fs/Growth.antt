-- ===== src/Fs/Growth.antt =====
-- Files that grow: `create`, `increase_size` and the writing of `sys_write` of kernel/fs.c, over
-- memory with its addresses counted from `_fs_img_start`. A block number -1 wraps in its field.
use lilac_os.Base.{
  ℕ, zero, suc, ◌+◌, ◌-◌, ◌*◌, ◌/◌, ◌%◌, ◌^◌, min, ◌||◌, Option, none, some, ltb, leb, ◌==◌,
  if◌then◌else◌,
}
use lilac_os.Memory.{Memory, load16, store16, load32, store32}
use lilac_os.Strings.{strcpy}
use lilac_os.Fs.{block_size, get_block, alloc_free_block, alloc_inode}
use lilac_os.Fs.Files.{size_of, filename, direct_at, indirect_at, block_at, copy_bytes}

-- `inode->blocks`
abbrev pub blocks_at : ℕ → ℕ
blocks_at inode = inode + 36

-- A block number as it is kept in a field of `w` values.
pub as_field : ℕ → Option ℕ → ℕ
as_field w none = w - 1
as_field w (some b) = b

-- `direct[i] = 0` for the entries from `i` on
pub clear_direct : ℕ → (inode i : ℕ) → Memory → Memory
clear_direct zero inode i m = m
clear_direct (suc rounds) inode i m =
    clear_direct rounds inode (i + 1) (store16 m (direct_at inode i) 0)

-- `get_inode(idx)`, where -1 is the block before the image
pub inode_of : Option ℕ → ℕ
inode_of none = 2 ^ 64 - block_size
inode_of (some idx) = get_block idx

pub fill_inode : ℕ → (inode name : ℕ) → Memory → Option Memory
fill_inode fuel inode name m =
    elim (strcpy fuel (store32 (store16 m (blocks_at inode) 0) inode 0) (filename inode) name) [
      | none ↦ none
      | some named ↦ some (store16 (clear_direct 12 inode 0 named) (indirect_at inode) 0)
    ]

pub create : ℕ → ℕ → Memory → Option (ℕ × Memory)
create fuel name m =
    let (idx, taken) = alloc_inode m in
    elim (fill_inode fuel (inode_of idx) name taken) [
      | none ↦ none
      | some made ↦ some (inode_of idx, made)
    ]

-- The slot `direct[i]`: what is left to allocate, and the memory.
pub fill_direct_slot : (slot num : ℕ) → Memory → ℕ × Memory
fill_direct_slot slot num m =
    let (b, claimed) = alloc_free_block m in
    if load16 m slot == 0 then (num - 1, store16 claimed slot (as_field (2 ^ 16) b)) else (num, m)

-- The loop over `direct`, from entry `i` on, while `num` blocks are left to allocate.
pub fill_direct : ℕ → (inode i : ℕ) → ℕ × Memory → ℕ × Memory
fill_direct zero inode i (num, m) = (num, m)
fill_direct (suc rounds) inode i (num, m) =
    let rest = fill_direct rounds inode (i + 1) (fill_direct_slot (direct_at inode i) num m) in
    if num == 0 then (num, m) else rest

-- The same for a slot of the indirect block.
pub fill_indirect_slot : (slot num : ℕ) → Memory → ℕ × Memory
fill_indirect_slot slot num m =
    let (b, claimed) = alloc_free_block m in
    if load32 m slot == 0 then (num - 1, store32 claimed slot (as_field (2 ^ 32) b)) else (num, m)

pub fill_indirect : ℕ → (indirect i : ℕ) → ℕ × Memory → ℕ × Memory
fill_indirect zero indirect i (num, m) = (num, m)
fill_indirect (suc rounds) indirect i (num, m) =
    let rest =
      fill_indirect rounds indirect (i + 1) (fill_indirect_slot (indirect + 4 * i) num m) in
    if num == 0 then (num, m) else rest

-- The indirect block, allocated where there is none.
pub need_indirect : ℕ → Memory → Memory
need_indirect inode m =
    let (b, claimed) = alloc_free_block m in
    if load16 m (indirect_at inode) == 0
    then store16 claimed (indirect_at inode) (as_field (2 ^ 16) b)
    else m

pub fill_rest : ℕ → ℕ × Memory → Memory
fill_rest inode (num, m) =
    let ready = need_indirect inode m in
    let filled = fill_indirect 128 (get_block (load16 ready (indirect_at inode))) 0 (num, ready) in
    if num == 0 then m else filled.1

-- `new_size` is the 32-bit pattern of an int; a negative one is below every size.
pub increase_size : (inode new_size : ℕ) → Memory → Memory
increase_size inode new_size m =
    let blocks = load16 m (blocks_at inode) in
    let num = (new_size + block_size - 1) / block_size - blocks in
    let grown = store16 m (blocks_at inode) (blocks + num) in
    let filled = fill_rest inode (fill_direct 12 inode 0 (num, grown)) in
    if leb (2 ^ 31) new_size || leb new_size (blocks * block_size) then m else filled

-- The loop of `sys_write` over the blocks from `i` on.
pub write_loop : ℕ → (inode indirect count i block_off buf num : ℕ) → Memory → Option (ℕ × Memory)
write_loop zero inode indirect count i block_off buf num m =
    if ltb num count then none else some (num, m)
write_loop (suc rounds) inode indirect count i block_off buf num m =
    let dst = get_block (block_at m inode indirect i) + block_off in
    let len = min (count - num) (block_size - block_off) in
    let rest =
      write_loop rounds inode indirect count (i + 1) 0 (buf + len) (num + len)
        (copy_bytes len m dst buf) in
    if ltb num count then rest else some (num, m)

-- The rounds of a loop up to the int with the pattern `count`: none where it is negative.
abbrev pub as_count : ℕ → ℕ
as_count count = if leb (2 ^ 31) count then 0 else count

-- The writing of `sys_write`: the file grows, and takes `count` bytes at the offset.
pub write_to_inode : (inode off buf count : ℕ) → Memory → Option (ℕ × Memory)
write_to_inode inode off buf count m =
    let grown = increase_size inode ((off + count) % 2 ^ 32) m in
    let n = as_count count in
    write_loop n inode (get_block (load16 grown (indirect_at inode))) n (off / block_size)
      (off % block_size) buf 0 grown

-- The new offset goes into the size where it is behind it.
pub note_size : (inode off : ℕ) → Memory → Memory
note_size inode off m = if ltb (size_of m inode) off then store32 m inode off else m
