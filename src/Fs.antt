-- ===== src/Fs.antt =====
-- The file system of kernel/fs.c over the bytes of the disk image, with addresses counted from
-- `_fs_img_start`: block 0 is the super block, block 1 the map of used blocks, block 2 the table
-- of inodes. `none` is the -1 of the block and inode allocators.
pub mod Bitmap
pub mod Blocks
pub mod Inodes
pub mod Files
pub mod Growth
mod Tests
use lilac_os.Base.{
  ℕ, zero, suc, ◌+◌, ◌-◌, ◌*◌, ◌/◌, ◌%◌, ◌^◌, bit_and, bit_or, Option, none, some, ◌==◌,
  if◌then◌else◌,
}
use lilac_os.Memory.{Memory, load16, store16, load32, store32}

abbrev pub block_size : ℕ
block_size = 512

abbrev pub block_num : ℕ
block_num = 2048

-- `get_block(block)`, as an offset in the image
abbrev pub get_block : ℕ → ℕ
get_block block = block * block_size

-- `sb->unused_blocks`, after the magic number and the block count
abbrev pub unused_at : ℕ
unused_at = get_block 0 + 6

-- `freemap[i / 32]`
abbrev pub word_at : ℕ → ℕ
word_at i = get_block 1 + 4 * (i / 32)

-- `fat[i]`
abbrev pub fat_at : ℕ → ℕ
fat_at i = get_block 2 + 2 * i

abbrev pub fat_size : ℕ
fat_size = 256

-- The loop of `alloc_free_block`, from block `i` on.
pub claim_block : ℕ → ℕ → Memory → Option ℕ × Memory
claim_block zero i d = (none, d)
claim_block (suc rounds) i d =
    let rest = claim_block rounds (i + 1) d in
    if bit_and (load32 d (word_at i)) (2 ^ (i % 32)) == 0
    then (some i, store32 d (word_at i) (bit_or (load32 d (word_at i)) (2 ^ (i % 32))))
    else rest

pub alloc_free_block : Memory → Option ℕ × Memory
alloc_free_block d =
    if load16 d unused_at == 0
    then (none, d)
    else claim_block block_num 0 (store16 d unused_at (load16 d unused_at - 1))

-- `fat[i] = inode` where a block was found
pub fill_entry : ℕ → Option ℕ × Memory → Option ℕ × Memory
fill_entry i (none, d) = (none, d)
fill_entry i (some b, d) = (some b, store16 d (fat_at i) b)

-- The loop of `alloc_inode`, from entry `i` on.
pub alloc_entry : ℕ → ℕ → Memory → Option ℕ × Memory
alloc_entry zero i d = (none, d)
alloc_entry (suc rounds) i d =
    let rest = alloc_entry rounds (i + 1) d in
    let found = fill_entry i (alloc_free_block d) in
    if load16 d (fat_at i) == 0 then found else rest

pub alloc_inode : Memory → Option ℕ × Memory
alloc_inode d = alloc_entry fat_size 0 d
