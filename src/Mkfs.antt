-- ===== src/Mkfs.antt =====
-- tool/mkfs.c, which builds the image of the file system. `none` is an access outside the image, or
-- the exit of `main`. The entries of a directory are an argument.
pub mod Laws
pub mod Keeping
pub mod Content
pub mod Placing
pub mod Direct
pub mod Indirect
pub mod Slots
pub mod Behind
pub mod Copying
pub mod Filling
pub mod Packed
pub mod Directory
pub mod Front
pub mod Whole
pub mod Reading
mod Tests
use lilac_os.Base.{
  ℕ, zero, suc, ◌+◌, ◌-◌, ◌*◌, ◌/◌, ◌%◌, ◌^◌, Bool, true, false, ◌&&◌, List, [], ◌∷◌, length,
  Option, none, some, ◌==◌, if◌then◌else◌,
}
use lilac_os.Memory.{Memory, load16, store16, load32, store32, store8}
use lilac_os.Fs.{block_size, block_num, get_block, unused_at, fat_at, fat_size, claim_block}
use lilac_os.Fs.Files.{filename, direct_at, indirect_at}
use lilac_os.Fs.Growth.{blocks_at}

-- `Image`, with its addresses from 0 on, and `unused_blocks`.
pub record Image : Type 0 where
  pub bytes : Memory
  pub unused : ℕ

-- `--unused_blocks` where a block was found
pub count_block : Option ℕ → Image → Option ℕ × Image
count_block none image = (none, image)
count_block (some b) image = (some b, record image { unused = image.unused - 1 })

-- The loop over the map is that of the kernel.
pub alloc_free_block : Image → Option ℕ × Image
alloc_free_block image =
    let (b, bytes) = claim_block block_num 0 image.bytes in
    count_block b (record image { bytes = bytes })

-- `fat[i] = inode` where a block was found
pub fill_entry : ℕ → Option ℕ × Image → Option ℕ × Image
fill_entry i (none, image) = (none, image)
fill_entry i (some b, image) = (some b, record image { bytes = store16 (image.bytes) (fat_at i) b })

-- The loop of `alloc_inode`, from entry `i` on.
pub alloc_entry : ℕ → ℕ → Image → Option ℕ × Image
alloc_entry zero i image = (none, image)
alloc_entry (suc rounds) i image =
    let rest = alloc_entry rounds (i + 1) image in
    let found = fill_entry i (alloc_free_block image) in
    if load16 image.bytes (fat_at i) == 0 then found else rest

pub alloc_inode : Image → Option ℕ × Image
alloc_inode image = alloc_entry fat_size 0 image

-- The block in the first direct slot from `i` on that is empty, or `none`.
pub put_direct : ℕ → (block inode i : ℕ) → Memory → Option Memory
put_direct zero block inode i d = none
put_direct (suc rounds) block inode i d =
    let rest = put_direct rounds block inode (i + 1) d in
    if load16 d (direct_at inode i) == 0 then some (store16 d (direct_at inode i) block) else rest

-- The same for the slots of the indirect block. Where all are in use, the block is dropped.
pub put_indirect : ℕ → (block indirect i : ℕ) → Memory → Memory
put_indirect zero block indirect i d = d
put_indirect (suc rounds) block indirect i d =
    let rest = put_indirect rounds block indirect (i + 1) d in
    if load32 d (indirect + 4 * i) == 0 then store32 d (indirect + 4 * i) block else rest

-- The indirect block, allocated where there is none.
pub need_indirect : (inode : ℕ) → Image → Option Image
need_indirect inode image =
    let (block, rest) = alloc_free_block image in
    let claimed : Option Image = elim block [
      | none ↦ none
      | some b ↦ some (record rest { bytes = store16 rest.bytes (indirect_at inode) b })
    ] in
    if load16 image.bytes (indirect_at inode) == 0 then claimed else some image

pub put_behind : (block inode : ℕ) → Image → Option Image
put_behind block inode image = elim (need_indirect inode image) [
  | none ↦ none
  | some ready ↦
      let indirect = get_block (load16 ready.bytes (indirect_at inode)) in
      some (record ready { bytes = put_indirect 128 block indirect 0 ready.bytes })
]

pub put_block : (block inode : ℕ) → Image → Option Image
put_block block inode image = elim (put_direct 12 block inode 0 image.bytes) [
  | none ↦ put_behind block inode image
  | some d ↦ some (record image { bytes = d })
]

-- `fread`: at most `n` bytes to `place`, and the bytes that are left.
pub fread : ℕ → List ℕ → (place : ℕ) → Memory → List ℕ × Memory
fread zero content place d = (content, d)
fread (suc n) [] place d = ([], d)
fread (suc n) (c ∷ content) place d = fread n content (place + 1) (store8 d place c)

-- The while loop over the blocks of a file; `content` is what is left of it.
pub copy_blocks : ℕ → (inode : ℕ) → List ℕ → Image → Option Image
copy_blocks rounds inode [] image = some image
copy_blocks zero inode (c ∷ content) image = none
copy_blocks (suc rounds) inode (c ∷ content) image =
    let (found, claimed) = alloc_free_block image in
    elim found [
      | none ↦ none
      | some block ↦
          let (rest, d) = fread block_size (c ∷ content) (get_block block) claimed.bytes in
          elim (put_block block inode (record claimed { bytes = d })) [
            | none ↦ none
            | some after ↦ copy_blocks rounds inode rest after
          ]
    ]

-- An entry of the directory: its name without the zero byte, and for a regular file its bytes.
pub record Entry : Type 0 where
  pub name : List ℕ
  pub regular : Bool
  pub content : List ℕ

-- `strcpy` of a name
pub put_name : List ℕ → ℕ → Memory → Memory
put_name [] address d = store8 d address 0
put_name (c ∷ name) address d = put_name name (address + 1) (store8 d address c)

-- `(size - 1) / BLOCK_SIZE + 1`, in the 16 bits of `blocks`
abbrev pub blocks_for : ℕ → ℕ
blocks_for size = ((size + (2 ^ 32 - 1)) % 2 ^ 32 / block_size + 1) % 2 ^ 16

pub fill_inode : (inode : ℕ) → Entry → Memory → Memory
fill_inode inode entry d =
    let size = length entry.content % 2 ^ 32 in
    store16 (store32 (put_name entry.name (filename inode) d) inode size) (blocks_at inode)
      (blocks_for size)

-- A regular file, packed.
pub pack : Entry → Image → Option Image
pack entry image =
    let (found, claimed) = alloc_inode image in
    elim found [
      | none ↦ none
      | some idx ↦
          let inode = get_block idx in
          copy_blocks (length entry.content) inode entry.content
            (record claimed { bytes = fill_inode inode entry claimed.bytes })
    ]

-- "." and ".."
pub is_dots : List ℕ → Bool
is_dots [] = false
is_dots (a ∷ []) = a == 46
is_dots (a ∷ b ∷ []) = a == 46 && b == 46
is_dots (a ∷ b ∷ c ∷ name) = false

pub walk : List Entry → Image → Option Image
walk [] image = some image
walk (entry ∷ entries) image =
    let packed : Option Image = elim (pack entry image) [
      | none ↦ none
      | some after ↦ walk entries after
    ] in
    let skipped = walk entries image in
    if is_dots entry.name then skipped else if entry.regular then packed else skipped

-- The super block, and `unused_blocks` in it.
pub fill_super : Image → Memory
fill_super image =
    store16 (store16 (store32 image.bytes 0 0x4D534653) 4 block_num) unused_at
      (image.unused % 2 ^ 16)

abbrev pub blank : Image
blank = record { bytes = λ q. 0; unused = block_num }

-- The three blocks in front, claimed.
pub reserve : Option Image
reserve =
    let (a, one) = alloc_free_block blank in
    let (b, two) = alloc_free_block one in
    let (c, three) = alloc_free_block two in
    elim a [
      | none ↦ none
      | some x ↦ elim b [
        | none ↦ none
        | some y ↦ elim c [
          | none ↦ none
          | some z ↦ if x == 0 && y == 1 && z == 2 then some three else none
        ]
      ]
    ]

-- The image for a directory.
pub mkfs : List Entry → Option Memory
mkfs entries = elim reserve [
  | none ↦ none
  | some image ↦ elim (walk entries image) [ none ↦ none | some packed ↦ some (fill_super packed) ]
]
