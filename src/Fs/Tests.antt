-- ===== src/Fs/Tests.antt =====
-- Runs of the file system's allocators, and their theorems at a small image.
use lilac_os.Base.{ℕ, ◌≡◌, ◌⊎◌, refl, Option, none, some, arith, ◌==◌, if◌then◌else◌}
use lilac_os.Word.Flags.{bit}
use lilac_os.Memory.{Memory, load16, store16, load32, store32}
use lilac_os.Fs.{claim_block, alloc_free_block, alloc_inode}
use lilac_os.Fs.Bitmap.{used, unused_below}
use lilac_os.Fs.Blocks.{IsConsistent, Taken, Full, alloc_free_block_lem}
use lilac_os.Fs.Inodes.{Entered, Refused, alloc_inode_lem}

-- Blocks 0 to 2 are used, and 2045 are not.
abbrev fresh : Memory
fresh q = if q == 6 then 253 else if q == 7 then 7 else if q == 512 then 7 else 0

abbrev taken : Option ℕ × Memory → ℕ
taken (none, d) = 9999
taken (some b, d) = b

fresh_runs : taken (alloc_free_block fresh) ≡ 3
unfolding alloc_free_block claim_block load16 store16 load32 store32
fresh_runs = refl

fresh-IsConsistent : IsConsistent fresh
unfolding load16 load32 used unused_below bit
fresh-IsConsistent = record { bytes = λ q. ground arith; counted = refl }

alloc_free_block_lem_example :
    Taken fresh (alloc_free_block fresh) ⊎ Full fresh (alloc_free_block fresh)
alloc_free_block_lem_example = alloc_free_block_lem fresh fresh-IsConsistent

alloc_inode_lem_example : Entered fresh (alloc_inode fresh) ⊎ Refused fresh (alloc_inode fresh)
alloc_inode_lem_example = alloc_inode_lem fresh fresh-IsConsistent
