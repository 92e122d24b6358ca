-- ===== src/Paging.antt =====
-- The page tables of kernel/mapping.c and the macros of kernel/mapping.h, on the heap that holds
-- them. A table is a page of 512 entries of eight bytes. A mask of low bits is written as the
-- remainder that it takes, and NULL is 0. The option D1 of another board is off.
pub mod Segments
pub mod Entries
pub mod Tables
pub mod Leaves
pub mod Growing
pub mod Descent
pub mod Finding
pub mod Mapping
mod Tests
use lilac_os.Base.{
  ℕ, zero, suc, ◌+◌, ◌-◌, ◌*◌, ◌/◌, ◌%◌, ◌^◌, bit_and, bit_or, Bool, true, false, not, ◌&&◌, ◌==◌,
  if◌then◌else◌,
}
use lilac_os.Word.{sub64, add64, u64_mod, ◌>>>◌, ◌<<<◌}
use lilac_os.Buddy.{M, load, store, fault, pure, ◌>>=◌, ◌>>◌}
use lilac_os.Frames.{va, alloc_frame, dealloc_frame}

-- The flags of an entry.
abbrev pub page_valid : ℕ
page_valid = 1

abbrev pub page_read : ℕ
page_read = 2

abbrev pub page_write : ℕ
page_write = 4

abbrev pub page_exec : ℕ
page_exec = 8

abbrev pub page_user : ℕ
page_user = 16

-- `PPN2PTE(ppn, flags)`
pub ppn2pte : ℕ → ℕ → ℕ
ppn2pte ppn flags = bit_or ((ppn <<< 10) % u64_mod) flags

-- `PTE2PPN(pte)`: the bits 10 to 53
pub pte2ppn : ℕ → ℕ
pte2ppn pte = (pte >>> 10) % 2 ^ 44

-- `PTE2PA(pte)`
pub pte2pa : ℕ → ℕ
pte2pa pte = pte2ppn pte <<< 12

-- `__satp(ppn)`
pub satp : ℕ → ℕ
satp ppn = bit_or ppn (8 <<< 60)

-- `get_vpn_levels(vpn)[i]`
pub get_vpn_levels : ℕ → ℕ → ℕ
get_vpn_levels vpn i =
    if i == 2 then (vpn >>> 18) % 2 ^ 9 else if i == 1 then (vpn >>> 9) % 2 ^ 9 else vpn % 2 ^ 9

-- `&table[index]`, for a table at a physical address
pub entry_at : (pa index : ℕ) → ℕ
entry_at pa index = add64 (va pa) (8 * index)

-- `*pte = PPN2PTE(alloc_frame(), PAGE_VALID)`
pub make_table : ℕ → M (Unit {0})
make_table pte = do new_ppn ← alloc_frame; store pte (ppn2pte new_ppn page_valid)

-- The table that an entry leads to.
pub follow : (pte index : ℕ) → M ℕ
follow pte index = do entry ← load pte; pure (entry_at (pte2pa entry) index)

-- The body of the loop of `find_entry`.
pub descend : Bool → (pte index : ℕ) → M ℕ
descend flag pte index = do
  entry ← load pte
  let create = (do make_table pte; follow pte index)
  if entry == 0 then (if flag then create else pure 0) else follow pte index

-- The loop, with the levels below `i` to go.
pub find_loop : ℕ → Bool → (vpn pte : ℕ) → M ℕ
find_loop zero flag vpn pte = pure pte
find_loop (suc i) flag vpn pte = do
  next ← descend flag pte (get_vpn_levels vpn i)
  let rest = find_loop i flag vpn next
  if next == 0 then pure 0 else rest

pub find_entry : (root_ppn vpn : ℕ) → Bool → M ℕ
find_entry root_ppn vpn flag =
    find_loop 2 flag vpn (entry_at ((root_ppn <<< 12) % u64_mod) (get_vpn_levels vpn 2))

-- The page numbers that `list_for_va_range` runs through, from `start_va >> 12` on.
pub page_count : (start_va end_va : ℕ) → ℕ
page_count start_va end_va = (sub64 end_va 1 >>> 12) + 1 - (start_va >>> 12)

pub map_loop : ℕ → (root_ppn vpn ppn flags : ℕ) → M (Unit {0})
map_loop zero root_ppn vpn ppn flags = pure tt
map_loop (suc rounds) root_ppn vpn ppn flags = do
  entry ← find_entry root_ppn vpn true
  store entry (ppn2pte ppn flags)
  map_loop rounds root_ppn (vpn + 1) (ppn + 1) flags

pub map_pages : (root_ppn start_va start_pa size flags : ℕ) → M (Unit {0})
map_pages root_ppn start_va start_pa size flags =
    map_loop (page_count start_va (add64 start_va size)) root_ppn (start_va >>> 12)
      (start_pa >>> 12) flags

-- A valid entry that may be neither read, written nor executed leads to a table.
unfoldable pub is_table : ℕ → Bool
is_table pte =
    not (bit_and pte page_valid == 0) && bit_and pte (page_read + page_write + page_exec) == 0

-- The loop of `dealloc_pagetable`, from entry `i` on; `free` is its recursive call.
pub free_entries : (ℕ → M (Unit {0})) → ℕ → (table i : ℕ) → M (Unit {0})
free_entries free zero table i = pure tt
free_entries free (suc rounds) table i = do
  pte ← load (table + 8 * i)
  if is_table pte then (do free (pte2ppn pte); store (table + 8 * i) 0) else pure tt
  free_entries free rounds table (i + 1)

-- `depth` is fuel for the recursion, which is bounded by the entries that are found alone; `fuel` is
-- that of `buddy_dealloc`.
pub dealloc_pagetable : ℕ → (depth ppn : ℕ) → M (Unit {0})
dealloc_pagetable fuel zero ppn = fault
dealloc_pagetable fuel (suc depth) ppn = do
  free_entries (λ next. dealloc_pagetable fuel depth next) 512 (va ((ppn <<< 12) % u64_mod)) 0
  dealloc_frame fuel ppn
