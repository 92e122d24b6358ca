-- ===== src/Frames.antt =====
-- kernel/memory.c on top of the buddy allocator: kernel memory and page frames. A panic shuts the
-- machine down, so that it is `fault`: no run goes on from it. `fuel` is that of `buddy_dealloc`.
pub mod Zero
pub mod Laws
pub mod Start
mod Tests
use lilac_os.Base.{ℕ, zero, suc, ◌+◌, ◌-◌, ◌*◌, ◌/◌, ◌%◌, ◌^◌, some, ◌==◌, if◌then◌else◌}
use lilac_os.Word.{sub64, add64, u64_mod, ◌>>>◌, ◌<<<◌}
use lilac_os.Memory.{Memory, store8}
use lilac_os.Buddy.{
  M, Heap, init_buddy, add_to_buddy, buddy_alloc, buddy_dealloc, fault, pure, ◌>>=◌, ◌>>◌,
}

abbrev pub page_size : ℕ
page_size = 4096

abbrev pub kernel_map_offset : ℕ
kernel_map_offset = 0xffffffff00000000

-- `__va(pa)` and `__pa(va)`
abbrev pub va : ℕ → ℕ
va pa = add64 pa kernel_map_offset

abbrev pub pa : ℕ → ℕ
pa address = sub64 address kernel_map_offset

abbrev pub memory_end : ℕ
memory_end = 0x88000000

-- `ekernel` is the end of the kernel's image.
pub init_allocator : ℕ → M (Unit {0})
init_allocator ekernel = do init_buddy; add_to_buddy ekernel (va memory_end)

pub alloc : ℕ → M ℕ
alloc size = do block ← buddy_alloc size; if block == 0 then fault else pure block

pub dealloc : ℕ → (block size : ℕ) → M (Unit {0})
dealloc fuel block size = buddy_dealloc fuel block size

-- `page[i] = 0` for the next `n` bytes
pub clear_bytes : ℕ → ℕ → Memory → Memory
clear_bytes zero page m = m
clear_bytes (suc n) page m = clear_bytes n (page + 1) (store8 m page 0)

pub clear_page : ℕ → M (Unit {0})
clear_page page h = some (tt, record h { memory = clear_bytes page_size page h.memory })

-- The frame's number.
pub alloc_frame : M ℕ
alloc_frame = do page ← alloc page_size; clear_page page; pure (pa page >>> 12)

pub dealloc_frame : ℕ → ℕ → M (Unit {0})
dealloc_frame fuel ppn = dealloc fuel (va ((ppn <<< 12) % u64_mod)) page_size
