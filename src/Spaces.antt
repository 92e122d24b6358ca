-- ===== src/Spaces.antt =====
-- Address spaces: the lists of segments of kernel/mapping.c over its page tables, and kernel/elf.c.
-- `fuel` bounds the walks along lists, and is that of `buddy_dealloc`.
pub mod Flags
mod Tests
use lilac_os.Base.{
  ℕ, zero, suc, ◌+◌, ◌-◌, ◌*◌, ◌/◌, ◌%◌, ◌^◌, bit_and, bit_or, Bool, true, false, not, ◌&&◌, update,
  ltb, ◌==◌, if◌then◌else◌,
}
use lilac_os.Word.{add64, ◌>>>◌}
use lilac_os.Memory.{load64, load32, load16}
use lilac_os.Lists.{init_list_head, list_add, list_add_tail, list_del}
use lilac_os.Buddy.{M}
use lilac_os.Frames.{va, alloc, alloc_frame}
use lilac_os.Paging.{
  page_valid, page_read, page_write, page_exec, page_user, page_count, dealloc_pagetable,
}
use lilac_os.Paging.Segments.{map_segment, unmap_segment, copy_pages}
use lilac_os.Kernel.{
  Kernel, K, stop, give, ◌>>=◌, ◌>>◌, kernel_state, modify, on_heap, relink, Segment, SegmentType,
  linear, framed, segment_list_of, segment_node_of,
}

pub new_memory_map : K ℕ
new_memory_map = do
  res ← on_heap (alloc 24)
  root_ppn ← on_heap alloc_frame
  modify (λ k. record k { roots = update k.roots res root_ppn })
  modify (relink (init_list_head (segment_list_of res)))
  give res

pub new_segment : Segment → K ℕ
new_segment segment = do
  res ← on_heap (alloc 48)
  modify (λ k. record k { segments = update k.segments res segment })
  modify (relink (init_list_head (segment_node_of res)))
  give res

-- The while loop of `dealloc_memory_map`: the first segment goes, until the list is empty.
pub dealloc_segments : ℕ → ℕ → ℕ → K (Unit {0})
dealloc_segments fuel zero mm = stop
dealloc_segments fuel (suc rounds) mm = do
  k ← kernel_state
  let node = k.links.next (segment_list_of mm)
  let rest = (do
    modify (relink (list_del node))
    on_heap (unmap_segment fuel (k.roots mm) (k.segments (node - 32)))
    dealloc_segments fuel rounds mm)
  if node == segment_list_of mm then give tt else rest

pub dealloc_memory_map : ℕ → ℕ → K (Unit {0})
dealloc_memory_map fuel mm = do
  dealloc_segments fuel fuel mm
  k ← kernel_state
  on_heap (dealloc_pagetable fuel fuel (k.roots mm))

-- What `copy_mm` does with a segment that is not linear, once it is mapped.
pub copy_framed : SegmentType → (rounds src_root dst_root vpn node dst : ℕ) → K (Unit {0})
copy_framed linear rounds src_root dst_root vpn node dst = give tt
copy_framed framed rounds src_root dst_root vpn node dst = do
  on_heap (copy_pages rounds src_root dst_root vpn)
  modify (relink (list_add_tail node (segment_list_of dst)))

-- The loop of `copy_mm` from the segment with the node `node` on.
pub copy_segments : ℕ → (src dst node : ℕ) → K (Unit {0})
copy_segments zero src dst node = stop
copy_segments (suc fuel) src dst node = do
  k ← kernel_state
  let segment = k.segments (node - 32)
  let copy = (do
    dst_seg ← new_segment segment
    on_heap (map_segment (k.roots dst) segment 0 0)
    copy_framed segment.kind (page_count segment.start_va segment.end_va) (k.roots src)
        (k.roots dst) (segment.start_va >>> 12) (segment_node_of dst_seg) dst
    after ← kernel_state
    copy_segments fuel src dst (after.links.next node))
  if node == segment_list_of src then give tt else copy

pub copy_mm : ℕ → ℕ → K ℕ
copy_mm fuel src = do
  dst ← new_memory_map
  k ← kernel_state
  copy_segments fuel src dst (k.links.next (segment_list_of src))
  give dst

-- The symbols of the linker script.
pub record Symbols : Type 0 where
  pub stext : ℕ
  pub etext : ℕ
  pub srodata : ℕ
  pub erodata : ℕ
  pub sdata : ℕ
  pub edata : ℕ
  pub sbss_with_stack : ℕ
  pub ebss : ℕ
  pub ekernel : ℕ

-- A linear segment of the kernel, made and mapped.
pub kernel_segment : (root_ppn start_va end_va flags : ℕ) → K ℕ
kernel_segment root_ppn start_va end_va flags = do
  let segment : Segment = record {
    start_va = start_va;
    end_va = end_va;
    flags = flags;
    kind = linear;
  }
  res ← new_segment segment
  on_heap (map_segment root_ppn segment 0 0)
  give res

pub link_segment : (segment mm : ℕ) → K (Unit {0})
link_segment segment mm = modify (relink (list_add (segment_node_of segment) (segment_list_of mm)))

pub new_kernel_memory_map : Symbols → K ℕ
new_kernel_memory_map s = do
  mm ← new_memory_map
  k ← kernel_state
  let root_ppn = k.roots mm
  text ← kernel_segment root_ppn s.stext s.etext (page_valid + page_read + page_exec)
  rodata ← kernel_segment root_ppn s.srodata s.erodata (page_valid + page_read)
  initialised ← kernel_segment root_ppn s.sdata s.edata (page_valid + page_read + page_write)
  bss ← kernel_segment root_ppn s.sbss_with_stack s.ebss (page_valid + page_read + page_write)
  other ← kernel_segment root_ppn s.ekernel (va 0x88000000) (page_valid + page_read + page_write)
  link_segment other mm
  link_segment bss mm
  link_segment initialised mm
  link_segment rodata mm
  link_segment text mm
  give mm

-- `convert_flags` of kernel/elf.c
pub convert_flags : ℕ → ℕ
convert_flags flags =
    let res = bit_or page_valid page_user in
    let exec = if bit_and flags 1 == 0 then res else bit_or res page_exec in
    let write = if bit_and flags 2 == 0 then exec else bit_or exec page_write in
    if bit_and flags 4 == 0 then write else bit_or write page_read

-- `e_header->e_ident` starts with 0x7f and `ELF`.
pub is_elf : (ℕ → ℕ) → ℕ → Bool
is_elf m elf = m elf == 0x7f && m (elf + 1) == 69 && m (elf + 2) == 76 && m (elf + 3) == 70

-- A program header that is loaded and not empty becomes a segment with its data.
pub load_segment : (elf p_header mm : ℕ) → K (Unit {0})
load_segment elf p_header mm = do
  k ← kernel_state
  let m = k.heap.memory
  let start_va = load64 m (p_header + 16)
  let memsz = load64 m (p_header + 40)
  let segment : Segment = record {
    start_va = start_va;
    end_va = add64 start_va memsz;
    flags = convert_flags (load32 m (p_header + 4));
    kind = framed;
  }
  let load = (do
    res ← new_segment segment
    on_heap (map_segment (k.roots mm) segment (add64 elf (load64 m (p_header + 8))) memsz)
    link_segment res mm)
  if not (load32 m p_header == 1)
      then give tt
      else if start_va == add64 start_va memsz
      then give tt
      else load

-- The loop over the program headers; `e_phnum` is read in each round.
pub load_segments : ℕ → (elf i p_header mm : ℕ) → K (Unit {0})
load_segments zero elf i p_header mm = stop
load_segments (suc fuel) elf i p_header mm = do
  k ← kernel_state
  let round = (do load_segment elf p_header mm; load_segments fuel elf (i + 1) (p_header + 56) mm)
  if ltb i (load16 k.heap.memory (elf + 56)) then round else give tt

pub from_elf : ℕ → Symbols → ℕ → K ℕ
from_elf fuel s elf = do
  res ← new_kernel_memory_map s
  k ← kernel_state
  if is_elf k.heap.memory elf then give tt else stop
  load_segments fuel elf 0 (add64 elf (load64 k.heap.memory (elf + 32))) res
  give res
