-- ===== src/Paging/Segments.antt =====
-- The pages of a segment: `map_segment`, `unmap_segment` and the copying of `copy_mm` of
-- kernel/mapping.c, on the heap.
use lilac_os.Base.{ℕ, zero, suc, ◌+◌, ◌-◌, ◌%◌, min, true, false, not, ◌==◌, if◌then◌else◌, some}
use lilac_os.Word.{sub64, u64_mod, ◌>>>◌, ◌<<<◌}
use lilac_os.Buddy.{M, load, store, fault, pure, ◌>>=◌, ◌>>◌}
use lilac_os.Frames.{va, page_size, alloc_frame, dealloc_frame}
use lilac_os.Paging.{ppn2pte, pte2ppn, pte2pa, find_entry, page_count}
use lilac_os.Fs.Files.{copy_bytes}
use lilac_os.Kernel.{Segment, SegmentType, linear, framed}

-- `__ppn(vpn)`
pub ppn_of : ℕ → ℕ
ppn_of vpn = sub64 vpn 0xffffffff00000

-- `dst[i] = src[i]` for `size` bytes
pub copy_to : (size dst src : ℕ) → M (Unit {0})
copy_to size dst src h = some (tt, record h { memory = copy_bytes size h.memory dst src })

-- The frame that a page of a segment is mapped to.
pub frame_for : SegmentType → ℕ → M ℕ
frame_for linear vpn = pure (ppn_of vpn)
frame_for framed vpn = alloc_frame

-- One page of `map_segment`; a page that is mapped already is a panic.
pub map_page : (root_ppn vpn flags : ℕ) → SegmentType → (src size : ℕ) → M (Unit {0})
map_page root_ppn vpn flags kind src size = do
  entry ← find_entry root_ppn vpn true
  old ← load entry
  if not (old == 0) then fault else pure tt
  ppn ← frame_for kind vpn
  store entry (ppn2pte ppn flags)
  if src == 0 then pure tt else copy_to size (va ((ppn <<< 12) % u64_mod)) src

-- The loop of `map_segment`, with the data that is left; no data is the address 0.
pub map_pages_of : ℕ → (root_ppn vpn : ℕ) → Segment → (src len : ℕ) → M (Unit {0})
map_pages_of zero root_ppn vpn segment src len = pure tt
map_pages_of (suc rounds) root_ppn vpn segment src len = do
  let size = min page_size len
  map_page root_ppn vpn segment.flags segment.kind src size
  map_pages_of rounds root_ppn (vpn + 1) segment (if src == 0 then 0 else src + size) (len - size)

pub map_segment : ℕ → Segment → (src len : ℕ) → M (Unit {0})
map_segment root_ppn segment src len =
    map_pages_of (page_count segment.start_va segment.end_va) root_ppn (segment.start_va >>> 12)
      segment src len

-- The loop of `unmap_segment`; a page without an entry is a panic.
pub unmap_pages : ℕ → ℕ → (root_ppn vpn : ℕ) → M (Unit {0})
unmap_pages fuel zero root_ppn vpn = pure tt
unmap_pages fuel (suc rounds) root_ppn vpn = do
  entry ← find_entry root_ppn vpn false
  if entry == 0 then fault else pure tt
  pte ← load entry
  dealloc_frame fuel (pte2ppn pte)
  unmap_pages fuel rounds root_ppn (vpn + 1)

unmap_by_kind : SegmentType → M (Unit {0}) → M (Unit {0})
unmap_by_kind linear run = pure tt
unmap_by_kind framed run = run

pub unmap_segment : ℕ → ℕ → Segment → M (Unit {0})
unmap_segment fuel root_ppn segment = unmap_by_kind segment.kind (
    unmap_pages fuel (page_count segment.start_va segment.end_va) root_ppn
      (segment.start_va >>> 12))

-- The page that is mapped at `vpn`, by its address in the kernel.
pub page_at : (root_ppn vpn : ℕ) → M ℕ
page_at root_ppn vpn = do
  entry ← find_entry root_ppn vpn false
  pte ← load entry
  pure (va (pte2pa pte))

-- The loop of `copy_mm` over the pages of a segment.
pub copy_pages : ℕ → (src_root dst_root vpn : ℕ) → M (Unit {0})
copy_pages zero src_root dst_root vpn = pure tt
copy_pages (suc rounds) src_root dst_root vpn = do
  src_page ← page_at src_root vpn
  dst_page ← page_at dst_root vpn
  copy_to page_size dst_page src_page
  copy_pages rounds src_root dst_root (vpn + 1)
