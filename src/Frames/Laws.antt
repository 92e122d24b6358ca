-- ===== src/Frames/Laws.antt =====
-- `alloc` and `alloc_frame` on a well-formed heap.
use lilac_os.Base.{
  ℕ, ◌+◌, ◌%◌, ◌^◌, ◌≤◌, ◌<◌, ◌≡◌, ◌≢◌, ◌∙◌, ◌⊎◌, inl, inr, refl, none, some, Option, arith,
  if◌then◌else◌, length, ne→==,
}
use lilac_os.Word.{add64, u64_mod, ◌>>>◌, ◌<<<◌}
use lilac_os.Buddy.{Heap, max_order, buddy_alloc, buddy_dealloc, pure, ◌>>=◌, ◌>>◌}
use lilac_os.Buddy.Cover.{inside, Blocks, cover}
use lilac_os.Buddy.Lists.{IsHeap, IsOwned}
use lilac_os.Buddy.Merge.{HasGaps}
use lilac_os.Buddy.Dealloc.{Freed, buddy_dealloc_lem}
use lilac_os.Buddy.Sizes.{IsBlockSize, exact_size}
use lilac_os.Buddy.Alloc.{NoneFree, Served, buddy_alloc_lem}
use lilac_os.Frames.{
  page_size, va, pa, alloc, dealloc, dealloc_frame, clear_bytes, clear_page, alloc_frame,
}
use lilac_os.Frames.Zero.{clear_bytes_lem, IsHeap-ext}

-- A frame given out: its page was free, is free no more, is aligned and zero, and its number leads
-- back to it; the free lists stay well formed.
pub record Framed (h : Heap) (bs : Blocks) (result : Option (ℕ × Heap)) : Type 0 where
  pub page : ℕ
  pub heap : Heap
  pub blocks : Blocks
  pub returns : result ≡ some (pa page >>> 12, heap)
  pub valid : IsHeap heap blocks
  pub moved : (x : ℕ) → cover blocks x + inside page 12 x ≡ cover bs x
  pub kept : (q : ℕ) → cover bs q ≡ 0 → heap.memory q ≡ h.memory q
  pub aligned : page % page_size ≡ 0
  pub fits : page + page_size ≤ 2 ^ 64
  pub zeroed : (q : ℕ) → page ≤ q → q < page + page_size → heap.memory q ≡ 0
  pub back : va (((pa page >>> 12) <<< 12) % u64_mod) ≡ page
  pub allocated : heap.buddy.allocated ≡ add64 h.buddy.allocated page_size

-- No block of a page or more is free, and the kernel panics.
pub record Panicked (h : Heap) (bs : Blocks) (result : Option (ℕ × Heap)) : Type 0 where
  pub stops : result ≡ none
  pub exhausted : NoneFree bs 12 max_order

page-IsBlockSize : IsBlockSize page_size 12
page-IsBlockSize = exact_size page_size 12 (omega arith) (omega arith) (omega arith) (omega arith)

inside-page : (page x : ℕ) → inside page 12 x ≢ 0 → (page ≤ x) × (x < page + page_size)
inside-page page x held = (ground arith, ground arith)

page_back :
    (page : ℕ)
    → page % page_size ≡ 0
    → page + page_size ≤ 2 ^ 64
    → va (((pa page >>> 12) <<< 12) % u64_mod) ≡ page
page_back page aligned fits = omega arith

framed :
    {h : Heap} {bs : Blocks}
    → Served h bs 12 page_size (buddy_alloc page_size h)
    → Framed h bs (alloc_frame h)
unfolding alloc_frame alloc clear_page
framed {h} {bs} s =
    let c = clear_bytes_lem page_size s.block s.heap.memory in
    rw
      (
        alloc_frame,
        alloc,
        ◌>>=◌,
        s.returns,
        ne→== s.block 0 (omega (arith, s.owned.pos)),
        if◌then◌else◌,
        pure,
        ◌>>◌,
        ◌>>=◌,
      )
      (record {
        page = s.block;
        heap = record (s.heap) { memory = clear_bytes page_size s.block s.heap.memory };
        blocks = s.blocks;
        returns = refl;
        valid =
            IsHeap-ext (clear_bytes page_size s.block s.heap.memory) s.valid
              (λ x held. c.outside x (ground (arith, s.owned.clear x)));
        moved = s.moved;
        kept = λ q z. c.outside q (ground (arith, s.moved q, z)) ∙ s.kept q z;
        aligned = s.owned.aligned;
        fits = s.owned.fits;
        zeroed = c.zeroed;
        back = page_back s.block s.owned.aligned s.owned.fits;
        allocated = s.allocated;
      })

-- On a well-formed heap, alloc_frame gives out an aligned page that was free, clears it and
-- keeps the free lists well formed, no byte that was not free before changes, and the frame's
-- number leads back to the page; or no block of a page or more is free, and it panics.
pub alloc_frame_lem :
    {h : Heap} {bs : Blocks}
    → IsHeap h bs
    → Framed h bs (alloc_frame h) ⊎ Panicked h bs (alloc_frame h)
unfolding alloc_frame alloc
alloc_frame_lem {h} {bs} v = elim (buddy_alloc_lem v page-IsBlockSize) [
  | inl s ↦ inl (framed s)
  | inr r ↦
      inr (record { stops = rw (alloc_frame, alloc, ◌>>=◌, r.returns); exhausted = r.exhausted })
]

pub dealloc_lem :
    (fuel block size : ℕ) (h : Heap) → dealloc fuel block size h ≡ buddy_dealloc fuel block size h
unfolding dealloc
dealloc_lem fuel block size h = refl

-- On a well-formed heap, and with fuel above the list lengths, dealloc_frame of the number of
-- an aligned page none of whose bytes is free makes exactly the page's bytes free, keeps the
-- lists well formed and joins the page with its buddies as buddy_dealloc does, provided that
-- no aligned 2^30 bytes become free as a whole.
pub dealloc_frame_lem :
    (fuel : ℕ) {h : Heap} {bs : Blocks} {page : ℕ}
    → IsHeap h bs
    → IsOwned bs page 12
    → ((j : ℕ) → j < max_order → length (bs j) < fuel)
    → HasGaps (λ x. cover bs x + inside page 12 x)
    → Freed h bs page 12 (dealloc_frame fuel (pa page >>> 12) h)
unfolding dealloc_frame
dealloc_frame_lem fuel {h} {bs} {page} v owned enough gaps =
    rw (page_back page owned.aligned owned.fits, dealloc_lem fuel page page_size h)
      (buddy_dealloc_lem fuel v page-IsBlockSize owned enough gaps)
