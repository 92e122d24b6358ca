-- ===== src/Frames/Tests.antt =====
-- `alloc_frame` on a heap with two free pages at 8192.
use lilac_os.Base.{◌⊎◌, refl, [], ◌∷◌, arith}
use lilac_os.Buddy.{Heap}
use lilac_os.Buddy.Cover.{Blocks, put, no_blocks, cover-no_blocks}
use lilac_os.Buddy.Lists.{IsHeap, IsOwned, pushed, IsHeap-push}
use lilac_os.Buddy.Dealloc.{Freed}
use lilac_os.Word.{◌>>>◌}
use lilac_os.Frames.Start.{Started, init_allocator_lem}
use lilac_os.Frames.{init_allocator, alloc_frame, dealloc_frame, pa}
use lilac_os.Frames.Laws.{Framed, Panicked, alloc_frame_lem, dealloc_frame_lem}

abbrev nothing : Heap
nothing = record {
  memory = λ q. 255;
  buddy = record { free_list = λ i. 0; total = 0; allocated = 0 };
}

nothing-IsHeap : IsHeap nothing no_blocks
nothing-IsHeap = record {
  chains = λ i p. refl;
  cells = λ i p. refl;
  once = λ x. omega (arith, cover-no_blocks x);
}

abbrev two_pages : Heap
two_pages = pushed 8192 13 nothing

abbrev free_pages : Blocks
free_pages = put no_blocks 13 (8192 ∷ [])

two_pages-IsHeap : IsHeap two_pages free_pages
two_pages-IsHeap = IsHeap-push nothing-IsHeap (record {
  bound = omega arith;
  cell = omega arith;
  pos = omega arith;
  aligned = refl;
  fits = omega arith;
  clear = λ x lo hi. cover-no_blocks x;
})

alloc_frame_lem_example :
    Framed two_pages free_pages (alloc_frame two_pages)
    ⊎ Panicked two_pages free_pages (alloc_frame two_pages)
alloc_frame_lem_example = alloc_frame_lem two_pages-IsHeap

-- The page at 8192, given back where nothing is free.
page-IsOwned : IsOwned no_blocks 8192 12
page-IsOwned = record {
  bound = omega arith;
  cell = omega arith;
  pos = omega arith;
  aligned = refl;
  fits = omega arith;
  clear = λ x lo hi. cover-no_blocks x;
}

dealloc_frame_lem_example :
    Freed nothing no_blocks 8192 12 (dealloc_frame 1 (pa 8192 >>> 12) nothing)
dealloc_frame_lem_example =
    dealloc_frame_lem 1 nothing-IsHeap page-IsOwned (λ j h. omega arith)
      (λ b m. (b, ground arith, ground (arith, cover-no_blocks b)))

-- A kernel of 128 KiB.
init_allocator_lem_example :
    Started 0xffffffff80220000 (init_allocator 0xffffffff80220000 two_pages)
init_allocator_lem_example =
    init_allocator_lem 0xffffffff80220000 two_pages (omega arith) (omega arith) refl
