-- ===== src/Buddy/Tests.antt =====
-- Runs of the allocator, and its theorems at small heaps.
use lilac_os.Base.{
  ℕ, ◌+◌, ◌^◌, ◌<◌, ◌≡◌, ◌⊎◌, inr, refl, Option, none, some, List, [], ◌∷◌, arith, length,
}
use lilac_os.Memory.{load64, store64}
use lilac_os.Buddy.{
  Heap, M, pure, ◌>>=◌, ◌>>◌, smear, next_power_of_two, prev_power_of_two, get_order, adjust_size,
  get_list, set_list, load, store, push, pop, init_buddy, region_block, add_loop, add_total,
  add_to_buddy, split, alloc_loop, add_allocated, buddy_alloc, unlink, find_buddy, merge,
  sub_allocated, buddy_dealloc,
}
use lilac_os.Buddy.Sizes.{
  IsRoundUp, next_power_of_two-IsRoundUp, IsRoundDown, prev_power_of_two-IsRoundDown, IsBlockSize,
  block_size, adjust_wraps, get_order_lem,
}
use lilac_os.Buddy.Cover.{inside, Blocks, put, cover, no_blocks, cover-no_blocks}
use lilac_os.Buddy.Lists.{IsHeap, IsOwned, pushed, cover-push, IsHeap-push}
use lilac_os.Buddy.Alloc.{Served, Refused, buddy_alloc_lem}
use lilac_os.Buddy.Merge.{HasGaps}
use lilac_os.Buddy.Dealloc.{Freed, buddy_dealloc_lem}
use lilac_os.Buddy.Cut.{IsRegion}
use lilac_os.Buddy.Region.{Added, add_to_buddy_lem, init_buddy_lem}

abbrev empty : Heap
empty = record { memory = λ _. 0; buddy = record { free_list = λ _. 0; total = 0; allocated = 0 } }

empty-IsHeap : IsHeap empty no_blocks
empty-IsHeap = record {
  chains = λ i g. refl;
  cells = λ i g. refl;
  once = λ x. omega (arith, cover-no_blocks x);
}

-- Two allocations of 100 bytes and one of a page out of two pages, and the first block freed.
script : M (List ℕ)
unfolding smear next_power_of_two prev_power_of_two get_order adjust_size get_list set_list load
    store push pop init_buddy region_block add_loop add_total add_to_buddy split alloc_loop
    add_allocated buddy_alloc unlink find_buddy merge sub_allocated buddy_dealloc load64 store64
script = do
  init_buddy
  add_to_buddy 4096 12288
  a ← buddy_alloc 100
  b ← buddy_alloc 100
  c ← buddy_alloc 4096
  d ← buddy_alloc 4096
  buddy_dealloc 9 a 100
  buddy_dealloc 9 b 100
  e ← buddy_alloc 4096
  pure (a ∷ b ∷ c ∷ d ∷ e ∷ [])

abbrev result : Option (List ℕ × Heap) → List ℕ
result none = []
result (some (l, h)) = l

script_runs : result (script empty) ≡ 8192 ∷ 8320 ∷ 4096 ∷ 0 ∷ 8192 ∷ []
unfolding script
script_runs = refl

-- One free block of 2048 bytes at 4096.
abbrev one : Heap
one = pushed 4096 11 empty

abbrev one_block : Blocks
one_block = put no_blocks 11 (4096 ∷ [])

one-IsHeap : IsHeap one one_block
one-IsHeap = IsHeap-push empty-IsHeap (record {
  bound = omega arith;
  cell = omega arith;
  pos = omega arith;
  aligned = refl;
  fits = omega arith;
  clear = λ x lo hi. cover-no_blocks x;
})

cover-one : (x : ℕ) → cover one_block x ≡ inside 4096 11 x
cover-one x = omega (arith, cover-push no_blocks 11 4096 x (omega arith), cover-no_blocks x)

hundred-IsRoundUp : IsRoundUp 100 7
unfolding next_power_of_two smear
hundred-IsRoundUp = record {
  small = omega arith;
  returns = refl;
  above = omega arith;
  tight = omega arith;
}

hundred : IsBlockSize 100 7
unfolding adjust_size next_power_of_two smear get_order
hundred = record {
  cell = omega arith;
  small = omega arith;
  returns = refl;
  order = refl;
  above = omega arith;
  tight = inr (omega arith);
}

two_kib : IsBlockSize 2048 11
unfolding adjust_size next_power_of_two smear get_order
two_kib = record {
  cell = omega arith;
  small = omega arith;
  returns = refl;
  order = refl;
  above = omega arith;
  tight = inr (omega arith);
}

-- The block above the free one, its buddy.
upper-IsOwned : IsOwned one_block 6144 11
upper-IsOwned = record {
  bound = omega arith;
  cell = omega arith;
  pos = omega arith;
  aligned = refl;
  fits = omega arith;
  clear = λ x lo hi. ground (arith, cover-one x);
}

upper-HasGaps : HasGaps (λ x. cover one_block x + inside 6144 11 x)
upper-HasGaps b m = (b, ground arith, ground (arith, cover-one b))

one-length : (j : ℕ) → j < 30 → length (one_block j) < 9
one-length j p = ground arith

pages : IsRegion 4096 12288
pages = record {
  pos = omega arith;
  le = omega arith;
  bound = omega arith;
  short = omega arith;
  start_aligned = refl;
  end_aligned = refl;
}

next_power_of_two-IsRoundUp_example : (k : ℕ) × IsRoundUp 100 k
next_power_of_two-IsRoundUp_example = next_power_of_two-IsRoundUp 100 (omega arith) (omega arith)

prev_power_of_two-IsRoundDown_example : (k : ℕ) × IsRoundDown 100 k
prev_power_of_two-IsRoundDown_example =
    prev_power_of_two-IsRoundDown 100 (omega arith) (omega arith)

get_order_lem_example : get_order 100 ≡ 6
get_order_lem_example = get_order_lem 6 100 (omega arith) (omega arith) (omega arith)

block_size_example : (k : ℕ) × IsBlockSize 100 k
block_size_example = block_size 100 (omega arith) (omega arith)

adjust_wraps_example : adjust_size (2 ^ 63 + 1) ≡ 8
adjust_wraps_example = adjust_wraps (2 ^ 63 + 1) (omega arith) (inr (omega arith))

buddy_alloc_lem_example :
    Served one one_block 7 (2 ^ 7) (buddy_alloc 100 one)
    ⊎ Refused one one_block 7 (buddy_alloc 100 one)
buddy_alloc_lem_example = buddy_alloc_lem one-IsHeap hundred

buddy_dealloc_lem_example : Freed one one_block 6144 11 (buddy_dealloc 9 6144 2048 one)
buddy_dealloc_lem_example =
    buddy_dealloc_lem 9 one-IsHeap two_kib upper-IsOwned one-length upper-HasGaps

add_to_buddy_lem_example : Added empty no_blocks 4096 12288 (add_to_buddy 4096 12288 empty)
add_to_buddy_lem_example =
    add_to_buddy_lem 4096 12288 empty-IsHeap pages (λ x lo hi. cover-no_blocks x) (omega arith)

init_buddy_lem_example :
    (h' : Heap) × (init_buddy one ≡ some (tt, h')) × IsHeap h' no_blocks × (h'.buddy.total ≡ 0)
init_buddy_lem_example = init_buddy_lem one
