-- ===== src/Frames/Start.antt =====
-- The allocator when the kernel starts.
use lilac_os.Base.{ℕ, ◌-◌, ◌%◌, ◌≤◌, ◌≡◌, refl, Option, some, arith}
use lilac_os.Buddy.{Heap, ◌>>=◌, ◌>>◌}
use lilac_os.Buddy.Cover.{Blocks, cover, cover-no_blocks}
use lilac_os.Buddy.Lists.{IsHeap}
use lilac_os.Buddy.Region.{between, init_buddy_lem, add_to_buddy_lem}
use lilac_os.Frames.{va, memory_end, init_allocator}

-- The free bytes are those from the kernel's end to the end of memory.
pub record Started (ekernel : ℕ) (result : Option (Unit {0} × Heap)) : Type 0 where
  pub heap : Heap
  pub blocks : Blocks
  pub returns : result ≡ some (tt, heap)
  pub valid : IsHeap heap blocks
  pub free : (x : ℕ) → cover blocks x ≡ between ekernel (va memory_end) x
  pub total : heap.buddy.total ≡ va memory_end - ekernel

-- For an end of the kernel's image that is a multiple of 8 between the address where the
-- kernel is loaded and the end of memory, init_allocator leaves a well-formed heap whatever
-- the memory held before: exactly the bytes from there to the end of memory are free, and
-- total is their number.
pub init_allocator_lem :
    (ekernel : ℕ) (h : Heap)
    → va 0x80200000 ≤ ekernel
    → ekernel ≤ va memory_end
    → ekernel % 8 ≡ 0
    → Started ekernel (init_allocator ekernel h)
unfolding init_allocator
init_allocator_lem ekernel h low high aligned =
    let (start, returns, valid, none) = init_buddy_lem h in
    let added =
      add_to_buddy_lem ekernel (va memory_end) valid
        (record {
          pos = omega (arith, low);
          le = high;
          bound = omega arith;
          short = omega (arith, low);
          start_aligned = aligned;
          end_aligned = refl;
        })
        (λ x p q. cover-no_blocks x) (omega (arith, none)) in
    record {
      heap = added.heap;
      blocks = added.blocks;
      returns = rw (init_allocator, ◌>>◌, ◌>>=◌, returns) added.returns;
      valid = added.valid;
      free = λ x. omega (arith, added.moved x, cover-no_blocks x);
      total = omega (arith, added.total, none, low);
    }
