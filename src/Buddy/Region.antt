-- ===== src/Buddy/Region.antt =====
-- `init_buddy` and `add_to_buddy`.
use lilac_os.Base.{
  ℕ, zero, suc, ◌+◌, ◌-◌, ◌^◌, ◌≤◌, ◌<◌, ◌&&◌, ◌≡◌, refl, ◌∙◌, ap, Option, some, ◌∷◌, arith, inl,
  inr, ltb, leb, if◌then◌else◌, lt-cases, lt→ltb, le→ltb,
}
use lilac_os.Word.{add64}
use lilac_os.Word.Pow.{two-pow-pos}
use lilac_os.Buddy.{
  Heap, get_order, region_block, init_buddy, add_loop, add_to_buddy, add_total, ◌>>=◌, ◌>>◌,
}
use lilac_os.Buddy.Sizes.{get_order_pow}
use lilac_os.Buddy.Cover.{Blocks, put, cover, no_blocks, cover-no_blocks}
use lilac_os.Buddy.Lists.{IsHeap, IsOwned, pushed, push_lem, cover-push, IsHeap-push}
use lilac_os.Buddy.Cut.{IsRegion, IsCut, region-IsCut}

-- 1 if `x` lies in the region from `start` to `end`, else 0
abbrev pub between : ℕ → ℕ → ℕ → ℕ
between start end x = if leb start x && ltb x end then 1 else 0

-- The region's bytes are free, exactly, and counted.
pub record Added (h : Heap) (bs : Blocks) (start end : ℕ) (result : Option (Unit {0} × Heap))
    : Type 0 where
  pub heap : Heap
  pub blocks : Blocks
  pub returns : result ≡ some (tt, heap)
  pub valid : IsHeap heap blocks
  pub moved : (x : ℕ) → cover blocks x ≡ cover bs x + between start end x
  pub total : heap.buddy.total ≡ add64 h.buddy.total (end - start)
  pub allocated : heap.buddy.allocated ≡ h.buddy.allocated

abbrev counted : ℕ → Heap → Heap
counted n h = record h { buddy = record (h.buddy) { total = add64 h.buddy.total n } }

module _ {h : Heap} {bs : Blocks} {current end k : ℕ} (v : IsHeap h bs) (g : IsRegion current end)
    (c : IsCut current end k) (clear : (x : ℕ) → current ≤ x → x < end → cover bs x ≡ 0) where
  abbrev after : Heap
  after = counted (2 ^ k) (pushed current k h)

  abbrev more : Blocks
  more = put bs k (current ∷ bs k)

  cut-IsOwned : IsOwned bs current k
  cut-IsOwned = record {
    bound = c.bound;
    cell = c.cell;
    pos = g.pos;
    aligned = c.aligned;
    fits = omega (arith, c.fits, g.bound);
    clear = λ x lo hi. clear x lo (omega (arith, c.fits));
  }

  IsHeap-after : IsHeap after more
  IsHeap-after =
      let p : IsHeap (pushed current k h) more = IsHeap-push v cut-IsOwned in
      record { chains = p.chains; cells = p.cells; once = p.once }

  IsRegion-rest : IsRegion (current + 2 ^ k) end
  IsRegion-rest = record {
    pos = omega (arith, g.pos);
    le = c.fits;
    bound = g.bound;
    short = omega (arith, g.short);
    start_aligned = c.rest_aligned;
    end_aligned = g.end_aligned;
  }

  clear_rest : (x : ℕ) → current + 2 ^ k ≤ x → x < end → cover more x ≡ 0
  clear_rest x lo hi = ground (arith, cover-push bs k current x c.bound, clear x (omega arith) hi)

  order_cut : get_order (region_block current end) ≡ k
  order_cut = ap get_order c.returns ∙ get_order_pow k (omega (arith, c.bound))

  add_loop_round :
      (fuel : ℕ)
      → current < end
      → add_loop (suc fuel) current end h ≡ add_loop fuel (current + 2 ^ k) end after
  unfolding add_loop add_total
  add_loop_round fuel lt =
      let wrap : add64 current (2 ^ k) ≡ current + 2 ^ k = omega (arith, c.fits, g.bound) in
      rw (
        lt→ltb current end lt,
        if◌then◌else◌,
        ◌>>◌,
        ◌>>=◌,
        order_cut,
        push_lem current k h g.pos c.bound,
        ◌>>◌,
        ◌>>=◌,
        c.returns,
        wrap,
      )

  Added-round :
      (fuel : ℕ)
      → current < end
      → Added after more (current + 2 ^ k) end (add_loop fuel (current + 2 ^ k) end after)
      → Added h bs current end (add_loop (suc fuel) current end h)
  Added-round fuel lt later = record {
    heap = later.heap;
    blocks = later.blocks;
    returns = add_loop_round fuel lt ∙ later.returns;
    valid = later.valid;
    moved = λ x. ground (arith, later.moved x, cover-push bs k current x c.bound, c.fits);
    total = omega (arith, later.total, c.fits);
    allocated = later.allocated;
  }

add_loop_lem :
    (fuel current end : ℕ) {h : Heap} {bs : Blocks}
    → end - current < fuel
    → IsHeap h bs
    → IsRegion current end
    → ((x : ℕ) → current ≤ x → x < end → cover bs x ≡ 0)
    → h.buddy.total < 2 ^ 64
    → Added h bs current end (add_loop fuel current end h)
add_loop_lem zero current end enough v g clear word = absurd (omega arith)
add_loop_lem (suc fuel) current end {h} {bs} enough v g clear word = elim (lt-cases current end) [
  | inl lt ↦
      let (k, c) = region-IsCut current end g lt in
      Added-round v g c clear fuel lt (
        add_loop_lem fuel (current + 2 ^ k) end (omega (arith, two-pow-pos k))
          (IsHeap-after v g c clear) (IsRegion-rest v g c clear) (clear_rest v g c clear)
          (omega arith))
  | inr done ↦ record {
    heap = h;
    blocks = bs;
    returns = unfold add_loop in (rw (le→ltb current end done, if◌then◌else◌));
    valid = v;
    moved = λ x. ground arith;
    total = omega arith;
    allocated = refl;
  }
]

-- A region of less than 2^30 bytes between multiples of eight, none of whose bytes is free,
-- becomes free to the last byte: the loop ends, no list entry is out of range, the lists are
-- well formed, and total grows by the region's size.
pub add_to_buddy_lem :
    (start end : ℕ) {h : Heap} {bs : Blocks}
    → IsHeap h bs
    → IsRegion start end
    → ((x : ℕ) → start ≤ x → x < end → cover bs x ≡ 0)
    → h.buddy.total < 2 ^ 64
    → Added h bs start end (add_to_buddy start end h)
unfolding add_to_buddy
add_to_buddy_lem start end v g clear word =
    add_loop_lem (end - start + 1) start end (omega arith) v g clear word

-- init_buddy leaves a well-formed allocator with no free block and a total of zero, whatever
-- the heap held before.
pub init_buddy_lem :
    (h : Heap)
    → (h' : Heap) × (init_buddy h ≡ some (tt, h')) × IsHeap h' no_blocks × (h'.buddy.total ≡ 0)
unfolding init_buddy
init_buddy_lem h = (
  record h { buddy = record { free_list = λ _. 0; total = 0; allocated = 0 } },
  refl,
  record {
    chains = λ i g. refl;
    cells = λ i g. refl;
    once = λ x. omega (arith, cover-no_blocks x);
  },
  refl,
)
