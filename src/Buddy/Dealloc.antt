-- ===== src/Buddy/Dealloc.antt =====
-- `buddy_dealloc` gives a block's bytes back.
use lilac_os.Base.{
  refl, ℕ, ◌+◌, ◌-◌, ◌^◌, ◌≤◌, ◌<◌, ◌≡◌, ◌∙◌, ◌⊎◌, inl, inr, sym, ap, subst, bit_xor, true, false,
  Option, some, ◌∷◌, arith, length, eq-cases, eq→==, ne→==, Bool-cases,
}
use lilac_os.Word.{sub64}
use lilac_os.Buddy.{Heap, max_order, merge, sub_allocated, buddy_dealloc, ◌>>=◌, ◌>>◌}
use lilac_os.Buddy.Sizes.{IsBlockSize}
use lilac_os.Buddy.Cover.{inside, Blocks, put, cover, put_self, put_ne}
use lilac_os.Buddy.Lists.{IsHeap, IsOwned, pushed, push_lem, cover-push, IsHeap-push}
use lilac_os.Buddy.Unlink.{contains, Chain-contains}
use lilac_os.Buddy.Pair.{buddy_twice}
use lilac_os.Buddy.Merge.{Joined, Merged, HasGaps, merge_lem}

-- No block of a list has its buddy in that list.
abbrev pub NoBuddies : Blocks → Type 0
NoBuddies bs =
    (j b : ℕ)
    → j < max_order
    → contains b (bs j) ≡ true
    → contains (bit_xor b (2 ^ j)) (bs j) ≡ false

-- The block of `order` at `low` is listed, with the bytes of `block`, and its buddy is not. Each
-- other block that is listed was so before.
pub record Joins (bs blocks : Blocks) (block k : ℕ) : Type 0 where
  pub low : ℕ
  pub order : ℕ
  pub up : k ≤ order
  pub below : order < max_order
  pub listed : contains low (blocks order) ≡ true
  pub alone : contains (bit_xor low (2 ^ order)) (blocks order) ≡ false
  pub within : (x : ℕ) → inside block k x ≤ inside low order x
  pub only :
      (j b : ℕ)
      → contains b (blocks j) ≡ true
      → ((j ≡ order) × (b ≡ low)) ⊎ (contains b (bs j) ≡ true)

Joins-Joined :
    {bs blocks : Blocks} {block k : ℕ}
    → Joined (put bs k (block ∷ bs k)) blocks k block (bs k)
    → Joins bs blocks block k
Joins-Joined {bs} {blocks} {block} {k} d = record {
  low = d.low;
  order = d.order;
  up = d.up;
  below = d.below;
  listed = d.listed;
  alone = d.alone;
  within = d.within;
  only = λ j b m. elim (d.only j b m) [
    | inl top ↦ inl top
    | inr c ↦ inr (elim (eq-cases k j) [
      | inl e ↦ subst (λ l. contains b l ≡ true) (ap bs e) (rw (eq→== k j e) at c)
      | inr ne ↦ rw (ne→== k j ne) at c
    ])
  ];
}

-- Joining a block with its buddies leaves no two buddies listed, if there were none.
NoBuddies-Joins :
    {h : Heap} {bs blocks : Blocks} {block k : ℕ}
    → IsHeap h blocks
    → Joins bs blocks block k
    → NoBuddies bs
    → NoBuddies blocks
NoBuddies-Joins {h} {bs} {blocks} v d none j b le m =
    elim (Bool-cases (contains (bit_xor b (2 ^ j)) (blocks j))) [
      | inr missing ↦ missing
      | inl both ↦ elim (d.only j b m) [
        | inl (e, f) ↦
            let alone : contains (bit_xor b (2 ^ j)) (blocks j) ≡ false =
              subst (λ c. contains (bit_xor c (2 ^ j)) (blocks j) ≡ false) (sym f)
                (subst (λ i. contains (bit_xor d.low (2 ^ i)) (blocks i) ≡ false) (sym e)
                  d.alone) in
            alone
        | inr old ↦ elim (d.only j (bit_xor b (2 ^ j)) both) [
          | inl (e, f) ↦
              let aligned =
                (Chain-contains h.memory j b (h.buddy.free_list j) (blocks j) m
                  (v.chains j le)).1 in
              let back : bit_xor d.low (2 ^ j) ≡ b =
                ap (λ c. bit_xor c (2 ^ j)) (sym f) ∙ buddy_twice b j aligned in
              let alone : contains b (blocks j) ≡ false =
                subst (λ c. contains c (blocks j) ≡ false) back
                  (subst (λ i. contains (bit_xor d.low (2 ^ i)) (blocks i) ≡ false) (sym e)
                    d.alone) in
              cc
          | inr old' ↦ let no = none j b le old in cc
        ]
      ]
    ]

-- A block freed: exactly its bytes are free again, the lists are well formed, and its size is
-- counted off.
pub record Freed (h : Heap) (bs : Blocks) (block order : ℕ) (result : Option (Unit {0} × Heap))
    : Type 0 where
  pub heap : Heap
  pub blocks : Blocks
  pub returns : result ≡ some (tt, heap)
  pub valid : IsHeap heap blocks
  pub moved : (x : ℕ) → cover blocks x ≡ cover bs x + inside block order x
  pub joins : Joins bs blocks block order
  pub no_buddies : NoBuddies bs → NoBuddies blocks
  pub total : heap.buddy.total ≡ h.buddy.total
  pub allocated : heap.buddy.allocated ≡ sub64 h.buddy.allocated (2 ^ order)

-- On a well-formed heap, freeing an aligned block none of whose bytes is free, with fuel above
-- the list lengths, takes no fault, makes exactly the block's bytes free, keeps the lists well
-- formed, and takes 2^k off allocated, provided that no aligned 2^30 bytes become free as a
-- whole. The block is joined with its buddies: a block that holds its bytes is listed whose
-- own buddy is not, any other block listed was listed before, and if no list held two buddies,
-- none does.
pub buddy_dealloc_lem :
    (fuel : ℕ) {h : Heap} {bs : Blocks} {block size k : ℕ}
    → IsHeap h bs
    → IsBlockSize size k
    → IsOwned bs block k
    → ((j : ℕ) → j < max_order → length (bs j) < fuel)
    → HasGaps (λ x. cover bs x + inside block k x)
    → Freed h bs block k (buddy_dealloc fuel block size h)
unfolding buddy_dealloc sub_allocated
buddy_dealloc_lem fuel {h} {bs} {block} {size} {k} v z o enough gaps =
    rw (z.order, push_lem block k h o.pos o.bound, ◌>>◌, ◌>>=◌, z.order, merged.returns, z.returns)
      (record {
        heap = record (merged.heap) {
          buddy = record (merged.heap.buddy) {
            allocated = sub64 merged.heap.buddy.allocated (2 ^ k);
          };
        };
        blocks = merged.blocks;
        returns = refl;
        valid = record {
          chains = merged.valid.chains;
          cells = merged.valid.cells;
          once = merged.valid.once;
        };
        moved = λ x. merged.same x ∙ cover-push bs k block x o.bound;
        joins = Joins-Joined merged.joined;
        no_buddies = NoBuddies-Joins merged.valid (Joins-Joined merged.joined);
        total = merged.total;
        allocated = ap (λ n. sub64 n (2 ^ k)) merged.allocated;
      })
  where
    merged :
        Merged
          (pushed block k h)
          (put bs k (block ∷ bs k))
          k
          block
          (bs k)
          (merge fuel (max_order - k) block k (pushed block k h))
    merged =
        merge_lem fuel (max_order - k) k block (bs k) (omega (arith, o.bound)) o.bound
          (IsHeap-push v o) (put_self bs k (block ∷ bs k)) (enough k o.bound)
          (λ j p q. rw (put_ne bs k j (block ∷ bs k) (omega arith)) (enough j q))
          (λ b m. let (x, w, g) = gaps b m in (x, w, cover-push bs k block x o.bound ∙ g))
