-- ===== src/Buddy/Merge.antt =====
-- The loop of `buddy_dealloc` that joins a block with its buddy as long as that is free.
use lilac_os.Base.{
  ℕ, zero, suc, ◌+◌, ◌%◌, ◌^◌, ◌≤◌, ◌<◌, min, bit_xor, ◌≡◌, refl, sym, ◌∙◌, subst, Option, some,
  List, ◌∷◌, arith, inl, inr, true, false, length, Bool-cases, lt-cases, eq-cases, ap, ◌⊎◌, ◌≢◌,
  eq→==, ne→==,
}
use lilac_os.Word.Pow.{two-pow-pos}
use lilac_os.Buddy.{Heap, max_order, find_buddy, merge}
use lilac_os.Buddy.Cover.{inside, Blocks, put, cover, put_self, put_ne}
use lilac_os.Buddy.Lists.{IsHeap, pushed, head-block, cover-push, IsHeap-push}
use lilac_os.Buddy.Unlink.{contains, remove, contains-remove, contains-cases, Unlinked}
use lilac_os.Buddy.Pair.{IsBuddy, buddy_lem, inside-low}
use lilac_os.Buddy.Round.{
  find_buddy_some, run_stop, remaining, emptied, parted, parted-IsHeap, cover-emptied, low-IsOwned,
  run,
}

-- The block of `order` at `low` is listed, with the bytes of `block`, and its buddy is not. Each
-- other block that is listed was so before, when `l` stood behind `block` in list `i`.
pub record Joined (bs blocks : Blocks) (i block : ℕ) (l : List ℕ) : Type 0 where
  pub low : ℕ
  pub order : ℕ
  pub up : i ≤ order
  pub below : order < max_order
  pub listed : contains low (blocks order) ≡ true
  pub alone : contains (bit_xor low (2 ^ order)) (blocks order) ≡ false
  pub within : (x : ℕ) → inside block i x ≤ inside low order x
  pub only :
      (j b : ℕ)
      → contains b (blocks j) ≡ true
      → ((j ≡ order) × (b ≡ low)) ⊎ (contains b (put bs i l j) ≡ true)

-- The same bytes are free as before, and the lists are well formed.
pub record Merged (h : Heap) (bs : Blocks) (i block : ℕ) (l : List ℕ)
    (result : Option (Unit {0} × Heap)) : Type 0 where
  pub heap : Heap
  pub blocks : Blocks
  pub returns : result ≡ some (tt, heap)
  pub valid : IsHeap heap blocks
  pub same : (x : ℕ) → cover blocks x ≡ cover bs x
  pub joined : Joined bs blocks i block l
  pub total : heap.buddy.total ≡ h.buddy.total
  pub allocated : heap.buddy.allocated ≡ h.buddy.allocated

-- No aligned block of order `max_order` is free as a whole: there is no list for it.
abbrev pub HasGaps : (ℕ → ℕ) → Type 0
HasGaps free = (b : ℕ) → b % 2 ^ max_order ≡ 0 → (x : ℕ) × (inside b max_order x ≡ 1) × (free x ≡ 0)

abbrev pub Shorter : ℕ → Blocks → ℕ → Type 0
Shorter fuel bs i = (j : ℕ) → i < j → j < max_order → length (bs j) < fuel

module _ {h : Heap} {bs : Blocks} (v : IsHeap h bs) {i block : ℕ} {l : List ℕ} (le : i < max_order)
    (first : bs i ≡ block ∷ l) (gaps : HasGaps (cover bs)) (fuel : ℕ)
    (found : contains (bit_xor block (2 ^ i)) l ≡ true)
    (u : Unlinked h i block
      (bit_xor block (2 ^ i))
      l
      (find_buddy fuel (bit_xor block (2 ^ i)) i h)) where
  abbrev low : ℕ
  low = min block (bit_xor block (2 ^ i))

  pair : IsBuddy block (bit_xor block (2 ^ i)) low i
  pair = buddy_lem block i (head-block v i le block l first).2

  free_low : (x : ℕ) → inside low (suc i) x ≤ cover bs x
  free_low x = omega (arith, inside-low x pair, cover-emptied v le first found u x)

  below : suc i < max_order
  below = elim (lt-cases (suc i) max_order) [
    | inl p ↦ p
    | inr p ↦
        let same : suc i ≡ max_order = omega arith in
        let (x, within, gap) = gaps low (subst (λ k. low % 2 ^ k ≡ 0) same pair.aligned) in
        absurd (omega (arith, free_low x, subst (λ k. inside low k x ≡ 1) (sym same) within))
  ]

  abbrev joined : Blocks
  joined = put (emptied v le first found u) (suc i) (low ∷ emptied v le first found u (suc i))

  joined_same : (x : ℕ) → cover joined x ≡ cover bs x
  joined_same x = omega (
    arith,
    cover-push (emptied v le first found u) (suc i) low x below,
    inside-low x pair,
    cover-emptied v le first found u x,
  )

  IsHeap-joined : IsHeap (pushed low (suc i) (parted v le first found u)) joined
  IsHeap-joined =
      IsHeap-push (parted-IsHeap v le first found u) (low-IsOwned v le first found u pair below)

  joined_above : (j : ℕ) → suc i < j → joined j ≡ bs j
  joined_above j p =
      put_ne (emptied v le first found u) (suc i) j (low ∷ emptied v le first found u (suc i))
        (omega arith)
      ∙ (put_ne (remaining v le first found u) i j (remove (bit_xor block (2 ^ i)) l) (omega arith)
          ∙ put_ne bs i j (block ∷ remove (bit_xor block (2 ^ i)) l) (omega arith))

  emptied_next : emptied v le first found u (suc i) ≡ bs (suc i)
  emptied_next =
      put_ne (remaining v le first found u) i (suc i) (remove (bit_xor block (2 ^ i)) l)
        (omega arith)
      ∙ put_ne bs i (suc i) (block ∷ remove (bit_xor block (2 ^ i)) l) (omega arith)

  -- What is left behind the joined block was listed behind `block`.
  was_listed :
      (j b : ℕ)
      → contains b (put joined (suc i) (emptied v le first found u (suc i)) j) ≡ true
      → contains b (put bs i l j) ≡ true
  was_listed j b m = elim (eq-cases i j) [
    | inl e ↦ rw (eq→== i j e) (
        contains-remove b (bit_xor block (2 ^ i)) l
          (rw (ne→== (suc i) j (λ f. omega (arith, e, f)), eq→== i j e) at m))
    | inr ne ↦ rw (ne→== i j ne) (elim (eq-cases (suc i) j) [
      | inl f ↦
          subst (λ k. contains b k ≡ true) (emptied_next ∙ ap bs f) (rw (eq→== (suc i) j f) at m)
      | inr g ↦ rw (ne→== (suc i) j g, ne→== i j ne) at m
    ])
  ]

  Merged-joined :
      (rounds : ℕ)
      → Merged
          (pushed low (suc i) (parted v le first found u))
          joined
          (suc i)
          low
          (emptied v le first found u (suc i))
          (merge fuel rounds low (suc i) (pushed low (suc i) (parted v le first found u)))
      → Merged h bs i block l (merge fuel (suc rounds) block i h)
  Merged-joined rounds later = record {
    heap = later.heap;
    blocks = later.blocks;
    returns = run v le first found u pair below fuel rounds refl refl refl ∙ later.returns;
    valid = later.valid;
    same = λ x. later.same x ∙ joined_same x;
    joined = record {
      low = later.joined.low;
      order = later.joined.order;
      up = omega (arith, later.joined.up);
      below = later.joined.below;
      listed = later.joined.listed;
      alone = later.joined.alone;
      within = λ x. omega (arith, later.joined.within x, inside-low x pair);
      only = λ j b m. elim (later.joined.only j b m) [
        | inl top ↦ inl top
        | inr c ↦ inr (was_listed j b c)
      ];
    };
    total = later.total;
    allocated = later.allocated;
  }

-- The buddy is not listed.
Joined-stop :
    {h : Heap} {bs : Blocks} (v : IsHeap h bs) {i block : ℕ} {l : List ℕ} (le : i < max_order)
    (first : bs i ≡ block ∷ l)
    → contains (bit_xor block (2 ^ i)) l ≡ false
    → Joined bs bs i block l
Joined-stop {h} {bs} v {i} {block} {l} le first missing =
    let pair = buddy_lem block i (head-block v i le block l first).2 in
    let ne : block ≢ bit_xor block (2 ^ i) = λ e. ground (arith, pair.halves, e, two-pow-pos i) in
    record {
      low = block;
      order = i;
      up = omega arith;
      below = le;
      listed = rw (first, eq→== block block refl);
      alone = rw (first, ne→== block (bit_xor block (2 ^ i)) ne) missing;
      within = λ x. omega arith;
      only = λ j b m. elim (eq-cases i j) [
        | inl e ↦
            elim (contains-cases b block l
              (subst (λ k. contains b k ≡ true) (ap bs (sym e) ∙ first) m)) [
                | inl f ↦ inl (sym e, f)
                | inr c ↦ inr (rw (eq→== i j e) c)
              ]
        | inr other ↦ inr (rw (ne→== i j other) m)
      ];
    }

-- With a list entry of `block` just put on list `i`, the loop returns, and moves no byte in or out.
pub merge_lem :
    (fuel rounds i block : ℕ) {h : Heap} {bs : Blocks} (l : List ℕ)
    → i + rounds ≡ max_order
    → i < max_order
    → IsHeap h bs
    → bs i ≡ block ∷ l
    → length l < fuel
    → Shorter fuel bs i
    → HasGaps (cover bs)
    → Merged h bs i block l (merge fuel rounds block i h)
merge_lem fuel zero i block l e le v first enough shorter gaps = absurd (omega (arith, e, le))
merge_lem fuel (suc rounds) i block {h} {bs} l e le v first enough shorter gaps =
    elim (Bool-cases (contains (bit_xor block (2 ^ i)) l)) [
      | inr missing ↦ record {
        heap = h;
        blocks = bs;
        returns = run_stop v (omega arith) first fuel rounds enough missing;
        valid = v;
        same = λ x. refl;
        joined = Joined-stop v le first missing;
        total = refl;
        allocated = refl;
      }
      | inl found ↦
          let u = find_buddy_some v le first (bit_xor block (2 ^ i)) fuel enough found in
          let up : suc i < max_order = below v le first gaps fuel found u in
          Merged-joined v le first gaps fuel found u rounds (
            merge_lem fuel rounds (suc i) (low v le first gaps fuel found u)
              (emptied v le first found u (suc i)) (omega arith) up
              (IsHeap-joined v le first gaps fuel found u)
              (put_self (emptied v le first found u) (suc i)
                (low v le first gaps fuel found u ∷ emptied v le first found u (suc i)))
              (rw (emptied_next v le first gaps fuel found u) (shorter (suc i) (omega arith) up))
              (λ j p q.
                rw (joined_above v le first gaps fuel found u j p) (shorter j (omega arith) q))
              (λ b m.
                let (x, w, g) = gaps b m in (x, w, joined_same v le first gaps fuel found u x ∙ g)))
    ]
