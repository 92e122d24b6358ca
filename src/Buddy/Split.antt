-- ===== src/Buddy/Split.antt =====
-- The loop of `buddy_alloc` that halves a block down to the wanted order.
use native.Mathlib.Nat.{add-mod_right, div-add-mod', mul-mod_left}
use lilac_os.Base.{
  ℕ, zero, suc, ◌+◌, ◌-◌, ◌*◌, ◌/◌, ◌%◌, ◌^◌, ◌≤◌, ◌<◌, ◌≡◌, refl, ap, ◌∙◌, ◌⊎◌, subst, Option,
  some, List, ◌∷◌, arith,
}
use lilac_os.Word.{add64}
use lilac_os.Word.Pow.{two-pow-suc, two-pow-pos, two-pow-le}
use lilac_os.Memory.{store64-outside}
use lilac_os.Buddy.{Heap, max_order, split, ◌>>=◌, ◌>>◌}
use lilac_os.Buddy.Cover.{Blocks, put, cover, put_self, inside-halves}
use lilac_os.Buddy.Lists.{
  Chain, IsHeap, IsOwned, pushed, popped, push_lem, pop_lem, head-block, cover-pop, cover-push,
  IsHeap-pop, IsHeap-push,
}

-- The first block of list `order` is `b`, and the same bytes are free as before.
pub record Halved (h : Heap) (bs : Blocks) (order b : ℕ) (result : Option (Unit {0} × Heap))
    : Type 0 where
  pub heap : Heap
  pub blocks : Blocks
  pub rest : List ℕ
  pub returns : result ≡ some (tt, heap)
  pub valid : IsHeap heap blocks
  pub first : blocks order ≡ b ∷ rest
  pub same : (x : ℕ) → cover blocks x ≡ cover bs x
  pub kept : (q : ℕ) → cover bs q ≡ 0 → heap.memory q ≡ h.memory q
  pub total : heap.buddy.total ≡ h.buddy.total
  pub allocated : heap.buddy.allocated ≡ h.buddy.allocated

multiple_half : (b j : ℕ) → b % 2 ^ suc j ≡ 0 → (b % 2 ^ j ≡ 0) × ((b + 2 ^ j) % 2 ^ j ≡ 0)
multiple_half b j h = (even, add-mod_right b (2 ^ j) ∙ even)
  where
    twice : b ≡ 2 * (b / 2 ^ suc j) * 2 ^ j
    twice =
        omega (arith, div-add-mod' b (2 ^ suc j), ap (λ (t : ℕ). b / 2 ^ suc j * t) (two-pow-suc j))

    even : b % 2 ^ j ≡ 0
    even = ap (λ (t : ℕ). t % 2 ^ j) twice ∙ mul-mod_left (2 * (b / 2 ^ suc j)) (2 ^ j)

module _ {h : Heap} {bs : Blocks} (v : IsHeap h bs) (j : ℕ) (le : suc j < max_order) (cell : 3 ≤ j)
    (b : ℕ) (rest : List ℕ) (e : bs (suc j) ≡ b ∷ rest) where
  abbrev without : Blocks
  without = put bs (suc j) rest

  abbrev upper : Blocks
  upper = put without j ((b + 2 ^ j) ∷ without j)

  abbrev halves : Blocks
  halves = put upper j (b ∷ upper j)

  abbrev halved : Heap
  halved = pushed b j (pushed (b + 2 ^ j) j (popped b (suc j) h))

  block : Chain h.memory (suc j) (h.buddy.free_list (suc j)) (b ∷ rest)
  block = head-block v (suc j) le b rest e

  IsOwned-upper : IsOwned without (b + 2 ^ j) j
  IsOwned-upper = record {
    bound = omega arith;
    cell = cell;
    pos = omega (arith, block.1);
    aligned = (multiple_half b j block.2).1;
    fits = omega (arith, block.3, two-pow-suc j);
    clear =
        λ x lo hi. ground (arith, cover-pop v (suc j) le b x rest e, v.once x, inside-halves b j x);
  }

  IsOwned-lower : IsOwned upper b j
  IsOwned-lower = record {
    bound = omega arith;
    cell = cell;
    pos = block.1;
    aligned = (multiple_half b j block.2).0;
    fits = omega (arith, block.3, two-pow-suc j);
    clear = λ x lo hi. ground (
      arith,
      cover-push without j (b + 2 ^ j) x,
      cover-pop v (suc j) le b x rest e,
      v.once x,
      inside-halves b j x,
    );
  }

  IsHeap-halved : IsHeap halved halves
  IsHeap-halved =
      IsHeap-push (IsHeap-push (IsHeap-pop v (suc j) le b rest e) IsOwned-upper) IsOwned-lower

  cover-halves : (x : ℕ) → cover halves x ≡ cover bs x
  cover-halves x = omega (
    arith,
    cover-push upper j b x (omega arith),
    cover-push without j (b + 2 ^ j) x (omega arith),
    cover-pop v (suc j) le b x rest e,
    inside-halves b j x,
  )

  -- The cells that are written stand in free bytes.
  kept-halves : (q : ℕ) → cover bs q ≡ 0 → halved.memory q ≡ h.memory q
  kept-halves q none_free =
      let pop_cover = cover-pop v (suc j) le b q rest e in
      let away : (q < b) ⊎ (b + 2 ^ suc j ≤ q) = ground (arith, pop_cover, none_free) in
      let twice = two-pow-suc j in
      let cells = two-pow-le {a = 3} {b = j} cell in
      let first = popped b (suc j) h in
      let second = pushed (b + 2 ^ j) j first in
      store64-outside second.memory b (second.buddy.free_list j) q
        (ground (arith, away, twice, cells))
      ∙ store64-outside first.memory (b + 2 ^ j) (first.buddy.free_list j) q
          (ground (arith, away, twice, cells))

  run-halves : (d : ℕ) → split (suc d) (suc j) h ≡ split d j halved
  unfolding split
  run-halves d =
      let back : suc j - 1 ≡ j = omega arith in
      let wrap : add64 b (2 ^ j) ≡ b + 2 ^ j =
        omega (arith, block.3, two-pow-suc j, two-pow-pos j) in
      rw (
        pop_lem v (suc j) le b rest e,
        ◌>>=◌,
        ◌>>◌,
        back,
        wrap,
        push_lem (b + 2 ^ j) j (popped b (suc j) h) (omega (arith, block.1)) (omega arith),
        ◌>>◌,
        ◌>>=◌,
        back,
        push_lem b j (pushed (b + 2 ^ j) j (popped b (suc j) h)) block.1 (omega arith),
        back,
      )

  Halved-halves :
      (d order : ℕ)
      → Halved halved halves order b (split d j halved)
      → Halved h bs order b (split (suc d) (suc j) h)
  Halved-halves d order later = record {
    heap = later.heap;
    blocks = later.blocks;
    rest = later.rest;
    returns = run-halves d ∙ later.returns;
    valid = later.valid;
    first = later.first;
    same = λ x. later.same x ∙ cover-halves x;
    kept = λ q z. later.kept q (cover-halves q ∙ z) ∙ kept-halves q z;
    total = later.total;
    allocated = later.allocated;
  }

-- Splitting down from list `i` to `order` takes no fault and moves no byte in or out.
pub split-Halved :
    (d i order : ℕ) {h : Heap} {bs : Blocks} (b : ℕ) (rest : List ℕ)
    → order + d ≡ i
    → i < max_order
    → 3 ≤ order
    → IsHeap h bs
    → bs i ≡ b ∷ rest
    → Halved h bs order b (split d i h)
unfolding split
split-Halved zero i order {h} {bs} b rest e le cell v first = record {
  heap = h;
  blocks = bs;
  rest = rest;
  returns = refl;
  valid = v;
  first = subst (λ k. bs k ≡ b ∷ rest) {x = i} {y = order} (omega arith) first;
  same = λ x. refl;
  kept = λ q z. refl;
  total = refl;
  allocated = refl;
}
split-Halved (suc d) zero order b rest e le cell v first = absurd (omega arith)
split-Halved (suc d) (suc j) order b rest e le cell v first =
    let half : 3 ≤ j = omega arith in
    Halved-halves v j le half b rest first d order (
      split-Halved d j order b (upper v j le half b rest first j) (omega arith) (omega arith) cell
        (IsHeap-halved v j le half b rest first)
        (put_self (upper v j le half b rest first) j (b ∷ upper v j le half b rest first j)))
