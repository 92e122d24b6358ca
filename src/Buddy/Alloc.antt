-- ===== src/Buddy/Alloc.antt =====
-- `buddy_alloc`: the nearest list that is not empty serves the request.
use lilac_os.Base.{
  ℕ, zero, suc, ◌+◌, ◌-◌, ◌^◌, ◌≤◌, ◌<◌, ◌≡◌, refl, ap, ◌∙◌, Option, some, List, [], ◌∷◌, arith,
  ◌⊎◌, inl, inr, lt-cases, eq-cases, eq→==, ne→==,
}
use lilac_os.Word.{add64}
use lilac_os.Buddy.{Heap, max_order, pop, split, add_allocated, alloc_loop, buddy_alloc, ◌>>=◌}
use lilac_os.Buddy.Sizes.{IsBlockSize}
use lilac_os.Buddy.Cover.{inside, Blocks, put, cover}
use lilac_os.Buddy.Lists.{
  Chain, IsHeap, IsOwned, popped, get_list_lem, pop_lem, head-block, head_empty, cover-pop,
  IsHeap-pop,
}
use lilac_os.Buddy.Split.{Halved, split-Halved}

abbrev pub NoneFree : Blocks → ℕ → ℕ → Type 0
NoneFree bs lo hi = (j : ℕ) → lo ≤ j → j < hi → bs j ≡ []

-- A request served: the block comes from the nearest list that is not empty, exactly its bytes
-- are no longer free, and its size is counted.
pub record Served (h : Heap) (bs : Blocks) (order size : ℕ) (result : Option (ℕ × Heap))
    : Type 0 where
  pub block : ℕ
  pub heap : Heap
  pub blocks : Blocks
  pub source : ℕ
  pub others : List ℕ
  pub returns : result ≡ some (block, heap)
  pub valid : IsHeap heap blocks
  pub owned : IsOwned blocks block order
  pub moved : (x : ℕ) → cover blocks x + inside block order x ≡ cover bs x
  pub kept : (q : ℕ) → cover bs q ≡ 0 → heap.memory q ≡ h.memory q
  pub from : bs source ≡ block ∷ others
  pub nearest : NoneFree bs order source
  pub total : heap.buddy.total ≡ h.buddy.total
  pub allocated : heap.buddy.allocated ≡ add64 h.buddy.allocated size

-- A request refused: no list can serve it, and nothing changes.
pub record Refused (h : Heap) (bs : Blocks) (order : ℕ) (result : Option (ℕ × Heap)) : Type 0 where
  pub returns : result ≡ some (0, h)
  pub exhausted : NoneFree bs order max_order

abbrev counted : ℕ → Heap → Heap
counted size h = record h { buddy = record (h.buddy) { allocated = add64 h.buddy.allocated size } }

IsHeap-counted : {h : Heap} {bs : Blocks} (size : ℕ) → IsHeap h bs → IsHeap (counted size h) bs
IsHeap-counted size v = record { chains = v.chains; cells = v.cells; once = v.once }

module _ {h : Heap} {bs : Blocks} {order b i size : ℕ} {others : List ℕ}
    {r : Option (Unit {0} × Heap)} (le : order < max_order) (cell : 3 ≤ order)
    (from : bs i ≡ b ∷ others) (nearest : NoneFree bs order i) (half : Halved h bs order b r) where
  Served-half : Served h bs order size (pop order (counted size half.heap))
  Served-half = record {
    block = b;
    heap = popped b order (counted size half.heap);
    blocks = put half.blocks order half.rest;
    source = i;
    others = others;
    returns = pop_lem v order le b half.rest half.first;
    valid = IsHeap-pop v order le b half.rest half.first;
    owned = record {
      bound = le;
      cell = cell;
      pos = chain.1;
      aligned = chain.2;
      fits = chain.3;
      clear = λ x lo hi. ground (arith, pop_cover x, half.valid.once x);
    };
    moved = λ x. pop_cover x ∙ half.same x;
    kept = half.kept;
    from = from;
    nearest = nearest;
    total = half.total;
    allocated = ap (λ (n : ℕ). add64 n size) half.allocated;
  }
    where
      v : IsHeap (counted size half.heap) half.blocks
      v = IsHeap-counted size half.valid

      chain : Chain half.heap.memory order (half.heap.buddy.free_list order) (b ∷ half.rest)
      chain = head-block v order le b half.rest half.first

      pop_cover :
          (x : ℕ)
          → cover (put half.blocks order half.rest) x + inside b order x ≡ cover half.blocks x
      pop_cover x = cover-pop v order le b x half.rest half.first

List-cases : (l : List ℕ) → (l ≡ []) ⊎ ((b : ℕ) × (others : List ℕ) × (l ≡ b ∷ others))
List-cases [] = inl refl
List-cases (b ∷ others) = inr (b, others, refl)

NoneFree-suc : (bs : Blocks) (lo hi : ℕ) → NoneFree bs lo hi → bs hi ≡ [] → NoneFree bs lo (hi + 1)
NoneFree-suc bs lo hi none_free e j p q = elim (eq-cases j hi) [
  | inl same ↦ rw same e
  | inr ne ↦ none_free j p (omega arith)
]

module _ {h : Heap} {bs : Blocks} (v : IsHeap h bs) (order size : ℕ) (cell : 3 ≤ order) where
  alloc_loop-empty :
      (rounds i : ℕ)
      → i < max_order
      → bs i ≡ []
      → alloc_loop (suc rounds) i order size h ≡ alloc_loop rounds (i + 1) order size h
  unfolding alloc_loop
  alloc_loop-empty rounds i le e = rw (get_list_lem i h le, ◌>>=◌, eq→== _ 0 (head_empty v i le e))

  alloc_loop-found :
      (rounds i b : ℕ) (others : List ℕ)
      → order ≤ i
      → i < max_order
      → bs i ≡ b ∷ others
      → NoneFree bs order i
      → Served h bs order size (alloc_loop (suc rounds) i order size h)
  unfolding alloc_loop add_allocated pop
  alloc_loop-found rounds i b others lo le e nearest =
      rw
        (
          get_list_lem i h le,
          ◌>>=◌,
          ne→== (h.buddy.free_list i) 0 (omega (arith, head-block v i le b others e)),
          half.returns,
        )
        (Served-half (omega arith) cell e nearest half)
    where
      half : Halved h bs order b (split (i - order) i h)
      half = split-Halved (i - order) i order b others (omega arith) le cell v e

  alloc_loop_lem :
      (rounds i : ℕ)
      → i + rounds ≡ max_order
      → order ≤ i
      → NoneFree bs order i
      → Served h bs order size (alloc_loop rounds i order size h)
        ⊎ Refused h bs order (alloc_loop rounds i order size h)
  alloc_loop_lem zero i e lo none_free = inr (record {
    returns = unfold alloc_loop in refl;
    exhausted = λ j p q. none_free j p (omega arith);
  })
  alloc_loop_lem (suc rounds) i e lo none_free = elim (List-cases (bs i)) [
    | inl empty ↦ rw (alloc_loop-empty rounds i (omega arith) empty) (
        alloc_loop_lem rounds (i + 1) (omega arith) (omega arith)
          (NoneFree-suc bs order i none_free empty))
    | inr (b, others, first) ↦
        inl (alloc_loop-found rounds i b others lo (omega arith) first none_free)
  ]

-- On a well-formed heap, a size that has an order k is served by the first block of the
-- nearest list from k up that is not empty: exactly the block's 2^k bytes stop being free, no
-- byte that was not free before changes, the lists stay well formed, the block is aligned, and
-- allocated grows by 2^k; or no list from k up holds a block, NULL is returned and nothing
-- changes.
pub buddy_alloc_lem :
    {h : Heap} {bs : Blocks} {size k : ℕ}
    → IsHeap h bs
    → IsBlockSize size k
    → Served h bs k (2 ^ k) (buddy_alloc size h) ⊎ Refused h bs k (buddy_alloc size h)
unfolding buddy_alloc
buddy_alloc_lem {h} {bs} {size} {k} v z =
    rw (z.order, z.returns)
      (elim (lt-cases k max_order) [
        | inl p ↦
            alloc_loop_lem v k (2 ^ k) z.cell (max_order - k) k (omega arith) (omega arith)
              (λ j lo hi. absurd (omega arith))
        | inr p ↦ rw (too_large p) (
            inr (record {
              returns = unfold alloc_loop in refl;
              exhausted = λ j lo hi. absurd (omega arith);
            }))
      ])
  where
    too_large : max_order ≤ k → max_order - k ≡ 0
    too_large p = omega arith
