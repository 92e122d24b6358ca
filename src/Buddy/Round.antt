-- ===== src/Buddy/Round.antt =====
-- One round of the loop of `buddy_dealloc` that finds the buddy of a block free.
use native.Mathlib.Numerals.{add-one}
use lilac_os.Base.{
  ℕ, suc, ◌+◌, ◌^◌, ◌≤◌, ◌<◌, min, bit_xor, ◌≡◌, refl, ap, subst, Option, some, List, ◌∷◌, arith,
  inl, inr, Bool, true, false, eq→==, ne→==, length, eq-cases, if◌then◌else◌,
}
use lilac_os.Word.Pow.{two-pow-suc}
use lilac_os.Memory.{load64, store64}
use lilac_os.Buddy.{Heap, max_order, find_buddy, merge, unlink, ◌>>=◌, ◌>>◌}
use lilac_os.Buddy.Cover.{
  inside, covered, Blocks, put, cover, put_self, cover-put, covered-le-cover, covered-add-le-cover,
}
use lilac_os.Buddy.Lists.{
  Chain, cells-put, chains-store, IsHeap, IsOwned, pushed, popped, get_list_lem, load_lem, push_lem,
  pop_lem, head-block, order-le, cover-pop, IsHeap-pop,
}
use lilac_os.Buddy.Unlink.{
  contains, remove, covered-remove, Chain-contains, Unlinked, unlink_some, unlink_none,
}
use lilac_os.Buddy.Pair.{IsBuddy, inside-low}

-- One round that finds the buddy: from list `i` of `block` and `l` the buddy is unlinked.
module _ {h : Heap} {bs : Blocks} (v : IsHeap h bs) {i block : ℕ} {l : List ℕ} (le : i < max_order)
    (first : bs i ≡ block ∷ l) where
  chain : Chain h.memory i (h.buddy.free_list i) (block ∷ l)
  chain = head-block v i le block l first

  once : (x : ℕ) → covered i x (block ∷ l) ≤ 1
  once x = omega (arith, ap (covered i x) first, covered-le-cover bs i x le, v.once x)

  find_buddy_lem :
      (fuel other : ℕ)
      → find_buddy fuel other i h ≡ unlink fuel block (load64 h.memory block) other h
  unfolding find_buddy
  find_buddy_lem fuel other =
      rw (get_list_lem i h le, ◌>>=◌, chain.0, load_lem block h chain.1, chain.0)

  pub find_buddy_some :
      (other fuel : ℕ)
      → length l < fuel
      → contains other l ≡ true
      → Unlinked h i block other l (find_buddy fuel other i h)
  find_buddy_some other fuel enough found = rw (find_buddy_lem fuel other) (
      unlink_some i other (order-le v i le block l first) fuel block (load64 h.memory block) l h
        enough chain.1 refl chain.4 once found)

  pub run_stop :
      (fuel rounds : ℕ)
      → length l < fuel
      → contains (bit_xor block (2 ^ i)) l ≡ false
      → merge fuel (suc rounds) block i h ≡ some (tt, h)
  unfolding merge
  run_stop fuel rounds enough missing = rw (
    find_buddy_lem fuel (bit_xor block (2 ^ i)),
    unlink_none fuel i block (load64 h.memory block) (bit_xor block (2 ^ i)) l h enough chain.4
        missing,
    ◌>>=◌,
  )

  module _ {other : ℕ} {r : Option (Bool × Heap)} (found : contains other l ≡ true)
      (u : Unlinked h i block other l r) where
    abbrev pub unlinked : Heap
    unlinked = record h { memory = store64 h.memory u.cell u.value }

    abbrev pub remaining : Blocks
    remaining = put bs i (block ∷ remove other l)

    cover-remaining : (x : ℕ) → cover remaining x + inside other i x ≡ cover bs x
    cover-remaining x = omega (
      arith,
      cover-put bs i (block ∷ remove other l) x le,
      ap (covered i x) first,
      covered-remove i x other l found,
    )

    chains :
        (j : ℕ)
        → j < max_order
        → Chain (store64 h.memory u.cell u.value) j (h.buddy.free_list j) (remaining j)
    chains j g = elim (eq-cases i j) [
      | inl e ↦ rw (eq→== i j e) (
          subst
            (λ k.
              Chain (store64 h.memory u.cell u.value) k (h.buddy.free_list k)
                (block ∷ remove other l))
            e (chain.0, chain.1, chain.2, chain.3, u.chain))
      | inr ne ↦ rw (ne→== i j ne) (
          chains-store v u.cell u.value j g λ x lo hi. omega (
            arith,
            u.within x lo hi,
            ap (covered i x) first,
            covered-add-le-cover bs i j x le g ne,
            v.once x,
          ))
    ]

    IsHeap-unlinked : IsHeap unlinked remaining
    IsHeap-unlinked = record {
      chains = chains;
      cells =
          cells-put bs i (block ∷ remove other l)
            (λ g. absurd (omega (arith, order-le v i le block l first))) v.cells;
      once = λ x. omega (arith, v.once x, cover-remaining x);
    }

    abbrev pub emptied : Blocks
    emptied = put remaining i (remove other l)

    abbrev pub parted : Heap
    parted = popped block i unlinked

    pub parted-IsHeap : IsHeap parted emptied
    parted-IsHeap =
        IsHeap-pop IsHeap-unlinked i le block (remove other l)
          (put_self bs i (block ∷ remove other l))

    pub cover-emptied : (x : ℕ) → cover emptied x + inside block i x + inside other i x ≡ cover bs x
    cover-emptied x = omega (
      arith,
      cover-pop IsHeap-unlinked i le block x (remove other l)
          (put_self bs i (block ∷ remove other l)),
      cover-remaining x,
    )

    module _ {low : ℕ} (b : IsBuddy block other low i) (up : suc i < max_order) where
      pub low-IsOwned : IsOwned emptied low (suc i)
      low-IsOwned =
          let member = Chain-contains h.memory i other (load64 h.memory block) l found chain.4 in
          record {
            bound = up;
            cell = omega (arith, order-le v i le block l first);
            pos = omega (arith, b.halves, chain.1, member);
            aligned = b.aligned;
            fits = omega (arith, b.halves, chain.3, member, two-pow-suc i);
            clear = λ x lo hi. ground (arith, inside-low x b, cover-emptied x, v.once x);
          }

      pub run :
          (fuel rounds : ℕ)
          → other ≡ bit_xor block (2 ^ i)
          → low ≡ min block other
          → r ≡ find_buddy fuel other i h
          → merge fuel (suc rounds) block i h
            ≡ merge fuel rounds low (suc i) (pushed low (suc i) parted)
      unfolding merge
      run fuel rounds flip least walk = rw (
        ← flip,
        ← walk,
        u.returns,
        ◌>>=◌,
        if◌then◌else◌,
        ◌>>=◌,
        pop_lem IsHeap-unlinked i le block (remove other l)
            (put_self bs i (block ∷ remove other l)),
        ← flip,
        ← least,
        ◌>>◌,
        ◌>>=◌,
        add-one,
        push_lem low (suc i) parted low-IsOwned.pos up,
        ← flip,
        ← least,
        add-one,
      )
