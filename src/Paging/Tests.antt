-- ===== src/Paging/Tests.antt =====
-- Entries and page numbers, at the user stack's page.
use lilac_os.Base.{
  ℕ, ◌+◌, ◌*◌, ◌%◌, ◌<◌, ◌≡◌, ◌≢◌, ◌⊎◌, inl, refl, sym, subst, [], ◌∷◌, arith, ◌==◌, if◌then◌else◌,
}
use lilac_os.Memory.{load64, load64-store64_ne}
use lilac_os.Buddy.{Heap}
use lilac_os.Buddy.Cover.{Blocks, put, inside, cover, no_blocks, cover-no_blocks}
use lilac_os.Buddy.Lists.{IsHeap, pushed, cover-push, IsHeap-push}
use lilac_os.Paging.{ppn2pte, map_pages}
use lilac_os.Paging.Tables.{entry, IsTables}
use lilac_os.Paging.Descent.{IsSpace, Exhausted}
use lilac_os.Paging.Mapping.{MapsRange, map_pages_lem}
use lilac_os.Paging.Entries.{Maps, ppn2pte_lem}

entry_runs : ppn2pte 0x80200 7 ≡ 0x20080007
unfolding ppn2pte
entry_runs = refl

ppn2pte_lem_example : Maps (ppn2pte 0x80200 7) 0x80200 7
ppn2pte_lem_example = ppn2pte_lem 0x80200 7 (omega arith) (omega arith)

-- A root table at ppn 0x80300, and one free block of four pages.
abbrev empty : Heap
empty = record { memory = λ q. 0; buddy = record { free_list = λ i. 0; total = 0; allocated = 0 } }

empty-IsHeap : IsHeap empty no_blocks
empty-IsHeap = record {
  chains = λ i p. refl;
  cells = λ i p. refl;
  once = λ x. omega (arith, cover-no_blocks x);
}

abbrev four_pages : Heap
four_pages = pushed 0xffffffff80400000 14 empty

abbrev pages : Blocks
pages = put no_blocks 14 (0xffffffff80400000 ∷ [])

cover-pages : (x : ℕ) → cover pages x ≡ inside 0xffffffff80400000 14 x
cover-pages x =
    omega (arith, cover-push no_blocks 14 0xffffffff80400000 x (omega arith), cover-no_blocks x)

four_pages-IsHeap : IsHeap four_pages pages
four_pages-IsHeap = IsHeap-push empty-IsHeap (record {
  bound = omega arith;
  cell = omega arith;
  pos = omega arith;
  aligned = refl;
  fits = omega arith;
  clear = λ x lo hi. cover-no_blocks x;
})

abbrev root : ℕ
root = 0xffffffff80300000

abbrev one_root : ℕ → ℕ
one_root t = if t == root then 3 else 0

root_only : (t : ℕ) → one_root t ≢ 0 → t ≡ root
root_only t p = ground arith

no_entries : (i : ℕ) → i < 512 → entry four_pages.memory root i ≡ 0
unfolding load64
no_entries i p =
    load64-store64_ne empty.memory 0xffffffff80400000 0 (root + 8 * i) (inl (omega arith))

root-IsTables : IsTables four_pages.memory pages one_root
root-IsTables = record {
  aligned = λ t p. subst (λ x. x % 4096 ≡ 0) (sym (root_only t p)) refl;
  above = λ t p. omega (arith, root_only t p);
  below = λ t p. omega (arith, root_only t p);
  held = λ t x p lo hi. ground (arith, cover-pages x, root_only t p);
  down = λ t i n a b q. absurd (
      q (
        subst (λ x. entry four_pages.memory x i ≡ 0) (sym (root_only t (λ z. omega (arith, a, z))))
          (no_entries i b)));
  points = λ t i n a b q. absurd (
      q (
        subst (λ x. entry four_pages.memory x i ≡ 0) (sym (root_only t (λ z. omega (arith, a, z))))
          (no_entries i b)));
  single = λ t i u j a b c d p q e. absurd (
      p (
        subst (λ x. entry four_pages.memory x i ≡ 0) (sym (root_only t (λ z. omega (arith, a, z))))
          (no_entries i c)));
}

root-IsSpace : IsSpace four_pages pages one_root
root-IsSpace = record {
  heap = four_pages-IsHeap;
  kernel = λ x used. ground (arith, cover-pages x);
  tables = root-IsTables;
}

-- Two pages at 0x10000, readable and writable for users.
map_pages_lem_example :
    MapsRange four_pages pages one_root root 0x10000 0x80500000 8192 23
      (map_pages 0x80300 0x10000 0x80500000 8192 23 four_pages)
    ⊎ Exhausted pages (map_pages 0x80300 0x10000 0x80500000 8192 23 four_pages)
map_pages_lem_example =
    map_pages_lem 0x80300 root 0x10000 0x80500000 8192 23 root-IsSpace
      (record { place = refl; top = refl }) (omega arith) (omega arith) (omega arith) (omega arith)
      (omega arith)
