-- ===== src/Fs/Inodes.antt =====
-- `alloc_inode`: the first free entry of the table, filled with a fresh block.
use lilac_os.Base.{
  ℕ, zero, suc, ◌+◌, ◌%◌, ◌≤◌, ◌<◌, ◌≡◌, ◌≢◌, ◌∙◌, ◌⊎◌, inl, inr, refl, sym, ap, Option, none, some,
  arith, ◌==◌, if◌then◌else◌, eq-cases, eq→==, ne→==,
}
use lilac_os.Word.Flags.{bit}
use lilac_os.Memory.{
  Memory, load16, store16, load16-ext, load32-ext, load16-store16_self, load16-store16_ne,
  store16-outside, store16-IsBytes,
}
use lilac_os.Fs.{
  block_num, unused_at, word_at, fat_at, fat_size, alloc_free_block, fill_entry, alloc_entry,
  alloc_inode,
}
use lilac_os.Fs.Bitmap.{used, Used}
use lilac_os.Fs.Blocks.{IsConsistent, Taken, alloc_free_block_lem, unused_below-ext}

-- `fat[i]` as a number
abbrev pub entry_of : Memory → ℕ → ℕ
entry_of d i = load16 d (fat_at i)

abbrev Filled : Memory → ℕ → ℕ → Type 0
Filled d lo hi = (k : ℕ) → lo ≤ k → k < hi → entry_of d k ≢ 0

Filled-cons : (d : Memory) (lo hi : ℕ) → entry_of d lo ≢ 0 → Filled d (lo + 1) hi → Filled d lo hi
Filled-cons d lo hi f rest k p q = elim (eq-cases k lo) [
  | inl same ↦ rw same f
  | inr ne ↦ rest k (omega arith) q
]

alloc_entry_lem :
    (rounds i : ℕ) (d : Memory)
    → ((j : ℕ) × (alloc_entry rounds i d ≡ fill_entry j (alloc_free_block d))
        × (j < i + rounds)
        × (entry_of d j ≡ 0)
        × Filled d i j)
      ⊎ ((alloc_entry rounds i d ≡ (none, d)) × Filled d i (i + rounds))
unfolding alloc_entry
alloc_entry_lem zero i d = inr (refl, λ k p q. absurd (omega arith))
alloc_entry_lem (suc rounds) i d = elim (eq-cases (entry_of d i) 0) [
  | inl free ↦
      rw (eq→== (entry_of d i) 0 free)
        (inl (i, refl, omega arith, free, λ k p q. absurd (omega arith)))
  | inr full ↦ rw (ne→== (entry_of d i) 0 full) (elim (alloc_entry_lem rounds (i + 1) d) [
    | inl (j, e, below, free, all) ↦
        inl (j, e, omega (arith, below), free, Filled-cons d i j full all)
    | inr (e, all) ↦ inr (e, Filled-cons d i (i + suc rounds) full (λ k p q. all k p (omega arith)))
  ])
]

-- A file entered: its entry was the first free one and holds a block that was not used.
pub record Entered (d : Memory) (result : Option ℕ × Memory) : Type 0 where
  pub entry : ℕ
  pub block : ℕ
  pub disk : Memory
  pub returns : result ≡ (some block, disk)
  pub below : entry < fat_size
  pub free : entry_of d entry ≡ 0
  pub least : Filled d 0 entry
  pub linked : entry_of disk entry ≡ block
  pub others : (k : ℕ) → k ≢ entry → entry_of disk k ≡ entry_of d k
  pub bounded : block < block_num
  pub unused : used d block ≡ 0
  pub marked : (c : ℕ) → c < block_num → used disk c ≡ (if block == c then 1 else used d c)
  pub consistent : IsConsistent disk

-- No file is entered: the image is untouched, and either no block or no entry was left.
pub record Refused (d : Memory) (result : Option ℕ × Memory) : Type 0 where
  pub returns : result ≡ (none, d)
  pub reason : Used d 0 block_num ⊎ Filled d 0 fat_size

used-entry : (d : Memory) (j b c : ℕ) → c < block_num → used (store16 d (fat_at j) b) c ≡ used d c
unfolding used
used-entry d j b c p =
    ap (λ w. bit w (c % 32))
      (load32-ext (store16 d (fat_at j) b) d (word_at c)
        λ k lo hi. store16-outside d (fat_at j) b k (omega arith))

entered :
    (d : Memory) (j : ℕ) {found : Option ℕ × Memory}
    → Taken d found
    → j < fat_size
    → entry_of d j ≡ 0
    → Filled d 0 j
    → Entered d (fill_entry j found)
unfolding fill_entry
entered d j t below free least = rw t.returns (record {
  entry = j;
  block = t.block;
  disk = disk;
  returns = refl;
  below = below;
  free = free;
  least = least;
  linked = load16-store16_self t.disk (fat_at j) t.block (omega (arith, t.first.below));
  others = λ k ne. load16-store16_ne t.disk (fat_at j) t.block (fat_at k) (omega arith) ∙ same k;
  bounded = t.first.below;
  unused = t.first.unused;
  marked = λ c p. used-entry t.disk j t.block c p ∙ t.marked c;
  consistent = record {
    bytes = store16-IsBytes t.disk (fat_at j) t.block t.consistent.bytes;
    counted =
        load16-store16_ne t.disk (fat_at j) t.block unused_at (omega arith)
        ∙ (t.consistent.counted
            ∙ sym
                (unused_below-ext block_num disk t.disk (λ c p. used-entry t.disk j t.block c p)));
  };
})
  where
    disk : Memory
    disk = store16 t.disk (fat_at j) t.block

    same : (k : ℕ) → entry_of t.disk k ≡ entry_of d k
    same k = load16-ext t.disk d (fat_at k) λ q lo hi. t.outside q (omega arith)

-- On a consistent image the first free entry of the table receives a block that was not used,
-- the block is marked, no other entry changes and the image stays consistent; or no block or
-- no entry is left and the image stays as it is.
pub alloc_inode_lem :
    (d : Memory) → IsConsistent d → Entered d (alloc_inode d) ⊎ Refused d (alloc_inode d)
unfolding alloc_inode fill_entry
alloc_inode_lem d c = elim (alloc_entry_lem fat_size 0 d) [
  | inl (j, e, below, free, least) ↦ rw e (elim (alloc_free_block_lem d c) [
    | inl t ↦ inl (entered d j t below free least)
    | inr f ↦ rw f.returns (inr (record { returns = refl; reason = inl f.all }))
  ])
  | inr (e, all) ↦ rw e (inr (record { returns = refl; reason = inr all }))
]
