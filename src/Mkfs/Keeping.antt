-- ===== src/Mkfs/Keeping.antt =====
-- The blocks of an image: what an operation of the image builder leaves alone.
use lilac_os.Base.{
  ℕ, ◌+◌, ◌%◌, ◌≤◌, ◌<◌, ◌≡◌, ◌≢◌, ◌∙◌, ◌⊎◌, inl, inr, refl, sym, ap, subst, Option, some, arith,
  eq-cases, lt-cases, eq→==, ne→==,
}
use lilac_os.Memory.{Memory, IsBytes, load32-ext}
use lilac_os.Word.Flags.{bit}
use lilac_os.Fs.{block_num, block_size, get_block, word_at}
use lilac_os.Fs.Bitmap.{used}
use lilac_os.Fs.Blocks.{unused_below-ext}
use lilac_os.Mkfs.{Image, alloc_free_block}
use lilac_os.Mkfs.Laws.{IsBuilt, Claimed, IsBuilt-alloc_free_block}

-- The byte `q` stands in block `b`.
abbrev pub Inside : ℕ → ℕ → Type 0
Inside b q = (get_block b ≤ q) × (q < get_block b + block_size)

-- A block of a file or an inode that is in use.
pub record InUse (d : Memory) (b : ℕ) : Type 0 where
  pub taken : used d b ≡ 1
  pub low : 3 ≤ b
  pub high : b < block_num

-- The blocks in use stay in use, with their bytes.
pub record Keeps (d e : Memory) : Type 0 where
  pub mono : (b : ℕ) → InUse d b → used e b ≡ 1
  pub same : (b q : ℕ) → InUse d b → Inside b q → e q ≡ d q

-- The table of the inodes, in block 2, is the same.
abbrev pub SameTable : Memory → Memory → Type 0
SameTable d e = (q : ℕ) → Inside 2 q → e q ≡ d q

pub Keeps-refl : (d : Memory) → Keeps d d
Keeps-refl d = record { mono = λ b u. u.taken; same = λ b q u h. refl }

pub InUse-keeps : {d e : Memory} {b : ℕ} → Keeps d e → InUse d b → InUse e b
InUse-keeps {b = b} k u = record { taken = k.mono b u; low = u.low; high = u.high }

pub Keeps-trans : {d e f : Memory} → Keeps d e → Keeps e f → Keeps d f
Keeps-trans k l = record {
  mono = λ b u. l.mono b (InUse-keeps k u);
  same = λ b q u h. l.same b q (InUse-keeps k u) h ∙ k.same b q u h;
}

pub used-ext :
    (d e : Memory) (b : ℕ)
    → b < block_num
    → ((q : ℕ) → 512 ≤ q → q < 768 → e q ≡ d q)
    → used e b ≡ used d b
unfolding used
used-ext d e b h same =
    ap (λ w. bit w (b % 32))
      (load32-ext e d (word_at b) λ q lo hi. same q (omega arith) (omega (arith, h, hi)))

-- The image: its map is right, its first three blocks are in use, and an unused block is zero.
pub record IsImage (image : Image) : Type 0 where
  pub built : IsBuilt image
  pub reserved : (b : ℕ) → b < 3 → used image.bytes b ≡ 1
  pub blank : (b q : ℕ) → b < block_num → used image.bytes b ≡ 0 → Inside b q → image.bytes q ≡ 0

-- A block that was unused, and is in use.
pub record Fresh (image : Image) (result : Option ℕ × Image) : Type 0 where
  pub block : ℕ
  pub after : Image
  pub returns : result ≡ (some block, after)
  pub image_after : IsImage after
  pub count : after.unused + 1 ≡ image.unused
  pub was : used image.bytes block ≡ 0
  pub in_use : InUse after.bytes block
  pub zero : (q : ℕ) → Inside block q → after.bytes q ≡ 0
  pub outside : (q : ℕ) → (q < 512) ⊎ (768 ≤ q) → after.bytes q ≡ image.bytes q
  pub keeps : Keeps image.bytes after.bytes

fresh :
    {image : Image}
    → IsImage image
    → Claimed image (alloc_free_block image)
    → Fresh image (alloc_free_block image)
fresh {image} i c =
    let low : 3 ≤ c.block = elim (lt-cases c.block 3) [
      | inl p ↦ absurd (omega (arith, i.reserved c.block p, c.first.unused))
      | inr p ↦ p
    ] in
    let own : used c.after.bytes c.block ≡ 1 = c.marked c.block ∙ rw (eq→== c.block c.block refl) in
    let old : (b : ℕ) → c.block ≢ b → used c.after.bytes b ≡ used image.bytes b =
      λ b ne. c.marked b ∙ rw (ne→== c.block b ne) in
    let mono : (b : ℕ) → used image.bytes b ≡ 1 → used c.after.bytes b ≡ 1 = λ b u.
      elim (eq-cases c.block b) [
        | inl e ↦ subst (λ x. used c.after.bytes x ≡ 1) e own
        | inr ne ↦ old b ne ∙ u
      ] in
    record {
      block = c.block;
      after = c.after;
      returns = c.returns;
      image_after = record {
        built = c.built;
        reserved = λ b p. mono b (i.reserved b p);
        blank = λ b q h u p.
            let ne : c.block ≢ b = λ e. omega (arith, own, u, ap (used c.after.bytes) e) in
            let before : used image.bytes b ≡ 0 = sym (old b ne) ∙ u in
            let above : 3 ≤ b = elim (lt-cases b 3) [
              | inl l ↦ absurd (omega (arith, i.reserved b l, before))
              | inr l ↦ l
            ] in
            c.outside q (inr (omega (arith, above, p.0))) ∙ i.blank b q h before p;
      };
      count = c.count;
      was = c.first.unused;
      in_use = record { taken = own; low = low; high = c.first.below };
      zero = λ q p.
          c.outside q (inr (omega (arith, low, p.0)))
          ∙ i.blank c.block q c.first.below c.first.unused p;
      outside = c.outside;
      keeps = record {
        mono = λ b u. mono b u.taken;
        same = λ b q u p. c.outside q (inr (omega (arith, u.low, p.0)));
      };
    }

-- With a block left, one is claimed.
pub alloc-Fresh :
    {image : Image} → IsImage image → 0 < image.unused → Fresh image (alloc_free_block image)
alloc-Fresh {image} i some_left = elim (IsBuilt-alloc_free_block image i.built) [
  | inl c ↦ fresh i c
  | inr e ↦ absurd (omega (arith, e.empty, some_left))
]

-- Bytes written into blocks in use, and nowhere else.
pub record Writes (d e : Memory) (b : ℕ) : Type 0 where
  pub bytes : IsBytes e
  pub outside : (q : ℕ) → ¬ (Inside b q) → e q ≡ d q

pub Writes-used :
    {d e : Memory} {b : ℕ} → Writes d e b → 2 ≤ b → (c : ℕ) → c < block_num → used e c ≡ used d c
Writes-used {d} {e} {b} w low c h =
    used-ext d e c h (λ q lo hi. w.outside q (λ p. omega (arith, low, p.0, hi)))

pub IsImage-writes :
    {image : Image} {e : Memory} {b : ℕ}
    → IsImage image
    → Writes image.bytes e b
    → 2 ≤ b
    → b < block_num
    → used image.bytes b ≡ 1
    → IsImage (record image { bytes = e })
IsImage-writes {image} {e} {b} i w low high taken =
    let same = Writes-used w low in
    record {
      built = record {
        bytes = w.bytes;
        counted = i.built.counted ∙ sym (unused_below-ext block_num e image.bytes same);
      };
      reserved = λ c p. same c (omega (arith, p)) ∙ i.reserved c p;
      blank = λ c q h u p.
          let before : used image.bytes c ≡ 0 = sym (same c h) ∙ u in
          let ne : b ≢ c = λ f. omega (arith, taken, before, ap (used image.bytes) f) in
          w.outside q (λ r. omega (arith, ne, p.0, p.1, r.0, r.1)) ∙ i.blank c q h before p;
    }

-- A write into a block keeps the other ones.
pub Keeps-writes :
    {d0 d e : Memory} {b : ℕ} → Keeps d0 d → Writes d e b → 2 ≤ b → ¬ (InUse d0 b) → Keeps d0 e
Keeps-writes {d0} {d} {e} {b} k w low new = record {
  mono = λ c u. Writes-used w low c u.high ∙ k.mono c u;
  same = λ c q u p.
      w.outside q
        (λ r. new (subst (InUse d0) {x = c} {y = b} (omega (arith, p.0, p.1, r.0, r.1)) u))
      ∙ k.same c q u p;
}
