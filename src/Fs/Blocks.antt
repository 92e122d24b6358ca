-- ===== src/Fs/Blocks.antt =====
-- `alloc_free_block` against the count of unused blocks in the super block.
use lilac_os.Base.{
  ℕ, zero, suc, ◌+◌, ◌-◌, ◌%◌, ◌≤◌, ◌<◌, ◌≡◌, ◌≢◌, ◌∙◌, ◌⊎◌, inl, inr, refl, sym, ap, Option, none,
  some, arith, ◌==◌, if◌then◌else◌, eq-cases, eq→==, ne→==,
}
use lilac_os.Word.Flags.{bit, bit-lt}
use lilac_os.Memory.{
  Memory, load16, store16, load32, IsBytes, load16-ext, load32-ext, load16-store16_self,
  store32-outside, store16-outside, store32-IsBytes, store16-IsBytes, load16-lt,
}
use lilac_os.Fs.{block_num, unused_at, word_at, alloc_free_block}
use lilac_os.Fs.Bitmap.{used, Used, mark, unused_below, IsFirst, claim_block_lem, used-mark}

-- The super block counts the blocks that the map leaves unused.
pub record IsConsistent (d : Memory) : Type 0 where
  pub bytes : IsBytes d
  pub counted : load16 d unused_at ≡ unused_below block_num d

pub unused_below-ext :
    (n : ℕ) (d e : Memory)
    → ((b : ℕ) → b < n → used d b ≡ used e b)
    → unused_below n d ≡ unused_below n e
unfolding unused_below
unused_below-ext zero d e same = refl
unused_below-ext (suc n) d e same =
    omega (arith, same n (omega arith), unused_below-ext n d e (λ b p. same b (omega arith)))

pub unused_below-mark :
    (n : ℕ) (d : Memory) (b : ℕ)
    → IsBytes d
    → used d b ≡ 0
    → b < n
    → unused_below n (mark d b) + 1 ≡ unused_below n d
unfolding unused_below
unused_below-mark zero d b bytes free p = absurd (omega arith)
unused_below-mark (suc n) d b bytes free p = elim (eq-cases b n) [
  | inl e ↦ ground (
    arith,
    ap (used d) e,
    used-mark d b n bytes free,
    unused_below-ext n (mark d b) d
        (λ c q. used-mark d b c bytes free ∙ rw (ne→== b c (omega arith))),
  )
  | inr ne ↦
      ground (arith, used-mark d b n bytes free, unused_below-mark n d b bytes free (omega arith))
]

pub unused_below-Used : (n : ℕ) (d : Memory) → Used d 0 n → unused_below n d ≡ 0
unfolding unused_below
unused_below-Used zero d all = refl
unused_below-Used (suc n) d all = omega (
  arith,
  all n (omega arith) (omega arith),
  unused_below-Used n d (λ b p q. all b p (omega arith)),
)

pub used-le : (d : Memory) (b : ℕ) → used d b ≤ 1
unfolding used
used-le d b = omega (arith, bit-lt (load32 d (word_at b)) (b % 32))

pub Used-unused_below : (n : ℕ) (d : Memory) → unused_below n d ≡ 0 → Used d 0 n
unfolding unused_below
Used-unused_below zero d e b p q = absurd (omega arith)
Used-unused_below (suc n) d e b p q = elim (eq-cases b n) [
  | inl same ↦ rw same (omega (arith, used-le d n))
  | inr ne ↦ Used-unused_below n d (omega arith) b p (omega arith)
]

-- A block taken: the first unused one, marked, counted off, and nothing behind block 1 touched.
pub record Taken (d : Memory) (result : Option ℕ × Memory) : Type 0 where
  pub block : ℕ
  pub disk : Memory
  pub returns : result ≡ (some block, disk)
  pub first : IsFirst d 0 block_num block
  pub marked : (c : ℕ) → used disk c ≡ (if block == c then 1 else used d c)
  pub consistent : IsConsistent disk
  pub count : load16 disk unused_at + 1 ≡ load16 d unused_at
  pub outside : (q : ℕ) → 1024 ≤ q → disk q ≡ d q

-- No block is left: the count is zero, every block is used, and nothing is touched.
pub record Full (d : Memory) (result : Option ℕ × Memory) : Type 0 where
  pub returns : result ≡ (none, d)
  pub empty : load16 d unused_at ≡ 0
  pub all : Used d 0 block_num

abbrev decremented : Memory → Memory
decremented d = store16 d unused_at (load16 d unused_at - 1)

used-decremented : (d : Memory) (b : ℕ) → used (decremented d) b ≡ used d b
unfolding used
used-decremented d b =
    ap (λ w. bit w (b % 32))
      (load32-ext (decremented d) d (word_at b)
        λ k lo hi. store16-outside d unused_at (load16 d unused_at - 1) k (omega arith))

module _ (d : Memory) (c : IsConsistent d) (pos : load16 d unused_at ≢ 0) where
  bytes' : IsBytes (decremented d)
  bytes' = store16-IsBytes d unused_at (load16 d unused_at - 1) c.bytes

  count' : load16 (decremented d) unused_at + 1 ≡ load16 d unused_at
  count' = omega (
    arith,
    load16-store16_self d unused_at (load16 d unused_at - 1)
        (omega (arith, load16-lt d unused_at c.bytes)),
  )

  claimed :
      (b : ℕ) {result : Option ℕ × Memory}
      → result ≡ (some b, mark (decremented d) b)
      → IsFirst (decremented d) 0 block_num b
      → Taken d result
  claimed b e first = record {
    block = b;
    disk = mark (decremented d) b;
    returns = e;
    first = record {
      from = first.from;
      below = first.below;
      unused = sym (used-decremented d b) ∙ first.unused;
      least = λ k p q. sym (used-decremented d k) ∙ first.least k p q;
    };
    marked = λ k. used-mark (decremented d) b k bytes' first.unused ∙ rw (used-decremented d k);
    consistent = record {
      bytes = store32-IsBytes (decremented d) (word_at b) _ bytes';
      counted = omega (
        arith,
        same_count,
        count',
        c.counted,
        unused_below-mark block_num (decremented d) b bytes' first.unused first.below,
        unused_below-ext block_num (decremented d) d (λ k p. used-decremented d k),
      );
    };
    count = omega (arith, same_count, count');
    outside = λ q p.
        store32-outside (decremented d) (word_at b) _ q (omega (arith, first.below))
        ∙ store16-outside d unused_at (load16 d unused_at - 1) q (omega arith);
  }
    where
      same_count : load16 (mark (decremented d) b) unused_at ≡ load16 (decremented d) unused_at
      same_count =
          load16-ext (mark (decremented d) b) (decremented d) unused_at
            λ k lo hi. store32-outside (decremented d) (word_at b) _ k (omega arith)

-- On an image whose super block counts its unused blocks, the first unused block is taken,
-- marked and counted off, no other entry of the map and no byte behind block 1 changes, and
-- the image stays consistent; or the count is zero, all blocks are used and nothing changes.
pub alloc_free_block_lem :
    (d : Memory) → IsConsistent d → Taken d (alloc_free_block d) ⊎ Full d (alloc_free_block d)
unfolding alloc_free_block
alloc_free_block_lem d c = elim (eq-cases (load16 d unused_at) 0) [
  | inl e ↦
      rw (eq→== (load16 d unused_at) 0 e, if◌then◌else◌)
        (inr (record {
          returns = refl;
          empty = e;
          all = Used-unused_below block_num d (omega (arith, e, c.counted));
        }))
  | inr ne ↦
      rw (ne→== (load16 d unused_at) 0 ne) (elim (claim_block_lem block_num 0 (decremented d)) [
        | inl (b, e, first) ↦ inl (claimed d c ne b e first)
        | inr (e, all) ↦ absurd (
            omega (
              arith,
              ne,
              c.counted,
              unused_below-Used block_num (decremented d) all,
              unused_below-ext block_num (decremented d) d (λ k p. used-decremented d k),
            ))
      ])
]
