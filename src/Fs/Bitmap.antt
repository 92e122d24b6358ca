-- ===== src/Fs/Bitmap.antt =====
-- The map of used blocks, and its count in the super block.
use lilac_os.Base.{
  ℕ, zero, suc, ◌+◌, ◌-◌, ◌*◌, ◌/◌, ◌%◌, ◌^◌, ◌≤◌, ◌<◌, bit_or, ◌≡◌, ◌∙◌, ◌⊎◌, inl, inr, refl, sym,
  ap, none, some, arith, ◌==◌, if◌then◌else◌, eq-cases, eq→==, ne→==,
}
use lilac_os.Word.Bits.{bit_or-lt}
use lilac_os.Word.Pow.{two-pow-pos, two-pow-lt}
use lilac_os.Word.Flags.{bit, bit-lt, flag_clear, bit_or-flag, bit-set}
use lilac_os.Memory.{
  Memory, load32, store32, IsBytes, load32-store32_self, load32-store32_ne, load32-lt,
}
use lilac_os.Fs.{word_at, claim_block}

-- 1 if the map says that block `b` is used, else 0
unfoldable pub used : Memory → ℕ → ℕ
used d b = bit (load32 d (word_at b)) (b % 32)

abbrev pub Used : Memory → ℕ → ℕ → Type 0
Used d lo hi = (b : ℕ) → lo ≤ b → b < hi → used d b ≡ 1

abbrev pub mark : Memory → ℕ → Memory
mark d b = store32 d (word_at b) (bit_or (load32 d (word_at b)) (2 ^ (b % 32)))

-- how many of the first `n` blocks are not used
unfoldable pub unused_below : ℕ → Memory → ℕ
unused_below zero d = 0
unused_below (suc n) d = (1 - used d n) + unused_below n d

-- A block claimed: the first one that is not used.
pub record IsFirst (d : Memory) (lo hi b : ℕ) : Type 0 where
  pub from : lo ≤ b
  pub below : b < hi
  pub unused : used d b ≡ 0
  pub least : Used d lo b

Used-cons : (d : Memory) (lo hi : ℕ) → used d lo ≡ 1 → Used d (lo + 1) hi → Used d lo hi
Used-cons d lo hi e rest b p q = elim (eq-cases b lo) [
  | inl same ↦ rw same e
  | inr ne ↦ rest b (omega arith) q
]

pub claim_block_lem :
    (rounds i : ℕ) (d : Memory)
    → ((b : ℕ) × (claim_block rounds i d ≡ (some b, mark d b)) × IsFirst d i (i + rounds) b)
      ⊎ ((claim_block rounds i d ≡ (none, d)) × Used d i (i + rounds))
unfolding claim_block used
claim_block_lem zero i d = inr (refl, λ b p q. absurd (omega arith))
claim_block_lem (suc rounds) i d = elim (eq-cases (used d i) 0) [
  | inl free ↦
      rw (flag_clear (i % 32) (load32 d (word_at i)), eq→== (used d i) 0 free)
        (inl (
          i,
          refl,
          record {
            from = omega arith;
            below = omega arith;
            unused = free;
            least = λ b p q. absurd (omega arith);
          },
        ))
  | inr set ↦
      let one : used d i ≡ 1 = omega (arith, bit-lt (load32 d (word_at i)) (i % 32)) in
      rw (flag_clear (i % 32) (load32 d (word_at i)), ne→== (used d i) 0 set)
        (elim (claim_block_lem rounds (i + 1) d) [
          | inl (b, e, first) ↦ inl (
            b,
            e,
            record {
              from = omega (arith, first.from);
              below = omega (arith, first.below);
              unused = first.unused;
              least = Used-cons d i b one first.least;
            },
          )
          | inr (e, all) ↦
              inr (e, Used-cons d i (i + suc rounds) one (λ b p q. all b p (omega arith)))
        ])
]

mark-lt : (d : Memory) (b : ℕ) → IsBytes d → bit_or (load32 d (word_at b)) (2 ^ (b % 32)) < 2 ^ 32
mark-lt d b bytes =
    bit_or-lt 32 (load32 d (word_at b)) (2 ^ (b % 32)) (load32-lt d (word_at b) bytes)
      (omega (arith, two-pow-lt {a = b % 32} {b = 32} (omega arith), two-pow-pos (b % 32)))

-- Marking a block that is not used changes that block's entry alone.
pub used-mark :
    (d : Memory) (b c : ℕ)
    → IsBytes d
    → used d b ≡ 0
    → used (mark d b) c ≡ (if b == c then 1 else used d c)
unfolding used
used-mark d b c bytes free = elim (eq-cases (b / 32) (c / 32)) [
  | inl e ↦
      let stored : load32 (mark d b) (word_at c) ≡ load32 d (word_at b) + 2 ^ (b % 32) =
        ap (λ k. load32 (mark d b) (512 + 4 * k)) (sym e)
        ∙ (load32-store32_self d (word_at b) _ (mark-lt d b bytes)
            ∙ bit_or-flag (b % 32) (load32 d (word_at b)) free) in
      rw (stored, bit-set (b % 32) (c % 32) (load32 d (word_at b)) free)
        (elim (eq-cases b c) [
          | inl same ↦ rw (eq→== b c same, eq→== (b % 32) (c % 32) (ap (λ t. t % 32) same))
          | inr ne ↦
              rw (ne→== b c ne, ne→== (b % 32) (c % 32) (λ f. ne (omega arith)))
                (ap (λ k. bit (load32 d (512 + 4 * k)) (c % 32)) e)
        ])
  | inr ne ↦ rw (
    load32-store32_ne d (word_at b) (bit_or (load32 d (word_at b)) (2 ^ (b % 32))) (word_at c)
        (omega arith),
    ne→== b c (λ same. ne (ap (λ t. t / 32) same)),
  )
]
