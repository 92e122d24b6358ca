-- ===== src/Buddy/Smear.antt =====
-- One smearing step of `next_power_of_two`: the run of ones at the top doubles.
use native.Mathlib.Nat.{div-div-eq-div-mul, div-eq_of_lt-le, div-le_self}
use lilac_os.Base.{
  ℕ, zero, suc, ◌+◌, ◌-◌, ◌*◌, ◌/◌, ◌^◌, ◌≤◌, ◌<◌, bit_or, ◌≡◌, ◌∙◌, inl, inr, ap, arith, lt-cases,
}
use lilac_os.Word.Pow.{two-pow-suc, two-pow-pos, pow-split, two-pow-le}
use lilac_os.Word.Bits.{bit_or_half, bit_or-lt, bit_or-mask, bit_or-le_left}
use lilac_os.Buddy.{smear}

-- `n` fits `k` bits, and its highest `s` bits of those are ones.
pub record TopOnes (k s n : ℕ) : Type 0 where
  pub fits : n < 2 ^ k
  pub ones : 2 ^ k ≤ n + 2 ^ (k - s)

quotient_of_top : (w p n : ℕ) → 0 < p → p ≤ w → n < w * p → w * p ≤ n + p → n / w ≡ p - 1
quotient_of_top w zero n pos le fits ones = absurd (omega arith)
quotient_of_top w (suc p) n pos le fits ones = div-eq_of_lt-le w {m = n} (grind arith) (grind arith)

-- With no more bits than twice the shift, the low bits become ones.
smear_low :
    (s j n : ℕ)
    → j ≤ s
    → n < 2 ^ s * 2 ^ j
    → 2 ^ s * 2 ^ j ≤ n + 2 ^ j
    → smear s n + 1 ≡ 2 ^ s * 2 ^ j
unfolding smear
smear_low s j n le fits ones =
    rw (q, split) (omega (arith, masked, two-pow-pos j, two-pow-pos s, product))
  where
    q : n / 2 ^ s ≡ 2 ^ j - 1
    q = quotient_of_top (2 ^ s) (2 ^ j) n (two-pow-pos j) (two-pow-le le) fits ones

    product : (2 ^ s - 1) * 2 ^ j + 2 ^ j ≡ 2 ^ s * 2 ^ j
    product = omega (
      arith,
      ap (λ (t : ℕ). t * 2 ^ j) {x = 2 ^ s - 1 + 1} {y = 2 ^ s} (omega (arith, two-pow-pos s)),
    )

    split : n ≡ (2 ^ s - 1) * 2 ^ j + (n - (2 ^ s - 1) * 2 ^ j)
    split = omega (arith, product)

    masked :
        bit_or ((2 ^ s - 1) * 2 ^ j + (n - (2 ^ s - 1) * 2 ^ j)) (2 ^ j - 1)
        ≡ (2 ^ s - 1) * 2 ^ j + (2 ^ j - 1)
    masked =
        bit_or-mask j (2 ^ s - 1) (n - (2 ^ s - 1) * 2 ^ j) (omega (arith, product, two-pow-pos j))

smear_half : (s n : ℕ) → smear s n / 2 ≡ smear s (n / 2)
unfolding smear
smear_half s n = ground (
  arith,
  bit_or_half n (n / 2 ^ s),
  div-div-eq-div-mul n (2 ^ s) 2,
  div-div-eq-div-mul n 2 (2 ^ s),
)

smear_high :
    (s i n : ℕ)
    → n < 2 ^ s * (2 ^ s * 2 ^ i)
    → 2 ^ s * (2 ^ s * 2 ^ i) ≤ n + 2 ^ s * 2 ^ i
    → 2 ^ s * (2 ^ s * 2 ^ i) ≤ smear s n + 2 ^ i
smear_high s zero n fits ones =
    omega (arith, smear_low s s n (omega arith) (omega arith) (omega arith))
smear_high s (suc i) n fits ones = omega (
  arith,
  smear_half s n,
  doubled,
  two-pow-suc i,
  smear_high s i (n / 2) (omega (arith, doubled)) (omega (arith, doubled)),
)
  where
    doubled :
        (2 ^ s * 2 ^ suc i ≡ 2 * (2 ^ s * 2 ^ i))
        × (2 ^ s * (2 ^ s * 2 ^ suc i) ≡ 2 * (2 ^ s * (2 ^ s * 2 ^ i)))
    doubled = (
      omega (arith, ap (λ (t : ℕ). 2 ^ s * t) (two-pow-suc i)),
      omega (arith, ap (λ (t : ℕ). 2 ^ s * (2 ^ s * t)) (two-pow-suc i)),
    )

-- A round of smearing doubles the run of ones at the top.
pub smear-TopOnes : (k s n : ℕ) → TopOnes k s n → TopOnes k (s + s) (smear s n)
smear-TopOnes k s n t = record { fits = fits; ones = ones }
  where
    fits : smear s n < 2 ^ k
    fits =
        unfold smear in
        bit_or-lt k n (n / 2 ^ s) t.fits (omega (arith, div-le_self n (2 ^ s), t.fits))

    grows : n ≤ smear s n
    grows = unfold smear in bit_or-le_left n n (n / 2 ^ s) (omega arith)

    short : k ≤ s → 2 ^ k ≤ smear s n + 2 ^ (k - (s + s))
    short h = omega (
      arith,
      t.ones,
      grows,
      ap (λ (e : ℕ). 2 ^ e) {x = k - s} {y = 0} (omega arith),
      two-pow-pos (k - (s + s)),
    )

    low : s ≤ k → k ≤ s + s → 2 ^ k ≤ smear s n + 2 ^ (k - (s + s))
    low h g = omega (
      arith,
      pow-split k s h,
      two-pow-pos (k - (s + s)),
      smear_low s (k - s) n (omega arith) (omega (arith, pow-split k s h, t.fits))
          (omega (arith, pow-split k s h, t.ones)),
    )

    high : s + s ≤ k → 2 ^ k ≤ smear s n + 2 ^ (k - (s + s))
    high h = omega (
      arith,
      twice,
      smear_high s (k - (s + s)) n (omega (arith, twice, t.fits)) (omega (arith, twice, t.ones)),
    )
      where
        rest : 2 ^ (k - s) ≡ 2 ^ s * 2 ^ (k - (s + s))
        rest =
            pow-split (k - s) s (omega arith)
            ∙ ap (λ (e : ℕ). 2 ^ s * 2 ^ e) {x = k - s - s} {y = k - (s + s)} (omega arith)

        twice :
            (2 ^ k ≡ 2 ^ s * (2 ^ s * 2 ^ (k - (s + s))))
            × (2 ^ (k - s) ≡ 2 ^ s * 2 ^ (k - (s + s)))
        twice = (pow-split k s (omega arith) ∙ ap (λ (t : ℕ). 2 ^ s * t) rest, rest)

    ones : 2 ^ k ≤ smear s n + 2 ^ (k - (s + s))
    ones = elim (lt-cases k (s + s)) [
      | inl p ↦ elim (lt-cases k s) [ inl q ↦ short (omega arith) | inr q ↦ low q (omega arith) ]
      | inr p ↦ high p
    ]
