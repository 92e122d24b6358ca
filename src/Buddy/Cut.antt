-- ===== src/Buddy/Cut.antt =====
-- The block that a round of `add_to_buddy` takes off the front of a region.
use native.Mathlib.Nat.{mul-mod_left}
use lilac_os.Base.{
  ℕ, zero, suc, ◌+◌, ◌-◌, ◌*◌, ◌/◌, ◌%◌, ◌^◌, ◌≤◌, ◌<◌, min, bit_and, ◌≡◌, ◌∙◌, ap, arith, inl, inr,
  lt-cases, eq-cases,
}
use lilac_os.Word.{sub64, add64, not64}
use lilac_os.Word.Pow.{two-pow-suc, two-pow-pos, two-pow-le, pow-split}
use lilac_os.Word.Bits.{bit_and-negation}
use lilac_os.Buddy.{max_order, region_block}
use lilac_os.Buddy.Sizes.{IsRoundDown, prev_power_of_two-IsRoundDown}

-- A positive number is an odd multiple of a power of two.
odd_part : (f n : ℕ) → 0 < n → n ≤ f → (v : ℕ) × (q : ℕ) × (n ≡ (2 * q + 1) * 2 ^ v)
odd_part zero n pos le = absurd (omega arith)
odd_part (suc f) n pos le = elim (eq-cases (n % 2) 0) [
  | inl even ↦
      let (v, q, e) = odd_part f (n / 2) (omega arith) (omega arith) in
      (suc v, q, omega (arith, e, ap (λ (t : ℕ). (2 * q + 1) * t) (two-pow-suc v)))
  | inr odd ↦ (0, n / 2, omega arith)
]

min-two-pow : (a b : ℕ) → min (2 ^ a) (2 ^ b) ≡ 2 ^ min a b
min-two-pow a b = elim (lt-cases a b) [
  | inl p ↦ omega (
    arith,
    two-pow-le {a = a} {b = b} (omega arith),
    ap (λ (e : ℕ). 2 ^ e) {x = min a b} {y = a} (omega arith),
  )
  | inr p ↦ omega (
    arith,
    two-pow-le {a = b} {b = a} p,
    ap (λ (e : ℕ). 2 ^ e) {x = min a b} {y = b} (omega arith),
  )
]

lowbit_lem :
    (current v q : ℕ)
    → current < 2 ^ 64
    → current ≡ (2 * q + 1) * 2 ^ v
    → bit_and current (add64 (not64 current) 1) ≡ 2 ^ v
lowbit_lem current v q h e =
    let wrap : add64 (not64 current) 1 ≡ 2 ^ 64 - current = omega (arith, pos) in
    rw (wrap, e) (bit_and-negation 64 v q (omega arith))
  where
    pos : 0 < current
    pos = omega (arith, two-pow-pos v)

aligned_below : (current v q k : ℕ) → current ≡ (2 * q + 1) * 2 ^ v → k ≤ v → current % 2 ^ k ≡ 0
aligned_below current v q k e le =
    ap (λ t. t % 2 ^ k) multiple ∙ mul-mod_left ((2 * q + 1) * 2 ^ (v - k)) (2 ^ k)
  where
    multiple : current ≡ (2 * q + 1) * 2 ^ (v - k) * 2 ^ k
    multiple = omega (arith, e, ap (λ (t : ℕ). (2 * q + 1) * t) (pow-split v k le))

-- The part of a region that is still to be cut: between two multiples of eight, below 2^30 bytes.
pub record IsRegion (current end : ℕ) : Type 0 where
  pub pos : 0 < current
  pub le : current ≤ end
  pub bound : end < 2 ^ 64
  pub short : end - current < 2 ^ 30
  pub start_aligned : current % 8 ≡ 0
  pub end_aligned : end % 8 ≡ 0

-- What a round takes: an aligned block of a cell or more that fits the region.
pub record IsCut (current end k : ℕ) : Type 0 where
  pub cell : 3 ≤ k
  pub bound : k < max_order
  pub returns : region_block current end ≡ 2 ^ k
  pub aligned : current % 2 ^ k ≡ 0
  pub fits : current + 2 ^ k ≤ end
  pub rest_aligned : (current + 2 ^ k) % 8 ≡ 0

exponent-ge : (n v q : ℕ) → n % 8 ≡ 0 → n ≡ (2 * q + 1) * 2 ^ v → 3 ≤ v
exponent-ge n zero q m e = absurd (omega arith)
exponent-ge n (suc zero) q m e = absurd (omega arith)
exponent-ge n (suc (suc zero)) q m e = absurd (omega arith)
exponent-ge n (suc (suc (suc v))) q m e = omega arith

IsCut-exponents :
    (current end v q p : ℕ)
    → IsRegion current end
    → current < end
    → current ≡ (2 * q + 1) * 2 ^ v
    → IsRoundDown (end - current) p
    → IsCut current end (min v (min p max_order))
IsCut-exponents current end v q p g lt e prev = record {
  cell = omega (arith, three, exponent-ge current v q g.start_aligned e);
  bound = omega (arith, thirty);
  returns = returns;
  aligned = aligned_below current v q (min v (min p max_order)) e (omega arith);
  fits = omega (arith, prev.below, two-pow-le {a = min v (min p max_order)} {b = p} (omega arith));
  rest_aligned = omega (
    arith,
    g.start_aligned,
    pow-split (min v (min p max_order)) 3
        (omega (arith, three, exponent-ge current v q g.start_aligned e)),
  );
}
  where
    three : 3 ≤ p
    three = elim (lt-cases p 3) [
      | inl small ↦ absurd (
          omega (
            arith,
            prev.tight,
            two-pow-le {a = p} {b = 2} (omega arith),
            g.start_aligned,
            g.end_aligned,
          ))
      | inr large ↦ large
    ]

    thirty : p < 30
    thirty = elim (lt-cases p 30) [
      | inl small ↦ small
      | inr large ↦ absurd (omega (arith, prev.below, two-pow-le {a = 30} {b = p} large, g.short))
    ]

    rest : sub64 end current ≡ end - current
    rest = omega (arith, g.bound)

    returns : region_block current end ≡ 2 ^ min v (min p max_order)
    returns =
        unfold region_block in
        (rw (rest, prev.returns, lowbit_lem current v q (omega (arith, g.bound)) e, min-two-pow)
          (min-two-pow v (min p max_order)))

pub region-IsCut :
    (current end : ℕ) → IsRegion current end → current < end → (k : ℕ) × IsCut current end k
region-IsCut current end g lt =
    let (v, q, e) = odd_part current current g.pos (omega arith) in
    let (p, prev) =
      prev_power_of_two-IsRoundDown (end - current) (omega arith) (omega (arith, g.bound)) in
    (min v (min p max_order), IsCut-exponents current end v q p g lt e prev)
