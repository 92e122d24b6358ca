-- ===== src/Buddy/Pair.antt =====
-- A block and its buddy, the two halves of a block of the next order.
use native.Mathlib.Nat.{div-add-mod', mul-mod_left}
use lilac_os.Base.{
  ℕ, suc, ◌+◌, ◌-◌, ◌*◌, ◌/◌, ◌%◌, ◌^◌, min, bit_xor, ◌≡◌, ◌⊎◌, sym, ap, ◌∙◌, arith, inl, inr,
  eq-cases,
}
use lilac_os.Word.Pow.{two-pow-suc, two-pow-pos}
use lilac_os.Word.Bits.{bit_xor-flip}
use lilac_os.Buddy.Cover.{inside}

-- `other` is the buddy of `block`: the two are the halves of the block of the next order at `low`.
pub record IsBuddy (block other low order : ℕ) : Type 0 where
  pub aligned : low % 2 ^ suc order ≡ 0
  pub halves :
      ((low ≡ block) × (other ≡ block + 2 ^ order)) ⊎ ((low ≡ other) × (block ≡ other + 2 ^ order))

pub buddy_lem :
    (block order : ℕ)
    → block % 2 ^ order ≡ 0
    → IsBuddy block (bit_xor block (2 ^ order)) (min block (bit_xor block (2 ^ order))) order
buddy_lem block order e = elim (eq-cases (q % 2) 0) [
  | inl even ↦
      let right : other ≡ 2 * (m * 2 ^ order) + 2 ^ order = omega (
        arith,
        flip,
        ap (λ (t : ℕ). t * 2 ^ order) {x = q + 1 - 2 * (q % 2)} {y = 2 * m + 1} (omega arith),
      ) in
      let left : block ≡ 2 * (m * 2 ^ order) =
        omega (arith, product, ap (λ (t : ℕ). t * 2 ^ order) {x = q} {y = 2 * m} (omega arith)) in
      record {
        aligned = aligned (omega (arith, two-pow-suc-m));
        halves = inl (omega arith, omega arith);
      }
  | inr odd ↦
      let left : other ≡ 2 * (m * 2 ^ order) = omega (
        arith,
        flip,
        ap (λ (t : ℕ). t * 2 ^ order) {x = q + 1 - 2 * (q % 2)} {y = 2 * m} (omega arith),
      ) in
      let right : block ≡ 2 * (m * 2 ^ order) + 2 ^ order =
        omega
          (arith, product, ap (λ (t : ℕ). t * 2 ^ order) {x = q} {y = 2 * m + 1} (omega arith)) in
      record {
        aligned = aligned (omega (arith, two-pow-suc-m));
        halves = inr (omega arith, omega arith);
      }
]
  where
    q : ℕ
    q = block / 2 ^ order

    m : ℕ
    m = q / 2

    other : ℕ
    other = bit_xor block (2 ^ order)

    product : block ≡ q * 2 ^ order
    product = omega (arith, div-add-mod' block (2 ^ order))

    flip : other ≡ (q + 1 - 2 * (q % 2)) * 2 ^ order
    flip = ap (λ b. bit_xor b (2 ^ order)) product ∙ bit_xor-flip order q

    two-pow-suc-m : m * 2 ^ suc order ≡ 2 * (m * 2 ^ order)
    two-pow-suc-m = omega (arith, ap (λ (t : ℕ). m * t) (two-pow-suc order))

    aligned : min block other ≡ m * 2 ^ suc order → min block other % 2 ^ suc order ≡ 0
    aligned h = ap (λ t. t % 2 ^ suc order) h ∙ mul-mod_left m (2 ^ suc order)

pub inside-low :
    {block other low order : ℕ} (x : ℕ)
    → IsBuddy block other low order
    → inside low (suc order) x ≡ inside block order x + inside other order x
inside-low {block} {other} {low} {order} x b =
    ground (arith, b.halves, two-pow-suc order, two-pow-pos order)

-- The buddy of the buddy is the block.
pub buddy_twice :
    (block order : ℕ)
    → block % 2 ^ order ≡ 0
    → bit_xor (bit_xor block (2 ^ order)) (2 ^ order) ≡ block
buddy_twice block order e =
    let q : ℕ = block / 2 ^ order in
    let other : ℕ = q + 1 - 2 * (q % 2) in
    let product : block ≡ q * 2 ^ order = omega (arith, e, div-add-mod' block (2 ^ order)) in
    let back : other + 1 - 2 * (other % 2) ≡ q = omega arith in
    ap (λ b. bit_xor (bit_xor b (2 ^ order)) (2 ^ order)) product
    ∙ (ap (λ b. bit_xor b (2 ^ order)) (bit_xor-flip order q)
        ∙ (bit_xor-flip order other ∙ (ap (λ t. t * 2 ^ order) back ∙ sym product)))
