-- ===== src/Word/Pow.antt =====
-- Powers of two.
use native.Mathlib.Nat.{pow-suc, pow-le-pow_right, one-le-pow}
use lilac_os.Base.{ℕ, zero, suc, ◌+◌, ◌-◌, ◌∙◌, ◌*◌, ◌^◌, ◌≤◌, ◌<◌, ◌≡◌, ap, arith}

pub two-pow-suc : (k : ℕ) → 2 ^ suc k ≡ 2 * 2 ^ k
two-pow-suc k = omega (arith, pow-suc 2 k)

pub two-pow-pos : (k : ℕ) → 0 < 2 ^ k
two-pow-pos k = one-le-pow k 2 (omega arith)

pub pow-add : (a b : ℕ) → 2 ^ (a + b) ≡ 2 ^ a * 2 ^ b
pow-add zero b = omega (arith, ap (λ (n : ℕ). 2 ^ n) {x = 0 + b} {y = b} (omega arith))
pow-add (suc a) b = omega (
  arith,
  ap (λ (n : ℕ). 2 ^ n) {x = suc a + b} {y = suc (a + b)} (omega arith),
  two-pow-suc (a + b),
  two-pow-suc a,
  ap (λ (n : ℕ). 2 * n) (pow-add a b),
  ap (λ (n : ℕ). n * 2 ^ b) (two-pow-suc a),
)

pub two-pow-le : {a b : ℕ} → a ≤ b → 2 ^ a ≤ 2 ^ b
two-pow-le h = pow-le-pow_right (omega arith) h

pub two-pow-lt : {a b : ℕ} → a < b → 2 * 2 ^ a ≤ 2 ^ b
two-pow-lt {a} {b} h = omega (arith, two-pow-suc a, two-pow-le {a = suc a} {b = b} h)

pub pow-split : (k s : ℕ) → s ≤ k → 2 ^ k ≡ 2 ^ s * 2 ^ (k - s)
pow-split k s h = ap (λ (n : ℕ). 2 ^ n) {x = k} {y = s + (k - s)} (omega arith) ∙ pow-add s (k - s)
