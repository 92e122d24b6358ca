-- ===== src/Word/Bits.antt =====
-- The bit operations at variables, by their recursion on binary digits.
use Prim.Native.Nat.{digits, bitwise, differ, bit_and-bitwise, bit_or-bitwise, bit_xor-bitwise}
use lilac_os.Base.{
  ℕ, zero, suc, ◌+◌, ◌-◌, ◌*◌, ◌/◌, ◌%◌, ◌^◌, ◌≤◌, ◌<◌, min, max, bit_and, bit_or, bit_xor, ◌≡◌,
  refl, ap, arith,
}
use lilac_os.Word.Pow.{two-pow-suc, two-pow-pos}

-- `digits` on any fuel that is not below its first argument is `bitwise`, so one digit splits off.
module _ (rest : ℕ → ℕ) (join : ℕ → ℕ → ℕ) where
  digits-fuel_irrelevant :
      (big fuel : ℕ)
      → fuel ≤ big
      → (x y : ℕ) → x ≤ fuel
      → digits rest join big x y ≡ digits rest join fuel x y
  digits-fuel_irrelevant zero zero more zero y low = refl
  digits-fuel_irrelevant (suc big) zero more zero y low = refl
  digits-fuel_irrelevant (suc big) (suc fuel) more zero y low = refl
  digits-fuel_irrelevant zero (suc fuel) more x y low = absurd (omega arith)
  digits-fuel_irrelevant big zero more (suc x) y low = absurd (omega arith)
  digits-fuel_irrelevant (suc big) (suc fuel) more (suc x) y low =
      rw (digits-fuel_irrelevant big fuel (omega arith) (suc x / 2) (y / 2) (omega arith))

  bitwise-lowest :
      (x y : ℕ)
      → bitwise rest join (suc x) y
        ≡ join (suc x % 2) (y % 2) + 2 * bitwise rest join (suc x / 2) (y / 2)
  bitwise-lowest x y =
      let half = suc x / 2 in
      omega (arith, digits-fuel_irrelevant x half (omega arith) half (y / 2) (omega arith))

pub bit_and_step : (x y : ℕ) → bit_and x y ≡ bit_and (x / 2) (y / 2) * 2 + min (x % 2) (y % 2)
bit_and_step zero y = simp bit_and-bitwise (omega arith)
bit_and_step (suc x) y = simp bit_and-bitwise (omega (arith, bitwise-lowest (λ low. 0) min x y))

pub bit_or_step : (x y : ℕ) → bit_or x y ≡ bit_or (x / 2) (y / 2) * 2 + max (x % 2) (y % 2)
bit_or_step zero y = simp bit_or-bitwise (omega arith)
bit_or_step (suc x) y = simp bit_or-bitwise (omega (arith, bitwise-lowest (λ low. low) max x y))

differ_digits : (x y : ℕ) → x < 2 → y < 2 → differ x y ≡ (x + y) % 2
differ_digits zero y p q = omega arith
differ_digits (suc zero) zero p q = refl
differ_digits (suc zero) (suc zero) p q = refl
differ_digits (suc zero) (suc (suc y)) p q = absurd (omega arith)
differ_digits (suc (suc x)) y p q = absurd (omega arith)

pub bit_xor_step : (a b : ℕ) → bit_xor a b ≡ bit_xor (a / 2) (b / 2) * 2 + (a % 2 + b % 2) % 2
bit_xor_step zero b = simp bit_xor-bitwise (omega arith)
bit_xor_step (suc a) b = simp bit_xor-bitwise (
    omega (
      arith,
      bitwise-lowest (λ low. low) differ a b,
      differ_digits (suc a % 2) (b % 2) (omega arith) (omega arith),
    ))

-- Induction on the binary digits.
halving_below {ℓ} :
    (P : ℕ → Type ℓ) → P 0 → ((x : ℕ) → P (suc x / 2) → P (suc x)) → (bound x : ℕ) → x ≤ bound → P x
halving_below P base up bound zero low = base
halving_below P base up zero (suc x) low = absurd (omega arith)
halving_below P base up (suc bound) (suc x) low =
    up x (halving_below P base up bound (suc x / 2) (omega arith))

halving {ℓ} : (P : ℕ → Type ℓ) → P 0 → ((x : ℕ) → P (suc x / 2) → P (suc x)) → (x : ℕ) → P x
halving P base up x = halving_below P base up x x (omega arith)

-- The remainder and the quotient by two of each operation.
pub bit_or_half : (a b : ℕ) → bit_or a b / 2 ≡ bit_or (a / 2) (b / 2)
bit_or_half a b = omega (arith, bit_or_step a b)

pub bit_or-zero : (x : ℕ) → bit_or x 0 ≡ x
bit_or-zero =
    halving (λ x. bit_or x 0 ≡ x) refl (λ x half. omega (arith, bit_or_step (suc x) 0, half))

pub bit_or-lt : (k a b : ℕ) → a < 2 ^ k → b < 2 ^ k → bit_or a b < 2 ^ k
bit_or-lt zero a b h g =
    let e : a ≡ 0 = omega arith in let f : b ≡ 0 = omega arith in rw (e, f) (omega arith)
bit_or-lt (suc k) a b h g = omega (
  arith,
  bit_or_step a b,
  two-pow-suc k,
  bit_or-lt k (a / 2) (b / 2) (omega (arith, two-pow-suc k)) (omega (arith, two-pow-suc k)),
)

-- Or with a mask of `k` ones fills the low `k` bits.
pub bit_or-mask :
    (k q r : ℕ) → r < 2 ^ k → bit_or (q * 2 ^ k + r) (2 ^ k - 1) ≡ q * 2 ^ k + (2 ^ k - 1)
bit_or-mask zero q r h = ground (arith, bit_or-zero q)
bit_or-mask (suc k) q r h = ground (
  arith,
  bit_or_step (q * 2 ^ suc k + r) (2 ^ suc k - 1),
  two-pow-suc k,
  two-pow-pos k,
  ap (λ (t : ℕ). q * t) (two-pow-suc k),
  bit_or-mask k q (r / 2) (omega (arith, two-pow-suc k)),
)

pub bit_or-le_left : (n a b : ℕ) → a ≤ n → a ≤ bit_or a b
bit_or-le_left n zero b h = omega arith
bit_or-le_left zero (suc a) b h = absurd (omega arith)
bit_or-le_left (suc n) (suc a) b h =
    omega (arith, bit_or_step (suc a) b, bit_or-le_left n (suc a / 2) (b / 2) (omega arith))

-- A number and its negation modulo a power of two share the lowest set bit and no other.
pub bit_and-complement : (k a : ℕ) → a < 2 ^ k → bit_and a (2 ^ k - 1 - a) ≡ 0
bit_and-complement zero a h = let e : a ≡ 0 = omega arith in rw e
bit_and-complement (suc k) a h = ground (
  arith,
  bit_and_step a (2 ^ suc k - 1 - a),
  two-pow-suc k,
  bit_and-complement k (a / 2) (omega (arith, two-pow-suc k)),
)

pub bit_and-negation :
    (k v q : ℕ)
    → (2 * q + 1) * 2 ^ v < 2 ^ k
    → bit_and ((2 * q + 1) * 2 ^ v) (2 ^ k - (2 * q + 1) * 2 ^ v) ≡ 2 ^ v
bit_and-negation zero v q h = absurd (omega (arith, two-pow-pos v))
bit_and-negation (suc k) zero q h = ground (
  arith,
  bit_and_step (2 * q + 1) (2 ^ suc k - (2 * q + 1)),
  two-pow-suc k,
  bit_and-complement k q (omega (arith, two-pow-suc k)),
)
bit_and-negation (suc k) (suc v) q h = ground (
  arith,
  bit_and_step ((2 * q + 1) * 2 ^ suc v) (2 ^ suc k - (2 * q + 1) * 2 ^ suc v),
  two-pow-suc k,
  two-pow-suc v,
  ap (λ (t : ℕ). (2 * q + 1) * t) (two-pow-suc v),
  bit_and-negation k v q
      (omega (arith, two-pow-suc k, ap (λ (t : ℕ). (2 * q + 1) * t) (two-pow-suc v))),
)

pub bit_and-zero : (x : ℕ) → bit_and x 0 ≡ 0
bit_and-zero =
    halving (λ x. bit_and x 0 ≡ 0) refl (λ x half. omega (arith, bit_and_step (suc x) 0, half))

bit_xor-zero : (x : ℕ) → bit_xor x 0 ≡ x
bit_xor-zero =
    halving (λ x. bit_xor x 0 ≡ x) refl (λ x half. omega (arith, bit_xor_step (suc x) 0, half))

-- And with `k` ones keeps a number of `k` bits.
pub bit_and-ones : (k a : ℕ) → a < 2 ^ k → bit_and a (2 ^ k - 1) ≡ a
bit_and-ones zero a h = let e : a ≡ 0 = omega arith in rw e
bit_and-ones (suc k) a h = ground (
  arith,
  bit_and_step a (2 ^ suc k - 1),
  two-pow-suc k,
  two-pow-pos k,
  bit_and-ones k (a / 2) (omega (arith, two-pow-suc k)),
)

-- Flipping bit `k` of a multiple of 2 ^ k moves to the neighbour.
pub bit_xor-flip : (k q : ℕ) → bit_xor (q * 2 ^ k) (2 ^ k) ≡ (q + 1 - 2 * (q % 2)) * 2 ^ k
bit_xor-flip zero q = ground (arith, bit_xor_step (q * 1) 1, bit_xor-zero (q / 2))
bit_xor-flip (suc k) q = ground (
  arith,
  bit_xor_step (q * 2 ^ suc k) (2 ^ suc k),
  ap (λ (t : ℕ). q * t) (two-pow-suc k),
  two-pow-suc k,
  ap (λ (t : ℕ). (q + 1 - 2 * (q % 2)) * t) (two-pow-suc k),
  bit_xor-flip k q,
)
