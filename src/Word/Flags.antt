-- ===== src/Word/Flags.antt =====
-- Single bits of a word: testing, setting and clearing bit `o` by `&`, `|` and `& ~`.
use native.Mathlib.Nat.{div-div-eq-div-mul}
use lilac_os.Base.{
  ℕ, zero, suc, ◌+◌, ◌-◌, ◌*◌, ◌/◌, ◌%◌, ◌^◌, ◌≤◌, ◌<◌, bit_and, bit_or, ◌≡◌, sym, inl, inr,
  eq-cases, ap, ◌∙◌, arith, ◌==◌, if◌then◌else◌,
}
use lilac_os.Word.Pow.{two-pow-suc, two-pow-pos, two-pow-lt}
use lilac_os.Word.Bits.{bit_or_step, bit_and_step, bit_or-zero, bit_and-zero, bit_and-ones}

-- bit `o` of `w`, as 0 or 1
unfoldable pub bit : ℕ → ℕ → ℕ
bit w o = w / 2 ^ o % 2

pub bit_zero : (w : ℕ) → bit w 0 ≡ w % 2
unfolding bit
bit_zero w = omega arith

pub bit-suc : (w o : ℕ) → bit w (suc o) ≡ bit (w / 2) o
unfolding bit
bit-suc w o =
    ap (λ t. t % 2) (ap (λ t. w / t) (two-pow-suc o) ∙ sym (div-div-eq-div-mul w 2 (2 ^ o)))

pub bit-lt : (w o : ℕ) → bit w o < 2
unfolding bit
bit-lt w o = omega arith

-- `w & (1 << o)`
pub bit_and-flag : (o w : ℕ) → bit_and w (2 ^ o) ≡ bit w o * 2 ^ o
bit_and-flag zero w = omega (arith, bit_and_step w 1, bit_and-zero (w / 2), bit_zero w)
bit_and-flag (suc o) w = ground (
  arith,
  bit_and_step w (2 ^ suc o),
  two-pow-suc o,
  bit-suc w o,
  ap (λ (t : ℕ). bit (w / 2) o * t) (two-pow-suc o),
  bit_and-flag o (w / 2),
)

pub flag_clear : (o w : ℕ) → (bit_and w (2 ^ o) == 0) ≡ (bit w o == 0)
flag_clear o w = elim (eq-cases (bit w o) 0) [
  | inl e ↦ ground (arith, bit_and-flag o w, e)
  | inr ne ↦
      let one : bit w o ≡ 1 = omega (arith, bit-lt w o) in
      rw (bit_and-flag o w, one) (ground (arith, two-pow-pos o))
]

-- `w | (1 << o)` where the bit is clear
pub bit_or-flag : (o w : ℕ) → bit w o ≡ 0 → bit_or w (2 ^ o) ≡ w + 2 ^ o
bit_or-flag zero w h = omega (arith, bit_or_step w 1, bit_or-zero (w / 2), bit_zero w, h)
bit_or-flag (suc o) w h =
    ground (arith, bit_or_step w (2 ^ suc o), two-pow-suc o, bit-suc w o, bit_or-flag o (w / 2))

pub bit-set : (o p w : ℕ) → bit w o ≡ 0 → bit (w + 2 ^ o) p ≡ (if o == p then 1 else bit w p)
bit-set zero zero w h = omega (arith, bit_zero w, bit_zero (w + 1))
bit-set zero (suc p) w h = ground (
  arith,
  bit_zero w,
  bit-suc w p,
  bit-suc (w + 1) p,
  ap (λ t. bit t p) {x = (w + 1) / 2} {y = w / 2} (omega (arith, bit_zero w)),
)
bit-set (suc o) zero w h = ground (arith, two-pow-suc o, bit_zero w, bit_zero (w + 2 ^ suc o))
bit-set (suc o) (suc p) w h = ground (
  arith,
  bit-suc w o,
  bit-suc w p,
  bit-suc (w + 2 ^ suc o) p,
  ap (λ t. bit t p) {x = (w + 2 ^ suc o) / 2} {y = w / 2 + 2 ^ o} (omega (arith, two-pow-suc o)),
  bit-set o p (w / 2),
)

flag_double : (w o : ℕ) → bit w (suc o) * 2 ^ suc o ≡ 2 * (bit (w / 2) o * 2 ^ o)
flag_double w o = omega (
  arith,
  ap (λ (t : ℕ). t * 2 ^ suc o) (bit-suc w o),
  ap (λ (t : ℕ). bit (w / 2) o * t) (two-pow-suc o),
)

pub bit-le : (w o : ℕ) → bit w o * 2 ^ o ≤ w
bit-le w zero = omega (arith, bit_zero w)
bit-le w (suc o) = omega (arith, flag_double w o, bit-le (w / 2) o)

-- `w & ~(1 << o)` on words of `n` bits
pub bit_and-clear :
    (n o w : ℕ) → o < n → w < 2 ^ n → bit_and w (2 ^ n - 1 - 2 ^ o) ≡ w - bit w o * 2 ^ o
bit_and-clear zero o w p h = absurd (omega arith)
bit_and-clear (suc n) zero w p h = ground (
  arith,
  bit_and_step w (2 ^ suc n - 1 - 1),
  two-pow-suc n,
  two-pow-pos n,
  bit_zero w,
  bit_and-ones n (w / 2) (omega (arith, two-pow-suc n)),
)
bit_and-clear (suc n) (suc o) w p h = rw (flag_double w o) (
    omega (
      arith,
      bit_and_step w (2 ^ suc n - 1 - 2 ^ suc o),
      two-pow-suc n,
      two-pow-suc o,
      two-pow-lt {a = o} {b = n} (omega arith),
      ap (bit_and (w / 2)) {x = (2 ^ suc n - 1 - 2 ^ suc o) / 2} {y = 2 ^ n - 1 - 2 ^ o}
          (omega (arith, two-pow-suc n, two-pow-suc o)),
      bit-le (w / 2) o,
      bit_and-clear n o (w / 2) (omega arith) (omega (arith, two-pow-suc n)),
    ))

pub bit-reset : (o p w : ℕ) → bit (w - bit w o * 2 ^ o) p ≡ (if o == p then 0 else bit w p)
bit-reset zero zero w = omega (arith, bit_zero w, bit_zero (w - bit w 0 * 1))
bit-reset zero (suc p) w = ground (
  arith,
  bit-suc w p,
  bit-suc (w - bit w 0 * 1) p,
  ap (λ t. bit t p) {x = (w - bit w 0 * 1) / 2} {y = w / 2} (omega (arith, bit_zero w)),
)
bit-reset (suc o) zero w =
    ground (
      arith,
      bit_zero w,
      bit_zero (w - bit w (suc o) * 2 ^ suc o),
      flag_double w o,
      bit-le w (suc o),
    )
bit-reset (suc o) (suc p) w = ground (
  arith,
  bit-suc w p,
  bit-suc (w - bit w (suc o) * 2 ^ suc o) p,
  ap (λ t. bit t p) {x = (w - bit w (suc o) * 2 ^ suc o) / 2} {y = w / 2 - bit (w / 2) o * 2 ^ o}
      (omega (arith, flag_double w o, bit-le w (suc o))),
  bit-reset o p (w / 2),
)

-- A word of `n` bits is all ones exactly where each of its bits is.
pub bit-ones : (n o : ℕ) → o < n → bit (2 ^ n - 1) o ≡ 1
bit-ones zero o p = absurd (omega arith)
bit-ones (suc n) zero p = omega (arith, bit_zero (2 ^ suc n - 1), two-pow-suc n, two-pow-pos n)
bit-ones (suc n) (suc o) p = ground (
  arith,
  bit-suc (2 ^ suc n - 1) o,
  ap (λ t. bit t o) {x = (2 ^ suc n - 1) / 2} {y = 2 ^ n - 1}
      (omega (arith, two-pow-suc n, two-pow-pos n)),
  bit-ones n o,
)
