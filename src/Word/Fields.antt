-- ===== src/Word/Fields.antt =====
-- Words made of a field behind `k` low bits.
use lilac_os.Base.{ℕ, zero, suc, ◌+◌, ◌*◌, ◌/◌, ◌^◌, ◌<◌, bit_and, bit_or, ◌≡◌, ap, arith}
use lilac_os.Word.Pow.{two-pow-suc, two-pow-pos}
use lilac_os.Word.Bits.{bit_or_step, bit_and_step, bit_or-zero, bit_and-zero}

-- Or with a number of `k` bits fills the low bits of a field behind them.
pub bit_or-field : (k q r : ℕ) → r < 2 ^ k → bit_or (q * 2 ^ k) r ≡ q * 2 ^ k + r
bit_or-field zero q r h = let e : r ≡ 0 = omega arith in rw e (ground (arith, bit_or-zero q))
bit_or-field (suc k) q r h = ground (
  arith,
  bit_or_step (q * 2 ^ suc k) r,
  two-pow-suc k,
  two-pow-pos k,
  ap (λ (t : ℕ). q * t) (two-pow-suc k),
  bit_or-field k q (r / 2) (omega (arith, two-pow-suc k)),
)

-- And with a number of `k` bits reads the low bits alone.
pub bit_and-field : (k q r m : ℕ) → r < 2 ^ k → m < 2 ^ k → bit_and (q * 2 ^ k + r) m ≡ bit_and r m
bit_and-field zero q r m h g =
    let e : r ≡ 0 = omega arith in
    let f : m ≡ 0 = omega arith in rw (e, f) (ground (arith, bit_and-zero (q * 2 ^ 0 + 0)))
bit_and-field (suc k) q r m h g = ground (
  arith,
  bit_and_step (q * 2 ^ suc k + r) m,
  bit_and_step r m,
  two-pow-suc k,
  two-pow-pos k,
  ap (λ (t : ℕ). q * t) (two-pow-suc k),
  bit_and-field k q (r / 2) (m / 2) (omega (arith, two-pow-suc k)) (omega (arith, two-pow-suc k)),
)
