-- ===== src/Buddy/Sizes.antt =====
-- The rounding of sizes to powers of two, and the orders of sizes.
use lilac_os.Base.{
  ℕ, zero, suc, ◌+◌, ◌-◌, ◌*◌, ◌/◌, ◌%◌, ◌^◌, ◌≤◌, ◌<◌, ◌≡◌, ◌∙◌, ◌≢◌, ◌⊎◌, inl, inr, refl, ap,
  subst, arith, lt-cases, eq-cases, zero-cases,
}
use lilac_os.Word.{sub64}
use lilac_os.Word.Pow.{two-pow-suc, two-pow-pos, two-pow-le, pow-split}
use lilac_os.Buddy.{smear, next_power_of_two, prev_power_of_two, order_loop, get_order, adjust_size}
use lilac_os.Buddy.Smear.{TopOnes, smear-TopOnes}

-- The number of bits of `n`.
bit_length : (f n : ℕ) → n < 2 ^ f → (k : ℕ) × (k ≤ f) × (n < 2 ^ k) × (2 ^ k ≤ 2 * n + 1)
bit_length zero n h = (0, omega arith, h, omega arith)
bit_length (suc f) n h = elim (lt-cases n (2 ^ f)) [
  | inl p ↦ let (k, le, fits, tight) = bit_length f n p in (k, omega arith, fits, tight)
  | inr p ↦ (suc f, omega arith, h, omega (arith, two-pow-suc f))
]

smear_all : ℕ → ℕ
smear_all n = smear 32 (smear 16 (smear 8 (smear 4 (smear 2 (smear 1 n)))))

smear_all_ones : (k n : ℕ) → k ≤ 64 → n < 2 ^ k → 2 ^ k ≤ 2 * n + 1 → smear_all n + 1 ≡ 2 ^ k
unfolding smear_all
smear_all_ones k n le fits tight =
    omega (arith, last.fits, last.ones, ap (λ (e : ℕ). 2 ^ e) {x = k - 64} {y = 0} (omega arith))
  where
    first : 2 ^ k ≤ n + 2 ^ (k - 1)
    first = elim (zero-cases k) [
      | inl e ↦ rw e (omega arith)
      | inr p ↦ omega (arith, pow-split k 1 p)
    ]

    last : TopOnes k 64 (smear 32 (smear 16 (smear 8 (smear 4 (smear 2 (smear 1 n))))))
    last = smear-TopOnes k 32 _ (
        smear-TopOnes k 16 _ (
          smear-TopOnes k 8 _ (
            smear-TopOnes k 4 _
              (smear-TopOnes k 2 _ (smear-TopOnes k 1 n (record { fits = fits; ones = first }))))))

next-smear_all :
    (size : ℕ)
    → 0 < size
    → size ≤ 2 ^ 64
    → next_power_of_two size ≡ (smear_all (size - 1) + 1) % 2 ^ 64
unfolding next_power_of_two smear_all
next-smear_all size pos le = ap (λ n. (smear_all n + 1) % 2 ^ 64) {x = sub64 size 1} (omega arith)

-- What `next_power_of_two` returns: `2 ^ k` with `size` above its half and not above it.
pub record IsRoundUp (size k : ℕ) : Type 0 where
  pub small : k ≤ 63
  pub returns : next_power_of_two size ≡ 2 ^ k
  pub above : size ≤ 2 ^ k
  pub tight : 2 ^ k < 2 * size

-- A size from 1 to 2^63 has a next power of two.
pub next_power_of_two-IsRoundUp : (size : ℕ) → 0 < size → size ≤ 2 ^ 63 → (k : ℕ) × IsRoundUp size k
next_power_of_two-IsRoundUp size pos le =
    let (k, small, fits, tight) = bit_length 63 (size - 1) (omega arith) in
    (
      k,
      record {
        small = small;
        returns = omega (
          arith,
          next-smear_all size pos (omega arith),
          smear_all_ones k (size - 1) (omega arith) fits tight,
          two-pow-le {a = k} {b = 63} small,
        );
        above = omega arith;
        tight = omega arith;
      },
    )

-- Zero, and sizes above 2^63, wrap round to zero.
pub next_wraps :
    (size : ℕ) → size < 2 ^ 64 → (size ≡ 0) ⊎ (2 ^ 63 < size) → next_power_of_two size ≡ 0
unfolding next_power_of_two smear_all
next_wraps size h (inl e) = rw e
next_wraps size h (inr big) = omega (
  arith,
  next-smear_all size (omega arith) (omega arith),
  smear_all_ones 64 (size - 1) (omega arith) (omega arith) (omega arith),
)

-- What `prev_power_of_two` returns: `2 ^ k` with `size` not below it and below its double.
pub record IsRoundDown (size k : ℕ) : Type 0 where
  pub small : k ≤ 63
  pub returns : prev_power_of_two size ≡ 2 ^ k
  pub below : 2 ^ k ≤ size
  pub tight : size < 2 * 2 ^ k

IsRoundDown-same : (size k : ℕ) → IsRoundUp size k → size ≡ 2 ^ k → IsRoundDown size k
IsRoundDown-same size k next e = record {
  small = next.small;
  returns = unfold prev_power_of_two in ground (arith, next.returns);
  below = omega arith;
  tight = omega (arith, two-pow-pos k);
}

IsRoundDown-half : (size k : ℕ) → IsRoundUp size (suc k) → size ≢ 2 ^ suc k → IsRoundDown size k
IsRoundDown-half size k next ne = record {
  small = omega (arith, next.small);
  returns = unfold prev_power_of_two in ground (arith, next.returns, two-pow-suc k);
  below = omega (arith, next.tight, two-pow-suc k);
  tight = omega (arith, next.above, two-pow-suc k);
}

IsRoundDown-of_next : (size k : ℕ) → 0 < size → IsRoundUp size k → (j : ℕ) × IsRoundDown size j
IsRoundDown-of_next size zero pos next =
    (0, IsRoundDown-same size 0 next (omega (arith, next.above)))
IsRoundDown-of_next size (suc k) pos next = elim (eq-cases size (2 ^ suc k)) [
  | inl e ↦ (suc k, IsRoundDown-same size (suc k) next e)
  | inr ne ↦ (k, IsRoundDown-half size k next ne)
]

-- For sizes from 1 to 2^63, prev_power_of_two returns the greatest power of two that is not
-- above the size.
pub prev_power_of_two-IsRoundDown :
    (size : ℕ) → 0 < size → size ≤ 2 ^ 63 → (k : ℕ) × IsRoundDown size k
prev_power_of_two-IsRoundDown size pos le =
    let (k, next) = next_power_of_two-IsRoundUp size pos le in IsRoundDown-of_next size k pos next

order_loop_lem :
    (fuel k size order : ℕ)
    → k < fuel
    → 2 ^ k ≤ size
    → size < 2 ^ suc k
    → order_loop fuel size order ≡ order + k
unfolding order_loop
order_loop_lem zero k size order h lo hi = absurd (omega arith)
order_loop_lem (suc fuel) zero size order h lo hi = ground arith
order_loop_lem (suc fuel) (suc k) size order h lo hi = ground (
  arith,
  two-pow-pos k,
  two-pow-suc k,
  two-pow-suc (suc k),
  order_loop_lem fuel k (size / 2) (order + 1),
)

-- get_order returns the logarithm to base two, rounded down, of every positive uint64.
pub get_order_lem : (k size : ℕ) → k < 64 → 2 ^ k ≤ size → size < 2 ^ suc k → get_order size ≡ k
unfolding get_order
get_order_lem k size h lo hi = omega (arith, order_loop_lem 64 k size 0 h lo hi)

pub get_order_pow : (k : ℕ) → k < 64 → get_order (2 ^ k) ≡ k
get_order_pow k h =
    get_order_lem k (2 ^ k) h (omega arith) (omega (arith, two-pow-suc k, two-pow-pos k))

-- The block that serves a size: `2 ^ k`, at least eight bytes and at least the size.
pub record IsBlockSize (size k : ℕ) : Type 0 where
  pub cell : 3 ≤ k
  pub small : k ≤ 63
  pub returns : adjust_size size ≡ 2 ^ k
  pub order : get_order (adjust_size size) ≡ k
  pub above : size ≤ 2 ^ k
  pub tight : (k ≡ 3) ⊎ (2 ^ k < 2 * size)

adjust_below : (size k : ℕ) → IsRoundUp size k → k < 3 → adjust_size size ≡ 2 ^ 3
unfolding adjust_size
adjust_below size k next p = omega (arith, next.returns, two-pow-le {a = k} {b = 3} (omega arith))

adjust_above : (size k : ℕ) → IsRoundUp size k → 3 ≤ k → adjust_size size ≡ 2 ^ k
unfolding adjust_size
adjust_above size k next p = omega (arith, next.returns, two-pow-le {a = 3} {b = k} p)

block_of_next : (size k : ℕ) → IsRoundUp size k → (j : ℕ) × IsBlockSize size j
block_of_next size k next = elim (lt-cases k 3) [
  | inl p ↦ (
    3,
    record {
      cell = omega arith;
      small = omega arith;
      returns = adjust_below size k next p;
      order = ap get_order (adjust_below size k next p) ∙ get_order_pow 3 (omega arith);
      above = omega (arith, next.above, two-pow-le {a = k} {b = 3} (omega arith));
      tight = inl refl;
    },
  )
  | inr p ↦ (
    k,
    record {
      cell = p;
      small = next.small;
      returns = adjust_above size k next p;
      order =
          ap get_order (adjust_above size k next p) ∙ get_order_pow k (omega (arith, next.small));
      above = next.above;
      tight = inr next.tight;
    },
  )
]

-- Every size from 1 to 2^63 is adjusted to a power of two that is at least 8 and at least the
-- size, and is 8 or below twice the size, and get_order returns its exponent.
pub block_size : (size : ℕ) → 0 < size → size ≤ 2 ^ 63 → (k : ℕ) × IsBlockSize size k
block_size size pos le =
    let (k, next) = next_power_of_two-IsRoundUp size pos le in block_of_next size k next

-- A size of zero, or one above 2^63, is adjusted to eight bytes, since next_power_of_two wraps
-- to zero.
pub adjust_wraps : (size : ℕ) → size < 2 ^ 64 → (size ≡ 0) ⊎ (2 ^ 63 < size) → adjust_size size ≡ 8
unfolding adjust_size
adjust_wraps size h c = omega (arith, next_wraps size h c)

-- The exponent of a size between two powers.
pub exact_size :
    (size k : ℕ) → 3 ≤ k → k < 63 → 2 ^ k < 2 * size → size ≤ 2 ^ k → IsBlockSize size k
exact_size size k cell small low high =
    let (j, found) =
      block_size size (omega (arith, two-pow-pos k, low))
        (omega (arith, high, two-pow-le {a = k} {b = 63} (omega (arith, small)))) in
    let agrees : j ≡ k = elim (lt-cases j k) [
      | inl p ↦ absurd (
          omega (
            arith,
            found.above,
            low,
            two-pow-suc j,
            two-pow-le {a = suc j} {b = k} (omega (arith, p)),
          ))
      | inr p ↦ elim (eq-cases j k) [
        | inl e ↦ e
        | inr ne ↦ absurd (
            omega (
              arith,
              found.tight,
              cell,
              p,
              ne,
              high,
              two-pow-suc k,
              two-pow-le {a = suc k} {b = j} (omega (arith, p, ne)),
            ))
      ]
    ] in
    subst (IsBlockSize size) agrees found
