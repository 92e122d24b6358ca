-- ===== src/Printf/Pointers.antt =====
-- The sixteen digits of `printptr`, read back.
use native.Mathlib.Nat.{pow-suc, pow-zero, one-le-pow, add-mul-div_right, div-div-eq-div-mul}
use lilac_os.Base.{
  ℕ, zero, suc, ◌+◌, ◌*◌, ◌/◌, ◌%◌, ◌^◌, ◌<◌, ◌≡◌, ◌∙◌, refl, sym, ap, List, [], ◌∷◌, Option, some,
  length, arith,
}
use lilac_os.Printf.{ptr_loop, printptr}
use lilac_os.Printf.Digits.{value, digit-IsInTable}

-- The loop puts out `n` digits, which stand for the upper part of `x`.
record IsHex (n k x : ℕ) (result : Option (List ℕ)) : Type 0 where
  out : List ℕ
  returns : result ≡ some out
  many : length out ≡ n
  reads : value 16 out ≡ x / 16 ^ k

-- `0x` and sixteen digits that stand for `x`
pub record IsPointer (x : ℕ) (result : Option (List ℕ)) : Type 0 where
  pub digits : List ℕ
  pub returns : result ≡ some (48 ∷ 120 ∷ digits)
  pub many : length digits ≡ 16
  pub reads : value 16 digits ≡ x

powers : (n k : ℕ) → n + k ≡ 15 → 16 ^ n * 16 ^ k ≡ 2 ^ 60
powers zero k h = omega (
  arith,
  ap (λ t. 16 ^ t) {x = k} {y = 15} (omega (arith, h)),
  ap (λ t. t * 16 ^ k) (pow-zero 16),
)
powers (suc n) k h =
    let rest = powers n (suc k) (omega (arith, h)) in
    omega (arith, rest, ap (λ t. t * 16 ^ k) (pow-suc 16 n), ap (λ t. 16 ^ n * t) (pow-suc 16 k))

lower_part : (k a : ℕ) → a * 16 / 16 ^ suc k ≡ a / 16 ^ k
lower_part k a =
    let order : 16 ^ suc k ≡ 16 * 16 ^ k = omega (arith, pow-suc 16 k) in
    let cancel : a * 16 / 16 ≡ a = omega arith in
    ap (λ t. a * 16 / t) order
    ∙ (sym (div-div-eq-div-mul (a * 16) 16 (16 ^ k)) ∙ ap (λ t. t / 16 ^ k) cancel)

upper_part : (n k x : ℕ) → n + k ≡ 15 → x / 2 ^ 60 * 16 ^ n + x % 2 ^ 60 / 16 ^ k ≡ x / 16 ^ k
upper_part n k x h =
    let whole : x ≡ x % 2 ^ 60 + x / 2 ^ 60 * 16 ^ n * 16 ^ k =
      omega (arith, ap (λ t. x / 2 ^ 60 * t) (powers n k h)) in
    omega (
      arith,
      ap (λ t. t / 16 ^ k) whole,
      add-mul-div_right (x % 2 ^ 60) (x / 2 ^ 60 * 16 ^ n) (one-le-pow k 16 (omega arith)),
    )

ptr_loop_lem : (n k x : ℕ) → n + k ≡ 16 → x < 2 ^ 64 → IsHex n k x (ptr_loop n x)
unfolding ptr_loop value
ptr_loop_lem zero k x h low =
    let last : k ≡ 16 = omega (arith, h) in
    record { out = []; returns = refl; many = refl; reads = rw last (omega arith) }
ptr_loop_lem (suc n) k x h low =
    let d = digit-IsInTable (x / 2 ^ 60) (omega arith) in
    let rest = ptr_loop_lem n (suc k) (x * 2 ^ 4 % 2 ^ 64) (omega (arith, h)) (omega arith) in
    let shifted : x * 2 ^ 4 % 2 ^ 64 ≡ x % 2 ^ 60 * 16 = omega arith in
    rw (d.found, rest.returns)
      (record {
        out = d.byte ∷ rest.out;
        returns = refl;
        many = omega (arith, rest.many);
        reads =
            rw (rest.reads, rest.many, d.means, shifted, lower_part k (x % 2 ^ 60))
              (upper_part n k x (omega (arith, h)));
      })

-- For each 64-bit number, printptr puts out 0x and sixteen digits that stand for the number.
pub printptr_lem : (x : ℕ) → x < 2 ^ 64 → IsPointer x (printptr x)
unfolding printptr
printptr_lem x low =
    let p = ptr_loop_lem 16 0 x (omega arith) low in
    let whole : x / 16 ^ 0 ≡ x = omega arith in
    rw p.returns (record { digits = p.out; returns = refl; many = p.many; reads = p.reads ∙ whole })
