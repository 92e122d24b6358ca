-- ===== src/Printf/Digits.antt =====
-- The digits of `printint` and `printptr`, read back.
use lilac_os.Base.{
  ℕ, ◌+◌, ◌-◌, ◌*◌, ◌/◌, ◌%◌, ◌^◌, ◌≤◌, ◌<◌, ◌≡◌, ◌≢◌, inl, inr, Bool, List, [], ◌∷◌, Option, none,
  some, length, arith, ltb, if◌then◌else◌, lt-cases, lt→ltb, le→ltb,
}
use lilac_os.Printf.{digit, is_negative}

-- the number that a digit stands for
unfoldable pub digit_value : ℕ → ℕ
digit_value c = if ltb c 58 then c - 48 else c - 87

-- the number that digits stand for, the most significant first
unfoldable pub value : ℕ → List ℕ → ℕ
value base [] = 0
value base (c ∷ s) = digit_value c * base ^ length s + value base s

unfoldable pub NoLeadingZero : List ℕ → Type 0
NoLeadingZero [] = ⊥
NoLeadingZero (c ∷ s) = c ≢ 48

-- Each byte stands in the table of digits, at the place of a digit of the base.
unfoldable pub AllDigits : ℕ → List ℕ → Type 0
AllDigits base [] = Unit
AllDigits base (c ∷ s) =
    (digit (digit_value c) ≡ some c) × (digit_value c < base) × AllDigits base s

-- Digit `k` has a byte in the table, and that byte stands for `k`.
pub record IsInTable (k : ℕ) : Type 0 where
  pub byte : ℕ
  pub found : digit k ≡ some byte
  pub means : digit_value byte ≡ k

pub digit-IsInTable : (k : ℕ) → k < 16 → IsInTable k
unfolding digit digit_value
digit-IsInTable k p = elim (lt-cases k 10) [
  | inl q ↦ record { byte = 48 + k; found = rw (lt→ltb k 10 q); means = ground arith }
  | inr q ↦ record {
    byte = 87 + k;
    found = rw (le→ltb k 10 q, lt→ltb k 16 p);
    means = ground arith;
  }
]

abbrev byte_or_zero : Option ℕ → ℕ
byte_or_zero none = 0
byte_or_zero (some c) = c

-- What the loop needs of its base.
record IsBase (b : ℕ) : Type 0 where
  small : (x : ℕ) → x % b < 16
  below : (x : ℕ) → x % b < b
  shrinks : (x p : ℕ) → x < b * p → x / b < p
  splits : (x p : ℕ) → x / b * (b * p) + x % b * p ≡ x * p
  zero_digit : (x : ℕ) → x / b ≡ 0 → x % b ≡ x
  positive : (x : ℕ) → x / b ≢ 0 → x ≢ 0

-- The digits of `x` are put in front of `buf`.
record IsPut (b x room : ℕ) (buf : List ℕ) (result : Option (List ℕ)) : Type 0 where
  out : List ℕ
  returns : result ≡ some out
  reads : value b out ≡ x * b ^ length buf + value b buf
  leading : x ≢ 0 → NoLeadingZero out
  nought : x ≡ 0 → out ≡ 48 ∷ buf
  digits : AllDigits b buf → AllDigits b out
  short : length out ≤ length buf + room

-- The magnitude that is put out for the pattern `xx`.
abbrev pub magnitude : ℕ → Bool → ℕ
magnitude xx sign = if is_negative xx sign then 2 ^ 32 - xx else xx

-- The bytes are the digits of the magnitude, behind a `-` where the number is negative.
pub record IsPrinted (b xx : ℕ) (sign : Bool) (result : Option (List ℕ)) : Type 0 where
  pub digits : List ℕ
  pub returns : result ≡ some (if is_negative xx sign then 45 ∷ digits else digits)
  pub reads : value b digits ≡ magnitude xx sign
  pub leading : magnitude xx sign ≢ 0 → NoLeadingZero digits
  pub nought : magnitude xx sign ≡ 0 → digits ≡ 48 ∷ []
  pub table : AllDigits b digits
