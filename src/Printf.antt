-- ===== src/Printf.antt =====
-- kernel/printf.c: the bytes that `printint` and `printptr` put out on the console, first byte
-- first. `none` is a table or a buffer indexed out of its bounds.
pub mod Digits
pub mod Pointers
pub mod Format
mod Tests
use lilac_os.Base.{
  ℕ, zero, suc, ◌+◌, ◌-◌, ◌*◌, ◌/◌, ◌%◌, ◌^◌, Bool, ◌&&◌, List, [], ◌∷◌, Option, none, some, length,
  ltb, leb, ◌==◌, if◌then◌else◌,
}

infixl 5 ◌>>=◌
abbrev pub ◌>>=◌ : {Value Next : Type 0} → Option Value → (Value → Option Next) → Option Next
none >>= next = none
some value >>= next = next value

-- `digits[k]`, of "0123456789abcdef"
pub digit : ℕ → Option ℕ
digit k = if ltb k 10 then some (48 + k) else (if ltb k 16 then some (87 + k) else none)

-- `buf[i++] = c`, with the newest byte first
pub put : ℕ → List ℕ → Option (List ℕ)
put c buf = if ltb (length buf) 16 then some (c ∷ buf) else none

-- The do loop of `printint`. The buffer holds 16 bytes, so that no run has 17 rounds.
pub digit_loop : ℕ → (x base : ℕ) → List ℕ → Option (List ℕ)
digit_loop zero x base buf = none
digit_loop (suc rounds) x base buf = do
  c ← digit (x % base)
  filled ← put c buf
  let rest = digit_loop rounds (x / base) base filled
  if x / base == 0 then some filled else rest

-- `sign && (sign = xx < 0)`, for the 32-bit pattern of `xx`
pub is_negative : ℕ → Bool → Bool
is_negative xx sign = sign && leb (2 ^ 31) xx

-- The bytes of `printint`: the buffer from its newest byte down.
pub printint : (xx base : ℕ) → Bool → Option (List ℕ)
printint xx base sign =
    let x = if is_negative xx sign then 2 ^ 32 - xx else xx in
    do filled ← digit_loop 17 x base []; if is_negative xx sign then put 45 filled else some filled

-- The loop of `printptr`, with `rounds` digits to go.
pub ptr_loop : ℕ → ℕ → Option (List ℕ)
ptr_loop zero x = some []
ptr_loop (suc rounds) x = do
  c ← digit (x / 2 ^ 60)
  rest ← ptr_loop rounds (x * 2 ^ 4 % 2 ^ 64)
  some (c ∷ rest)

pub printptr : ℕ → Option (List ℕ)
printptr x = do rest ← ptr_loop 16 x; some (48 ∷ 120 ∷ rest)
