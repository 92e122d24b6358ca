-- ===== src/Printf/Format.antt =====
-- `__printf` of kernel/printf.c: the format string in memory, and its arguments as a list of
-- words. The bytes put out are the result; `none` is an argument that is not there, or a loop
-- that exceeds the fuel.
pub mod Laws
mod Tests
use lilac_os.Base.{
  ℕ, zero, suc, ◌+◌, ◌%◌, ◌^◌, true, List, [], ◌∷◌, ◌++◌, Option, none, some, ◌==◌, if◌then◌else◌,
}
use lilac_os.Memory.{Memory}
use lilac_os.Printf.{printint, printptr, ◌>>=◌}

-- What one round of the loop does: it ends, or puts bytes out and goes on at `next`.
pub data Round : Type 0 where
  finish : Round
  stuck : Round
  shown : (text : List ℕ) (next : ℕ) (left : List ℕ) → Round

-- `for (; *s; s++) console_putchar(*s)`
pub put_string : ℕ → Memory → ℕ → Option (List ℕ)
put_string zero m s = none
put_string (suc fuel) m s =
    let rest = put_string fuel m (s + 1) >>= λ text. some (m s ∷ text) in
    if m s == 0 then some [] else rest

-- "(null)"
abbrev pub null_text : List ℕ
null_text = 40 ∷ 110 ∷ 117 ∷ 108 ∷ 108 ∷ 41 ∷ []

-- The case 's'.
pub string_arg : ℕ → Memory → ℕ → Option (List ℕ)
string_arg fuel m s = let text = put_string fuel m s in if s == 0 then some null_text else text

pub arg_round : Option (List ℕ) → (next : ℕ) → List ℕ → Round
arg_round none next left = stuck
arg_round (some text) next left = shown text next left

-- The text of one argument, and the arguments behind it.
pub with_arg : (ℕ → Option (List ℕ)) → (next : ℕ) → List ℕ → Round
with_arg text next [] = stuck
with_arg text next (a ∷ left) = arg_round (text a) next left

-- The switch, with `next` behind the byte `c`.
pub conversion : ℕ → Memory → (c next : ℕ) → List ℕ → Round
conversion fuel m c next args =
    if c == 100
    then with_arg (λ a. printint (a % 2 ^ 32) 10 true) next args
    else if c == 120
    then with_arg (λ a. printint (a % 2 ^ 32) 16 true) next args
    else if c == 112
    then with_arg printptr next args
    else if c == 115
    then with_arg (string_arg fuel m) next args
    else if c == 37
    then shown (37 ∷ []) next args
    else shown (37 ∷ c ∷ []) next args

-- The body of the loop at `fmt[i]`.
pub body : ℕ → Memory → (fmt i : ℕ) → List ℕ → Round
body fuel m fmt i args =
    if m (fmt + i) == 0
    then finish
    else if m (fmt + i) == 37
    then (if m (fmt + (i + 1)) == 0
        then finish
        else conversion fuel m (m (fmt + (i + 1))) (i + 2) args)
    else shown (m (fmt + i) ∷ []) (i + 1) args

pub after_round : Round → (ℕ → List ℕ → Option (List ℕ)) → Option (List ℕ)
after_round finish go = some []
after_round stuck go = none
after_round (shown text next left) go = go next left >>= λ rest. some (text ++ rest)

pub print_loop : ℕ → Memory → (fmt i : ℕ) → List ℕ → Option (List ℕ)
print_loop zero m fmt i args = none
print_loop (suc fuel) m fmt i args =
    after_round (body fuel m fmt i args) (λ next left. print_loop fuel m fmt next left)

-- A null format is a panic.
pub __printf : ℕ → Memory → (fmt : ℕ) → List ℕ → Option (List ℕ)
__printf fuel m fmt args = let run = print_loop fuel m fmt 0 args in if fmt == 0 then none else run
