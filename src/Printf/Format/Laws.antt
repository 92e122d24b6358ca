-- ===== src/Printf/Format/Laws.antt =====
-- `__printf` against the language of formats.
use lilac_os.Base.{
  ℕ, zero, suc, ◌+◌, ◌%◌, ◌^◌, ◌<◌, ◌≡◌, ◌≢◌, ◌∙◌, ap, subst, true, List, [], ◌∷◌, ◌++◌, some,
  length, arith, eq→==, ne→==,
}
use lilac_os.Memory.{Memory}
use lilac_os.Strings.Laws.{IsString}
use lilac_os.Printf.{printint, printptr}
use lilac_os.Printf.Format.{
  put_string, null_text, string_arg, with_arg, arg_round, conversion, body, after_round, print_loop,
  __printf,
}

-- `Prints m bound format args out`: the format with these arguments stands for the bytes `out`,
-- where the strings it refers to have fewer than `bound` bytes.
pub data Prints (m : Memory) (bound : ℕ) : List ℕ → List ℕ → List ℕ → Type 0 where
  done : (args : List ℕ) → Prints m bound [] args []
  plain :
      (c : ℕ) (format args out : List ℕ)
      → c ≢ 37
      → Prints m bound format args out
      → Prints m bound (c ∷ format) args (c ∷ out)
  decimal :
      (a : ℕ) (text format args out : List ℕ)
      → printint (a % 2 ^ 32) 10 true ≡ some text
      → Prints m bound format args out
      → Prints m bound (37 ∷ 100 ∷ format) (a ∷ args) (text ++ out)
  hexadecimal :
      (a : ℕ) (text format args out : List ℕ)
      → printint (a % 2 ^ 32) 16 true ≡ some text
      → Prints m bound format args out
      → Prints m bound (37 ∷ 120 ∷ format) (a ∷ args) (text ++ out)
  pointer :
      (a : ℕ) (text format args out : List ℕ)
      → printptr a ≡ some text
      → Prints m bound format args out
      → Prints m bound (37 ∷ 112 ∷ format) (a ∷ args) (text ++ out)
  string :
      (a : ℕ) (text format args out : List ℕ)
      → a ≢ 0
      → IsString m a text
      → length text < bound
      → Prints m bound format args out
      → Prints m bound (37 ∷ 115 ∷ format) (a ∷ args) (text ++ out)
  null_string :
      (format args out : List ℕ)
      → Prints m bound format args out
      → Prints m bound (37 ∷ 115 ∷ format) (0 ∷ args) (null_text ++ out)
  percent :
      (format args out : List ℕ)
      → Prints m bound format args out
      → Prints m bound (37 ∷ 37 ∷ format) args (37 ∷ out)

put_string_lem :
    (fuel : ℕ) (m : Memory) (s : ℕ) (text : List ℕ)
    → IsString m s text
    → length text < fuel
    → put_string fuel m s ≡ some text
unfolding put_string IsString
put_string_lem zero m s text h low = absurd (omega arith)
put_string_lem (suc fuel) m s [] h low = rw (eq→== (m s) 0 h)
put_string_lem (suc fuel) m s (c ∷ text) (here, ne, h) low =
    rw (here, ne→== c 0 ne, put_string_lem fuel m (s + 1) text h (omega (arith, low)))

module _ (m : Memory) (fmt bound : ℕ) where
  second : (i c : ℕ) → m (fmt + i + 1) ≡ c → m (fmt + (i + 1)) ≡ c
  second i c e = ap m (omega arith) ∙ e

  third :
      (i : ℕ) (format : List ℕ)
      → IsString m (fmt + i + 1 + 1) format
      → IsString m (fmt + (i + 2)) format
  third i format h =
      let next : fmt + i + 1 + 1 ≡ fmt + (i + 2) = omega arith in
      subst (λ q. IsString m q format) next h

  -- The loop runs from `i` on, with fuel above `bound` and the rest of the format.
  loop_lem :
      (fuel i : ℕ) {format args out : List ℕ}
      → Prints m bound format args out
      → IsString m (fmt + i) format
      → bound + length format < fuel
      → print_loop fuel m fmt i args ≡ some out
  unfolding print_loop body after_round conversion with_arg arg_round string_arg IsString
  loop_lem zero i p h low = absurd (omega arith)
  loop_lem (suc fuel) i (done args) h low = rw (eq→== (m (fmt + i)) 0 h)
  loop_lem (suc fuel) i (plain c format args out other p) (here, ne, h) low =
      let next : fmt + i + 1 ≡ fmt + (i + 1) = omega arith in
      rw (
        here,
        ne→== c 0 ne,
        ne→== c 37 other,
        loop_lem fuel (i + 1) p (subst (λ q. IsString m q format) next h) (omega (arith, low)),
      )
  loop_lem (suc fuel) i (decimal a text format args out e p) (here, ne, (there, nf, h)) low =
      let digits : printint (a % 4294967296) 10 true ≡ some text = e in
      rw (
        here,
        second i 100 there,
        with_arg,
        digits,
        loop_lem fuel (i + 2) p (third i format h) (omega (arith, low)),
      )
  loop_lem (suc fuel) i (hexadecimal a text format args out e p) (here, ne, (there, nf, h)) low =
      let digits : printint (a % 4294967296) 16 true ≡ some text = e in
      rw (
        here,
        second i 120 there,
        with_arg,
        digits,
        loop_lem fuel (i + 2) p (third i format h) (omega (arith, low)),
      )
  loop_lem (suc fuel) i (pointer a text format args out e p) (here, ne, (there, nf, h)) low = rw (
    here,
    second i 112 there,
    with_arg,
    e,
    loop_lem fuel (i + 2) p (third i format h) (omega (arith, low)),
  )
  loop_lem (suc fuel) i (string a text format args out ne0 str short p) (here, ne, (there, nf, h))
        low =
      rw (
        here,
        second i 115 there,
        with_arg,
        string_arg,
        ne→== a 0 ne0,
        put_string_lem fuel m a text str (omega (arith, short, low)),
        loop_lem fuel (i + 2) p (third i format h) (omega (arith, low)),
      )
  loop_lem (suc fuel) i (null_string format args out p) (here, ne, (there, nf, h)) low = rw (
    here,
    second i 115 there,
    with_arg,
    string_arg,
    loop_lem fuel (i + 2) p (third i format h) (omega (arith, low)),
  )
  loop_lem (suc fuel) i (percent format args out p) (here, ne, (there, nf, h)) low =
      rw (here, second i 37 there, loop_lem fuel (i + 2) p (third i format h) (omega (arith, low)))

-- A format string in memory whose language gives out for the arguments is printed as out, with
-- fuel above its length and the lengths of the strings it refers to.
pub __printf_lem :
    (fuel : ℕ) (m : Memory) (fmt bound : ℕ) {format args out : List ℕ}
    → fmt ≢ 0
    → IsString m fmt format
    → Prints m bound format args out
    → bound + length format < fuel
    → __printf fuel m fmt args ≡ some out
unfolding __printf
__printf_lem fuel m fmt bound {format = format} ne h p low =
    let start : fmt ≡ fmt + 0 = omega arith in
    rw (ne→== fmt 0 ne)
      (loop_lem m fmt bound fuel 0 p (subst (λ q. IsString m q format) start h) low)
