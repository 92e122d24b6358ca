-- ===== src/Printf/Format/Tests.antt =====
-- A run of `__printf`, and its theorem at the same format.
use lilac_os.Base.{◌≡◌, refl, [], ◌∷◌, some, arith, ◌==◌, if◌then◌else◌}
use lilac_os.Memory.{Memory}
use lilac_os.Strings.Laws.{IsString}
use lilac_os.Printf.Format.{__printf}
use lilac_os.Printf.Format.Laws.{done, plain, string, percent, __printf_lem}

-- "a%s%%" at 10, "hi" at 20
abbrev console : Memory
console q =
    if q == 10
    then 97
    else if q == 11
    then 37
    else if q == 12
    then 115
    else if q == 13
    then 37
    else if q == 14
    then 37
    else if q == 20
    then 104
    else if q == 21
    then 105
    else 0

format-IsString : IsString console 10 (97 ∷ 37 ∷ 115 ∷ 37 ∷ 37 ∷ [])
unfolding IsString
format-IsString = (
  refl,
  (λ e. omega (arith, e)),
  (
    refl,
    (λ e. omega (arith, e)),
    (
      refl,
      (λ e. omega (arith, e)),
      (refl, (λ e. omega (arith, e)), (refl, (λ e. omega (arith, e)), refl)),
    ),
  ),
)

argument : IsString console 20 (104 ∷ 105 ∷ [])
unfolding IsString
argument = (refl, (λ e. omega (arith, e)), (refl, (λ e. omega (arith, e)), refl))

__printf_lem_example : __printf 99 console 10 (20 ∷ []) ≡ some (97 ∷ 104 ∷ 105 ∷ 37 ∷ [])
__printf_lem_example =
    __printf_lem 99 console 10 3 (λ e. omega (arith, e)) format-IsString
      (plain 97 _ _ _ (λ e. omega (arith, e))
        (string 20 (104 ∷ 105 ∷ []) _ _ _ (λ e. omega (arith, e)) argument (omega arith)
          (percent _ _ _ (done []))))
      (omega arith)
