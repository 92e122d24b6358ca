-- ===== src/Shell/Tests.antt =====
-- A line that is typed with a correction.
use lilac_os.Base.{◌≡◌, refl, [], ◌∷◌, arith}
use lilac_os.Shell.{Shell, session}
use lilac_os.Shell.Laws.{IsTyped, typing, typings, erased, session_lem}

abbrev fresh : Shell
fresh = record { line = λ i. 0; len = 0 }

fresh-IsTyped : IsTyped fresh []
fresh-IsTyped = record { len = refl; holds = tt; clear = λ j p q. refl }

-- "lx", backspace, "s", enter
session_lem_example :
    session (108 ∷ 120 ∷ 127 ∷ 115 ∷ 10 ∷ []) fresh ≡ typings (108 ∷ 120 ∷ 127 ∷ 115 ∷ 10 ∷ []) []
unfolding typing erased
session_lem_example = session_lem (108 ∷ 120 ∷ 127 ∷ 115 ∷ 10 ∷ []) fresh [] fresh-IsTyped (
  (λ e. omega (arith, e)),
  omega arith,
  (
    (λ e. omega (arith, e)),
    omega arith,
    (
      (λ e. omega (arith, e)),
      omega arith,
      ((λ e. omega (arith, e)), omega arith, ((λ e. omega (arith, e)), omega arith, tt)),
    ),
  ),
)
