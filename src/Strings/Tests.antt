-- ===== src/Strings/Tests.antt =====
-- Runs of the string functions, and their theorems at two names.
use lilac_os.Base.{◌≡◌, inr, refl, [], ◌∷◌, some, arith, ◌==◌, if◌then◌else◌}
use lilac_os.Memory.{Memory, IsBytes}
use lilac_os.Strings.{minus_one, strlen, strcmp, strcpy}
use lilac_os.Strings.Laws.{IsString, Compared, Copied, strlen_lem, strcmp_lem, strcpy_lem}

-- "ls" at 100 and "sh" at 200
abbrev names : Memory
names q =
    if q == 100
    then 108
    else if q == 101
    then 115
    else if q == 200
    then 115
    else if q == 201
    then 104
    else 0

names-IsBytes : IsBytes names
names-IsBytes q = ground arith

ls-IsString : IsString names 100 (108 ∷ 115 ∷ [])
unfolding IsString
ls-IsString = (refl, (λ e. omega (arith, e)), (refl, (λ e. omega (arith, e)), refl))

sh-IsString : IsString names 200 (115 ∷ 104 ∷ [])
unfolding IsString
sh-IsString = (refl, (λ e. omega (arith, e)), (refl, (λ e. omega (arith, e)), refl))

compared : strcmp 9 names 100 200 ≡ some minus_one
unfolding strcmp
compared = refl

strlen_lem_example : strlen 9 names 100 ≡ some 2
strlen_lem_example = strlen_lem 9 names 100 (108 ∷ 115 ∷ []) ls-IsString (omega arith)

strcmp_lem_example : Compared (strcmp 9 names 100 200) (108 ∷ 115 ∷ []) (115 ∷ 104 ∷ [])
strcmp_lem_example =
    strcmp_lem 9 names 100 200 (108 ∷ 115 ∷ []) (115 ∷ 104 ∷ []) ls-IsString sh-IsString
      (omega arith)

strcpy_lem_example : Copied names 300 (108 ∷ 115 ∷ []) (strcpy 9 names 300 100)
strcpy_lem_example =
    strcpy_lem 9 names 300 100 (108 ∷ 115 ∷ []) names-IsBytes ls-IsString (inr (omega arith))
      (omega arith)
