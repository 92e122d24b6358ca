-- ===== src/Printf/Tests.antt =====
-- Runs of `printint` and `printptr`, and their theorems at two numbers.
use lilac_os.Base.{◌-◌, ◌^◌, ◌≡◌, refl, true, [], ◌∷◌, some, arith}
use lilac_os.Printf.{digit, put, digit_loop, is_negative, printint, printptr}
use lilac_os.Printf.Pointers.{IsPointer, printptr_lem}

-- -120
negative_runs : printint (2 ^ 32 - 120) 10 true ≡ some (45 ∷ 49 ∷ 50 ∷ 48 ∷ [])
unfolding printint digit_loop digit put is_negative
negative_runs = refl

printptr_lem_example : IsPointer 2149580800 (printptr 2149580800)
printptr_lem_example = printptr_lem 2149580800 (omega arith)
