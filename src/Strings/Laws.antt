-- ===== src/Strings/Laws.antt =====
-- `strlen`, `strcmp` and `strcpy` against lists of bytes.
use lilac_os.Base.{
  ℕ, zero, suc, ◌+◌, ◌≤◌, ◌<◌, ◌≡◌, ◌≢◌, ◌∙◌, ◌⊎◌, inl, inr, refl, sym, ap, List, [], ◌∷◌, Option,
  some, arith, subst, ltb, if◌then◌else◌, length, lt-cases, eq→==, ne→==, lt→ltb, Bool-cases,
  le→ltb,
}
use lilac_os.Memory.{Memory, store8, IsBytes}
use lilac_os.Strings.{Comparison, minus_one, nought, one, count, strlen, by_length, strcmp, strcpy}

-- The bytes from `p` on are `s` and a zero byte, and none of `s` is zero.
unfoldable pub IsString : Memory → ℕ → List ℕ → Type 0
IsString m p [] = m p ≡ 0
IsString m p (b ∷ s) = (m p ≡ b) × (b ≢ 0) × IsString m (p + 1) s

-- The lexicographic order of lists of bytes.
unfoldable pub lexicographic : List ℕ → List ℕ → Comparison
lexicographic [] [] = nought
lexicographic [] (b ∷ t) = minus_one
lexicographic (a ∷ s) [] = one
lexicographic (a ∷ s) (b ∷ t) =
    let rest = lexicographic s t in if ltb a b then minus_one else (if ltb b a then one else rest)

count_lem :
    (fuel : ℕ) (m : Memory) (str len : ℕ) (s : List ℕ)
    → IsString m (str + len) s
    → length s < fuel
    → count fuel m str len ≡ some (len + length s)
unfolding count IsString
count_lem zero m str len s h p = absurd (omega arith)
count_lem (suc fuel) m str len [] h p = rw (eq→== (m (str + len)) 0 h) (ap some (omega arith))
count_lem (suc fuel) m str len (b ∷ s) (here, ne, h) p =
    let next : str + len + 1 ≡ str + (len + 1) = omega arith in
    rw (here, ne→== b 0 ne)
      (count_lem fuel m str (len + 1) s (subst (λ q. IsString m q s) next h) (omega (arith, p))
        ∙ ap some (omega arith))

-- With fuel above the string's length, strlen returns the length.
pub strlen_lem :
    (fuel : ℕ) (m : Memory) (str : ℕ) (s : List ℕ)
    → IsString m str s
    → length s < fuel
    → strlen fuel m str ≡ some (length s)
unfolding strlen
strlen_lem fuel m str s h p =
    let from : str ≡ str + 0 = omega arith in
    count_lem fuel m str 0 s (subst (λ q. IsString m q s) from h) p ∙ ap some (omega arith)

compare_run :
    (fuel : ℕ) (m : Memory) (p q : ℕ) (s t : List ℕ)
    → IsString m p s
    → IsString m q t
    → length s < fuel
    → strcmp fuel m p q ≡ some (lexicographic s t)
unfolding strcmp lexicographic by_length IsString
compare_run zero m p q s t h g low = absurd (omega arith)
compare_run (suc fuel) m p q [] [] h g low = rw (h, g)
compare_run (suc fuel) m p q [] (b ∷ t) h (here, ne, g) low = rw (h, here, ne→== b 0 ne)
compare_run (suc fuel) m p q (a ∷ s) [] (here, ne, h) g low = rw (here, g, ne→== a 0 ne)
compare_run (suc fuel) m p q (a ∷ s) (b ∷ t) (here, ne, h) (there, nf, g) low =
    rw
      (
        here,
        there,
        ne→== a 0 ne,
        ne→== b 0 nf,
        compare_run fuel m (p + 1) (q + 1) s t h g (omega (arith, low)),
      )
      (ground (Bool-cases (ltb a b), Bool-cases (ltb b a), arith))

lexicographic-nought : (s t : List ℕ) → lexicographic s t ≡ nought → s ≡ t
unfolding lexicographic
lexicographic-nought [] [] e = refl
lexicographic-nought [] (b ∷ t) e = absurd (ground (arith, e))
lexicographic-nought (a ∷ s) [] e = absurd (ground (arith, e))
lexicographic-nought (a ∷ s) (b ∷ t) e = elim (lt-cases a b) [
  | inl p ↦ absurd (ground (arith, lt→ltb a b p, e))
  | inr p ↦ elim (lt-cases b a) [
    | inl q ↦ absurd (ground (arith, lt→ltb b a q, le→ltb a b p, e))
    | inr q ↦
        let same : a ≡ b = omega arith in
        let rest : lexicographic s t ≡ nought = ground (arith, le→ltb b a q, le→ltb a b p, e) in
        rw (same, lexicographic-nought s t rest)
  ]
]

lexicographic_refl : (s : List ℕ) → lexicographic s s ≡ nought
unfolding lexicographic
lexicographic_refl [] = refl
lexicographic_refl (a ∷ s) = rw (le→ltb a a (omega arith), lexicographic_refl s)

-- What `strcmp` says of two strings.
pub record Compared (result : Option Comparison) (s t : List ℕ) : Type 0 where
  pub returns : result ≡ some (lexicographic s t)
  pub equal : result ≡ some nought → s ≡ t
  pub same : s ≡ t → result ≡ some nought

-- With fuel above the first string's length, strcmp returns the lexicographic comparison,
-- which is 0 exactly when the strings are equal.
pub strcmp_lem :
    (fuel : ℕ) (m : Memory) (p q : ℕ) (s t : List ℕ)
    → IsString m p s
    → IsString m q t
    → length s < fuel
    → Compared (strcmp fuel m p q) s t
strcmp_lem fuel m p q s t h g low =
    let run = compare_run fuel m p q s t h g low in
    rw run (record {
      returns = refl;
      equal = λ e. lexicographic-nought s t (ground (arith, e));
      same = λ e. rw (e, lexicographic_refl t);
    })

-- A copy made: the string is at `dest`, and no byte outside its place changes.
pub record Copied (m : Memory) (dest : ℕ) (s : List ℕ) (result : Option Memory) : Type 0 where
  pub after : Memory
  pub returns : result ≡ some after
  pub string : IsString after dest s
  pub outside : (q : ℕ) → (q < dest) ⊎ (dest + length s < q) → after q ≡ m q

pub IsString-ext :
    (m n : Memory) (p : ℕ) (s : List ℕ)
    → IsString m p s
    → ((q : ℕ) → p ≤ q → q ≤ p + length s → n q ≡ m q)
    → IsString n p s
unfolding IsString
IsString-ext m n p [] h same = same p (omega arith) (omega arith) ∙ h
IsString-ext m n p (b ∷ s) (here, ne, h) same = (
  same p (omega arith) (omega arith) ∙ here,
  ne,
  IsString-ext m n (p + 1) s h (λ q lo hi. same q (omega arith) (omega arith)),
)

store8-IsBytes : (m : Memory) (p v : ℕ) → IsBytes m → IsBytes (store8 m p v)
unfolding store8
store8-IsBytes m p v bytes q = ground (arith, bytes q)

store8_self : (m : Memory) (p v : ℕ) → v < 256 → store8 m p v p ≡ v
unfolding store8
store8_self m p v h = rw (eq→== p p refl) (omega arith)

store8-outside : (m : Memory) (p v q : ℕ) → q ≢ p → store8 m p v q ≡ m q
unfolding store8
store8-outside m p v q ne = rw (ne→== p q (λ e. ne (sym e)))

-- With fuel above the string's length, and its place and the copy's apart, strcpy copies the
-- string with its zero byte and changes no other byte.
pub strcpy_lem :
    (fuel : ℕ) (m : Memory) (dest src : ℕ) (s : List ℕ)
    → IsBytes m
    → IsString m src s
    → (dest + length s < src) ⊎ (src + length s < dest)
    → length s < fuel
    → Copied m dest s (strcpy fuel m dest src)
unfolding strcpy IsString
strcpy_lem zero m dest src s bytes h apart low = absurd (omega arith)
strcpy_lem (suc fuel) m dest src [] bytes h apart low = rw (eq→== (m src) 0 h) (record {
  after = store8 m dest 0;
  returns = refl;
  string = store8_self m dest 0 (omega arith);
  outside = λ q away. store8-outside m dest 0 q (omega arith);
})
strcpy_lem (suc fuel) m dest src (b ∷ s) bytes (here, ne, h) apart low =
    let n = store8 m dest (m src) in
    let rest =
      strcpy_lem fuel n (dest + 1) (src + 1) s (store8-IsBytes m dest (m src) bytes)
        (IsString-ext m n (src + 1) s h (λ q lo hi. store8-outside m dest (m src) q (omega arith)))
        (ground arith) (omega (arith, low)) in
    rw (ne→== (m src) 0 (λ z. ne (sym here ∙ z))) (record {
      after = rest.after;
      returns = rest.returns;
      string = (
        rest.outside dest (inl (omega arith)) ∙ (store8_self m dest (m src) (bytes src) ∙ here),
        ne,
        rest.string,
      );
      outside =
          λ q away. rest.outside q (ground arith) ∙ store8-outside m dest (m src) q (omega arith);
    })
