-- ===== src/Descriptors/Counts.antt =====
-- The count of a file and the descriptors that refer to it.
use lilac_os.Base.{
  ℕ, zero, suc, ◌+◌, ◌≤◌, ◌<◌, ◌≡◌, ◌≢◌, ◌∙◌, inl, inr, refl, sym, List, [], ◌∷◌, arith, ◌==◌,
  if◌then◌else◌, eq→==, ne→==, eq-cases, ap, update, update_self, update_ne, Among, Apart-ne,
  Distinct,
}
use lilac_os.Kernel.{Kernel}
use lilac_os.Descriptors.{nr_open}

-- 1 where the two files are the same one.
unfoldable pub same : ℕ → ℕ → ℕ
same a b = if a == b then 1 else 0

pub same_self : (a : ℕ) → same a a ≡ 1
unfolding same
same_self a = rw (eq→== a a refl)

pub same_ne : (a b : ℕ) → a ≢ b → same a b ≡ 0
unfolding same
same_ne a b ne = rw (ne→== a b ne)

-- How many of the slots from `i` on refer to the file `f`.
unfoldable pub uses : (ℕ → ℕ) → ℕ → (rounds i : ℕ) → ℕ
uses files f zero i = 0
uses files f (suc rounds) i = same (files i) f + uses files f rounds (i + 1)

pub uses-ext :
    (files others : ℕ → ℕ) (f rounds i : ℕ)
    → ((j : ℕ) → i ≤ j → j < i + rounds → files j ≡ others j)
    → uses files f rounds i ≡ uses others f rounds i
unfolding uses
uses-ext files others f zero i h = refl
uses-ext files others f (suc rounds) i h = rw (
  h i (omega arith) (omega arith),
  uses-ext files others f rounds (i + 1) (λ j p q. h j (omega (arith, p)) (omega (arith, q))),
)

-- A slot that refers to the file counts.
pub uses-pos :
    (files : ℕ → ℕ) (f rounds i j : ℕ)
    → i ≤ j
    → j < i + rounds
    → files j ≡ f
    → 0 < uses files f rounds i
unfolding uses
uses-pos files f zero i j p q e = absurd (omega (arith, p, q))
uses-pos files f (suc rounds) i j p q e = elim (eq-cases i j) [
  | inl s ↦ let one : same (files i) f ≡ 1 = rw (s, e, same_self f) in omega (arith, one)
  | inr ne ↦
      let rest = uses-pos files f rounds (i + 1) j (omega (arith, p, ne)) (omega (arith, q)) e in
      omega (arith, rest)
]

-- The descriptors of a process that refer to the file, and those of several processes.
abbrev pub held : Kernel → ℕ → ℕ → ℕ
held k f p = uses (k.procs p).files f nr_open 0

unfoldable pub total : Kernel → ℕ → List ℕ → ℕ
total k f [] = 0
total k f (p ∷ ps) = held k f p + total k f ps

pub total_cons :
    (k : Kernel) (f p : ℕ) (ps : List ℕ) → total k f (p ∷ ps) ≡ held k f p + total k f ps
unfolding total
total_cons k f p ps = refl

pub total_same :
    (k after : Kernel) (f : ℕ) (ps : List ℕ)
    → ((p : ℕ) → Among p ps → held after f p ≡ held k f p)
    → total after f ps ≡ total k f ps
unfolding total
total_same k after f [] h = refl
total_same k after f (p ∷ ps) h = rw (h p (inl refl), total_same k after f ps (λ q a. h q (inr a)))

pub held-total : (k : Kernel) (f p : ℕ) (ps : List ℕ) → Among p ps → held k f p ≤ total k f ps
unfolding total
held-total k f p [] a = elim a [ ]
held-total k f p (q ∷ ps) (inl e) = rw (e) (omega arith)
held-total k f p (q ∷ ps) (inr a) = omega (arith, held-total k f p ps a)

-- Each file in use has its number of descriptors in `count`.
pub record IsCounted (k : Kernel) (ps : List ℕ) : Type 0 where
  pub counts : (f : ℕ) → f ≢ 0 → 0 < total k f ps → (k.files f).count ≡ total k f ps

-- A slot emptied is a use less of its file.
pub uses-emptied :
    (files : ℕ → ℕ) (f rounds i fd : ℕ)
    → f ≢ 0
    → i ≤ fd
    → fd < i + rounds
    → uses files f rounds i ≡ same (files fd) f + uses (update files fd 0) f rounds i
unfolding uses
uses-emptied files f zero i fd ne p q = absurd (omega (arith, p, q))
uses-emptied files f (suc rounds) i fd ne p q = elim (eq-cases i fd) [
  | inl e ↦
      let rest =
        uses-ext (update files fd 0) files f rounds (i + 1)
          (λ j a b. update_ne files fd j 0 (λ s. omega (arith, s, a, e))) in
      let now : same (update files fd 0 i) f ≡ 0 =
        ap (λ x. same (update files fd 0 x) f) e
        ∙ (ap (λ x. same x f) (update_self files fd 0) ∙ same_ne 0 f (λ s. ne (sym s))) in
      rw (now, rest, e) (omega arith)
  | inr other ↦
      let rest =
        uses-emptied files f rounds (i + 1) fd ne (omega (arith, p, other)) (omega (arith, q)) in
      let now : same (update files fd 0 i) f ≡ same (files i) f =
        ap (λ x. same x f) (update_ne files fd i 0 (λ s. other (sym s))) in
      omega (arith, rest, now)
]

-- A process of the list holds `d` descriptors less.
pub total_less :
    (k after : Kernel) (f p d : ℕ) (ps : List ℕ)
    → held k f p ≡ d + held after f p
    → ((q : ℕ) → q ≢ p → held after f q ≡ held k f q)
    → Distinct ps
    → Among p ps
    → total k f ps ≡ d + total after f ps
unfolding total
total_less k after f p d [] less others u a = elim a [ ]
total_less k after f p d (q ∷ ps) less others (apart, u) (inl e) =
    let rest =
      total_same k after f ps (λ x b. others x (λ s. Apart-ne q x ps apart b (sym (s ∙ e)))) in
    rw (sym e, less, rest) (omega arith)
total_less k after f p d (q ∷ ps) less others (apart, u) (inr a) =
    let rest = total_less k after f p d ps less others u a in
    rw (others q (Apart-ne q p ps apart a), rest) (omega arith)
