-- ===== src/Base/Updates.antt =====
-- Stores as functions from addresses, and lists of addresses without repetition.
use Prim.Native.Nat.{ℕ, compare, Ordering}
use mathlib.Core.Path.{◌≡◌, refl, sym, ◌∙◌}
use mathlib.Core.Logic.{◌≢◌, ◌⊎◌, inl, inr}
use mathlib.Core.List.{List, [], ◌∷◌, ◌++◌}
use native.Mathlib.Omega.{arith}

-- `s[i] = v`
abbrev pub update {ℓ} : {A : Type ℓ} → (ℕ → A) → ℕ → A → ℕ → A
update s i v k = elim (compare i k) [ Ordering.eq ↦ v | _ ↦ s k ]

pub update_self {ℓ} : {A : Type ℓ} (s : ℕ → A) (i : ℕ) (v : A) → update s i v i ≡ v
update_self s i v = ground arith

pub update_ne {ℓ} : {A : Type ℓ} (s : ℕ → A) (i k : ℕ) (v : A) → i ≢ k → update s i v k ≡ s k
update_ne s i k v ne = ground arith

-- `a` is one of the list, and none of it.
abbrev pub Among : ℕ → List ℕ → Type 0
Among a [] = ⊥
Among a (x ∷ xs) = (a ≡ x) ⊎ Among a xs

abbrev pub Apart : ℕ → List ℕ → Type 0
Apart a [] = Unit
Apart a (x ∷ xs) = (a ≢ x) × Apart a xs

abbrev pub Distinct : List ℕ → Type 0
Distinct [] = Unit
Distinct (x ∷ xs) = Apart x xs × Distinct xs

pub Among-snoc : (a : ℕ) (xs : List ℕ) (x : ℕ) → Among a (xs ++ x ∷ []) → Among a xs ⊎ (a ≡ x)
Among-snoc a [] x (inl e) = inr e
Among-snoc a [] x (inr m) = elim m [ ]
Among-snoc a (y ∷ xs) x (inl e) = inl (inl e)
Among-snoc a (y ∷ xs) x (inr m) = elim (Among-snoc a xs x m) [ inl n ↦ inl (inr n) | inr e ↦ inr e ]

pub Apart-ne : (a y : ℕ) (xs : List ℕ) → Apart a xs → Among y xs → a ≢ y
Apart-ne a y [] h m f = elim m [ ]
Apart-ne a y (x ∷ xs) (ne, rest) (inl e) f = ne (f ∙ e)
Apart-ne a y (x ∷ xs) (ne, rest) (inr m) f = Apart-ne a y xs rest m f

pub Apart-append : (a : ℕ) (xs ys : List ℕ) → Apart a xs → Apart a ys → Apart a (xs ++ ys)
Apart-append a [] ys h g = g
Apart-append a (x ∷ xs) ys (ne, h) g = (ne, Apart-append a xs ys h g)

pub Apart-append_left : (a : ℕ) (xs ys : List ℕ) → Apart a (xs ++ ys) → Apart a xs
Apart-append_left a [] ys h = tt
Apart-append_left a (x ∷ xs) ys (ne, h) = (ne, Apart-append_left a xs ys h)

pub Apart-append_right : (a : ℕ) (xs ys : List ℕ) → Apart a (xs ++ ys) → Apart a ys
Apart-append_right a [] ys h = h
Apart-append_right a (x ∷ xs) ys (ne, h) = Apart-append_right a xs ys h

pub Distinct-append_left : (xs ys : List ℕ) → Distinct (xs ++ ys) → Distinct xs
Distinct-append_left [] ys h = tt
Distinct-append_left (x ∷ xs) ys (a, h) =
    (Apart-append_left x xs ys a, Distinct-append_left xs ys h)

pub Distinct-append_right : (xs ys : List ℕ) → Distinct (xs ++ ys) → Distinct ys
Distinct-append_right [] ys h = h
Distinct-append_right (x ∷ xs) ys (a, h) = Distinct-append_right xs ys h

-- What stands before differs from what stands behind.
pub Distinct-append_ne :
    (xs ys : List ℕ) (a b : ℕ) → Distinct (xs ++ ys) → Among a xs → Among b ys → a ≢ b
Distinct-append_ne [] ys a b h n m f = elim n [ ]
Distinct-append_ne (x ∷ xs) ys a b (apart, h) (inl e) m f =
    Apart-ne x b ys (Apart-append_right x xs ys apart) m (sym e ∙ f)
Distinct-append_ne (x ∷ xs) ys a b (apart, h) (inr n) m f = Distinct-append_ne xs ys a b h n m f

pub Apart-Among : (a : ℕ) (xs : List ℕ) → ((y : ℕ) → Among y xs → a ≢ y) → Apart a xs
Apart-Among a [] h = tt
Apart-Among a (x ∷ xs) h = (h x (inl refl), Apart-Among a xs (λ y m. h y (inr m)))

-- Without its middle element, and with a new last element, a list still repeats nothing.
pub Distinct-remove :
    (xs : List ℕ) (e : ℕ) (ys : List ℕ) → Distinct (xs ++ e ∷ ys) → Distinct (xs ++ ys)
Distinct-remove [] e ys (apart, h) = h
Distinct-remove (x ∷ xs) e ys (apart, h) = (
  Apart-append x xs ys (Apart-append_left x xs (e ∷ ys) apart)
      (Apart-append_right x xs (e ∷ ys) apart).1,
  Distinct-remove xs e ys h,
)

pub Distinct-snoc : (xs : List ℕ) (e : ℕ) → Distinct xs → Apart e xs → Distinct (xs ++ e ∷ [])
Distinct-snoc [] e h a = (tt, tt)
Distinct-snoc (x ∷ xs) e (apart, h) (ne, a) =
    (Apart-append x xs (e ∷ []) apart ((λ f. ne (sym f)), tt), Distinct-snoc xs e h a)
