-- ===== src/Buddy/Cover.antt =====
-- Which bytes a family of free blocks covers, and how often.
use lilac_os.Base.{
  ℕ, zero, suc, ◌+◌, ◌^◌, ◌≤◌, ◌<◌, ◌≡◌, ◌≢◌, refl, List, [], ◌∷◌, ◌&&◌, arith, leb, ltb, ◌==◌,
  if◌then◌else◌, inl, inr, eq-cases, eq→==, ne→==,
}
use lilac_os.Word.Pow.{two-pow-suc, two-pow-pos}
use lilac_os.Buddy.{max_order}

-- 1 if the block of order `i` at `b` holds the byte at `x`, else 0
abbrev pub inside : ℕ → ℕ → ℕ → ℕ
inside b i x = if leb b x && ltb x (b + 2 ^ i) then 1 else 0

-- how many of the blocks of order `i` hold the byte at `x`
abbrev pub covered : ℕ → ℕ → List ℕ → ℕ
covered i x [] = 0
covered i x (b ∷ bs) = inside b i x + covered i x bs

-- the free blocks of each order
abbrev pub Blocks : Type 0
Blocks = ℕ → List ℕ

abbrev pub put : Blocks → ℕ → List ℕ → Blocks
put bs i l j = if i == j then l else bs j

cover_below : ℕ → Blocks → ℕ → ℕ
cover_below zero bs x = 0
cover_below (suc n) bs x = covered n x (bs n) + cover_below n bs x

-- how many free blocks hold the byte at `x`
pub cover : Blocks → ℕ → ℕ
cover bs x = cover_below max_order bs x

pub inside-halves : (b i x : ℕ) → inside b (suc i) x ≡ inside b i x + inside (b + 2 ^ i) i x
inside-halves b i x = ground (arith, two-pow-suc i, two-pow-pos i)

pub put_self : (bs : Blocks) (i : ℕ) (l : List ℕ) → put bs i l i ≡ l
put_self bs i l = rw (eq→== i i refl)

pub put_ne : (bs : Blocks) (i j : ℕ) (l : List ℕ) → i ≢ j → put bs i l j ≡ bs j
put_ne bs i j l ne = rw (ne→== i j ne)

cover_below-put_above :
    (n : ℕ) (bs : Blocks) (i : ℕ) (l : List ℕ) (x : ℕ)
    → n ≤ i
    → cover_below n (put bs i l) x ≡ cover_below n bs x
unfolding cover_below
cover_below-put_above zero bs i l x h = refl
cover_below-put_above (suc n) bs i l x h =
    rw (ne→== i n (omega arith), cover_below-put_above n bs i l x (omega arith))

cover_below-put :
    (n : ℕ) (bs : Blocks) (i : ℕ) (l : List ℕ) (x : ℕ)
    → i < n
    → cover_below n (put bs i l) x + covered i x (bs i) ≡ cover_below n bs x + covered i x l
unfolding cover_below
cover_below-put zero bs i l x h = absurd (omega arith)
cover_below-put (suc n) bs i l x h = elim (eq-cases i n) [
  | inl e ↦ rw (e, eq→== n n refl, cover_below-put_above n bs n l x (omega arith)) (omega arith)
  | inr ne ↦ rw (ne→== i n ne) (omega (arith, cover_below-put n bs i l x (omega arith)))
]

-- Giving list `i` other blocks changes the cover by what they hold.
pub cover-put :
    (bs : Blocks) (i : ℕ) (l : List ℕ) (x : ℕ)
    → i < max_order
    → cover (put bs i l) x + covered i x (bs i) ≡ cover bs x + covered i x l
unfolding cover
cover-put bs i l x h = cover_below-put max_order bs i l x h

covered-le_below : (n : ℕ) (bs : Blocks) (i x : ℕ) → i < n → covered i x (bs i) ≤ cover_below n bs x
unfolding cover_below
covered-le_below zero bs i x h = absurd (omega arith)
covered-le_below (suc n) bs i x h = elim (eq-cases i n) [
  | inl e ↦ rw e (omega arith)
  | inr ne ↦ omega (arith, covered-le_below n bs i x (omega arith))
]

pub covered-le-cover : (bs : Blocks) (i x : ℕ) → i < max_order → covered i x (bs i) ≤ cover bs x
unfolding cover
covered-le-cover bs i x h = covered-le_below max_order bs i x h

covered-add-le_below :
    (n : ℕ) (bs : Blocks) (i j x : ℕ)
    → i < n
    → j < n
    → i ≢ j
    → covered i x (bs i) + covered j x (bs j) ≤ cover_below n bs x
unfolding cover_below
covered-add-le_below zero bs i j x h g ne = absurd (omega arith)
covered-add-le_below (suc n) bs i j x h g ne = elim (eq-cases i n) [
  | inl e ↦ rw e (omega (arith, covered-le_below n bs j x (omega arith)))
  | inr p ↦ elim (eq-cases j n) [
    | inl e ↦ rw e (omega (arith, covered-le_below n bs i x (omega arith)))
    | inr q ↦ omega (arith, covered-add-le_below n bs i j x (omega arith) (omega arith) ne)
  ]
]

pub covered-add-le-cover :
    (bs : Blocks) (i j x : ℕ)
    → i < max_order
    → j < max_order
    → i ≢ j
    → covered i x (bs i) + covered j x (bs j) ≤ cover bs x
unfolding cover
covered-add-le-cover bs i j x h g ne = covered-add-le_below max_order bs i j x h g ne

-- The blocks of an allocator that has just been initialised.
abbrev pub no_blocks : Blocks
no_blocks i = []

cover_below-no_blocks : (n x : ℕ) → cover_below n no_blocks x ≡ 0
unfolding cover_below
cover_below-no_blocks zero x = refl
cover_below-no_blocks (suc n) x = omega (arith, cover_below-no_blocks n x)

pub cover-no_blocks : (x : ℕ) → cover no_blocks x ≡ 0
unfolding cover
cover-no_blocks x = cover_below-no_blocks max_order x
