-- ===== src/Lists/Walks.antt =====
-- Walks along the links, and what leaves them alone.
use lilac_os.Base.{
  ℕ, ◌≡◌, ◌≢◌, ◌∙◌, ◌⊎◌, inl, inr, refl, sym, ap, List, [], ◌∷◌, ◌++◌, Among, Distinct, Apart-ne,
}
use lilac_os.Lists.{Links}

-- From `p` the links lead through `xs`, forth and back, to its last node `r`.
abbrev pub Walk : Links → ℕ → List ℕ → ℕ → Type 0
Walk l p [] r = p ≡ r
Walk l p (x ∷ xs) r = (l.next p ≡ x) × (l.prev x ≡ p) × Walk l x xs r

-- A walk ends among its nodes.
pub Walk-last : (l : Links) (p : ℕ) (xs : List ℕ) (r : ℕ) → Walk l p xs r → Among r (p ∷ xs)
Walk-last l p [] r e = inl (sym e)
Walk-last l p (x ∷ xs) r (forth, back, w) = inr (Walk-last l x xs r w)

-- Other links serve the same walk where they agree on `next` up to the last node, and on `prev`
-- behind the first.
pub Walk-ext :
    (l m : Links) (p : ℕ) (xs : List ℕ) (r : ℕ)
    → Distinct (p ∷ xs)
    → ((y : ℕ) → Among y (p ∷ xs) → y ≢ r → m.next y ≡ l.next y)
    → ((y : ℕ) → Among y xs → m.prev y ≡ l.prev y)
    → Walk l p xs r
    → Walk m p xs r
Walk-ext l m p [] r d forth back w = w
Walk-ext l m p (x ∷ xs) r (apart, d) forth back (e, f, w) = (
  forth p (inl refl) (Apart-ne p r (x ∷ xs) apart (Walk-last l x xs r w)) ∙ e,
  back x (inl refl) ∙ f,
  Walk-ext l m x xs r d (λ y a ne. forth y (inr a) ne) (λ y a. back y (inr a)) w,
)

pub Walk-snoc :
    (l : Links) (p : ℕ) (xs : List ℕ) (r e : ℕ)
    → Walk l p xs r
    → l.next r ≡ e
    → l.prev e ≡ r
    → Walk l p (xs ++ e ∷ []) e
Walk-snoc l p [] r e w forth back = (ap l.next w ∙ forth, back ∙ sym w, refl)
Walk-snoc l p (x ∷ xs) r e (f, g, w) forth back = (f, g, Walk-snoc l x xs r e w forth back)

-- A walk through two walks.
pub Walk-append :
    (l : Links) (p : ℕ) (xs : List ℕ) (q x : ℕ) (ys : List ℕ) (r : ℕ)
    → Walk l p xs q
    → l.next q ≡ x
    → l.prev x ≡ q
    → Walk l x ys r
    → Walk l p (xs ++ x ∷ ys) r
Walk-append l p [] q x ys r w forth back v = (ap l.next w ∙ forth, back ∙ sym w, v)
Walk-append l p (y ∷ xs) q x ys r (f, g, w) forth back v =
    (f, g, Walk-append l y xs q x ys r w forth back v)

-- And a walk parted at one of its nodes.
pub Walk-split :
    (l : Links) (p : ℕ) (xs : List ℕ) (x : ℕ) (ys : List ℕ) (r : ℕ)
    → Walk l p (xs ++ x ∷ ys) r
    → Walk l p xs (l.prev x) × (l.next (l.prev x) ≡ x) × Walk l x ys r
Walk-split l p [] x ys r (f, g, w) = (sym g, ap l.next g ∙ f, w)
Walk-split l p (y ∷ xs) x ys r (f, g, w) =
    let (first, e, second) = Walk-split l y xs x ys r w in ((f, g, first), e, second)

-- The links lead from node to node.
pub Walk-next :
    (l : Links) (p : ℕ) (xs : List ℕ) (r y : ℕ)
    → Walk l p xs r
    → Among y (p ∷ xs)
    → (y ≡ r) ⊎ Among (l.next y) xs
Walk-next l p [] r y w (inl e) = inl (e ∙ w)
Walk-next l p [] r y w (inr a) = elim a [ ]
Walk-next l p (x ∷ xs) r y (forth, back, w) (inl e) = inr (inl (ap l.next e ∙ forth))
Walk-next l p (x ∷ xs) r y (forth, back, w) (inr a) = elim (Walk-next l x xs r y w a) [
  | inl e ↦ inl e
  | inr b ↦ inr (inr b)
]

pub Walk-prev :
    (l : Links) (p : ℕ) (xs : List ℕ) (r y : ℕ)
    → Walk l p xs r
    → Among y xs
    → Among (l.prev y) (p ∷ xs)
Walk-prev l p [] r y w a = elim a [ ]
Walk-prev l p (x ∷ xs) r y (forth, back, w) (inl e) = inl (ap l.prev e ∙ back)
Walk-prev l p (x ∷ xs) r y (forth, back, w) (inr a) = inr (Walk-prev l x xs r y w a)
