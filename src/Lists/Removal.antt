-- ===== src/Lists/Removal.antt =====
-- `list_del` against lists of nodes.
use mathlib.Core.List.{append-nil}
use lilac_os.Base.{
  ℕ, ◌≡◌, ◌≢◌, ◌∙◌, inl, inr, refl, sym, ap, subst, List, [], ◌∷◌, ◌++◌, eq→==, ne→==, Among,
  Distinct, Apart-ne, Distinct-append_left, Distinct-append_right, Distinct-append_ne,
  Distinct-remove,
}
use lilac_os.Lists.{Links, list_del}
use lilac_os.Lists.Walks.{Walk, Walk-last, Walk-ext, Walk-append, Walk-split}
use lilac_os.Lists.Rings.{IsRing, next-del, prev-del}

module _ (l : Links) (h : ℕ) (ys : List ℕ) (e : ℕ) (zs : List ℕ)
    (d : Distinct (h ∷ ys ++ e ∷ zs)) where
  before-ne : (y : ℕ) → Among y (h ∷ ys) → y ≢ e
  before-ne y a = Distinct-append_ne (h ∷ ys) (e ∷ zs) y e d a (inl refl)

  -- The walk before `e` is kept where `e` leads to a node `n` outside it.
  before_kept :
      (n : ℕ)
      → l.next e ≡ n
      → ((y : ℕ) → Among y ys → n ≢ y)
      → Walk l h ys (l.prev e)
      → Walk (list_del e l) h ys (l.prev e)
  before_kept n leads apart w =
      Walk-ext l (list_del e l) h ys (l.prev e) (Distinct-append_left (h ∷ ys) (e ∷ zs) d)
        (λ y a ne.
          next-del e y l
          ∙ rw (ne→== e y (λ f. before-ne y a (sym f)), ne→== (l.prev e) y (λ f. ne (sym f))))
        (λ y a.
          prev-del e y l
          ∙ rw (
            ne→== e y (λ f. before-ne y (inr a) (sym f)),
            ne→== (l.next e) y (λ f. apart y a (sym leads ∙ f)),
          ))
        w

  next_before : Among (l.prev e) (h ∷ ys) → (list_del e l).next (l.prev e) ≡ l.next e
  next_before a =
      next-del e (l.prev e) l
      ∙ rw (
        ne→== e (l.prev e) (λ f. before-ne (l.prev e) a (sym f)),
        eq→== (l.prev e) (l.prev e) refl,
      )

  prev_after : e ≢ l.next e → (list_del e l).prev (l.next e) ≡ l.prev e
  prev_after ne =
      prev-del e (l.next e) l ∙ rw (ne→== e (l.next e) ne, eq→== (l.next e) (l.next e) refl)

-- A node deleted from a ring, wherever it stands, leaves the ring of the other nodes in their
-- order.
pub IsRing-del :
    {l : Links} {h : ℕ} (ys : List ℕ) (e : ℕ) (zs : List ℕ)
    → IsRing l h (ys ++ e ∷ zs)
    → IsRing (list_del e l) h (ys ++ zs)
IsRing-del {l} {h} ys e [] ring =
    let (w, leads, back) = Walk-split l h ys e [] (l.prev h) ring.walk in
    let m = list_del e l in
    let p = l.prev e in
    let among : Among p (h ∷ ys) = Walk-last l h ys p w in
    let round : l.next e ≡ h = ap l.next back ∙ ring.closed in
    let eh : e ≢ h = λ f. before-ne l h ys e [] ring.distinct h (inl refl) (sym f) in
    let last : m.prev h ≡ p =
      ap m.prev (sym round) ∙ prev_after l h ys e [] ring.distinct (λ f. eh (f ∙ round)) in
    subst (IsRing m h) (sym (append-nil ys)) (record {
      walk = subst (Walk m h ys) (sym last) (
          before_kept l h ys e [] ring.distinct h round
            (λ y a. Apart-ne h y ys (Distinct-append_left (h ∷ ys) (e ∷ []) ring.distinct).0 a) w);
      closed = ap m.next last ∙ (next_before l h ys e [] ring.distinct among ∙ round);
      distinct = Distinct-append_left (h ∷ ys) (e ∷ []) ring.distinct;
    })
IsRing-del {l} {h} ys e (z ∷ zs) ring =
    let (w, leads, (forth, back, v)) = Walk-split l h ys e (z ∷ zs) (l.prev h) ring.walk in
    let d = ring.distinct in
    let m = list_del e l in
    let p = l.prev e in
    let last = l.prev h in
    let among : Among p (h ∷ ys) = Walk-last l h ys p w in
    let end : Among last (z ∷ zs) = Walk-last l z zs last v in
    let behind : Distinct (e ∷ z ∷ zs) = Distinct-append_right (h ∷ ys) (e ∷ z ∷ zs) d in
    let across : (y : ℕ) → Among y (h ∷ ys) → (x : ℕ) → Among x (z ∷ zs) → y ≢ x =
      λ y a x b. Distinct-append_ne (h ∷ ys) (e ∷ z ∷ zs) y x d a (inr b) in
    let kept : m.prev h ≡ last =
      prev-del e h l
      ∙ rw (
        ne→== e h (λ f. before-ne l h ys e (z ∷ zs) d h (inl refl) (sym f)),
        ne→== (l.next e) h (λ f. across h (inl refl) z (inl refl) (sym f ∙ forth)),
      ) in
    let untouched : (y : ℕ) → Among y (z ∷ zs) → m.next y ≡ l.next y = λ y a.
      next-del e y l
      ∙ rw (ne→== e y (Apart-ne e y (z ∷ zs) behind.0 a), ne→== p y (across p among y a)) in
    record {
      walk = subst (Walk m h (ys ++ z ∷ zs)) (sym kept) (
          Walk-append m h ys p z zs last
            (before_kept l h ys e (z ∷ zs) d z forth
              (λ y a f. across y (inr a) z (inl refl) (sym f)) w)
            (next_before l h ys e (z ∷ zs) d among ∙ forth)
            (ap m.prev (sym forth) ∙ prev_after l h ys e (z ∷ zs) d (λ f. behind.0.0 (f ∙ forth)))
            (Walk-ext l m z zs last behind.1 (λ y a ne. untouched y a)
              (λ y a.
                prev-del e y l
                ∙ rw (
                  ne→== e y (Apart-ne e y (z ∷ zs) behind.0 (inr a)),
                  ne→== (l.next e) y (λ f. Apart-ne z y zs behind.1.0 a (sym forth ∙ f)),
                ))
              v));
      closed = ap m.next kept ∙ (untouched last end ∙ ring.closed);
      distinct = Distinct-remove (h ∷ ys) e (z ∷ zs) d;
    }
