-- ===== src/Processes/Calls/Adoption.antt =====
-- The loop by which `exit_current` hands the children of a process to `init`. It moves the node that it
-- stands on and follows that node's new link, so that it goes on in the list of `init`.
use lilac_os.Base.{
  ℕ, zero, suc, ◌≡◌, ◌≢◌, ◌∙◌, ◌⊎◌, inl, inr, refl, sym, ap, subst, Bool, true, false, List, ◌∷◌,
  none, ◌==◌, if◌then◌else◌, eq→==, ne→==, Among, Apart, Apart-ne,
}
use lilac_os.Lists.{Links, list_add, list_del, list_empty}
use lilac_os.Lists.Walks.{Walk-last, Walk-next, Walk-prev}
use lilac_os.Lists.Rings.{IsRing, next-insert, prev-insert, next-del, prev-del}
use lilac_os.Kernel.{Kernel, children_of}
use lilac_os.Processes.Calls.{adopt, adopt_all, adopt_children, exit_current}

-- The links lead from no node of a set out of it.
record IsClosed (l : Links) (S : ℕ → Type 0) : Type 0 where
  forth : (y : ℕ) → S y → S (l.next y)
  back : (y : ℕ) → S y → S (l.prev y)

either : (S : ℕ → Type 0) (b : Bool) (v w : ℕ) → S v → S w → S (if b then v else w)
either S true v w p q = p
either S false v w p q = q

module _ (l : Links) (S : ℕ → Type 0) (c : IsClosed l S) where
  IsClosed-del : (e : ℕ) → S e → IsClosed (list_del e l) S
  IsClosed-del e s = record {
    forth = λ y t. subst S (sym (next-del e y l)) (
        either S (e == y) e _ s
          (either S (l.prev e == y) (l.next e) (l.next y) (c.forth e s) (c.forth y t)));
    back = λ y t. subst S (sym (prev-del e y l)) (
        either S (e == y) e _ s
          (either S (l.next e == y) (l.prev e) (l.prev y) (c.back e s) (c.back y t)));
  }

  IsClosed-add : (new head : ℕ) → S new → S head → IsClosed (list_add new head l) S
  unfolding list_add
  IsClosed-add new head s h = record {
    forth = λ y t. subst S (sym (next-insert new head (l.next head) y l)) (
        either S (head == y) new _ s
          (either S (new == y) (l.next head) (l.next y) (c.forth head h) (c.forth y t)));
    back = λ y t.
        subst S (sym (prev-insert new head (l.next head) y l)) (
          either S (new == y) head _ h (either S (l.next head == y) new (l.prev y) s (c.back y t)));
  }

-- From a node of a closed set that holds `init` and not the head of the loop, the loop does not end.
adopt-closed :
    (fuel head init pos : ℕ) (l : Links) (S : ℕ → Type 0)
    → IsClosed l S
    → S pos
    → S init
    → ¬ (S head)
    → adopt fuel head init pos l ≡ none
unfolding adopt
adopt-closed zero head init pos l S c s i out = refl
adopt-closed (suc fuel) head init pos l S c s i out =
    let moved = IsClosed-add (list_del pos l) S (IsClosed-del l S c pos s) pos init s i in
    rw (ne→== pos head (λ e. out (subst S e s))) (
      adopt-closed fuel head init ((list_add pos init (list_del pos l)).next pos)
        (list_add pos init (list_del pos l)) S moved (moved.forth pos s) i out)

ring_next :
    {l : Links} {h : ℕ} {xs : List ℕ} (y : ℕ)
    → IsRing l h xs
    → Among y (h ∷ xs)
    → Among (l.next y) (h ∷ xs)
ring_next {l} {h} {xs} y ring a = elim (Walk-next l h xs (l.prev h) y ring.walk a) [
  | inl e ↦ inl (ap l.next e ∙ ring.closed)
  | inr b ↦ inr b
]

ring_prev :
    {l : Links} {h : ℕ} {xs : List ℕ} (y : ℕ)
    → IsRing l h xs
    → Among y (h ∷ xs)
    → Among (l.prev y) (h ∷ xs)
ring_prev {l} {h} {xs} y ring (inl e) =
    subst (λ z. Among (l.prev z) (h ∷ xs)) (sym e) (Walk-last l h xs (l.prev h) ring.walk)
ring_prev {l} {h} {xs} y ring (inr a) = Walk-prev l h xs (l.prev h) y ring.walk a

module _ (l : Links) (head init c : ℕ) (cs xs : List ℕ) (mine : IsRing l head (c ∷ cs))
    (theirs : IsRing l init xs)
    (apart : (y : ℕ) → Among y (init ∷ xs) → Apart y (head ∷ c ∷ cs)) where
  abbrev Trap : ℕ → Type 0
  Trap y = (y ≡ c) ⊎ Among y (init ∷ xs)

  abbrev unlinked : Links
  unlinked = list_del c l

  -- Unlinking the child leaves the list of `init` alone.
  unlinked_same :
      (y : ℕ) → Among y (init ∷ xs) → (unlinked.next y ≡ l.next y) × (unlinked.prev y ≡ l.prev y)
  unlinked_same y a =
      let away = apart y a in
      let not_c : c ≢ y = λ e. away.1.0 (sym e) in
      let before = ring_prev c mine (inr (inl refl)) in
      let behind = ring_next c mine (inr (inl refl)) in
      (
        next-del c y l
            ∙ rw (
              ne→== c y not_c,
              ne→== (l.prev c) y (λ e. Apart-ne y (l.prev c) (head ∷ c ∷ cs) away before (sym e)),
            ),
        prev-del c y l
            ∙ rw (
              ne→== c y not_c,
              ne→== (l.next c) y (λ e. Apart-ne y (l.next c) (head ∷ c ∷ cs) away behind (sym e)),
            ),
      )

  kept_next : (y : ℕ) → Among y (init ∷ xs) → Trap (unlinked.next y)
  kept_next y a =
      inr (subst (λ z. Among z (init ∷ xs)) (sym (unlinked_same y a).0) (ring_next y theirs a))

  kept_prev : (y : ℕ) → Among y (init ∷ xs) → Trap (unlinked.prev y)
  kept_prev y a =
      inr (subst (λ z. Among z (init ∷ xs)) (sym (unlinked_same y a).1) (ring_prev y theirs a))

  -- The child's own links, once it is unlinked, lead to itself.
  own_next : Trap (unlinked.next c)
  own_next = inl (next-del c c l ∙ rw (eq→== c c refl))

  own_prev : Trap (unlinked.prev c)
  own_prev = inl (prev-del c c l ∙ rw (eq→== c c refl))

  trap : IsClosed (list_add c init unlinked) Trap
  trap =
      IsClosed-add unlinked Trap
        (record {
          forth = λ y t. elim t [
            | inl e ↦ subst (λ z. Trap (unlinked.next z)) (sym e) own_next
            | inr a ↦ kept_next y a
          ];
          back = λ y t. elim t [
            | inl e ↦ subst (λ z. Trap (unlinked.prev z)) (sym e) own_prev
            | inr a ↦ kept_prev y a
          ];
        })
        c init (inl refl) (inr (inl refl))

  outside : ¬ (Trap head)
  outside (inl e) = mine.distinct.0.0 e
  outside (inr a) = (apart head a).0 refl

  -- A process with a child never comes out of the loop that hands its children to `init`, on any
  -- fuel.
  pub adopt-never : (fuel : ℕ) → adopt fuel head init (l.next head) l ≡ none
  unfolding adopt
  adopt-never zero = refl
  adopt-never (suc fuel) =
      let m = list_add c init unlinked in
      let start : l.next head ≡ c = mine.walk.0 in
      rw (start, ne→== c head (λ e. mine.distinct.0.0 (sym e)))
        (adopt-closed fuel head init (m.next c) m Trap trap (trap.forth c (inl refl))
          (inr (inl refl)) outside)

adopt_all-never :
    (fuel rounds head init c : ℕ) (cs xs : List ℕ) (l : Links)
    → IsRing l head (c ∷ cs)
    → IsRing l init xs
    → ((y : ℕ) → Among y (init ∷ xs) → Apart y (head ∷ c ∷ cs))
    → adopt_all fuel rounds head init l ≡ none
unfolding adopt_all list_empty
adopt_all-never fuel zero head init c cs xs l mine theirs apart = refl
adopt_all-never fuel (suc rounds) head init c cs xs l mine theirs apart = rw (
  adopt-never l head init c cs xs mine theirs apart fuel,
  ne→== (l.next head) head (λ e. mine.distinct.0.0 (sym e ∙ mine.walk.0)),
)

-- exit_current of a process other than init that has a child does not end, on any fuel, where
-- the children of the two processes are lists without a common node.
pub exit_current-never :
    (fuel : ℕ) (k : Kernel) (c : ℕ) (cs xs : List ℕ)
    → k.current ≢ k.init
    → IsRing k.links (children_of k.current) (c ∷ cs)
    → IsRing k.links (children_of k.init) xs
    → ((y : ℕ) → Among y (children_of k.init ∷ xs) → Apart y (children_of k.current ∷ c ∷ cs))
    → exit_current fuel k ≡ none
unfolding exit_current adopt_children
exit_current-never fuel k c cs xs ne mine theirs apart = rw (
  ne→== k.current k.init ne,
  if◌then◌else◌,
  adopt_children,
  adopt_all-never fuel fuel (children_of k.current) (children_of k.init) c cs xs k.links mine theirs
      apart,
)
