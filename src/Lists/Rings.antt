-- ===== src/Lists/Rings.antt =====
-- The operations of kernel/list.h against lists of nodes.
use lilac_os.Base.{
  ℕ, ◌≡◌, ◌≢◌, ◌∙◌, ◌↔◌, inl, inr, refl, sym, ap, subst, true, false, List, [], ◌∷◌, ◌++◌, arith,
  ◌==◌, if◌then◌else◌, eq→==, ne→==, Among, Apart, Distinct, Apart-ne, Apart-append, Distinct-snoc,
}
use lilac_os.Lists.{
  Links, init_list_head, list_insert, list_add, list_add_tail, list_del, list_empty,
}
use lilac_os.Lists.Walks.{Walk, Walk-last, Walk-ext, Walk-snoc}

-- The ring of `head` leads through the nodes `xs` and back to it, and no node stands twice.
pub record IsRing (l : Links) (head : ℕ) (xs : List ℕ) : Type 0 where
  pub walk : Walk l head xs (l.prev head)
  pub closed : l.next (l.prev head) ≡ head
  pub distinct : Distinct (head ∷ xs)

-- What `__list_add` and `list_del` leave in each field.
pub next-insert :
    (new before after y : ℕ) (l : Links)
    → (list_insert new before after l).next y
      ≡ (if before == y then new else if new == y then after else l.next y)
unfolding list_insert
next-insert new before after y l = ground arith

pub prev-insert :
    (new before after y : ℕ) (l : Links)
    → (list_insert new before after l).prev y
      ≡ (if new == y then before else if after == y then new else l.prev y)
unfolding list_insert
prev-insert new before after y l = ground arith

pub next-del :
    (e y : ℕ) (l : Links)
    → (list_del e l).next y ≡ (if e == y then e else if l.prev e == y then l.next e else l.next y)
unfolding list_del init_list_head
next-del e y l = ground arith

pub prev-del :
    (e y : ℕ) (l : Links)
    → (list_del e l).prev y ≡ (if e == y then e else if l.next e == y then l.prev e else l.prev y)
unfolding list_del init_list_head
prev-del e y l = ground arith

-- An initialised head has an empty ring.
pub IsRing-init : (h : ℕ) (l : Links) → IsRing (init_list_head h l) h []
unfolding init_list_head
IsRing-init h l = record { walk = ground arith; closed = ground arith; distinct = (tt, tt) }

module _ {l : Links} {h : ℕ} {xs : List ℕ} (ring : IsRing l h xs) where
  last_Among : Among (l.prev h) (h ∷ xs)
  last_Among = Walk-last l h xs (l.prev h) ring.walk

  -- A node that is not in the ring becomes its last by list_add_tail, and the other nodes stay
  -- in their order.
  pub IsRing-add_tail :
      (new : ℕ) → Apart new (h ∷ xs) → IsRing (list_add_tail new h l) h (xs ++ new ∷ [])
  unfolding list_add_tail
  IsRing-add_tail new (neh, apart) =
      let last = l.prev h in
      let m = list_insert new last h l in
      let new_last : new ≢ last = Apart-ne new last (h ∷ xs) (neh, apart) last_Among in
      let moved : m.prev h ≡ new =
        prev-insert new last h h l ∙ rw (ne→== new h neh, eq→== h h refl) in
      record {
        walk = subst (Walk m h (xs ++ new ∷ [])) (sym moved) (
            Walk-snoc m h xs last new
              (Walk-ext l m h xs last ring.distinct
                (λ y a ne.
                  next-insert new last h y l
                  ∙ rw (
                    ne→== last y (λ e. ne (sym e)),
                    ne→== new y (Apart-ne new y (h ∷ xs) (neh, apart) a),
                  ))
                (λ y a.
                  prev-insert new last h y l
                  ∙ rw (
                    ne→== new y (Apart-ne new y xs apart a),
                    ne→== h y (Apart-ne h y xs ring.distinct.0 a),
                  ))
                ring.walk)
              (next-insert new last h last l ∙ rw (eq→== last last refl))
              (prev-insert new last h new l ∙ rw (eq→== new new refl)));
        closed =
            ap m.next moved
            ∙ (next-insert new last h new l
                ∙ rw (ne→== last new (λ e. new_last (sym e)), eq→== new new refl));
        distinct = (
          Apart-append h xs (new ∷ []) ring.distinct.0 ((λ e. neh (sym e)), tt),
          Distinct-snoc xs new ring.distinct.1 apart,
        );
      }

-- Links that agree on a ring's nodes have the same ring.
pub IsRing-ext :
    {l : Links} {h : ℕ} {xs : List ℕ} (m : Links)
    → IsRing l h xs
    → ((y : ℕ) → Among y (h ∷ xs) → (m.next y ≡ l.next y) × (m.prev y ≡ l.prev y))
    → IsRing m h xs
IsRing-ext {l} {h} {xs} m ring same =
    let last : m.prev h ≡ l.prev h = (same h (inl refl)).1 in
    record {
      walk = subst (Walk m h xs) (sym last) (
          Walk-ext l m h xs (l.prev h) ring.distinct (λ y a ne. (same y a).0)
            (λ y a. (same y (inr a)).1) ring.walk);
      closed = ap m.next last ∙ ((same (l.prev h) (last_Among ring)).0 ∙ ring.closed);
      distinct = ring.distinct;
    }

-- A node that is not in the ring becomes its first by list_add, and the other nodes stay in
-- their order.
pub IsRing-add :
    {l : Links} {h : ℕ} (xs : List ℕ)
    → IsRing l h xs
    → (new : ℕ) → Apart new (h ∷ xs)
    → IsRing (list_add new h l) h (new ∷ xs)
unfolding list_add
IsRing-add {l} {h} [] ring new (neh, apart) =
    let first : l.next h ≡ h = ap l.next ring.walk ∙ ring.closed in
    let m = list_insert new h (l.next h) l in
    let last : m.prev h ≡ new =
      prev-insert new h (l.next h) h l ∙ rw (ne→== new h neh, first, eq→== h h refl) in
    record {
      walk = (
        next-insert new h (l.next h) h l ∙ rw (eq→== h h refl),
        prev-insert new h (l.next h) new l ∙ rw (eq→== new new refl),
        sym last,
      );
      closed =
          ap m.next last
          ∙ (next-insert new h (l.next h) new l
              ∙ (rw (ne→== h new (λ e. neh (sym e)), eq→== new new refl) first));
      distinct = (((λ e. neh (sym e)), tt), (tt, tt));
    }
IsRing-add {l} {h} (x ∷ xs) ring new (neh, apart) =
    let (forth, back, w) = ring.walk in
    let first = l.next h in
    let last = l.prev h in
    let m = list_insert new h first l in
    let among : Among last (x ∷ xs) = Walk-last l x xs last w in
    let neh' = Apart-ne h x (x ∷ xs) ring.distinct.0 (inl refl) in
    let kept : m.prev h ≡ last =
      prev-insert new h first h l
      ∙ rw (ne→== new h neh, ne→== first h (λ e. neh' (sym e ∙ forth))) in
    record {
      walk = (
        next-insert new h first h l ∙ rw (eq→== h h refl),
        prev-insert new h first new l ∙ rw (eq→== new new refl),
        (
          next-insert new h first new l
              ∙ (rw (ne→== h new (λ e. neh (sym e)), eq→== new new refl) forth),
          prev-insert new h first x l ∙ rw (ne→== new x apart.0, eq→== first x forth),
          subst (Walk m x xs) (sym kept) (
              Walk-ext l m x xs last ring.distinct.1
                (λ y a ne.
                  next-insert new h first y l
                  ∙ rw (
                    ne→== h y (Apart-ne h y (x ∷ xs) ring.distinct.0 a),
                    ne→== new y (Apart-ne new y (x ∷ xs) apart a),
                  ))
                (λ y a.
                  prev-insert new h first y l
                  ∙ rw (
                    ne→== new y (Apart-ne new y xs apart.1 a),
                    ne→== first y (λ e. Apart-ne x y xs ring.distinct.1.0 a (sym forth ∙ e)),
                  ))
                w),
        ),
      );
      closed =
          ap m.next kept
          ∙ (next-insert new h first last l
              ∙ (rw
                  (
                    ne→== h last (Apart-ne h last (x ∷ xs) ring.distinct.0 among),
                    ne→== new last (Apart-ne new last (x ∷ xs) apart among),
                  )
                  ring.closed));
      distinct = (((λ e. neh (sym e)), ring.distinct.0), (apart, ring.distinct.1));
    }

-- The deleted node is a ring of its own.
pub IsRing-del_self : (e : ℕ) (l : Links) → IsRing (list_del e l) e []
IsRing-del_self e l =
    let back : (list_del e l).prev e ≡ e = prev-del e e l ∙ rw (eq→== e e refl) in
    record {
      walk = sym back;
      closed = ap ((list_del e l).next) back ∙ (next-del e e l ∙ rw (eq→== e e refl));
      distinct = (tt, tt);
    }

-- On a ring, list_empty is true exactly when the ring has no nodes.
pub list_empty_lem :
    {l : Links} {h : ℕ} (xs : List ℕ) → IsRing l h xs → (list_empty h l ≡ true) ↔ (xs ≡ [])
unfolding list_empty
list_empty_lem {l} {h} [] ring =
    ((λ e. refl), λ e. eq→== (l.next h) h (ap l.next ring.walk ∙ ring.closed))
list_empty_lem {l} {h} (x ∷ xs) ring =
    let differ : (l.next h == h) ≡ false =
      ne→== (l.next h) h (λ e. ring.distinct.0.0 (sym e ∙ ring.walk.0)) in
    ((λ e. absurd (cc)), λ e. absurd (cc))
