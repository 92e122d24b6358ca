-- ===== src/Paging/Leaves.antt =====
-- A store into a table of the lowest level changes the way of one page number alone.
use lilac_os.Base.{
  ℕ, zero, suc, ◌+◌, ◌-◌, ◌*◌, ◌%◌, ◌^◌, ◌≤◌, ◌<◌, ◌≡◌, ◌≢◌, ◌∙◌, inl, inr, sym, ap, subst, arith,
  eq-cases,
}
use lilac_os.Memory.{Memory, store64, load64-store64_self, load64-store64_ne}
use lilac_os.Buddy.Cover.{Blocks}
use lilac_os.Paging.Tables.{
  index, index-lt, child, entry, walk, last_table, IsTables, apart, last_table_zero,
  last_table_none, last_table_some, last_table-single, last_table-level, walk-last_table,
  walk-no_table,
}

-- The tables above the lowest level have the same entries in another memory.
module _ (m after : Memory) {bs : Blocks} {level : ℕ → ℕ} (v : IsTables m bs level)
    (same : (t i : ℕ) → 1 < level t → i < 512 → entry after t i ≡ entry m t i) where
  pub last_table-ext : (n t x : ℕ) → level t ≡ suc n → last_table after n t x ≡ last_table m n t x
  last_table-ext zero t x a = last_table_zero after t x ∙ sym (last_table_zero m t x)
  last_table-ext (suc n) t x a =
      let here = same t (index x (suc n)) (omega (arith, a)) (index-lt x (suc n)) in
      elim (eq-cases (entry m t (index x (suc n))) 0) [
        | inl z ↦ last_table_none after n t x (here ∙ z) ∙ sym (last_table_none m n t x z)
        | inr p ↦
            last_table_some after n t x (λ z. p (sym here ∙ z))
            ∙ (ap (λ e. last_table after n (child e) x) here
                ∙ (last_table-ext n (child (entry m t (index x (suc n)))) x
                      (v.down t (index x (suc n)) n a (index-lt x (suc n)) p)
                    ∙ sym (last_table_some m n t x p)))
      ]

  pub IsTables-ext : IsTables after bs level
  IsTables-ext = record {
    aligned = v.aligned;
    above = v.above;
    below = v.below;
    held = v.held;
    down = λ t i n a b p.
        let here = same t i (omega (arith, a)) b in
        ap (λ e. level (child e)) here ∙ v.down t i n a b (λ z. p (here ∙ z));
    points = λ t i n a b p.
        let here = same t i (omega (arith, a)) b in
        ap (λ e. e % 16) here ∙ v.points t i n a b (λ z. p (here ∙ z));
    single = λ t i u j a b c d p q e.
        let one = same t i a c in
        let two = same u j b d in
        v.single t i u j a b c d (λ z. p (one ∙ z)) (λ z. q (two ∙ z))
          (sym (ap child one) ∙ (e ∙ ap child two));
  }

module _ {m : Memory} {bs : Blocks} {level : ℕ → ℕ} (v : IsTables m bs level) (leaf i pte : ℕ)
    (low : level leaf ≡ 1) (small : i < 512) (word : pte < 2 ^ 64) where
  abbrev stored : Memory
  stored = store64 m (leaf + 8 * i) pte

  pub stored_same : (t j : ℕ) → 1 < level t → j < 512 → entry stored t j ≡ entry m t j
  stored_same t j a b =
      load64-store64_ne m (leaf + 8 * i) pte (t + 8 * j)
        (elim (apart t leaf j i (v.aligned t (λ e. omega (arith, a, e)))
          (v.aligned leaf (λ e. omega (arith, low, e))) b small) [
            | inl s ↦ absurd (omega (arith, a, low, ap level s.0))
            | inr away ↦ away
          ])

  pub IsTables-stored : IsTables stored bs level
  IsTables-stored = IsTables-ext m stored v stored_same

  module _ (n t x : ℕ) (top : level t ≡ suc n) (ends : last_table m n t x ≡ leaf)
      (here : index x 0 ≡ i) where
    there : leaf ≢ 0
    there z = omega (arith, v.above leaf (λ e. omega (arith, low, e)), z)

    pub walk-stored_self : walk stored n t x ≡ pte
    walk-stored_self =
        let last = last_table-ext m stored v stored_same n t x top ∙ ends in
        walk-last_table IsTables-stored n t x top (λ z. there (sym last ∙ z))
        ∙ (ap (λ u. entry stored u (index x 0)) last
            ∙ (ap (entry stored leaf) here ∙ load64-store64_self m (leaf + 8 * i) pte word))

    pub walk-stored_ne :
        (y : ℕ) → ¬ ((k : ℕ) → k ≤ n → index x k ≡ index y k) → walk stored n t y ≡ walk m n t y
    walk-stored_ne y other =
        let last = last_table-ext m stored v stored_same n t y top in
        elim (eq-cases (last_table m n t y) 0) [
          | inl z ↦
              walk-no_table IsTables-stored n t y top (last ∙ z) ∙ sym (walk-no_table v n t y top z)
          | inr p ↦
              walk-last_table IsTables-stored n t y top (λ z. p (sym last ∙ z))
              ∙ (ap (λ u. entry stored u (index y 0)) last
                  ∙ (load64-store64_ne m (leaf + 8 * i) pte (last_table m n t y + 8 * index y 0)
                        (elim (apart (last_table m n t y) leaf (index y 0) i
                          (v.aligned (last_table m n t y)
                            (λ e. omega (arith, last_table-level v n t y top p, e)))
                          (v.aligned leaf (λ e. omega (arith, low, e))) (index-lt y 0) small) [
                            | inl s ↦
                                let way =
                                  last_table-single v n t t x y top top (λ z. there (sym ends ∙ z))
                                    (ends ∙ sym s.0) in
                                absurd (
                                  other (λ k le. elim (eq-cases k 0) [
                                    | inl e ↦
                                        subst (λ j. index x j ≡ index y j) (sym e) (here ∙ sym s.1)
                                    | inr ne ↦
                                        let back : suc (k - 1) ≡ k = omega (arith, ne) in
                                        subst (λ j. index x j ≡ index y j) back
                                          (way.1 (k - 1) (omega (arith, le, ne)))
                                  ]))
                            | inr away ↦ away
                          ])
                      ∙ sym (walk-last_table v n t y top p)))
        ]
