-- ===== src/Paging/Growing.antt =====
-- A new table: a page that was free is cleared, and an empty entry is made to lead to it.
use lilac_os.Base.{
  ℕ, zero, suc, ◌+◌, ◌-◌, ◌*◌, ◌%◌, ◌^◌, ◌≤◌, ◌<◌, ◌≡◌, ◌≢◌, ◌∙◌, ◌⊎◌, inl, inr, refl, sym, ap,
  subst, arith, eq-cases, update, update_self, update_ne,
}
use lilac_os.Memory.{Memory, load64, store64, load64-ext, load64-store64_self, load64-store64_ne}
use lilac_os.Buddy.Cover.{Blocks, cover, inside}
use lilac_os.Frames.{kernel_map_offset}
use lilac_os.Paging.Tables.{
  index, index-lt, child, entry, walk, IsTables, apart, walk_none, walk_some, walk_zero,
}

-- A page taken from the free bytes and cleared.
pub record IsTaken (m after : Memory) (bs blocks : Blocks) (page : ℕ) : Type 0 where
  pub once : (x : ℕ) → cover bs x ≤ 1
  pub moved : (x : ℕ) → cover blocks x + inside page 12 x ≡ cover bs x
  pub kept : (q : ℕ) → cover bs q ≡ 0 → after q ≡ m q
  pub zeroed : (q : ℕ) → page ≤ q → q < page + 4096 → after q ≡ 0
  pub aligned : page % 4096 ≡ 0
  pub above : kernel_map_offset ≤ page
  pub below : page + 4096 ≤ 2 ^ 64

module _ {m after : Memory} {bs blocks : Blocks} {level : ℕ → ℕ} {page : ℕ}
    (v : IsTables m bs level) (taken : IsTaken m after bs blocks page) (n t i pte : ℕ)
    (up : level t ≡ suc (suc n)) (small : i < 512) (empty : entry m t i ≡ 0)
    (leads : child pte ≡ page) (points : pte % 16 ≡ 1) (ne : pte ≢ 0) (word : pte < 2 ^ 64) where
  abbrev grown : Memory
  grown = store64 after (t + 8 * i) pte

  abbrev levels : ℕ → ℕ
  levels = update level page (suc n)

  page_free : cover bs page ≢ 0
  page_free z = ground (arith, taken.moved page, z)

  -- A table is not the page.
  no_page : (u : ℕ) → level u ≢ 0 → page ≢ u
  no_page u p e = page_free (v.held u page p (omega (arith, e)) (omega (arith, e)))

  pub level_old : (u : ℕ) → level u ≢ 0 → levels u ≡ level u
  level_old u p = update_ne level page u (suc n) (no_page u p)

  pub level_page : levels page ≡ suc n
  level_page = update_self level page (suc n)

  here : level t ≢ 0
  here e = omega (arith, up, e)

  -- What the cells of the tables hold.
  pub grown_self : entry grown t i ≡ pte
  grown_self = load64-store64_self after (t + 8 * i) pte word

  pub grown_ne :
      (u j : ℕ) → level u ≢ 0 → j < 512 → ¬ ((u ≡ t) × (j ≡ i)) → entry grown u j ≡ entry m u j
  grown_ne u j p b other =
      load64-store64_ne after (t + 8 * i) pte (u + 8 * j)
        (elim (apart u t j i (v.aligned u p) (v.aligned t here) b small) [
          | inl s ↦ absurd (other s)
          | inr away ↦ away
        ])
      ∙ load64-ext after m (u + 8 * j) (λ k l.
        taken.kept (u + 8 * j + k) (v.held u (u + 8 * j + k) p (omega arith) (omega (arith, b, l))))

  grown_page : (j : ℕ) → j < 512 → entry grown page j ≡ 0
  grown_page j b =
      load64-store64_ne after (t + 8 * i) pte (page + 8 * j)
        (elim (apart page t j i taken.aligned (v.aligned t here) b small) [
          | inl s ↦ absurd (no_page t here s.0)
          | inr away ↦ away
        ])
      ∙ (load64-ext after (λ q. 0) (page + 8 * j)
            (λ k l. taken.zeroed (page + 8 * j + k) (omega arith) (omega (arith, b, l)))
          ∙ zero_cell (page + 8 * j))
    where
      zero_cell : (q : ℕ) → load64 (λ x. 0) q ≡ 0
      zero_cell q = unfold load64 in refl

  -- An entry that is not empty is the new one, or was there.
  new_or_old :
      (u j : ℕ)
      → levels u ≢ 0
      → j < 512
      → entry grown u j ≢ 0
      → ((u ≡ t) × (j ≡ i) × (entry grown u j ≡ pte))
        ⊎ ((level u ≢ 0) × (entry grown u j ≡ entry m u j))
  new_or_old u j p b q = elim (eq-cases page u) [
    | inl e ↦ absurd (q (subst (λ x. entry grown x j ≡ 0) e (grown_page j b)))
    | inr d ↦
        let old : level u ≢ 0 = λ z. p (update_ne level page u (suc n) d ∙ z) in
        elim (eq-cases u t) [
          | inl same ↦ elim (eq-cases j i) [
            | inl cell ↦ inl (
              same,
              cell,
              subst (λ x. entry grown x j ≡ pte) (sym same)
                  (subst (λ x. entry grown t x ≡ pte) (sym cell) grown_self),
            )
            | inr other ↦ inr (old, grown_ne u j old b (λ s. other s.1))
          ]
          | inr other ↦ inr (old, grown_ne u j old b (λ s. other s.0))
        ]
  ]

  new_or_table : (u : ℕ) → levels u ≢ 0 → (page ≡ u) ⊎ (level u ≢ 0)
  new_or_table u p = elim (eq-cases page u) [
    | inl e ↦ inl e
    | inr d ↦ inr (λ z. p (update_ne level page u (suc n) d ∙ z))
  ]

  high : (u : ℕ) → level u ≢ 0 → 1 < levels u → 1 < level u
  high u p h = omega (arith, level_old u p, h)

  pub IsTables-grown : IsTables grown blocks levels
  IsTables-grown = record {
    aligned = λ u p. elim (new_or_table u p) [
      | inl e ↦ subst (λ x. x % 4096 ≡ 0) e taken.aligned
      | inr o ↦ v.aligned u o
    ];
    above = λ u p. elim (new_or_table u p) [
      | inl e ↦ subst (λ x. kernel_map_offset ≤ x) e taken.above
      | inr o ↦ v.above u o
    ];
    below = λ u p. elim (new_or_table u p) [
      | inl e ↦ subst (λ x. x + 4096 ≤ 2 ^ 64) e taken.below
      | inr o ↦ v.below u o
    ];
    held = λ u x p lo hi. elim (new_or_table u p) [
      | inl e ↦ ground (arith, e, taken.moved x, taken.once x)
      | inr o ↦ omega (arith, v.held u x o lo hi, taken.moved x)
    ];
    down = λ u j k a b q. elim (new_or_old u j (λ z. omega (arith, a, z)) b q) [
      | inl (same, cell, e) ↦
          let depth : suc (suc k) ≡ suc (suc n) =
            sym a ∙ (ap levels same ∙ (level_old t here ∙ up)) in
          ap (λ x. levels (child x)) e ∙ (ap levels leads ∙ (level_page ∙ omega (arith, depth)))
      | inr (old, e) ↦
          let under = v.down u j k (sym (level_old u old) ∙ a) b (λ z. q (e ∙ z)) in
          ap (λ x. levels (child x)) e
          ∙ (level_old (child (entry m u j)) (λ z. omega (arith, under, z)) ∙ under)
    ];
    points = λ u j k a b q. elim (new_or_old u j (λ z. omega (arith, a, z)) b q) [
      | inl (same, cell, e) ↦ ap (λ x. x % 16) e ∙ points
      | inr (old, e) ↦
          ap (λ x. x % 16) e ∙ v.points u j k (sym (level_old u old) ∙ a) b (λ z. q (e ∙ z))
    ];
    single = λ u j w l a b c d p q e. elim (new_or_old u j (λ z. omega (arith, a, z)) c p) [
      | inl (same, cell, f) ↦ elim (new_or_old w l (λ z. omega (arith, b, z)) d q) [
        | inl (same', cell', f') ↦ (same ∙ sym same', cell ∙ sym cell')
        | inr (old, f') ↦ absurd (
            no_child w l old b d (λ z. q (f' ∙ z))
              (sym leads ∙ (ap child (sym f) ∙ (e ∙ ap child f'))))
      ]
      | inr (old, f) ↦ elim (new_or_old w l (λ z. omega (arith, b, z)) d q) [
        | inl (same', cell', f') ↦ absurd (
            no_child u j old a c (λ z. p (f ∙ z))
              (sym leads ∙ (ap child (sym f') ∙ (sym e ∙ ap child f))))
        | inr (old', f') ↦
            v.single u j w l (high u old a) (high w old' b) c d (λ z. p (f ∙ z)) (λ z. q (f' ∙ z))
              (sym (ap child f) ∙ (e ∙ ap child f'))
      ]
    ];
  }
    where
      no_child :
          (u j : ℕ)
          → level u ≢ 0
          → 1 < levels u
          → j < 512
          → entry m u j ≢ 0
          → page ≢ child (entry m u j)
      no_child u j old a b p =
          let depth : level u ≡ suc (suc (level u - 2)) = omega (arith, high u old a) in
          no_page (child (entry m u j)) (λ z. omega (arith, z, v.down u j (level u - 2) depth b p))

  cell_empty : (u j : ℕ) → (u ≡ t) × (j ≡ i) → entry m u j ≡ 0
  cell_empty u j (same, cell) =
      subst (λ y. entry m y j ≡ 0) (sym same) (subst (λ y. entry m t y ≡ 0) (sym cell) empty)

  was_empty : (u j : ℕ) → level u ≢ 0 → j < 512 → entry grown u j ≡ 0 → entry m u j ≡ 0
  was_empty u j p b z = elim (eq-cases (entry m u j) 0) [
    | inl e ↦ e
    | inr full ↦ sym (grown_ne u j p b (λ s. full (cell_empty u j s))) ∙ z
  ]

  walk-page : (k x : ℕ) → walk grown k page x ≡ 0
  walk-page zero x = walk_zero grown page x ∙ grown_page (index x 0) (index-lt x 0)
  walk-page (suc k) x = walk_none grown k page x (grown_page (index x (suc k)) (index-lt x (suc k)))

  -- The new table changes no way.
  pub walk-grown : (k u x : ℕ) → level u ≡ suc k → walk grown k u x ≡ walk m k u x
  walk-grown zero u x a =
      walk_zero grown u x
      ∙ (grown_ne u (index x 0) (λ z. omega (arith, a, z)) (index-lt x 0)
            (λ s. omega (arith, a, up, ap level s.0))
          ∙ sym (walk_zero m u x))
  walk-grown (suc k) u x a = elim (eq-cases (entry grown u (index x (suc k))) 0) [
    | inl z ↦
        walk_none grown k u x z
        ∙ sym (
            walk_none m k u x
              (was_empty u (index x (suc k)) (λ y. omega (arith, a, y)) (index-lt x (suc k)) z))
    | inr p ↦
        elim (new_or_old u (index x (suc k))
          (λ z. omega (arith, a, level_old u (λ y. omega (arith, a, y)), z)) (index-lt x (suc k))
          p) [
            | inl (same, cell, e) ↦
                walk_some grown k u x p
                ∙ (ap (λ y. walk grown k (child y) x) e
                    ∙ (ap (λ y. walk grown k y x) leads
                        ∙ (walk-page k x
                            ∙ sym
                                (walk_none m k u x (cell_empty u (index x (suc k)) (same, cell))))))
            | inr (old, e) ↦
                let q : entry m u (index x (suc k)) ≢ 0 = λ z. p (e ∙ z) in
                walk_some grown k u x p
                ∙ (ap (λ y. walk grown k (child y) x) e
                    ∙ (walk-grown k (child (entry m u (index x (suc k)))) x
                          (v.down u (index x (suc k)) k a (index-lt x (suc k)) q)
                        ∙ sym (walk_some m k u x q)))
          ]
  ]
