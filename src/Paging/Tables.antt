-- ===== src/Paging/Tables.antt =====
-- Page tables in memory: the walk that the hardware makes, and the invariant of the tables of one
-- address space. A table is named by the address at which the kernel reads it.
use lilac_os.Base.{
  ℕ, zero, suc, ◌+◌, ◌*◌, ◌/◌, ◌%◌, ◌^◌, ◌≤◌, ◌<◌, ◌≡◌, ◌≢◌, ◌∙◌, ◌⊎◌, inl, inr, refl, sym, ap,
  subst, arith, ◌==◌, if◌then◌else◌, eq-cases, lt-cases, eq→==, ne→==,
}
use lilac_os.Memory.{Memory, load64}
use lilac_os.Buddy.Cover.{Blocks, cover}
use lilac_os.Frames.{va, kernel_map_offset}
use lilac_os.Paging.{pte2pa, get_vpn_levels}

-- The part of a page number that picks an entry of a table of level `k`.
pub index : ℕ → ℕ → ℕ
index vpn zero = vpn % 512
index vpn (suc k) = index (vpn / 512) k

pub index-lt : (vpn k : ℕ) → index vpn k < 512
unfolding index
index-lt vpn zero = omega arith
index-lt vpn (suc k) = index-lt (vpn / 512) k

pub get_vpn_levels-index : (vpn k : ℕ) → k < 3 → get_vpn_levels vpn k ≡ index vpn k
unfolding get_vpn_levels index
get_vpn_levels-index vpn zero h = omega arith
get_vpn_levels-index vpn (suc zero) h = omega arith
get_vpn_levels-index vpn (suc (suc zero)) h = omega arith
get_vpn_levels-index vpn (suc (suc (suc k))) h = absurd (omega (arith, h))

-- Page numbers with the same three parts have the same low 27 bits.
pub index-low :
    (v w : ℕ)
    → index v 0 ≡ index w 0
    → index v 1 ≡ index w 1
    → index v 2 ≡ index w 2
    → v % 2 ^ 27 ≡ w % 2 ^ 27
unfolding index
index-low v w a b c = omega arith

-- The table that an entry leads to, and an entry of a table.
abbrev pub child : ℕ → ℕ
child pte = va (pte2pa pte)

abbrev pub entry : Memory → ℕ → ℕ → ℕ
entry m table i = load64 m (table + 8 * i)

-- The walk of the hardware from a table of level `n`: an entry that is valid and may be neither
-- read, written nor executed points to the table of the next level. The entry of the lowest level
-- that is reached, or 0 where another entry ends the walk above.
pub hardware_walk : Memory → (n table vpn : ℕ) → ℕ
hardware_walk m zero table vpn = entry m table (index vpn 0)
hardware_walk m (suc n) table vpn =
    let pte = entry m table (index vpn (suc n)) in
    let rest = hardware_walk m n (child pte) vpn in if pte % 16 == 1 then rest else 0

-- The last entry on the way of a page number through `n` tables and one more, or 0, where every
-- entry but 0 is followed.
pub walk : Memory → (n table vpn : ℕ) → ℕ
walk m zero table vpn = entry m table (index vpn 0)
walk m (suc n) table vpn =
    let pte = entry m table (index vpn (suc n)) in
    let rest = walk m n (child pte) vpn in if pte == 0 then 0 else rest

-- The last table on that way, or 0.
pub last_table : Memory → (n table vpn : ℕ) → ℕ
last_table m zero table vpn = table
last_table m (suc n) table vpn =
    let pte = entry m table (index vpn (suc n)) in
    let rest = last_table m n (child pte) vpn in if pte == 0 then 0 else rest

-- `level` gives each table one more than the tables below it, and other pages 0. No byte of a table
-- is free, an entry points to a table of the level below, and no two entries to the same one.
pub record IsTables (m : Memory) (bs : Blocks) (level : ℕ → ℕ) : Type 0 where
  pub aligned : (t : ℕ) → level t ≢ 0 → t % 4096 ≡ 0
  pub above : (t : ℕ) → level t ≢ 0 → kernel_map_offset ≤ t
  pub below : (t : ℕ) → level t ≢ 0 → t + 4096 ≤ 2 ^ 64
  pub held : (t x : ℕ) → level t ≢ 0 → t ≤ x → x < t + 4096 → cover bs x ≡ 0
  pub down :
      (t i n : ℕ)
      → level t ≡ suc (suc n)
      → i < 512
      → entry m t i ≢ 0
      → level (child (entry m t i)) ≡ suc n
  pub points :
      (t i n : ℕ) → level t ≡ suc (suc n) → i < 512 → entry m t i ≢ 0 → entry m t i % 16 ≡ 1
  pub single :
      (t i u j : ℕ)
      → 1 < level t
      → 1 < level u
      → i < 512
      → j < 512
      → entry m t i ≢ 0
      → entry m u j ≢ 0
      → child (entry m t i) ≡ child (entry m u j)
      → (t ≡ u) × (i ≡ j)

-- Two entries stand in different cells unless they are one.
pub apart :
    (t u i j : ℕ)
    → t % 4096 ≡ 0
    → u % 4096 ≡ 0
    → i < 512
    → j < 512
    → ((t ≡ u) × (i ≡ j)) ⊎ ((t + 8 * i + 8 ≤ u + 8 * j) ⊎ (u + 8 * j + 8 ≤ t + 8 * i))
apart t u i j p q a b = elim (eq-cases (t + 8 * i) (u + 8 * j)) [
  | inl e ↦ inl (omega arith, omega arith)
  | inr ne ↦ inr (elim (lt-cases (t + 8 * i) (u + 8 * j)) [
    | inl l ↦ inl (omega arith)
    | inr g ↦ inr (omega arith)
  ])
]

pub last_table_zero : (m : Memory) (t x : ℕ) → last_table m 0 t x ≡ t
unfolding last_table
last_table_zero m t x = refl

pub walk_zero : (m : Memory) (t x : ℕ) → walk m 0 t x ≡ entry m t (index x 0)
unfolding walk
walk_zero m t x = refl

module _ (m : Memory) (n t x : ℕ) where
  pub last_table_none : entry m t (index x (suc n)) ≡ 0 → last_table m (suc n) t x ≡ 0
  unfolding last_table
  last_table_none z = rw (eq→== (entry m t (index x (suc n))) 0 z)

  pub last_table_some :
      entry m t (index x (suc n)) ≢ 0
      → last_table m (suc n) t x ≡ last_table m n (child (entry m t (index x (suc n)))) x
  unfolding last_table
  last_table_some ne = rw (ne→== (entry m t (index x (suc n))) 0 ne)

  pub walk_none : entry m t (index x (suc n)) ≡ 0 → walk m (suc n) t x ≡ 0
  unfolding walk
  walk_none z = rw (eq→== (entry m t (index x (suc n))) 0 z)

  pub walk_some :
      entry m t (index x (suc n)) ≢ 0
      → walk m (suc n) t x ≡ walk m n (child (entry m t (index x (suc n)))) x
  unfolding walk
  walk_some ne = rw (ne→== (entry m t (index x (suc n))) 0 ne)

module _ {m : Memory} {bs : Blocks} {level : ℕ → ℕ} (v : IsTables m bs level) where
  -- The ways of two page numbers that end in the same table agree in all their parts.
  pub last_table-single :
      (n t u x y : ℕ)
      → level t ≡ suc n
      → level u ≡ suc n
      → last_table m n t x ≢ 0
      → last_table m n t x ≡ last_table m n u y
      → (t ≡ u) × ((k : ℕ) → k < n → index x (suc k) ≡ index y (suc k))
  last_table-single zero t u x y a b ne e =
      (unfold last_table in e, λ k h. absurd (omega (arith, h)))
  last_table-single (suc n) t u x y a b ne e = elim (eq-cases (entry m t (index x (suc n))) 0) [
    | inl z ↦ absurd (ne (last_table_none m n t x z))
    | inr p ↦ elim (eq-cases (entry m u (index y (suc n))) 0) [
      | inl z ↦ absurd (ne (e ∙ last_table_none m n u y z))
      | inr q ↦
          let below =
            last_table-single n (child (entry m t (index x (suc n))))
              (child (entry m u (index y (suc n)))) x y
              (v.down t (index x (suc n)) n a (index-lt x (suc n)) p)
              (v.down u (index y (suc n)) n b (index-lt y (suc n)) q)
              (λ z. ne (last_table_some m n t x p ∙ z))
              (sym (last_table_some m n t x p) ∙ (e ∙ last_table_some m n u y q)) in
          let here =
            v.single t (index x (suc n)) u (index y (suc n)) (omega (arith, a)) (omega (arith, b))
              (index-lt x (suc n)) (index-lt y (suc n)) p q below.0 in
          (
            here.0,
            λ k h. elim (eq-cases k n) [
              | inl same ↦ subst (λ j. index x (suc j) ≡ index y (suc j)) (sym same) here.1
              | inr other ↦ below.1 k (omega (arith, h, other))
            ],
          )
    ]
  ]

  pub last_table-level :
      (n t x : ℕ) → level t ≡ suc n → last_table m n t x ≢ 0 → level (last_table m n t x) ≡ 1
  last_table-level zero t x a ne = unfold last_table in a
  last_table-level (suc n) t x a ne = elim (eq-cases (entry m t (index x (suc n))) 0) [
    | inl z ↦ absurd (ne (last_table_none m n t x z))
    | inr p ↦
        subst (λ u. level u ≡ 1) (sym (last_table_some m n t x p))
          (last_table-level n (child (entry m t (index x (suc n)))) x
            (v.down t (index x (suc n)) n a (index-lt x (suc n)) p)
            (λ z. ne (last_table_some m n t x p ∙ z)))
  ]

  pub walk-last_table :
      (n t x : ℕ)
      → level t ≡ suc n
      → last_table m n t x ≢ 0
      → walk m n t x ≡ entry m (last_table m n t x) (index x 0)
  walk-last_table zero t x a ne = unfold last_table walk in refl
  walk-last_table (suc n) t x a ne = elim (eq-cases (entry m t (index x (suc n))) 0) [
    | inl z ↦ absurd (ne (last_table_none m n t x z))
    | inr p ↦
        let some = last_table_some m n t x p in
        walk_some m n t x p
        ∙ (walk-last_table n (child (entry m t (index x (suc n)))) x
              (v.down t (index x (suc n)) n a (index-lt x (suc n)) p) (λ z. ne (some ∙ z))
            ∙ ap (λ u. entry m u (index x 0)) (sym some))
  ]

  pub walk-no_table : (n t x : ℕ) → level t ≡ suc n → last_table m n t x ≡ 0 → walk m n t x ≡ 0
  walk-no_table zero t x a z = absurd (
      omega
        (arith, v.above t (λ e. omega (arith, a, e)), let e : t ≡ 0 = unfold last_table in z in e))
  walk-no_table (suc n) t x a z = elim (eq-cases (entry m t (index x (suc n))) 0) [
    | inl none ↦ walk_none m n t x none
    | inr p ↦
        walk_some m n t x p
        ∙ walk-no_table n (child (entry m t (index x (suc n)))) x
            (v.down t (index x (suc n)) n a (index-lt x (suc n)) p)
            (sym (last_table_some m n t x p) ∙ z)
  ]

  -- On such tables the hardware follows every entry but 0.
  pub hardware_walk-walk : (n t x : ℕ) → level t ≡ suc n → hardware_walk m n t x ≡ walk m n t x
  unfolding hardware_walk walk
  hardware_walk-walk zero t x a = refl
  hardware_walk-walk (suc n) t x a = elim (eq-cases (entry m t (index x (suc n))) 0) [
    | inl z ↦ rw (
      eq→== (entry m t (index x (suc n))) 0 z,
      ne→== (entry m t (index x (suc n)) % 16) 1 (λ e. omega (arith, z, e)),
    )
    | inr p ↦
        rw
          (
            ne→== (entry m t (index x (suc n))) 0 p,
            eq→== (entry m t (index x (suc n)) % 16) 1
                (v.points t (index x (suc n)) n a (index-lt x (suc n)) p),
          )
          (hardware_walk-walk n (child (entry m t (index x (suc n)))) x
            (v.down t (index x (suc n)) n a (index-lt x (suc n)) p))
  ]
