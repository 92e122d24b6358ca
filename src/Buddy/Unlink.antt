-- ===== src/Buddy/Unlink.antt =====
-- The walk of `buddy_dealloc` that unlinks the buddy from its list.
use lilac_os.Base.{
  ℕ, zero, suc, ◌+◌, ◌%◌, ◌^◌, ◌≤◌, ◌<◌, ◌≡◌, ◌≢◌, ◌⊎◌, refl, sym, ◌∙◌, subst, Bool, true, false,
  Option, some, List, [], ◌∷◌, arith, inl, inr, length, eq-cases, eq→==, ne→==, ◌==◌, if◌then◌else◌,
}
use lilac_os.Word.Pow.{two-pow-le}
use lilac_os.Memory.{Memory, load64, store64, load64-store64_self, load64-store64_ne}
use lilac_os.Buddy.{Heap, unlink, ◌>>=◌, ◌>>◌}
use lilac_os.Buddy.Cover.{inside, covered}
use lilac_os.Buddy.Lists.{Chain, head-lt, clear-apart, Chain-store, load_lem, store_lem}

abbrev pub contains : ℕ → List ℕ → Bool
contains t [] = false
contains t (b ∷ bs) = if b == t then true else contains t bs

abbrev pub remove : ℕ → List ℕ → List ℕ
remove t [] = []
remove t (b ∷ bs) = if b == t then bs else b ∷ remove t bs

-- A member of the rest is a member of the list.
pub contains-remove :
    (c t : ℕ) (bs : List ℕ) → contains c (remove t bs) ≡ true → contains c bs ≡ true
contains-remove c t [] h = h
contains-remove c t (b ∷ bs) h = elim (eq-cases b c) [
  | inl e ↦ rw (eq→== b c e)
  | inr ne ↦ rw (ne→== b c ne) (elim (eq-cases b t) [
    | inl e ↦ rw (eq→== b t e) at h
    | inr other ↦ contains-remove c t bs (rw (ne→== b t other, ne→== b c ne) at h)
  ])
]

-- A member is the head or one of the others.
pub contains-cases :
    (c b : ℕ) (bs : List ℕ) → contains c (b ∷ bs) ≡ true → (c ≡ b) ⊎ (contains c bs ≡ true)
contains-cases c b bs h = elim (eq-cases b c) [
  | inl e ↦ inl (sym e)
  | inr ne ↦ inr (rw (ne→== b c ne) at h)
]

pub covered-remove :
    (i x t : ℕ) (bs : List ℕ)
    → contains t bs ≡ true
    → covered i x (remove t bs) + inside t i x ≡ covered i x bs
covered-remove i x t [] h = cc
covered-remove i x t (b ∷ bs) h = elim (eq-cases b t) [
  | inl e ↦ rw (eq→== b t e) (rw e (omega arith))
  | inr ne ↦
      let rest : contains t bs ≡ true = rw (ne→== b t ne) at h in
      rw (ne→== b t ne) (omega (arith, covered-remove i x t bs rest))
]

-- What a chain says of its members.
pub Chain-contains :
    (m : Memory) (i t p : ℕ) (bs : List ℕ)
    → contains t bs ≡ true
    → Chain m i p bs
    → (0 < t) × (t % 2 ^ i ≡ 0) × (t + 2 ^ i ≤ 2 ^ 64)
Chain-contains m i t p [] h c = cc
Chain-contains m i t p (b ∷ bs) h (e, pos, aligned, fits, rest) = elim (eq-cases b t) [
  | inl same ↦ rw (← same) (pos, aligned, fits)
  | inr ne ↦ Chain-contains m i t (load64 m b) bs (rw (ne→== b t ne) at h) rest
]

-- The buddy found: one cell of the list is overwritten, and the list goes on without the buddy.
pub record Unlinked (h : Heap) (i prev target : ℕ) (l : List ℕ) (result : Option (Bool × Heap))
    : Type 0 where
  pub cell : ℕ
  pub value : ℕ
  pub returns : result ≡ some (true, record h { memory = store64 h.memory cell value })
  pub within : (x : ℕ) → cell ≤ x → x < cell + 8 → 1 ≤ covered i x (prev ∷ l)
  pub chain :
      Chain
        (store64 h.memory cell value)
        i
        (load64 (store64 h.memory cell value) prev)
        (remove target l)

pub unlink_none :
    (fuel i prev next target : ℕ) (l : List ℕ) (h : Heap)
    → length l < fuel
    → Chain h.memory i next l
    → contains target l ≡ false
    → unlink fuel prev next target h ≡ some (false, h)
unfolding unlink
unlink_none zero i prev next target l h enough c out = absurd (omega arith)
unlink_none (suc fuel) i prev next target [] h enough c out = rw (eq→== next 0 c)
unlink_none (suc fuel) i prev next target (b ∷ l) h enough (e, pos, _, _, rest) out =
    subst (λ n. unlink (suc fuel) prev n target h ≡ some (false, h)) (sym e)
      (elim (eq-cases b target) [
        | inl same ↦ cc (eq→== b target same)
        | inr ne ↦
            rw (ne→== b 0 (omega arith), ne→== b target ne, if◌then◌else◌, ◌>>=◌, load_lem b h pos)
              (unlink_none fuel i b (load64 h.memory b) target l h (omega arith) rest
                (rw (ne→== b target ne) at out))
      ])

-- The cell at `q` is one of the list's, so it is not the one at `prev`.
within-apart :
    (i q prev : ℕ) (l : List ℕ)
    → 3 ≤ i
    → ((x : ℕ) → covered i x (prev ∷ l) ≤ 1)
    → ((x : ℕ) → q ≤ x → x < q + 8 → 1 ≤ covered i x l)
    → (prev + 8 ≤ q) ⊎ (q + 8 ≤ prev)
within-apart i q prev l le once within =
    clear-apart i q prev le (λ x lo hi. omega (arith, once x, within x lo hi))

module _ (i target : ℕ) (le : 3 ≤ i) where
  Unlinked-here :
      (h : Heap) (prev b : ℕ) (l : List ℕ) {r : Option (Bool × Heap)}
      → b ≡ target
      → ((x : ℕ) → covered i x (prev ∷ b ∷ l) ≤ 1)
      → Chain h.memory i (load64 h.memory b) l
      → r ≡ some (true, record h { memory = store64 h.memory prev (load64 h.memory b) })
      → Unlinked h i prev target (b ∷ l) r
  Unlinked-here h prev b l same once rest returns = record {
    cell = prev;
    value = load64 h.memory b;
    returns = returns;
    within = λ x lo hi. ground (arith, two-pow-le {a = 3} {b = i} le);
    chain = rw (eq→== b target same) (
        subst (λ p. Chain (store64 h.memory prev (load64 h.memory b)) i p l)
          (sym (
            load64-store64_self h.memory prev (load64 h.memory b)
              (head-lt h.memory i (load64 h.memory b) l rest)))
          (Chain-store h.memory i prev (load64 h.memory b) (load64 h.memory b) l le
            (λ x lo hi. ground (arith, once x, two-pow-le {a = 3} {b = i} le)) rest));
  }

  Unlinked-later :
      (h : Heap) (prev b : ℕ) (l : List ℕ) {r : Option (Bool × Heap)}
      → b ≢ target
      → ((x : ℕ) → covered i x (prev ∷ b ∷ l) ≤ 1)
      → Chain h.memory i (load64 h.memory prev) (b ∷ l)
      → Unlinked h i b target l r
      → Unlinked h i prev target (b ∷ l) r
  Unlinked-later h prev b l ne once (e, pos, aligned, fits, rest) u = record {
    cell = u.cell;
    value = u.value;
    returns = u.returns;
    within = λ x lo hi. omega (arith, u.within x lo hi);
    chain = rw (ne→== b target ne) (
      load64-store64_ne h.memory u.cell u.value prev
            (within-apart i u.cell prev (b ∷ l) le once u.within)
          ∙ e,
      pos,
      aligned,
      fits,
      u.chain,
    );
  }

  pub unlink_some :
      (fuel prev next : ℕ) (l : List ℕ) (h : Heap)
      → length l < fuel
      → 0 < prev
      → next ≡ load64 h.memory prev
      → Chain h.memory i (load64 h.memory prev) l
      → ((x : ℕ) → covered i x (prev ∷ l) ≤ 1)
      → contains target l ≡ true
      → Unlinked h i prev target l (unlink fuel prev next target h)
  unfolding unlink
  unlink_some zero prev next l h enough pos e c once found = absurd (omega arith)
  unlink_some (suc fuel) prev next [] h enough pos e c once found = cc
  unlink_some (suc fuel) prev next (b ∷ l) h enough pos e c once found =
      subst (λ n. Unlinked h i prev target (b ∷ l) (unlink (suc fuel) prev n target h))
        (sym (e ∙ c.0))
        (elim (eq-cases b target) [
          | inl same ↦
              rw
                (
                  ne→== b 0 (omega (arith, c.1)),
                  eq→== b target same,
                  if◌then◌else◌,
                  ◌>>=◌,
                  load_lem b h c.1,
                  ◌>>◌,
                  ◌>>=◌,
                  store_lem prev (load64 h.memory b) h pos,
                )
                (Unlinked-here h prev b l same once c.4 refl)
          | inr ne ↦
              rw
                (
                  ne→== b 0 (omega (arith, c.1)),
                  ne→== b target ne,
                  if◌then◌else◌,
                  ◌>>=◌,
                  load_lem b h c.1,
                )
                (Unlinked-later h prev b l ne once c (
                  unlink_some fuel b (load64 h.memory b) l h (omega arith) c.1 refl c.4
                    (λ x. omega (arith, once x)) (rw (ne→== b target ne) at found)))
        ])
