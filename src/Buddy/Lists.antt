-- ===== src/Buddy/Lists.antt =====
-- The free lists as chains through the memory, the allocator's invariant, and `PUSH` and `POP`.
use lilac_os.Base.{
  ℕ, ◌+◌, ◌%◌, ◌^◌, ◌≤◌, ◌<◌, ◌≡◌, ◌≢◌, refl, sym, ap, subst, some, List, [], ◌∷◌, arith, inl, inr,
  ◌⊎◌, eq-cases, lt-cases, eq→==, ne→==, lt→ltb,
}
use lilac_os.Word.Pow.{two-pow-le}
use lilac_os.Memory.{Memory, load64, store64, load64-store64_self, load64-store64_ne}
use lilac_os.Buddy.{
  M, Heap, max_order, update, push, pop, get_list, set_list, load, store, ◌>>=◌, ◌>>◌,
}
use lilac_os.Buddy.Cover.{inside, covered, Blocks, put, cover, cover-put, covered-le-cover}

-- From `p` the cells lead through the blocks to NULL; each is aligned and ends below 2^64.
abbrev pub Chain : Memory → ℕ → ℕ → List ℕ → Type 0
Chain m i p [] = p ≡ 0
Chain m i p (b ∷ bs) =
    (p ≡ b) × (0 < b) × (b % 2 ^ i ≡ 0) × (b + 2 ^ i ≤ 2 ^ 64) × Chain m i (load64 m b) bs

-- The free lists hold the blocks `bs`, of eight bytes or more, and no two of them overlap.
pub record IsHeap (h : Heap) (bs : Blocks) : Type 0 where
  pub chains : (i : ℕ) → i < max_order → Chain h.memory i (h.buddy.free_list i) (bs i)
  pub cells : (i : ℕ) → i < 3 → bs i ≡ []
  pub once : (x : ℕ) → cover bs x ≤ 1

pub head-lt : (m : Memory) (i p : ℕ) (bs : List ℕ) → Chain m i p bs → p < 2 ^ 64
head-lt m i p [] c = omega arith
head-lt m i p (b ∷ bs) c = omega (arith, two-pow-le {a = 0} {b = i} (omega arith))

pub clear-apart :
    (i q b : ℕ)
    → 3 ≤ i
    → ((x : ℕ) → q ≤ x → x < q + 8 → inside b i x ≡ 0)
    → (b + 8 ≤ q) ⊎ (q + 8 ≤ b)
clear-apart i q b le clear = ground (
  arith,
  two-pow-le {a = 3} {b = i} le,
  clear q (omega arith) (omega arith),
  λ (h : q ≤ b) (g : b < q + 8). clear b h g,
)

-- A store outside a list's blocks leaves the list alone.
pub Chain-store :
    (m : Memory) (i q v p : ℕ) (bs : List ℕ)
    → 3 ≤ i
    → ((x : ℕ) → q ≤ x → x < q + 8 → covered i x bs ≡ 0)
    → Chain m i p bs
    → Chain (store64 m q v) i p bs
Chain-store m i q v p [] le clear c = c
Chain-store m i q v p (b ∷ bs) le clear (e, pos, aligned, fits, rest) = (
  e,
  pos,
  aligned,
  fits,
  subst (λ n. Chain (store64 m q v) i n bs) (sym same)
      (Chain-store m i q v (load64 m b) bs le (λ x lo hi. omega (arith, clear x lo hi)) rest),
)
  where
    same : load64 (store64 m q v) b ≡ load64 m b
    same =
        load64-store64_ne m q v b (clear-apart i q b le (λ x lo hi. omega (arith, clear x lo hi)))

-- A step that returns hands its value and state on.
pub bind_some :
    {A B : Type 0} (m : M A) (f : A → M B) (h : Heap) {a : A} {h' : Heap}
    → m h ≡ some (a, h')
    → (m >>= f) h ≡ f a h'
bind_some m f h e = rw (e, ◌>>=◌)

pub get_list_lem : (i : ℕ) (h : Heap) → i < max_order → get_list i h ≡ some (h.buddy.free_list i, h)
unfolding get_list
get_list_lem i h le = rw (lt→ltb i max_order le)

pub set_list_lem :
    (i p : ℕ) (h : Heap)
    → i < max_order
    → set_list i p h
      ≡ some
          (tt, record h { buddy = record (h.buddy) { free_list = update h.buddy.free_list i p } })
unfolding set_list
set_list_lem i p h le = rw (lt→ltb i max_order le)

pub load_lem : (p : ℕ) (h : Heap) → 0 < p → load p h ≡ some (load64 h.memory p, h)
unfolding load
load_lem p h pos = rw (ne→== p 0 (omega arith))

pub store_lem :
    (p v : ℕ) (h : Heap)
    → 0 < p
    → store p v h ≡ some (tt, record h { memory = store64 h.memory p v })
unfolding store
store_lem p v h pos = rw (ne→== p 0 (omega arith))

-- What `push` and `pop` leave behind.
abbrev pub pushed : ℕ → ℕ → Heap → Heap
pushed b i h = record {
  memory = store64 h.memory b (h.buddy.free_list i);
  buddy = record (h.buddy) { free_list = update h.buddy.free_list i b };
}

abbrev pub popped : ℕ → ℕ → Heap → Heap
popped b i h = record h {
  buddy = record (h.buddy) { free_list = update h.buddy.free_list i (load64 h.memory b) };
}

pub push_lem : (b i : ℕ) (h : Heap) → 0 < b → i < max_order → push b i h ≡ some (tt, pushed b i h)
unfolding push
push_lem b i h pos le = rw (
  get_list_lem i h le,
  store_lem b (h.buddy.free_list i) h pos,
  set_list_lem i b (record h { memory = store64 h.memory b (h.buddy.free_list i) }) le,
  ◌>>=◌,
  ◌>>◌,
)

pub Chain-put :
    (m : Memory) (fl : ℕ → ℕ) (bs : Blocks) (i p : ℕ) (l : List ℕ) (j : ℕ)
    → Chain m i p l
    → (i ≢ j → Chain m j (fl j) (bs j))
    → Chain m j (update fl i p j) (put bs i l j)
Chain-put m fl bs i p l j own others = elim (eq-cases i j) [
  | inl e ↦ rw (eq→== i j e) (subst (λ k. Chain m k p l) e own)
  | inr ne ↦ rw (ne→== i j ne) (others ne)
]

pub cells-put :
    (bs : Blocks) (i : ℕ) (l : List ℕ)
    → (i < 3 → l ≡ [])
    → ((j : ℕ) → j < 3 → bs j ≡ [])
    → (j : ℕ) → j < 3
    → put bs i l j ≡ []
cells-put bs i l own others j le = elim (eq-cases i j) [
  | inl e ↦ rw (eq→== i j e) (own (omega arith))
  | inr ne ↦ rw (ne→== i j ne) (others j le)
]

module _ {h : Heap} {bs : Blocks} (v : IsHeap h bs) (i : ℕ) (le : i < max_order) where
  pub head-block :
      (b : ℕ) (rest : List ℕ) → bs i ≡ b ∷ rest → Chain h.memory i (h.buddy.free_list i) (b ∷ rest)
  head-block b rest e = subst (Chain h.memory i (h.buddy.free_list i)) e (v.chains i le)

  pub head_empty : bs i ≡ [] → h.buddy.free_list i ≡ 0
  head_empty e = subst (Chain h.memory i (h.buddy.free_list i)) e (v.chains i le)

  pub order-le : (b : ℕ) (rest : List ℕ) → bs i ≡ b ∷ rest → 3 ≤ i
  order-le b rest e = elim (lt-cases i 3) [ inl p ↦ cc (v.cells i p) | inr p ↦ p ]

  pub pop_lem : (b : ℕ) (rest : List ℕ) → bs i ≡ b ∷ rest → pop i h ≡ some (b, popped b i h)
  unfolding pop
  pop_lem b rest e =
      rw
        (
          get_list_lem i h le,
          (head-block b rest e).0,
          load_lem b h (head-block b rest e).1,
          set_list_lem i (load64 h.memory b) h le,
          ◌>>=◌,
          ◌>>◌,
        )
        (ap (λ q. some (q, popped b i h)) (head-block b rest e).0)

  pub cover-pop :
      (b x : ℕ) (rest : List ℕ)
      → bs i ≡ b ∷ rest
      → cover (put bs i rest) x + inside b i x ≡ cover bs x
  cover-pop b x rest e = omega (arith, cover-put bs i rest x le, ap (covered i x) e)

  -- `POP` of a list that is not empty takes its first block out of the free bytes.
  pub IsHeap-pop : (b : ℕ) (rest : List ℕ) → bs i ≡ b ∷ rest → IsHeap (popped b i h) (put bs i rest)
  IsHeap-pop b rest e = record {
    chains = λ j g.
        Chain-put h.memory h.buddy.free_list bs i (load64 h.memory b) rest j (head-block b rest e).4
          (λ ne. v.chains j g);
    cells = cells-put bs i rest (λ g. absurd (omega (arith, order-le b rest e))) v.cells;
    once = λ x. omega (arith, v.once x, cover-pop b x rest e);
  }

pub cover-push :
    (bs : Blocks) (i b x : ℕ)
    → i < max_order
    → cover (put bs i (b ∷ bs i)) x ≡ cover bs x + inside b i x
cover-push bs i b x le = omega (arith, cover-put bs i (b ∷ bs i) x le)

-- A block that may be freed: aligned, below 2^64, of a cell or more, and no byte of it free.
pub record IsOwned (bs : Blocks) (b i : ℕ) : Type 0 where
  pub bound : i < max_order
  pub cell : 3 ≤ i
  pub pos : 0 < b
  pub aligned : b % 2 ^ i ≡ 0
  pub fits : b + 2 ^ i ≤ 2 ^ 64
  pub clear : (x : ℕ) → b ≤ x → x < b + 2 ^ i → cover bs x ≡ 0

-- A store into a cell that list `j` does not hold leaves the list alone.
pub chains-store :
    {h : Heap} {bs : Blocks} (v : IsHeap h bs) (q val j : ℕ)
    → j < max_order
    → ((x : ℕ) → q ≤ x → x < q + 8 → covered j x (bs j) ≡ 0)
    → Chain (store64 h.memory q val) j (h.buddy.free_list j) (bs j)
chains-store {h} {bs} v q val j g clear = elim (lt-cases j 3) [
  | inl p ↦
      subst (Chain (store64 h.memory q val) j (h.buddy.free_list j)) (sym (v.cells j p))
        (subst (Chain h.memory j (h.buddy.free_list j)) (v.cells j p) (v.chains j g))
  | inr p ↦ Chain-store h.memory j q val (h.buddy.free_list j) (bs j) p clear (v.chains j g)
]

module _ {h : Heap} {bs : Blocks} (v : IsHeap h bs) {b i : ℕ} (o : IsOwned bs b i) where
  kept :
      (j : ℕ)
      → j < max_order
      → Chain (store64 h.memory b (h.buddy.free_list i)) j (h.buddy.free_list j) (bs j)
  kept j g = chains-store v b (h.buddy.free_list i) j g λ x lo hi. omega (
    arith,
    covered-le-cover bs j x g,
    o.clear x lo (omega (arith, two-pow-le {a = 3} {b = i} o.cell)),
  )

  -- `PUSH` of a block that may be freed adds it to the free bytes.
  pub IsHeap-push : IsHeap (pushed b i h) (put bs i (b ∷ bs i))
  IsHeap-push = record {
    chains = λ j g.
        Chain-put (pushed b i h).memory h.buddy.free_list bs i b (b ∷ bs i) j own (λ ne. kept j g);
    cells = cells-put bs i (b ∷ bs i) (λ g. absurd (omega (arith, o.cell))) v.cells;
    once = λ x. ground (
      arith,
      v.once x,
      cover-push bs i b x o.bound,
      λ (p : b ≤ x) (q : x < b + 2 ^ i). o.clear x p q,
    );
  }
    where
      own : Chain (pushed b i h).memory i b (b ∷ bs i)
      own = (
        refl,
        o.pos,
        o.aligned,
        o.fits,
        subst (λ p. Chain (store64 h.memory b (h.buddy.free_list i)) i p (bs i))
            (sym (
              load64-store64_self h.memory b (h.buddy.free_list i)
                (head-lt h.memory i (h.buddy.free_list i) (bs i) (v.chains i o.bound))))
            (kept i o.bound),
      )
