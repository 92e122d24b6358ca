-- ===== src/Paging/Descent.antt =====
-- One level of `find_entry`: a table is found, or made.
use lilac_os.Base.{
  ℕ, suc, ◌+◌, ◌*◌, ◌%◌, ◌^◌, ◌≤◌, ◌<◌, ◌≡◌, ◌≢◌, ◌∙◌, ◌⊎◌, inl, inr, refl, sym, ap, subst, true,
  Option, none, some, arith, eq-cases, lt-cases, eq→==, ne→==, if◌then◌else◌, update,
}
use lilac_os.Word.{◌>>>◌}
use lilac_os.Memory.{load64, store64, store64-outside}
use lilac_os.Buddy.{Heap, max_order, ◌>>=◌, ◌>>◌}
use lilac_os.Buddy.Cover.{Blocks, cover}
use lilac_os.Buddy.Lists.{IsHeap, load_lem, store_lem}
use lilac_os.Buddy.Alloc.{NoneFree}
use lilac_os.Frames.{kernel_map_offset, va, pa, alloc_frame}
use lilac_os.Frames.Zero.{IsHeap-ext}
use lilac_os.Frames.Laws.{Framed, Panicked, alloc_frame_lem}
use lilac_os.Paging.{page_valid, ppn2pte, pte2pa, entry_at, make_table, follow, descend}
use lilac_os.Paging.Entries.{ppn2pte_lem}
use lilac_os.Paging.Tables.{index, child, entry, walk, IsTables}
use lilac_os.Paging.Growing.{
  IsTaken, IsTables-grown, walk-grown, grown_self, grown_ne, level_old, level_page,
}

-- An address space on the heap: its tables stand in pages that are not free, and the allocator has
-- only bytes of the kernel's part of the address space.
pub record IsSpace (h : Heap) (bs : Blocks) (level : ℕ → ℕ) : Type 0 where
  pub heap : IsHeap h bs
  pub kernel : (x : ℕ) → cover bs x ≢ 0 → kernel_map_offset ≤ x
  pub tables : IsTables h.memory bs level

-- A store into a table leaves the allocator alone.
pub IsHeap-table :
    {h : Heap} {bs : Blocks} (t i pte : ℕ)
    → IsHeap h bs
    → ((x : ℕ) → t ≤ x → x < t + 4096 → cover bs x ≡ 0)
    → i < 512
    → IsHeap (record h { memory = store64 h.memory (t + 8 * i) pte }) bs
IsHeap-table {h} t i pte v held small = IsHeap-ext (store64 h.memory (t + 8 * i) pte) v (λ x used.
    store64-outside h.memory (t + 8 * i) pte x (elim (lt-cases x (t + 8 * i)) [
      | inl p ↦ inl p
      | inr p ↦ elim (lt-cases x (t + 8 * i + 8)) [
        | inl q ↦ absurd (used (held x (omega arith) (omega arith)))
        | inr q ↦ inr q
      ]
    ]))

pub entry_at_lem :
    (c pa index : ℕ)
    → va pa ≡ c
    → c + 4096 ≤ 2 ^ 64
    → index < 512
    → entry_at pa index ≡ c + 8 * index
unfolding entry_at
entry_at_lem c pa index e fits small = rw (e) (omega arith)

follow_lem :
    (pte index : ℕ) (h : Heap)
    → 0 < pte
    → follow pte index h ≡ some (entry_at (pte2pa (load64 h.memory pte)) index, h)
unfolding follow
follow_lem pte index h pos = rw (load_lem pte h pos, ◌>>=◌)

make_table_lem :
    (pte ppn : ℕ) (h after : Heap)
    → 0 < pte
    → alloc_frame h ≡ some (ppn, after)
    → make_table pte h
      ≡ some (tt, record after { memory = store64 after.memory pte (ppn2pte ppn page_valid) })
unfolding make_table
make_table_lem pte ppn h after pos e =
    rw (e, ◌>>=◌) (store_lem pte (ppn2pte ppn page_valid) after pos)

make_table_panics : (pte : ℕ) (h : Heap) → alloc_frame h ≡ none → make_table pte h ≡ none
unfolding make_table
make_table_panics pte h e = rw (e, ◌>>=◌)

-- The entry of a new table.
record NewEntry (page pte : ℕ) : Type 0 where
  leads : child pte ≡ page
  points : pte % 16 ≡ 1
  ne : pte ≢ 0
  word : pte < 2 ^ 64

new_entry :
    (page : ℕ)
    → page % 4096 ≡ 0
    → kernel_map_offset ≤ page
    → page + 4096 ≤ 2 ^ 64
    → NewEntry page (ppn2pte (pa page >>> 12) page_valid)
new_entry page aligned above below =
    let maps = ppn2pte_lem (pa page >>> 12) page_valid (omega arith) (omega arith) in
    record {
      leads = omega (arith, maps.address);
      points = omega (arith, maps.low);
      ne = λ e. omega (arith, maps.low, e);
      word = omega (arith, maps.small);
    }

-- No page is left for a table; `blocks` are the free ones then.
pub record Exhausted {Result : Type 0} (bs : Blocks) (result : Option (Result × Heap))
    : Type 0 where
  pub stops : result ≡ none
  pub blocks : Blocks
  pub exhausted : NoneFree blocks 12 max_order
  pub fewer : (x : ℕ) → cover blocks x ≤ cover bs x

-- The tables and the free bytes after a run of an address space that had `level` and `bs`.
pub record Grows (h after : Heap) (bs blocks : Blocks) (level levels : ℕ → ℕ) : Type 0 where
  pub space : IsSpace after blocks levels
  pub fewer : (x : ℕ) → cover blocks x ≤ cover bs x
  pub old : (u : ℕ) → level u ≢ 0 → levels u ≡ level u
  pub full :
      (u j : ℕ)
      → level u ≢ 0
      → j < 512
      → entry h.memory u j ≢ 0
      → entry after.memory u j ≡ entry h.memory u j
  pub ways : (k u x : ℕ) → level u ≡ suc k → walk after.memory k u x ≡ walk h.memory k u x

-- The table below an entry, found or made.
pub record Descended (h : Heap) (bs : Blocks) (level : ℕ → ℕ) (n t i index : ℕ)
    (result : Option (ℕ × Heap)) : Type 0 where
  pub after : Heap
  pub blocks : Blocks
  pub levels : ℕ → ℕ
  pub table : ℕ
  pub returns : result ≡ some (table + 8 * index, after)
  pub grows : Grows h after bs blocks level levels
  pub leads : child (entry after.memory t i) ≡ table
  pub ne : entry after.memory t i ≢ 0
  pub depth : levels table ≡ suc n

module _ {h : Heap} {bs : Blocks} {level : ℕ → ℕ} (s : IsSpace h bs level) (n t i index : ℕ)
    (up : level t ≡ suc (suc n)) (small : i < 512) (bound : index < 512) where
  there : level t ≢ 0
  there e = omega (arith, up, e)

  cell_pos : 0 < t + 8 * i
  cell_pos = omega (arith, s.tables.above t there)

  found :
      entry h.memory t i ≢ 0 → Descended h bs level n t i index (descend true (t + 8 * i) index h)
  unfolding descend
  found full =
      let table = child (entry h.memory t i) in
      let depth = s.tables.down t i n up small full in
      record {
        after = h;
        blocks = bs;
        levels = level;
        table = table;
        returns =
            rw
              (
                load_lem (t + 8 * i) h cell_pos,
                ◌>>=◌,
                ne→== (entry h.memory t i) 0 full,
                follow_lem (t + 8 * i) index h cell_pos,
              )
              (ap (λ p. some (p, h))
                (entry_at_lem table (pte2pa (entry h.memory t i)) index refl
                  (s.tables.below table (λ e. omega (arith, depth, e))) bound));
        grows = record {
          space = s;
          fewer = λ x. omega arith;
          old = λ u p. refl;
          full = λ u j p b q. refl;
          ways = λ k u x a. refl;
        };
        leads = refl;
        ne = full;
        depth = depth;
      }

  module _ (empty : entry h.memory t i ≡ 0) (f : Framed h bs (alloc_frame h)) where
    pte : ℕ
    pte = ppn2pte (pa f.page >>> 12) page_valid

    last : Heap
    unfolding pte
    last = record (f.heap) { memory = store64 f.heap.memory (t + 8 * i) pte }

    page_above : kernel_map_offset ≤ f.page
    page_above = s.kernel f.page (λ z. ground (arith, f.moved f.page, z))

    fresh : NewEntry f.page pte
    unfolding pte
    fresh = new_entry f.page f.aligned page_above f.fits

    taken : IsTaken h.memory f.heap.memory bs f.blocks f.page
    taken = record {
      once = s.heap.once;
      moved = f.moved;
      kept = f.kept;
      zeroed = f.zeroed;
      aligned = f.aligned;
      above = page_above;
      below = f.fits;
    }

    fewer : (x : ℕ) → cover f.blocks x ≤ cover bs x
    fewer x = omega (arith, f.moved x)

    returns : descend true (t + 8 * i) index h ≡ some (f.page + 8 * index, last)
    unfolding descend last pte
    returns =
        rw
          (
            load_lem (t + 8 * i) h cell_pos,
            ◌>>=◌,
            eq→== (entry h.memory t i) 0 empty,
            if◌then◌else◌,
            ◌>>◌,
            ◌>>=◌,
            make_table_lem (t + 8 * i) (pa f.page >>> 12) h f.heap cell_pos f.returns,
            follow_lem (t + 8 * i) index last cell_pos,
          )
          (ap (λ p. some (p, last))
            (entry_at_lem f.page (pte2pa (entry last.memory t i)) index
              (ap child (
                  grown_self s.tables taken n t i pte up small empty fresh.leads fresh.points
                    fresh.ne fresh.word)
                ∙ fresh.leads)
              f.fits bound))

    tables : IsTables last.memory f.blocks (update level f.page (suc n))
    unfolding last
    tables =
        IsTables-grown s.tables taken n t i pte up small empty fresh.leads fresh.points fresh.ne
          fresh.word

    made : Descended h bs level n t i index (descend true (t + 8 * i) index h)
    unfolding last
    made =
        let self =
          grown_self s.tables taken n t i pte up small empty fresh.leads fresh.points fresh.ne
            fresh.word in
        record {
          after = last;
          blocks = f.blocks;
          levels = update level f.page (suc n);
          table = f.page;
          returns = returns;
          grows = record {
            space = record {
              heap =
                  IsHeap-table t i pte f.valid
                    (λ x lo hi. omega (arith, fewer x, s.tables.held t x there lo hi)) small;
              kernel = λ x used. s.kernel x (λ z. used (omega (arith, fewer x, z)));
              tables = tables;
            };
            fewer = fewer;
            old = λ u p.
                level_old s.tables taken n t i pte up small empty fresh.leads fresh.points fresh.ne
                  fresh.word u p;
            full = λ u j p b q.
                grown_ne s.tables taken n t i pte up small empty fresh.leads fresh.points fresh.ne
                  fresh.word u j p b
                  (λ e. q (
                    subst (λ y. entry h.memory y j ≡ 0) (sym e.0)
                      (subst (λ y. entry h.memory t y ≡ 0) (sym e.1) empty)));
            ways = λ k u x a.
                walk-grown s.tables taken n t i pte up small empty fresh.leads fresh.points fresh.ne
                  fresh.word k u x a;
          };
          leads = ap child self ∙ fresh.leads;
          ne = λ z. fresh.ne (sym self ∙ z);
          depth =
              level_page s.tables taken n t i pte up small empty fresh.leads fresh.points fresh.ne
                fresh.word;
        }

  panics :
      entry h.memory t i ≡ 0
      → Panicked h bs (alloc_frame h)
      → Exhausted {Result = ℕ} bs (descend true (t + 8 * i) index h)
  unfolding descend
  panics empty p = record {
    stops = rw (
      load_lem (t + 8 * i) h cell_pos,
      ◌>>=◌,
      eq→== (entry h.memory t i) 0 empty,
      if◌then◌else◌,
      ◌>>◌,
      ◌>>=◌,
      make_table_panics (t + 8 * i) h p.stops,
    );
    blocks = bs;
    exhausted = p.exhausted;
    fewer = λ x. omega arith;
  }

  -- A level down: the entry leads to a table, or one is made, or no page is left.
  pub descend_lem :
      Descended h bs level n t i index (descend true (t + 8 * i) index h)
      ⊎ Exhausted bs (descend true (t + 8 * i) index h)
  descend_lem = elim (eq-cases (entry h.memory t i) 0) [
    | inr full ↦ inl (found full)
    | inl empty ↦ elim (alloc_frame_lem s.heap) [
      | inl f ↦ inl (made empty f)
      | inr p ↦ inr (panics empty p)
    ]
  ]
