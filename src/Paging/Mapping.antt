-- ===== src/Paging/Mapping.antt =====
-- `map_pages`: the pages of a range are mapped, and no others.
use lilac_os.Base.{
  ℕ, zero, suc, ◌+◌, ◌-◌, ◌*◌, ◌%◌, ◌^◌, ◌≤◌, ◌<◌, ◌≡◌, ◌≢◌, ◌∙◌, ◌⊎◌, inl, inr, refl, sym, ap,
  subst, true, Option, none, some, arith, eq-cases,
}
use lilac_os.Word.{add64, sub64, u64_mod, ◌>>>◌, ◌<<<◌}
use lilac_os.Memory.{store64}
use lilac_os.Buddy.{Heap, ◌>>=◌, ◌>>◌}
use lilac_os.Buddy.Cover.{Blocks, cover}
use lilac_os.Buddy.Lists.{store_lem}
use lilac_os.Frames.{va}
use lilac_os.Paging.{ppn2pte, find_entry, page_count, map_loop, map_pages}
use lilac_os.Paging.Entries.{Maps, ppn2pte_lem}
use lilac_os.Paging.Tables.{
  index, index-lt, index-low, get_vpn_levels-index, walk, hardware_walk, hardware_walk-walk,
}
use lilac_os.Paging.Leaves.{IsTables-stored, walk-stored_self, walk-stored_ne}
use lilac_os.Paging.Descent.{IsSpace, IsHeap-table, Exhausted, entry_at_lem}
use lilac_os.Paging.Finding.{Found, find_loop_lem}

-- The root table of an address space stands in the frame `root_ppn`.
pub record IsRoot (root_ppn root : ℕ) (level : ℕ → ℕ) : Type 0 where
  pub place : va ((root_ppn <<< 12) % u64_mod) ≡ root
  pub top : level root ≡ 3

-- The pages from `vpn` on, `rounds` of them, lead to the frames from `ppn` on, and the other ways
-- are what they were. The tables are as before, with some more.
pub record Mapped (h : Heap) (bs : Blocks) (level : ℕ → ℕ) (rounds root vpn ppn flags : ℕ)
    (result : Option (Unit {0} × Heap)) : Type 0 where
  pub after : Heap
  pub blocks : Blocks
  pub levels : ℕ → ℕ
  pub returns : result ≡ some (tt, after)
  pub space : IsSpace after blocks levels
  pub fewer : (x : ℕ) → cover blocks x ≤ cover bs x
  pub old : (t : ℕ) → level t ≢ 0 → levels t ≡ level t
  pub mapped : (i : ℕ) → i < rounds → walk after.memory 2 root (vpn + i) ≡ ppn2pte (ppn + i) flags
  pub others :
      (y : ℕ)
      → ((i : ℕ) → i < rounds → (vpn + i) % 2 ^ 27 ≢ y % 2 ^ 27)
      → walk after.memory 2 root y ≡ walk h.memory 2 root y

module _ (root_ppn root vpn : ℕ) {h : Heap} {bs : Blocks} {level : ℕ → ℕ} (s : IsSpace h bs level)
    (r : IsRoot root_ppn root level) where
  pub find_entry_lem :
      Found h bs level 2 root vpn (find_entry root_ppn vpn true h)
      ⊎ Exhausted bs (find_entry root_ppn vpn true h)
  unfolding find_entry
  find_entry_lem =
      rw
        (
          get_vpn_levels-index vpn 2 (omega arith),
          entry_at_lem root ((root_ppn <<< 12) % u64_mod) (index vpn 2) r.place
              (s.tables.below root (λ e. omega (arith, r.top, e))) (index-lt vpn 2),
        )
        (find_loop_lem 2 root vpn s r.top (omega arith))

  module _ (pte : ℕ) (word : pte < 2 ^ 64)
      (f : Found h bs level 2 root vpn (find_entry root_ppn vpn true h)) where
    leaf_ne : f.levels f.leaf ≢ 0
    leaf_ne e = omega (arith, f.low, e)

    stored : Heap
    stored = record (f.after) { memory = store64 f.after.memory (f.leaf + 8 * index vpn 0) pte }

    top : f.levels root ≡ suc 2
    top = f.grows.old root (λ e. omega (arith, r.top, e)) ∙ r.top

    IsSpace-stored : IsSpace stored f.blocks f.levels
    unfolding stored
    IsSpace-stored = record {
      heap =
          IsHeap-table f.leaf (index vpn 0) pte f.grows.space.heap
            (λ x lo hi. f.grows.space.tables.held f.leaf x leaf_ne lo hi) (index-lt vpn 0);
      kernel = f.grows.space.kernel;
      tables =
          IsTables-stored f.grows.space.tables f.leaf (index vpn 0) pte f.low (index-lt vpn 0) word;
    }

    walk-stored : walk stored.memory 2 root vpn ≡ pte
    unfolding stored
    walk-stored =
        walk-stored_self f.grows.space.tables f.leaf (index vpn 0) pte f.low (index-lt vpn 0) word 2
          root vpn top f.ends refl

    walk-others :
        (y : ℕ) → vpn % 2 ^ 27 ≢ y % 2 ^ 27 → walk stored.memory 2 root y ≡ walk h.memory 2 root y
    unfolding stored
    walk-others y ne =
        walk-stored_ne f.grows.space.tables f.leaf (index vpn 0) pte f.low (index-lt vpn 0) word 2
          root vpn top f.ends refl y
          (λ same.
            ne (
              index-low vpn y (same 0 (omega arith)) (same 1 (omega arith)) (same 2 (omega arith))))
        ∙ f.grows.ways 2 root y r.top

round_goes :
    (rounds root_ppn vpn ppn flags cell : ℕ) (h mid : Heap)
    → 0 < cell
    → find_entry root_ppn vpn true h ≡ some (cell, mid)
    → map_loop (suc rounds) root_ppn vpn ppn flags h
      ≡ map_loop rounds root_ppn
          (vpn + 1)
          (ppn + 1)
          flags
          (record mid { memory = store64 mid.memory cell (ppn2pte ppn flags) })
unfolding map_loop
round_goes rounds root_ppn vpn ppn flags cell h mid pos e =
    rw (e, ◌>>=◌, ◌>>◌, store_lem cell (ppn2pte ppn flags) mid pos)

round_stops :
    (rounds root_ppn vpn ppn flags : ℕ) (h : Heap)
    → find_entry root_ppn vpn true h ≡ none
    → map_loop (suc rounds) root_ppn vpn ppn flags h ≡ none
unfolding map_loop
round_stops rounds root_ppn vpn ppn flags h e = rw (e, ◌>>=◌)

pub map_loop_lem :
    (rounds root_ppn root vpn ppn flags : ℕ) {h : Heap} {bs : Blocks} {level : ℕ → ℕ}
    → IsSpace h bs level
    → IsRoot root_ppn root level
    → rounds ≤ 2 ^ 27
    → ppn + rounds ≤ 2 ^ 44
    → flags < 2 ^ 10
    → Mapped h bs level rounds root vpn ppn flags (map_loop rounds root_ppn vpn ppn flags h)
      ⊎ Exhausted bs (map_loop rounds root_ppn vpn ppn flags h)
unfolding map_loop stored
map_loop_lem zero root_ppn root vpn ppn flags {h} {bs} {level} s r few frames small = inl (record {
  after = h;
  blocks = bs;
  levels = level;
  returns = refl;
  space = s;
  fewer = λ x. omega arith;
  old = λ t p. refl;
  mapped = λ i p. absurd (omega (arith, p));
  others = λ y away. refl;
})
map_loop_lem (suc rounds) root_ppn root vpn ppn flags {h} {bs} {level} s r few frames small =
    let pte : ℕ = ppn2pte ppn flags in
    let maps = ppn2pte_lem ppn flags (omega (arith, frames)) small in
    let word : pte < 2 ^ 64 = omega (arith, maps.small) in
    elim (find_entry_lem root_ppn root vpn s r) [
      | inr p ↦ inr (record {
        stops = round_stops rounds root_ppn vpn ppn flags h p.stops;
        blocks = p.blocks;
        exhausted = p.exhausted;
        fewer = p.fewer;
      })
      | inl f ↦
          let cell = f.leaf + 8 * index vpn 0 in
          let pos : 0 < cell =
            omega (arith, f.grows.space.tables.above f.leaf (λ e. omega (arith, f.low, e))) in
          let now = IsSpace-stored root_ppn root vpn s r pte word f in
          let root_now : IsRoot root_ppn root f.levels = record {
            place = r.place;
            top = top root_ppn root vpn s r pte word f;
          } in
          rw (round_goes rounds root_ppn vpn ppn flags cell h f.after pos f.returns)
            (elim (map_loop_lem rounds root_ppn root (vpn + 1) (ppn + 1) flags now root_now
              (omega (arith, few)) (omega (arith, frames)) small) [
                | inr p ↦ inr (record {
                  stops = p.stops;
                  blocks = p.blocks;
                  exhausted = p.exhausted;
                  fewer = λ x. omega (arith, p.fewer x, f.grows.fewer x);
                })
                | inl d ↦ inl (record {
                  after = d.after;
                  blocks = d.blocks;
                  levels = d.levels;
                  returns = d.returns;
                  space = d.space;
                  fewer = λ x. omega (arith, d.fewer x, f.grows.fewer x);
                  old = λ t p. let mid = f.grows.old t p in d.old t (λ z. p (sym mid ∙ z)) ∙ mid;
                  mapped = λ i p. elim (eq-cases i 0) [
                    | inl e ↦
                        ap (walk d.after.memory 2 root) (omega (arith, e))
                        ∙ (d.others vpn (λ k q g. omega (arith, q, g, few))
                            ∙ (walk-stored root_ppn root vpn s r pte word f
                                ∙ ap (λ q. ppn2pte q flags) (omega (arith, e))))
                    | inr ne ↦
                        ap (walk d.after.memory 2 root) (omega (arith, ne))
                        ∙ (d.mapped (i - 1) (omega (arith, p, ne))
                            ∙ ap (λ q. ppn2pte q flags) (omega (arith, ne)))
                  ];
                  others = λ y away.
                      d.others y (λ i p e. away (i + 1) (omega (arith, p)) (omega (arith, e)))
                      ∙ walk-others root_ppn root vpn s r pte word f y
                          (λ e. away 0 (omega arith) (omega (arith, e)));
                })
              ])
    ]

-- Every address of a range leads to the frame at the same distance, with the flags, and the ways of
-- other pages are what they were.
pub record MapsRange (h : Heap) (bs : Blocks) (level : ℕ → ℕ)
    (root start_va start_pa size flags : ℕ) (result : Option (Unit {0} × Heap)) : Type 0 where
  pub after : Heap
  pub blocks : Blocks
  pub levels : ℕ → ℕ
  pub returns : result ≡ some (tt, after)
  pub space : IsSpace after blocks levels
  pub fewer : (x : ℕ) → cover blocks x ≤ cover bs x
  pub old : (t : ℕ) → level t ≢ 0 → levels t ≡ level t
  pub mapped :
      (a : ℕ)
      → start_va ≤ a
      → a < start_va + size
      → Maps
          (hardware_walk after.memory 2 root (a >>> 12))
          ((start_pa >>> 12) + ((a >>> 12) - (start_va >>> 12)))
          flags
  pub others :
      (y : ℕ)
      → ((a : ℕ) → start_va ≤ a → a < start_va + size → (a >>> 12) % 2 ^ 27 ≢ y % 2 ^ 27)
      → hardware_walk after.memory 2 root y ≡ hardware_walk h.memory 2 root y

-- For an address space whose three levels of tables stand in pages that are not free, a range
-- of less than 2^31 bytes that is not empty and ends by 2^64, a physical address below 2^55
-- and flags of 10 bits, map_pages makes the walk of the hardware, which follows an entry where
-- it is valid and may be neither read, written nor executed, lead from every address of the
-- range to an entry with the flags and the frame at the same distance, changes that walk for
-- no page number that differs in its low 27 bits, and keeps the tables and the allocator well
-- formed; or it panics, and then no page is left for a table.
pub map_pages_lem :
    (root_ppn root start_va start_pa size flags : ℕ) {h : Heap} {bs : Blocks} {level : ℕ → ℕ}
    → IsSpace h bs level
    → IsRoot root_ppn root level
    → 0 < size
    → size < 2 ^ 31
    → start_va + size ≤ 2 ^ 64
    → start_pa < 2 ^ 55
    → flags < 2 ^ 10
    → MapsRange h bs level root start_va start_pa size flags
        (map_pages root_ppn start_va start_pa size flags h)
      ⊎ Exhausted bs (map_pages root_ppn start_va start_pa size flags h)
unfolding map_pages page_count
map_pages_lem root_ppn root start_va start_pa size flags {h} {bs} {level} s r pos short fits low
      small =
    let rounds : ℕ = (sub64 (add64 start_va size) 1 >>> 12) + 1 - (start_va >>> 12) in
    let last : sub64 (add64 start_va size) 1 ≡ start_va + size - 1 = omega (arith, pos, fits) in
    let first : ℕ = start_pa >>> 12 in
    elim (map_loop_lem rounds root_ppn root (start_va >>> 12) first flags s r
      (omega (arith, last, short)) (omega (arith, last, short, low)) small) [
        | inr p ↦ inr p
        | inl d ↦
            let top : d.levels root ≡ 3 = d.old root (λ e. omega (arith, r.top, e)) ∙ r.top in
            inl (record {
              after = d.after;
              blocks = d.blocks;
              levels = d.levels;
              returns = d.returns;
              space = d.space;
              fewer = d.fewer;
              old = d.old;
              mapped = λ a p q.
                  let i : ℕ = (a >>> 12) - (start_va >>> 12) in
                  let way : hardware_walk d.after.memory 2 root (a >>> 12)
                      ≡ ppn2pte (first + i) flags =
                    hardware_walk-walk d.space.tables 2 root (a >>> 12) top
                    ∙ ap (walk d.after.memory 2 root) (omega (arith, p))
                    ∙ d.mapped i (omega (arith, last, p, q)) in
                  subst (λ e. Maps e (first + i) flags) (sym way)
                    (ppn2pte_lem (first + i) flags (omega (arith, low, q, short)) small);
              others = λ y away.
                  hardware_walk-walk d.space.tables 2 root y top
                  ∙ (d.others y (λ i p e. elim (eq-cases i 0) [
                    | inl z ↦ away start_va (omega arith) (omega (arith, pos)) (omega (arith, z, e))
                    | inr ne ↦
                        away (((start_va >>> 12) + i) * 4096) (omega (arith, ne))
                          (omega (arith, p, last)) (omega (arith, e))
                  ])
                      ∙ sym (hardware_walk-walk s.tables 2 root y r.top));
            })
      ]
