-- ===== src/Paging/Finding.antt =====
-- The loop of `find_entry` over the levels.
use lilac_os.Base.{
  ℕ, zero, suc, ◌+◌, ◌*◌, ◌<◌, ◌≡◌, ◌≢◌, ◌∙◌, ◌⊎◌, inl, inr, refl, sym, ap, true, Option, none,
  some, arith, ne→==,
}
use lilac_os.Buddy.{Heap, ◌>>=◌}
use lilac_os.Buddy.Cover.{Blocks}
use lilac_os.Paging.{descend, find_loop, get_vpn_levels}
use lilac_os.Paging.Tables.{
  index, index-lt, get_vpn_levels-index, child, last_table, last_table_zero, last_table_some,
}
use lilac_os.Paging.Descent.{IsSpace, Grows, Exhausted, descend_lem}

-- The entry of a page number in a table of the lowest level.
pub record Found (h : Heap) (bs : Blocks) (level : ℕ → ℕ) (n t x : ℕ) (result : Option (ℕ × Heap))
    : Type 0 where
  pub after : Heap
  pub blocks : Blocks
  pub levels : ℕ → ℕ
  pub leaf : ℕ
  pub returns : result ≡ some (leaf + 8 * index x 0, after)
  pub grows : Grows h after bs blocks level levels
  pub low : levels leaf ≡ 1
  pub ends : last_table after.memory n t x ≡ leaf

Grows-trans :
    {h mid after : Heap} {bs some_bs blocks : Blocks} {level mids levels : ℕ → ℕ}
    → Grows h mid bs some_bs level mids
    → Grows mid after some_bs blocks mids levels
    → Grows h after bs blocks level levels
Grows-trans {h} {mid} {after} {bs} {some_bs} {blocks} {level} {mids} {levels} f g = record {
  space = g.space;
  fewer = λ x. omega (arith, f.fewer x, g.fewer x);
  old = λ u p. g.old u (λ z. p (sym (f.old u p) ∙ z)) ∙ f.old u p;
  full = λ u j p b q.
      let first = f.full u j p b q in
      g.full u j (λ z. p (sym (f.old u p) ∙ z)) b (λ z. q (sym first ∙ z)) ∙ first;
  ways = λ k u x a. g.ways k u x (f.old u (λ z. omega (arith, a, z)) ∙ a) ∙ f.ways k u x a;
}

loop_goes :
    (n x pte next : ℕ) (h mid : Heap)
    → descend true pte (get_vpn_levels x n) h ≡ some (next, mid)
    → next ≢ 0
    → find_loop (suc n) true x pte h ≡ find_loop n true x next mid
unfolding find_loop
loop_goes n x pte next h mid e ne = rw (e, ◌>>=◌, ne→== next 0 ne)

loop_stops :
    (n x pte : ℕ) (h : Heap)
    → descend true pte (get_vpn_levels x n) h ≡ none
    → find_loop (suc n) true x pte h ≡ none
unfolding find_loop
loop_stops n x pte h e = rw (e, ◌>>=◌)

-- The loop of `find_entry` from a table with `n` levels below it.
pub find_loop_lem :
    (n t x : ℕ) {h : Heap} {bs : Blocks} {level : ℕ → ℕ}
    → IsSpace h bs level
    → level t ≡ suc n
    → n < 3
    → Found h bs level n t x (find_loop n true x (t + 8 * index x n) h)
      ⊎ Exhausted bs (find_loop n true x (t + 8 * index x n) h)
unfolding find_loop
find_loop_lem zero t x {h} {bs} {level} s a le = inl (record {
  after = h;
  blocks = bs;
  levels = level;
  leaf = t;
  returns = refl;
  grows = record {
    space = s;
    fewer = λ y. omega arith;
    old = λ u p. refl;
    full = λ u j p b q. refl;
    ways = λ k u y b. refl;
  };
  low = a;
  ends = last_table_zero h.memory t x;
})
find_loop_lem (suc n) t x {h} {bs} {level} s a le =
    let pick = get_vpn_levels-index x n (omega (arith, le)) in
    let small = index-lt x (suc n) in
    elim (descend_lem s n t (index x (suc n)) (index x n) a small (index-lt x n)) [
      | inr p ↦ inr (record {
        stops = loop_stops n x (t + 8 * index x (suc n)) h (rw (pick) p.stops);
        blocks = p.blocks;
        exhausted = p.exhausted;
        fewer = p.fewer;
      })
      | inl d ↦
          let above = d.grows.space.tables.above d.table (λ e. omega (arith, d.depth, e)) in
          let run =
            loop_goes n x (t + 8 * index x (suc n)) (d.table + 8 * index x n) h d.after
              (rw (pick) d.returns) (λ e. omega (arith, above, e)) in
          rw (run) (elim (find_loop_lem n d.table x d.grows.space d.depth (omega (arith, le))) [
            | inr p ↦ inr (record {
              stops = p.stops;
              blocks = p.blocks;
              exhausted = p.exhausted;
              fewer = λ y. omega (arith, p.fewer y, d.grows.fewer y);
            })
            | inl f ↦
                let same =
                  f.grows.full t (index x (suc n))
                    (λ z. omega (arith, a, z, d.grows.old t (λ y. omega (arith, a, y)))) small
                    d.ne in
                inl (record {
                  after = f.after;
                  blocks = f.blocks;
                  levels = f.levels;
                  leaf = f.leaf;
                  returns = f.returns;
                  grows = Grows-trans d.grows f.grows;
                  low = f.low;
                  ends =
                      last_table_some f.after.memory n t x (λ z. d.ne (sym same ∙ z))
                      ∙ (ap (λ e. last_table f.after.memory n (child e) x) same
                          ∙ (ap (λ u. last_table f.after.memory n u x) d.leads ∙ f.ends));
                })
          ])
    ]
