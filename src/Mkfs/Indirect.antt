-- ===== src/Mkfs/Indirect.antt =====
-- The indirect block, and a block in one of its slots.
use lilac_os.Base.{
  ℕ, suc, ◌+◌, ◌-◌, ◌*◌, ◌≤◌, ◌<◌, ◌≡◌, ◌≢◌, ◌∙◌, inl, inr, refl, sym, Bool, true, false, List,
  length, arith, update, update_ne,
}
use lilac_os.Memory.{
  Memory, IsBytes, store16-outside, load16, store16, load32, store32, load16-ext, load32-ext,
  load16-store16_self, load16-store16_ne, load32-store32_self, load32-store32_ne,
}
use lilac_os.Fs.{get_block, block_size}
use lilac_os.Fs.Files.{direct_at, indirect_at}
use lilac_os.Mkfs.Keeping.{Inside, Writes, Writes-used, Keeps-writes}
use lilac_os.Mkfs.Content.{byte_at, Writes-store16, Writes-store32}
use lilac_os.Mkfs.Placing.{Own, Own-writes, Packing, Part, extend}

module _ {d0 d : Memory} {idx n : ℕ} {content : List ℕ} {head : Memory} {blk : ℕ → ℕ} {tab : Bool}
    {ib b : ℕ} (p : Packing d0 d idx n content head blk tab ib) (bytes : IsBytes d)
    (part : Part d0 d idx n content b) where
  -- Or into the first slot of the indirect block.
  module _ (lo : 12 ≤ n) (hi : n < 140) (t : tab ≡ true) (other : ib ≢ b) where
    abbrev slot_put : Memory
    slot_put = store32 d (get_block ib + 4 * (n - 12)) b

    table_use : Own d0 d idx ib
    table_use = p.table_own t

    slot_writes : Writes d slot_put ib
    slot_writes =
        Writes-store32 d (get_block ib + 4 * (n - 12)) b ib bytes (omega arith) (omega (arith, hi))

    table_low : 2 ≤ ib
    table_low = omega (arith, table_use.use_of.low)

    beside : (c q : ℕ) → c ≢ ib → Inside c q → slot_put q ≡ d q
    beside c q ne h = slot_writes.outside q (λ r. omega (arith, ne, h.0, h.1, r.0, r.1))

    inode_cell :
        (q : ℕ)
        → get_block idx ≤ q
        → q + 2 ≤ get_block idx + block_size
        → load16 slot_put q ≡ load16 d q
    inode_cell q l h =
        load16-ext slot_put d q λ a f g.
          beside idx a (λ e. table_use.ne (sym e)) (omega (arith, l, f), omega (arith, h, g))

    pub Packing-slot : Packing d0 slot_put idx (suc n) content head (update blk n b) tab ib
    Packing-slot = record {
      inode = record {
        taken = Writes-used slot_writes table_low idx p.inode.high ∙ p.inode.taken;
        low = p.inode.low;
        high = p.inode.high;
      };
      new = p.new;
      front = λ j l.
          beside idx (get_block idx + j) (λ e. table_use.ne (sym e)) (omega arith, omega (arith, l))
          ∙ p.front j l;
      few = omega (arith, hi);
      keeps = Keeps-writes p.keeps slot_writes table_low table_use.new;
      own =
          extend blk n b (λ i x. Own d0 slot_put idx x)
            (λ i h. Own-writes slot_writes table_low (p.own i h))
            (Own-writes slot_writes table_low part.own);
      direct = λ i h l.
          inode_cell (direct_at (get_block idx) i) (omega arith) (omega (arith, l))
          ∙ (p.direct i (omega (arith, l, lo)) l
              ∙ sym (update_ne blk n i b (λ e. omega (arith, e, l, lo))));
      direct_free = λ i h l. absurd (omega (arith, h, l, lo));
      no_table = λ f. cc;
      enough = λ h. t;
      table = λ f. inode_cell (indirect_at (get_block idx)) (omega arith) (omega arith) ∙ p.table f;
      table_own = λ f. Own-writes slot_writes table_low (p.table_own f);
      apart = λ f. extend blk n b (λ i x. ib ≢ x) (p.apart f) other;
      slot = λ i l h.
          extend blk n b (λ j x. 12 ≤ j → load32 slot_put (get_block ib + 4 * (j - 12)) ≡ x)
            (λ j g m.
              load32-store32_ne d (get_block ib + 4 * (n - 12)) b (get_block ib + 4 * (j - 12))
                (inl (omega (arith, g, m)))
              ∙ p.slot j m g)
            (λ m.
              load32-store32_self d (get_block ib + 4 * (n - 12)) b
                (omega (arith, part.own.use_of.high)))
            i h l;
      slot_free = λ f i h l u.
          load32-store32_ne d (get_block ib + 4 * (n - 12)) b (get_block ib + 4 * (i - 12))
            (inr (omega (arith, h, lo)))
          ∙ p.slot_free f i (omega (arith, h)) l u;
      holds = λ i k h.
          extend blk n b
            (λ j x.
              k < block_size
              → block_size * j + k < length content
              → slot_put (get_block x + k) ≡ byte_at content (block_size * j + k))
            (λ j g l u.
              beside (blk j) (get_block (blk j) + k) (λ e. p.apart t j g (sym e))
                (omega arith, omega (arith, l))
              ∙ p.holds j k g l u)
            (λ l u.
              beside b (get_block b + k) (λ e. other (sym e)) (omega arith, omega (arith, l))
              ∙ part.chunk k l u)
            i h;
    }

-- The indirect block is claimed, and its number goes into the inode.
module _ {d0 d : Memory} {idx : ℕ} {content : List ℕ} {head : Memory} {blk : ℕ → ℕ} {ib old : ℕ}
    (p : Packing d0 d idx 12 content head blk false old) (bytes : IsBytes d) (own : Own d0 d idx ib)
    (apart : (i : ℕ) → i < 12 → ib ≢ blk i)
    (zero : (j : ℕ) → j < 128 → load32 d (get_block ib + 4 * j) ≡ 0) where
  abbrev table_put : Memory
  table_put = store16 d (indirect_at (get_block idx)) ib

  table_writes : Writes d table_put idx
  table_writes =
      Writes-store16 d (indirect_at (get_block idx)) ib idx bytes (omega arith) (omega arith)

  idx_low : 2 ≤ idx
  idx_low = omega (arith, p.inode.low)

  others : (c q : ℕ) → c ≢ idx → Inside c q → table_put q ≡ d q
  others c q ne h = table_writes.outside q (λ r. omega (arith, ne, h.0, h.1, r.0, r.1))

  pub Packing-table : Packing d0 table_put idx 12 content head blk true ib
  Packing-table = record {
    inode = record {
      taken = Writes-used table_writes idx_low idx p.inode.high ∙ p.inode.taken;
      low = p.inode.low;
      high = p.inode.high;
    };
    new = p.new;
    front = λ j l.
        store16-outside d (indirect_at (get_block idx)) ib (get_block idx + j)
          (inl (omega (arith, l)))
        ∙ p.front j l;
    few = p.few;
    keeps = Keeps-writes p.keeps table_writes idx_low p.new;
    own = λ i h. Own-writes table_writes idx_low (p.own i h);
    direct = λ i h l.
        load16-store16_ne d (indirect_at (get_block idx)) ib (direct_at (get_block idx) i)
          (inl (omega (arith, l)))
        ∙ p.direct i h l;
    direct_free = λ i h l. absurd (omega (arith, h, l));
    no_table = λ f. cc;
    enough = λ h. refl;
    table = λ f.
        load16-store16_self d (indirect_at (get_block idx)) ib (omega (arith, own.use_of.high));
    table_own = λ f. Own-writes table_writes idx_low own;
    apart = λ f. apart;
    slot = λ i l h. absurd (omega (arith, l, h));
    slot_free = λ f i h l u.
        load32-ext table_put d (get_block ib + 4 * (i - 12))
          (λ q a b. others ib q own.ne (omega (arith, a), omega (arith, b, u)))
        ∙ zero (i - 12) (omega (arith, u));
    holds = λ i k h l u.
        others (blk i) (get_block (blk i) + k) (p.own i h).ne (omega arith, omega (arith, l))
        ∙ p.holds i k h l u;
  }
