-- ===== src/Mkfs/Direct.antt =====
-- A block in a direct slot of the inode.
use lilac_os.Base.{
  ℕ, suc, ◌+◌, ◌*◌, ◌≤◌, ◌<◌, ◌≡◌, ◌≢◌, ◌∙◌, inl, inr, Bool, false, List, length, arith, update,
}
use lilac_os.Memory.{
  Memory, IsBytes, store16-outside, load16, store16, load16-store16_self, load16-store16_ne,
}
use lilac_os.Fs.{get_block, block_size}
use lilac_os.Fs.Files.{direct_at, indirect_at}
use lilac_os.Mkfs.Keeping.{Inside, Writes, Writes-used, Keeps-writes}
use lilac_os.Mkfs.Content.{byte_at, Writes-store16}
use lilac_os.Mkfs.Placing.{Own, Own-writes, Packing, Part, extend}

module _ {d0 d : Memory} {idx n : ℕ} {content : List ℕ} {head : Memory} {blk : ℕ → ℕ} {tab : Bool}
    {ib b : ℕ} (p : Packing d0 d idx n content head blk tab ib) (bytes : IsBytes d)
    (part : Part d0 d idx n content b) where
  -- The block goes into the first direct slot.
  module _ (low : n < 12) (direct_only : tab ≡ false) where
    abbrev direct_put : Memory
    direct_put = store16 d (direct_at (get_block idx) n) b

    writes : Writes d direct_put idx
    writes =
        Writes-store16 d (direct_at (get_block idx) n) b idx bytes (omega arith)
          (omega (arith, low))

    inode_low : 2 ≤ idx
    inode_low = omega (arith, p.inode.low)

    elsewhere : (c q : ℕ) → c ≢ idx → Inside c q → direct_put q ≡ d q
    elsewhere c q ne h = writes.outside q (λ r. omega (arith, ne, h.0, h.1, r.0, r.1))

    pub Packing-direct : Packing d0 direct_put idx (suc n) content head (update blk n b) tab ib
    Packing-direct = record {
      inode = record {
        taken = Writes-used writes inode_low idx p.inode.high ∙ p.inode.taken;
        low = p.inode.low;
        high = p.inode.high;
      };
      new = p.new;
      front = λ j l.
          store16-outside d (direct_at (get_block idx) n) b (get_block idx + j)
            (inl (omega (arith, l)))
          ∙ p.front j l;
      few = omega (arith, low);
      keeps = Keeps-writes p.keeps writes inode_low p.new;
      own =
          extend blk n b (λ i x. Own d0 direct_put idx x)
            (λ i h. Own-writes writes inode_low (p.own i h)) (Own-writes writes inode_low part.own);
      direct = λ i h l.
          extend blk n b (λ j x. j < 12 → load16 direct_put (direct_at (get_block idx) j) ≡ x)
            (λ j g m.
              load16-store16_ne d (direct_at (get_block idx) n) b (direct_at (get_block idx) j)
                (inl (omega (arith, g)))
              ∙ p.direct j g m)
            (λ m.
              load16-store16_self d (direct_at (get_block idx) n) b
                (omega (arith, part.own.use_of.high)))
            i h l;
      direct_free = λ i h l.
          load16-store16_ne d (direct_at (get_block idx) n) b (direct_at (get_block idx) i)
            (inr (omega (arith, h)))
          ∙ p.direct_free i (omega (arith, h)) l;
      no_table = λ t.
          load16-store16_ne d (direct_at (get_block idx) n) b (indirect_at (get_block idx))
            (inr (omega (arith, low)))
          ∙ p.no_table t;
      enough = λ h. absurd (omega (arith, h, low));
      table = λ t.
          load16-store16_ne d (direct_at (get_block idx) n) b (indirect_at (get_block idx))
            (inr (omega (arith, low)))
          ∙ p.table t;
      table_own = λ t. Own-writes writes inode_low (p.table_own t);
      apart = λ t. cc;
      slot = λ i l h. absurd (omega (arith, l, h, low));
      slot_free = λ t i h l u. cc;
      holds = λ i k h.
          extend blk n b
            (λ j x.
              k < block_size
              → block_size * j + k < length content
              → direct_put (get_block x + k) ≡ byte_at content (block_size * j + k))
            (λ j g l u.
              elsewhere (blk j) (get_block (blk j) + k) (p.own j g).ne
                (omega arith, omega (arith, l))
              ∙ p.holds j k g l u)
            (λ l u.
              elsewhere b (get_block b + k) part.own.ne (omega arith, omega (arith, l))
              ∙ part.chunk k l u)
            i h;
    }
