-- ===== src/Mkfs/Placing.antt =====
-- A file that is being packed: its blocks in the slots of the inode and of the indirect block.
use lilac_os.Base.{
  ℕ, suc, ◌+◌, ◌-◌, ◌*◌, ◌≤◌, ◌<◌, ◌≡◌, ◌≢◌, ◌∙◌, inl, inr, sym, subst, Bool, true, false, List,
  length, arith, eq-cases, update, update_self, update_ne,
}
use lilac_os.Memory.{Memory, load16, load32, load16-ext, load32-ext}
use lilac_os.Fs.{get_block, block_size}
use lilac_os.Fs.Files.{direct_at, indirect_at}
use lilac_os.Mkfs.Keeping.{InUse, Keeps, InUse-keeps, Keeps-trans, Writes, Writes-used}
use lilac_os.Mkfs.Content.{byte_at}

-- A block that was claimed for the file of the inode `idx`, after the image held `d0`.
pub record Own (d0 d : Memory) (idx b : ℕ) : Type 0 where
  pub use_of : InUse d b
  pub new : ¬ (InUse d0 b)
  pub ne : b ≢ idx

-- The blocks `blk` of the first `n` parts of the content are in the slots, and the other slots are
-- empty. `tab` tells whether there is an indirect block, `ib`.
pub record Packing (d0 d : Memory) (idx n : ℕ) (content : List ℕ) (head : Memory) (blk : ℕ → ℕ)
    (tab : Bool) (ib : ℕ) : Type 0 where
  pub inode : InUse d idx
  pub new : ¬ (InUse d0 idx)
  pub front : (k : ℕ) → k < 38 → d (get_block idx + k) ≡ head (get_block idx + k)
  pub few : n ≤ 140
  pub keeps : Keeps d0 d
  pub own : (i : ℕ) → i < n → Own d0 d idx (blk i)
  pub direct : (i : ℕ) → i < n → i < 12 → load16 d (direct_at (get_block idx) i) ≡ blk i
  pub direct_free : (i : ℕ) → n ≤ i → i < 12 → load16 d (direct_at (get_block idx) i) ≡ 0
  pub no_table : tab ≡ false → load16 d (indirect_at (get_block idx)) ≡ 0
  pub enough : 12 < n → tab ≡ true
  pub table : tab ≡ true → load16 d (indirect_at (get_block idx)) ≡ ib
  pub table_own : tab ≡ true → Own d0 d idx ib
  pub apart : tab ≡ true → (i : ℕ) → i < n → ib ≢ blk i
  pub slot : (i : ℕ) → 12 ≤ i → i < n → load32 d (get_block ib + 4 * (i - 12)) ≡ blk i
  pub slot_free :
      tab ≡ true → (i : ℕ) → n ≤ i → 12 ≤ i → i < 140 → load32 d (get_block ib + 4 * (i - 12)) ≡ 0
  pub holds :
      (i k : ℕ)
      → i < n
      → k < block_size
      → block_size * i + k < length content
      → d (get_block (blk i) + k) ≡ byte_at content (block_size * i + k)

pub Own-keeps : {d0 d e : Memory} {idx b : ℕ} → Keeps d e → Own d0 d idx b → Own d0 e idx b
Own-keeps k o = record { use_of = InUse-keeps k o.use_of; new = o.new; ne = o.ne }

pub Own-writes :
    {d0 d e : Memory} {idx b c : ℕ} → Writes d e c → 2 ≤ c → Own d0 d idx b → Own d0 e idx b
Own-writes {b = b} w low o = record {
  use_of = record {
    taken = Writes-used w low b o.use_of.high ∙ o.use_of.taken;
    low = o.use_of.low;
    high = o.use_of.high;
  };
  new = o.new;
  ne = o.ne;
}

-- A cell of a block in use is read as before.
load16-keeps :
    {d e : Memory} {b : ℕ} (p : ℕ)
    → Keeps d e
    → InUse d b
    → get_block b ≤ p
    → p + 2 ≤ get_block b + block_size
    → load16 e p ≡ load16 d p
load16-keeps {d} {e} {b} p k u lo hi =
    load16-ext e d p λ q l h. k.same b q u (omega (arith, lo, l), omega (arith, h, hi))

load32-keeps :
    {d e : Memory} {b : ℕ} (p : ℕ)
    → Keeps d e
    → InUse d b
    → get_block b ≤ p
    → p + 4 ≤ get_block b + block_size
    → load32 e p ≡ load32 d p
load32-keeps {d} {e} {b} p k u lo hi =
    load32-ext e d p λ q l h. k.same b q u (omega (arith, lo, l), omega (arith, h, hi))

-- Claiming and filling other blocks leaves the file as it is.
pub Packing-keeps :
    {d0 d e : Memory} {idx n : ℕ} {content : List ℕ} {head : Memory} {blk : ℕ → ℕ} {tab : Bool}
    {ib : ℕ}
    → Keeps d e
    → Packing d0 d idx n content head blk tab ib
    → Packing d0 e idx n content head blk tab ib
Packing-keeps {d0} {d} {e} {idx} {n} {content} {head} {blk} {tab} {ib} k p = record {
  inode = InUse-keeps k p.inode;
  new = p.new;
  front =
      λ j l. k.same idx (get_block idx + j) p.inode (omega arith, omega (arith, l)) ∙ p.front j l;
  few = p.few;
  keeps = Keeps-trans p.keeps k;
  own = λ i h. Own-keeps k (p.own i h);
  direct = λ i h l.
      load16-keeps (direct_at (get_block idx) i) k p.inode (omega arith) (omega (arith, l))
      ∙ p.direct i h l;
  direct_free = λ i h l.
      load16-keeps (direct_at (get_block idx) i) k p.inode (omega arith) (omega (arith, l))
      ∙ p.direct_free i h l;
  no_table = λ t.
      load16-keeps (indirect_at (get_block idx)) k p.inode (omega arith) (omega arith)
      ∙ p.no_table t;
  enough = p.enough;
  table = λ t.
      load16-keeps (indirect_at (get_block idx)) k p.inode (omega arith) (omega arith) ∙ p.table t;
  table_own = λ t. Own-keeps k (p.table_own t);
  apart = p.apart;
  slot = λ i l h.
      load32-keeps (get_block ib + 4 * (i - 12)) k
        (p.table_own (p.enough (omega (arith, l, h)))).use_of (omega arith)
        (omega (arith, h, p.few))
      ∙ p.slot i l h;
  slot_free = λ t i h l u.
      load32-keeps (get_block ib + 4 * (i - 12)) k (p.table_own t).use_of (omega arith)
        (omega (arith, u))
      ∙ p.slot_free t i h l u;
  holds = λ i j h l u.
      k.same (blk i) (get_block (blk i) + j) (p.own i h).use_of (omega arith, omega (arith, l))
      ∙ p.holds i j h l u;
}

-- A further block `b`, which holds the part `n` of the content.
pub record Part (d0 d : Memory) (idx n : ℕ) (content : List ℕ) (b : ℕ) : Type 0 where
  pub own : Own d0 d idx b
  pub chunk :
      (k : ℕ)
      → k < block_size
      → block_size * n + k < length content
      → d (get_block b + k) ≡ byte_at content (block_size * n + k)

pub Part-keeps :
    {d0 d e : Memory} {idx n : ℕ} {content : List ℕ} {b : ℕ}
    → Keeps d e
    → Part d0 d idx n content b
    → Part d0 e idx n content b
Part-keeps {b = b} k part = record {
  own = Own-keeps k part.own;
  chunk = λ j h l.
      k.same b (get_block b + j) part.own.use_of (omega arith, omega (arith, h)) ∙ part.chunk j h l;
}

-- A write into another block leaves it.
pub Part-writes :
    {d0 d e : Memory} {idx n : ℕ} {content : List ℕ} {b c : ℕ}
    → Writes d e c
    → 2 ≤ c
    → b ≢ c
    → Part d0 d idx n content b
    → Part d0 e idx n content b
Part-writes {b = b} w low ne part = record {
  own = Own-writes w low part.own;
  chunk =
      λ j h l. w.outside (get_block b + j) (λ r. omega (arith, ne, h, r.0, r.1)) ∙ part.chunk j h l;
}

-- A fact on the blocks in front holds with the new one, if it holds of that.
pub extend :
    (blk : ℕ → ℕ) (n b : ℕ) (P : ℕ → ℕ → Type 0)
    → ((i : ℕ) → i < n → P i (blk i))
    → P n b
    → (i : ℕ) → i < suc n
    → P i (update blk n b i)
extend blk n b P old last i h = elim (eq-cases n i) [
  | inl e ↦ subst (λ x. P x (update blk n b x)) e (subst (P n) (sym (update_self blk n b)) last)
  | inr ne ↦ subst (P i) (sym (update_ne blk n i b ne)) (old i (omega (arith, h, ne)))
]
