-- ===== src/Mkfs/Slots.antt =====
-- `put_block` puts a block into the first slot of a file that is empty.
use lilac_os.Base.{
  ℕ, zero, suc, ◌+◌, ◌-◌, ◌*◌, ◌≤◌, ◌<◌, ◌≡◌, ◌≢◌, ◌∙◌, inl, inr, refl, sym, subst, Bool, false,
  List, Option, none, some, arith, ltb, min, eq-cases, eq→==, ne→==, le→ltb, update,
}
use lilac_os.Memory.{Memory, store16-outside, load16, store16, load32, store32}
use lilac_os.Fs.{get_block}
use lilac_os.Fs.Files.{direct_at}
use lilac_os.Mkfs.{Image, put_direct, put_indirect, put_block}
use lilac_os.Mkfs.Keeping.{IsImage, IsImage-writes, SameTable}
use lilac_os.Mkfs.Content.{Writes-store16}
use lilac_os.Mkfs.Placing.{Packing, Part}
use lilac_os.Mkfs.Direct.{Packing-direct}

put_direct_lem :
    (rounds block inode i n : ℕ) (d : Memory)
    → i ≤ n
    → n < i + rounds
    → ((j : ℕ) → i ≤ j → j < n → load16 d (direct_at inode j) ≢ 0)
    → load16 d (direct_at inode n) ≡ 0
    → put_direct rounds block inode i d ≡ some (store16 d (direct_at inode n) block)
unfolding put_direct
put_direct_lem zero block inode i n d lo hi full empty = absurd (omega (arith, lo, hi))
put_direct_lem (suc rounds) block inode i n d lo hi full empty = elim (eq-cases i n) [
  | inl e ↦ rw (e, eq→== (load16 d (direct_at inode n)) 0 empty)
  | inr ne ↦
      rw (ne→== (load16 d (direct_at inode i)) 0 (full i (omega arith) (omega (arith, lo, ne)))) (
        put_direct_lem rounds block inode (i + 1) n d (omega (arith, lo, ne)) (omega (arith, hi))
          (λ j p q. full j (omega (arith, p)) q) empty)
]

pub put_direct_full :
    (rounds block inode i : ℕ) (d : Memory)
    → ((j : ℕ) → i ≤ j → j < i + rounds → load16 d (direct_at inode j) ≢ 0)
    → put_direct rounds block inode i d ≡ none
unfolding put_direct
put_direct_full zero block inode i d full = refl
put_direct_full (suc rounds) block inode i d full =
    rw (ne→== (load16 d (direct_at inode i)) 0 (full i (omega arith) (omega arith))) (
      put_direct_full rounds block inode (i + 1) d
        (λ j p q. full j (omega (arith, p)) (omega (arith, q))))

pub put_indirect_lem :
    (rounds block indirect i n : ℕ) (d : Memory)
    → i ≤ n
    → n < i + rounds
    → ((j : ℕ) → i ≤ j → j < n → load32 d (indirect + 4 * j) ≢ 0)
    → load32 d (indirect + 4 * n) ≡ 0
    → put_indirect rounds block indirect i d ≡ store32 d (indirect + 4 * n) block
unfolding put_indirect
put_indirect_lem zero block indirect i n d lo hi full empty = absurd (omega (arith, lo, hi))
put_indirect_lem (suc rounds) block indirect i n d lo hi full empty = elim (eq-cases i n) [
  | inl e ↦ rw (e, eq→== (load32 d (indirect + 4 * n)) 0 empty)
  | inr ne ↦
      rw (ne→== (load32 d (indirect + 4 * i)) 0 (full i (omega arith) (omega (arith, lo, ne)))) (
        put_indirect_lem rounds block indirect (i + 1) n d (omega (arith, lo, ne))
          (omega (arith, hi)) (λ j p q. full j (omega (arith, p)) q) empty)
]

-- A file with its first `n` blocks in place.
pub record State (d0 : Memory) (idx n : ℕ) (content : List ℕ) (head : Memory) (image : Image)
    : Type 0 where
  pub right : IsImage image
  pub blk : ℕ → ℕ
  pub ib : ℕ
  pub listed : SameTable head image.bytes
  pub packing : Packing d0 image.bytes idx n content head blk (ltb 12 n) ib

-- The claims for indirect blocks up to `n` blocks of a file.
abbrev pub tables : ℕ → ℕ
tables n = min 1 (n - 12)

pub record Placed (d0 : Memory) (idx n : ℕ) (content : List ℕ) (head : Memory) (image : Image)
    (result : Option Image) : Type 0 where
  pub after : Image
  pub returns : result ≡ some after
  pub state : State d0 idx (suc n) content head after
  pub count : after.unused + (tables (suc n) - tables n) ≡ image.unused

module _ {d0 : Memory} {idx n : ℕ} {content : List ℕ} {head : Memory} {image : Image} {blk : ℕ → ℕ}
    {tab : Bool} {ib b : ℕ} (right : IsImage image) (listed : SameTable head image.bytes)
    (p : Packing d0 image.bytes idx n content head blk tab ib)
    (part : Part d0 image.bytes idx n content b) where
  inode : ℕ
  inode = get_block idx

  taken_direct : (j : ℕ) → j < n → j < 12 → load16 image.bytes (direct_at (get_block idx) j) ≢ 0
  taken_direct j h l e = omega (arith, (p.own j h).use_of.low, p.direct j h l, e)

  pub place_direct :
      (low : n < 12)
      → tab ≡ false
      → Placed d0 idx n content head image (put_block b (get_block idx) image)
  unfolding put_block
  place_direct low none_yet =
      let d = store16 image.bytes (direct_at (get_block idx) n) b in
      let run =
        put_direct_lem 12 b (get_block idx) 0 n image.bytes (omega arith) (omega (arith, low))
          (λ j lo hi. taken_direct j hi (omega (arith, hi, low)))
          (p.direct_free n (omega arith) low) in
      let small : ltb 12 (suc n) ≡ false = le→ltb 12 (suc n) (omega (arith, low)) in
      rw (put_block, run)
        (record {
          after = record image { bytes = d };
          returns = refl;
          state = record {
            right =
                IsImage-writes right
                  (Writes-store16 image.bytes (direct_at (get_block idx) n) b idx right.built.bytes
                    (omega arith) (omega (arith, low)))
                  (omega (arith, p.inode.low)) p.inode.high p.inode.taken;
            blk = update blk n b;
            ib = ib;
            listed = λ q h.
                store16-outside image.bytes (direct_at (get_block idx) n) b q
                  (inl (omega (arith, h.1, p.inode.low)))
                ∙ listed q h;
            packing =
                subst (λ t. Packing d0 d idx (suc n) content head (update blk n b) t ib)
                  (none_yet ∙ sym small) (Packing-direct p right.built.bytes part low none_yet);
          };
          count = omega (arith, low);
        })
