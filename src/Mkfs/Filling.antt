-- ===== src/Mkfs/Filling.antt =====
-- `alloc_inode` and the fields of a fresh inode.
use lilac_os.Base.{
  ℕ, zero, suc, ◌+◌, ◌*◌, ◌%◌, ◌^◌, ◌≤◌, ◌<◌, ◌≡◌, ◌≢◌, ◌∙◌, ◌⊎◌, inl, inr, refl, ap, false, length,
  some, arith, if◌then◌else◌, eq-cases, eq→==, ne→==,
}
use lilac_os.Memory.{
  Memory, IsBytes, load16, store16, load32, store32, store16-outside, store32-outside,
  store16-IsBytes, store32-IsBytes, load16-ext, load32-ext, load32-store32_self,
  load16-store16_self, load16-store16_ne,
}
use lilac_os.Strings.Laws.{IsString, IsString-ext}
use lilac_os.Fs.{get_block, block_size, fat_at, fat_size}
use lilac_os.Fs.Files.{filename, direct_at, indirect_at}
use lilac_os.Fs.Growth.{blocks_at}
use lilac_os.Fs.Bitmap.{used}
use lilac_os.Mkfs.{
  Image, Entry, alloc_free_block, fill_entry, alloc_entry, alloc_inode, put_name, blocks_for,
  fill_inode,
}
use lilac_os.Mkfs.Keeping.{
  IsImage, Fresh, alloc-Fresh, Writes, Writes-used, IsImage-writes, Keeps-writes,
}
use lilac_os.Mkfs.Content.{Bytes, Letters, put_name_lem, Writes-store16, away}
use lilac_os.Mkfs.Placing.{Packing}
use lilac_os.Mkfs.Slots.{State}

-- A regular file that the image builder can pack.
pub record Fits (entry : Entry) : Type 0 where
  pub letters : Letters entry.name
  pub short : length entry.name < 32
  pub bytes : Bytes entry.content
  pub small : length entry.content ≤ 140 * block_size

alloc_entry_lem :
    (rounds i k : ℕ) (image : Image)
    → i ≤ k
    → k < i + rounds
    → ((j : ℕ) → i ≤ j → j < k → load16 image.bytes (fat_at j) ≢ 0)
    → load16 image.bytes (fat_at k) ≡ 0
    → alloc_entry rounds i image ≡ fill_entry k (alloc_free_block image)
unfolding alloc_entry
alloc_entry_lem zero i k image lo hi full empty = absurd (omega (arith, lo, hi))
alloc_entry_lem (suc rounds) i k image lo hi full empty = elim (eq-cases i k) [
  | inl e ↦ rw (e, eq→== (load16 image.bytes (fat_at k)) 0 empty, if◌then◌else◌) refl
  | inr ne ↦
      rw
        (
          ne→== (load16 image.bytes (fat_at i)) 0 (full i (omega arith) (omega (arith, lo, ne))),
          if◌then◌else◌,
        )
        (alloc_entry_lem rounds (i + 1) k image (omega (arith, lo, ne)) (omega (arith, hi))
          (λ j p q. full j (omega (arith, p)) q) empty)
]

-- The fields of the inode.
record IsFilled (inode : ℕ) (entry : Entry) (d e : Memory) : Type 0 where
  named : IsString e (filename inode) entry.name
  size : load32 e inode ≡ length entry.content
  outside : (q : ℕ) → (q < inode) ⊎ (inode + 38 ≤ q) → e q ≡ d q
  bytes : IsBytes e

fill_inode_lem :
    (inode : ℕ) (entry : Entry) (d : Memory)
    → Fits entry
    → IsBytes d
    → IsFilled inode entry d (fill_inode inode entry d)
unfolding fill_inode
fill_inode_lem inode entry d f b =
    let p = put_name_lem entry.name (filename inode) d f.letters in
    let one = put_name entry.name (filename inode) d in
    let size = length entry.content % 2 ^ 32 in
    let same : size ≡ length entry.content = omega (arith, f.small) in
    let two = store32 one inode size in
    let three = store16 two (blocks_at inode) (blocks_for size) in
    record {
      named = IsString-ext one three (filename inode) entry.name p.string λ q lo hi.
          store16-outside two (blocks_at inode) (blocks_for size) q
            (inl (omega (arith, hi, f.short)))
          ∙ store32-outside one inode size q (inr (omega (arith, lo)));
      size =
          load32-ext three two inode (λ q lo hi.
            store16-outside two (blocks_at inode) (blocks_for size) q (inl (omega (arith, hi))))
          ∙ (load32-store32_self one inode size (omega (arith, f.small)) ∙ same);
      outside = λ q h.
          store16-outside two (blocks_at inode) (blocks_for size) q (ground (arith, h))
          ∙ (store32-outside one inode size q (ground (arith, h))
              ∙ p.outside q (ground (arith, h, f.short)));
      bytes =
          store16-IsBytes two (blocks_at inode) (blocks_for size)
            (store32-IsBytes one inode size (p.bytes b));
    }

-- `alloc_inode`, and the fields put into the inode: the file has no block yet.
pub record Begun (k : ℕ) (entry : Entry) (image : Image) : Type 0 where
  pub idx : ℕ
  pub claimed : Image
  pub head : Memory
  pub filled : fill_inode (get_block idx) entry claimed.bytes ≡ head
  pub returns : alloc_inode image ≡ (some idx, claimed)
  pub here : load16 head (fat_at k) ≡ idx
  pub there :
      (j : ℕ) → j ≢ k → j < fat_size → load16 head (fat_at j) ≡ load16 image.bytes (fat_at j)
  pub state : State image.bytes idx 0 (entry.content) head (record claimed { bytes = head })
  pub named : IsString head (filename (get_block idx)) entry.name
  pub size : load32 head (get_block idx) ≡ length entry.content
  pub count : claimed.unused + 1 ≡ image.unused

load16_blank : (d : Memory) (p : ℕ) → ((q : ℕ) → p ≤ q → q < p + 2 → d q ≡ 0) → load16 d p ≡ 0
unfolding load16
load16_blank d p h =
    omega (arith, h p (omega arith) (omega arith), h (p + 1) (omega arith) (omega arith))

module _ {image : Image} {k : ℕ} {entry : Entry} (right : IsImage image) (below : k < fat_size)
    (fits : Fits entry) (empty : load16 image.bytes (fat_at k) ≡ 0)
    (full : (j : ℕ) → j < k → load16 image.bytes (fat_at j) ≢ 0)
    (f : Fresh image (alloc_free_block image)) where
  abbrev listing : Memory
  listing = store16 f.after.bytes (fat_at k) f.block

  abbrev front : Memory
  front = fill_inode (get_block f.block) entry listing

  table : Writes f.after.bytes listing 2
  table =
      Writes-store16 f.after.bytes (fat_at k) f.block 2 f.image_after.built.bytes (omega arith)
        (omega (arith, below))

  fields : IsFilled (get_block f.block) entry listing front
  fields = fill_inode_lem (get_block f.block) entry listing fits table.bytes

  inode : Writes listing front f.block
  inode = record {
    bytes = fields.bytes;
    outside = λ q out.
        fields.outside q (away (get_block f.block) 38 f.block q out (omega arith) (omega arith));
  }

  taken : used listing f.block ≡ 1
  taken = Writes-used table (omega arith) f.block f.in_use.high ∙ f.in_use.taken

  blank_behind :
      (q : ℕ) → get_block f.block + 38 ≤ q → q < get_block f.block + block_size → front q ≡ 0
  blank_behind q lo hi =
      fields.outside q (inr lo)
      ∙ (table.outside q (λ r. omega (arith, r.1, lo, f.in_use.low))
          ∙ f.zero q (omega (arith, lo), hi))

  packing : Packing image.bytes front f.block 0 entry.content front (λ i. 0) false 0
  packing = record {
    inode = record {
      taken = Writes-used inode (omega (arith, f.in_use.low)) f.block f.in_use.high ∙ taken;
      low = f.in_use.low;
      high = f.in_use.high;
    };
    new = λ u. omega (arith, u.taken, f.was);
    front = λ j l. refl;
    few = omega arith;
    keeps =
        Keeps-writes (Keeps-writes f.keeps table (omega arith) (λ u. omega (arith, u.low))) inode
          (omega (arith, f.in_use.low)) (λ u. omega (arith, u.taken, f.was));
    own = λ i h. absurd (omega (arith, h));
    direct = λ i h l. absurd (omega (arith, h));
    direct_free = λ i h l.
        load16_blank front (direct_at (get_block f.block) i)
          (λ q lo hi. blank_behind q (omega (arith, lo)) (omega (arith, hi, l)));
    no_table = λ t.
        load16_blank front (indirect_at (get_block f.block))
          (λ q lo hi. blank_behind q (omega (arith, lo)) (omega (arith, hi)));
    enough = λ h. absurd (omega (arith, h));
    table = λ t. cc;
    table_own = λ t. cc;
    apart = λ t. cc;
    slot = λ i l h. absurd (omega (arith, h));
    slot_free = λ t i h l u. cc;
    holds = λ i j h. absurd (omega (arith, h));
  }

  cell : (j : ℕ) → j < fat_size → load16 front (fat_at j) ≡ load16 listing (fat_at j)
  cell j h =
      load16-ext front listing (fat_at j)
        λ q lo hi. fields.outside q (inl (omega (arith, hi, h, f.in_use.low)))

  found :
      fill_entry k (some f.block, f.after) ≡ (some f.block, record (f.after) { bytes = listing })
  unfolding fill_entry
  found = refl

  begun : Begun k entry image
  unfolding alloc_inode
  begun = record {
    idx = f.block;
    claimed = record (f.after) { bytes = listing };
    head = front;
    filled = refl;
    returns =
        alloc_entry_lem fat_size 0 k image (omega arith) (omega (arith, below)) (λ j p q. full j q)
          empty
        ∙ (ap (fill_entry k) f.returns ∙ found);
    here =
        cell k below
        ∙ load16-store16_self f.after.bytes (fat_at k) f.block (omega (arith, f.in_use.high));
    there = λ j ne h.
        cell j h
        ∙ (load16-store16_ne f.after.bytes (fat_at k) f.block (fat_at j) (omega (arith, ne))
            ∙ load16-ext f.after.bytes image.bytes (fat_at j)
                (λ q lo hi. f.outside q (inr (omega (arith, lo)))));
    state = record {
      right =
          IsImage-writes
            (IsImage-writes f.image_after table (omega arith) (omega arith)
              (f.image_after.reserved 2 (omega arith)))
            inode (omega (arith, f.in_use.low)) f.in_use.high taken;
      listed = λ q h. refl;
      blk = λ i. 0;
      ib = 0;
      packing = packing;
    };
    named = fields.named;
    size = fields.size;
    count = f.count;
  }

pub begin_file :
    {image : Image} {k : ℕ} {entry : Entry}
    → IsImage image
    → k < fat_size
    → Fits entry
    → load16 image.bytes (fat_at k) ≡ 0
    → ((j : ℕ) → j < k → load16 image.bytes (fat_at j) ≢ 0)
    → 0 < image.unused
    → Begun k entry image
begin_file right below fits empty full left =
    begun right below fits empty full (alloc-Fresh right left)
