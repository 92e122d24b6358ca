-- ===== src/Mkfs/Packed.antt =====
-- `pack`: a regular file in the image, behind the files in front of it.
use lilac_os.Base.{
  ℕ, suc, ◌+◌, ◌-◌, ◌≤◌, ◌<◌, ◌≡◌, ◌∙◌, inl, inr, refl, sym, ap, subst, Bool, length, Option, some,
  arith, eq-cases, update, update_self, update_ne,
}
use lilac_os.Memory.{Memory, load16, load32, load16-ext, load32-ext}
use lilac_os.Strings.Laws.{IsString, IsString-ext}
use lilac_os.Fs.{get_block, fat_at, fat_size}
use lilac_os.Fs.Files.{filename}
use lilac_os.Mkfs.{Image, Entry, alloc_inode, fill_inode, copy_blocks, pack}
use lilac_os.Mkfs.Keeping.{Keeps, IsImage}
use lilac_os.Mkfs.Content.{drop}
use lilac_os.Mkfs.Placing.{Packing, Packing-keeps}
use lilac_os.Mkfs.Copying.{total, needs, Copied, copy_blocks_lem}
use lilac_os.Mkfs.Filling.{Fits, Begun, begin_file}

-- The file is in the image: its inode, and its blocks with the content.
pub record HasFile (d : Memory) (entry : Entry) (idx : ℕ) : Type 0 where
  pub old : Memory
  pub head : Memory
  pub blk : ℕ → ℕ
  pub tab : Bool
  pub ib : ℕ
  pub packing : Packing old d idx (total entry.content) entry.content head blk tab ib
  pub named : IsString d (filename (get_block idx)) entry.name
  pub size : load32 d (get_block idx) ≡ length entry.content
  pub short : length entry.name < 32

pub HasFile-keeps :
    {d e : Memory} {entry : Entry} {idx : ℕ} → Keeps d e → HasFile d entry idx → HasFile e entry idx
HasFile-keeps {d} {e} {entry} {idx} k h =
    let same : (q : ℕ) → get_block idx ≤ q → q < get_block idx + 38 → e q ≡ d q =
      λ q lo hi. k.same idx q h.packing.inode (lo, omega (arith, hi)) in
    record {
      old = h.old;
      head = h.head;
      blk = h.blk;
      tab = h.tab;
      ib = h.ib;
      packing = Packing-keeps k h.packing;
      named =
          IsString-ext d e (filename (get_block idx)) entry.name h.named
            (λ q lo hi. same q (omega (arith, lo)) (omega (arith, hi, h.short)));
      size = load32-ext e d (get_block idx) (λ q lo hi. same q lo (omega (arith, hi))) ∙ h.size;
      short = h.short;
    }

-- The first `k` entries of the table are those of the first `k` files, and the others are empty.
pub record IsDirectory (files : ℕ → Entry) (k : ℕ) (image : Image) : Type 0 where
  pub right : IsImage image
  pub ino : ℕ → ℕ
  pub listed : (i : ℕ) → i < k → load16 image.bytes (fat_at i) ≡ ino i
  pub free : (i : ℕ) → k ≤ i → i < fat_size → load16 image.bytes (fat_at i) ≡ 0
  pub has : (i : ℕ) → i < k → HasFile image.bytes (files i) (ino i)

-- The blocks that a file takes, its inode included.
abbrev pub cost : Entry → ℕ
cost entry = 1 + needs entry.content 0

-- Files are packed: the table holds `k` of them, and `spent` blocks were taken.
pub record IsPacked (files : ℕ → Entry) (k spent : ℕ) (image : Image) (result : Option Image)
    : Type 0 where
  pub after : Image
  pub returns : result ≡ some after
  pub directory : IsDirectory files k after
  pub count : after.unused + spent ≡ image.unused

pack_step :
    (entry : Entry) (image claimed : Image) (idx : ℕ)
    → alloc_inode image ≡ (some idx, claimed)
    → pack entry image
      ≡ copy_blocks
          (length entry.content)
          (get_block idx)
          entry.content
          (record claimed { bytes = fill_inode (get_block idx) entry claimed.bytes })
unfolding pack
pack_step entry image claimed idx run =
    rw (pack, ap (λ r. r.0) run)
      (ap {A = Image}
        (λ r.
          copy_blocks (length entry.content) (get_block idx) entry.content
            (record r { bytes = fill_inode (get_block idx) entry r.bytes }))
        (ap (λ r. r.1) run))

module _ {files : ℕ → Entry} {k : ℕ} {image : Image} (dir : IsDirectory files k image)
    (below : k < fat_size) (fits : Fits (files k)) (b : Begun k (files k) image)
    {result : Option Image}
    (c : Copied image.bytes b.idx 0
      (files k).content
      b.head
      (record b.claimed { bytes = b.head })
      result) where
  -- A cell of the table is as the inode was claimed.
  cell : (j : ℕ) → j < fat_size → load16 c.after.bytes (fat_at j) ≡ load16 b.head (fat_at j)
  cell j h =
      load16-ext c.after.bytes b.head (fat_at j)
        λ q lo hi. c.state.listed q (omega (arith, lo), omega (arith, hi, h))

  front_at : (q : ℕ) → get_block b.idx ≤ q → q < get_block b.idx + 38 → c.after.bytes q ≡ b.head q
  front_at q lo hi =
      let there : get_block b.idx + (q - get_block b.idx) ≡ q = omega (arith, lo) in
      subst (λ p. c.after.bytes p ≡ b.head p) there
        (c.state.packing.front (q - get_block b.idx) (omega (arith, lo, hi)))

  new_file : HasFile c.after.bytes (files k) b.idx
  new_file = record {
    old = image.bytes;
    head = b.head;
    blk = c.state.blk;
    tab = _;
    ib = c.state.ib;
    packing = c.state.packing;
    named =
        IsString-ext b.head c.after.bytes (filename (get_block b.idx)) (files k).name b.named
          (λ q lo hi. front_at q (omega (arith, lo)) (omega (arith, hi, fits.short)));
    size =
        load32-ext c.after.bytes b.head (get_block b.idx)
          (λ q lo hi. front_at q lo (omega (arith, hi)))
        ∙ b.size;
    short = fits.short;
  }

  add_file : IsDirectory files (suc k) c.after
  add_file = record {
    right = c.state.right;
    ino = update dir.ino k b.idx;
    listed = λ i h. elim (eq-cases k i) [
      | inl e ↦
          subst (λ j. load16 c.after.bytes (fat_at j) ≡ update dir.ino k b.idx j) e
            (cell k below ∙ (b.here ∙ sym (update_self dir.ino k b.idx)))
      | inr ne ↦
          cell i (omega (arith, h, below))
          ∙ (b.there i (λ e. ne (sym e)) (omega (arith, h, below))
              ∙ (dir.listed i (omega (arith, h, ne)) ∙ sym (update_ne dir.ino k i b.idx ne)))
    ];
    free = λ i lo hi.
        cell i hi ∙ (b.there i (λ e. omega (arith, e, lo)) hi ∙ dir.free i (omega (arith, lo)) hi);
    has = λ i h. elim (eq-cases k i) [
      | inl e ↦
          subst (λ j. HasFile c.after.bytes (files j) (update dir.ino k b.idx j)) e
            (subst (HasFile c.after.bytes (files k)) (sym (update_self dir.ino k b.idx)) new_file)
      | inr ne ↦
          subst (HasFile c.after.bytes (files i)) (sym (update_ne dir.ino k i b.idx ne))
            (HasFile-keeps c.state.packing.keeps (dir.has i (omega (arith, h, ne))))
    ];
  }

pub pack_lem :
    {files : ℕ → Entry} {k : ℕ} {image : Image}
    → IsDirectory files k image
    → k < fat_size
    → Fits (files k)
    → cost (files k) ≤ image.unused
    → IsPacked files (suc k) (cost (files k)) image (pack (files k) image)
unfolding drop
pack_lem {files} {k} {image} dir below fits room =
    let b =
      begin_file dir.right below fits (dir.free k (omega arith) below)
        (λ j h e. omega (arith, dir.listed j h, e, (dir.has j h).packing.inode.low))
        (omega (arith, room)) in
    let c =
      copy_blocks_lem (length (files k).content) 0 (files k).content b.state fits.bytes refl
        (omega arith) (omega arith) (omega (arith, fits.small)) (omega (arith, room, b.count)) in
    record {
      after = c.after;
      returns =
          pack_step (files k) image b.claimed b.idx b.returns
          ∙ (ap
                (λ d.
                  copy_blocks (length (files k).content) (get_block b.idx) (files k).content
                    (record b.claimed { bytes = d }))
                b.filled
              ∙ c.returns);
      directory = add_file dir below fits b c;
      count = omega (arith, c.count, b.count);
    }
