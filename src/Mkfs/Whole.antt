-- ===== src/Mkfs/Whole.antt =====
-- The whole image: the directory behind the blocks in front, and the super block.
use lilac_os.Base.{
  ℕ, zero, suc, ◌+◌, ◌%◌, ◌^◌, ◌≤◌, ◌<◌, ◌≡◌, ◌∙◌, inl, inr, refl, sym, ap, subst, false, List, [],
  ◌∷◌, length, Option, some, arith, lt-cases,
}
use lilac_os.Memory.{
  Memory, load16, store16, store32, store16-outside, store32-outside, store16-IsBytes,
  store32-IsBytes, load16-store16_self, load16-ext,
}
use lilac_os.Fs.{block_num, fat_at, fat_size, unused_at}
use lilac_os.Fs.Bitmap.{used}
use lilac_os.Fs.Blocks.{IsConsistent, unused_below-ext}
use lilac_os.Mkfs.{Image, Entry, reserve, walk, fill_super, mkfs}
use lilac_os.Mkfs.Keeping.{Keeps, used-ext}
use lilac_os.Mkfs.Packed.{HasFile, HasFile-keeps, IsDirectory}
use lilac_os.Mkfs.Directory.{packable, costs, AllFit, Follow, walk_lem}
use lilac_os.Mkfs.Front.{IsReserved, reserve_lem}

-- The entry `i` of a list.
abbrev pub nobody : Entry
nobody = record { name = []; regular = false; content = [] }

unfoldable pub entry_at : List Entry → ℕ → Entry
entry_at [] i = nobody
entry_at (entry ∷ entries) zero = entry
entry_at (entry ∷ entries) (suc i) = entry_at entries i

Follow-entry_at :
    (files : ℕ → Entry) (k : ℕ) (entries : List Entry)
    → ((j : ℕ) → files (k + j) ≡ entry_at entries j)
    → Follow files k entries
unfolding Follow entry_at
Follow-entry_at files k [] same = tt
Follow-entry_at files k (entry ∷ entries) same =
    let here : k + 0 ≡ k = omega arith in
    (
      sym (ap files here) ∙ same 0,
      Follow-entry_at files (suc k) entries
          λ j. let there : suc k + j ≡ k + suc j = omega arith in ap files there ∙ same (suc j),
    )

empty-IsDirectory :
    (files : ℕ → Entry) (image : Image) → IsReserved 3 image → IsDirectory files 0 image
unfolding load16
empty-IsDirectory files image r = record {
  right = record {
    built = r.built;
    reserved = r.taken;
    blank = λ b q hi u h. elim (lt-cases b 3) [
      | inl l ↦ absurd (omega (arith, r.taken b l, u))
      | inr l ↦ r.zero q (inr (omega (arith, l, h.0)))
    ];
  };
  ino = λ i. 0;
  listed = λ i h. absurd (omega (arith, h));
  free = λ i lo hi.
      omega
        (arith, r.zero (fat_at i) (inr (omega arith)), r.zero (fat_at i + 1) (inr (omega arith)));
  has = λ i h. absurd (omega (arith, h));
}

-- The super block is right, the table has the files of the list, in this order, and each of them
-- is in the image.
pub record IsRootfs (es : List Entry) (m : Memory) : Type 0 where
  pub consistent : IsConsistent m
  pub unused : load16 m unused_at + (3 + costs es) ≡ block_num
  pub ino : ℕ → ℕ
  pub listed : (i : ℕ) → i < length es → load16 m (fat_at i) ≡ ino i
  pub free : (i : ℕ) → length es ≤ i → i < fat_size → load16 m (fat_at i) ≡ 0
  pub has : (i : ℕ) → i < length es → HasFile m (entry_at es i) (ino i)

fill_super_outside : (image : Image) (q : ℕ) → 8 ≤ q → fill_super image q ≡ image.bytes q
unfolding fill_super
fill_super_outside image q h =
    let d = store32 image.bytes 0 0x4D534653 in
    store16-outside (store16 d 4 block_num) unused_at (image.unused % 2 ^ 16) q
      (inr (omega (arith, h)))
    ∙ (store16-outside d 4 block_num q (inr (omega (arith, h)))
        ∙ store32-outside image.bytes 0 0x4D534653 q (inr (omega (arith, h))))

IsRootfs-fill_super :
    (es : List Entry) (image : Image)
    → IsDirectory (entry_at es) (length es) image
    → image.unused + (3 + costs es) ≡ block_num
    → IsRootfs es (fill_super image)
unfolding fill_super
IsRootfs-fill_super es image dir count =
    let d = store32 image.bytes 0 0x4D534653 in
    let e = store16 d 4 block_num in
    let m = fill_super image in
    let same : (b : ℕ) → b < block_num → used m b ≡ used image.bytes b = λ b h.
      used-ext image.bytes m b h (λ q lo hi. fill_super_outside image q (omega (arith, lo))) in
    let written : load16 m unused_at ≡ image.unused =
      load16-store16_self e unused_at (image.unused % 2 ^ 16) (omega arith)
      ∙ omega (arith, count) in
    let keeps : Keeps image.bytes m = record {
      mono = λ b u. same b u.high ∙ u.taken;
      same = λ b q u h. fill_super_outside image q (omega (arith, u.low, h.0));
    } in
    let cell : (i : ℕ) → load16 m (fat_at i) ≡ load16 image.bytes (fat_at i) = λ i.
      load16-ext m image.bytes (fat_at i)
        (λ q lo hi. fill_super_outside image q (omega (arith, lo))) in
    record {
      consistent = record {
        bytes = store16-IsBytes e unused_at (image.unused % 2 ^ 16) (
            store16-IsBytes d 4 block_num
              (store32-IsBytes image.bytes 0 0x4D534653 dir.right.built.bytes));
        counted =
            written
            ∙ (dir.right.built.counted ∙ sym (unused_below-ext block_num m image.bytes same));
      };
      unused = omega (arith, written, count);
      ino = dir.ino;
      listed = λ i h. cell i ∙ dir.listed i h;
      free = λ i lo hi. cell i ∙ dir.free i lo hi;
      has = λ i h. HasFile-keeps keeps (dir.has i h);
    }

pub record IsMade (es : List Entry) (result : Option Memory) : Type 0 where
  pub image : Memory
  pub returns : result ≡ some image
  pub rootfs : IsRootfs es image

mkfs_run :
    (entries : List Entry) (a b : Image)
    → reserve ≡ some a
    → walk entries a ≡ some b
    → mkfs entries ≡ some (fill_super b)
unfolding mkfs
mkfs_run entries a b first second = rw (mkfs, first, second) refl

-- For a directory of which at most 256 entries are regular files other than "." and "..", each
-- with a name of less than 32 bytes without a zero byte and with at most 140 blocks of
-- content, and which with their inodes and indirect blocks take no more blocks than are behind
-- the first three, mkfs makes an image: the count in its super block is the number of unused
-- blocks of its map and the blocks not taken, its table lists the files in their order and is
-- zero behind them, and each file has an inode with its name and size and blocks in use that
-- hold its content, in its direct slots and in those of its indirect block.
pub mkfs_lem :
    (entries : List Entry)
    → AllFit (packable entries)
    → length (packable entries) ≤ fat_size
    → 3 + costs (packable entries) ≤ block_num
    → IsMade (packable entries) (mkfs entries)
mkfs_lem entries fit few room =
    let es = packable entries in
    let f = reserve_lem in
    let w =
      walk_lem (entry_at es) 0 f.image entries (empty-IsDirectory (entry_at es) f.image f.reserved)
        fit (Follow-entry_at (entry_at es) 0 es (λ j. ap (entry_at es) (omega arith)))
        (omega (arith, few)) (omega (arith, room, f.reserved.count)) in
    let all : 0 + length es ≡ length es = omega arith in
    record {
      image = fill_super w.after;
      returns = mkfs_run entries f.image w.after f.returns w.returns;
      rootfs =
          IsRootfs-fill_super es w.after
            (subst (λ n. IsDirectory (entry_at es) n w.after) all w.directory)
            (omega (arith, w.count, f.reserved.count));
    }
