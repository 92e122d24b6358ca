-- ===== src/Mkfs/Reading.antt =====
-- The image builder with the kernel: `lookup` and `readall` on the image that mkfs.c makes.
use lilac_os.Base.{
  ℕ, zero, suc, ◌+◌, ◌*◌, ◌/◌, ◌%◌, ◌≤◌, ◌<◌, ◌≡◌, ◌≢◌, ◌∙◌, ◌⊎◌, inl, inr, refl, sym, ap, subst,
  List, [], ◌∷◌, length, Option, some, arith, lt-cases, lt→ltb, le→ltb, Bool-cases,
}
use lilac_os.Memory.{Memory, IsBytes, load16, load16-ext}
use lilac_os.Strings.Laws.{IsString}
use lilac_os.Fs.{get_block, block_num, block_size, fat_at, fat_size}
use lilac_os.Fs.Files.{image_size, size_of, filename, indirect_at, block_at, lookup, readall}
use lilac_os.Fs.Files.Read.{block_of, file_byte, IsFile, readall_lem}
use lilac_os.Fs.Files.Find.{HasNames, lookup_lem}
use lilac_os.Mkfs.{Entry, mkfs}
use lilac_os.Mkfs.Keeping.{Keeps, used-ext}
use lilac_os.Mkfs.Content.{byte_at}
use lilac_os.Mkfs.Placing.{Packing}
use lilac_os.Mkfs.Copying.{total}
use lilac_os.Mkfs.Packed.{HasFile, HasFile-keeps}
use lilac_os.Mkfs.Directory.{packable, costs, AllFit}
use lilac_os.Mkfs.Whole.{entry_at, IsRootfs, mkfs_lem}

module _ {m : Memory} {entry : Entry} {idx : ℕ} (bytes : IsBytes m) (h : HasFile m entry idx) where
  abbrev p : Packing h.old m idx (total entry.content) entry.content h.head h.blk h.tab h.ib
  p = h.packing

  block_lem : (i : ℕ) → i < total entry.content → block_of m (get_block idx) i ≡ h.blk i
  unfolding block_at
  block_lem i l = elim (lt-cases i 12) [
    | inl low ↦ rw (lt→ltb i 12 low) (p.direct i l low)
    | inr high ↦
        rw (le→ltb i 12 high, p.table (p.enough (omega (arith, l, high)))) (p.slot i high l)
  ]

  table_below : load16 m (indirect_at (get_block idx)) < block_num
  table_below = elim (Bool-cases h.tab) [
    | inl t ↦ omega (arith, p.table t, (p.table_own t).use_of.high)
    | inr f ↦ omega (arith, p.no_table f)
  ]

  HasFile-IsFile : IsFile m (get_block idx) (size_of m (get_block idx))
  HasFile-IsFile = record {
    bytes = bytes;
    inside = omega (arith, p.inode.high);
    bounded = omega (arith, h.size, p.few);
    table = table_below;
    blocks = λ k l.
        let i : k / block_size < total entry.content = omega (arith, l, h.size) in
        omega (arith, block_lem (k / block_size) i, (p.own (k / block_size) i).use_of.high);
  }

  file_byte_lem :
      (k : ℕ) → k < length entry.content → file_byte m (get_block idx) k ≡ byte_at entry.content k
  file_byte_lem k l =
      let i : k / block_size < total entry.content = omega (arith, l) in
      let there : block_size * (k / block_size) + k % block_size ≡ k = omega arith in
      ap (λ b. m (get_block b + k % block_size)) (block_lem (k / block_size) i)
      ∙ (p.holds (k / block_size) (k % block_size) i (omega arith) (omega (arith, l))
          ∙ ap (byte_at entry.content) there)

  -- The kernel reads the content.
  file_read :
      (buf : ℕ)
      → image_size ≤ buf
      → (after : Memory) × (readall m (get_block idx) buf ≡ some (length entry.content, after))
        × ((k : ℕ) → k < length entry.content → after (buf + k) ≡ byte_at entry.content k)
        × ((q : ℕ) → (q < buf) ⊎ (buf + length entry.content ≤ q) → after q ≡ m q)
  file_read buf apart =
      let r =
        readall_lem m (get_block idx) buf (omega (arith, h.size, p.few)) HasFile-IsFile apart in
      let count : size_of m (get_block idx) ≡ length entry.content = h.size in
      (
        r.after,
        r.returns ∙ ap (λ n. some (n, r.after)) count,
        (λ k l.
            let start : 0 + k ≡ k = omega arith in
            r.read k (omega (arith, count, l))
            ∙ (ap (file_byte m (get_block idx)) start ∙ file_byte_lem k l)),
        (λ q away. r.outside q (subst (λ n. (q < buf) ⊎ (buf + n ≤ q)) (sym count) away)),
      )

-- The memory of the kernel with the image, and a name in it.
pub record IsLoaded (result : Option Memory) (m : Memory) : Type 0 where
  pub bytes : IsBytes m
  pub same : (d : Memory) → result ≡ some d → (q : ℕ) → q < image_size → m q ≡ d q

short_at :
    (es : List Entry) (i : ℕ)
    → ((j : ℕ) → j < length es → length (entry_at es j).name < 32)
    → length (entry_at es i).name < 32
unfolding entry_at
short_at [] i short = omega arith
short_at (entry ∷ es) zero short = short 0 (omega arith)
short_at (entry ∷ es) (suc i) short = short_at es i (λ j h. short (suc j) (omega (arith, h)))

-- The kernel finds the file and reads its content to the buffer, and no other byte changes.
pub record IsRead (fuel : ℕ) (entry : Entry) (m : Memory) (name buf : ℕ) : Type 0 where
  pub inode : ℕ
  pub found : lookup fuel m name ≡ some (some inode)
  pub after : Memory
  pub returns : readall m inode buf ≡ some (length entry.content, after)
  pub read : (k : ℕ) → k < length entry.content → after (buf + k) ≡ byte_at entry.content k
  pub outside : (q : ℕ) → (q < buf) ⊎ (buf + length entry.content ≤ q) → after q ≡ m q

module _ {es : List Entry} {d m : Memory} (r : IsRootfs es d) (bytes : IsBytes m)
    (same : (q : ℕ) → q < image_size → m q ≡ d q) where
  loaded : Keeps d m
  loaded = record {
    mono = λ b u. used-ext d m b u.high (λ q lo hi. same q (omega (arith, hi))) ∙ u.taken;
    same = λ b q u h. same q (omega (arith, u.high, h.1));
  }

  file : (i : ℕ) → i < length es → HasFile m (entry_at es i) (r.ino i)
  file i h = HasFile-keeps loaded (r.has i h)

  cell : (i : ℕ) → i < fat_size → load16 m (fat_at i) ≡ load16 d (fat_at i)
  cell i h = load16-ext m d (fat_at i) λ q lo hi. same q (omega (arith, hi, h))

  module _ (fuel name i : ℕ) (few : length es ≤ fat_size) (h : i < length es) (enough : 32 ≤ fuel)
      (target : IsString m name (entry_at es i).name)
      (distinct : (j : ℕ)
        → j < length es
        → (entry_at es j).name ≡ (entry_at es i).name
        → j ≡ i) where
    listed : (j : ℕ) → j < length es → load16 m (fat_at j) ≡ r.ino j
    listed j l = cell j (omega (arith, l, few)) ∙ r.listed j l

    in_list : (j : ℕ) → j < fat_size → load16 m (fat_at j) ≢ 0 → j < length es
    in_list j l u = elim (lt-cases j (length es)) [
      | inl p ↦ p
      | inr p ↦ absurd (u (cell j l ∙ r.free j p l))
    ]

    known : HasNames fuel m name (entry_at es i).name (λ j. (entry_at es j).name)
    known = record {
      target = target;
      strings = λ j l u.
          let p = in_list j l u in
          subst (λ b. IsString m (filename (get_block b)) (entry_at es j).name) (sym (listed j p))
            (file j p).named;
      enough = λ j l. omega (arith, enough, short_at es j (λ k p. (file k p).short));
    }

    found_lem : lookup fuel m name ≡ some (some (get_block (r.ino i)))
    found_lem =
        elim (lookup_lem fuel m name (entry_at es i).name (λ j. (entry_at es j).name) known) [
          | inl (j, f) ↦
              let e : j ≡ i = distinct j (in_list j f.below f.match.used) f.match.named in
              f.returns
              ∙ ap (λ b. some (some (get_block b))) (ap (λ x. load16 m (fat_at x)) e ∙ listed i h)
          | inr f ↦ absurd (
              f.nowhere i (omega arith) (omega (arith, h, few)) (record {
                used = λ e. omega (arith, listed i h, e, (file i h).packing.inode.low);
                named = refl;
              }))
        ]

    read_lem : (buf : ℕ) → image_size ≤ buf → IsRead fuel (entry_at es i) m name buf
    read_lem buf apart =
        let (after, returns, read, outside) = file_read bytes (file i h) buf apart in
        record {
          inode = get_block (r.ino i);
          found = found_lem;
          after = after;
          returns = returns;
          read = read;
          outside = outside;
        }

-- For a directory of which at most 256 entries are regular files other than "." and "..", each
-- with a name of less than 32 bytes without a zero byte and with at most 140 blocks of
-- content, and which with their inodes and indirect blocks take no more blocks than are behind
-- the first three: where the kernel's memory starts with the image that mkfs makes of it,
-- lookup of a file's name, with fuel of 32 or more and if no other packed file has the name,
-- returns an inode, and readall of that inode to a buffer behind the image returns the length
-- of the file's content, puts the content there byte by byte and changes no other byte.
pub readall-mkfs :
    (entries : List Entry) (m : Memory) (fuel name buf i : ℕ)
    → AllFit (packable entries)
    → length (packable entries) ≤ fat_size
    → 3 + costs (packable entries) ≤ block_num
    → IsLoaded (mkfs entries) m
    → i < length (packable entries)
    → ((j : ℕ)
        → j < length (packable entries)
        → (entry_at (packable entries) j).name ≡ (entry_at (packable entries) i).name
        → j ≡ i)
    → IsString m name (entry_at (packable entries) i).name
    → 32 ≤ fuel
    → image_size ≤ buf
    → IsRead fuel (entry_at (packable entries) i) m name buf
readall-mkfs entries m fuel name buf i fit few room loaded h distinct target enough apart =
    let made = mkfs_lem entries fit few room in
    read_lem made.rootfs loaded.bytes (loaded.same made.image made.returns) fuel name i few h enough
      target distinct buf apart
