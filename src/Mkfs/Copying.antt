-- ===== src/Mkfs/Copying.antt =====
-- `copy_blocks`: the blocks of a file are claimed, filled and put into its slots.
use lilac_os.Base.{
  ℕ, zero, suc, ◌+◌, ◌-◌, ◌*◌, ◌/◌, ◌≤◌, ◌<◌, ◌≡◌, ◌≢◌, ◌∙◌, inl, inr, refl, sym, ap, subst, List,
  [], ◌∷◌, length, Option, some, arith,
}
use lilac_os.Memory.{Memory}
use lilac_os.Fs.{get_block, block_size}
use lilac_os.Fs.Bitmap.{used}
use lilac_os.Mkfs.{Image, put_block, alloc_free_block, copy_blocks, fread}
use lilac_os.Mkfs.Keeping.{InUse, alloc-Fresh, IsImage-writes, Keeps-writes, Writes-used}
use lilac_os.Mkfs.Content.{
  byte_at, byte_at-drop, drop, length-drop, drop-drop, Bytes, fread_lem, Writes-fread,
}
use lilac_os.Mkfs.Placing.{Packing-keeps, Part}
use lilac_os.Mkfs.Slots.{State, tables}
use lilac_os.Mkfs.Behind.{put_block_lem}

-- The blocks of a content, and the unused blocks that they take from the block `n` on, the indirect
-- block included.
abbrev pub total : List ℕ → ℕ
total content = (length content + 511) / 512

abbrev pub needs : List ℕ → ℕ → ℕ
needs content n = total content - n + (tables (total content) - tables n)

-- A block that holds the first part of what is left.
record Filled (d0 : Memory) (idx n : ℕ) (content : List ℕ) (head : Memory) (rest : List ℕ)
    (image : Image) : Type 0 where
  block : ℕ
  claimed : Image
  returns : alloc_free_block image ≡ (some block, claimed)
  state :
      State d0 idx n content head
        (record claimed { bytes = (fread block_size rest (get_block block) claimed.bytes).1 })
  part : Part d0 (fread block_size rest (get_block block) claimed.bytes).1 idx n content block
  other : 12 < n → state.ib ≢ block
  left : (fread block_size rest (get_block block) claimed.bytes).0 ≡ drop block_size rest
  count : claimed.unused + 1 ≡ image.unused

fill_block :
    {d0 : Memory} {idx n : ℕ} {content rest : List ℕ} {head : Memory} {image : Image}
    → State d0 idx n content head image
    → Bytes content
    → rest ≡ drop (block_size * n) content
    → 0 < image.unused
    → Filled d0 idx n content head rest image
fill_block {d0} {idx} {n} {content} {rest} {head} {image} s small at some_left =
    let f = alloc-Fresh s.right some_left in
    let b = f.block in
    let apart : (c : ℕ) → InUse image.bytes c → c ≢ b =
      λ c u e. omega (arith, u.taken, f.was, ap (used image.bytes) e) in
    let byte : (k : ℕ) → byte_at rest k ≡ byte_at content (block_size * n + k) =
      λ k. ap (λ l. byte_at l k) at ∙ byte_at-drop (block_size * n) k content in
    let bytes : Bytes rest = λ k. omega (arith, byte k, small (block_size * n + k)) in
    let w = Writes-fread rest b f.after.bytes bytes f.image_after.built.bytes in
    let r = fread_lem block_size rest (get_block b) f.after.bytes bytes in
    let low : 2 ≤ b = omega (arith, f.in_use.low) in
    let use_of : InUse (fread block_size rest (get_block b) f.after.bytes).1 b = record {
      taken = Writes-used w low b f.in_use.high ∙ f.in_use.taken;
      low = f.in_use.low;
      high = f.in_use.high;
    } in
    let keeps = Keeps-writes f.keeps w low (λ u. omega (arith, u.taken, f.was)) in
    record {
      block = b;
      claimed = f.after;
      returns = f.returns;
      state = record {
        right = IsImage-writes f.image_after w low f.in_use.high f.in_use.taken;
        listed = λ q h.
            r.outside q (inl (omega (arith, h.1, f.in_use.low)))
            ∙ (f.outside q (inr (omega (arith, h.0))) ∙ s.listed q h);
        blk = s.blk;
        ib = s.ib;
        packing = Packing-keeps keeps s.packing;
      };
      part = record {
        own = record {
          use_of = use_of;
          new = λ u. omega (arith, s.packing.keeps.mono b u, f.was);
          ne = λ e. apart idx s.packing.inode (sym e);
        };
        chunk = λ k h l.
            let long : length rest ≡ length content - block_size * n =
              ap length at ∙ length-drop (block_size * n) content in
            r.inside k h (omega (arith, long, l)) ∙ byte k;
      };
      other = λ h. apart s.ib (s.packing.table_own (s.packing.enough h)).use_of;
      left = r.left;
      count = f.count;
    }

copy_step :
    (rounds inode c block : ℕ) (rest : List ℕ) (image claimed after : Image)
    → alloc_free_block image ≡ (some block, claimed)
    → put_block block inode
        (record claimed { bytes = (fread block_size (c ∷ rest) (get_block block) claimed.bytes).1 })
      ≡ some after
    → copy_blocks (suc rounds) inode (c ∷ rest) image
      ≡ copy_blocks rounds inode
          (fread block_size (c ∷ rest) (get_block block) claimed.bytes).0
          after
unfolding copy_blocks
copy_step rounds inode c block rest image claimed after run put =
    rw (copy_blocks, ap (λ r. r.0) run, ap (λ r. r.1) run, put)
      (ap {A = Image}
        (λ r.
          copy_blocks rounds inode (fread block_size (c ∷ rest) (get_block block) r.bytes).0 after)
        (ap (λ r. r.1) run))

-- A round of the loop.
record Round (d0 : Memory) (idx n : ℕ) (content : List ℕ) (head : Memory) (image : Image)
    (rounds : ℕ) (rest : List ℕ) : Type 0 where
  next : List ℕ
  after : Image
  goes :
      copy_blocks (suc rounds) (get_block idx) rest image
      ≡ copy_blocks rounds (get_block idx) next after
  left : next ≡ drop block_size rest
  state : State d0 idx (suc n) content head after
  count : after.unused + 1 + (tables (suc n) - tables n) ≡ image.unused

spent :
    (t n a b u : ℕ)
    → a + (t - suc n + (tables t - tables (suc n))) ≡ b
    → b + 1 + (tables (suc n) - tables n) ≡ u
    → n < t
    → a + (t - n + (tables t - tables n)) ≡ u
spent t n a b u rest here more = omega (arith, rest, here, more)

next_part :
    (n : ℕ) (content : List ℕ) {rest next : List ℕ}
    → next ≡ drop block_size rest
    → rest ≡ drop (block_size * n) content
    → next ≡ drop (block_size * suc n) content
next_part n content left at =
    let sum : block_size * n + block_size ≡ block_size * suc n = omega arith in
    left
    ∙ (ap (drop block_size) at
        ∙ (drop-drop block_size (block_size * n) content ∙ ap (λ m. drop m content) sum))

copy_round :
    {d0 : Memory} {idx n : ℕ} {content rest : List ℕ} {head : Memory} {image : Image} (c rounds : ℕ)
    → Filled d0 idx n content head (c ∷ rest) image
    → n < 140
    → (n ≡ 12 → 1 < image.unused)
    → Round d0 idx n content head image rounds (c ∷ rest)
copy_round {idx = idx} {rest = rest} {image = image} c rounds f few room =
    let p = put_block_lem f.state f.part few f.other (λ e. omega (arith, room e, f.count)) in
    record {
      next = (fread block_size (c ∷ rest) (get_block f.block) f.claimed.bytes).0;
      after = p.after;
      goes =
          copy_step rounds (get_block idx) c f.block rest image f.claimed p.after f.returns
            p.returns;
      left = f.left;
      state = p.state;
      count = omega (arith, p.count, f.count);
    }

pub record Copied (d0 : Memory) (idx n : ℕ) (content : List ℕ) (head : Memory) (image : Image)
    (result : Option Image) : Type 0 where
  pub after : Image
  pub returns : result ≡ some after
  pub state : State d0 idx (total content) content head after
  pub count : after.unused + needs content n ≡ image.unused

finish :
    {d0 : Memory} {idx n rounds : ℕ} {content rest : List ℕ} {head : Memory} {image : Image}
    → n < total content
    → (r : Round d0 idx n content head image rounds rest)
    → Copied d0 idx (suc n) content head r.after (copy_blocks rounds (get_block idx) r.next r.after)
    → Copied d0 idx n content head image (copy_blocks (suc rounds) (get_block idx) rest image)
finish {n = n} {content = content} {image = image} more r q = record {
  after = q.after;
  returns = r.goes ∙ q.returns;
  state = q.state;
  count = spent (total content) n q.after.unused r.after.unused image.unused q.count r.count more;
}

pub copy_blocks_lem :
    (rounds n : ℕ) (rest : List ℕ) {d0 : Memory} {idx : ℕ} {content : List ℕ} {head : Memory}
    {image : Image}
    → State d0 idx n content head image
    → Bytes content
    → rest ≡ drop (block_size * n) content
    → n ≤ total content
    → total content ≤ n + rounds
    → total content ≤ 140
    → needs content n ≤ image.unused
    → Copied d0 idx n content head image (copy_blocks rounds (get_block idx) rest image)
unfolding copy_blocks
copy_blocks_lem rounds n [] {d0} {idx} {content} {head} {image} s small at lo enough few room =
    let short : 0 ≡ length content - block_size * n =
      ap length at ∙ length-drop (block_size * n) content in
    let e : n ≡ total content = omega (arith, short, lo) in
    record {
      after = image;
      returns = refl;
      state = subst (λ m. State d0 idx m content head image) e s;
      count = omega (arith, e);
    }
copy_blocks_lem zero n (c ∷ rest) {content = content} s small at lo enough few room =
    let long : suc (length rest) ≡ length content - block_size * n =
      ap length at ∙ length-drop (block_size * n) content in
    absurd (omega (arith, long, enough))
copy_blocks_lem (suc rounds) n (c ∷ rest) {d0} {idx} {content} {head} {image} s small at lo enough
      few room =
    let long : suc (length rest) ≡ length content - block_size * n =
      ap length at ∙ length-drop (block_size * n) content in
    let more : n < total content = omega (arith, long) in
    let r =
      copy_round c rounds (fill_block s small at (omega (arith, room, more)))
        (omega (arith, more, few)) (λ e. omega (arith, e, room, more)) in
    finish more r (
      copy_blocks_lem rounds (suc n) r.next r.state small (next_part n content r.left at) more
        (omega (arith, enough)) few (omega (arith, room, more, r.count)))
