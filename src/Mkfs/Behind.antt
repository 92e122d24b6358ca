-- ===== src/Mkfs/Behind.antt =====
-- `put_block` where the direct slots of the inode are full: the slots of the indirect block.
use lilac_os.Base.{
  ℕ, suc, ◌+◌, ◌-◌, ◌*◌, ◌≤◌, ◌<◌, ◌≡◌, ◌≢◌, ◌∙◌, inl, inr, refl, sym, ap, subst, true, false, List,
  Option, some, arith, if◌then◌else◌, eq-cases, lt-cases, eq→==, ne→==, lt→ltb, le→ltb, update,
}
use lilac_os.Memory.{Memory, store16-outside, store32-outside, load16, store16, load32, store32}
use lilac_os.Fs.{get_block}
use lilac_os.Fs.Bitmap.{used}
use lilac_os.Fs.Files.{indirect_at}
use lilac_os.Mkfs.{Image, put_indirect, need_indirect, put_behind, put_block, alloc_free_block}
use lilac_os.Mkfs.Keeping.{InUse, IsImage, alloc-Fresh, IsImage-writes, SameTable}
use lilac_os.Mkfs.Content.{Writes-store16, Writes-store32}
use lilac_os.Mkfs.Placing.{Own, Packing, Packing-keeps, Part, Part-keeps, Part-writes}
use lilac_os.Mkfs.Indirect.{Packing-slot, Packing-table}
use lilac_os.Mkfs.Slots.{State, Placed, put_direct_full, put_indirect_lem, place_direct}

-- The image `ready` with the block in the first empty slot.
abbrev behind : ℕ → ℕ → Image → Image
behind b idx ready = record ready {
  bytes =
      put_indirect 128 b (get_block (load16 ready.bytes (indirect_at (get_block idx)))) 0
        ready.bytes;
}

behind_lem :
    {d0 : Memory} {idx n : ℕ} {content : List ℕ} {head : Memory} {ready : Image} {blk : ℕ → ℕ}
    {ib b : ℕ}
    → IsImage ready
    → SameTable head ready.bytes
    → Packing d0 ready.bytes idx n content head blk true ib
    → Part d0 ready.bytes idx n content b
    → 12 ≤ n
    → n < 140
    → ib ≢ b
    → State d0 idx (suc n) content head (behind b idx ready)
behind_lem {d0} {idx} {n} {content} {head} {ready} {blk} {ib} {b} right listed p part lo hi other =
    let slot = get_block ib + 4 * (n - 12) in
    let table = p.table_own refl in
    let run : put_indirect 128 b (get_block (load16 ready.bytes (indirect_at (get_block idx)))) 0
          ready.bytes
        ≡ store32 ready.bytes slot b =
      rw (p.table refl) (
        put_indirect_lem 128 b (get_block ib) 0 (n - 12) ready.bytes (omega arith)
          (omega (arith, lo, hi))
          (λ j l h e.
            let there : j + 12 - 12 ≡ j = omega arith in
            let cell = ap (λ x. load32 ready.bytes (get_block ib + 4 * x)) there in
            omega (
              arith,
              sym cell ∙ p.slot (j + 12) (omega arith) (omega (arith, h)),
              e,
              (p.own (j + 12) (omega (arith, h))).use_of.low,
            ))
          (p.slot_free refl n (omega arith) lo hi)) in
    let right' =
      IsImage-writes right
        (Writes-store32 ready.bytes slot b ib right.built.bytes (omega arith) (omega (arith, hi)))
        (omega (arith, table.use_of.low)) table.use_of.high table.use_of.taken in
    subst (λ d. State d0 idx (suc n) content head (record ready { bytes = d })) (sym run)
      (record {
        right = right';
        blk = update blk n b;
        ib = ib;
        listed = λ q h.
            store32-outside ready.bytes slot b q (inl (omega (arith, h.1, table.use_of.low)))
            ∙ listed q h;
        packing =
            subst
              (λ t.
                Packing d0 (store32 ready.bytes slot b) idx (suc n) content head (update blk n b) t
                  ib)
              (sym (lt→ltb 12 (suc n) (omega (arith, lo))))
              (Packing-slot p right.built.bytes part lo hi refl other);
      })

-- The indirect block is there, for the part 12 of the content.
record Tabled (d0 : Memory) (idx b : ℕ) (content : List ℕ) (head : Memory) (image : Image)
    (result : Option Image) : Type 0 where
  after : Image
  returns : result ≡ some after
  right : IsImage after
  listed : SameTable head after.bytes
  blk : ℕ → ℕ
  ib : ℕ
  packing : Packing d0 after.bytes idx 12 content head blk true ib
  part : Part d0 after.bytes idx 12 content b
  other : ib ≢ b
  count : after.unused + 1 ≡ image.unused

need_new :
    (inode b : ℕ) (image rest : Image)
    → load16 image.bytes (indirect_at inode) ≡ 0
    → alloc_free_block image ≡ (some b, rest)
    → need_indirect inode image
      ≡ some (record rest { bytes = store16 rest.bytes (indirect_at inode) b })
unfolding need_indirect
need_new inode b image rest none_yet run =
    rw (run, eq→== (load16 image.bytes (indirect_at inode)) 0 none_yet, if◌then◌else◌)
      (ap {A = Image} (λ r. some (record r { bytes = store16 r.bytes (indirect_at inode) b }))
        (ap (λ r. r.1) run))

need_old :
    (inode : ℕ) (image : Image)
    → load16 image.bytes (indirect_at inode) ≢ 0
    → need_indirect inode image ≡ some image
unfolding need_indirect
need_old inode image there =
    rw (ne→== (load16 image.bytes (indirect_at inode)) 0 there, if◌then◌else◌) refl

load32_blank : (d : Memory) (p : ℕ) → ((q : ℕ) → p ≤ q → q < p + 4 → d q ≡ 0) → load32 d p ≡ 0
unfolding load32
load32_blank d p h =
    rw
      (
        h p (omega arith) (omega arith),
        h (p + 1) (omega arith) (omega arith),
        h (p + 2) (omega arith) (omega arith),
        h (p + 3) (omega arith) (omega arith),
      )
      (omega arith)

make_table :
    {d0 : Memory} {idx : ℕ} {content : List ℕ} {head : Memory} {image : Image} {blk : ℕ → ℕ}
    {old b : ℕ}
    → IsImage image
    → SameTable head image.bytes
    → Packing d0 image.bytes idx 12 content head blk false old
    → Part d0 image.bytes idx 12 content b
    → 0 < image.unused
    → Tabled d0 idx b content head image (need_indirect (get_block idx) image)
make_table {d0} {idx} {content} {head} {image} {blk} {old} {b} right listed p part left =
    let f = alloc-Fresh right left in
    let ib = f.block in
    let apart : (c : ℕ) → InUse image.bytes c → ib ≢ c =
      λ c u e. omega (arith, u.taken, f.was, ap (used image.bytes) e) in
    let kept = Packing-keeps f.keeps p in
    let moved = Part-keeps f.keeps part in
    let own : Own d0 f.after.bytes idx ib = record {
      use_of = f.in_use;
      new = λ u. omega (arith, p.keeps.mono ib u, f.was);
      ne = apart idx p.inode;
    } in
    let writes =
      Writes-store16 f.after.bytes (indirect_at (get_block idx)) ib idx f.image_after.built.bytes
        (omega arith) (omega arith) in
    let low : 2 ≤ idx = omega (arith, p.inode.low) in
    let blank : (j : ℕ) → j < 128 → load32 f.after.bytes (get_block ib + 4 * j) ≡ 0 = λ j h.
      load32_blank f.after.bytes (get_block ib + 4 * j)
        (λ q l m. f.zero q (omega (arith, l), omega (arith, m, h))) in
    record {
      after = record (f.after) { bytes = store16 f.after.bytes (indirect_at (get_block idx)) ib };
      returns = need_new (get_block idx) ib image f.after (p.no_table refl) f.returns;
      right = IsImage-writes f.image_after writes low kept.inode.high kept.inode.taken;
      listed = λ q h.
          store16-outside f.after.bytes (indirect_at (get_block idx)) ib q
            (inl (omega (arith, h.1, p.inode.low)))
          ∙ (f.outside q (inr (omega (arith, h.0))) ∙ listed q h);
      blk = blk;
      ib = ib;
      packing =
          Packing-table kept f.image_after.built.bytes own (λ i h. apart (blk i) (p.own i h).use_of)
            blank;
      part = Part-writes writes low part.own.ne moved;
      other = apart b part.own.use_of;
      count = f.count;
    }

-- The block goes into the indirect block, which is allocated for the part 12 of the content.
place_behind :
    {d0 : Memory} {idx n : ℕ} {content : List ℕ} {head : Memory} {image : Image} {b : ℕ}
    → (s : State d0 idx n content head image) → Part d0 image.bytes idx n content b
    → 12 ≤ n
    → n < 140
    → (12 < n → s.ib ≢ b)
    → (n ≡ 12 → 0 < image.unused)
    → Placed d0 idx n content head image (put_behind b (get_block idx) image)
unfolding put_behind
place_behind {d0} {idx} {n} {content} {head} {image} {b} s part lo hi other left =
    elim (eq-cases n 12) [
      | inl e ↦
          let p =
            subst (λ t. Packing d0 image.bytes idx n content head s.blk t s.ib)
              (le→ltb 12 n (omega (arith, e))) s.packing in
          let t =
            make_table s.right s.listed
              (subst (λ m. Packing d0 image.bytes idx m content head s.blk false s.ib) e p)
              (subst (λ m. Part d0 image.bytes idx m content b) e part) (left e) in
          rw (put_behind, t.returns)
            (record {
              after = behind b idx t.after;
              returns = refl;
              state =
                  subst (λ m. State d0 idx (suc m) content head (behind b idx t.after)) (sym e)
                    (behind_lem t.right t.listed t.packing t.part (omega arith) (omega arith)
                      t.other);
              count = omega (arith, t.count, e);
            })
      | inr ne ↦
          let p =
            subst (λ t. Packing d0 image.bytes idx n content head s.blk t s.ib)
              (lt→ltb 12 n (omega (arith, lo, ne))) s.packing in
          rw
            (
              put_behind,
              need_old (get_block idx) image
                  (λ e. omega (arith, p.table refl, e, (p.table_own refl).use_of.low)),
            )
            (record {
              after = behind b idx image;
              returns = refl;
              state = behind_lem s.right s.listed p part lo hi (other (omega (arith, lo, ne)));
              count = omega (arith, lo, ne);
            })
    ]

pub put_block_lem :
    {d0 : Memory} {idx n : ℕ} {content : List ℕ} {head : Memory} {image : Image} {b : ℕ}
    → (s : State d0 idx n content head image) → Part d0 image.bytes idx n content b
    → n < 140
    → (12 < n → s.ib ≢ b)
    → (n ≡ 12 → 0 < image.unused)
    → Placed d0 idx n content head image (put_block b (get_block idx) image)
unfolding put_block
put_block_lem {d0} {idx} {n} {content} {head} {image} {b} s part hi other left =
    elim (lt-cases n 12) [
      | inl low ↦
          place_direct s.right s.listed s.packing part low (le→ltb 12 n (omega (arith, low)))
      | inr high ↦
          rw
            (
              put_block,
              put_direct_full 12 b (get_block idx) 0 image.bytes (λ j l h e. omega (
                arith,
                (s.packing.own j (omega (arith, h, high))).use_of.low,
                s.packing.direct j (omega (arith, h, high)) (omega (arith, h)),
                e,
              )),
            )
            (place_behind s part high hi other left)
    ]
