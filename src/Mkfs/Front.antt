-- ===== src/Mkfs/Front.antt =====
-- The blocks in front: a blank image with its first three blocks claimed.
use lilac_os.Base.{
  ℕ, zero, suc, ◌+◌, ◌%◌, ◌^◌, ◌≤◌, ◌<◌, ◌≡◌, ◌∙◌, ◌⊎◌, inl, inr, refl, ap, Option, some, arith,
  eq-cases, lt-cases, eq→==, ne→==,
}
use native.Mathlib.Nat.{zero-div}
use lilac_os.Memory.{load32}
use lilac_os.Word.Flags.{bit}
use lilac_os.Fs.{block_num}
use lilac_os.Fs.Bitmap.{used, unused_below}
use lilac_os.Mkfs.{Image, alloc_free_block, blank, reserve}
use lilac_os.Mkfs.Laws.{IsBuilt, IsBuilt-alloc_free_block}

blank_unused : (b : ℕ) → used blank.bytes b ≡ 0
unfolding used load32 bit
blank_unused b = ap (λ x. x % 2) (zero-div (2 ^ (b % 32)))

blank_count : (n : ℕ) → unused_below n blank.bytes ≡ n
unfolding unused_below
blank_count zero = refl
blank_count (suc n) = rw (blank_unused n, blank_count n) (omega arith)

blank-IsBuilt : IsBuilt blank
blank-IsBuilt = record { bytes = λ q. omega arith; counted = omega (arith, blank_count block_num) }

-- The first `k` blocks are claimed, and nothing else was done.
pub record IsReserved (k : ℕ) (image : Image) : Type 0 where
  pub built : IsBuilt image
  pub taken : (b : ℕ) → b < k → used image.bytes b ≡ 1
  pub left : (b : ℕ) → k ≤ b → b < block_num → used image.bytes b ≡ 0
  pub zero : (q : ℕ) → (q < 512) ⊎ (768 ≤ q) → image.bytes q ≡ 0
  pub count : image.unused + k ≡ block_num

blank-IsReserved : IsReserved 0 blank
blank-IsReserved = record {
  built = blank-IsBuilt;
  taken = λ b h. absurd (omega (arith, h));
  left = λ b lo hi. blank_unused b;
  zero = λ q h. refl;
  count = omega arith;
}

record Reserved (k : ℕ) (image : Image) : Type 0 where
  after : Image
  returns : alloc_free_block image ≡ (some k, after)
  reserved : IsReserved (suc k) after

reserve_next : {k : ℕ} {image : Image} → IsReserved k image → k < block_num → Reserved k image
reserve_next {k} {image} r below = elim (IsBuilt-alloc_free_block image r.built) [
  | inr e ↦ absurd (omega (arith, e.empty, r.count, below))
  | inl c ↦
      let e : c.block ≡ k = elim (lt-cases c.block k) [
        | inl l ↦ absurd (omega (arith, r.taken c.block l, c.first.unused))
        | inr h ↦ elim (lt-cases k c.block) [
          | inl l ↦
              absurd (omega (arith, c.first.least k (omega arith) l, r.left k (omega arith) below))
          | inr l ↦ omega (arith, h, l)
        ]
      ] in
      record {
        after = c.after;
        returns = c.returns ∙ ap (λ b. (some b, c.after)) e;
        reserved = record {
          built = c.built;
          taken = λ b h. c.marked b ∙ elim (eq-cases c.block b) [
            | inl f ↦ rw (eq→== c.block b f) refl
            | inr ne ↦ rw (ne→== c.block b ne) (r.taken b (omega (arith, h, ne, e)))
          ];
          left = λ b lo hi.
              c.marked b
              ∙ (rw (ne→== c.block b (λ f. omega (arith, f, e, lo)))
                  (r.left b (omega (arith, lo)) hi));
          zero = λ q h. c.outside q h ∙ r.zero q h;
          count = omega (arith, c.count, r.count);
        };
      }
]

-- The three blocks in front.
pub record Front (result : Option Image) : Type 0 where
  pub image : Image
  pub returns : result ≡ some image
  pub reserved : IsReserved 3 image

reserve_run :
    (a b c : Image)
    → alloc_free_block blank ≡ (some 0, a)
    → alloc_free_block a ≡ (some 1, b)
    → alloc_free_block b ≡ (some 2, c)
    → reserve ≡ some c
unfolding reserve
reserve_run a b c first second third =
    let one : (alloc_free_block blank).1 ≡ a = ap (λ r. r.1) first in
    let two : alloc_free_block (alloc_free_block blank).1 ≡ (some 1, b) =
      ap alloc_free_block one ∙ second in
    let three : alloc_free_block (alloc_free_block (alloc_free_block blank).1).1 ≡ (some 2, c) =
      ap (λ r. alloc_free_block r.1) two ∙ third in
    rw (reserve, ap (λ r. r.0) first, ap (λ r. r.0) two, ap (λ r. r.0) three)
      (ap (λ r. some (r.1)) three)

pub reserve_lem : Front reserve
reserve_lem =
    let a = reserve_next blank-IsReserved (omega arith) in
    let b = reserve_next a.reserved (omega arith) in
    let c = reserve_next b.reserved (omega arith) in
    record {
      image = c.after;
      returns = reserve_run a.after b.after c.after a.returns b.returns c.returns;
      reserved = c.reserved;
    }
