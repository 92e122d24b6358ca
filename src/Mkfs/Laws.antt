-- ===== src/Mkfs/Laws.antt =====
-- The block allocator of the image builder, against the invariant of the kernel's file system.
use lilac_os.Base.{
  ℕ, ◌+◌, ◌-◌, ◌≤◌, ◌<◌, ◌≡◌, ◌∙◌, ◌⊎◌, inl, inr, refl, Option, none, some, arith, ◌==◌,
  if◌then◌else◌,
}
use lilac_os.Memory.{IsBytes, store32-IsBytes, store32-outside}
use lilac_os.Fs.{block_num, word_at}
use lilac_os.Fs.Bitmap.{used, mark, unused_below, IsFirst, claim_block_lem, used-mark}
use lilac_os.Fs.Blocks.{unused_below-mark, unused_below-Used}
use lilac_os.Mkfs.{Image, count_block, alloc_free_block}

-- The image in memory is bytes, and `unused_blocks` the number of its unused blocks.
pub record IsBuilt (image : Image) : Type 0 where
  pub bytes : IsBytes image.bytes
  pub counted : image.unused ≡ unused_below block_num image.bytes

-- A block claimed for the image.
pub record Claimed (image : Image) (result : Option ℕ × Image) : Type 0 where
  pub block : ℕ
  pub after : Image
  pub returns : result ≡ (some block, after)
  pub first : IsFirst image.bytes 0 block_num block
  pub marked : (c : ℕ) → used after.bytes c ≡ (if block == c then 1 else used image.bytes c)
  pub built : IsBuilt after
  pub count : after.unused + 1 ≡ image.unused
  pub outside : (q : ℕ) → (q < 512) ⊎ (768 ≤ q) → after.bytes q ≡ image.bytes q

-- No block is left.
pub record Exhausted (image : Image) (result : Option ℕ × Image) : Type 0 where
  pub returns : result ≡ (none, image)
  pub empty : image.unused ≡ 0

-- Where unused_blocks is the number of unused blocks of the image, alloc_free_block of the
-- image builder claims the first unused block, marks it, counts it off and changes no byte
-- outside the map, and the number is right again; or no block is left and nothing changes.
pub IsBuilt-alloc_free_block :
    (image : Image)
    → IsBuilt image
    → Claimed image (alloc_free_block image) ⊎ Exhausted image (alloc_free_block image)
unfolding alloc_free_block count_block
IsBuilt-alloc_free_block image built = elim (claim_block_lem block_num 0 image.bytes) [
  | inl (b, e, first) ↦
      let less = unused_below-mark block_num image.bytes b built.bytes first.unused first.below in
      inl (record {
        block = b;
        after = record { bytes = mark image.bytes b; unused = image.unused - 1 };
        returns = rw (e) refl;
        first = first;
        marked = λ c. used-mark image.bytes b c built.bytes first.unused;
        built = record {
          bytes = store32-IsBytes image.bytes (word_at b) _ built.bytes;
          counted = omega (arith, less, built.counted);
        };
        count = omega (arith, less, built.counted);
        outside = λ q away.
            store32-outside image.bytes (word_at b) _ q (omega (arith, away, first.below));
      })
  | inr (e, all) ↦ inr (record {
    returns = rw (e) refl;
    empty = built.counted ∙ unused_below-Used block_num image.bytes all;
  })
]
