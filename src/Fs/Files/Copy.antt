-- ===== src/Fs/Files/Copy.antt =====
-- The copying loop of `read_from_inode`.
use lilac_os.Base.{
  ℕ, zero, suc, ◌+◌, ◌-◌, ◌≤◌, ◌<◌, ◌%◌, ◌≡◌, ◌∙◌, ◌⊎◌, inl, inr, refl, ap, arith, ◌==◌,
  if◌then◌else◌, eq-cases, eq→==, ne→==,
}
use lilac_os.Memory.{Memory, store8}
use lilac_os.Fs.Files.{copy_bytes}

-- `n` bytes copied from `src` to `buf`, and no other byte changed.
pub record IsCopied (n : ℕ) (m after : Memory) (buf src : ℕ) : Type 0 where
  pub inside : (k : ℕ) → k < n → after (buf + k) ≡ m (src + k)
  pub outside : (q : ℕ) → (q < buf) ⊎ (buf + n ≤ q) → after q ≡ m q

store8-at : (m : Memory) (p v q : ℕ) → store8 m p v q ≡ (if p == q then v % 256 else m q)
unfolding store8
store8-at m p v q = refl

-- One byte, then the rest.
module _ (n : ℕ) (m : Memory) (buf src : ℕ) (apart : src + suc n ≤ buf) where
  abbrev next : Memory
  next = store8 m buf (m src)

  untouched : (q : ℕ) → q < buf → next q ≡ m q
  untouched q p = store8-at m buf (m src) q ∙ rw (ne→== buf q (omega arith))

  next_source : (k : ℕ) → k < n → next (src + 1 + k) ≡ m (src + (k + 1))
  next_source k p =
      let from : src + 1 + k ≡ src + (k + 1) = omega arith in
      untouched (src + 1 + k) (omega arith) ∙ ap m from

  one_more :
      {after : Memory}
      → m src < 256
      → IsCopied n next after (buf + 1) (src + 1)
      → IsCopied (suc n) m after buf src
  one_more {after = after} byte rest = record {
    inside = λ k p. elim (eq-cases k 0) [
      | inl e ↦
          let first : next buf ≡ m src % 256 =
            store8-at m buf (m src) buf ∙ rw (eq→== buf buf refl) in
          let same : buf + k ≡ buf = omega arith in
          let from : src + k ≡ src = omega arith in
          rw (same, from) (omega (arith, rest.outside buf (inl (omega arith)), first, byte))
      | inr ne ↦
          let same : buf + k ≡ buf + 1 + (k - 1) = omega arith in
          let from : src + (k - 1 + 1) ≡ src + k = omega arith in
          ap after same
          ∙ (rest.inside (k - 1) (omega arith) ∙ (next_source (k - 1) (omega arith) ∙ ap m from))
    ];
    outside = λ q h.
        rest.outside q (ground arith)
        ∙ (store8-at m buf (m src) q ∙ rw (ne→== buf q (λ e. ground arith)));
  }

-- The loop copies `n` bytes, and changes no other byte.
pub copy_bytes_lem :
    (n : ℕ) (m : Memory) (buf src : ℕ)
    → ((k : ℕ) → k < n → m (src + k) < 256)
    → src + n ≤ buf
    → IsCopied n m (copy_bytes n m buf src) buf src
unfolding copy_bytes
copy_bytes_lem zero m buf src bytes apart = record {
  inside = λ k p. absurd (omega arith);
  outside = λ q h. refl;
}
copy_bytes_lem (suc n) m buf src bytes apart =
    let from : src + 0 ≡ src = omega arith in
    one_more n m buf src apart (omega (arith, bytes 0 (omega arith), ap m from)) (
      copy_bytes_lem n (next n m buf src apart) (buf + 1) (src + 1)
        (λ k p. omega (arith, next_source n m buf src apart k p, bytes (k + 1) (omega arith)))
        (omega arith))
