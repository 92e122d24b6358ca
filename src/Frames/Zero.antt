-- ===== src/Frames/Zero.antt =====
-- Clearing bytes that no free list holds leaves the allocator alone.
use lilac_os.Base.{
  ℕ, zero, suc, ◌+◌, ◌^◌, ◌≤◌, ◌<◌, ◌≡◌, ◌≢◌, ◌∙◌, ◌⊎◌, inl, inr, refl, sym, subst, List, [], ◌∷◌,
  arith, ◌==◌, if◌then◌else◌, eq-cases, lt-cases, eq→==, ne→==,
}
use lilac_os.Word.Pow.{two-pow-le}
use lilac_os.Memory.{Memory, store8, load64, load64-ext}
use lilac_os.Buddy.{Heap}
use lilac_os.Buddy.Cover.{covered, Blocks, cover, covered-le-cover}
use lilac_os.Buddy.Lists.{Chain, IsHeap}
use lilac_os.Frames.{clear_bytes}

store8-zero : (m : Memory) (p q : ℕ) → store8 m p 0 q ≡ (if p == q then 0 else m q)
unfolding store8
store8-zero m p q = ground arith

-- `n` bytes from `page` on are zero and no other byte changed.
pub record IsCleared (n page : ℕ) (m after : Memory) : Type 0 where
  pub zeroed : (q : ℕ) → page ≤ q → q < page + n → after q ≡ 0
  pub outside : (q : ℕ) → (q < page) ⊎ (page + n ≤ q) → after q ≡ m q

pub clear_bytes_lem : (n page : ℕ) (m : Memory) → IsCleared n page m (clear_bytes n page m)
unfolding clear_bytes
clear_bytes_lem zero page m = record {
  zeroed = λ q p r. absurd (omega arith);
  outside = λ q h. refl;
}
clear_bytes_lem (suc n) page m =
    let rest = clear_bytes_lem n (page + 1) (store8 m page 0) in
    record {
      zeroed = λ q p r. elim (eq-cases q page) [
        | inl e ↦
            rest.outside q (inl (omega arith)) ∙ (store8-zero m page q ∙ rw (eq→== page q (sym e)))
        | inr ne ↦ rest.zeroed q (omega arith) (omega arith)
      ];
      outside = λ q h.
          rest.outside q (ground arith)
          ∙ (store8-zero m page q ∙ rw (ne→== page q (λ e. ground arith)));
    }

-- A chain reads only the bytes of its blocks.
Chain-ext :
    (m n : Memory) (i p : ℕ) (bs : List ℕ)
    → 3 ≤ i
    → ((x : ℕ) → covered i x bs ≢ 0 → n x ≡ m x)
    → Chain m i p bs
    → Chain n i p bs
Chain-ext m n i p [] cell same c = c
Chain-ext m n i p (b ∷ bs) cell same (here, pos, aligned, fits, c) =
    let long : 2 ^ 3 ≤ 2 ^ i = two-pow-le {a = 3} {b = i} cell in
    let link : load64 n b ≡ load64 m b =
      load64-ext n m b (λ k low. same (b + k) (λ none_left. ground arith)) in
    (
      here,
      pos,
      aligned,
      fits,
      subst (λ t. Chain n i t bs) (sym link)
          (Chain-ext m n i (load64 m b) bs cell (λ x held. same x (omega arith)) c),
    )

-- A memory that differs in no free byte serves the same heap.
pub IsHeap-ext :
    {h : Heap} {bs : Blocks} (n : Memory)
    → IsHeap h bs
    → ((x : ℕ) → cover bs x ≢ 0 → n x ≡ h.memory x)
    → IsHeap (record h { memory = n }) bs
IsHeap-ext {h} {bs} n v same = record {
  chains = λ i p. elim (lt-cases i 3) [
    | inl low ↦
        subst (Chain n i (h.buddy.free_list i)) (sym (v.cells i low))
          (subst (Chain h.memory i (h.buddy.free_list i)) (v.cells i low) (v.chains i p))
    | inr cell ↦
        Chain-ext h.memory n i (h.buddy.free_list i) (bs i) cell
          (λ x held. same x (omega (arith, held, covered-le-cover bs i x p))) (v.chains i p)
  ];
  cells = v.cells;
  once = v.once;
}
