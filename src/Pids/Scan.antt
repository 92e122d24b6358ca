-- ===== src/Pids/Scan.antt =====
-- The loops of `alloc_pid` find the least clear bit.
use lilac_os.Base.{
  ℕ, zero, suc, ◌+◌, ◌*◌, ◌/◌, ◌%◌, ◌^◌, ◌≤◌, ◌<◌, bit_or, ◌≡◌, ◌⊎◌, inl, inr, refl, Option, none,
  some, arith, eq-cases, eq→==, ne→==,
}
use lilac_os.Word.Flags.{bit, bit-lt, flag_clear, bit-ones}
use lilac_os.Pids.{Pids, update, find_clear, alloc_from}

abbrev pub AllSet : ℕ → ℕ → ℕ → Type 0
AllSet w lo hi = (k : ℕ) → lo ≤ k → k < hi → bit w k ≡ 1

-- Bit `o` is the first clear one from `lo` on.
pub record IsFirst (w lo hi o : ℕ) : Type 0 where
  pub from : lo ≤ o
  pub below : o < hi
  pub clear : bit w o ≡ 0
  pub least : AllSet w lo o

AllSet-cons : (w lo hi : ℕ) → bit w lo ≡ 1 → AllSet w (lo + 1) hi → AllSet w lo hi
AllSet-cons w lo hi e rest k p q = elim (eq-cases k lo) [
  | inl same ↦ rw same e
  | inr ne ↦ rest k (omega arith) q
]

pub find_clear_lem :
    (rounds j w : ℕ)
    → ((o : ℕ) × (find_clear rounds j w ≡ some o) × IsFirst w j (j + rounds) o)
      ⊎ ((find_clear rounds j w ≡ none) × AllSet w j (j + rounds))
unfolding find_clear
find_clear_lem zero j w = inr (refl, λ k p q. absurd (omega arith))
find_clear_lem (suc rounds) j w = elim (eq-cases (bit w j) 0) [
  | inl clear ↦
      rw (flag_clear j w, eq→== (bit w j) 0 clear)
        (inl (
          j,
          refl,
          record {
            from = omega arith;
            below = omega arith;
            clear = clear;
            least = λ k p q. absurd (omega arith);
          },
        ))
  | inr set ↦
      let one : bit w j ≡ 1 = omega (arith, bit-lt w j) in
      rw (flag_clear j w, ne→== (bit w j) 0 set)
        (elim (find_clear_lem rounds (j + 1) w) [
          | inl (o, e, first) ↦ inl (
            o,
            e,
            record {
              from = omega (arith, first.from);
              below = omega (arith, first.below);
              clear = first.clear;
              least = AllSet-cons w j o one first.least;
            },
          )
          | inr (e, all) ↦
              inr (e, AllSet-cons w j (j + suc rounds) one (λ k p q. all k p (omega arith)))
        ])
]

-- A number's bit
unfoldable pub used : Pids → ℕ → ℕ
used pids p = bit (pids (p / 32)) (p % 32)

abbrev pub Used : Pids → ℕ → ℕ → Type 0
Used pids lo hi = (p : ℕ) → lo ≤ p → p < hi → used pids p ≡ 1

-- A number allocated: the least one that is not used, and its bit set.
pub record Allocated (pids : Pids) (lo hi : ℕ) (result : Option (ℕ × Pids)) : Type 0 where
  pub pid : ℕ
  pub returns :
      result ≡ some (pid, update pids (pid / 32) (bit_or (pids (pid / 32)) (2 ^ (pid % 32))))
  pub from : lo ≤ pid
  pub below : pid < hi
  pub unused : used pids pid ≡ 0
  pub least : Used pids lo pid

-- A word all of whose bits are set.
Used-word :
    (pids : Pids) (i hi : ℕ)
    → AllSet (pids i) 0 32
    → Used pids (32 * (i + 1)) hi
    → Used pids (32 * i) hi
unfolding used
Used-word pids i hi all rest p lo below = elim (eq-cases (p / 32) i) [
  | inl e ↦ rw e (all (p % 32) (omega arith) (omega arith))
  | inr ne ↦ rest p (omega arith) below
]

abbrev pub NoneLeft : Pids → ℕ → ℕ → Option (ℕ × Pids) → Type 0
NoneLeft pids lo hi result = (result ≡ none) × Used pids lo hi

Allocated-word :
    (pids : Pids) (i : ℕ) {result : Option (ℕ × Pids)}
    → AllSet (pids i) 0 32
    → Allocated pids (32 * (i + 1)) 1024 result ⊎ NoneLeft pids (32 * (i + 1)) 1024 result
    → Allocated pids (32 * i) 1024 result ⊎ NoneLeft pids (32 * i) 1024 result
Allocated-word pids i all (inl a) = inl (record {
  pid = a.pid;
  returns = a.returns;
  from = omega (arith, a.from);
  below = a.below;
  unused = a.unused;
  least = Used-word pids i a.pid all a.least;
})
Allocated-word pids i all (inr (e, u)) = inr (e, Used-word pids i 1024 all u)

Allocated-here :
    (pids : Pids) (i o : ℕ) {result : Option (ℕ × Pids)}
    → i < 32
    → IsFirst (pids i) 0 32 o
    → result ≡ some (i * 32 + o, update pids i (bit_or (pids i) (2 ^ o)))
    → Allocated pids (32 * i) 1024 result
unfolding used
Allocated-here pids i o le first e =
    let word : (i * 32 + o) / 32 ≡ i = omega (arith, first.below) in
    let place : (i * 32 + o) % 32 ≡ o = omega (arith, first.below) in
    record {
      pid = i * 32 + o;
      returns = rw (word, place) e;
      from = omega arith;
      below = omega (arith, first.below);
      unused = rw (word, place) first.clear;
      least = λ p lo hi.
          let w : p / 32 ≡ i = omega (arith, first.below) in
          rw w (first.least (p % 32) (omega arith) (omega (arith, first.below)));
    }

full_word : (w : ℕ) → w ≡ 0xffff_ffff → AllSet w 0 32
full_word w e k lo hi = rw e (bit-ones 32 k hi)

pub alloc_from_lem :
    (rounds i : ℕ) (pids : Pids)
    → i + rounds ≡ 32
    → Allocated pids (32 * i) 1024 (alloc_from rounds i pids)
      ⊎ NoneLeft pids (32 * i) 1024 (alloc_from rounds i pids)
unfolding alloc_from
alloc_from_lem zero i pids e = inr (refl, λ p lo hi. absurd (omega arith))
alloc_from_lem (suc rounds) i pids e = elim (eq-cases (pids i) 0xffff_ffff) [
  | inl full ↦ rw (eq→== (pids i) 0xffff_ffff full) (
      Allocated-word pids i (full_word (pids i) full)
        (alloc_from_lem rounds (i + 1) pids (omega arith)))
  | inr ne ↦ rw (ne→== (pids i) 0xffff_ffff ne) (elim (find_clear_lem 32 0 (pids i)) [
    | inl (o, found, first) ↦ rw found (inl (Allocated-here pids i o (omega arith) first refl))
    | inr (missing, all) ↦
        rw missing (Allocated-word pids i all (alloc_from_lem rounds (i + 1) pids (omega arith)))
  ])
]
