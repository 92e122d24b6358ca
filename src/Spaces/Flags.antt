-- ===== src/Spaces/Flags.antt =====
-- The flags of an ELF segment as flags of a page.
use lilac_os.Base.{
  ℕ, ◌+◌, ◌^◌, ◌<◌, bit_and, ◌≡◌, ◌∙◌, inl, inr, refl, Bool, true, false, ◌&&◌, arith, ◌==◌,
  if◌then◌else◌, Bool-cases,
}
use lilac_os.Paging.{ppn2pte, is_table}
use lilac_os.Paging.Entries.{is_table_flags}
use lilac_os.Spaces.{convert_flags}

-- 1 for a flag that is set, else 0
abbrev pub flag : ℕ → ℕ → ℕ
flag flags bit = if bit_and flags bit == 0 then 0 else 1

-- The page flags of the three permissions.
abbrev pub permissions : (exec write read : Bool) → ℕ
permissions exec write read =
    17 + (if exec then 0 else 8) + (if write then 0 else 4) + (if read then 0 else 2)

-- The page flags of an ELF segment are the flags valid and user and one flag for each of its
-- permissions, and no other.
pub convert_flags_lem :
    (flags : ℕ)
    → convert_flags flags
      ≡ permissions (bit_and flags 1 == 0) (bit_and flags 2 == 0) (bit_and flags 4 == 0)
unfolding convert_flags
convert_flags_lem flags = elim (Bool-cases (bit_and flags 1 == 0)) [
  | inl x ↦ elim (Bool-cases (bit_and flags 2 == 0)) [
    | inl w ↦ elim (Bool-cases (bit_and flags 4 == 0)) [
      | inl r ↦ rw (x, w, r)
      | inr r ↦ rw (x, w, r)
    ]
    | inr w ↦ elim (Bool-cases (bit_and flags 4 == 0)) [
      | inl r ↦ rw (x, w, r)
      | inr r ↦ rw (x, w, r)
    ]
  ]
  | inr x ↦ elim (Bool-cases (bit_and flags 2 == 0)) [
    | inl w ↦ elim (Bool-cases (bit_and flags 4 == 0)) [
      | inl r ↦ rw (x, w, r)
      | inr r ↦ rw (x, w, r)
    ]
    | inr w ↦ elim (Bool-cases (bit_and flags 4 == 0)) [
      | inl r ↦ rw (x, w, r)
      | inr r ↦ rw (x, w, r)
    ]
  ]
]

permissions-lt : (exec write read : Bool) → permissions exec write read < 2 ^ 10
permissions-lt true true true = omega arith
permissions-lt true true false = omega arith
permissions-lt true false true = omega arith
permissions-lt true false false = omega arith
permissions-lt false true true = omega arith
permissions-lt false true false = omega arith
permissions-lt false false true = omega arith
permissions-lt false false false = omega arith

permissions-table :
    (exec write read : Bool) → is_table (permissions exec write read) ≡ (exec && write && read)
unfolding is_table
permissions-table true true true = refl
permissions-table true true false = refl
permissions-table true false true = refl
permissions-table true false false = refl
permissions-table false true true = refl
permissions-table false true false = refl
permissions-table false false true = refl
permissions-table false false false = refl

-- For a frame number of 44 bits, dealloc_pagetable takes the entry that is made with the flags
-- of an ELF segment for a table exactly where the segment has no permission at all.
pub loaded_is_table :
    (ppn flags : ℕ)
    → ppn < 2 ^ 44
    → is_table (ppn2pte ppn (convert_flags flags))
      ≡ (bit_and flags 1 == 0 && bit_and flags 2 == 0 && bit_and flags 4 == 0)
loaded_is_table ppn flags h =
    rw (convert_flags_lem flags)
      (is_table_flags ppn _ h (permissions-lt _ _ _) ∙ permissions-table _ _ _)
