-- ===== src/Pids.antt =====
-- The process numbers of kernel/process.c: a bit map of 1024 bits in 32 words of 32 bits. `none` is
-- the -1 of `alloc_pid`, a negative argument of `dealloc_pid`, and its panic.
pub mod Scan
pub mod Laws
mod Tests
use lilac_os.Base.{
  ℕ, zero, suc, ◌+◌, ◌-◌, ◌*◌, ◌/◌, ◌%◌, ◌^◌, bit_and, bit_or, Option, none, some, ltb, ◌==◌,
  if◌then◌else◌,
}

abbrev pub max_pid : ℕ
max_pid = 1024

abbrev pub Pids : Type 0
Pids = ℕ → ℕ

abbrev pub update : Pids → ℕ → ℕ → Pids
update pids i w k = if i == k then w else pids k

-- The inner loop, from bit `j` on.
pub find_clear : ℕ → ℕ → ℕ → Option ℕ
find_clear zero j w = none
find_clear (suc rounds) j w =
    let rest = find_clear rounds (j + 1) w in if bit_and w (2 ^ j) == 0 then some j else rest

-- The outer loop, from word `i` on.
pub alloc_from : ℕ → ℕ → Pids → Option (ℕ × Pids)
alloc_from zero i pids = none
alloc_from (suc rounds) i pids =
    let rest = alloc_from rounds (i + 1) pids in
    if pids i == 0xffff_ffff then rest else elim (find_clear 32 0 (pids i)) [
      | none ↦ rest
      | some j ↦ some (i * 32 + j, update pids i (bit_or (pids i) (2 ^ j)))
    ]

pub alloc_pid : Pids → Option (ℕ × Pids)
unfolding alloc_from find_clear
alloc_pid pids = alloc_from 32 0 pids

-- `~(1 << offset)` on 32 bits
pub dealloc_pid : Option ℕ → Pids → Option Pids
dealloc_pid none pids = none
dealloc_pid (some pid) pids =
    if ltb pid max_pid
    then some (update pids (pid / 32) (bit_and (pids (pid / 32)) (2 ^ 32 - 1 - 2 ^ (pid % 32))))
    else none
