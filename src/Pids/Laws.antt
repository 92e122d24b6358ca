-- ===== src/Pids/Laws.antt =====
-- What `alloc_pid` and `dealloc_pid` do to the set of used numbers.
use lilac_os.Base.{
  ℕ, ◌-◌, ◌/◌, ◌%◌, ◌^◌, ◌≤◌, ◌<◌, bit_and, bit_or, ◌≡◌, ◌⊎◌, inl, inr, refl, ap, Option, none,
  some, arith, ◌==◌, if◌then◌else◌, eq-cases, lt-cases, eq→==, ne→==, lt→ltb, le→ltb,
}
use lilac_os.Word.Bits.{bit_or-lt}
use lilac_os.Word.Flags.{bit, bit_or-flag, bit-set, bit_and-clear, bit-reset}
use lilac_os.Word.Pow.{two-pow-lt, two-pow-pos}
use lilac_os.Pids.{Pids, update, max_pid, alloc_pid, dealloc_pid}
use lilac_os.Pids.Scan.{used, Used, alloc_from_lem}

-- Each word has 32 bits.
abbrev pub IsWords : Pids → Type 0
IsWords pids = (i : ℕ) → pids i < 2 ^ 32

-- `q` is used in `after` as in `before`, but for `pid`, which has `value`.
abbrev pub OnlyChanges : Pids → Pids → ℕ → ℕ → Type 0
OnlyChanges before after pid value =
    (q : ℕ) → used after q ≡ (if pid == q then value else used before q)

place : (p q : ℕ) → p / 32 ≡ q / 32 → p % 32 ≡ q % 32 → p ≡ q
place p q e f = omega arith

used-update :
    (pids : Pids) (pid value w : ℕ)
    → ((k : ℕ) → bit w k ≡ (if pid % 32 == k then value else bit (pids (pid / 32)) k))
    → OnlyChanges pids (update pids (pid / 32) w) pid value
unfolding used
used-update pids pid value w h q = elim (eq-cases (pid / 32) (q / 32)) [
  | inl e ↦ rw (eq→== (pid / 32) (q / 32) e) (elim (eq-cases (pid % 32) (q % 32)) [
    | inl f ↦ rw (h (q % 32), eq→== (pid % 32) (q % 32) f, eq→== pid q (place pid q e f))
    | inr ne ↦
        rw
          (
            h (q % 32),
            ne→== (pid % 32) (q % 32) ne,
            ne→== pid q (λ same. ne (ap (λ t. t % 32) same)),
          )
          (rw e)
  ])
  | inr ne ↦ rw (ne→== (pid / 32) (q / 32) ne, ne→== pid q (λ same. ne (ap (λ t. t / 32) same)))
]

IsWords-update : (pids : Pids) (i w : ℕ) → IsWords pids → w < 2 ^ 32 → IsWords (update pids i w)
IsWords-update pids i w h le k = ground (arith, h k)

-- The bit of a number, set and cleared.
set_changes :
    (pids : Pids) (pid : ℕ)
    → used pids pid ≡ 0
    → OnlyChanges pids (update pids (pid / 32) (bit_or (pids (pid / 32)) (2 ^ (pid % 32)))) pid 1
unfolding used
set_changes pids pid unused =
    used-update pids pid 1 (bit_or (pids (pid / 32)) (2 ^ (pid % 32))) λ k.
      rw (bit_or-flag (pid % 32) (pids (pid / 32)) unused)
        (bit-set (pid % 32) k (pids (pid / 32)) unused)

clear_changes :
    (pids : Pids) (pid : ℕ)
    → IsWords pids
    → OnlyChanges pids
        (update pids (pid / 32) (bit_and (pids (pid / 32)) (2 ^ 32 - 1 - 2 ^ (pid % 32))))
        pid
        0
clear_changes pids pid w =
    used-update pids pid 0 (bit_and (pids (pid / 32)) (2 ^ 32 - 1 - 2 ^ (pid % 32))) λ k.
      rw (bit_and-clear 32 (pid % 32) (pids (pid / 32)) (omega arith) (w (pid / 32)))
        (bit-reset (pid % 32) k (pids (pid / 32)))

set-lt : (pids : Pids) (pid : ℕ) → IsWords pids → bit_or (pids (pid / 32)) (2 ^ (pid % 32)) < 2 ^ 32
set-lt pids pid w =
    bit_or-lt 32 (pids (pid / 32)) (2 ^ (pid % 32)) (w (pid / 32))
      (omega (arith, two-pow-lt {a = pid % 32} {b = 32} (omega arith), two-pow-pos (pid % 32)))

clear-lt :
    (pids : Pids) (pid : ℕ)
    → IsWords pids
    → bit_and (pids (pid / 32)) (2 ^ 32 - 1 - 2 ^ (pid % 32)) < 2 ^ 32
clear-lt pids pid w = omega (
  arith,
  w (pid / 32),
  bit_and-clear 32 (pid % 32) (pids (pid / 32)) (omega arith) (w (pid / 32)),
)

-- The least unused number below 1024 is returned, it is marked as used and no other number
-- changes; or all 1024 numbers are used and -1 is returned.
pub alloc_pid_lem :
    (pids : Pids)
    → IsWords pids
    → ((pid : ℕ) × (after : Pids) × (alloc_pid pids ≡ some (pid, after))
        × (pid < max_pid)
        × (used pids pid ≡ 0)
        × Used pids 0 pid
        × OnlyChanges pids after pid 1
        × IsWords after)
      ⊎ ((alloc_pid pids ≡ none) × Used pids 0 max_pid)
unfolding alloc_pid
alloc_pid_lem pids w = elim (alloc_from_lem 32 0 pids refl) [
  | inl a ↦ inl (
    a.pid,
    update pids (a.pid / 32) (bit_or (pids (a.pid / 32)) (2 ^ (a.pid % 32))),
    a.returns,
    a.below,
    a.unused,
    a.least,
    set_changes pids a.pid a.unused,
    IsWords-update pids (a.pid / 32) _ w (set-lt pids a.pid w),
  )
  | inr (e, all) ↦ inr (e, all)
]

-- The number is below 1024, it is freed and no other number changes.
pub record IsFreed (pids : Pids) (number : Option ℕ) : Type 0 where
  pub pid : ℕ
  pub is : number ≡ some pid
  pub below : pid < max_pid
  pub after : Pids
  pub returns : dealloc_pid number pids ≡ some after
  pub changes : OnlyChanges pids after pid 0
  pub words : IsWords after

-- A number from 0 to 1023 is no longer used afterwards and no other number changes; a negative
-- number, such as the -1 of alloc_pid, and any number from 1024 on is a panic.
pub dealloc_pid_lem :
    (pids : Pids) (number : Option ℕ)
    → IsWords pids
    → IsFreed pids number
      ⊎ (((number ≡ none) ⊎ ((pid : ℕ) × (number ≡ some pid) × (max_pid ≤ pid)))
          × (dealloc_pid number pids ≡ none))
unfolding dealloc_pid
dealloc_pid_lem pids none w = inr (inl refl, refl)
dealloc_pid_lem pids (some pid) w = elim (lt-cases pid max_pid) [
  | inl le ↦ inl (record {
    pid = pid;
    is = refl;
    below = le;
    after = update pids (pid / 32) (bit_and (pids (pid / 32)) (2 ^ 32 - 1 - 2 ^ (pid % 32)));
    returns = rw (lt→ltb pid max_pid le);
    changes = clear_changes pids pid w;
    words = IsWords-update pids (pid / 32) _ w (clear-lt pids pid w);
  })
  | inr high ↦ inr (inr (pid, refl, high), rw (le→ltb pid max_pid high))
]
