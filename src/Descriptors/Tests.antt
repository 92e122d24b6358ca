-- ===== src/Descriptors/Tests.antt =====
-- A process with one open file.
use lilac_os.Base.{
  ℕ, ◌<◌, ◌≡◌, ◌≢◌, inl, inr, refl, sym, subst, [], ◌∷◌, some, arith, ◌==◌, if◌then◌else◌, eq-cases,
}
use lilac_os.Buddy.{Heap}
use lilac_os.Buddy.Cover.{no_blocks, cover-no_blocks}
use lilac_os.Buddy.Lists.{IsHeap, IsOwned}
use lilac_os.Kernel.{Kernel, running, linear}
use lilac_os.Descriptors.{nr_open, sys_close}
use lilac_os.Processes.Calls.{share_files}
use lilac_os.Processes.Calls.Sharing.{share_files-IsCounted}
use lilac_os.Descriptors.Counts.{same, same_ne, uses, total, held, IsCounted}
use lilac_os.Descriptors.Closing.{Closed, sys_close_lem}

abbrev nothing : Heap
nothing = record {
  memory = λ q. 255;
  buddy = record { free_list = λ i. 0; total = 0; allocated = 0 };
}

nothing-IsHeap : IsHeap nothing no_blocks
nothing-IsHeap = record {
  chains = λ i p. refl;
  cells = λ i p. refl;
  once = λ x. omega (arith, cover-no_blocks x);
}

-- The process 1000 runs and has the file 6144 at the descriptor 0.
abbrev opened : Kernel
opened = record {
  heap = nothing;
  links = record { next = λ p. 0; prev = λ p. 0 };
  procs = λ p. record {
    pid = some 7;
    state = running;
    process_cx = record { ra = 0; sp = 0; s = λ i. 0; satp = 0 };
    trap_cx = record { x = λ i. 0; sstatus = 0; sepc = 100; kernel_sp = 0 };
    kstack = 0;
    ustack = 0;
    mm = 0;
    parent = 0;
    files = λ i. if i == 0 then 6144 else 0;
  };
  files = λ f. record { kind = 0; count = 1; off = 0; inode = 0 };
  segments = λ s. record { start_va = 0; end_va = 0; flags = 0; kind = linear };
  roots = λ m. 0;
  pids = λ i. 0;
  current = 1000;
  idle = 3000;
  init = 2000;
  image = 0;
  console = [];
}

held_none : (f : ℕ) → f ≢ 0 → 6144 ≢ f → held opened f 1000 ≡ 0
unfolding uses
held_none f ne d = rw (same_ne 6144 f d, same_ne 0 f (λ e. ne (sym e))) refl

total_one : (f : ℕ) → total opened f (1000 ∷ []) ≡ held opened f 1000
unfolding total
total_one f = omega arith

held_one : held opened 6144 1000 ≡ 1
unfolding uses same
held_one = refl

opened-IsCounted : IsCounted opened (1000 ∷ [])
opened-IsCounted = record {
  counts = λ f ne pos. elim (eq-cases 6144 f) [
    | inl e ↦
        subst (λ x. 1 ≡ total opened x (1000 ∷ [])) e (omega (arith, total_one 6144, held_one))
    | inr d ↦ absurd (omega (arith, pos, total_one f, held_none f ne d))
  ];
}

file-IsOwned : IsOwned no_blocks 6144 5
file-IsOwned = record {
  bound = omega arith;
  cell = omega arith;
  pos = omega arith;
  aligned = refl;
  fits = omega arith;
  clear = λ x lo hi. cover-no_blocks x;
}

sys_close_lem_example : Closed opened (1000 ∷ []) no_blocks 0 (sys_close 1 0 opened)
sys_close_lem_example =
    sys_close_lem 1 opened (1000 ∷ []) no_blocks 0 opened-IsCounted (tt, tt) (inl refl)
      (omega arith) (λ e. omega (arith, e)) (omega (arith, total_one 6144, held_one)) nothing-IsHeap
      file-IsOwned (λ j h. omega arith)
      (λ b m. (b, ground arith, ground (arith, cover-no_blocks b)))

held_few : (f : ℕ) → f ≢ 0 → held opened f 1000 < 2
held_few f ne = elim (eq-cases 6144 f) [
  | inl e ↦ subst (λ x. held opened x 1000 < 2) e (omega (arith, held_one))
  | inr d ↦ omega (arith, held_none f ne d)
]

share_files-IsCounted_example :
    (after : Kernel) × (share_files nr_open 2000 0 opened ≡ some (tt, after))
    × ((j : ℕ) → j < nr_open → (after.procs 2000).files j ≡ (opened.procs opened.current).files j)
    × IsCounted after (2000 ∷ 1000 ∷ [])
share_files-IsCounted_example =
    share_files-IsCounted 2000 opened (1000 ∷ []) opened-IsCounted (inl refl)
      ((λ e. omega (arith, e)), tt) (λ f ne. omega (arith, total_one f, held_few f ne))
