-- ===== src/Processes/Tests.antt =====
-- The scheduler and `exit_current` at a small kernel.
use lilac_os.Base.{
  ℕ, ◌≡◌, inl, inr, refl, [], ◌∷◌, none, some, arith, ◌==◌, if◌then◌else◌, Among, Apart,
}
use lilac_os.Lists.{Links, init_list_head, list_add_tail}
use lilac_os.Lists.Rings.{IsRing, IsRing-init, IsRing-add_tail}
use lilac_os.Kernel.{Kernel, Process, linear, ready, exited}
use lilac_os.Processes.Queue.{IsQueue, turns, turns-round}
use lilac_os.Processes.Calls.{exit_current}
use lilac_os.Processes.Calls.Adoption.{exit_current-never}

abbrev process : Process
process = record {
  pid = some 1;
  state = ready;
  process_cx = record { ra = 0; sp = 0; s = λ i. 0; satp = 0 };
  trap_cx = record { x = λ i. 0; sstatus = 0; sepc = 0; kernel_sp = 0 };
  kstack = 0;
  ustack = 0;
  mm = 0;
  parent = 0;
  files = λ i. 0;
}

-- A kernel with these links, where `current` runs; `idle` is 3000 and `init` is 2000.
abbrev kernel : Links → ℕ → Kernel
kernel links current = record {
  heap = record {
    memory = λ q. 0;
    buddy = record { free_list = λ i. 0; total = 0; allocated = 0 };
  };
  links = links;
  procs = λ p. process;
  files = λ f. record { kind = 0; count = 0; off = 0; inode = 0 };
  segments = λ s. record { start_va = 0; end_va = 0; flags = 0; kind = linear };
  roots = λ m. 0;
  pids = λ i. 0;
  current = current;
  idle = 3000;
  init = 2000;
  image = 0;
  console = [];
}

abbrev queue : Links
queue =
    list_add_tail 2440 3440
      (list_add_tail 1440 3440 (init_list_head 3440 (record { next = λ p. 0; prev = λ p. 0 })))

queue-IsRing : IsRing queue 3440 (1440 ∷ 2440 ∷ [])
queue-IsRing =
    IsRing-add_tail
      (IsRing-add_tail (IsRing-init 3440 (record { next = λ p. 0; prev = λ p. 0 })) 1440
        ((λ e. omega (arith, e)), tt))
      2440 ((λ e. omega (arith, e)), ((λ e. omega (arith, e)), tt))

queue-IsQueue : IsQueue (kernel queue 3000) (1000 ∷ 2000 ∷ [])
queue-IsQueue = record {
  idles = refl;
  ring = queue-IsRing;
  waits = λ p a. refl;
  real = λ p a e. elim a [
    | inl f ↦ omega (arith, e, f)
    | inr b ↦ elim b [ inl f ↦ omega (arith, e, f) | inr c ↦ elim c [ ] ]
  ];
}

turns-round_example :
    (after : Kernel) × (turns 1 2 (kernel queue 3000) ≡ some (1000 ∷ 2000 ∷ [], after))
    × IsQueue after (1000 ∷ 2000 ∷ [])
turns-round_example = turns-round 0 (kernel queue 3000) (1000 ∷ 2000 ∷ []) queue-IsQueue

-- 1000 is a child of `init` and has the child 3000; the rings are two nodes each.
abbrev opposite : ℕ → ℕ
opposite q =
    if q == 1456
    then 3472
    else if q == 3472
    then 1456
    else if q == 2456
    then 1472
    else if q == 1472
    then 2456
    else 0

abbrev family : Links
family = record { next = opposite; prev = opposite }

mine-IsRing : IsRing family 1456 (3472 ∷ [])
mine-IsRing = record {
  walk = (refl, refl, refl);
  closed = refl;
  distinct = (((λ e. omega (arith, e)), tt), (tt, tt));
}

theirs-IsRing : IsRing family 2456 (1472 ∷ [])
theirs-IsRing = record {
  walk = (refl, refl, refl);
  closed = refl;
  distinct = (((λ e. omega (arith, e)), tt), (tt, tt));
}

separate : (y : ℕ) → Among y (2456 ∷ 1472 ∷ []) → Apart y (1456 ∷ 3472 ∷ [])
separate y (inl e) = ((λ f. omega (arith, e, f)), ((λ f. omega (arith, e, f)), tt))
separate y (inr (inl e)) = ((λ f. omega (arith, e, f)), ((λ f. omega (arith, e, f)), tt))
separate y (inr (inr c)) = elim c [ ]

exit_current-never_example : exit_current 99 (kernel family 1000) ≡ none
exit_current-never_example =
    exit_current-never 99 (kernel family 1000) 3472 [] (1472 ∷ []) (λ e. omega (arith, e))
      mine-IsRing theirs-IsRing separate

-- 1000 has the children 5000, which is ready, and 6000, which has exited.
abbrev home : Links
home =
    list_add_tail 6472 1456
      (list_add_tail 5472 1456 (init_list_head 1456 (record { next = λ p. 0; prev = λ p. 0 })))

abbrev parent : Kernel
parent = record (kernel home 1000) {
  procs = λ p. if p == 6000 then record process { state = exited } else process;
}
