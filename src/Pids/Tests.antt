-- ===== src/Pids/Tests.antt =====
-- Runs of the pid allocator, and its theorems at small maps.
use lilac_os.Base.{ℕ, ◌≤◌, ◌<◌, ◌≡◌, ◌⊎◌, refl, Option, none, some, arith, ◌==◌, if◌then◌else◌}
use lilac_os.Pids.{Pids, max_pid, alloc_pid, dealloc_pid}
use lilac_os.Pids.Scan.{used, Used}
use lilac_os.Pids.Laws.{IsWords, OnlyChanges, IsFreed, alloc_pid_lem, dealloc_pid_lem}

-- The first 33 numbers and number 34 are used.
abbrev busy : Pids
busy i = if i == 0 then 0xffff_ffff else if i == 1 then 5 else 0

busy-IsWords : IsWords busy
busy-IsWords i = ground arith

abbrev first : Option (ℕ × Pids) → ℕ
first none = 9999
first (some (p, after)) = p

busy_runs : first (alloc_pid busy) ≡ 33
unfolding alloc_pid
busy_runs = refl

alloc_pid_lem_example :
    ((pid : ℕ) × (after : Pids) × (alloc_pid busy ≡ some (pid, after))
      × (pid < max_pid)
      × (used busy pid ≡ 0)
      × Used busy 0 pid
      × OnlyChanges busy after pid 1
      × IsWords after)
    ⊎ ((alloc_pid busy ≡ none) × Used busy 0 max_pid)
alloc_pid_lem_example = alloc_pid_lem busy busy-IsWords

dealloc_pid_lem_example :
    IsFreed busy (some 34)
    ⊎ (((◌≡◌ {A = Option ℕ} (some 34) none)
          ⊎ ((pid : ℕ) × (◌≡◌ {A = Option ℕ} (some 34) (some pid)) × (max_pid ≤ pid)))
        × (dealloc_pid (some 34) busy ≡ none))
dealloc_pid_lem_example = dealloc_pid_lem busy (some 34) busy-IsWords
