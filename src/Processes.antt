-- ===== src/Processes.antt =====
-- Processes and scheduling of kernel/process.c. A `__switch` ends a run: `dispatch`, `yield`,
-- `exit_current` and the waiting of `sys_wait` are the code up to it, and `resume_idle` is what
-- `schedule` does when the switch to it returns. `fuel` bounds the walks along lists and strings, and
-- is that of `buddy_dealloc`.
pub mod Calls
pub mod Queue
mod Tests
use lilac_os.Base.{
  ℕ, zero, suc, ◌+◌, ◌-◌, ◌*◌, ◌%◌, ◌^◌, bit_and, bit_or, Bool, true, false, Option, none, some,
  update, ltb, ◌==◌, if◌then◌else◌,
}
use lilac_os.Word.{not64}
use lilac_os.Memory.{load64}
use lilac_os.Lists.{Links, init_list_head, list_add, list_add_tail, list_del}
use lilac_os.Frames.{alloc, dealloc, pa}
use lilac_os.Paging.{page_valid, page_read, page_write, page_user, satp, map_pages}
use lilac_os.Paging.Segments.{copy_to}
use lilac_os.Pids.{alloc_pid, dealloc_pid}
use lilac_os.Descriptors.{nr_open, file_size, file_stdio}
use lilac_os.Spaces.{Symbols, from_elf, copy_mm, dealloc_memory_map}
use lilac_os.Kernel.{
  Kernel, K, stop, give, given, ◌>>=◌, ◌>>◌, kernel_state, modify, on_heap, relink, set_proc,
  set_file, Process, ProcessContext, TrapContext, ProcState, ready, running, exited, File, list_of,
  children_of, sibling_of,
}

abbrev pub kernel_stack_size : ℕ
kernel_stack_size = 8192

abbrev pub user_stack_size : ℕ
user_stack_size = 16384

abbrev pub user_stack : ℕ
user_stack = 0xffffffff00000000

-- `sizeof(struct ProcessControlBlock)`
abbrev pub process_size : ℕ
process_size = 616

-- `__restore` is the address of the assembly that returns to the user.
pub goto_trap_restore : (restore kernel_sp : ℕ) → ProcessContext → ProcessContext
goto_trap_restore restore kernel_sp cx = record cx {
  ra = restore;
  sp = kernel_sp;
  s = λ i. if ltb i 12 then 0 else cx.s i;
}

-- The `sstatus` that a user program starts with.
pub user_status : ℕ → ℕ
user_status sstatus = bit_and (bit_or (bit_and sstatus (not64 (2 ^ 8))) (2 ^ 5)) (not64 (2 ^ 1))

-- `sstatus` is the value of `r_sstatus()`.
pub goto_app : (sstatus entry user_sp kernel_sp : ℕ) → TrapContext → TrapContext
goto_app sstatus entry user_sp kernel_sp cx = record cx {
  x = λ i. if i == 2 then user_sp else if ltb i 32 then 0 else cx.x i;
  sstatus = user_status sstatus;
  sepc = entry;
  kernel_sp = kernel_sp;
}

-- `alloc_pid` with its -1 as `none`
pub take_pid : K (Option ℕ)
take_pid k = elim (alloc_pid k.pids) [
  | none ↦ some (none, k)
  | some (pid, pids) ↦ some (some pid, record k { pids = pids })
]

pub return_pid : Option ℕ → K (Unit {0})
return_pid pid k = elim (dealloc_pid pid k.pids) [
  | none ↦ none
  | some pids ↦ some (tt, record k { pids = pids })
]

-- The user stack at its fixed place.
pub map_user_stack : (root_ppn ustack : ℕ) → K (Unit {0})
map_user_stack root_ppn ustack = on_heap (
    map_pages root_ppn user_stack (pa ustack) user_stack_size
      (page_valid + page_user + page_read + page_write))

-- The loop that opens stdin, stdout and stderr.
pub open_stdio : ℕ → (process i : ℕ) → K (Unit {0})
open_stdio zero process i = give tt
open_stdio (suc rounds) process i = do
  stdio ← on_heap (alloc file_size)
  modify (set_file stdio (λ f. record f { kind = file_stdio; count = 1; inode = 0 }))
  modify (set_proc process (λ p. record p { files = update p.files i stdio }))
  open_stdio rounds process (i + 1)

pub init_lists : ℕ → Links → Links
init_lists p l =
    init_list_head (sibling_of p) (init_list_head (children_of p) (init_list_head (list_of p) l))

-- What the code takes from outside C: the linker's symbols, the address of `__restore`, and the
-- value of `r_sstatus()`.
pub record Machine : Type 0 where
  pub symbols : Symbols
  pub restore : ℕ
  pub sstatus : ℕ

-- `e_entry` of an ELF header
abbrev pub entry_of_elf : Kernel → ℕ → ℕ
entry_of_elf k elf = load64 k.heap.memory (elf + 24)

pub new_process : ℕ → Machine → ℕ → K ℕ
new_process fuel machine elf = do
  res ← on_heap (alloc process_size)
  pid ← take_pid
  modify (set_proc res (λ p. record p { pid = pid; state = ready }))
  mm ← from_elf fuel machine.symbols elf
  k ← kernel_state
  let root_ppn = k.roots mm
  modify (
      set_proc res
        (λ p. record p { process_cx = record (p.process_cx) { satp = satp root_ppn }; mm = mm }))
  kstack ← on_heap (alloc kernel_stack_size)
  ustack ← on_heap (alloc user_stack_size)
  map_user_stack root_ppn ustack
  now ← kernel_state
  let entry = entry_of_elf now elf
  let top = kstack + kernel_stack_size
  modify (
      set_proc res (λ p. record p {
        kstack = kstack;
        ustack = ustack;
        process_cx = goto_trap_restore machine.restore top p.process_cx;
        trap_cx =
            goto_app machine.sstatus entry ((user_stack + user_stack_size) % 2 ^ 64) top p.trap_cx;
      }))
  modify (relink (init_lists res))
  open_stdio 3 res 0
  modify (
      set_proc res (λ p. record p {
        files = λ i. if ltb i 3 then p.files i else if ltb i nr_open then 0 else p.files i;
      }))
  give res

pub add_process : ℕ → K (Unit {0})
add_process process = modify (λ k. relink (list_add_tail (list_of process) (list_of k.idle)) k)

pub is_ready : ProcState → Bool
is_ready ready = true
is_ready running = false
is_ready exited = false

pub is_exited : ProcState → Bool
is_exited exited = true
is_exited ready = false
is_exited running = false

-- The for loop of `schedule` from the process with the node `node` on: the first process that is
-- ready, or 0 where there is none.
pub find_ready : ℕ → Kernel → ℕ → Option ℕ
find_ready zero k node = none
find_ready (suc fuel) k node =
    let rest = find_ready fuel k (k.links.next node) in
    if node == list_of k.idle
    then some 0
    else if is_ready (k.procs (node - 440)).state
    then some (node - 440)
    else rest

-- The process leaves the queue and runs.
pub start_process : ℕ → Kernel → Kernel
start_process process k =
    let unlinked = relink (list_del (list_of process)) k in
    let started = set_proc process (λ p. record p { state = running }) unlinked in
    let waiting = set_proc k.idle (λ p. record p { state = ready }) started in
    record waiting { current = process }

-- A round of the for loop of `schedule`, up to `__switch`: whether a process was found.
pub dispatch : ℕ → K Bool
dispatch fuel = do
  k ← kernel_state
  found ← given (find_ready fuel k (k.links.next (list_of k.idle)))
  if found == 0 then give false else (do modify (start_process found); give true)

-- `schedule` behind `__switch`
pub resume_idle : K (Unit {0})
resume_idle =
    modify
      (λ k. set_proc k.idle (λ p. record p { state = running }) (record k { current = k.idle }))

pub yield : K (Unit {0})
yield = do
  k ← kernel_state
  modify (set_proc k.current (λ p. record p { state = ready }))
  add_process k.current
