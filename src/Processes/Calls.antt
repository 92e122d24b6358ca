-- ===== src/Processes/Calls.antt =====
-- `sys_fork`, `sys_wait`, `sys_exec`, `exit_current` and `init_process` of kernel/process.c.
pub mod Adoption
pub mod Sharing
pub mod Waiting
use lilac_os.Base.{
  ℕ, zero, suc, ◌+◌, ◌-◌, ◌%◌, ◌^◌, Bool, true, false, ◌||◌, not, List, [], ◌∷◌, ◌++◌, Option, none,
  some, update, ltb, ◌==◌, if◌then◌else◌,
}
use lilac_os.Word.{sub64, add64}
use lilac_os.Memory.{load32}
use lilac_os.Lists.{Links, init_list_head, list_add, list_del, list_empty}
use lilac_os.Frames.{alloc, dealloc, pa}
use lilac_os.Paging.{satp}
use lilac_os.Paging.Segments.{copy_to}
use lilac_os.Fs.Files.{readall}
use lilac_os.Spaces.{Symbols, from_elf, copy_mm, dealloc_memory_map, new_kernel_memory_map}
use lilac_os.Descriptors.{nr_open, find_file, dealloc_files}
use lilac_os.Processes.{
  kernel_stack_size, user_stack_size, user_stack, process_size, goto_trap_restore, goto_app,
  take_pid, return_pid, map_user_stack, open_stdio, init_lists, Machine, entry_of_elf, new_process,
  add_process, is_exited, yield,
}
use lilac_os.Kernel.{
  Kernel, K, stop, give, given, ◌>>=◌, ◌>>◌, kernel_state, modify, on_heap, on_image, relink,
  set_proc, set_file, Process, TrapContext, ProcState, ready, running, exited, Outcome, returned,
  waiting, list_of, children_of, sibling_of,
}

-- The loop of `sys_fork` over the open files, from slot `i` on.
pub share_files : ℕ → (child i : ℕ) → K (Unit {0})
share_files zero child i = give tt
share_files (suc rounds) child i = do
  k ← kernel_state
  let file = (k.procs k.current).files i
  modify (set_proc child (λ p. record p { files = update p.files i file }))
  if file == 0
      then give tt
      else modify (set_file file (λ f. record f { count = (f.count + 1) % 2 ^ 32 }))
  share_files rounds child (i + 1)

-- The registers that the child returns to: those of the parent, with 0 in `a0`.
abbrev pub forked : (kernel_sp : ℕ) → TrapContext → TrapContext
forked kernel_sp cx = record cx { kernel_sp = kernel_sp; x = update cx.x 10 0 }

pub sys_fork : ℕ → Machine → K (Option ℕ)
sys_fork fuel machine = do
  child ← on_heap (alloc process_size)
  pid ← take_pid
  kstack ← on_heap (alloc kernel_stack_size)
  ustack ← on_heap (alloc user_stack_size)
  let kernel_sp = kstack + kernel_stack_size
  modify (λ k.
      set_proc child
        (λ p. record p {
          pid = pid;
          state = ready;
          kstack = kstack;
          ustack = ustack;
          parent = k.current;
        })
        k)
  modify (relink (init_lists child))
  modify (
      set_proc child
        (λ p. record p { process_cx = goto_trap_restore machine.restore kernel_sp p.process_cx }))
  k ← kernel_state
  mm ← copy_mm fuel (k.procs k.current).mm
  mapped ← kernel_state
  modify (
      set_proc child (λ p. record p {
        mm = mm;
        process_cx = record (p.process_cx) { satp = satp (mapped.roots mm) };
      }))
  map_user_stack (mapped.roots mm) ustack
  on_heap (copy_to user_stack_size ustack (k.procs k.current).ustack)
  modify (set_proc child (λ p. record p { trap_cx = forked kernel_sp (k.procs k.current).trap_cx }))
  share_files nr_open child 0
  modify (relink (list_add (sibling_of child) (children_of k.current)))
  add_process child
  give pid

-- The for loop of `sys_wait` from the child with the node `node` on: the first child that has
-- exited, or 0 where there is none.
pub find_exited : ℕ → Kernel → ℕ → Option ℕ
find_exited zero k node = none
find_exited (suc fuel) k node =
    let rest = find_exited fuel k (k.links.next node) in
    if node == children_of k.current
    then some 0
    else if is_exited (k.procs (node - 472)).state
    then some (node - 472)
    else rest

-- What `sys_wait` does with a child that has exited.
pub reap : ℕ → ℕ → K (Option ℕ)
reap fuel child = do
  modify (relink (list_del (sibling_of child)))
  k ← kernel_state
  let process = k.procs child
  return_pid process.pid
  dealloc_files fuel child
  on_heap (dealloc fuel process.ustack user_stack_size)
  on_heap (dealloc fuel process.kstack kernel_stack_size)
  dealloc_memory_map fuel process.mm
  on_heap (dealloc fuel child process_size)
  give process.pid

-- A round of the while loop of `sys_wait`. A process that waits has yielded, and its next round has
-- the flag set.
pub wait_round : ℕ → Bool → K Outcome
wait_round fuel flag = do
  k ← kernel_state
  child ← given (find_exited fuel k (k.links.next (children_of k.current)))
  let reaped = (do pid ← reap fuel child; give (returned pid))
  let suspended = (do yield; give waiting)
  if not (child == 0)
      then reaped
      else if flag || not (list_empty (children_of k.current) k.links)
      then suspended
      else give (returned none)

-- What `sys_wait` does after a round: it returns, or goes on with `next` after others have run.
abbrev go_on : (Kernel → Kernel) → K Outcome → Outcome → K Outcome
go_on run next (returned pid) = give (returned pid)
go_on run next waiting = do modify run; next

-- The while loop, whose rounds are as many as there are runs of other processes in between, and one
-- more. It is `waiting` where it has yielded in the last one.
pub sys_wait : ℕ → List (Kernel → Kernel) → Bool → K Outcome
sys_wait fuel [] flag = wait_round fuel flag
sys_wait fuel (run ∷ others) flag = do
  outcome ← wait_round fuel flag
  go_on run (sys_wait fuel others true) outcome

-- The file's bytes in a new block, for `sys_exec` and `init_process`.
pub read_program : ℕ → K ℕ
read_program inode = do
  k ← kernel_state
  let size = load32 k.heap.memory inode
  buf ← on_heap (alloc size)
  count ← on_image (λ m. readall m (sub64 inode k.image) (sub64 buf k.image))
  give buf

-- `sys_exec` for a file that there is.
pub replace_program : ℕ → Machine → ℕ → K (Option ℕ)
replace_program fuel machine inode = do
  buf ← read_program inode
  mm ← from_elf fuel machine.symbols buf
  k ← kernel_state
  let old = k.procs k.current
  modify (set_proc k.current (λ p. record p { mm = mm }))
  dealloc_memory_map fuel old.mm
  modify (
      set_proc k.current
        (λ p. record p { process_cx = record (p.process_cx) { satp = satp (k.roots mm) } }))
  on_heap (dealloc fuel old.ustack user_stack_size)
  ustack ← on_heap (alloc user_stack_size)
  modify (set_proc k.current (λ p. record p { ustack = ustack }))
  map_user_stack (k.roots mm) ustack
  dealloc_files fuel k.current
  open_stdio 3 k.current 0
  now ← kernel_state
  let entry = entry_of_elf now buf
  modify (
      set_proc k.current (λ p. record p {
        trap_cx =
            goto_app machine.sstatus entry ((user_stack + user_stack_size) % 2 ^ 64)
              (p.kstack + kernel_stack_size) p.trap_cx;
      }))
  last ← kernel_state
  on_heap (dealloc fuel buf (load32 last.heap.memory inode))
  give (some 0)

pub sys_exec : ℕ → Machine → ℕ → K (Option ℕ)
sys_exec fuel machine name = do
  inode ← find_file fuel name
  if inode == 0 then give none else replace_program fuel machine inode

-- The for loop of `exit_current` from the node `pos` on: each child goes to the list of `init`.
pub adopt : ℕ → (head init pos : ℕ) → Links → Option Links
adopt zero head init pos l = none
adopt (suc fuel) head init pos l =
    let moved = list_add pos init (list_del pos l) in
    let rest = adopt fuel head init (moved.next pos) moved in if pos == head then some l else rest

-- The while loop of `exit_current`.
pub adopt_all : ℕ → ℕ → (head init : ℕ) → Links → Option Links
adopt_all fuel zero head init l = none
adopt_all fuel (suc rounds) head init l =
    let again : Option Links = elim (adopt fuel head init (l.next head) l) [
      | none ↦ none
      | some m ↦ adopt_all fuel rounds head init m
    ] in
    if list_empty head l then some l else again

pub adopt_children : ℕ → K (Unit {0})
adopt_children fuel k =
    elim (adopt_all fuel fuel (children_of k.current) (children_of k.init) k.links) [
      | none ↦ none
      | some l ↦ some (tt, record k { links = l })
    ]

-- `exit_current` up to its `__switch`.
pub exit_current : ℕ → K (Unit {0})
exit_current fuel = do
  modify (λ k. set_proc k.current (λ p. record p { state = exited }) k)
  k ← kernel_state
  if k.current == k.init then give tt else adopt_children fuel

-- `init_process` up to `schedule`; `name` is the address of the string "init". Without such a file
-- the inode is NULL, which is a fault.
pub init_process : ℕ → Machine → ℕ → K (Unit {0})
init_process fuel machine name = do
  idle ← on_heap (alloc process_size)
  modify (λ k. record k { idle = idle })
  pid ← take_pid
  modify (set_proc idle (λ p. record p { pid = pid; state = running }))
  modify (relink (init_lists idle))
  mm ← new_kernel_memory_map machine.symbols
  modify (set_proc idle (λ p. record p { mm = mm }))
  inode ← find_file fuel name
  buf ← if inode == 0 then stop else read_program inode
  init ← new_process fuel machine buf
  modify (λ k. record k { init = init })
  add_process init
  last ← kernel_state
  on_heap (dealloc fuel buf (load32 last.heap.memory inode))
