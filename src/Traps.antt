-- ===== src/Traps.antt =====
-- kernel/trap.c and kernel/syscall.c: what a trap does before the return to the user. `waiting` is a
-- process that has switched away.
use lilac_os.Base.{
  ℕ, ◌+◌, ◌-◌, ◌%◌, ◌^◌, false, List, [], ◌∷◌, ◌++◌, Option, none, some, update, ltb, ◌==◌,
  if◌then◌else◌,
}
use lilac_os.Word.{add64}
use lilac_os.Descriptors.{sys_open, sys_close, sys_read, sys_write}
use lilac_os.Processes.{Machine, yield}
use lilac_os.Processes.Calls.{sys_fork, sys_exec, sys_wait, exit_current}
use lilac_os.Kernel.{
  Kernel, K, stop, give, ◌>>=◌, ◌>>◌, kernel_state, modify, set_proc, TrapContext, Outcome,
  returned, waiting,
}

-- What the code takes from outside C, with the address of `ROOT_INODE` and `console_getchar()`.
-- `others` is what other processes do each time that `sys_wait` has yielded.
pub record Environment : Type 0 where
  pub machine : Machine
  pub root : ℕ
  pub getchar : ℕ
  pub others : List (Kernel → Kernel)

-- The arguments of a system call: `a0` to `a2`.
pub record Arguments : Type 0 where
  pub a0 : ℕ
  pub a1 : ℕ
  pub a2 : ℕ

abbrev pub as_int : ℕ → ℕ
as_int a = a % 2 ^ 32

-- The result of a call that does not wait.
pub finished : K (Option ℕ) → K Outcome
finished run = do result ← run; give (returned result)

-- `console_putchar(args[0])`
pub putchar : ℕ → K (Option ℕ)
putchar c = do modify (λ k. record k { console = k.console ++ c % 256 ∷ [] }); give (some 0)

pub getpid : K (Option ℕ)
getpid = do k ← kernel_state; give ((k.procs k.current).pid)

-- `exit_current` does not come back.
pub leave : ℕ → K Outcome
leave fuel = do exit_current fuel; give waiting

pub syscall : ℕ → Environment → ℕ → Arguments → K Outcome
syscall fuel e id args =
    if id == 0
    then leave fuel
    else if id == 1
    then finished (putchar args.a0)
    else if id == 2
    then finished getpid
    else if id == 3
    then finished (sys_fork fuel e.machine)
    else if id == 4
    then sys_wait fuel e.others false
    else if id == 5
    then finished (sys_exec fuel e.machine args.a0)
    else if id == 6
    then finished (sys_open fuel e.root args.a0 (as_int args.a1))
    else if id == 7
    then finished (do result ← sys_close fuel (as_int args.a0); give (some result))
    else if id == 8
    then sys_read e.root e.getchar (as_int args.a0) args.a1 (as_int args.a2)
    else if id == 9
    then finished (sys_write (as_int args.a0) args.a1 (as_int args.a2))
    else stop

-- An int result as a 64-bit word: the sign is extended, and -1 is all ones.
pub as_word : Option ℕ → ℕ
as_word none = 2 ^ 64 - 1
as_word (some n) =
    let word = n % 2 ^ 32 in if ltb word (2 ^ 31) then word else word + (2 ^ 64 - 2 ^ 32)

-- The trap context of the current process, changed.
pub change_context : (TrapContext → TrapContext) → Kernel → Kernel
change_context change k = set_proc k.current (λ p. record p { trap_cx = change p.trap_cx }) k

-- `context->x[10] = ret`, for a call that has returned
pub return_result : Outcome → K Outcome
return_result waiting = give waiting
return_result (returned r) = do
  modify (change_context (λ cx. record cx { x = update cx.x 10 (as_word r) }))
  give (returned r)

pub skip : ℕ → K (Unit {0})
skip bytes = modify (change_context (λ cx. record cx { sepc = add64 cx.sepc bytes }))

pub syscall_handle : ℕ → Environment → K Outcome
syscall_handle fuel e = do
  skip 4
  k ← kernel_state
  let x = (k.procs k.current).trap_cx.x
  outcome ← syscall fuel e (x 17) (record { a0 = x 10; a1 = x 11; a2 = x 12 })
  return_result outcome

pub breakpoint : K Outcome
breakpoint = do skip 2; give (returned none)

-- `set_next_timeout` sets a register of the machine.
pub supervisor_timer : K Outcome
supervisor_timer = do yield; give waiting

-- Any other cause is a panic.
pub trap_handle : ℕ → Environment → ℕ → K Outcome
trap_handle fuel e scause =
    if scause == 3
    then breakpoint
    else if scause == 8
    then syscall_handle fuel e
    else if scause == 5 + 2 ^ 63
    then supervisor_timer
    else stop
