-- ===== src/Kernel.antt =====
-- The state of the kernel. The bytes of memory and the allocator are the heap; the structures that
-- hold no bytes of their own clients are kept by their address, each kind in a store of its own:
-- processes, open files, segments, address spaces, and the links of all `struct list_head`.
-- An address names the node of a list in a structure by the offset of the field.
use lilac_os.Base.{ℕ, ◌+◌, List, Option, none, some, update}
use lilac_os.Lists.{Links}
use lilac_os.Word.{sub64, add64}
use lilac_os.Memory.{Memory}
use lilac_os.Buddy.{Heap, M}
use lilac_os.Pids.{Pids}

-- `struct ProcessContext` and `struct TrapContext`
pub record ProcessContext : Type 0 where
  pub ra : ℕ
  pub sp : ℕ
  pub s : ℕ → ℕ
  pub satp : ℕ

pub record TrapContext : Type 0 where
  pub x : ℕ → ℕ
  pub sstatus : ℕ
  pub sepc : ℕ
  pub kernel_sp : ℕ

pub data ProcState : Type 0 where
  ready : ProcState
  running : ProcState
  exited : ProcState

-- `struct ProcessControlBlock` without its lists. `none` is the number -1.
pub record Process : Type 0 where
  pub pid : Option ℕ
  pub state : ProcState
  pub process_cx : ProcessContext
  pub trap_cx : TrapContext
  pub kstack : ℕ
  pub ustack : ℕ
  pub mm : ℕ
  pub parent : ℕ
  pub files : ℕ → ℕ

pub data SegmentType : Type 0 where
  linear : SegmentType
  framed : SegmentType

pub record Segment : Type 0 where
  pub start_va : ℕ
  pub end_va : ℕ
  pub flags : ℕ
  pub kind : SegmentType

-- `struct File`, its type among `FILE_INODE` and `FILE_STDIO`
pub record File : Type 0 where
  pub kind : ℕ
  pub count : ℕ
  pub off : ℕ
  pub inode : ℕ

-- `image` is `_fs_img_start`, and `console` what was put out, from the first byte on.
pub record Kernel : Type 0 where
  pub heap : Heap
  pub links : Links
  pub procs : ℕ → Process
  pub files : ℕ → File
  pub segments : ℕ → Segment
  pub roots : ℕ → ℕ
  pub pids : Pids
  pub current : ℕ
  pub idle : ℕ
  pub init : ℕ
  pub image : ℕ
  pub console : List ℕ

-- How a system call ends for now: with a result, -1 being `none`, or with the process waiting.
pub data Outcome : Type 0 where
  returned : Option ℕ → Outcome
  waiting : Outcome

-- The nodes of a process's lists, and of an address space and its segments.
abbrev pub list_of : ℕ → ℕ
list_of p = p + 440

abbrev pub children_of : ℕ → ℕ
children_of p = p + 456

abbrev pub sibling_of : ℕ → ℕ
sibling_of p = p + 472

abbrev pub segment_list_of : ℕ → ℕ
segment_list_of mm = mm + 8

abbrev pub segment_node_of : ℕ → ℕ
segment_node_of segment = segment + 32

-- A run of the kernel: `none` is a fault or a panic.
abbrev pub K : Type 0 → Type 0
K Result = Kernel → Option (Result × Kernel)

abbrev pub stop : {Result : Type 0} → K Result
stop kernel = none

abbrev pub give : {Result : Type 0} → Result → K Result
give value kernel = some (value, kernel)

infixl 5 ◌>>=◌ ◌>>◌
abbrev pub ◌>>=◌ : {First Result : Type 0} → K First → (First → K Result) → K Result
◌>>=◌ run next kernel = elim (run kernel) [ none ↦ none | some (value, after) ↦ next value after ]

abbrev pub ◌>>◌ : {Result : Type 0} → K (Unit {0}) → K Result → K Result
run >> next = run >>= λ done. next

abbrev pub kernel_state : K Kernel
kernel_state kernel = some (kernel, kernel)

abbrev pub modify : (Kernel → Kernel) → K (Unit {0})
modify change kernel = some (tt, change kernel)

-- A value that a walk found.
unfoldable pub given : {Result : Type 0} → Option Result → K Result
given none = stop
given (some value) = give value

-- A run on the heap alone.
unfoldable pub on_heap : {Result : Type 0} → M Result → K Result
on_heap run kernel = elim (run kernel.heap) [
  | none ↦ none
  | some (value, after) ↦ some (value, record kernel { heap = after })
]

abbrev pub relink : (Links → Links) → Kernel → Kernel
relink change k = record k { links = change k.links }

abbrev pub set_proc : ℕ → (Process → Process) → Kernel → Kernel
set_proc p change k = record k { procs = update k.procs p (change (k.procs p)) }

abbrev pub set_file : ℕ → (File → File) → Kernel → Kernel
set_file f change k = record k { files = update k.files f (change (k.files f)) }

-- Memory with its addresses counted from `image`, as the file system reads it, and back.
abbrev pub from_image : ℕ → Memory → Memory
from_image image m q = m (add64 image q)

abbrev pub to_image : ℕ → Memory → Memory
to_image image m q = m (sub64 q image)

-- A run of the file system; its addresses are counted from `image`.
unfoldable pub on_image : {Result : Type 0} → (Memory → Option (Result × Memory)) → K Result
on_image run k = elim (run (from_image k.image k.heap.memory)) [
  | none ↦ none
  | some (value, m) ↦
      some (value, record k { heap = record (k.heap) { memory = to_image k.image m } })
]
