-- ===== src/Descriptors.antt =====
-- Open files of kernel/fs.c: `sys_open`, `sys_close`, `sys_read`, `sys_write` and `dealloc_files`, for
-- the current process. A descriptor is the 32-bit pattern of its int. `fuel` is that of the string
-- functions and of `buddy_dealloc`. User memory is read and written at its addresses.
pub mod Counts
pub mod Closing
mod Tests
use lilac_os.Base.{
  ℕ, zero, suc, ◌+◌, ◌-◌, ◌/◌, ◌%◌, ◌^◌, bit_and, Bool, not, ◌&&◌, ◌||◌, List, [], ◌∷◌, ◌++◌,
  Option, none, some, update, ltb, leb, ◌==◌, if◌then◌else◌,
}
use lilac_os.Word.{sub64, add64}
use lilac_os.Memory.{Memory, load16, load32}
use lilac_os.Frames.{alloc, dealloc}
use lilac_os.Fs.{fat_at, fat_size, get_block}
use lilac_os.Fs.Files.{copy_bytes, lookup, read_from_inode}
use lilac_os.Fs.Growth.{create, as_count, write_to_inode, note_size}
use lilac_os.Kernel.{
  Kernel, K, give, ◌>>=◌, ◌>>◌, kernel_state, modify, on_heap, on_image, set_proc, set_file,
  Outcome, returned, waiting,
}

abbrev pub nr_open : ℕ
nr_open = 16

-- `sizeof(struct File)` and `sizeof(struct Inode)`
abbrev pub file_size : ℕ
file_size = 24

abbrev pub inode_size : ℕ
inode_size = 64

abbrev pub file_stdio : ℕ
file_stdio = 1

-- `current->files[fd]`
abbrev pub file_of : Kernel → ℕ → ℕ
file_of k fd = (k.procs k.current).files fd

-- An inode's address, and 0 where there is none.
pub address_of : ℕ → Option ℕ → ℕ
address_of image none = 0
address_of image (some inode) = add64 image inode

-- `lookup(name)`
pub find_file : ℕ → ℕ → K ℕ
find_file fuel name = do
  k ← kernel_state
  found ←
      on_image
        (λ m. elim (lookup fuel m (sub64 name k.image)) [ none ↦ none | some o ↦ some (o, m) ])
  give (address_of k.image found)

-- `create(name)`
pub create_file : ℕ → ℕ → K ℕ
create_file fuel name = do
  k ← kernel_state
  inode ← on_image (create fuel (sub64 name k.image))
  give (add64 k.image inode)

-- `strcmp("/", name)` is 0: the name is a slash alone.
pub is_root : Memory → ℕ → Bool
is_root m name = m name == 47 && m (name + 1) == 0

-- The inode to open, or 0; `root` is the address of `ROOT_INODE`.
pub inode_to_open : ℕ → (root name flags : ℕ) → K ℕ
inode_to_open fuel root name flags = do
  k ← kernel_state
  let by_name = (do
    inode ← find_file fuel name
    let made = create_file fuel name
    if not (inode == 0) then give inode else if bit_and flags 0x200 == 0 then give 0 else made)
  if is_root k.heap.memory name then give root else by_name

-- A file at the descriptor `i`. Its type is not set: it is what the block's first bytes hold, which
-- is the link of the free list that it was taken from.
pub open_at : ℕ → (root name flags i : ℕ) → K (Option ℕ)
open_at fuel root name flags i = do
  inode ← inode_to_open fuel root name flags
  let opened = (do
    file ← on_heap (alloc file_size)
    modify (λ k.
        set_file file
          (λ f. record f { kind = load32 k.heap.memory file; count = 1; off = 0; inode = inode }) k)
    modify (λ k. set_proc k.current (λ p. record p { files = update p.files i file }) k)
    give (some i))
  if inode == 0 then give none else opened

-- The loop of `sys_open` over the descriptors, from `i` on.
pub open_from : ℕ → ℕ → (root name flags i : ℕ) → K (Option ℕ)
open_from fuel zero root name flags i = give none
open_from fuel (suc rounds) root name flags i = do
  k ← kernel_state
  let rest = open_from fuel rounds root name flags (i + 1)
  if file_of k i == 0 then open_at fuel root name flags i else rest

pub sys_open : ℕ → (root name flags : ℕ) → K (Option ℕ)
sys_open fuel root name flags = open_from fuel nr_open root name flags 0

-- `!--(file->count)`: the file is freed with its last descriptor.
pub drop_file : ℕ → ℕ → K (Unit {0})
drop_file fuel file = do
  modify (set_file file (λ f. record f { count = (f.count + (2 ^ 32 - 1)) % 2 ^ 32 }))
  k ← kernel_state
  if (k.files file).count == 0 then on_heap (dealloc fuel file file_size) else give tt

-- The slot `i` of a process's files, emptied.
pub close_slot : ℕ → (process i : ℕ) → K (Unit {0})
close_slot fuel process i = do
  k ← kernel_state
  let file = (k.procs process).files i
  let close = (do
    drop_file fuel file
    modify (set_proc process (λ p. record p { files = update p.files i 0 })))
  if file == 0 then give tt else close

pub sys_close : ℕ → ℕ → K ℕ
sys_close fuel fd = do
  k ← kernel_state
  if ltb fd nr_open then close_slot fuel k.current fd else give tt
  give 0

-- The loop of `dealloc_files`, from slot `i` on.
pub close_slots : ℕ → ℕ → (process i : ℕ) → K (Unit {0})
close_slots fuel zero process i = give tt
close_slots fuel (suc rounds) process i = do
  close_slot fuel process i
  close_slots fuel rounds process (i + 1)

pub dealloc_files : ℕ → ℕ → K (Unit {0})
dealloc_files fuel process = close_slots fuel nr_open process 0

-- The next entry of the root directory from `i` on: its inode, counted from the image.
pub next_entry : ℕ → ℕ → Memory → Option ℕ
next_entry zero i m = none
next_entry (suc rounds) i m =
    let rest = next_entry rounds (i + 1) m in
    if load16 m (fat_at i) == 0 then rest else some (get_block (load16 m (fat_at i)))

-- The inode copied, or 0 bytes where the directory ends.
pub give_entry : (file buf : ℕ) → Option ℕ → K (Option ℕ)
give_entry file buf none = give (some 0)
give_entry file buf (some inode) = do
  k ← kernel_state
  on_image (λ m. some (tt, copy_bytes inode_size m (sub64 buf k.image) inode))
  modify (set_file file (λ f. record f { off = f.off + inode_size }))
  give (some inode_size)

-- `sys_read` of the root directory; a `count` from 2^31 on is a negative int.
pub read_root : (file buf count : ℕ) → K (Option ℕ)
read_root file buf count = do
  k ← kernel_state
  let idx = (k.files file).off / inode_size
  entry ← on_image (λ m. some (next_entry (fat_size - idx) idx m, m))
  if ltb count inode_size || leb (2 ^ 31) count then give none else give_entry file buf entry

-- `sys_read` of a file of the image.
pub read_file : (file buf count : ℕ) → K (Option ℕ)
read_file file buf count = do
  k ← kernel_state
  let f = k.files file
  num ← on_image (λ m. read_from_inode m (sub64 f.inode k.image) f.off (sub64 buf k.image) count)
  modify (set_file file (λ f. record f { off = f.off + num }))
  give (some num)

-- `sys_read` of the console; `getchar` is the value of `console_getchar()`.
pub read_console : (getchar buf : ℕ) → K Outcome
read_console getchar buf = do
  k ← kernel_state
  let put = (do
    on_image (λ m. some (tt, λ q. if q == sub64 buf k.image then getchar % 256 else m q))
    give (returned (some 1)))
  if getchar % 256 == 255 then give waiting else put

-- A wait is the yield of `sys_read`, which tries again when it runs.
pub sys_read : (root getchar fd buf count : ℕ) → K Outcome
sys_read root getchar fd buf count = do
  k ← kernel_state
  let file = file_of k fd
  let read = (do result ← read_file file buf count; give (returned result))
  let root_read = (do result ← read_root file buf count; give (returned result))
  if count == 0
      then give (returned (some 0))
      else if not (ltb fd nr_open && not (file == 0))
      then give (returned none)
      else if (k.files file).inode == root
      then root_read
      else if (k.files file).kind == file_stdio
      then read_console getchar buf
      else read

-- `count` bytes from `buf` on
pub bytes_from : ℕ → Memory → ℕ → List ℕ
bytes_from zero m buf = []
bytes_from (suc count) m buf = m buf ∷ bytes_from count m (buf + 1)

pub write_file : (file buf count : ℕ) → K (Option ℕ)
write_file file buf count = do
  k ← kernel_state
  let f = k.files file
  num ← on_image (write_to_inode (sub64 f.inode k.image) f.off (sub64 buf k.image) count)
  modify (set_file file (λ g. record g { off = g.off + num }))
  on_image (λ m. some (tt, note_size (sub64 f.inode k.image) (f.off + num) m))
  give (some num)

pub sys_write : (fd buf count : ℕ) → K (Option ℕ)
sys_write fd buf count = do
  k ← kernel_state
  let file = file_of k fd
  let put = (do
    modify (λ now. record now {
      console = now.console ++ bytes_from (as_count count) now.heap.memory buf;
    })
    give (some count))
  if not (ltb fd nr_open && not (file == 0))
      then give none
      else if (k.files file).kind == file_stdio
      then put
      else write_file file buf count
