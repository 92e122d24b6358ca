-- ===== src/Lib.antt =====
-- Verification of the LilacOS kernel, a small RISC-V kernel in C.
--
-- The program. kernel/buddy_system_allocator.c hands out blocks of kernel memory whose free lists
-- run through the free blocks themselves; kernel/memory.c puts pages and panics on top of it.
-- kernel/fs.c keeps a file system in an image in memory: a super block, a map of used blocks, a table
-- of inodes. kernel/process.c keeps processes and their numbers.
--
-- The library.
--   Base, Word, Memory: shared names and lemmas; powers of two and bit operations; the bytes of
--     memory and its 16-, 32- and 64-bit cells.
--   Buddy: kernel/buddy_system_allocator.{h,c}. The state `Heap` is `struct Buddy` and the memory.
--     `M` is a run from a heap to a result and a heap; `none` is a fault: NULL dereferenced, or an
--     entry of `free_list` out of range. PUSH and POP are `push` and `pop`; the loops of
--     `add_to_buddy`, `buddy_alloc` and `buddy_dealloc` are `add_loop`, `alloc_loop` with `split`,
--     and `merge` with `unlink`.
--   Pids: `alloc_pid` and `dealloc_pid` of kernel/process.c over the words of `pids`.
--   Frames: kernel/memory.c. `alloc`, `alloc_frame` and `dealloc_frame` run in `M` on the same heap;
--     a panic shuts the machine down and is a fault.
--   Fs: kernel/fs.c over the bytes of memory, addresses counted from `_fs_img_start`.
--     `alloc_free_block` and `alloc_inode` have `none` for -1. Fs/Files: `lookup`,
--     `read_from_inode` and `readall`, by the layout of `struct Inode`.
--     Fs/Growth: `create`, `increase_size` and the writing of `sys_write`.
--   Strings: kernel/string.h, against lists of bytes that end before a zero byte.
--   Printf: `printint` and `printptr` of kernel/printf.c, and in Printf/Format the loop of
--     `__printf`; the result is the list of bytes put out. The variable arguments are a list.
--   Lists: kernel/list.h. `Links` has the fields `next` and `prev` of every node.
--   Paging: page tables of kernel/mapping.c in `M`, and in Paging/Segments the pages of a segment.
--   Kernel: the state of the whole kernel and its runs `K`. The structures are kept by address in a
--     store for each kind, while `alloc` and `dealloc` act on the heap; a list node is the address of
--     its field.
--   Spaces: segments and address spaces of kernel/mapping.c, and kernel/elf.c.
--   Descriptors: `sys_open`, `sys_close`, `sys_read`, `sys_write` and `dealloc_files` of kernel/fs.c.
--   Processes: kernel/process.c. `dispatch` is `schedule` up to `__switch` and `resume_idle` what
--     follows it; in Processes/Calls `sys_fork`, `sys_exec`, `exit_current`, `init_process`, and
--     `sys_wait` by its rounds, with a list of what other processes do between them.
--   Traps: kernel/trap.c and kernel/syscall.c, from `trap_handle` to the return to the user.
--   Mkfs: tool/mkfs.c, which builds an image from the entries of a directory. Mkfs.Placing and
--     Mkfs.Packed say what it is for a file to be in the image, and Mkfs.Reading has the kernel of
--     Fs.Files on it.
--   Shell: user/shell.c, the line that is typed and the commands that are run.
--
-- Loops and fuel. A counted loop recurs on its rounds. `add_to_buddy` gives its loop the region's
-- size and one more as fuel, and each round takes eight bytes or more. `buddy_dealloc` takes the
-- fuel of its walks as an argument; any number above the lengths of the lists is enough.
-- `get_order` has a round for each bit of its argument. The string functions take a bound on the
-- bytes that they read, `read_from_inode` a round for each byte that it is to read, `printint` one
-- more than its buffer has bytes. That the fuel suffices is part of each theorem, since a run out
-- of fuel is a fault or `none`. `dealloc_pagetable` has fuel for its
-- recursion, which is bounded by the entries that are found alone.
--
-- Numbers. Words are natural numbers below 2 ^ w, with `% 2 ^ w` where the code wraps.
--
-- Not modelled: inline assembly, the SBI calls and the device (kernel/*.S, kernel/sbi.c,
-- kernel/riscv.h), which have no state in C; the messages of panics and of a breakpoint; the
-- other programs of user/. The translation of addresses by the hardware is not modelled: user memory is
-- read at its addresses.
pub mod Base
pub mod Word
pub mod Memory
pub mod Strings
pub mod Printf
pub mod Lists
pub mod Buddy
pub mod Frames
pub mod Paging
pub mod Pids
pub mod Fs
pub mod Kernel
pub mod Spaces
pub mod Descriptors
pub mod Processes
pub mod Traps
pub mod Mkfs
pub mod Shell
