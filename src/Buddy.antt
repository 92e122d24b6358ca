-- ===== src/Buddy.antt =====
-- The buddy allocator of kernel/buddy_system_allocator.c. `struct Buddy` and the memory that its
-- free lists run through are one state; a free block's first cell holds the next block of its list.
-- A run that would touch the null page or an entry past the free lists is a fault, `none`.
-- The children prove: Sizes, the rounding of sizes; Cover, which bytes are free; Lists, the two
-- list operations; Alloc, Dealloc and Region, the allocator's operations.
pub mod Smear
pub mod Sizes
pub mod Cover
pub mod Lists
pub mod Split
pub mod Alloc
pub mod Unlink
pub mod Pair
pub mod Round
pub mod Merge
pub mod Dealloc
pub mod Cut
pub mod Region
mod Tests
use lilac_os.Base.{
  ℕ, zero, suc, ◌+◌, ◌-◌, ◌*◌, ◌/◌, ◌%◌, ◌^◌, min, max, bit_and, bit_or, bit_xor, Bool, true, false,
  not, ◌&&◌, Option, none, some, ltb, ◌==◌, if◌then◌else◌,
}
use lilac_os.Word.{sub64, add64, not64, ◌>>>◌, ◌<<<◌}
use lilac_os.Memory.{Memory, load64, store64}

-- `n |= n >> s`
pub smear : ℕ → ℕ → ℕ
smear s n = bit_or n (n >>> s)

pub next_power_of_two : ℕ → ℕ
unfolding smear
next_power_of_two size =
    add64 (smear 32 (smear 16 (smear 8 (smear 4 (smear 2 (smear 1 (sub64 size 1))))))) 1

pub prev_power_of_two : ℕ → ℕ
prev_power_of_two size =
    let next = next_power_of_two size in if size == next then size else next >>> 1

-- `while (size > 1)`, with a round for each bit of a `uint64`.
order_loop : ℕ → ℕ → ℕ → ℕ
order_loop zero size order = order
order_loop (suc fuel) size order =
    let rest = order_loop fuel (size >>> 1) (order + 1) in if ltb 1 size then rest else order

pub get_order : ℕ → ℕ
unfolding order_loop
get_order size = order_loop 64 size 0

abbrev pub max_order : ℕ
max_order = 30

pub record Buddy : Type 0 where
  pub free_list : ℕ → ℕ
  pub total : ℕ
  pub allocated : ℕ

-- The allocator and the memory that it manages.
pub record Heap : Type 0 where
  pub memory : Memory
  pub buddy : Buddy

-- A run of kernel code from a heap: `none` is a fault.
abbrev pub M : Type 0 → Type 0
M Result = Heap → Option (Result × Heap)

abbrev pub fault : {Result : Type 0} → M Result
fault heap = none

abbrev pub pure : {Result : Type 0} → Result → M Result
pure value heap = some (value, heap)

infixl 5 ◌>>=◌ ◌>>◌
abbrev pub ◌>>=◌ : {First Result : Type 0} → M First → (First → M Result) → M Result
◌>>=◌ run next heap = elim (run heap) [ none ↦ none | some (value, after) ↦ next value after ]

abbrev pub ◌>>◌ : {Result : Type 0} → M (Unit {0}) → M Result → M Result
run >> next = run >>= λ done. next

abbrev pub update : (ℕ → ℕ) → ℕ → ℕ → ℕ → ℕ
update f i v j = if i == j then v else f j

-- `buddy->free_list[order]`
pub get_list : ℕ → M ℕ
get_list order h = if ltb order max_order then some (h.buddy.free_list order, h) else none

pub set_list : ℕ → ℕ → M (Unit {0})
set_list order p h =
    if ltb order max_order
    then some
        (tt, record h { buddy = record (h.buddy) { free_list = update h.buddy.free_list order p } })
    else none

pub load : ℕ → M ℕ
load p h = if p == 0 then none else some (load64 h.memory p, h)

pub store : ℕ → ℕ → M (Unit {0})
store p v h = if p == 0 then none else some (tt, record h { memory = store64 h.memory p v })

-- `PUSH(buddy, block, order)`
pub push : ℕ → ℕ → M (Unit {0})
push block order = do head ← get_list order; store block head; set_list order block

-- `POP(buddy, order)`
pub pop : ℕ → M ℕ
pop order = do block ← get_list order; next ← load block; set_list order next; pure block

-- `buddy->allocated += n`, `-= n` and `buddy->total += n`
pub add_allocated : ℕ → M (Unit {0})
add_allocated n h =
    some (tt, record h { buddy = record (h.buddy) { allocated = add64 h.buddy.allocated n } })

pub sub_allocated : ℕ → M (Unit {0})
sub_allocated n h =
    some (tt, record h { buddy = record (h.buddy) { allocated = sub64 h.buddy.allocated n } })

pub add_total : ℕ → M (Unit {0})
add_total n h = some (tt, record h { buddy = record (h.buddy) { total = add64 h.buddy.total n } })

pub init_buddy : M (Unit {0})
init_buddy h =
    some (tt, record h { buddy = record { free_list = λ _. 0; total = 0; allocated = 0 } })

-- One round of the loop of `add_to_buddy` takes the largest block that is aligned and fits.
pub region_block : ℕ → ℕ → ℕ
region_block current end =
    min (bit_and current (add64 (not64 current) 1))
      (min (prev_power_of_two (sub64 end current)) (2 ^ max_order))

pub add_loop : ℕ → ℕ → ℕ → M (Unit {0})
add_loop zero current end = fault
add_loop (suc fuel) current end =
    let size = region_block current end in
    let round = do
      push current (get_order size)
      add_total size
      add_loop fuel (add64 current size) end
    in if ltb current end then round else pure tt

-- A block is at least a byte, so the region's size bounds the rounds.
pub add_to_buddy : ℕ → ℕ → M (Unit {0})
add_to_buddy start end = add_loop (end - start + 1) start end

-- `MAX(next_power_of_two(size), 8)`
pub adjust_size : ℕ → ℕ
adjust_size size = max (next_power_of_two size) 8

-- The loop from `j` down to the wanted order, `d` rounds: halve the first block of list `j`.
pub split : ℕ → ℕ → M (Unit {0})
split zero j = pure tt
split (suc d) j = do
  block ← pop j
  push (add64 block (2 ^ (j - 1))) (j - 1)
  push block (j - 1)
  split d (j - 1)

-- The loop over the orders from `i` up, `rounds` of them left.
pub alloc_loop : ℕ → ℕ → ℕ → ℕ → M ℕ
alloc_loop zero i order size = pure 0
alloc_loop (suc rounds) i order size = do
  head ← get_list i
  let rest = alloc_loop rounds (i + 1) order size
  if head == 0 then rest else (do split (i - order) i; add_allocated size; pop order)

pub buddy_alloc : ℕ → M ℕ
buddy_alloc size =
    let order = get_order (adjust_size size) in
    alloc_loop (max_order - order) order order (adjust_size size)

-- The walk for the buddy: unlink it where it is met. `fuel` bounds the nodes of the list.
pub unlink : ℕ → (prev next target : ℕ) → M Bool
unlink zero prev next target = fault
unlink (suc fuel) prev next target =
    let walk = (do after ← load next; unlink fuel next after target) in
    let found = (do after ← load next; store prev after; pure true) in
    if next == 0 then pure false else if next == target then found else walk

-- The walk over list `order`, whose first block has just been put there.
pub find_buddy : ℕ → (target order : ℕ) → M Bool
find_buddy fuel target order = do
  prev ← get_list order
  next ← load prev
  unlink fuel prev next target

-- The loop over the orders from `order` up, `rounds` of them left.
pub merge : ℕ → ℕ → (block order : ℕ) → M (Unit {0})
merge fuel zero block order = pure tt
merge fuel (suc rounds) block order = do
  let other = bit_xor block (2 ^ order)
  found ← find_buddy fuel other order
  let up = (do
    _ ← pop order
    push (min block other) (order + 1)
    merge fuel rounds (min block other) (order + 1))
  if found then up else pure tt

pub buddy_dealloc : ℕ → (block size : ℕ) → M (Unit {0})
buddy_dealloc fuel block size = do
  let order = get_order (adjust_size size)
  push block order
  merge fuel (max_order - order) block order
  sub_allocated (adjust_size size)
