-- ===== src/Descriptors/Closing.antt =====
-- `sys_close` and the counts of the files.
use lilac_os.Base.{
  ℕ, ◌+◌, ◌-◌, ◌^◌, ◌%◌, ◌<◌, ◌≡◌, ◌≢◌, ◌∙◌, inl, inr, refl, sym, ap, subst, List, Option, some,
  arith, if◌then◌else◌, eq→==, ne→==, lt→ltb, eq-cases, length, update, update_self, update_ne,
  Among, Distinct,
}
use lilac_os.Kernel.{Kernel, ◌>>=◌, ◌>>◌, on_heap, set_proc, set_file}
use lilac_os.Buddy.{Heap}
use lilac_os.Frames.{dealloc}
use lilac_os.Frames.Laws.{dealloc_lem}
use lilac_os.Buddy.{max_order}
use lilac_os.Buddy.Sizes.{exact_size}
use lilac_os.Buddy.Cover.{Blocks, cover, inside}
use lilac_os.Buddy.Lists.{IsHeap, IsOwned}
use lilac_os.Buddy.Merge.{HasGaps}
use lilac_os.Buddy.Dealloc.{Freed, buddy_dealloc_lem}
use lilac_os.Descriptors.{nr_open, file_size, file_of, drop_file, close_slot, sys_close}
use lilac_os.Descriptors.Counts.{
  same, same_self, same_ne, uses, uses-emptied, total, total_less, IsCounted,
}

-- The count of the file taken down, and the slot emptied.
abbrev pub counted_down : ℕ → Kernel → Kernel
counted_down file = set_file file (λ f. record f { count = (f.count + (2 ^ 32 - 1)) % 2 ^ 32 })

abbrev pub emptied : (process i : ℕ) → Kernel → Kernel
emptied process i = set_proc process (λ p. record p { files = update p.files i 0 })

new_count : ℕ → Kernel → ℕ
new_count file k = ((k.files file).count + (2 ^ 32 - 1)) % 2 ^ 32

count_down : (file : ℕ) (k : Kernel) → ((counted_down file k).files file).count ≡ new_count file k
unfolding new_count
count_down file k = ap (λ f. f.count) (update_self k.files file _)

-- The slot is emptied behind `drop_file`.
slot_closes :
    (fuel process i : ℕ) (k after : Kernel)
    → (k.procs process).files i ≢ 0
    → drop_file fuel ((k.procs process).files i) k ≡ some (tt, after)
    → close_slot fuel process i k ≡ some (tt, emptied process i after)
unfolding close_slot
slot_closes fuel process i k after live drop =
    rw (ne→== ((k.procs process).files i) 0 live, if◌then◌else◌, ◌>>◌, ◌>>=◌, drop)

closes :
    (fuel fd : ℕ) (k after : Kernel)
    → fd < nr_open
    → close_slot fuel k.current fd k ≡ some (tt, after)
    → sys_close fuel fd k ≡ some (0, after)
unfolding sys_close
closes fuel fd k after h slot = rw (lt→ltb fd nr_open h, if◌then◌else◌, ◌>>=◌, slot)

drop_kept :
    (fuel file : ℕ) (k : Kernel)
    → new_count file k ≢ 0
    → drop_file fuel file k ≡ some (tt, counted_down file k)
unfolding drop_file
drop_kept fuel file k many =
    let count = count_down file k in
    rw (ne→== ((counted_down file k).files file).count 0 (λ e. many (sym count ∙ e)))

drop_last :
    (fuel file : ℕ) (k : Kernel) (heap : Heap)
    → new_count file k ≡ 0
    → dealloc fuel file file_size k.heap ≡ some (tt, heap)
    → drop_file fuel file k ≡ some (tt, record (counted_down file k) { heap = heap })
unfolding drop_file on_heap
drop_last fuel file k heap last freed =
    let count = count_down file k in
    rw (
      eq→== ((counted_down file k).files file).count 0 (count ∙ last),
      if◌then◌else◌,
      on_heap,
      freed,
    )

-- The state behind `sys_close`, with some heap.
abbrev pub behind : ℕ → Kernel → Heap → Kernel
behind fd k heap = record (emptied k.current fd (counted_down (file_of k fd) k)) { heap = heap }

count_other :
    (file f : ℕ) (k : Kernel) → file ≢ f → ((counted_down file k).files f).count ≡ (k.files f).count
count_other file f k ne = ap (λ x. x.count) (update_ne k.files file f _ ne)

module _ (k : Kernel) (ps : List ℕ) (fd : ℕ) (c : IsCounted k ps) (u : Distinct ps)
    (among : Among k.current ps) (slot : fd < nr_open) (live : file_of k fd ≢ 0)
    (few : total k (file_of k fd) ps < 2 ^ 32) where
  total_behind :
      (heap : Heap) (f : ℕ)
      → f ≢ 0
      → total k f ps ≡ same (file_of k fd) f + total (behind fd k heap) f ps
  total_behind heap f ne =
      total_less k (behind fd k heap) f k.current (same (file_of k fd) f) ps
        (uses-emptied (k.procs k.current).files f nr_open 0 fd ne (omega arith)
            (omega (arith, slot))
          ∙ ap (λ x. same (file_of k fd) f + uses x.files f nr_open 0)
              (sym (update_self k.procs k.current _)))
        (λ q d.
          ap (λ x. uses x.files f nr_open 0) (update_ne k.procs k.current q _ (λ e. d (sym e))))
        u among

  count_before : (k.files (file_of k fd)).count ≡ total k (file_of k fd) ps
  count_before =
      let one = same_self (file_of k fd) in
      let less = total_behind k.heap (file_of k fd) live in
      c.counts (file_of k fd) live (omega (arith, one, less))

  count_after : new_count (file_of k fd) k + 1 ≡ total k (file_of k fd) ps
  unfolding new_count
  count_after =
      let one = same_self (file_of k fd) in
      let less = total_behind k.heap (file_of k fd) live in
      let before = count_before in omega (arith, one, less, before, few)

  IsCounted-behind : (heap : Heap) → IsCounted (behind fd k heap) ps
  IsCounted-behind heap = record {
    counts = λ f ne pos.
        let less = total_behind heap f ne in
        elim (eq-cases (file_of k fd) f) [
          | inl e ↦
              let one : same (file_of k fd) f ≡ 1 =
                ap (same (file_of k fd)) (sym e) ∙ same_self (file_of k fd) in
              let all : total k (file_of k fd) ps ≡ total k f ps = ap (λ x. total k x ps) e in
              let now : ((counted_down (file_of k fd) k).files f).count
                  ≡ new_count (file_of k fd) k =
                ap (λ x. ((counted_down (file_of k fd) k).files x).count) (sym e)
                ∙ count_down (file_of k fd) k in
              omega (arith, one, all, now, less, count_after)
          | inr d ↦
              let none_less : same (file_of k fd) f ≡ 0 = same_ne (file_of k fd) f d in
              let before = c.counts f ne (omega (arith, less, pos)) in
              let now = count_other (file_of k fd) f k d in
              omega (arith, none_less, before, now, less)
        ];
  }

-- A descriptor closed: the counts hold again, with a descriptor less of its file, and the file's block
-- is freed where that was the last one.
pub record Closed (k : Kernel) (ps : List ℕ) (bs : Blocks) (fd : ℕ) (result : Option (ℕ × Kernel))
    : Type 0 where
  pub after : Kernel
  pub returns : result ≡ some (0, after)
  pub slot : file_of after fd ≡ 0
  pub counted : IsCounted after ps
  pub less : (f : ℕ) → f ≢ 0 → total k f ps ≡ same (file_of k fd) f + total after f ps
  pub shared : total k (file_of k fd) ps ≢ 1 → after.heap ≡ k.heap
  pub last :
      total k (file_of k fd) ps ≡ 1 → Freed k.heap bs (file_of k fd) 5 (some (tt, after.heap))

-- Where the count of each open file is the number of descriptors of all processes that refer
-- to it, fewer than 2^32 for this one, the current process is one of them, and the heap is
-- well formed with the file's 32-byte block aligned and not free, with fuel above the list
-- lengths and provided that no aligned 2^30 bytes become free as a whole, sys_close of an open
-- descriptor returns 0, empties the slot and keeps the counts so; where it was the last
-- descriptor the file's block is freed as by buddy_dealloc, and the heap does not change
-- otherwise.
pub sys_close_lem :
    (fuel : ℕ) (k : Kernel) (ps : List ℕ) (bs : Blocks) (fd : ℕ)
    → IsCounted k ps
    → Distinct ps
    → Among k.current ps
    → fd < nr_open
    → file_of k fd ≢ 0
    → total k (file_of k fd) ps < 2 ^ 32
    → IsHeap k.heap bs
    → IsOwned bs (file_of k fd) 5
    → ((j : ℕ) → j < max_order → length (bs j) < fuel)
    → HasGaps (λ x. cover bs x + inside (file_of k fd) 5 x)
    → Closed k ps bs fd (sys_close fuel fd k)
sys_close_lem fuel k ps bs fd c u among slot live few valid owned enough gaps =
    let count = count_after k ps fd c u among slot live few in
    let empty : (heap : Heap) → file_of (behind fd k heap) fd ≡ 0 = λ heap.
      ap (λ p. p.files fd) (update_self k.procs k.current _)
      ∙ update_self (k.procs k.current).files fd 0 in
    let freed =
      buddy_dealloc_lem fuel valid
        (exact_size file_size 5 (omega arith) (omega arith) (omega arith) (omega arith)) owned
        enough gaps in
    elim (eq-cases (total k (file_of k fd) ps) 1) [
      | inl one ↦ record {
        after = behind fd k freed.heap;
        returns = closes fuel fd k (behind fd k freed.heap) slot (
            slot_closes fuel k.current fd k _ live (
              drop_last fuel (file_of k fd) k freed.heap (omega (arith, one, count))
                (dealloc_lem fuel (file_of k fd) file_size k.heap ∙ freed.returns)));
        slot = empty freed.heap;
        counted = IsCounted-behind k ps fd c u among slot live few freed.heap;
        less = total_behind k ps fd c u among slot live few freed.heap;
        shared = λ other. absurd (other one);
        last = λ e. subst (λ x. Freed k.heap bs (file_of k fd) 5 x) freed.returns freed;
      }
      | inr other ↦ record {
        after = behind fd k k.heap;
        returns = closes fuel fd k (behind fd k k.heap) slot (
            slot_closes fuel k.current fd k _ live
              (drop_kept fuel (file_of k fd) k (λ e. other (omega (arith, e, count)))));
        slot = empty k.heap;
        counted = IsCounted-behind k ps fd c u among slot live few k.heap;
        less = total_behind k ps fd c u among slot live few k.heap;
        shared = λ e. refl;
        last = λ one. absurd (other one);
      }
    ]
