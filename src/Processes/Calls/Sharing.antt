-- ===== src/Processes/Calls/Sharing.antt =====
-- The open files of a process that is forked: the loop of `sys_fork` over the descriptors.
use lilac_os.Base.{
  ℕ, zero, suc, ◌+◌, ◌^◌, ◌%◌, ◌≤◌, ◌<◌, ◌≡◌, ◌≢◌, ◌∙◌, inl, inr, refl, sym, ap, subst, List, ◌∷◌,
  some, arith, ◌==◌, if◌then◌else◌, eq→==, ne→==, eq-cases, update, update_ne, Among, Apart,
  Apart-ne,
}
use lilac_os.Kernel.{Kernel, set_proc}
use lilac_os.Descriptors.{nr_open}
use lilac_os.Descriptors.Counts.{
  same, same_self, same_ne, uses, uses-ext, held, total, total_cons, total_same, held-total,
  IsCounted,
}
use lilac_os.Processes.Calls.{share_files}

-- The file at the slot `i` of the current process.
abbrev source : Kernel → ℕ → ℕ
source k i = (k.procs k.current).files i

-- The state after one round.
abbrev shared_slot : ℕ → ℕ → Kernel → Kernel
shared_slot child i k =
    let file : ℕ = source k i in
    record (set_proc child (λ p. record p { files = update p.files i file }) k) {
      files =
          if file == 0
          then k.files
          else update k.files file
              (record (k.files file) { count = ((k.files file).count + 1) % 2 ^ 32 });
    }

share_round :
    (rounds child i : ℕ) (k : Kernel)
    → share_files (suc rounds) child i k ≡ share_files rounds child (i + 1) (shared_slot child i k)
unfolding share_files
share_round rounds child i k = elim (eq-cases (source k i) 0) [
  | inl e ↦ rw (eq→== (source k i) 0 e)
  | inr ne ↦ rw (ne→== (source k i) 0 ne)
]

slot_count :
    (child i f : ℕ) (k : Kernel)
    → f ≢ 0
    → (k.files f).count + same (source k i) f < 2 ^ 32
    → ((shared_slot child i k).files f).count ≡ (k.files f).count + same (source k i) f
slot_count child i f k ne h = elim (eq-cases (source k i) f) [
  | inl e ↦ let one : same (source k i) f ≡ 1 = rw (e, same_self f) in ground (arith, one, e)
  | inr other ↦
      let none : same (source k i) f ≡ 0 = same_ne (source k i) f other in ground (arith, none)
]

slot_self : (child i : ℕ) (k : Kernel) → ((shared_slot child i k).procs child).files i ≡ source k i
slot_self child i k = ground arith

slot_ne :
    (child i j : ℕ) (k : Kernel)
    → i ≢ j
    → ((shared_slot child i k).procs child).files j ≡ (k.procs child).files j
slot_ne child i j k ne = ground arith

-- What the rounds from the slot `i` on leave.
pub record Shared (k after : Kernel) (child rounds i : ℕ) : Type 0 where
  pub slots : (j : ℕ) → i ≤ j → j < i + rounds → (after.procs child).files j ≡ source k j
  pub below : (j : ℕ) → j < i → (after.procs child).files j ≡ (k.procs child).files j
  pub others : (p : ℕ) → p ≢ child → after.procs p ≡ k.procs p
  pub counts :
      (f : ℕ)
      → f ≢ 0
      → (k.files f).count + uses (k.procs k.current).files f rounds i < 2 ^ 32
      → (after.files f).count ≡ (k.files f).count + uses (k.procs k.current).files f rounds i
  pub heap : after.heap ≡ k.heap

share_rounds :
    (rounds child i : ℕ) (k : Kernel)
    → k.current ≢ child
    → (after : Kernel) × (share_files rounds child i k ≡ some (tt, after))
      × Shared k after child rounds i
unfolding share_files uses
share_rounds zero child i k ne = (
  k,
  refl,
  record {
    slots = λ j p q. absurd (omega (arith, p, q));
    below = λ j p. refl;
    others = λ p d. refl;
    counts = λ f p q. omega arith;
    heap = refl;
  },
)
share_rounds (suc rounds) child i k ne =
    let first = shared_slot child i k in
    let (after, returns, rest) = share_rounds rounds child (i + 1) first ne in
    let kept : first.procs k.current ≡ k.procs k.current =
      update_ne k.procs child k.current _ (λ e. ne (sym e)) in
    (
      after,
      share_round rounds child i k ∙ returns,
      record {
        slots = λ j p q. elim (eq-cases i j) [
          | inl e ↦
              subst (λ x. (after.procs child).files x ≡ source k x) e
                (rest.below i (omega arith) ∙ slot_self child i k)
          | inr other ↦
              rest.slots j (omega (arith, p, other)) (omega (arith, q)) ∙ ap (λ x. x.files j) kept
        ];
        below =
            λ j p. rest.below j (omega (arith, p)) ∙ slot_ne child i j k (λ e. omega (arith, p, e));
        others = λ p d. rest.others p d ∙ update_ne k.procs child p _ (λ e. d (sym e));
        counts = λ f p q.
            let tail : uses (first.procs k.current).files f rounds (i + 1)
                ≡ uses (k.procs k.current).files f rounds (i + 1) =
              ap (λ x. uses x.files f rounds (i + 1)) kept in
            let head = slot_count child i f k p (omega (arith, q)) in
            let all = rest.counts f p (omega (arith, tail, head, q)) in
            omega (arith, tail, head, all);
        heap = rest.heap;
      },
    )

-- Where the count of each open file is the number of descriptors of all processes that refer
-- to it, and there are fewer than 2^32 of them with the new process, the loop of sys_fork
-- gives the new process the descriptors of the current one, and the counts are again the
-- numbers of descriptors.
pub share_files-IsCounted :
    (child : ℕ) (k : Kernel) (ps : List ℕ)
    → IsCounted k ps
    → Among k.current ps
    → Apart child ps
    → ((f : ℕ) → f ≢ 0 → total k f ps + held k f k.current < 2 ^ 32)
    → (after : Kernel) × (share_files nr_open child 0 k ≡ some (tt, after))
      × ((j : ℕ) → j < nr_open → (after.procs child).files j ≡ (k.procs k.current).files j)
      × IsCounted after (child ∷ ps)
share_files-IsCounted child k ps c among apart room =
    let (after, returns, shared) =
      share_rounds nr_open child 0 k (λ e. Apart-ne child k.current ps apart among (sym e)) in
    let slots : (j : ℕ) → j < nr_open → (after.procs child).files j ≡ source k j =
      λ j h. shared.slots j (omega arith) (omega (arith, h)) in
    let child_held : (f : ℕ) → held after f child ≡ held k f k.current = λ f.
      uses-ext (after.procs child).files (k.procs k.current).files f nr_open 0
        (λ j p q. slots j (omega (arith, q))) in
    let rest : (f : ℕ) → total after f ps ≡ total k f ps = λ f. total_same k after f ps (λ p a.
      ap (λ x. uses x.files f nr_open 0)
        (shared.others p (λ e. Apart-ne child p ps apart a (sym e)))) in
    (
      after,
      returns,
      slots,
      record {
        counts = λ f ne pos.
            let all = total_cons after f child ps in
            let own = child_held f in
            let other = rest f in
            let some_held = held-total k f k.current ps among in
            let before = c.counts f ne (omega (arith, all, own, other, some_held, pos)) in
            let now = shared.counts f ne (omega (arith, before, room f ne)) in
            omega (arith, all, own, other, before, now);
      },
    )
