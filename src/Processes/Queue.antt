-- ===== src/Processes/Queue.antt =====
-- The run queue: `schedule` and `yield` serve the processes in turn.
use mathlib.Core.List.{append-nil, append_assoc}
use lilac_os.Base.{
  ℕ, zero, suc, ◌+◌, ◌-◌, ◌≡◌, ◌≢◌, ◌∙◌, inl, inr, refl, sym, ap, subst, List, [], ◌∷◌, ◌++◌,
  length, Option, some, arith, if◌then◌else◌, ne→==, Among, Apart, Among-snoc,
}
use lilac_os.Lists.{list_add_tail}
use lilac_os.Lists.Rings.{IsRing, IsRing-add_tail}
use lilac_os.Lists.Removal.{IsRing-del}
use lilac_os.Kernel.{
  Kernel, K, give, given, ◌>>=◌, ◌>>◌, kernel_state, relink, set_proc, ProcState, ready, running,
  list_of,
}
use lilac_os.Processes.{
  find_ready, start_process, dispatch, resume_idle, yield, add_process, is_ready,
}

-- The nodes of processes.
abbrev pub nodes : List ℕ → List ℕ
nodes [] = []
nodes (p ∷ ps) = list_of p ∷ nodes ps

nodes-append : (ps qs : List ℕ) → nodes (ps ++ qs) ≡ nodes ps ++ nodes qs
nodes-append [] qs = refl
nodes-append (p ∷ ps) qs = ap (◌∷◌ (list_of p)) (nodes-append ps qs)

Apart-nodes : (p q : ℕ) (ps : List ℕ) → Apart (list_of p) (nodes ps) → Among q ps → p ≢ q
Apart-nodes p q [] h m e = elim m [ ]
Apart-nodes p q (x ∷ ps) (ne, h) (inl m) e = ne (omega (arith, e, m))
Apart-nodes p q (x ∷ ps) (ne, h) (inr m) e = Apart-nodes p q ps h m e

-- Between two turns `idle` runs, and the queue holds the processes `ps`, all of them ready.
pub record IsQueue (k : Kernel) (ps : List ℕ) : Type 0 where
  pub idles : k.current ≡ k.idle
  pub ring : IsRing k.links (list_of k.idle) (nodes ps)
  pub waits : (p : ℕ) → Among p ps → (k.procs p).state ≡ ready
  pub real : (p : ℕ) → Among p ps → p ≢ 0

-- A turn of a process that yields at once: the process that ran, or 0 where none is ready.
pub turn : ℕ → K ℕ
turn fuel = do
  found ← dispatch fuel
  k ← kernel_state
  if found then (do yield; resume_idle; give k.current) else give 0

-- The process `p` has had a turn: it ran, and the queue is `ps`.
pub record Turned (k : Kernel) (p : ℕ) (ps : List ℕ) (result : Option (ℕ × Kernel)) : Type 0 where
  pub after : Kernel
  pub returns : result ≡ some (p, after)
  pub queue : IsQueue after ps
  pub idle : after.idle ≡ k.idle

abbrev state_of : Kernel → ℕ → ProcState
state_of k p = (k.procs p).state

module _ (k : Kernel) (p : ℕ) (ps : List ℕ) (q : IsQueue k (p ∷ ps)) where
  found : (fuel : ℕ) → find_ready (suc fuel) k (k.links.next (list_of k.idle)) ≡ some p
  unfolding find_ready is_ready
  found fuel =
      let self : p + 440 - 440 ≡ p = omega arith in
      rw (
        q.ring.walk.0,
        ne→== (list_of p) (list_of k.idle) (λ e. q.ring.distinct.0.0 (sym e)),
        self,
        q.waits p (inl refl),
      )

  p-ne : p ≢ k.idle
  p-ne e = q.ring.distinct.0.0 (omega (arith, e))

  abbrev resumed : Kernel
  unfolding start_process
  resumed =
      let started = start_process p k in
      let yielded = set_proc p (λ x. record x { state = ready }) started in
      let queued = relink (list_add_tail (list_of p) (list_of k.idle)) yielded in
      set_proc k.idle (λ x. record x { state = running }) (record queued { current = k.idle })

  turn_runs : (fuel : ℕ) → turn (suc fuel) k ≡ some (p, resumed)
  unfolding turn dispatch given start_process yield add_process resume_idle
  turn_runs fuel = rw (turn, dispatch, ◌>>=◌, found fuel, given, ne→== p 0 (q.real p (inl refl)))

  last_ready : state_of resumed p ≡ ready
  unfolding start_process
  last_ready = ground (arith, p-ne)

  -- Other processes than `p` and `idle` keep their states.
  others_same : (x : ℕ) → x ≢ p → x ≢ k.idle → state_of resumed x ≡ state_of k x
  unfolding start_process
  others_same x ne nf = ground arith

  IsRing-after : IsRing resumed.links (list_of k.idle) (nodes (ps ++ p ∷ []))
  unfolding start_process
  IsRing-after = subst (IsRing resumed.links (list_of k.idle)) (sym (nodes-append ps (p ∷ []))) (
      IsRing-add_tail (IsRing-del [] (list_of p) (nodes ps) q.ring) (list_of p)
        ((λ e. q.ring.distinct.0.0 (sym e)), q.ring.distinct.1.0))

  waits_after : (x : ℕ) → Among x (ps ++ p ∷ []) → state_of resumed x ≡ ready
  waits_after x a = elim (Among-snoc x ps p a) [
    | inl m ↦
        others_same x (λ e. Apart-nodes p x ps q.ring.distinct.1.0 m (sym e))
          (λ e. Apart-nodes k.idle x ps q.ring.distinct.0.1 m (sym e))
        ∙ q.waits x (inr m)
    | inr e ↦ ap (state_of resumed) e ∙ last_ready
  ]

  real_after : (x : ℕ) → Among x (ps ++ p ∷ []) → x ≢ 0
  real_after x a = elim (Among-snoc x ps p a) [
    | inl m ↦ q.real x (inr m)
    | inr e ↦ λ f. q.real p (inl refl) (sym e ∙ f)
  ]

-- The first process of the queue runs, yields, and is last in the queue.
pub turn_lem :
    (fuel : ℕ) (k : Kernel) (p : ℕ) (ps : List ℕ)
    → IsQueue k (p ∷ ps)
    → Turned k p (ps ++ p ∷ []) (turn (suc fuel) k)
unfolding resumed
turn_lem fuel k p ps q = record {
  after = resumed k p ps q;
  returns = turn_runs k p ps q fuel;
  queue = record {
    idles = refl;
    ring = IsRing-after k p ps q;
    waits = waits_after k p ps q;
    real = real_after k p ps q;
  };
  idle = refl;
}

-- `n` turns, one behind the other, and the processes that ran.
pub turns : ℕ → ℕ → K (List ℕ)
turns fuel zero = give []
turns fuel (suc n) = do ran ← turn fuel; rest ← turns fuel n; give (ran ∷ rest)

-- Turns for all the processes `ps` in front.
pub turns_lem :
    (fuel : ℕ) (ps qs : List ℕ) (k : Kernel)
    → IsQueue k (ps ++ qs)
    → (after : Kernel) × (turns (suc fuel) (length ps) k ≡ some (ps, after))
      × IsQueue after (qs ++ ps)
unfolding turns
turns_lem fuel [] qs k q = (k, refl, subst (IsQueue k) (sym (append-nil qs)) q)
turns_lem fuel (p ∷ ps) qs k q =
    let first = turn_lem fuel k p (ps ++ qs) q in
    let behind : (ps ++ qs) ++ p ∷ [] ≡ ps ++ (qs ++ p ∷ []) = append_assoc ps qs (p ∷ []) in
    let (after, runs, rest) =
      turns_lem fuel ps (qs ++ p ∷ []) first.after
        (subst (IsQueue first.after) behind first.queue) in
    (
      after,
      rw (turns, ◌>>=◌, first.returns, ◌>>=◌, runs),
      subst (IsQueue after) (append_assoc qs (p ∷ []) ps) rest,
    )

-- Where idle runs and the queue holds ready processes, as many turns as there are processes,
-- each a dispatch, a yield and the return to idle, run every process of the queue once, in the
-- queue's order, and leave the queue as it was.
pub turns-round :
    (fuel : ℕ) (k : Kernel) (ps : List ℕ)
    → IsQueue k ps
    → (after : Kernel) × (turns (suc fuel) (length ps) k ≡ some (ps, after)) × IsQueue after ps
turns-round fuel k ps q = turns_lem fuel ps [] k (subst (IsQueue k) (sym (append-nil ps)) q)
