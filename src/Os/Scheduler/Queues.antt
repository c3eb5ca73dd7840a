-- ===== src/Os/Scheduler/Queues.antt =====
-- enqueueReady_ and pickNextReady_ of OS.cpp.
use csci_480_assignment.Base.{
  leb, leb→le, not_leb→lt, ◌≢◌, get_elem?-set_self, get_elem?-set_ne, lt_of_get_elem?, ℕ, zero, suc,
  ◌+◌, ◌≤◌, ◌<◌, ◌≡◌, refl, none, some, List, [], ◌∷◌, ◌++◌, arith, update, ok, get_elem?, set, ◌⊎◌,
  inl, inr, sym, ap, ◌∙◌, Bool-cases, ◌==◌, ==→eq, not_==→ne,
}
use csci_480_assignment.Pcb.{Pcb, ProcState}
use csci_480_assignment.Os.State.{Os}
use csci_480_assignment.Os.Scheduler.{clamp_priority, enqueue_ready, pick_from, pick_next_ready}

pub le_or_lt : (a b : ℕ) → (a ≤ b) ⊎ (b < a)
le_or_lt a b = elim (Bool-cases (leb a b)) [
  | inl t ↦ inl (leb→le a b t)
  | inr f ↦ inr (not_leb→lt a b f)
]

-- From `o` to `o'` the process at `i`, which was `p`, has become ready and stands at the end of the
-- ready queue `k`; nothing else has changed.
pub record Queued (o o' : Os) (i : ℕ) (p : Pcb) (k : ℕ) : Type 0 where
  pub lowest : p.priority < 1 → k ≡ 1
  pub own : 1 ≤ p.priority → p.priority ≤ 32 → k ≡ p.priority
  pub highest : 32 < p.priority → k ≡ 32
  pub at : get_elem? o'.processes i ≡ some (record p { state = ProcState.ready })
  pub others : (j : ℕ) → i ≢ j → get_elem? o'.processes j ≡ get_elem? o.processes j
  pub queue : o'.ready k ≡ o.ready k ++ i ∷ []
  pub queues : (j : ℕ) → k ≢ j → o'.ready j ≡ o.ready j
  pub rest : record o' { processes = o.processes; ready = o.ready } ≡ o

pub Queued-in_range : (o o' : Os) (i : ℕ) (p : Pcb) (k : ℕ) → Queued o o' i p k → (1 ≤ k) × (k ≤ 32)
Queued-in_range o o' i p k q = elim (le_or_lt p.priority 32) [
  | inr high ↦ let e = q.highest high in (omega arith, omega arith)
  | inl low ↦ elim (le_or_lt 1 p.priority) [
    | inl some_priority ↦ let e = q.own some_priority low in (omega arith, omega arith)
    | inr none_priority ↦ let e = q.lowest none_priority in (omega arith, omega arith)
  ]
]

-- A process that its index names is marked ready and goes to the end of the queue of its priority,
-- or of 1 or 32 where the priority is below or above these; nothing else changes.
pub enqueue_ready_lem :
    (o : Os) (i : ℕ) (p : Pcb)
    → get_elem? o.processes i ≡ some p
    → (o' : Os) × (k : ℕ) × (enqueue_ready i o ≡ (ok tt, o')) × Queued o o' i p k
unfolding enqueue_ready
enqueue_ready_lem o i p h =
    let ready : Pcb = record p { state = ProcState.ready } in
    let k = clamp_priority p.priority in
    (
      record o {
        processes = set o.processes i ready;
        ready = update o.ready k (o.ready k ++ i ∷ []);
      },
      k,
      ground arith,
      record {
        lowest = λ l. ground arith;
        own = λ l m. ground arith;
        highest = λ m. ground arith;
        at = get_elem?-set_self o.processes i ready (lt_of_get_elem? o.processes i h);
        others = λ j n. get_elem?-set_ne o.processes i j ready n;
        queue = ground arith;
        queues = λ j n. ground arith;
        rest = refl;
      },
    )

List-cases : (xs : List ℕ) → (xs ≡ []) ⊎ ((y : ℕ) × (ys : List ℕ) × (xs ≡ y ∷ ys))
List-cases [] = inl refl
List-cases (x ∷ xs) = inr (x, xs, refl)

-- The queues from `lo` up to `hi` are empty.
abbrev pub NoneReady : Os → ℕ → ℕ → Type 0
NoneReady o lo hi = (k : ℕ) → lo ≤ k → k < hi → o.ready k ≡ []

-- The first queue from `lo` up to `hi` that is not empty is `q`, with `i` at its front.
pub record FirstReady (o : Os) (lo hi i : ℕ) (rest : List ℕ) (q : ℕ) : Type 0 where
  pub above : lo ≤ q
  pub below : q < hi
  pub front : o.ready q ≡ i ∷ rest
  pub first : NoneReady o lo q

-- What picking from the queues of those priorities does.
abbrev pub Picks : (n prio hi : ℕ) → Os → Type 0
Picks n prio hi o =
    ((pick_from n prio o ≡ (ok none, o)) × NoneReady o prio hi)
    ⊎ ((q : ℕ) × (i : ℕ) × (rest : List ℕ) × FirstReady o prio hi i rest q
        × (pick_from n prio o ≡ (ok (some i), record o { ready = update o.ready q rest })))

NoneReady-cons :
    (o : Os) (lo hi : ℕ) → o.ready lo ≡ [] → NoneReady o (lo + 1) hi → NoneReady o lo hi
NoneReady-cons o lo hi e h k a b = elim (Bool-cases (lo == k)) [
  | inl t ↦ sym (ap o.ready (==→eq lo k t)) ∙ e
  | inr f ↦ let ne = not_==→ne lo k f in h k (omega arith) b
]

pick_from-Picks : (n prio hi : ℕ) (o : Os) → prio + n ≡ hi → Picks n prio hi o
unfolding pick_from
pick_from-Picks zero prio hi o e = inl (refl, λ k a b. absurd (omega arith))
pick_from-Picks (suc n) prio hi o e = elim (List-cases (o.ready prio)) [
  | inr (i, rest, h) ↦ inr (
    prio,
    i,
    rest,
    record {
      above = omega arith;
      below = omega arith;
      front = h;
      first = λ k a b. absurd (omega arith);
    },
    rw (h, pick_from),
  )
  | inl h ↦ elim (pick_from-Picks n (prio + 1) hi o (omega arith)) [
    | inl (run, none_left) ↦ inl (rw (h, pick_from) run, NoneReady-cons o prio hi h none_left)
    | inr (q, i, rest, f, run) ↦ inr (
      q,
      i,
      rest,
      record {
        above = let above = f.above in omega arith;
        below = f.below;
        front = f.front;
        first = NoneReady-cons o prio q h f.first;
      },
      rw (h, pick_from) run,
    )
  ]
]

-- Picking takes the front of the first queue, from priority 1 to 32, that is not empty, and
-- nothing else changes; where they are all empty it answers none and changes nothing.
pub pick_next_ready_lem :
    (o : Os)
    → ((pick_next_ready o ≡ (ok none, o)) × NoneReady o 1 33)
      ⊎ ((q : ℕ) × (i : ℕ) × (rest : List ℕ) × FirstReady o 1 33 i rest q
          × (pick_next_ready o ≡ (ok (some i), record o { ready = update o.ready q rest })))
unfolding pick_next_ready
pick_next_ready_lem o = pick_from-Picks 32 1 33 o refl
