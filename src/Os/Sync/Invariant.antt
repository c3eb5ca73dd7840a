-- ===== src/Os/Sync/Invariant.antt =====
-- A free lock has no waiters, and a signaled event has none: what the cases AcquireLock, ReleaseLock,
-- WaitEvent and SignalEvent of OS::run in OS.cpp do to that.
use csci_480_assignment.Base.{
  ℕ, ◌≡◌, refl, ap, inl, inr, ◌⊎◌, Option-cases, true, false, List, [], ◌∷◌, arith, Action, Keeps,
  get_elem?, update,
}
use csci_480_assignment.Os.State.{Os}
use csci_480_assignment.Os.Scheduler.{enqueue_ready}
use csci_480_assignment.Os.Sync.{
  id_of, put_event, acquire_lock, hand_over, release_lock, wait_event, signal_event, wake_all,
}

pub record IsSynced (o : Os) : Type 0 where
  pub locks : (l : ℕ) → (o.locks l).held ≡ false → (o.locks l).wait_queue ≡ []
  pub events : (e : ℕ) → (o.events e).signaled ≡ true → (o.events e).wait_queue ≡ []

-- An action that touches neither locks nor events.
pub Keeps-same :
    {A : Type 0} (m : Action Os A)
    → ((o : Os) → (m o).1.locks ≡ o.locks)
    → ((o : Os) → (m o).1.events ≡ o.events)
    → Keeps IsSynced m
Keeps-same m l e = record {
  keeps = λ o v. record {
    locks = λ k h. rw (l o) (v.locks k (rw (l o) at h));
    events = λ k h. rw (e o) (v.events k (rw (e o) at h));
  };
}

enqueue_ready-locks : (i : ℕ) (o : Os) → (enqueue_ready i o).1.locks ≡ o.locks
unfolding enqueue_ready
enqueue_ready-locks i o = ground arith

enqueue_ready-events : (i : ℕ) (o : Os) → (enqueue_ready i o).1.events ≡ o.events
unfolding enqueue_ready
enqueue_ready-events i o = ground arith

acquire_lock-IsSynced : (i : ℕ) (o : Os) → IsSynced o → IsSynced (acquire_lock i o).1
unfolding acquire_lock enqueue_ready
acquire_lock-IsSynced i o v = record {
  locks = λ l h. ground (arith, v.locks l);
  events = λ e h. ground (arith, v.events e);
}

wait_event-IsSynced : (i : ℕ) (o : Os) → IsSynced o → IsSynced (wait_event i o).1
unfolding wait_event enqueue_ready
wait_event-IsSynced i o v = record {
  locks = λ l h. ground (arith, v.locks l);
  events = λ e h. ground (arith, v.events e);
}

release_lock-IsSynced : (i : ℕ) (o : Os) → IsSynced o → IsSynced (release_lock i o).1
unfolding release_lock hand_over enqueue_ready
release_lock-IsSynced i o v = record {
  locks = λ l h. ground (arith, v.locks l);
  events = λ e h. ground (arith, v.events e);
}

wake_all-locks : (is : List ℕ) (o : Os) → (wake_all is o).1.locks ≡ o.locks
unfolding wake_all
wake_all-locks [] o = refl
wake_all-locks (i ∷ is) o =
    ground (arith, enqueue_ready-locks i o, wake_all-locks is (enqueue_ready i o).1)

wake_all-events : (is : List ℕ) (o : Os) → (wake_all is o).1.events ≡ o.events
unfolding wake_all
wake_all-events [] o = refl
wake_all-events (i ∷ is) o =
    ground (arith, enqueue_ready-events i o, wake_all-events is (enqueue_ready i o).1)

-- The state in which the waiters of the event `e` are woken.
abbrev emptied : ℕ → Os → Os
emptied e o = record o { events = update o.events e (record (o.events e) { wait_queue = [] }) }

List-cases : (xs : List ℕ) → (xs ≡ []) ⊎ ((y : ℕ) × (ys : List ℕ) × (xs ≡ y ∷ ys))
List-cases [] = inl refl
List-cases (x ∷ xs) = inr (x, xs, refl)

signal_event-locks : (i : ℕ) (o : Os) → (signal_event i o).1.locks ≡ o.locks
unfolding signal_event
signal_event-locks i o = elim (Option-cases (get_elem? o.processes i)) [
  | inl e ↦ ground arith
  | inr (p, e) ↦ elim (List-cases (o.events (id_of p)).wait_queue) [
    | inl q ↦ ground (
      arith,
      enqueue_ready-locks i o,
      enqueue_ready-locks i
          (put_event (id_of p) (record (o.events (id_of p)) { signaled = true }) o).1,
    )
    | inr (w, rest, q) ↦ ground (
      arith,
      enqueue_ready-locks i o,
      wake_all-locks (w ∷ rest) (emptied (id_of p) o),
      enqueue_ready-locks i (wake_all (w ∷ rest) (emptied (id_of p) o)).1,
    )
  ]
]

signal_event-events :
    (i : ℕ) (o : Os)
    → IsSynced o
    → (e : ℕ) → ((signal_event i o).1.events e).signaled ≡ true
    → ((signal_event i o).1.events e).wait_queue ≡ []
unfolding signal_event
signal_event-events i o v k h = elim (Option-cases (get_elem? o.processes i)) [
  | inl e ↦ ground (arith, v.events k)
  | inr (p, e) ↦ elim (List-cases (o.events (id_of p)).wait_queue) [
    | inl q ↦ ground (
      arith,
      v.events k,
      enqueue_ready-events i o,
      enqueue_ready-events i
          (put_event (id_of p) (record (o.events (id_of p)) { signaled = true }) o).1,
    )
    | inr (w, rest, q) ↦ ground (
      arith,
      v.events k,
      enqueue_ready-events i o,
      wake_all-events (w ∷ rest) (emptied (id_of p) o),
      enqueue_ready-events i (wake_all (w ∷ rest) (emptied (id_of p) o)).1,
    )
  ]
]

-- After each case of the switch for locks and events, a lock that is not held has no waiters, and
-- an event that is signaled has none, if it was so before.
pub sync-IsSynced :
    (i : ℕ) (o : Os)
    → IsSynced o
    → IsSynced (acquire_lock i o).1
      × IsSynced (release_lock i o).1
      × IsSynced (wait_event i o).1
      × IsSynced (signal_event i o).1
sync-IsSynced i o v = (
  acquire_lock-IsSynced i o v,
  release_lock-IsSynced i o v,
  wait_event-IsSynced i o v,
  record {
    locks = λ l h.
        let same = λ (k : ℕ). ap (λ f. f k) (signal_event-locks i o) in
        ground (arith, same l, v.locks l);
    events = signal_event-events i o v;
  },
)
