-- ===== src/Os/Sync/Signals.antt =====
-- Who is woken by a signal: the case SignalEvent of OS::run in OS.cpp.
use csci_480_assignment.Base.{
  ℕ, ◌≡◌, refl, sym, ap, ◌∙◌, false, some, List, [], ◌∷◌, ◌++◌, arith, get_elem?, set,
  get_elem?-set_ne, update, get_elem?-set_self, lt_of_get_elem?, ok, inl, inr, Bool-cases, ◌==◌,
  ==→eq, not_==→ne, All, subst,
}
use csci_480_assignment.Pcb.{Pcb, ProcState}
use csci_480_assignment.Os.State.{Os, num_events}
use csci_480_assignment.Os.Scheduler.{enqueue_ready, clamp_priority}
use csci_480_assignment.Os.Sync.{signal_event, wake_all, id_of, out_of_range}

-- The index names a process, and one that is ready.
abbrev pub IsProcess : Os → ℕ → Type 0
IsProcess o w = (q : Pcb) × (get_elem? o.processes w ≡ some q)

abbrev pub IsReady : Os → ℕ → Type 0
IsReady o w = (q : Pcb) × (get_elem? o.processes w ≡ some q) × (q.state ≡ ProcState.ready)

-- From `o` to `o'` no process is lost, none that is ready is unready, and the events stay.
pub record Wakes (o o' : Os) : Type 0 where
  pub process : (w : ℕ) → IsProcess o w → IsProcess o' w
  pub ready : (w : ℕ) → IsReady o w → IsReady o' w
  pub events : o'.events ≡ o.events

Wakes-trans : (a b c : Os) → Wakes a b → Wakes b c → Wakes a c
Wakes-trans a b c f g = record {
  process = λ w h. g.process w (f.process w h);
  ready = λ w h. g.ready w (f.ready w h);
  events = g.events ∙ f.events;
}

-- The state behind enqueueReady_.
abbrev enqueued : Os → ℕ → Pcb → Os
enqueued o i p = record o {
  processes = set o.processes i (record p { state = ProcState.ready });
  ready =
      update o.ready (clamp_priority p.priority) (o.ready (clamp_priority p.priority) ++ i ∷ []);
}

enqueued-IsReady :
    (o : Os) (i : ℕ) (p : Pcb) → get_elem? o.processes i ≡ some p → IsReady (enqueued o i p) i
enqueued-IsReady o i p h = (
  record p { state = ProcState.ready },
  get_elem?-set_self o.processes i (record p { state = ProcState.ready })
      (lt_of_get_elem? o.processes i h),
  refl,
)

enqueued-Wakes :
    (o : Os) (i : ℕ) (p : Pcb) → get_elem? o.processes i ≡ some p → Wakes o (enqueued o i p)
enqueued-Wakes o i p h = record {
  process = λ w (q, e). elim (Bool-cases (i == w)) [
    | inl t ↦
        let (r, f, _) = enqueued-IsReady o i p h in
        (r, ap (get_elem? (enqueued o i p).processes) (sym (==→eq i w t)) ∙ f)
    | inr n ↦ (q, get_elem?-set_ne o.processes i w _ (not_==→ne i w n) ∙ e)
  ];
  ready = λ w (q, e, s). elim (Bool-cases (i == w)) [
    | inl t ↦ subst (IsReady (enqueued o i p)) (==→eq i w t) (enqueued-IsReady o i p h)
    | inr n ↦ (q, get_elem?-set_ne o.processes i w _ (not_==→ne i w n) ∙ e, s)
  ];
  events = refl;
}

enqueue_ready-Wakes :
    (o : Os) (i : ℕ)
    → IsProcess o i
    → (o' : Os) × (enqueue_ready i o ≡ (ok tt, o')) × Wakes o o' × IsReady o' i
unfolding enqueue_ready
enqueue_ready-Wakes o i (p, h) =
    (enqueued o i p, ground arith, enqueued-Wakes o i p h, enqueued-IsReady o i p h)

All-Wakes : (o o' : Os) (ws : List ℕ) → Wakes o o' → All (IsProcess o) ws → All (IsProcess o') ws
All-Wakes o o' [] f h = tt
All-Wakes o o' (w ∷ ws) f h = (f.process w h.0, All-Wakes o o' ws f h.1)

wake_all-Wakes :
    (ws : List ℕ) (o : Os)
    → All (IsProcess o) ws
    → (o' : Os) × (wake_all ws o ≡ (ok tt, o')) × Wakes o o' × All (IsReady o') ws
unfolding wake_all
wake_all-Wakes [] o h =
    (o, refl, record { process = λ w p. p; ready = λ w p. p; events = refl }, tt)
wake_all-Wakes (w ∷ ws) o h =
    let (o1, run, f, r) = enqueue_ready-Wakes o w h.0 in
    let (o2, rest, g, all) = wake_all-Wakes ws o1 (All-Wakes o o1 ws f h.1) in
    (o2, ground (arith, run, rest), Wakes-trans o o1 o2 f g, (g.ready w r, all))

-- A signal of an event for which processes wait makes all of them ready, and the process that
-- signals as well; none waits for the event any more.
pub signal_event_lem :
    (o : Os) (i w : ℕ) (p : Pcb) (rest : List ℕ)
    → get_elem? o.processes i ≡ some p
    → out_of_range num_events (id_of p) ≡ false
    → (o.events (id_of p)).wait_queue ≡ w ∷ rest
    → All (IsProcess o) (w ∷ rest)
    → (o' : Os) × (signal_event i o ≡ (ok tt, o'))
      × All (IsReady o') (w ∷ rest)
      × IsReady o' i
      × ((o'.events (id_of p)).wait_queue ≡ [])
unfolding signal_event
signal_event_lem o i w p rest h r e all =
    let k = id_of p in
    let o0 : Os = record o {
      events = update o.events k (record (o.events k) { wait_queue = [] });
    } in
    let (o1, woke, f, ready) = wake_all-Wakes (w ∷ rest) o0 all in
    let (o2, last, g, self) = enqueue_ready-Wakes o1 i (f.process i (p, h)) in
    (
      o2,
      ground (arith, woke, last, h, r, e),
      All-Ready o1 o2 (w ∷ rest) g ready,
      self,
      ap (λ v. (v k).wait_queue) (g.events ∙ f.events) ∙ ground arith,
    )
  where
    All-Ready : (a b : Os) (ws : List ℕ) → Wakes a b → All (IsReady a) ws → All (IsReady b) ws
    All-Ready a b [] f h = tt
    All-Ready a b (w ∷ ws) f h = (f.ready w h.0, All-Ready a b ws f h.1)
