-- ===== src/Os/Sync/Locks.antt =====
-- Who holds a lock: the cases AcquireLock and ReleaseLock of OS::run in OS.cpp.
use csci_480_assignment.Base.{
  ℕ, ◌≡◌, ◌≢◌, true, false, some, List, [], ◌∷◌, ◌++◌, arith, get_elem?, set, get_elem?-set_ne,
  get_elem?-set_self, sym, lt_of_get_elem?,
}
use csci_480_assignment.Pcb.{Pcb, ProcState}
use csci_480_assignment.Os.State.{Os, num_locks}
use csci_480_assignment.Os.Scheduler.{enqueue_ready}
use csci_480_assignment.Os.Sync.{acquire_lock, release_lock, hand_over, id_of, out_of_range}

-- A free lock goes to the process that asks; a held one keeps its owner, and the process waits at
-- the end of the queue and is not ready. No other lock changes.
pub acquire_lock_lem :
    (o : Os) (i : ℕ) (p : Pcb)
    → get_elem? o.processes i ≡ some p
    → out_of_range num_locks (id_of p) ≡ false
    → let l = id_of p in
      let k = o.locks l in
      let o' = (acquire_lock i o).1 in
      (k.held ≡ false → o'.locks l ≡ record k { held = true; owner_pid = p.pid })
      × (k.held ≡ true
          → (o'.locks l ≡ record k { wait_queue = k.wait_queue ++ i ∷ [] }) × (o'.ready ≡ o.ready))
      × ((j : ℕ) → l ≢ j → o'.locks j ≡ o.locks j)
unfolding acquire_lock enqueue_ready
acquire_lock_lem o i p h r = (λ f. ground arith, λ t. ground arith, λ j n. ground arith)

-- A release by a process that does not own the lock changes no lock.
pub release_lock_other :
    (o : Os) (i : ℕ) (p : Pcb)
    → get_elem? o.processes i ≡ some p
    → (o.locks (id_of p)).owner_pid ≢ p.pid
    → (release_lock i o).1.locks ≡ o.locks
unfolding release_lock enqueue_ready
release_lock_other o i p h n = ground arith

-- A release by the owner gives the lock to the process that has waited longest, which is ready
-- again, and keeps the others waiting in their order.
pub release_lock_next :
    (o : Os) (i w : ℕ) (p q : Pcb) (rest : List ℕ)
    → get_elem? o.processes i ≡ some p
    → get_elem? o.processes w ≡ some q
    → i ≢ w
    → out_of_range num_locks (id_of p) ≡ false
    → (o.locks (id_of p)).held ≡ true
    → (o.locks (id_of p)).owner_pid ≡ p.pid
    → (o.locks (id_of p)).wait_queue ≡ w ∷ rest
    → let o' = (release_lock i o).1 in
      (o'.locks (id_of p) ≡ record { held = true; owner_pid = q.pid; wait_queue = rest })
      × (get_elem? o'.processes w ≡ some (record q { state = ProcState.ready }))
unfolding release_lock hand_over enqueue_ready
release_lock_next o i w p q rest h hw ne r t own e = ground (
  arith,
  get_elem?-set_ne o.processes w i (record q { state = ProcState.ready }) (λ x. ne (sym x)),
  get_elem?-set_self o.processes w (record q { state = ProcState.ready })
      (lt_of_get_elem? o.processes w hw),
  get_elem?-set_ne (set o.processes w (record q { state = ProcState.ready })) i w
      (record p { state = ProcState.ready }) ne,
)
