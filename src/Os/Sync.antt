-- ===== src/Os/Sync.antt =====
-- Shared memory, locks and events: the cases of the switch in OS::run, and OS::cleanupProcess_.
pub mod Invariant
pub mod Locks
pub mod Signals
use csci_480_assignment.Base.{
  ℕ, ◌+◌, ◌/◌, ◌^◌, Bool, true, false, ◌&&◌, ◌||◌, Option, none, some, List, [], ◌∷◌, ◌++◌,
  get_elem?, update, length, ltb, leb, ◌==◌, if◌then◌else◌, Action, ok, ◌>>=◌, ◌>>◌, pure, gets,
  modify, or_throw, when, for_range, bad_index, erase,
}
use csci_480_assignment.Word.{u32, add32}
use csci_480_assignment.Mmu
use csci_480_assignment.Mmu.{page_size}
use csci_480_assignment.Pcb.{Pcb, ProcState}
use csci_480_assignment.Os.State.{
  Os, Lock, Event, on_mmu, get_process, put_process, modify_process, set_owner, num_locks,
  num_events, shared_mem_vbase,
}
use csci_480_assignment.Os.Scheduler.{enqueue_ready}
use csci_480_assignment.Os.Heap.{set_process_reg}

-- `id < 0 || id >= n` of an int, where `id` is its bit pattern.
abbrev pub out_of_range : ℕ → ℕ → Bool
out_of_range n id = leb (2 ^ 31) id || leb n id

-- static_cast<int>(p.pcb.regs[1])
abbrev pub id_of : Pcb → ℕ
id_of p = u32 (p.regs 1)

abbrev pub put_lock : ℕ → Lock → Action Os (Unit {0})
put_lock l v = modify (λ o. record o { locks = update o.locks l v })

abbrev pub put_event : ℕ → Event → Action Os (Unit {0})
put_event e v = modify (λ o. record o { events = update o.events e v })

-- case Trap::MapSharedMem
unfoldable pub map_shared_mem : ℕ → Action Os (Unit {0})
map_shared_mem i = do
  p ← get_process i
  o ← gets (λ o. o)
  when (ltb (u32 (p.regs 1)) (2 ^ 31) && ltb (u32 (p.regs 1)) (length o.shared_phys_pages)) (do
    pp ← or_throw (get_elem? o.shared_phys_pages (u32 (p.regs 1))) bad_index
    let (table, vaddr) =
        Mmu.map_page_into p.page_table (add32 (shared_mem_vbase / page_size) (u32 (p.regs 1))) pp
    put_process i (set_process_reg (u32 (p.regs 15)) vaddr (record p { page_table = table })))
  enqueue_ready i

-- case Trap::AcquireLock
unfoldable pub acquire_lock : ℕ → Action Os (Unit {0})
acquire_lock i = do
  p ← get_process i
  o ← gets (λ o. o)
  let l = id_of p
  let k = o.locks l
  if out_of_range num_locks l
      then enqueue_ready i
      else if k.held
      then (do
        put_process i (record p { state = ProcState.waiting_lock; waiting_lock_id = some l })
        modify (λ o. record o {
          locks = update o.locks l (record k { wait_queue = k.wait_queue ++ i ∷ [] });
        }))
      else (do put_lock l (record k { held = true; owner_pid = p.pid }); enqueue_ready i)

-- A lock that is given up: the first waiter gets it, or it is free.
unfoldable pub hand_over : ℕ → Action Os (Unit {0})
hand_over l = do
  o ← gets (λ o. o)
  let k = o.locks l
  elim k.wait_queue [
    | [] ↦ put_lock l (record k { held = false; owner_pid = 0 })
    | next ∷ rest ↦ (do
      p ← get_process next
      put_lock l (record k { owner_pid = p.pid; wait_queue = rest })
      enqueue_ready next)
  ]

-- case Trap::ReleaseLock
unfoldable pub release_lock : ℕ → Action Os (Unit {0})
release_lock i = do
  p ← get_process i
  o ← gets (λ o. o)
  let l = id_of p
  let k = o.locks l
  if out_of_range num_locks l then pure tt else when (k.held && k.owner_pid == p.pid) (hand_over l)
  enqueue_ready i

-- case Trap::WaitEvent
unfoldable pub wait_event : ℕ → Action Os (Unit {0})
wait_event i = do
  p ← get_process i
  o ← gets (λ o. o)
  let e = id_of p
  let v = o.events e
  if out_of_range num_events e
      then enqueue_ready i
      else if v.signaled
      then (do put_event e (record v { signaled = false }); enqueue_ready i)
      else (do
        put_process i (record p { state = ProcState.waiting_event; waiting_event_id = some e })
        put_event e (record v { wait_queue = v.wait_queue ++ i ∷ [] }))

-- The loop that wakes every waiter, in the order of the queue.
unfoldable pub wake_all : List ℕ → Action Os (Unit {0})
wake_all [] = pure tt
wake_all (i ∷ rest) = do enqueue_ready i; wake_all rest

-- case Trap::SignalEvent
unfoldable pub signal_event : ℕ → Action Os (Unit {0})
signal_event i = do
  p ← get_process i
  o ← gets (λ o. o)
  let e = id_of p
  let v = o.events e
  if out_of_range num_events e then pure tt else elim v.wait_queue [
    | [] ↦ put_event e (record v { signaled = true })
    | w ∷ rest ↦ (do put_event e (record v { wait_queue = [] }); wake_all (w ∷ rest))
  ]
  enqueue_ready i

-- The first loop of cleanupProcess_: every physical page of the pid is freed.
unfoldable pub free_owned : ℕ → List (ℕ × (ℕ × ℕ)) → Action Os (Unit {0})
free_owned pid [] = pure tt
free_owned pid (e ∷ es) = do
  when (e.1.0 == pid) (do on_mmu (Mmu.free_phys_page e.0); set_owner (erase e.0))
  free_owned pid es

-- One round of the loop over the locks.
unfoldable pub release_held : ℕ → ℕ → Action Os (Unit {0})
release_held pid l = do
  o ← gets (λ o. o)
  let k = o.locks l
  when (k.held && k.owner_pid == pid) (hand_over l)

-- OS::cleanupProcess_
unfoldable pub cleanup_process : ℕ → Action Os (Unit {0})
cleanup_process i = do
  p ← get_process i
  o ← gets (λ o. o)
  free_owned p.pid o.phys_page_owner
  modify (λ o. record o { disk = update o.disk p.pid (λ vp. none) })
  put_process i (record p {
    page_table = [];
    working_set_pages = [];
    heap_allocations = λ a. none;
    state = ProcState.terminated;
  })
  for_range num_locks 0 (λ l. release_held p.pid l)
