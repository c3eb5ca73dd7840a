-- ===== src/Examples/Processes.antt =====
-- Scheduling, synchronization and heap requests of the OS with two processes.
use csci_480_assignment.Os.Scheduler.Sleepers.{Ticked, tick_sleepers_lem}
use csci_480_assignment.Base.{
  inr, ℕ, ◌+◌, ◌*◌, ◌≤◌, ◌<◌, ◌≡◌, ◌≢◌, ◌⊎◌, ◌==◌, refl, true, false, Bool, none, some, List, [],
  ◌∷◌, arith, ok, if◌then◌else◌, update, get_elem?,
}
use csci_480_assignment.Mmu.{no_bounds, page_size}
use csci_480_assignment.Pcb.{Pcb, ProcState, new_pcb}
use csci_480_assignment.Os.State.{Os, Lock, blank_os}
use csci_480_assignment.Os.Scheduler.{tick_sleepers, enqueue_ready, pick_next_ready}
use csci_480_assignment.Os.Scheduler.Queues.{
  NoneReady, FirstReady, Queued, enqueue_ready_lem, pick_next_ready_lem,
}
use csci_480_assignment.Os.Sync.{acquire_lock, release_lock, wait_event, signal_event}
use csci_480_assignment.Os.Sync.Invariant.{IsSynced, sync-IsSynced}
use csci_480_assignment.Os.Sync.Locks.{acquire_lock_lem, release_lock_other, release_lock_next}
use csci_480_assignment.Os.Heap.{find_run, pages_needed, handle_alloc}
use csci_480_assignment.Os.Heap.Search.{FreeBetween, find_run_lem}
use csci_480_assignment.Os.Heap.Requests.{pages_needed_lem, handle_alloc-Refused, Refused}
use csci_480_assignment.Examples.Memory.{mmu_with}

-- Process 1 asks for lock 2 (or event 2) and has an empty heap; process 2 has priority 40.
abbrev first : Pcb
first = record new_pcb {
  pid = 1;
  regs = λ r. 2;
  trap_reg_a = 3;
  trap_reg_b = 4;
  bounds = record no_bounds { heap_start = 1024; heap_end = 2048 };
}

abbrev second : Pcb
second = record new_pcb { pid = 2; priority = 40 }

abbrev two_processes : Os
two_processes = record (blank_os (mmu_with (λ a. 0))) { processes = first ∷ second ∷ [] }

abbrev one_ready : Os
one_ready = record two_processes { ready = λ prio. if prio == 5 then 1 ∷ 0 ∷ [] else [] }

pick_next_ready_lem_example :
    ((pick_next_ready one_ready ≡ (ok none, one_ready)) × NoneReady one_ready 1 33)
    ⊎ ((q : ℕ) × (i : ℕ) × (rest : List ℕ) × FirstReady one_ready 1 33 i rest q
        × (pick_next_ready one_ready
            ≡ (ok (some i), record one_ready { ready = update one_ready.ready q rest })))
pick_next_ready_lem_example = pick_next_ready_lem one_ready

two_processes-IsSynced : IsSynced two_processes
two_processes-IsSynced = record { locks = λ l h. refl; events = λ e h. refl }

sync-IsSynced_example :
    IsSynced (acquire_lock 0 two_processes).1
    × IsSynced (release_lock 0 two_processes).1
    × IsSynced (wait_event 0 two_processes).1
    × IsSynced (signal_event 0 two_processes).1
sync-IsSynced_example = sync-IsSynced 0 two_processes two_processes-IsSynced

-- Lock 2 is held by process 1, and process 2 waits for it.
abbrev contended : Lock
contended = record { held = true; owner_pid = 1; wait_queue = 1 ∷ [] }

abbrev locked : Os
locked = record two_processes { locks = λ l. contended }

acquire_lock_lem_example :
    let k = contended in
    let o' = (acquire_lock 0 locked).1 in
    (k.held ≡ false → o'.locks 2 ≡ record k { held = true; owner_pid = 1 })
    × (k.held ≡ true
        → (o'.locks 2 ≡ record k { wait_queue = 1 ∷ 0 ∷ [] }) × (o'.ready ≡ locked.ready))
    × ((j : ℕ) → 2 ≢ j → o'.locks j ≡ contended)
acquire_lock_lem_example = acquire_lock_lem locked 0 first refl refl

release_lock_other_example : (release_lock 1 locked).1.locks ≡ locked.locks
release_lock_other_example = release_lock_other locked 1 second refl (λ e. cc)

release_lock_next_example :
    let o' = (release_lock 0 locked).1 in
    (o'.locks 2 ≡ record { held = true; owner_pid = 2; wait_queue = [] })
    × (get_elem? o'.processes 1 ≡ some (record second { state = ProcState.ready }))
release_lock_next_example =
    release_lock_next locked 0 1 first second [] refl refl (λ e. cc) refl refl refl refl

-- Page 5 is taken.
abbrev used : ℕ → Bool
used vp = vp == 5

find_run_lem_example :
    ((find_run used 3 4 4 0 0 ≡ none)
      × ((s : ℕ) → 4 ≤ s → s + 3 ≤ 8 → FreeBetween used s (s + 3) → ⊥))
    ⊎ ((s : ℕ) × (find_run used 3 4 4 0 0 ≡ some s)
        × (4 ≤ s)
        × (s + 3 ≤ 8)
        × FreeBetween used s (s + 3))
find_run_lem_example = find_run_lem used 3 4 4 8 (omega arith) refl

pages_needed_lem_example :
    (257 ≤ pages_needed 257 * page_size) × (pages_needed 257 * page_size < 257 + page_size)
pages_needed_lem_example = pages_needed_lem 257 (omega arith)

-- Five pages, in a heap of four.
abbrev greedy : Os
greedy = record two_processes { processes = record first { regs = λ r. 1025 } ∷ [] }

handle_alloc-Refused_example :
    (o' : Os) × (handle_alloc 0 greedy ≡ (ok tt, o'))
    × Refused greedy o' 0 (record first { regs = λ r. 1025 })
handle_alloc-Refused_example =
    handle_alloc-Refused greedy 0 (record first { regs = λ r. 1025 }) refl (inr (inr (omega arith)))

enqueue_ready_lem_example :
    (o' : Os) × (k : ℕ) × (enqueue_ready 1 two_processes ≡ (ok tt, o'))
    × Queued two_processes o' 1 second k
enqueue_ready_lem_example = enqueue_ready_lem two_processes 1 second refl

-- Process 0 has one tick left, process 1 has three.
abbrev sleepy : ℕ → Pcb → Pcb
sleepy n p = record p { state = ProcState.waiting_sleep; sleep_counter = n }

abbrev dormitory : Os
dormitory = record two_processes {
  processes = sleepy 1 first ∷ sleepy 3 second ∷ [];
  sleeping = 0 ∷ 1 ∷ [];
}

tick_sleepers_lem_example :
    (o' : Os) × (tick_sleepers dormitory ≡ (ok tt, o')) × Ticked o' 1 (sleepy 3 second)
tick_sleepers_lem_example =
    tick_sleepers_lem dormitory (0 ∷ []) [] 1 (sleepy 3 second) refl ((sleepy 1 first, refl), tt) tt
      refl refl refl refl
