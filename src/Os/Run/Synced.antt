-- ===== src/Os/Run/Synced.antt =====
-- The invariant of locks and events during OS::run of OS.cpp: every action of the loop keeps it.
use csci_480_assignment.Base.{
  ℕ, zero, suc, ◌+◌, ◌≡◌, refl, Bool, true, false, none, some, Option, List, [], ◌∷◌, arith,
  Exception, Result, ◌>>◌, ok, throw, page_fault, Keeps, Keeps->>=, Keeps->>, Keeps-pure,
  Keeps-raise, ◌++◌, Keeps-gets, Keeps-catch, Keeps-when, Keeps-if, Keeps-for_range, modify, update,
  erase,
}
use csci_480_assignment.Mmu
use csci_480_assignment.Mmu.{Mmu}
use csci_480_assignment.Cpu
use csci_480_assignment.Cpu.{Machine, Trap}
use csci_480_assignment.Pcb.{Pcb, ProcState, save_to}
use csci_480_assignment.Os.State.{Os, on_machine, num_locks}
use csci_480_assignment.Os.Scheduler.{
  enqueue_ready, pick_next_ready, pick_from, tick_sleepers, tick_front, tick_process, wake_or_wait,
  context_switch_to, context_switch_out, is_sleeping,
}
use csci_480_assignment.Os.Sync.{
  map_shared_mem, hand_over, release_held, free_owned, cleanup_process,
}
use csci_480_assignment.Os.Sync.Invariant.{IsSynced, Keeps-same, sync-IsSynced}
use csci_480_assignment.Os.Run.{
  go_to_sleep, handle_trap, write_back, run_cpu, run_quantum, handle_exception, run_process, round,
  run,
}
use csci_480_assignment.Os.Run.Quiet.{
  on_mmu-IsSynced, put_process-IsSynced, get_process-IsSynced, modify_process-IsSynced,
  enqueue_ready-IsSynced, set_owner-IsSynced, Keeps-option, handle_page_fault-IsSynced,
  handle_alloc-IsSynced, handle_free_memory-IsSynced,
}

modify-IsSynced :
    (f : Os → Os)
    → ((o : Os) → (f o).locks ≡ o.locks)
    → ((o : Os) → (f o).events ≡ o.events)
    → Keeps IsSynced (modify f)
modify-IsSynced f l e = Keeps-same _ l e

-- Scheduling.
wake_or_wait-IsSynced : (i left : ℕ) → Keeps IsSynced (wake_or_wait i left)
unfolding wake_or_wait
wake_or_wait-IsSynced i left =
    Keeps-if _ (enqueue_ready-IsSynced i) (modify-IsSynced _ (λ o. refl) (λ o. refl))

tick_process-IsSynced : (i : ℕ) → Keeps IsSynced (tick_process i)
unfolding tick_process
tick_process-IsSynced i = Keeps->>= (get_process-IsSynced i) (λ p.
    Keeps-when (is_sleeping p.state)
      (Keeps->> (put_process-IsSynced i _) (wake_or_wait-IsSynced i _)))

tick_front-IsSynced : Keeps IsSynced tick_front
unfolding tick_front
tick_front-IsSynced = record { keeps = λ o v. ticked o v o.sleeping }
  where
    ticked :
        (o : Os)
        → IsSynced o
        → (xs : List ℕ)
        → IsSynced
            (elim xs as (λ x. Result (Unit {0}) × Os) [
              | [] ↦ (ok tt, o)
              | i ∷ rest ↦ tick_process i (record o { sleeping = rest })
            ]).1
    ticked o v [] = v
    ticked o v (i ∷ rest) =
        (tick_process-IsSynced i).keeps (record o { sleeping = rest })
          (record { locks = v.locks; events = v.events })

tick_sleepers-IsSynced : Keeps IsSynced tick_sleepers
unfolding tick_sleepers
tick_sleepers-IsSynced =
    Keeps->>= (Keeps-gets _) (λ n. Keeps-for_range n 0 (λ k. tick_front-IsSynced))

pick_from-IsSynced : (n prio : ℕ) → Keeps IsSynced (pick_from n prio)
unfolding pick_from
pick_from-IsSynced zero prio = record { keeps = λ o v. v }
pick_from-IsSynced (suc n) prio = record {
  keeps = λ o v. picked o v (o.ready prio) ((pick_from-IsSynced n (prio + 1)).keeps o v);
}
  where
    picked :
        (o : Os)
        → IsSynced o
        → (xs : List ℕ) → IsSynced (pick_from n (prio + 1) o).1
        → IsSynced
            (elim xs as (λ x. Result (Option ℕ) × Os) [
              | [] ↦ pick_from n (prio + 1) o
              | i ∷ rest ↦ (ok (some i), record o { ready = update o.ready prio rest })
            ]).1
    picked o v [] h = h
    picked o v (i ∷ rest) h = record { locks = v.locks; events = v.events }

context_switch_to-IsSynced : (i : ℕ) → Keeps IsSynced (context_switch_to i)
unfolding context_switch_to
context_switch_to-IsSynced i = Keeps-same _ (λ o. ground arith) (λ o. ground arith)

context_switch_out-IsSynced : (i : ℕ) → Keeps IsSynced (context_switch_out i)
unfolding context_switch_out
context_switch_out-IsSynced i =
    Keeps->>= (Keeps-gets (λ o. o.machine.cpu)) (λ c. modify_process-IsSynced i (save_to c))

-- The end of a process.
free_owned-IsSynced : (pid : ℕ) (es : List (ℕ × (ℕ × ℕ))) → Keeps IsSynced (free_owned pid es)
unfolding free_owned
free_owned-IsSynced pid [] = Keeps-pure tt
free_owned-IsSynced pid (e ∷ es) =
    Keeps->>
      (Keeps-when _
        (Keeps->> (on_mmu-IsSynced (Mmu.free_phys_page e.0)) (set_owner-IsSynced (erase e.0))))
      (free_owned-IsSynced pid es)

release_held-IsSynced : (pid l : ℕ) → Keeps IsSynced (release_held pid l)
unfolding release_held hand_over enqueue_ready
release_held-IsSynced pid l = record {
  keeps = λ o v. record {
    locks = λ k h. ground (arith, v.locks k);
    events = λ k h. ground (arith, v.events k);
  };
}

discard-IsSynced :
    (pid : ℕ) → Keeps IsSynced (modify (λ o. record o { disk = update o.disk pid (λ vp. none) }))
discard-IsSynced pid = Keeps-same _ (λ o. refl) (λ o. refl)

-- What cleanupProcess_ leaves of a process.
abbrev ended : Pcb → Pcb
ended p = record p {
  page_table = [];
  working_set_pages = [];
  heap_allocations = λ a. none;
  state = ProcState.terminated;
}

cleanup_process-IsSynced : (i : ℕ) → Keeps IsSynced (cleanup_process i)
unfolding cleanup_process
cleanup_process-IsSynced i = Keeps->>= (get_process-IsSynced i) (λ p.
    Keeps->>= (Keeps-gets (λ o. o)) (λ o. Keeps->> (free_owned-IsSynced p.pid o.phys_page_owner) (
      Keeps->> (discard-IsSynced p.pid) (
        Keeps->> (put_process-IsSynced i (ended p))
          (Keeps-for_range num_locks 0 (λ l. release_held-IsSynced p.pid l))))))

-- The traps.
map_shared_mem-IsSynced : (i : ℕ) → Keeps IsSynced (map_shared_mem i)
unfolding map_shared_mem enqueue_ready
map_shared_mem-IsSynced i = Keeps-same _ (λ o. ground arith) (λ o. ground arith)

go_to_sleep-IsSynced : (i : ℕ) → Keeps IsSynced (go_to_sleep i)
unfolding go_to_sleep
go_to_sleep-IsSynced i =
    Keeps->> (modify_process-IsSynced i _)
      (modify-IsSynced (λ o. record o { sleeping = o.sleeping ++ i ∷ [] }) (λ o. refl) (λ o. refl))

wait_io-IsSynced : (i : ℕ) → Keeps IsSynced (handle_trap i Trap.input)
unfolding handle_trap
wait_io-IsSynced i = Keeps->> (modify_process-IsSynced i _) (enqueue_ready-IsSynced i)

handle_trap-IsSynced : (i : ℕ) (t : Trap) → Keeps IsSynced (handle_trap i t)
unfolding handle_trap
handle_trap-IsSynced i Trap.exit = cleanup_process-IsSynced i
handle_trap-IsSynced i Trap.quantum_expired = enqueue_ready-IsSynced i
handle_trap-IsSynced i Trap.sleep = go_to_sleep-IsSynced i
handle_trap-IsSynced i Trap.input = wait_io-IsSynced i
handle_trap-IsSynced i Trap.inputc = wait_io-IsSynced i
handle_trap-IsSynced i Trap.map_shared_mem = map_shared_mem-IsSynced i
handle_trap-IsSynced i Trap.acquire_lock = record {
  keeps = λ o v. let (a, r, w, s) = sync-IsSynced i o v in a;
}
handle_trap-IsSynced i Trap.release_lock = record {
  keeps = λ o v. let (a, r, w, s) = sync-IsSynced i o v in r;
}
handle_trap-IsSynced i Trap.wait_event = record {
  keeps = λ o v. let (a, r, w, s) = sync-IsSynced i o v in w;
}
handle_trap-IsSynced i Trap.signal_event = record {
  keeps = λ o v. let (a, r, w, s) = sync-IsSynced i o v in s;
}
handle_trap-IsSynced i Trap.alloc = handle_alloc-IsSynced i
handle_trap-IsSynced i Trap.free_memory = handle_free_memory-IsSynced i
handle_trap-IsSynced i Trap.no_trap = enqueue_ready-IsSynced i

-- The loop.
write_back-IsSynced : (i : ℕ) → Keeps IsSynced (write_back i)
unfolding write_back
write_back-IsSynced i = Keeps->>= (Keeps-gets (λ o. o)) (λ o.
    Keeps-option _ _ o.machine.mmu.active_page_table (Keeps-pure tt)
      (λ pt. modify_process-IsSynced i _))

run_cpu-IsSynced : (i quantum : ℕ) → Keeps IsSynced (run_cpu i quantum)
unfolding run_cpu
run_cpu-IsSynced i quantum =
    Keeps-catch
      (Keeps->>= (Keeps-same (on_machine (Cpu.run quantum)) (λ o. refl) (λ o. refl))
        (λ t. Keeps->> (write_back-IsSynced i) (Keeps-pure t)))
      (λ e. Keeps->> (write_back-IsSynced i) (Keeps-raise e))

run_quantum-IsSynced : (i quantum : ℕ) → Keeps IsSynced (run_quantum i quantum)
unfolding run_quantum
run_quantum-IsSynced i quantum = Keeps->>= (run_cpu-IsSynced i quantum) (λ t.
    Keeps->> (context_switch_out-IsSynced i)
      (Keeps->> (modify_process-IsSynced i _) (handle_trap-IsSynced i t)))

cleaned-IsSynced : (i : ℕ) → Keeps IsSynced (context_switch_out i >> cleanup_process i)
cleaned-IsSynced i = Keeps->> (context_switch_out-IsSynced i) (cleanup_process-IsSynced i)

handle_exception-IsSynced : (i : ℕ) (e : Exception) → Keeps IsSynced (handle_exception i e)
unfolding handle_exception
handle_exception-IsSynced i (page_fault vp) =
    Keeps->> (context_switch_out-IsSynced i) (handle_page_fault-IsSynced i vp)
handle_exception-IsSynced i _ = cleaned-IsSynced i

run_process-IsSynced : (i : ℕ) → Keeps IsSynced (run_process i)
unfolding run_process
run_process-IsSynced i = Keeps->>= (get_process-IsSynced i) (λ p. Keeps-if _ (Keeps-pure tt) (
    Keeps->> (context_switch_to-IsSynced i)
      (Keeps-catch (run_quantum-IsSynced i p.time_quantum) (handle_exception-IsSynced i))))

round-IsSynced : Keeps IsSynced round
unfolding round pick_next_ready
round-IsSynced = Keeps->> tick_sleepers-IsSynced (
    Keeps->>= (pick_from-IsSynced 32 1) (λ next.
      Keeps-option _ _ next (Keeps-gets _)
        (λ i. Keeps->> (run_process-IsSynced i) (Keeps-pure true))))

-- However many rounds OS::run takes, and however it ends, a lock that is not held has no waiters and
-- an event that is signaled has none, if it was so at the start.
pub run-IsSynced : (n : ℕ) (o : Os) → IsSynced o → IsSynced (run n o).1
unfolding run
run-IsSynced zero o v = v
run-IsSynced (suc n) o v = more (run-IsSynced n) (round o) (round-IsSynced.keeps o v)
  where
    more :
        ((t : Os) → IsSynced t → IsSynced (run n t).1)
        → (r : Result Bool × Os) → IsSynced r.1
        → IsSynced
            (elim r.0 as (λ x. Result Bool × Os) [
              | throw e ↦ (throw e, r.1)
              | ok m ↦ elim m [ true ↦ run n r.1 | false ↦ (ok true, r.1) ]
            ]).1
    more rest (throw e, t) h = h
    more rest (ok true, t) h = rest t h
    more rest (ok false, t) h = h
