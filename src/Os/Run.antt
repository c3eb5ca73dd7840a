-- ===== src/Os/Run.antt =====
-- The main loop: OS::run of OS.cpp.
pub mod Quiet
pub mod Synced
use csci_480_assignment.Base.{
  ◌%◌, ◌^◌, ℕ, zero, suc, ◌+◌, Bool, true, false, none, some, [], ◌∷◌, ◌++◌, if◌then◌else◌, Action,
  Exception, ok, throw, page_fault, ◌>>=◌, ◌>>◌, pure, gets, modify, catch,
}
use csci_480_assignment.Word.{u32}
use csci_480_assignment.Cpu
use csci_480_assignment.Cpu.{Trap}
use csci_480_assignment.Pcb.{ProcState}
use csci_480_assignment.Os.State.{Os, on_machine, get_process, modify_process}
use csci_480_assignment.Os.Scheduler.{
  enqueue_ready, pick_next_ready, tick_sleepers, context_switch_to, context_switch_out,
  is_terminated,
}
use csci_480_assignment.Os.Swap.{handle_page_fault}
use csci_480_assignment.Os.Heap.{handle_alloc, handle_free_memory, is_not_positive}
use csci_480_assignment.Os.Sync.{
  map_shared_mem, acquire_lock, release_lock, wait_event, signal_event, cleanup_process,
}

-- case Trap::Sleep
unfoldable pub go_to_sleep : ℕ → Action Os (Unit {0})
go_to_sleep i = do
  modify_process i (λ p. record p {
    state = ProcState.waiting_sleep;
    sleep_counter = if is_not_positive (p.regs 1) then 1 else u32 (p.regs 1);
  })
  modify (λ o. record o { sleeping = o.sleeping ++ i ∷ [] })

-- The switch on the trap.
unfoldable pub handle_trap : ℕ → Trap → Action Os (Unit {0})
handle_trap i Trap.exit = cleanup_process i
handle_trap i Trap.quantum_expired = enqueue_ready i
handle_trap i Trap.sleep = go_to_sleep i
handle_trap i Trap.input = do
  modify_process i (λ p. record p { state = ProcState.waiting_io })
  enqueue_ready i
handle_trap i Trap.inputc = do
  modify_process i (λ p. record p { state = ProcState.waiting_io })
  enqueue_ready i
handle_trap i Trap.map_shared_mem = map_shared_mem i
handle_trap i Trap.acquire_lock = acquire_lock i
handle_trap i Trap.release_lock = release_lock i
handle_trap i Trap.wait_event = wait_event i
handle_trap i Trap.signal_event = signal_event i
handle_trap i Trap.alloc = handle_alloc i
handle_trap i Trap.free_memory = handle_free_memory i
handle_trap i Trap.no_trap = enqueue_ready i

-- The table of the process is the one that the MMU has been working on.
unfoldable pub write_back : ℕ → Action Os (Unit {0})
write_back i = do
  o ← gets (λ o. o)
  elim o.machine.mmu.active_page_table [
    | none ↦ pure tt
    | some pt ↦ modify_process i (λ p. record p { page_table = pt })
  ]

-- cpu_.Run(timeQuantum) on the process's own table, whether it throws or not.
unfoldable pub run_cpu : ℕ → ℕ → Action Os Trap
run_cpu i quantum =
    catch (do t ← on_machine (Cpu.run quantum); write_back i; pure t)
      (λ e. do write_back i; (λ o. (throw e, o)))

-- The try block of the loop.
unfoldable pub run_quantum : ℕ → ℕ → Action Os (Unit {0})
run_quantum i quantum = do
  t ← run_cpu i quantum
  context_switch_out i
  modify_process i (λ p. record p { cycles = (p.cycles + quantum) % 2 ^ 64 })
  handle_trap i t

-- The two catch blocks.
unfoldable pub handle_exception : ℕ → Exception → Action Os (Unit {0})
handle_exception i (page_fault vpage) = do context_switch_out i; handle_page_fault i vpage
handle_exception i e = do context_switch_out i; cleanup_process i

-- A process that was picked runs for its quantum.
unfoldable pub run_process : ℕ → Action Os (Unit {0})
run_process i = do
  p ← get_process i
  if is_terminated p.state
      then pure tt
      else (do context_switch_to i; catch (run_quantum i p.time_quantum) (handle_exception i))

-- One round of the loop; the answer is whether it goes on.
unfoldable pub round : Action Os Bool
round = do
  tick_sleepers
  next ← pick_next_ready
  elim next [
    | none ↦ gets (λ o. elim o.sleeping [ [] ↦ false | x ∷ xs ↦ true ])
    | some i ↦ (do run_process i; pure true)
  ]

-- OS::run for `fuel` rounds at most; the answer is whether the loop has ended.
unfoldable pub run : ℕ → Action Os Bool
run zero o = (ok false, o)
run (suc fuel) o =
    let (r, o') = round o in
    elim r [
      | throw e ↦ (throw e, o')
      | ok more ↦ elim more [ true ↦ run fuel o' | false ↦ (ok true, o') ]
    ]
