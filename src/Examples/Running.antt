-- ===== src/Examples/Running.antt =====
-- The OS with one process, which executes `exit`, and a process that is switched out and in.
use csci_480_assignment.Base.{
  ◌≡◌, ◌==◌, if◌then◌else◌, refl, true, false, some, [], ◌∷◌, ok, get_elem?, for_range, All,
}
use csci_480_assignment.PhysMem
use csci_480_assignment.Mmu
use csci_480_assignment.Mmu.{no_bounds}
use csci_480_assignment.Opcode.{Opcode, code, of_code, find_code}
use csci_480_assignment.Cpu
use csci_480_assignment.Pcb.{Pcb, ProcState, new_pcb, save_to, load_from}
use csci_480_assignment.Os.State.{Os, blank_os}
use csci_480_assignment.Os.Scheduler.{
  tick_sleepers, pick_next_ready, pick_from, context_switch_to, context_switch_out,
}
use csci_480_assignment.Os.Scheduler.Switches.{context_switch_to-context_switch_out}
use csci_480_assignment.Os.Sync.{cleanup_process, free_owned, release_held, signal_event}
use csci_480_assignment.Os.Sync.Signals.{IsReady, signal_event_lem}
use csci_480_assignment.Os.Run.{
  run, round, run_process, run_quantum, run_cpu, write_back, handle_trap,
}
use csci_480_assignment.Os.Sync.Invariant.{IsSynced}
use csci_480_assignment.Os.Run.Synced.{run-IsSynced}
use csci_480_assignment.Examples.Memory.{mmu_with, one_page}

abbrev exiting : Pcb
exiting = record new_pcb {
  pid = 1;
  time_quantum = 3;
  state = ProcState.ready;
  page_table = one_page;
  bounds = record no_bounds { code_size = 512 };
}

abbrev booted : Os
booted = record (blank_os (mmu_with (λ a. if a == 0 then code Opcode.exit else 0))) {
  processes = exiting ∷ [];
  ready = λ prio. if prio == 16 then 0 ∷ [] else [];
}

ended : run 2 booted ≡ (ok true, (run 2 booted).1)
unfolding run round tick_sleepers for_range pick_next_ready pick_from run_process context_switch_to
    load_from save_to context_switch_out run_quantum run_cpu write_back handle_trap cleanup_process
    free_owned release_held Mmu.set_page_table Mmu.set_bounds Cpu.run Cpu.run_steps Cpu.step
    Cpu.fetch_execute Cpu.fetch Cpu.dispatch Cpu.execute of_code find_code code Mmu.read32 Mmu.read8
    Mmu.translate Mmu.walk Mmu.is_valid_vaddr Mmu.touch_phys_page PhysMem.read8
ended = refl

run-IsSynced_example : IsSynced (run 2 booted).1
run-IsSynced_example = run-IsSynced 2 booted (record { locks = λ l h. refl; events = λ e h. refl })

context_switch_to-context_switch_out_example :
    (o1 o2 : Os) × (context_switch_out 0 booted ≡ (ok tt, o1))
    × (context_switch_to 0 (record o1 { machine = booted.machine }) ≡ (ok tt, o2))
    × (o2.machine.cpu ≡ record booted.machine.cpu { running = false })
    × (o2.machine.mmu.active_page_table ≡ some one_page)
    × (o2.machine.mmu.bounds ≡ exiting.bounds)
    × (get_elem? o2.processes 0
        ≡ some (record (save_to booted.machine.cpu exiting) {
          state = ProcState.running;
          context_switches = 1;
        }))
context_switch_to-context_switch_out_example =
    context_switch_to-context_switch_out booted 0 exiting booted.machine refl

-- Process 0 signals event 0, for which process 1 waits.
abbrev waited_for : Os
waited_for = record booted {
  processes = exiting ∷ record exiting { pid = 2; state = ProcState.waiting_event } ∷ [];
  events = λ e. record { signaled = false; wait_queue = 1 ∷ [] };
}

signal_event_lem_example :
    (o' : Os) × (signal_event 0 waited_for ≡ (ok tt, o'))
    × All (IsReady o') (1 ∷ [])
    × IsReady o' 0
    × ((o'.events 0).wait_queue ≡ [])
signal_event_lem_example =
    signal_event_lem waited_for 0 1 exiting [] refl refl refl
      ((record exiting { pid = 2; state = ProcState.waiting_event }, refl), tt)
