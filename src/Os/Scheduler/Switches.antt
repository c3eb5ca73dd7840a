-- ===== src/Os/Scheduler/Switches.antt =====
-- A process that leaves the CPU and comes back: contextSwitchOut_ and contextSwitchTo_ of OS.cpp.
use csci_480_assignment.Base.{
  ℕ, ◌+◌, ◌%◌, ◌^◌, ◌≡◌, some, arith, get_elem?, set, get_elem?-set_self, lt_of_get_elem?, ok,
}
use csci_480_assignment.Cpu.{Machine}
use csci_480_assignment.Pcb.{Pcb, ProcState, save_to, load_from}
use csci_480_assignment.Mmu
use csci_480_assignment.Os.State.{Os}
use csci_480_assignment.Os.Scheduler.{context_switch_out, context_switch_to}

-- A process that is switched out and in again has its registers, its pointers and its flags back,
-- and its own table and bounds, whatever the machine did in between; it is running.
pub context_switch_to-context_switch_out :
    (o : Os) (i : ℕ) (p : Pcb) (m : Machine)
    → get_elem? o.processes i ≡ some p
    → (o1 o2 : Os) × (context_switch_out i o ≡ (ok tt, o1))
      × (context_switch_to i (record o1 { machine = m }) ≡ (ok tt, o2))
      × (o2.machine.cpu ≡ record o.machine.cpu { running = m.cpu.running })
      × (o2.machine.mmu.active_page_table ≡ some p.page_table)
      × (o2.machine.mmu.bounds ≡ p.bounds)
      × (get_elem? o2.processes i
          ≡ some (record (save_to o.machine.cpu p) {
            state = ProcState.running;
            context_switches = (p.context_switches + 1) % 2 ^ 64;
          }))
unfolding context_switch_out context_switch_to save_to load_from Mmu.set_page_table Mmu.set_bounds
context_switch_to-context_switch_out o i p m h =
    let o1 = (context_switch_out i o).1 in
    let saved = save_to o.machine.cpu p in
    let at = get_elem?-set_self o.processes i saved (lt_of_get_elem? o.processes i h) in
    let again =
      get_elem?-set_self (set o.processes i saved) i
        (record saved {
          state = ProcState.running;
          context_switches = (p.context_switches + 1) % 2 ^ 64;
        })
        (lt_of_get_elem? (set o.processes i saved) i at) in
    (
      o1,
      (context_switch_to i (record o1 { machine = m })).1,
      ground arith,
      ground (arith, at),
      ground (arith, at),
      ground (arith, at),
      ground (arith, at),
      ground (arith, at, again),
    )
