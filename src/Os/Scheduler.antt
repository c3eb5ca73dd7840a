-- ===== src/Os/Scheduler.antt =====
-- The ready queues, the sleepers and the context switches of OS.cpp.
pub mod Queues
pub mod Switches
pub mod Ticks
pub mod Sleepers
use csci_480_assignment.Base.{
  ◌%◌, ◌^◌, ℕ, zero, suc, ◌+◌, ◌-◌, Bool, true, false, not, Option, none, some, List, [], ◌∷◌, ◌++◌,
  update, length, ltb, ◌==◌, if◌then◌else◌, Action, Result, ok, ◌>>=◌, ◌>>◌, pure, raise, gets,
  modify, when, for_range, pid_not_found, throw,
}
use csci_480_assignment.Mmu
use csci_480_assignment.Pcb.{Pcb, ProcState, save_to, load_from}
use csci_480_assignment.Os.State.{Os, on_mmu, get_process, put_process, modify_process}

abbrev pub clamp_priority : ℕ → ℕ
clamp_priority prio = if ltb prio 1 then 1 else if ltb 32 prio then 32 else prio

-- OS::enqueueReady_
unfoldable pub enqueue_ready : ℕ → Action Os (Unit {0})
enqueue_ready i = do
  p ← get_process i
  let prio = clamp_priority p.priority
  put_process i (record p { state = ProcState.ready })
  modify (λ o. record o { ready = update o.ready prio (o.ready prio ++ i ∷ []) })

-- The loop of pickNextReady_ over `n` priorities, the first of them `prio`.
unfoldable pub pick_from : ℕ → ℕ → Action Os (Option ℕ)
pick_from zero prio o = (ok none, o)
pick_from (suc n) prio o = elim (o.ready prio) [
  | [] ↦ pick_from n (prio + 1) o
  | i ∷ rest ↦ (ok (some i), record o { ready = update o.ready prio rest })
]

-- OS::pickNextReady_; `none` is -1.
unfoldable pub pick_next_ready : Action Os (Option ℕ)
pick_next_ready = pick_from 32 1

abbrev pub is_sleeping : ProcState → Bool
is_sleeping ProcState.waiting_sleep = true
is_sleeping s = false

abbrev pub is_terminated : ProcState → Bool
is_terminated ProcState.terminated = true
is_terminated s = false

-- A sleeper whose counter has been lowered is made ready, or goes back to the end of the queue.
unfoldable pub wake_or_wait : ℕ → ℕ → Action Os (Unit {0})
wake_or_wait i left =
    if left == 0
    then enqueue_ready i
    else modify (λ o. record o { sleeping = o.sleeping ++ i ∷ [] })

-- The front of the sleepers, taken off the queue.
unfoldable pub tick_process : ℕ → Action Os (Unit {0})
tick_process i = do
  p ← get_process i
  when (is_sleeping p.state) (do
    put_process i (record p { sleep_counter = p.sleep_counter - 1 })
    wake_or_wait i (p.sleep_counter - 1))

-- One round of the loop of tickSleepers_. The rounds are as many as there are sleepers, so that the
-- queue is not empty.
unfoldable pub tick_front : Action Os (Unit {0})
tick_front o = elim o.sleeping [
  | [] ↦ (ok tt, o)
  | i ∷ rest ↦ tick_process i (record o { sleeping = rest })
]

-- OS::tickSleepers_
unfoldable pub tick_sleepers : Action Os (Unit {0})
tick_sleepers = do n ← gets (λ o. length o.sleeping); for_range n 0 (λ k. tick_front)

-- OS::contextSwitchTo_
unfoldable pub context_switch_to : ℕ → Action Os (Unit {0})
context_switch_to i = do
  p ← get_process i
  on_mmu (Mmu.set_page_table p.page_table)
  on_mmu (Mmu.set_bounds p.bounds)
  modify (λ o. record o { machine = record o.machine { cpu = load_from p o.machine.cpu } })
  put_process i
      (record p { state = ProcState.running; context_switches = (p.context_switches + 1) % 2 ^ 64 })

-- OS::contextSwitchOut_
unfoldable pub context_switch_out : ℕ → Action Os (Unit {0})
context_switch_out i = do c ← gets (λ o. o.machine.cpu); modify_process i (save_to c)

-- The state of the first process with the pid.
unfoldable pub find_state : ℕ → List Pcb → Option ProcState
find_state pid [] = none
find_state pid (p ∷ ps) = if p.pid == pid then some p.state else find_state pid ps

-- OS::getProcessState
unfoldable pub get_process_state : ℕ → Os → Result ProcState
get_process_state pid o = elim (find_state pid o.processes) [
  | none ↦ throw pid_not_found
  | some s ↦ ok s
]
