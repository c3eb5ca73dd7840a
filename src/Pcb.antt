-- ===== src/Pcb.antt =====
-- The process control block: PCB.h and procstate.h, and the copies between it and the CPU that
-- saveTo and loadFrom of CPU.cpp make.
use csci_480_assignment.Base.{ℕ, Bool, false, Option, none, List, []}
use csci_480_assignment.Mmu.{Bounds, PageTable, no_bounds}
use csci_480_assignment.Cpu.{Cpu}

pub data ProcState : Type 0 where
  new ready running waiting_sleep waiting_io waiting_lock waiting_event terminated : ProcState

-- A waiting id of -1 is `none`. `heap_allocations` maps an address to a number of pages.
pub record Pcb : Type 0 where
  pub pid : ℕ
  pub state : ProcState
  pub priority : ℕ
  pub time_quantum : ℕ
  pub cycles : ℕ
  pub context_switches : ℕ
  pub sleep_counter : ℕ
  pub waiting_lock_id : Option ℕ
  pub waiting_event_id : Option ℕ
  pub regs : ℕ → ℕ
  pub ip : ℕ
  pub sp : ℕ
  pub zero_flag : Bool
  pub sign_flag : Bool
  pub trap_reg_a : ℕ
  pub trap_reg_b : ℕ
  pub bounds : Bounds
  pub page_table : PageTable
  pub working_set_pages : List ℕ
  pub heap_allocations : ℕ → Option ℕ

-- A Process as it is declared, before its fields are set.
abbrev pub new_pcb : Pcb
new_pcb = record {
  pid = 0;
  state = ProcState.new;
  priority = 16;
  time_quantum = 50;
  cycles = 0;
  context_switches = 0;
  sleep_counter = 0;
  waiting_lock_id = none;
  waiting_event_id = none;
  regs = λ r. 0;
  ip = 0;
  sp = 0;
  zero_flag = false;
  sign_flag = false;
  trap_reg_a = 0;
  trap_reg_b = 0;
  bounds = no_bounds;
  page_table = [];
  working_set_pages = [];
  heap_allocations = λ a. none;
}

-- CPU::saveTo
unfoldable pub save_to : Cpu → Pcb → Pcb
save_to c p = record p {
  regs = c.regs;
  ip = c.ip;
  sp = c.sp;
  zero_flag = c.zero_flag;
  sign_flag = c.sign_flag;
  trap_reg_a = c.trap_reg_a;
  trap_reg_b = c.trap_reg_b;
}

-- CPU::loadFrom
unfoldable pub load_from : Pcb → Cpu → Cpu
load_from p c = record c {
  regs = p.regs;
  ip = p.ip;
  sp = p.sp;
  zero_flag = p.zero_flag;
  sign_flag = p.sign_flag;
  trap_reg_a = p.trap_reg_a;
  trap_reg_b = p.trap_reg_b;
}
