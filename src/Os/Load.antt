-- ===== src/Os/Load.antt =====
-- Process creation: createProcessFromAsm and loadProcessImage_ of OS.cpp and loadIntoMemory of
-- PROGRAM.CPP, from the bytes of the assembled program.
pub mod Image
use csci_480_assignment.Base.{
  ℕ, zero, suc, ◌+◌, ◌-◌, ◌/◌, List, [], ◌∷◌, ◌++◌, length, get_elem?, set, replicate, ◌==◌, Action,
  ◌>>=◌, ◌>>◌, pure, gets, modify, throw_if, or_throw, bad_index, no_code_bytes, insert,
  no_active_page_table,
}
use csci_480_assignment.Word.{u32, add32, sub32}
use csci_480_assignment.Mmu
use csci_480_assignment.Mmu.{Mmu, PageTable, Bounds, blank, mapped_to, page_size}
use csci_480_assignment.Pcb.{Pcb, ProcState, new_pcb}
use csci_480_assignment.Os.State.{Os, on_mmu, set_owner}
use csci_480_assignment.Os.Scheduler.{enqueue_ready}

-- Program::loadIntoMemory
unfoldable pub load_into_memory : ℕ → List ℕ → Action Mmu (Unit {0})
load_into_memory addr [] = pure tt
load_into_memory addr (b ∷ bs) = do Mmu.write8 addr b; load_into_memory (add32 addr 1) bs

-- The table that activePageTable_ points to.
abbrev pub active_table : Action Os PageTable
active_table = do o ← gets (λ o. o); or_throw o.machine.mmu.active_page_table no_active_page_table

-- The loop of loadProcessImage_ over `n` code pages, the first of them `vp`. The table that it
-- fills is the active one. A page behind the end of the table is an index out of range.
unfoldable pub map_code_pages : ℕ → ℕ → ℕ → Action Os (Unit {0})
map_code_pages pid zero vp = pure tt
map_code_pages pid (suc n) vp = do
  pp ← on_mmu Mmu.alloc_phys_page
  table ← active_table
  or_throw (get_elem? table vp) bad_index
  on_mmu (Mmu.set_page_table (set table vp (mapped_to pp)))
  set_owner (insert pp (pid, vp))
  map_code_pages pid n (vp + 1)

-- The virtual pages `vp`, `vp + 1`, ..., `n` of them.
abbrev pub page_run : ℕ → ℕ → List ℕ
page_run zero vp = []
page_run (suc n) vp = vp ∷ page_run n (vp + 1)

abbrev pub first_code_page : Bounds → ℕ
first_code_page b = b.code_base / page_size

abbrev pub last_code_page : Bounds → ℕ
last_code_page b = sub32 (add32 b.code_base b.code_size) 1 / page_size

abbrev pub code_pages : Bounds → ℕ
code_pages b = last_code_page b + 1 - first_code_page b

-- OS::loadProcessImage_: the process with its table and working set.
unfoldable pub load_process_image : Pcb → List ℕ → Action Os Pcb
load_process_image p bytes = do
  throw_if (p.bounds.code_size == 0) no_code_bytes
  on_mmu (Mmu.set_page_table (replicate (sub32 p.bounds.stack_top 1 / page_size + 1) blank))
  on_mmu (Mmu.set_bounds p.bounds)
  map_code_pages p.pid (code_pages p.bounds) (first_code_page p.bounds)
  on_mmu (load_into_memory p.bounds.code_base bytes)
  table ← active_table
  pure (record p {
    page_table = table;
    working_set_pages = page_run (code_pages p.bounds) (first_code_page p.bounds);
  })

-- The layout of every process, for a program of `size` bytes.
abbrev pub process_bounds : ℕ → Bounds
process_bounds size = record {
  code_base = 0x1000;
  code_size = size;
  data_base = 0x4000;
  data_size = 0x1000;
  heap_start = 0x5000;
  heap_end = 0x6000;
  stack_top = 0xF000;
  stack_max = 0x1000;
}

-- The process that createProcessFromAsm sets up before it loads the image.
abbrev pub fresh_process : ℕ → ℕ → ℕ → Pcb
fresh_process pid priority size = record new_pcb {
  pid = pid;
  priority = priority;
  state = ProcState.ready;
  bounds = process_bounds size;
  ip = 0x1000;
  sp = 0xF000;
}

-- OS::createProcessFromAsm, once the file is assembled into `bytes`.
unfoldable pub create_process : List ℕ → ℕ → Action Os ℕ
create_process bytes priority = do
  o ← gets (λ o. o)
  modify (λ o. record o { next_pid = u32 (o.next_pid + 1) })
  p ← load_process_image (fresh_process o.next_pid priority (u32 (length bytes))) bytes
  modify (λ o. record o { processes = o.processes ++ p ∷ [] })
  enqueue_ready (length o.processes)
  pure p.pid
