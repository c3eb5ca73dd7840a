-- ===== src/Os/State.antt =====
-- The state of the OS (OS.h), and access to its parts. The CPU and the MMU, which refers to the
-- active process's page table, are the machine; the processes are a list, which an index names.
use csci_480_assignment.Base.{
  ℕ, Bool, false, Option, none, List, [], ◌∷◌, ◌++◌, update, get_elem?, set, Action, Result, ok,
  throw, ◌>>=◌, ◌>>=?◌, modify, or_throw, on_part, for_range, bad_index,
}
use csci_480_assignment.Mmu
use csci_480_assignment.Mmu.{Mmu}
use csci_480_assignment.Cpu.{Machine, new_cpu}
use csci_480_assignment.Pcb.{Pcb}

pub record Lock : Type 0 where
  pub held : Bool
  pub owner_pid : ℕ
  pub wait_queue : List ℕ

pub record Event : Type 0 where
  pub signaled : Bool
  pub wait_queue : List ℕ

-- `ready` has a queue for each priority; `disk` maps a pid and a virtual page to the bytes saved;
-- `phys_page_owner` maps a physical page to its pid and virtual page.
pub record Os : Type 0 where
  pub machine : Machine
  pub next_pid : ℕ
  pub processes : List Pcb
  pub ready : ℕ → List ℕ
  pub sleeping : List ℕ
  pub shared_phys_pages : List ℕ
  pub locks : ℕ → Lock
  pub events : ℕ → Event
  pub disk : ℕ → ℕ → Option (List ℕ)
  pub phys_page_owner : List (ℕ × (ℕ × ℕ))

abbrev pub num_locks : ℕ
num_locks = 10

abbrev pub num_events : ℕ
num_events = 10

abbrev pub num_shared_regions : ℕ
num_shared_regions = 2

abbrev pub shared_mem_vbase : ℕ
shared_mem_vbase = 0xE000

abbrev pub on_machine : {A : Type 0} → Action Machine A → Action Os A
on_machine = on_part (λ o. o.machine) (λ o m. record o { machine = m })

abbrev pub put_mmu : Os → Mmu → Os
put_mmu o u = record o { machine = record o.machine { mmu = u } }

abbrev pub on_mmu : {A : Type 0} → Action Mmu A → Action Os A
on_mmu = on_part (λ o. o.machine.mmu) put_mmu

-- processes_[i]
abbrev pub get_process : ℕ → Action Os Pcb
get_process i o = or_throw (get_elem? o.processes i) bad_index o

abbrev pub put_process : ℕ → Pcb → Action Os (Unit {0})
put_process i p = modify (λ o. record o { processes = set o.processes i p })

abbrev pub modify_process : ℕ → (Pcb → Pcb) → Action Os (Unit {0})
modify_process i f = do p ← get_process i; put_process i (f p)

-- physPageOwner_ and disk_ of a state
abbrev pub set_owner : (List (ℕ × (ℕ × ℕ)) → List (ℕ × (ℕ × ℕ))) → Action Os (Unit {0})
set_owner f = modify (λ o. record o { phys_page_owner = f o.phys_page_owner })

abbrev pub set_disk : ℕ → ℕ → Option (List ℕ) → Action Os (Unit {0})
set_disk pid vpage b =
    modify (λ o. record o { disk = update o.disk pid (update (o.disk pid) vpage b) })

-- The members before the constructor's body runs.
abbrev pub blank_os : Mmu → Os
blank_os u = record {
  machine = record { cpu = new_cpu; mmu = u; output = [] };
  next_pid = 1;
  processes = [];
  ready = λ prio. [];
  sleeping = [];
  shared_phys_pages = [];
  locks = λ l. record { held = false; owner_pid = 0; wait_queue = [] };
  events = λ e. record { signaled = false; wait_queue = [] };
  disk = λ pid vpage. none;
  phys_page_owner = [];
}

-- One round of the constructor's loop: a page for a shared region.
abbrev pub add_shared_page : Action Os (Unit {0})
add_shared_page = do
  pp ← on_mmu Mmu.alloc_phys_page
  modify (λ o. record o { shared_phys_pages = o.shared_phys_pages ++ pp ∷ [] })

abbrev pub constructed : Result (Unit {0}) × Os → Result Os
constructed (ok _, o) = ok o
constructed (throw e, o) = throw e

-- OS::OS
unfoldable pub new_os : ℕ → Result Os
new_os phys_mem_bytes = Mmu.new_mmu phys_mem_bytes >>=? λ u.
    constructed (for_range num_shared_regions 0 (λ i. add_shared_page) (blank_os u))
