-- ===== src/Os/Heap.antt =====
-- The heap handlers of OS.cpp: Alloc and FreeMemory.
pub mod Search
pub mod Requests
pub mod Evicted
use csci_480_assignment.Base.{
  ℕ, zero, suc, ◌+◌, ◌-◌, ◌/◌, ◌%◌, ◌^◌, Bool, true, false, not, ◌&&◌, ◌||◌, Option, none, some,
  List, [], ◌∷◌, ◌++◌, get_elem?, update, ltb, leb, ◌==◌, if◌then◌else◌, Action, ok, ◌>>=◌, ◌>>◌,
  pure, gets, when, catch, for_range, insert, erase,
}
use csci_480_assignment.Word.{u32, add32, sub32, mul32}
use csci_480_assignment.Mmu
use csci_480_assignment.Mmu.{PageEntry, PageTable, unmapped, blank, mapped_to, grow, page_size}
use csci_480_assignment.Pcb.{Pcb}
use csci_480_assignment.Os.State.{
  Os, on_mmu, get_process, put_process, modify_process, set_owner, set_disk,
}
use csci_480_assignment.Os.Scheduler.{enqueue_ready}
use csci_480_assignment.Os.Swap.{evict_one_page, set_entry}

-- regs[r] = v of a process
abbrev pub set_process_reg : ℕ → ℕ → Pcb → Pcb
set_process_reg r v p = record p { regs = update p.regs r v }

-- reqBytes <= 0 of an int64_t
abbrev pub is_not_positive : ℕ → Bool
is_not_positive v = v == 0 || leb (2 ^ 63) v

-- pagesNeeded, in the arithmetic of uint32_t
abbrev pub pages_needed : ℕ → ℕ
pages_needed bytes = sub32 (add32 (u32 bytes) page_size) 1 / page_size

-- inUse of an entry, where `on_disk` is disk_.count({pid, vp}) > 0.
abbrev pub entry_in_use : PageEntry → Bool → Bool
entry_in_use e on_disk = e.is_valid || (not (e.phys_page == unmapped) || on_disk)

abbrev pub is_some {ℓ} : {A : Type ℓ} → Option A → Bool
is_some none = false
is_some (some a) = true

-- inUse of a page. The table has been grown to hold every heap page.
unfoldable pub in_use : PageTable → (ℕ → Option (List ℕ)) → ℕ → Bool
in_use pt disk vp = elim (get_elem? pt vp) [
  | none ↦ true
  | some e ↦ entry_in_use e (is_some (disk vp))
]

-- The loop that looks for a run of `pages` free pages, over `n` pages from `vp` on.
unfoldable pub find_run : (ℕ → Bool) → ℕ → ℕ → ℕ → ℕ → ℕ → Option ℕ
find_run used pages zero vp run_start run_len = none
find_run used pages (suc n) vp run_start run_len = elim (used vp) [
  | true ↦ find_run used pages n (vp + 1) run_start 0
  | false ↦
      let start = if run_len == 0 then vp else run_start in
      elim (run_len + 1 == pages) [
        | true ↦ some start
        | false ↦ find_run used pages n (vp + 1) start (run_len + 1)
      ]
]

-- One round of the loop that allocates the pages of the run.
unfoldable pub alloc_heap_page : ℕ → ℕ → ℕ → Action Os (Unit {0})
alloc_heap_page i pid vp = do
  pp ←
      catch (on_mmu Mmu.alloc_phys_page)
        (λ e. do pp ← evict_one_page; on_mmu (Mmu.zero_phys_page pp); pure pp)
  modify_process i (set_entry vp (mapped_to pp))
  set_owner (insert pp (pid, vp))
  on_mmu (Mmu.touch_phys_page pp)
  modify_process i (λ p. record p { working_set_pages = p.working_set_pages ++ vp ∷ [] })

-- The result register is set, and the process is ready again.
unfoldable pub reply : ℕ → ℕ → ℕ → Action Os (Unit {0})
reply i r v = do modify_process i (set_process_reg r v); enqueue_ready i

-- The pages of the heap, first and last, and how many they are.
abbrev pub heap_first : Pcb → ℕ
heap_first p = p.bounds.heap_start / page_size

abbrev pub heap_last : Pcb → ℕ
heap_last p = sub32 p.bounds.heap_end 1 / page_size

abbrev pub heap_pages : Pcb → ℕ
heap_pages p = add32 (sub32 (heap_last p) (heap_first p)) 1

-- The pages of a run that was found are allocated, and the address is the answer.
unfoldable pub alloc_run : ℕ → ℕ → ℕ → ℕ → ℕ → Action Os (Unit {0})
alloc_run i pid addr_reg pages start = do
  for_range pages 0 (λ k. alloc_heap_page i pid (start + k))
  let vaddr = mul32 start page_size
  modify_process i
      (λ p. record p { heap_allocations = update p.heap_allocations vaddr (some pages) })
  reply i addr_reg vaddr

-- The search for a run, once the request is known to be no larger than the heap.
unfoldable pub alloc_pages : ℕ → Pcb → ℕ → Action Os (Unit {0})
alloc_pages i p pages = do
  let table = grow (heap_last p + 1) p.page_table
  put_process i (record p { page_table = table })
  o ← gets (λ o. o)
  elim (find_run (in_use table (o.disk p.pid)) pages (heap_last p + 1 - heap_first p) (heap_first p)
      0 0) [
        | none ↦ reply i p.trap_reg_b 0
        | some start ↦ alloc_run i p.pid p.trap_reg_b pages start
      ]

-- OS::handleAlloc_
unfoldable pub handle_alloc : ℕ → Action Os (Unit {0})
handle_alloc i = do
  p ← get_process i
  let bytes = p.regs p.trap_reg_a
  if is_not_positive bytes || ltb (heap_pages p) (pages_needed bytes)
      then reply i p.trap_reg_b 0
      else alloc_pages i p (pages_needed bytes)

-- One round of the loop of handleFreeMemory_.
unfoldable pub free_heap_page : ℕ → ℕ → Action Os (Unit {0})
free_heap_page i vp = do
  p ← get_process i
  elim (get_elem? p.page_table vp) [
    | none ↦ pure tt
    | some e ↦ (do
      when (e.is_valid && not (e.phys_page == unmapped))
          (do on_mmu (Mmu.free_phys_page e.phys_page); set_owner (erase e.phys_page))
      set_disk p.pid vp none
      put_process i (set_entry vp blank p))
  ]

-- OS::handleFreeMemory_
unfoldable pub handle_free_memory : ℕ → Action Os (Unit {0})
handle_free_memory i = do
  p ← get_process i
  let vaddr = u32 (p.regs p.trap_reg_a)
  elim (p.heap_allocations vaddr) [
    | none ↦ enqueue_ready i
    | some pages ↦ (do
      for_range pages 0 (λ k. free_heap_page i (vaddr / page_size + k))
      modify_process i (λ q. record q { heap_allocations = update q.heap_allocations vaddr none })
      enqueue_ready i)
  ]
