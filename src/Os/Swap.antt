-- ===== src/Os/Swap.antt =====
-- Eviction and the page fault handler of OS.cpp.
pub mod Entries
pub mod Pages
pub mod Restore
use csci_480_assignment.Base.{
  ℕ, suc, ◌+◌, Bool, true, false, ◌&&◌, Option, none, some, List, [], ◌∷◌, length, get_elem?, set,
  ltb, ◌==◌, if◌then◌else◌, Action, ok, ◌>>=◌, ◌>>◌, pure, gets, modify, or_throw, when, catch,
  bad_index, lookup, insert, erase,
}
use csci_480_assignment.Mmu
use csci_480_assignment.Mmu.{PageEntry, unmapped, mapped_to, grow}
use csci_480_assignment.Pcb.{Pcb}
use csci_480_assignment.Os.State.{
  Os, on_mmu, get_process, put_process, modify_process, set_owner, set_disk,
}
use csci_480_assignment.Os.Scheduler.{enqueue_ready}

-- The index of the first process with the pid whose table has the page, counted from `i`.
unfoldable pub find_owner : ℕ → ℕ → ℕ → List Pcb → Option ℕ
find_owner pid vpage i [] = none
find_owner pid vpage i (p ∷ ps) =
    if p.pid == pid && ltb vpage (length p.page_table)
    then some i
    else find_owner pid vpage (suc i) ps

-- The entry of an evicted page.
abbrev pub swapped_out : PageEntry → PageEntry
swapped_out e = record e { phys_page = unmapped; is_valid = false }

abbrev pub set_entry : ℕ → PageEntry → Pcb → Pcb
set_entry vpage e p = record p { page_table = set p.page_table vpage e }

-- The body of the loop of evictOnePage_ at the owner: a dirty page goes to the disk.
unfoldable pub swap_out : ℕ → ℕ → ℕ → ℕ → Action Os (Unit {0})
swap_out ppage pid vpage i = do
  p ← get_process i
  e ← or_throw (get_elem? p.page_table vpage) bad_index
  when e.is_dirty (do buf ← on_mmu (Mmu.read_phys_page ppage); set_disk pid vpage (some buf))
  put_process i (set_entry vpage (swapped_out e) p)

-- What evictOnePage_ does for the owner of the page, if it has one.
unfoldable pub release_owner : ℕ → Option (ℕ × ℕ) → Action Os (Unit {0})
release_owner ppage none = pure tt
release_owner ppage (some (pid, vpage)) = do
  ps ← gets (λ o. o.processes)
  elim (find_owner pid vpage 0 ps) [ none ↦ pure tt | some i ↦ swap_out ppage pid vpage i ]
  set_owner (erase ppage)

-- OS::evictOnePage_
unfoldable pub evict_one_page : Action Os ℕ
evict_one_page = do
  o ← gets (λ o. o)
  ppage ← on_mmu (Mmu.get_lru_phys_page o.shared_phys_pages)
  release_owner ppage (lookup ppage o.phys_page_owner)
  on_mmu (Mmu.remove_lru_entry ppage)
  pure ppage

-- The page is read back from the disk, or is filled with zeros if it is not fresh.
unfoldable pub fill_page : ℕ → ℕ → ℕ → Bool → Action Os (Unit {0})
fill_page ppage pid vpage fresh = do
  o ← gets (λ o. o)
  elim (o.disk pid vpage) [
    | some buf ↦ (do on_mmu (Mmu.write_phys_page ppage buf); set_disk pid vpage none)
    | none ↦ if fresh then pure tt else on_mmu (Mmu.zero_phys_page ppage)
  ]

-- A physical page, and whether it was free: else one is evicted.
unfoldable pub obtain_page : Action Os (ℕ × Bool)
obtain_page =
    catch (do pp ← on_mmu Mmu.alloc_phys_page; pure (pp, true))
      (λ e. do pp ← evict_one_page; pure (pp, false))

-- The page table entry, the owner and the LRU list for a page that has been brought in.
unfoldable pub wire_page : ℕ → ℕ → ℕ → ℕ → Action Os (Unit {0})
wire_page i pid vpage ppage = do
  modify_process i (set_entry vpage (mapped_to ppage))
  set_owner (insert ppage (pid, vpage))
  on_mmu (Mmu.touch_phys_page ppage)

-- OS::handlePageFault_
unfoldable pub handle_page_fault : ℕ → ℕ → Action Os (Unit {0})
handle_page_fault i vpage = do
  p ← get_process i
  put_process i (record p { page_table = grow (vpage + 1) p.page_table })
  (ppage, fresh) ← obtain_page
  fill_page ppage p.pid vpage fresh
  wire_page i p.pid vpage ppage
  enqueue_ready i
