-- ===== src/Os/Swap/Restore.antt =====
-- The bytes of a page that evictOnePage_ of OS.cpp has saved and handlePageFault_ brings back.
use csci_480_assignment.Base.{ℕ, ◌+◌, ◌*◌, ◌^◌, ◌≤◌, ◌≡◌, Bool, true, some, List, arith, ok, length}
use csci_480_assignment.Mmu.{Mmu, PageEntry, page_size, read_phys_page}
use csci_480_assignment.Mmu.Frames.{read_phys_page-write_phys_page}
use csci_480_assignment.Pcb.{Pcb}
use csci_480_assignment.Os.State.{Os}
use csci_480_assignment.Os.Swap.{evict_one_page, fill_page}
use csci_480_assignment.Os.Swap.Pages.{Victim, evict_one_page_dirty}

-- The frame lies in the memory of the OS, which is at most 2 ^ 32 bytes.
pub record Frame (o : Os) (pp : ℕ) : Type 0 where
  pub inside : (pp + 1) * page_size ≤ o.machine.mmu.phys_mem.size
  pub small : o.machine.mmu.phys_mem.size ≤ 2 ^ 32

-- The frame holds the bytes of a page that is brought in from the disk.
pub fill_page-read_phys_page :
    (o : Os) (pp pid vp : ℕ) (fresh : Bool) (buf : List ℕ)
    → o.disk pid vp ≡ some buf
    → length buf ≡ page_size
    → Frame o pp
    → (o' : Os) × (fill_page pp pid vp fresh o ≡ (ok tt, o'))
      × (read_phys_page pp o'.machine.mmu ≡ (ok buf, o'.machine.mmu))
unfolding fill_page
fill_page-read_phys_page o pp pid vp fresh buf d whole f =
    let (w, wrote, read, _) =
      read_phys_page-write_phys_page o.machine.mmu pp buf whole f.inside f.small in
    ((fill_page pp pid vp fresh o).1, ground (arith, wrote), ground (arith, wrote, read))

-- A dirty page of 256 bytes that is evicted, and that is brought in again, into whichever frame of
-- the memory, has its bytes back.
pub evict_one_page-fill_page :
    (o : Os) (pp qq pid vp i : ℕ) (fresh : Bool) (p : Pcb) (e : PageEntry) (buf : List ℕ) (u : Mmu)
    → Victim o pp pid vp i p e
    → e.is_dirty ≡ true
    → read_phys_page pp o.machine.mmu ≡ (ok buf, u)
    → length buf ≡ page_size
    → Frame (evict_one_page o).1 qq
    → (o' : Os) × (fill_page qq pid vp fresh (evict_one_page o).1 ≡ (ok tt, o'))
      × (read_phys_page qq o'.machine.mmu ≡ (ok buf, o'.machine.mmu))
evict_one_page-fill_page o pp qq pid vp i fresh p e buf u v d r whole f =
    let (_, saved, _, _, _) = evict_one_page_dirty o pp pid vp i p e buf u v d r in
    fill_page-read_phys_page (evict_one_page o).1 qq pid vp fresh buf saved whole f
