-- ===== src/Os/Swap/Pages.antt =====
-- What evictOnePage_ and handlePageFault_ of OS.cpp do with a page, its disk copy and its owner.
use csci_480_assignment.Base.{
  subst, sym, ap, ◌∙◌, ◌^◌, ◌-◌, lt_of_get_elem?, ℕ, ◌<◌, ◌≡◌, Bool, true, false, none, some, List,
  arith, ok, ◌>>◌, length, get_elem?, set, lookup, lookup-erase, lookup-insert,
}
use csci_480_assignment.Lru
use csci_480_assignment.Mmu
use csci_480_assignment.Mmu.{Mmu, PageEntry, mapped_to, get_lru_phys_page, remove_lru_entry}
use csci_480_assignment.Pcb.{Pcb}
use csci_480_assignment.Os.State.{Os}
use csci_480_assignment.Os.Swap.{
  evict_one_page, release_owner, swap_out, find_owner, swapped_out, set_entry, fill_page, wire_page,
}
use csci_480_assignment.Os.Swap.Entries.{Revised, set_entry-Revised}

-- The frame `pp` is the one that the LRU list offers, and it holds page `vp` of process `p`.
pub record Victim (o : Os) (pp pid vp i : ℕ) (p : Pcb) (e : PageEntry) : Type 0 where
  pub oldest : Lru.lru_page o.machine.mmu.lru o.shared_phys_pages ≡ some pp
  pub owned : lookup pp o.phys_page_owner ≡ some (pid, vp)
  pub owner : find_owner pid vp 0 o.processes ≡ some i
  pub process : get_elem? o.processes i ≡ some p
  pub entry : get_elem? p.page_table vp ≡ some e

-- A dirty victim whose frame can be read goes to the disk with its bytes, its entry is not valid any
-- more and names no frame, and the frame has no owner and is off the LRU list. All other entries and
-- processes are as before.
pub evict_one_page_dirty :
    (o : Os) (pp pid vp i : ℕ) (p : Pcb) (e : PageEntry) (buf : List ℕ) (u : Mmu)
    → Victim o pp pid vp i p e
    → e.is_dirty ≡ true
    → Mmu.read_phys_page pp o.machine.mmu ≡ (ok buf, u)
    → let (r, o') = evict_one_page o in
      (r ≡ ok pp)
      × (o'.disk pid vp ≡ some buf)
      × Revised o.processes o'.processes i vp p
          (record { phys_page = 2 ^ 32 - 1; is_valid = false; is_dirty = true })
      × (lookup pp o'.phys_page_owner ≡ none)
      × (o'.machine.mmu.lru ≡ Lru.remove_entry u.lru pp)
unfolding evict_one_page release_owner swap_out get_lru_phys_page remove_lru_entry
evict_one_page_dirty o pp pid vp i p e buf u v d r =
    let gone : PageEntry = record { phys_page = 2 ^ 32 - 1; is_valid = false; is_dirty = true } in
    let revised =
      set_entry-Revised o.processes i vp p gone v.process
        (lt_of_get_elem? p.page_table vp v.entry) in
    let entry : swapped_out e ≡ gone = ground (arith, d) in
    let run : (evict_one_page o).1.processes ≡ set o.processes i (set_entry vp (swapped_out e) p) =
      ground (arith, v.oldest, v.owned, v.owner, v.process, v.entry) in
    (
      ground (arith, v.oldest, v.owned, v.owner, v.process, v.entry),
      ground (arith, v.oldest, v.owned, v.owner, v.process, v.entry),
      subst (λ qs. Revised o.processes qs i vp p gone)
          (sym (run ∙ ap (λ x. set o.processes i (set_entry vp x p)) entry)) revised,
      ground (
        arith,
        v.oldest,
        v.owned,
        v.owner,
        v.process,
        v.entry,
        lookup-erase pp pp o.phys_page_owner,
      ),
      ground (arith, v.oldest, v.owned, v.owner, v.process, v.entry),
    )

-- A clean victim is dropped: the disk stays as it was, whatever the page holds.
pub evict_one_page_clean :
    (o : Os) (pp pid vp i : ℕ) (p : Pcb) (e : PageEntry)
    → Victim o pp pid vp i p e
    → e.is_dirty ≡ false
    → let (r, o') = evict_one_page o in
      (r ≡ ok pp)
      × (o'.disk ≡ o.disk)
      × (o'.processes ≡ set o.processes i (set_entry vp (swapped_out e) p))
      × (lookup pp o'.phys_page_owner ≡ none)
unfolding evict_one_page release_owner swap_out get_lru_phys_page remove_lru_entry
evict_one_page_clean o pp pid vp i p e v d =
    ground
      (arith, v.oldest, v.owned, v.owner, v.process, v.entry, lookup-erase pp pp o.phys_page_owner)

-- A page of the table that is brought in from the disk, where the write to the frame succeeds, has no
-- copy there any more; its entry is valid and clean and names the frame, which it owns. All other
-- entries and processes are as before.
pub fill_page-wire_page :
    (o : Os) (pp pid vp i : ℕ) (fresh : Bool) (p : Pcb) (buf : List ℕ) (u : Mmu)
    → get_elem? o.processes i ≡ some p
    → vp < length p.page_table
    → o.disk pid vp ≡ some buf
    → Mmu.write_phys_page pp buf o.machine.mmu ≡ (ok tt, u)
    → let (r, o') = (fill_page pp pid vp fresh >> wire_page i pid vp pp) o in
      (r ≡ ok tt)
      × (o'.disk pid vp ≡ none)
      × Revised o.processes o'.processes i vp p
          (record { phys_page = pp; is_valid = true; is_dirty = false })
      × (lookup pp o'.phys_page_owner ≡ some (pid, vp))
      × (o'.machine.mmu.lru ≡ Lru.touch u.lru pp)
unfolding fill_page wire_page Mmu.touch_phys_page
fill_page-wire_page o pp pid vp i fresh p buf u hp lt d w =
    let o' = ((fill_page pp pid vp fresh >> wire_page i pid vp pp) o).1 in
    let here : PageEntry = record { phys_page = pp; is_valid = true; is_dirty = false } in
    let run : o'.processes ≡ set o.processes i (set_entry vp here p) = ground arith in
    (
      ground arith,
      ground arith,
      subst (λ qs. Revised o.processes qs i vp p here) (sym run)
          (set_entry-Revised o.processes i vp p here hp lt),
      ground (arith, lookup-insert pp pp (pid, vp) o.phys_page_owner),
      ground arith,
    )
