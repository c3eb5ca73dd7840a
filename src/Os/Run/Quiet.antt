-- ===== src/Os/Run/Quiet.antt =====
-- The invariant of locks and events during page faults, evictions and heap requests of OS.cpp.
use csci_480_assignment.Base.{
  ℕ, ◌+◌, ◌-◌, Bool, true, false, pure, erase, insert, lookup, refl, none, some, Option, List,
  arith, Action, Keeps, Keeps->>=, Keeps->>, Keeps-pure, Keeps-gets, Keeps-or_throw, Keeps-catch,
  Keeps-when, Keeps-if, Keeps-for_range, get_elem?, bad_index,
}
use csci_480_assignment.Mmu
use csci_480_assignment.Mmu.{Mmu, mapped_to, grow}
use csci_480_assignment.Pcb.{Pcb}
use csci_480_assignment.Os.State.{
  Os, on_mmu, get_process, modify_process, put_process, set_owner, set_disk,
}
use csci_480_assignment.Os.Scheduler.{enqueue_ready}
use csci_480_assignment.Os.Swap.{
  swap_out, swapped_out, set_entry, release_owner, find_owner, evict_one_page, fill_page, wire_page,
  obtain_page, handle_page_fault,
}
use csci_480_assignment.Os.Heap.{
  heap_first, heap_last, find_run, in_use, reply, set_process_reg, alloc_heap_page, alloc_run,
  alloc_pages, handle_alloc, free_heap_page, handle_free_memory,
}
use csci_480_assignment.Os.Sync.Invariant.{IsSynced, Keeps-same}

pub on_mmu-IsSynced : {A : Type 0} (m : Action Mmu A) → Keeps IsSynced (on_mmu m)
on_mmu-IsSynced m = Keeps-same _ (λ o. refl) (λ o. refl)

pub put_process-IsSynced : (i : ℕ) (p : Pcb) → Keeps IsSynced (put_process i p)
put_process-IsSynced i p = Keeps-same _ (λ o. refl) (λ o. refl)

pub get_process-IsSynced : (i : ℕ) → Keeps IsSynced (get_process i)
get_process-IsSynced i = Keeps-same _ (λ o. ground arith) (λ o. ground arith)

pub modify_process-IsSynced : (i : ℕ) (f : Pcb → Pcb) → Keeps IsSynced (modify_process i f)
modify_process-IsSynced i f = Keeps->>= (get_process-IsSynced i) (λ p. put_process-IsSynced i (f p))

pub enqueue_ready-IsSynced : (i : ℕ) → Keeps IsSynced (enqueue_ready i)
unfolding enqueue_ready
enqueue_ready-IsSynced i = Keeps-same _ (λ o. ground arith) (λ o. ground arith)

reply-IsSynced : (i r v : ℕ) → Keeps IsSynced (reply i r v)
unfolding reply
reply-IsSynced i r v =
    Keeps->> (modify_process-IsSynced i (set_process_reg r v)) (enqueue_ready-IsSynced i)

pub set_owner-IsSynced :
    (f : List (ℕ × (ℕ × ℕ)) → List (ℕ × (ℕ × ℕ))) → Keeps IsSynced (set_owner f)
set_owner-IsSynced f = Keeps-same _ (λ o. refl) (λ o. refl)

set_disk-IsSynced : (pid vp : ℕ) (b : Option (List ℕ)) → Keeps IsSynced (set_disk pid vp b)
set_disk-IsSynced pid vp b = Keeps-same _ (λ o. refl) (λ o. refl)

-- An action that is chosen by an option.
pub Keeps-option :
    {A B : Type 0} (n : Action Os B) (s : A → Action Os B) (x : Option A)
    → Keeps IsSynced n
    → ((a : A) → Keeps IsSynced (s a))
    → Keeps IsSynced (elim x [ none ↦ n | some a ↦ s a ])
Keeps-option n s none h k = h
Keeps-option n s (some a) h k = k a

-- Eviction, page faults and the heap.
swap_out-IsSynced : (pp pid vp i : ℕ) → Keeps IsSynced (swap_out pp pid vp i)
unfolding swap_out
swap_out-IsSynced pp pid vp i = Keeps->>= (get_process-IsSynced i) (λ p.
    Keeps->>= (Keeps-or_throw (get_elem? p.page_table vp) bad_index) (λ e.
      Keeps->>
        (Keeps-when e.is_dirty (
          Keeps->>= (on_mmu-IsSynced (Mmu.read_phys_page pp))
            (λ b. set_disk-IsSynced pid vp (some b))))
        (put_process-IsSynced i (set_entry vp (swapped_out e) p))))

release_owner-IsSynced : (pp : ℕ) (x : Option (ℕ × ℕ)) → Keeps IsSynced (release_owner pp x)
unfolding release_owner
release_owner-IsSynced pp none = Keeps-pure tt
release_owner-IsSynced pp (some (pid, vp)) = Keeps->>= (Keeps-gets (λ o. o.processes)) (λ ps.
    Keeps->>
      (Keeps-option (pure tt) (swap_out pp pid vp) (find_owner pid vp 0 ps) (Keeps-pure tt)
        (swap_out-IsSynced pp pid vp))
      (set_owner-IsSynced (erase pp)))

evict_one_page-IsSynced : Keeps IsSynced evict_one_page
unfolding evict_one_page
evict_one_page-IsSynced = Keeps->>= (Keeps-gets (λ o. o)) (λ o.
    Keeps->>= (on_mmu-IsSynced (Mmu.get_lru_phys_page o.shared_phys_pages)) (λ pp.
      Keeps->> (release_owner-IsSynced pp (lookup pp o.phys_page_owner))
        (Keeps->> (on_mmu-IsSynced (Mmu.remove_lru_entry pp)) (Keeps-pure pp))))

fill_page-IsSynced : (pp pid vp : ℕ) (fresh : Bool) → Keeps IsSynced (fill_page pp pid vp fresh)
unfolding fill_page
fill_page-IsSynced pp pid vp fresh = Keeps->>= (Keeps-gets (λ o. o)) (λ o.
    Keeps-option _ _ (o.disk pid vp)
      (Keeps-if fresh (Keeps-pure tt) (on_mmu-IsSynced (Mmu.zero_phys_page pp)))
      (λ buf.
        Keeps->> (on_mmu-IsSynced (Mmu.write_phys_page pp buf)) (set_disk-IsSynced pid vp none)))

wire_page-IsSynced : (i pid vp pp : ℕ) → Keeps IsSynced (wire_page i pid vp pp)
unfolding wire_page
wire_page-IsSynced i pid vp pp =
    Keeps->> (modify_process-IsSynced i (set_entry vp (mapped_to pp))) (
      Keeps->> (set_owner-IsSynced (insert pp (pid, vp)))
        (on_mmu-IsSynced (Mmu.touch_phys_page pp)))

obtain_page-IsSynced : Keeps IsSynced obtain_page
unfolding obtain_page
obtain_page-IsSynced =
    Keeps-catch (Keeps->>= (on_mmu-IsSynced Mmu.alloc_phys_page) (λ pp. Keeps-pure (pp, true)))
      (λ e. Keeps->>= evict_one_page-IsSynced (λ pp. Keeps-pure (pp, false)))

pub handle_page_fault-IsSynced : (i vp : ℕ) → Keeps IsSynced (handle_page_fault i vp)
unfolding handle_page_fault
handle_page_fault-IsSynced i vp = Keeps->>= (get_process-IsSynced i) (λ p.
    Keeps->> (put_process-IsSynced i (record p { page_table = grow (vp + 1) p.page_table })) (
      Keeps->>= obtain_page-IsSynced (λ x.
        Keeps->> (fill_page-IsSynced x.0 p.pid vp x.1)
          (Keeps->> (wire_page-IsSynced i p.pid vp x.0) (enqueue_ready-IsSynced i)))))

alloc_heap_page-IsSynced : (i pid vp : ℕ) → Keeps IsSynced (alloc_heap_page i pid vp)
unfolding alloc_heap_page
alloc_heap_page-IsSynced i pid vp =
    Keeps->>=
      (Keeps-catch (on_mmu-IsSynced Mmu.alloc_phys_page) (λ e.
        Keeps->>= evict_one_page-IsSynced
          (λ pp. Keeps->> (on_mmu-IsSynced (Mmu.zero_phys_page pp)) (Keeps-pure pp))))
      (λ pp. Keeps->> (modify_process-IsSynced i (set_entry vp (mapped_to pp))) (
        Keeps->> (set_owner-IsSynced (insert pp (pid, vp)))
          (Keeps->> (on_mmu-IsSynced (Mmu.touch_phys_page pp)) (modify_process-IsSynced i _))))

alloc_run-IsSynced : (i pid r pages start : ℕ) → Keeps IsSynced (alloc_run i pid r pages start)
unfolding alloc_run
alloc_run-IsSynced i pid r pages start =
    Keeps->> (Keeps-for_range pages 0 (λ k. alloc_heap_page-IsSynced i pid (start + k)))
      (Keeps->> (modify_process-IsSynced i _) (reply-IsSynced i r _))

alloc_pages-IsSynced : (i : ℕ) (p : Pcb) (pages : ℕ) → Keeps IsSynced (alloc_pages i p pages)
unfolding alloc_pages
alloc_pages-IsSynced i p pages =
    let table = grow (heap_last p + 1) p.page_table in
    Keeps->> (put_process-IsSynced i (record p { page_table = table })) (
      Keeps->>= (Keeps-gets (λ o. o)) (λ o.
        Keeps-option _ _
          (find_run (in_use table (o.disk p.pid)) pages (heap_last p + 1 - heap_first p)
            (heap_first p) 0 0)
          (reply-IsSynced i p.trap_reg_b 0) (alloc_run-IsSynced i p.pid p.trap_reg_b pages)))

pub handle_alloc-IsSynced : (i : ℕ) → Keeps IsSynced (handle_alloc i)
unfolding handle_alloc
handle_alloc-IsSynced i =
    Keeps->>= (get_process-IsSynced i)
      (λ p. Keeps-if _ (reply-IsSynced i p.trap_reg_b 0) (alloc_pages-IsSynced i p _))

free_heap_page-IsSynced : (i vp : ℕ) → Keeps IsSynced (free_heap_page i vp)
unfolding free_heap_page
free_heap_page-IsSynced i vp = Keeps->>= (get_process-IsSynced i) (λ p.
    Keeps-option _ _ (get_elem? p.page_table vp) (Keeps-pure tt) (λ e.
      Keeps->>
        (Keeps-when _ (
          Keeps->> (on_mmu-IsSynced (Mmu.free_phys_page e.phys_page))
            (set_owner-IsSynced (erase e.phys_page))))
        (Keeps->> (set_disk-IsSynced p.pid vp none) (put_process-IsSynced i _))))

pub handle_free_memory-IsSynced : (i : ℕ) → Keeps IsSynced (handle_free_memory i)
unfolding handle_free_memory
handle_free_memory-IsSynced i = Keeps->>= (get_process-IsSynced i) (λ p.
    Keeps-option _ _ _ (enqueue_ready-IsSynced i) (λ pages.
      Keeps->> (Keeps-for_range pages 0 (λ k. free_heap_page-IsSynced i _))
        (Keeps->> (modify_process-IsSynced i _) (enqueue_ready-IsSynced i))))
