-- ===== src/Os/Heap/Requests.antt =====
-- Requests for heap memory in handleAlloc_ of OS.cpp, by their size.
use csci_480_assignment.Base.{
  ◌⊎◌, inl, inr, ◌≢◌, refl, ap, ok, set, get_elem?-set_self, lt_of_get_elem?, [], ◌∷◌, ◌++◌, ℕ, ◌+◌,
  ◌-◌, ◌*◌, ◌^◌, ◌≤◌, ◌<◌, ◌≡◌, ◌||◌, true, some, arith, get_elem?, ltb, set, get_elem?-set_self,
  lt_of_get_elem?,
}
use csci_480_assignment.Mmu.{page_size}
use csci_480_assignment.Pcb.{Pcb, ProcState}
use csci_480_assignment.Os.Scheduler.Queues.{Queued-in_range, enqueue_ready_lem}
use csci_480_assignment.Os.State.{Os}
use csci_480_assignment.Os.Heap.{
  handle_alloc, pages_needed, set_process_reg, is_not_positive, heap_pages, reply,
}

-- A request of less than 2 ^ 32 - 255 bytes takes the fewest pages that hold it.
pub pages_needed_lem :
    (bytes : ℕ)
    → bytes ≤ 2 ^ 32 - 256
    → (bytes ≤ pages_needed bytes * page_size)
      × (pages_needed bytes * page_size < bytes + page_size)
pages_needed_lem bytes h = (omega arith, omega arith)

-- From `o` to `o'` the process at `i`, which was `p`, has been answered 0 in its address register, is
-- ready and stands in a ready queue; its table and all its allocations, the memory, the disk and the
-- owners of frames are as before.
pub record Refused (o o' : Os) (i : ℕ) (p : Pcb) : Type 0 where
  pub process : Pcb
  pub queue : ℕ
  pub at : get_elem? o'.processes i ≡ some process
  pub answer : process.regs p.trap_reg_b ≡ 0
  pub registers : (r : ℕ) → p.trap_reg_b ≢ r → process.regs r ≡ p.regs r
  pub state : process.state ≡ ProcState.ready
  pub table : process.page_table ≡ p.page_table
  pub allocations : process.heap_allocations ≡ p.heap_allocations
  pub queued : o'.ready queue ≡ o.ready queue ++ i ∷ []
  pub in_range : (1 ≤ queue) × (queue ≤ 32)
  pub machine : o'.machine ≡ o.machine
  pub disk : o'.disk ≡ o.disk
  pub owners : o'.phys_page_owner ≡ o.phys_page_owner

reply-Refused :
    (o : Os) (i : ℕ) (p : Pcb)
    → get_elem? o.processes i ≡ some p
    → (o' : Os) × (reply i p.trap_reg_b 0 o ≡ (ok tt, o')) × Refused o o' i p
unfolding reply
reply-Refused o i p h =
    let answered = set_process_reg p.trap_reg_b 0 p in
    let o1 : Os = record o { processes = set o.processes i answered } in
    let at = get_elem?-set_self o.processes i answered (lt_of_get_elem? o.processes i h) in
    let (o', k, run, q) = enqueue_ready_lem o1 i answered at in
    (
      o',
      ground (arith, run),
      record {
        process = record answered { state = ProcState.ready };
        queue = k;
        at = q.at;
        answer = ground arith;
        registers = λ r n. ground arith;
        state = refl;
        table = refl;
        allocations = refl;
        queued = q.queue;
        in_range = Queued-in_range o1 o' i answered k q;
        machine = ap (λ x. x.machine) q.rest;
        disk = ap (λ x. x.disk) q.rest;
        owners = ap (λ x. x.phys_page_owner) q.rest;
      },
    )

-- A request that is 0 or negative as an int64_t, or that needs more pages than the heap has, is
-- answered by address 0: no page is taken, and the process is ready again.
pub handle_alloc-Refused :
    (o : Os) (i : ℕ) (p : Pcb)
    → get_elem? o.processes i ≡ some p
    → (p.regs p.trap_reg_a ≡ 0)
      ⊎ ((2 ^ 63 ≤ p.regs p.trap_reg_a) ⊎ (heap_pages p < pages_needed (p.regs p.trap_reg_a)))
    → (o' : Os) × (handle_alloc i o ≡ (ok tt, o')) × Refused o o' i p
unfolding handle_alloc
handle_alloc-Refused o i p h t =
    let (o', run, r) = reply-Refused o i p h in
    let refused : (is_not_positive (p.regs p.trap_reg_a)
          || ltb (heap_pages p) (pages_needed (p.regs p.trap_reg_a)))
        ≡ true =
      elim t [ inl z ↦ ground arith | inr (inl n) ↦ ground arith | inr (inr l) ↦ ground arith ] in
    (o', ground (arith, refused, run), r)
