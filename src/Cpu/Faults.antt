-- ===== src/Cpu/Faults.antt =====
-- Page faults in CPU::step of CPU.cpp: the instruction pointer is put back, a stack pointer that the
-- instruction has moved is not.
use csci_480_assignment.Base.{
  Bool, true, false, ◌⊎◌, inl, inr, ℕ, ◌≡◌, refl, sym, ap, ◌∙◌, arith, Result, ok, throw,
  page_fault,
}
use csci_480_assignment.Word.{sub32}
use csci_480_assignment.Opcode.{Opcode, code}
use csci_480_assignment.Opcode.Codes.{of_code-code}
use csci_480_assignment.Cpu.{
  Cpu, Machine, Trap, restore_ip, step, fetch_execute, execute, dispatch, fetch, check_reg,
}

restore_ip_fault :
    (saved v : ℕ) (r : Result Trap × Machine)
    → (restore_ip saved r).0 ≡ throw (page_fault v)
    → (restore_ip saved r).1.cpu.ip ≡ saved
restore_ip_fault saved v (ok t, m) h = absurd (ground arith)
restore_ip_fault saved v (throw (page_fault w), m) h = refl
restore_ip_fault saved v (throw e, m) h = absurd (ground arith)

-- Fetching moves the instruction pointer alone.
fetch-sp : (m : Machine) → (fetch m).1.cpu.sp ≡ m.cpu.sp
unfolding fetch
fetch-sp m = ground arith

push-sp_fault :
    (m : Machine) (value b v : ℕ)
    → (execute Opcode.pushi value b m).0 ≡ throw (page_fault v)
    → (execute Opcode.pushi value b m).1.cpu.sp ≡ sub32 m.cpu.sp 4
unfolding execute
push-sp_fault m value b v h = ground arith

restore_ip-sp : (saved : ℕ) (r : Result Trap × Machine) → (restore_ip saved r).1.cpu.sp ≡ r.1.cpu.sp
restore_ip-sp saved (ok t, m) = refl
restore_ip-sp saved (throw (page_fault w), m) = refl
restore_ip-sp saved (throw e, m) = refl

restore_ip-throw :
    (saved v : ℕ) (r : Result Trap × Machine)
    → (restore_ip saved r).0 ≡ throw (page_fault v)
    → r.0 ≡ throw (page_fault v)
restore_ip-throw saved v (ok t, m) h = h
restore_ip-throw saved v (throw (page_fault w), m) h = h
restore_ip-throw saved v (throw e, m) h = h

-- A step whose fetch gives the code of an instruction executes that instruction.
pub fetch_execute_op :
    (m m' : Machine) (op : Opcode) (a b : ℕ)
    → fetch m ≡ (ok (code op, a, b), m')
    → fetch_execute m ≡ execute op a b m'
unfolding fetch_execute dispatch
fetch_execute_op m m' op a b f = ground (arith, of_code-code op)

-- A `pushi` that page faults in its write leaves the CPU at the same instruction with the stack
-- pointer lowered by 4 already, so that the retry lowers it once more.
pub step-sp_push_fault :
    (m m' : Machine) (value b v : ℕ)
    → fetch m ≡ (ok (code Opcode.pushi, value, b), m')
    → (step m).0 ≡ throw (page_fault v)
    → ((step m).1.cpu.ip ≡ m.cpu.ip) × ((step m).1.cpu.sp ≡ sub32 m.cpu.sp 4)
unfolding step
step-sp_push_fault m m' value b v f h =
    let run = fetch_execute_op m m' Opcode.pushi value b f in
    let fault : (execute Opcode.pushi value b m').0 ≡ throw (page_fault v) =
      sym (ap (λ r. r.0) run) ∙ restore_ip-throw m.cpu.ip v (fetch_execute m) h in
    (
      restore_ip_fault m.cpu.ip v (fetch_execute m) h,
      restore_ip-sp m.cpu.ip (fetch_execute m)
          ∙ ap (λ r. r.1.cpu.sp) run
          ∙ push-sp_fault m' value b v fault
          ∙ ap (λ s. sub32 s 4) (sym (ap (λ r. r.1.cpu.sp) f) ∙ fetch-sp m),
    )

-- The instructions that move the stack pointer before their last access to memory.
abbrev pub moves_sp_early : Opcode → Bool
moves_sp_early Opcode.pushi = true
moves_sp_early Opcode.pushr = true
moves_sp_early Opcode.call = true
moves_sp_early Opcode.callm = true
moves_sp_early Opcode.popm = true
moves_sp_early _ = false

-- Any other instruction that page faults has changed no register and printed nothing.
execute-fault :
    (op : Opcode) (m : Machine) (a b v : ℕ)
    → moves_sp_early op ≡ false
    → (execute op a b m).0 ≡ throw (page_fault v)
    → ((execute op a b m).1.cpu ≡ m.cpu) × ((execute op a b m).1.output ≡ m.output)
unfolding execute check_reg
execute-fault Opcode.exit m a b v s h = ground arith
execute-fault _ m a b v s h = ground arith

-- Fetching changes the instruction pointer and the MMU alone.
fetch-cpu :
    (m : Machine)
    → (record (fetch m).1.cpu { ip = m.cpu.ip } ≡ m.cpu) × ((fetch m).1.output ≡ m.output)
unfolding fetch
fetch-cpu m = ground arith

-- What is left of a step behind its fetch and its instruction, where they page fault.
restore_ip-fault :
    (m : Machine) (v : ℕ) (r : Result Trap × Machine)
    → (restore_ip m.cpu.ip r).0 ≡ throw (page_fault v)
    → record r.1.cpu { ip = m.cpu.ip } ≡ m.cpu
    → (restore_ip m.cpu.ip r).1.cpu ≡ m.cpu
restore_ip-fault m v (ok t, w) h e = absurd (ground arith)
restore_ip-fault m v (throw (page_fault x), w) h e = e
restore_ip-fault m v (throw e, w) h x = absurd (ground arith)

restore_ip-output :
    (saved : ℕ) (r : Result Trap × Machine) → (restore_ip saved r).1.output ≡ r.1.output
restore_ip-output saved (ok t, m) = refl
restore_ip-output saved (throw (page_fault w), m) = refl
restore_ip-output saved (throw e, m) = refl

-- A step that page faults, in its fetch or in any instruction but pushi, pushr, call, callm and popm,
-- leaves every register and flag of the CPU as it was, and prints nothing: it can be tried again.
pub step-cpu_fault :
    (m : Machine) (v : ℕ)
    → (((fetch m).0 ≡ throw (page_fault v))
        ⊎ ((op : Opcode) × (a : ℕ) × (b : ℕ) × ((fetch m).0 ≡ ok (code op, a, b))
            × (moves_sp_early op ≡ false)))
    → (step m).0 ≡ throw (page_fault v)
    → ((step m).1.cpu ≡ m.cpu) × ((step m).1.output ≡ m.output)
unfolding step fetch_execute
step-cpu_fault m v (inl f) h =
    let (cpu, out) = fetch-cpu m in
    let run : fetch_execute m ≡ (throw (page_fault v), (fetch m).1) = ground (arith, f) in
    let same : record (fetch_execute m).1.cpu { ip = m.cpu.ip } ≡ m.cpu =
      ap (λ r. record r.1.cpu { ip = m.cpu.ip }) run ∙ cpu in
    (
      restore_ip-fault m v (fetch_execute m) h same,
      restore_ip-output m.cpu.ip (fetch_execute m) ∙ ap (λ r. r.1.output) run ∙ out,
    )
step-cpu_fault m v (inr (op, a, b, f, s)) h =
    let (cpu, out) = fetch-cpu m in
    let w = (fetch m).1 in
    let run : fetch_execute m ≡ execute op a b w = fetch_execute_op m w op a b (λ i. (f i, w)) in
    let fault : (execute op a b w).0 ≡ throw (page_fault v) =
      sym (ap (λ r. r.0) run) ∙ restore_ip-throw m.cpu.ip v (fetch_execute m) h in
    let (kept, quiet) = execute-fault op w a b v s fault in
    let same : record (fetch_execute m).1.cpu { ip = m.cpu.ip } ≡ m.cpu =
      ap (λ r. record r.1.cpu { ip = m.cpu.ip }) run
      ∙ ap (λ (c : Cpu). record c { ip = m.cpu.ip }) kept
      ∙ cpu in
    (
      restore_ip-fault m v (fetch_execute m) h same,
      restore_ip-output m.cpu.ip (fetch_execute m) ∙ ap (λ r. r.1.output) run ∙ quiet ∙ out,
    )
