-- ===== src/Examples/Processor.antt =====
-- Instructions of the CPU on the MMU with one page.
use csci_480_assignment.Base.{
  inr, [], ℕ, ◌^◌, ◌<◌, ◌≡◌, refl, Option, [], arith, ok, throw, page_fault, ◌==◌, if◌then◌else◌,
}
use csci_480_assignment.PhysMem
use csci_480_assignment.Word.{u32, sub32, add32, sign_extend}
use csci_480_assignment.Mmu
use csci_480_assignment.Mmu.{Mmu}
use csci_480_assignment.Mmu.Access.{Shows, byte_at}
use csci_480_assignment.Mmu.Words.{Word}
use csci_480_assignment.Opcode.{Opcode, code, of_code, find_code}
use csci_480_assignment.Cpu.{
  check_reg, Machine, Trap, new_cpu, step, fetch, fetch_execute, execute, dispatch,
}
use csci_480_assignment.Cpu.Faults.{step-cpu_fault, step-sp_push_fault}
use csci_480_assignment.Cpu.Fetch.{Stored, fetch-Stored}
use csci_480_assignment.Cpu.Stack.{popr-pushr}
use csci_480_assignment.Examples.Memory.{mmu_with, mmu_with-Shows}

-- `pushi $5`, at address 0.
abbrev program : ℕ → ℕ
program a = if a == 0 then code Opcode.pushi else if a == 4 then 5 else 0

abbrev at : ℕ → ℕ → Machine
at ip sp = record {
  cpu = record new_cpu { ip = ip; sp = sp; regs = λ r. 77 };
  mmu = mmu_with program;
  output = [];
}

abbrev memory : ℕ → Option ℕ
memory = byte_at (mmu_with program)

op-Stored : Stored memory 0 (code Opcode.pushi)
unfolding Mmu.is_valid_vaddr code
op-Stored = (refl, refl, refl, refl)

a-Stored : Stored memory 4 5
unfolding Mmu.is_valid_vaddr code
a-Stored = (refl, refl, refl, refl)

b-Stored : Stored memory 8 0
unfolding Mmu.is_valid_vaddr code
b-Stored = (refl, refl, refl, refl)

code_small : code Opcode.pushi < 2 ^ 32
unfolding code
code_small = omega arith

fetch-Stored_example :
    (u : Mmu) × (fetch (at 0 100) ≡ (
      ok (code Opcode.pushi, 5, 0),
      record (at 0 100) { cpu = record (at 0 100).cpu { ip = add32 0 12 }; mmu = u },
    ))
    × Shows u memory
fetch-Stored_example =
    fetch-Stored (at 0 100) memory (code Opcode.pushi) 5 0 code_small (omega arith) (omega arith)
      (mmu_with-Shows program) op-Stored a-Stored b-Stored

sp-Word : Word memory (sub32 100 4) 0 0 0 0
unfolding Mmu.is_valid_vaddr code
sp-Word = (refl, refl, refl, refl)

popr-pushr_example :
    (m1 m2 : Machine) × (execute Opcode.pushr 1 0 (at 0 100) ≡ (ok Trap.no_trap, m1))
    × (execute Opcode.popr 2 0 m1 ≡ (ok Trap.no_trap, m2))
    × (m2.cpu.regs 2 ≡ sign_extend (u32 77))
    × (m2.cpu.sp ≡ 100)
popr-pushr_example =
    popr-pushr (at 0 100) memory 1 2 0 0 0 0 0 0 refl refl (omega arith) (mmu_with-Shows program)
      sp-Word

-- `printm r1`, where r1 holds an address whose page is valid, and not mapped.
abbrev printing : Machine
printing = record {
  cpu = record new_cpu { regs = λ r. 300 };
  mmu = mmu_with (λ a. if a == 0 then code Opcode.printm else if a == 4 then 1 else 0);
  output = [];
}

printm_fetched : (fetch printing).0 ≡ ok (code Opcode.printm, 1, 0)
unfolding fetch Mmu.read32 Mmu.read8 Mmu.translate Mmu.walk Mmu.is_valid_vaddr PhysMem.read8 code
    Mmu.touch_phys_page
printm_fetched = refl

printm_fault : (step printing).0 ≡ throw (page_fault 1)
unfolding step fetch_execute dispatch of_code find_code execute fetch check_reg Mmu.read32 Mmu.read8
    Mmu.translate Mmu.walk Mmu.is_valid_vaddr PhysMem.read8 code Mmu.touch_phys_page
printm_fault = refl

step-cpu_fault_example : ((step printing).1.cpu ≡ printing.cpu) × ((step printing).1.output ≡ [])
step-cpu_fault_example =
    step-cpu_fault printing 1 (inr (Opcode.printm, 1, 0, printm_fetched, refl)) printm_fault

fetched : (sp : ℕ) → fetch (at 0 sp) ≡ (ok (code Opcode.pushi, 5, 0), (fetch (at 0 sp)).1)
unfolding fetch Mmu.read32 Mmu.read8 Mmu.translate Mmu.walk Mmu.is_valid_vaddr PhysMem.read8 code
    Mmu.touch_phys_page
fetched sp = refl

push_fault : (step (at 0 512)).0 ≡ throw (page_fault 1)
unfolding step fetch_execute dispatch of_code find_code execute fetch Mmu.read32 Mmu.read8
    Mmu.write32 Mmu.write8 Mmu.translate Mmu.walk Mmu.is_valid_vaddr PhysMem.read8 code
    Mmu.touch_phys_page
push_fault = refl

step-sp_push_fault_example :
    ((step (at 0 512)).1.cpu.ip ≡ 0) × ((step (at 0 512)).1.cpu.sp ≡ sub32 512 4)
step-sp_push_fault_example =
    step-sp_push_fault (at 0 512) (fetch (at 0 512)).1 5 0 1 (fetched 512) push_fault
