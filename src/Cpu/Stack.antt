-- ===== src/Cpu/Stack.antt =====
-- Push and pop of CPU.cpp on the abstract memory.
use csci_480_assignment.Base.{ℕ, ◌^◌, ◌<◌, ◌≡◌, false, arith, Option, ok, ltb, ◌||◌, update}
use csci_480_assignment.Word.{u32, add32, sub32, sign_extend}
use csci_480_assignment.Mmu.Access.{Shows}
use csci_480_assignment.Mmu.Words.{Word, read32-write32}
use csci_480_assignment.Opcode.{Opcode}
use csci_480_assignment.Cpu.{Cpu, Machine, Trap, execute, check_reg}

-- A value pushed from one register and popped into another arrives there, cut to 32 bits and
-- extended by its sign, and the stack pointer is back where it was.
pub popr-pushr :
    (m : Machine) (mem : ℕ → Option ℕ) (a c x y b0 b1 b2 b3 : ℕ)
    → (ltb a 1 || ltb 10 a) ≡ false
    → (ltb c 1 || ltb 10 c) ≡ false
    → m.cpu.sp < 2 ^ 32
    → Shows m.mmu mem
    → Word mem (sub32 m.cpu.sp 4) b0 b1 b2 b3
    → (m1 m2 : Machine) × (execute Opcode.pushr a x m ≡ (ok Trap.no_trap, m1))
      × (execute Opcode.popr c y m1 ≡ (ok Trap.no_trap, m2))
      × (m2.cpu.regs c ≡ sign_extend (u32 (m.cpu.regs a)))
      × (m2.cpu.sp ≡ m.cpu.sp)
unfolding execute check_reg
popr-pushr m mem a c x y b0 b1 b2 b3 ha hc hs h e =
    let (w, z, wr, rd) =
      read32-write32 m.mmu mem (sub32 m.cpu.sp 4) (u32 (m.cpu.regs a)) b0 b1 b2 b3 (omega arith)
        (omega arith) h e in
    let pushed : Cpu = record m.cpu { sp = sub32 m.cpu.sp 4 } in
    let m1 : Machine = record m { cpu = pushed; mmu = w } in
    let popped : Cpu = record m.cpu {
      regs = update m.cpu.regs c (sign_extend (u32 (m.cpu.regs a)));
      sp = add32 (sub32 m.cpu.sp 4) 4;
    } in
    let m2 : Machine = record m { cpu = popped; mmu = z } in
    (m1, m2, ground arith, ground arith, ground arith, omega arith)
