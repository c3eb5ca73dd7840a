-- ===== src/Cpu.antt =====
-- The CPU: CPU.H, CPU.cpp and trap.h. The state is the CPU's registers, the MMU that it refers to
-- and what it has printed. std::cout is the list of printed values, the newest first.
pub mod Faults
pub mod Fetch
pub mod Stack
use csci_480_assignment.Base.{
  ℕ, zero, suc, ◌+◌, ◌-◌, ◌*◌, ◌%◌, ◌^◌, Bool, true, false, not, ◌&&◌, ◌||◌, Option, none, some,
  List, [], ◌∷◌, update, ltb, ◌==◌, if◌then◌else◌, Action, Result, Exception, ok, throw, ◌>>=◌,
  ◌>>◌, pure, raise, gets, modify, throw_if, on_part, when, page_fault, invalid_register,
  unknown_opcode,
}
use csci_480_assignment.Word.{u8, u32, add32, sub32, sign_extend, add64, less64}
use csci_480_assignment.Mmu
use csci_480_assignment.Mmu.{Mmu}
use csci_480_assignment.Opcode.{Opcode, of_code}

pub data Trap : Type 0 where
  no_trap exit quantum_expired sleep input inputc map_shared_mem acquire_lock release_lock : Trap
  signal_event wait_event alloc free_memory : Trap

-- `regs` is the array of 16 int64_t; the trap registers hold register numbers.
pub record Cpu : Type 0 where
  pub regs : ℕ → ℕ
  pub ip : ℕ
  pub sp : ℕ
  pub zero_flag : Bool
  pub sign_flag : Bool
  pub running : Bool
  pub trap_reg_a : ℕ
  pub trap_reg_b : ℕ

pub data Printed : Type 0 where
  number : ℕ → Printed
  char : ℕ → Printed

pub record Machine : Type 0 where
  pub cpu : Cpu
  pub mmu : Mmu
  pub output : List Printed

-- CPU::CPU
abbrev pub new_cpu : Cpu
new_cpu = record {
  regs = λ r. 0;
  ip = 0;
  sp = 0;
  zero_flag = false;
  sign_flag = false;
  running = false;
  trap_reg_a = 0;
  trap_reg_b = 0;
}

abbrev pub on_mmu : {A : Type 0} → Action Mmu A → Action Machine A
on_mmu = on_part (λ m. m.mmu) (λ m u. record m { mmu = u })

abbrev pub get_cpu : Action Machine Cpu
get_cpu = gets (λ m. m.cpu)

abbrev pub modify_cpu : (Cpu → Cpu) → Action Machine (Unit {0})
modify_cpu f = modify (λ m. record m { cpu = f m.cpu })

-- CPU::checkReg
unfoldable pub check_reg : ℕ → Action Machine (Unit {0})
check_reg r = throw_if (ltb r 1 || ltb 10 r) invalid_register

abbrev pub get_reg : ℕ → Action Machine ℕ
get_reg r = gets (λ m. m.cpu.regs r)

abbrev pub set_reg : ℕ → ℕ → Action Machine (Unit {0})
set_reg r v = modify_cpu (λ c. record c { regs = update c.regs r v })

abbrev pub set_ip : ℕ → Action Machine (Unit {0})
set_ip v = modify_cpu (λ c. record c { ip = v })

abbrev pub set_sp : ℕ → Action Machine (Unit {0})
set_sp v = modify_cpu (λ c. record c { sp = v })

abbrev pub print : Printed → Action Machine (Unit {0})
print x = modify (λ m. record m { output = x ∷ m.output })

-- ip_ = static_cast<uint32_t>(static_cast<int64_t>(ip_) + offset)
abbrev pub jump_by : ℕ → Action Machine (Unit {0})
jump_by offset = modify_cpu (λ c. record c { ip = u32 (add64 c.ip offset) })

-- !signFlag_ && !zeroFlag_
abbrev pub is_greater : Cpu → Bool
is_greater c = not c.sign_flag && not c.zero_flag

-- sp_ -= 4; mmu.write32(sp_, v)
abbrev pub push : ℕ → Action Machine (Unit {0})
push v = do c ← get_cpu; set_sp (sub32 c.sp 4); on_mmu (Mmu.write32 (sub32 c.sp 4) v)

-- v = mmu.read32(sp_); sp_ += 4
abbrev pub pop : Action Machine ℕ
pop = do c ← get_cpu; v ← on_mmu (Mmu.read32 c.sp); set_sp (add32 c.sp 4); pure v

-- zeroFlag_ and signFlag_ from two int64_t
abbrev pub compare_flags : ℕ → ℕ → Action Machine (Unit {0})
compare_flags a b = modify_cpu (λ c. record c { zero_flag = a == b; sign_flag = less64 a b })

abbrev pub done : Action Machine Trap
done = pure Trap.no_trap

-- CPU::execute, a clause for each case of the switch.
unfoldable pub execute : Opcode → ℕ → ℕ → Action Machine Trap
execute Opcode.exit a b = do modify_cpu (λ c. record c { running = false }); pure Trap.exit
execute Opcode.sleep a b = do check_reg a; pure Trap.sleep
execute Opcode.alloc a b = do
  check_reg a
  check_reg b
  modify_cpu (λ c. record c { trap_reg_a = a; trap_reg_b = b })
  pure Trap.alloc
execute Opcode.free_memory a b = do
  check_reg a
  modify_cpu (λ c. record c { trap_reg_a = a })
  pure Trap.free_memory
execute Opcode.map_shared_mem a b = do
  check_reg a
  check_reg b
  set_reg 15 b
  pure Trap.map_shared_mem
execute Opcode.acquire_lock a b = do check_reg a; pure Trap.acquire_lock
execute Opcode.acquire_lock_i a b = do set_reg 1 a; pure Trap.acquire_lock
execute Opcode.release_lock a b = do check_reg a; pure Trap.release_lock
execute Opcode.release_lock_i a b = do set_reg 1 a; pure Trap.release_lock
execute Opcode.signal_event a b = do check_reg a; pure Trap.signal_event
execute Opcode.signal_event_i a b = do set_reg 1 a; pure Trap.signal_event
execute Opcode.wait_event a b = do check_reg a; pure Trap.wait_event
execute Opcode.wait_event_i a b = do set_reg 1 a; pure Trap.wait_event
execute Opcode.movi a b = do check_reg a; set_reg a (sign_extend b); done
execute Opcode.movr a b = do check_reg a; check_reg b; v ← get_reg b; set_reg a v; done
execute Opcode.movmr a b = do
  check_reg a
  check_reg b
  p ← get_reg b
  v ← on_mmu (Mmu.read32 (u32 p))
  set_reg a (sign_extend v)
  done
execute Opcode.movrm a b = do
  check_reg a
  check_reg b
  p ← get_reg a
  v ← get_reg b
  on_mmu (Mmu.write32 (u32 p) (u32 v))
  done
execute Opcode.movmm a b = do
  check_reg a
  check_reg b
  p ← get_reg a
  q ← get_reg b
  v ← on_mmu (Mmu.read32 (u32 q))
  on_mmu (Mmu.write32 (u32 p) v)
  done
execute Opcode.incr a b = do check_reg a; v ← get_reg a; set_reg a (add64 v 1); done
execute Opcode.addi a b = do check_reg a; v ← get_reg a; set_reg a (add64 v (sign_extend b)); done
execute Opcode.addr a b = do
  check_reg a
  check_reg b
  v ← get_reg a
  w ← get_reg b
  set_reg a (add64 v w)
  done
execute Opcode.printr a b = do check_reg a; v ← get_reg a; print (number v); done
execute Opcode.printm a b = do
  check_reg a
  p ← get_reg a
  v ← on_mmu (Mmu.read32 (u32 p))
  print (number (sign_extend v))
  done
execute Opcode.printcr a b = do check_reg a; v ← get_reg a; print (char (u8 v)); done
execute Opcode.printcm a b = do
  check_reg a
  p ← get_reg a
  v ← on_mmu (Mmu.read8 (u32 p))
  print (char v)
  done
execute Opcode.jmp a b = do check_reg a; v ← get_reg a; jump_by v; done
execute Opcode.jmpi a b = do jump_by (sign_extend a); done
execute Opcode.jmpa a b = do set_ip a; done
execute Opcode.cmpi a b = do check_reg a; v ← get_reg a; compare_flags v (sign_extend b); done
execute Opcode.cmpr a b = do
  check_reg a
  check_reg b
  v ← get_reg a
  w ← get_reg b
  compare_flags v w
  done
execute Opcode.jlt a b = do check_reg a; c ← get_cpu; when c.sign_flag (jump_by (c.regs a)); done
execute Opcode.jlti a b = do c ← get_cpu; when c.sign_flag (jump_by (sign_extend a)); done
execute Opcode.jlta a b = do c ← get_cpu; when c.sign_flag (set_ip a); done
execute Opcode.jgt a b = do check_reg a; c ← get_cpu; when (is_greater c) (jump_by (c.regs a)); done
execute Opcode.jgti a b = do c ← get_cpu; when (is_greater c) (jump_by (sign_extend a)); done
execute Opcode.jgta a b = do c ← get_cpu; when (is_greater c) (set_ip a); done
execute Opcode.je a b = do check_reg a; c ← get_cpu; when c.zero_flag (jump_by (c.regs a)); done
execute Opcode.jei a b = do c ← get_cpu; when c.zero_flag (jump_by (sign_extend a)); done
execute Opcode.jea a b = do c ← get_cpu; when c.zero_flag (set_ip a); done
execute Opcode.call a b = do check_reg a; c ← get_cpu; push c.ip; jump_by (c.regs a); done
execute Opcode.callm a b = do
  check_reg a
  c ← get_cpu
  push c.ip
  v ← on_mmu (Mmu.read32 (u32 (c.regs a)))
  jump_by (sign_extend v)
  done
execute Opcode.ret a b = do
  c ← get_cpu
  v ← on_mmu (Mmu.read32 c.sp)
  set_ip v
  set_sp (add32 c.sp 4)
  done
execute Opcode.pushi a b = do push a; done
execute Opcode.pushr a b = do check_reg a; v ← get_reg a; push (u32 v); done
execute Opcode.popr a b = do
  check_reg a
  c ← get_cpu
  v ← on_mmu (Mmu.read32 c.sp)
  set_reg a (sign_extend v)
  set_sp (add32 c.sp 4)
  done
execute Opcode.popm a b = do
  check_reg a
  v ← pop
  p ← get_reg a
  on_mmu (Mmu.write32 (u32 p) v)
  done
execute Opcode.input a b = do check_reg a; pure Trap.input
execute Opcode.inputc a b = do check_reg a; pure Trap.inputc
execute Opcode.setpriority a b = done
execute Opcode.setpriorityi a b = done

-- The switch on a raw opcode, its default included.
unfoldable pub dispatch : ℕ → ℕ → ℕ → Action Machine Trap
dispatch raw a b = elim (of_code raw) [
  | none ↦ raise (unknown_opcode raw)
  | some op ↦ execute op a b
]

-- CPU::fetch
unfoldable pub fetch : Action Machine (ℕ × ℕ × ℕ)
fetch = do
  c ← get_cpu
  raw ← on_mmu (Mmu.read32 c.ip)
  a ← on_mmu (Mmu.read32 (add32 c.ip 4))
  b ← on_mmu (Mmu.read32 (add32 c.ip 8))
  set_ip (add32 c.ip 12)
  pure (raw, a, b)

-- The body of the try block of step.
unfoldable pub fetch_execute : Action Machine Trap
fetch_execute = do (raw, a, b) ← fetch; dispatch raw a b

-- The catch block of step: a page fault puts ip_ back and goes on.
abbrev pub restore_ip : ℕ → Result Trap × Machine → Result Trap × Machine
restore_ip saved (ok t, m) = (ok t, m)
restore_ip saved (throw (page_fault v), m) =
    (throw (page_fault v), record m { cpu = record m.cpu { ip = saved } })
restore_ip saved (throw e, m) = (throw e, m)

-- CPU::step
unfoldable pub step : Action Machine Trap
step m = restore_ip m.cpu.ip (fetch_execute m)

abbrev pub is_none : Trap → Bool
is_none Trap.no_trap = true
is_none t = false

-- The loop of Run: `n` steps at most.
unfoldable pub run_steps : ℕ → Action Machine Trap
run_steps zero m = (ok Trap.quantum_expired, m)
run_steps (suc n) m =
    let (r, m') = step m in
    elim r [
      | throw e ↦ (throw e, m')
      | ok t ↦ elim (is_none t) [ true ↦ run_steps n m' | false ↦ (ok t, m') ]
    ]

-- CPU::Run
unfoldable pub run : ℕ → Action Machine Trap
run maxsteps = do modify_cpu (λ c. record c { running = true }); run_steps maxsteps
