-- ===== src/Program/Mnemonics.antt =====
-- parseMnemonic of PROGRAM.CPP: the table of mnemonics.
pub mod Names
use Prim.Native.String.{String}
use csci_480_assignment.Base.{
  ℕ, Bool, true, false, ◌&&◌, List, [], ◌∷◌, ◌==◌, if◌then◌else◌, Result, ok, throw,
  unknown_mnemonic,
}
use csci_480_assignment.Opcode.{Opcode}
use csci_480_assignment.Program.Text.{codes}

abbrev pub same_bytes : List ℕ → List ℕ → Bool
same_bytes [] [] = true
same_bytes (x ∷ xs) (y ∷ ys) = x == y && same_bytes xs ys
same_bytes _ _ = false

abbrev pub mnemonics : List (String × Opcode)
mnemonics =
    ("incr", Opcode.incr)
    ∷ ("addi", Opcode.addi)
    ∷ ("addr", Opcode.addr)
    ∷ ("pushr", Opcode.pushr)
    ∷ ("pushi", Opcode.pushi)
    ∷ ("popr", Opcode.popr)
    ∷ ("popm", Opcode.popm)
    ∷ ("movi", Opcode.movi)
    ∷ ("movr", Opcode.movr)
    ∷ ("movmr", Opcode.movmr)
    ∷ ("movrm", Opcode.movrm)
    ∷ ("movmm", Opcode.movmm)
    ∷ ("printr", Opcode.printr)
    ∷ ("printm", Opcode.printm)
    ∷ ("printcr", Opcode.printcr)
    ∷ ("printcm", Opcode.printcm)
    ∷ ("jmp", Opcode.jmp)
    ∷ ("jmpi", Opcode.jmpi)
    ∷ ("jmpa", Opcode.jmpa)
    ∷ ("cmpi", Opcode.cmpi)
    ∷ ("cmpr", Opcode.cmpr)
    ∷ ("jlt", Opcode.jlt)
    ∷ ("jlti", Opcode.jlti)
    ∷ ("jlta", Opcode.jlta)
    ∷ ("jgt", Opcode.jgt)
    ∷ ("jgti", Opcode.jgti)
    ∷ ("jgta", Opcode.jgta)
    ∷ ("je", Opcode.je)
    ∷ ("jei", Opcode.jei)
    ∷ ("jea", Opcode.jea)
    ∷ ("call", Opcode.call)
    ∷ ("callm", Opcode.callm)
    ∷ ("ret", Opcode.ret)
    ∷ ("exit", Opcode.exit)
    ∷ ("sleep", Opcode.sleep)
    ∷ ("input", Opcode.input)
    ∷ ("inputc", Opcode.inputc)
    ∷ ("setpriority", Opcode.setpriority)
    ∷ ("setpriorityi", Opcode.setpriorityi)
    ∷ ("mapsharedmem", Opcode.map_shared_mem)
    ∷ ("acquirelock", Opcode.acquire_lock)
    ∷ ("acquirelocki", Opcode.acquire_lock_i)
    ∷ ("releaselock", Opcode.release_lock)
    ∷ ("releaselocki", Opcode.release_lock_i)
    ∷ ("signalevent", Opcode.signal_event)
    ∷ ("signaleventi", Opcode.signal_event_i)
    ∷ ("waitevent", Opcode.wait_event)
    ∷ ("waiteventi", Opcode.wait_event_i)
    ∷ ("alloc", Opcode.alloc)
    ∷ ("freememory", Opcode.free_memory)
    ∷ []

unfoldable pub find_mnemonic : List ℕ → List (String × Opcode) → Result Opcode
find_mnemonic mnem [] = throw unknown_mnemonic
find_mnemonic mnem ((k, op) ∷ rest) =
    if same_bytes (codes k) mnem then ok op else find_mnemonic mnem rest

-- Program::parseMnemonic
unfoldable pub parse_mnemonic : List ℕ → Result Opcode
parse_mnemonic mnem = find_mnemonic mnem mnemonics
