-- ===== src/Program/Mnemonics/Names.antt =====
-- The mnemonics of the instructions: what parseMnemonic of PROGRAM.CPP has read as an instruction is
-- its name.
use Prim.Native.String.{String}
use csci_480_assignment.Base.{
  ℕ, Bool, ◌&&◌, ◌≡◌, refl, ap, ap₂, sym, ◌∙◌, true, List, [], ◌∷◌, arith, ok, Bool-cases, inl, inr,
  ==→eq,
}
use csci_480_assignment.Opcode.{Opcode}
use csci_480_assignment.Program.Text.{codes}
use csci_480_assignment.Program.Mnemonics.{same_bytes, mnemonics, find_mnemonic, parse_mnemonic}

-- How an instruction is written.
pub name : Opcode → String
name Opcode.incr = "incr"
name Opcode.addi = "addi"
name Opcode.addr = "addr"
name Opcode.pushr = "pushr"
name Opcode.pushi = "pushi"
name Opcode.popr = "popr"
name Opcode.popm = "popm"
name Opcode.movi = "movi"
name Opcode.movr = "movr"
name Opcode.movmr = "movmr"
name Opcode.movrm = "movrm"
name Opcode.movmm = "movmm"
name Opcode.printr = "printr"
name Opcode.printm = "printm"
name Opcode.printcr = "printcr"
name Opcode.printcm = "printcm"
name Opcode.jmp = "jmp"
name Opcode.jmpi = "jmpi"
name Opcode.jmpa = "jmpa"
name Opcode.cmpi = "cmpi"
name Opcode.cmpr = "cmpr"
name Opcode.jlt = "jlt"
name Opcode.jlti = "jlti"
name Opcode.jlta = "jlta"
name Opcode.jgt = "jgt"
name Opcode.jgti = "jgti"
name Opcode.jgta = "jgta"
name Opcode.je = "je"
name Opcode.jei = "jei"
name Opcode.jea = "jea"
name Opcode.call = "call"
name Opcode.callm = "callm"
name Opcode.ret = "ret"
name Opcode.exit = "exit"
name Opcode.sleep = "sleep"
name Opcode.input = "input"
name Opcode.inputc = "inputc"
name Opcode.setpriority = "setpriority"
name Opcode.setpriorityi = "setpriorityi"
name Opcode.map_shared_mem = "mapsharedmem"
name Opcode.acquire_lock = "acquirelock"
name Opcode.acquire_lock_i = "acquirelocki"
name Opcode.release_lock = "releaselock"
name Opcode.release_lock_i = "releaselocki"
name Opcode.signal_event = "signalevent"
name Opcode.signal_event_i = "signaleventi"
name Opcode.wait_event = "waitevent"
name Opcode.wait_event_i = "waiteventi"
name Opcode.alloc = "alloc"
name Opcode.free_memory = "freememory"

same_bytes-eq : (xs ys : List ℕ) → same_bytes xs ys ≡ true → xs ≡ ys
same_bytes-eq [] [] h = refl
same_bytes-eq [] (y ∷ ys) h = absurd (ground arith)
same_bytes-eq (x ∷ xs) [] h = absurd (ground arith)
same_bytes-eq (x ∷ xs) (y ∷ ys) h =
    let e : x ≡ y = ==→eq x y (ground arith) in ap₂ ◌∷◌ e (same_bytes-eq xs ys (ground arith))

-- Every entry of a table has the name of its instruction.
named : List (String × Opcode) → Bool
named [] = true
named ((k, op) ∷ rest) = same_bytes (codes k) (codes (name op)) && named rest

-- A table that lists each instruction under its name gives instructions by their names.
find_mnemonic-name :
    (table : List (String × Opcode)) (mnem : List ℕ) (op : Opcode)
    → named table ≡ true
    → find_mnemonic mnem table ≡ ok op
    → mnem ≡ codes (name op)
unfolding find_mnemonic named
find_mnemonic-name [] mnem op h e = absurd (ground arith)
find_mnemonic-name ((k, op') ∷ rest) mnem op h e = elim (Bool-cases (same_bytes (codes k) mnem)) [
  | inr f ↦ find_mnemonic-name rest mnem op (ground arith) (ground arith)
  | inl t ↦
      let same : op' ≡ op = ground arith in
      sym (same_bytes-eq (codes k) mnem t)
      ∙ same_bytes-eq (codes k) (codes (name op')) (ground arith)
      ∙ ap (λ x. codes (name x)) same
]

pub parse_mnemonic-name :
    (mnem : List ℕ) (op : Opcode) → parse_mnemonic mnem ≡ ok op → mnem ≡ codes (name op)
unfolding parse_mnemonic name named
parse_mnemonic-name mnem op h = find_mnemonic-name mnemonics mnem op refl h
