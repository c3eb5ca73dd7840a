-- ===== src/Program.antt =====
-- The assembler: PROGRAM.H and PROGRAM.CPP. A file is the list of its bytes, a std::string too.
pub mod Text
pub mod Numbers
pub mod Mnemonics
pub mod Encoding
pub mod Listing
use csci_480_assignment.Base.{
  ℕ, ◌/◌, ◌%◌, ◌^◌, Bool, true, false, Option, none, some, List, [], ◌∷◌, ◌++◌, get_elem?,
  if◌then◌else◌, Result, ok, throw, ◌>>=?◌, missing_operand, cannot_open_file, empty_program,
}
use csci_480_assignment.Word.{u8}
use csci_480_assignment.Opcode.{Opcode, code}
use Text.{strip_comment, trim, to_lower, tokenize, lines}
use Numbers.{parse_register, parse_immediate, parse_raw}
use Mnemonics.{parse_mnemonic}

-- Program::emit32: the four bytes that it appends.
unfoldable pub emit32 : ℕ → List ℕ
emit32 w = u8 w ∷ u8 (w / 2 ^ 8) ∷ u8 (w / 2 ^ 16) ∷ u8 (w / 2 ^ 24) ∷ []

-- How the operands of an instruction are written: the groups of the switch of assembleLine.
pub data Form : Type 0 where
  bare : Form
  register : Form
  immediate : Form
  raw : Form
  register_immediate : Form
  register_register : Form

unfoldable pub form : Opcode → Form
form Opcode.exit = bare
form Opcode.ret = bare
form Opcode.incr = register
form Opcode.printr = register
form Opcode.printm = register
form Opcode.printcr = register
form Opcode.printcm = register
form Opcode.pushr = register
form Opcode.popr = register
form Opcode.popm = register
form Opcode.jmp = register
form Opcode.jlt = register
form Opcode.jgt = register
form Opcode.je = register
form Opcode.call = register
form Opcode.callm = register
form Opcode.sleep = register
form Opcode.input = register
form Opcode.free_memory = register
form Opcode.inputc = register
form Opcode.acquire_lock = register
form Opcode.release_lock = register
form Opcode.signal_event = register
form Opcode.wait_event = register
form Opcode.jmpi = immediate
form Opcode.jmpa = immediate
form Opcode.jlti = immediate
form Opcode.jlta = immediate
form Opcode.jgti = immediate
form Opcode.jgta = immediate
form Opcode.jei = immediate
form Opcode.jea = immediate
form Opcode.pushi = immediate
form Opcode.setpriorityi = immediate
form Opcode.acquire_lock_i = raw
form Opcode.release_lock_i = raw
form Opcode.signal_event_i = raw
form Opcode.wait_event_i = raw
form Opcode.movi = register_immediate
form Opcode.addi = register_immediate
form Opcode.cmpi = register_immediate
form Opcode.setpriority = register_immediate
form Opcode.movr = register_register
form Opcode.movmr = register_register
form Opcode.movrm = register_register
form Opcode.movmm = register_register
form Opcode.addr = register_register
form Opcode.cmpr = register_register
form Opcode.alloc = register_register
form Opcode.map_shared_mem = register_register

-- needTok, and the token
abbrev pub need_tok : List (List ℕ) → ℕ → Result (List ℕ)
need_tok toks i = elim (get_elem? toks i) [ none ↦ throw missing_operand | some t ↦ ok t ]

-- The body of each group of the switch: opA and opB.
unfoldable pub operands : Form → List (List ℕ) → Result (ℕ × ℕ)
operands bare toks = ok (0, 0)
operands register toks = need_tok toks 1 >>=? λ t. parse_register (to_lower t) >>=? λ a. ok (a, 0)
operands immediate toks = need_tok toks 1 >>=? λ t. parse_immediate t >>=? λ a. ok (a, 0)
operands raw toks = need_tok toks 1 >>=? λ t. parse_raw t >>=? λ a. ok (a, 0)
operands register_immediate toks = need_tok toks 1 >>=? λ t. need_tok toks 2 >>=? λ s.
    parse_register (to_lower t) >>=? λ a. parse_immediate s >>=? λ b. ok (a, b)
operands register_register toks = need_tok toks 1 >>=? λ t. need_tok toks 2 >>=? λ s.
    parse_register (to_lower t) >>=? λ a. parse_register (to_lower s) >>=? λ b. ok (a, b)

-- The three words of an instruction.
abbrev pub encode : ℕ → ℕ → ℕ → List ℕ
encode op a b = emit32 op ++ (emit32 a ++ emit32 b)

-- Program::assembleLine: the bytes that it appends.
unfoldable pub assemble_tokens : List (List ℕ) → Result (List ℕ)
assemble_tokens [] = ok []
assemble_tokens (t ∷ ts) = parse_mnemonic (to_lower t) >>=? λ op.
    operands (form op) (t ∷ ts) >>=? λ ab. ok (encode (code op) ab.0 ab.1)

unfoldable pub assemble_line : List ℕ → Result (List ℕ)
assemble_line line = assemble_tokens (tokenize line)

abbrev pub is_empty {ℓ} : {A : Type ℓ} → List A → Bool
is_empty [] = true
is_empty (x ∷ xs) = false

-- The loop of loadFromFile over the lines.
unfoldable pub assemble_lines : List (List ℕ) → Result (List ℕ)
assemble_lines [] = ok []
assemble_lines (l ∷ ls) =
    let line = trim (strip_comment l) in
    (if is_empty line then ok [] else assemble_line line) >>=? λ bs.
    assemble_lines ls >>=? λ rest. ok (bs ++ rest)

-- Program::loadFromFile on the contents of the file, `none` where it cannot be opened.
unfoldable pub load_from_file : Option (List ℕ) → Result (List ℕ)
load_from_file none = throw cannot_open_file
load_from_file (some text) =
    assemble_lines (lines text) >>=? λ bs. if is_empty bs then throw empty_program else ok bs
