-- ===== src/Examples/Source.antt =====
-- Source texts of the assembler.
use csci_480_assignment.Base.{
  inl, inr, ◌≤◌, ◌++◌, ◌*◌, length, arith, ℕ, ◌^◌, ◌-◌, ◌≡◌, ◌≢◌, refl, All, some, List, [], ◌∷◌,
  ok,
}
use csci_480_assignment.Opcode.{code}
use csci_480_assignment.Program.{
  Form, form, operands, encode, assemble_tokens, assemble_line, assemble_lines, load_from_file,
  emit32,
}
use csci_480_assignment.Program.Text.{
  codes, tokenize, tokenize_from, to_lower, trim, drop_space, strip_comment, lines, lines_from,
}
use csci_480_assignment.Program.Text.Tokens.{IsPlain, IsToken, tokenize_lem}
use csci_480_assignment.Program.Numbers.{
  parse_register, register_number, parse_number, signed_number, magnitude, digits_from,
  parse_immediate,
}
use csci_480_assignment.Program.Mnemonics.{parse_mnemonic, find_mnemonic}
use csci_480_assignment.Program.Encoding.{Fits, operands-Fits, Instruction}
use csci_480_assignment.Program.Listing.{Listing, words, flat, load_from_file-Listing}

abbrev tokens : List (List ℕ)
tokens = codes "addi" ∷ codes "r3" ∷ codes "#-1" ∷ []

parsed : operands Form.register_immediate tokens ≡ ok (3, 2 ^ 32 - 1)
unfolding operands parse_register register_number parse_number signed_number magnitude digits_from
    parse_immediate drop_space to_lower
parsed = refl

operands-Fits_example : Fits Form.register_immediate 3 (2 ^ 32 - 1)
operands-Fits_example = operands-Fits tokens 3 (2 ^ 32 - 1) Form.register_immediate parsed

abbrev source : List ℕ
source = codes "Incr r2 ; one more"

abbrev object : List ℕ
object = encode 1 2 0

assembled : load_from_file (some source) ≡ ok object
unfolding load_from_file lines lines_from assemble_lines trim drop_space strip_comment assemble_line
    tokenize tokenize_from assemble_tokens parse_mnemonic find_mnemonic to_lower form operands
    parse_register register_number parse_number signed_number magnitude digits_from code emit32
assembled = refl

load_from_file-Listing_example :
    (t : List ℕ) × (ns : List Instruction) × (some source ≡ some t)
    × Listing (lines t) ns
    × (words object ≡ flat ns)
    × (length object ≡ 12 * length ns)
    × (object ≢ [])
load_from_file-Listing_example = load_from_file-Listing (some source) object assembled

plain : (c : ℕ) → 100 ≤ c → IsPlain c
plain c h = (omega arith, omega arith, inr (omega arith))

movr-IsToken : IsToken (codes "movr")
movr-IsToken = (
  (λ e. cc),
  (
    plain 109 (omega arith),
    (plain 111 (omega arith), (plain 118 (omega arith), (plain 114 (omega arith), tt))),
  ),
)

tokenize_lem_example :
    (tokenize (codes "movr r1" ++ 44 ∷ codes " r2")
      ≡ tokenize (codes "movr r1") ++ tokenize (codes " r2"))
    × (tokenize (codes "movr") ≡ codes "movr" ∷ [])
    × (tokenize [] ≡ [])
    × All IsToken (tokenize (codes "movr r1"))
tokenize_lem_example =
    tokenize_lem (codes "movr r1") (codes " r2") (codes "movr") 44 (inl refl) movr-IsToken
