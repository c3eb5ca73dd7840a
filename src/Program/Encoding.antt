-- ===== src/Program/Encoding.antt =====
-- The operands that assembleLine of PROGRAM.CPP accepts.
use csci_480_assignment.Base.{
  ℕ, ◌^◌, ◌≤◌, ◌<◌, ◌≡◌, refl, List, [], ◌∷◌, arith, Result, ok, throw, ◌>>=?◌,
}
use csci_480_assignment.Opcode.{Opcode}
use csci_480_assignment.Program.{Form, form, operands}
use csci_480_assignment.Program.Numbers.{
  Number, to_u32, register_number, parse_register, parse_immediate, parse_raw,
}

-- Inversion of a chain that ends well.
pub >>=?-eq-ok :
    {A B : Type 0} (m : Result A) (f : A → Result B) {b : B}
    → (m >>=? f) ≡ ok b
    → (a : A) × (m ≡ ok a) × (f a ≡ ok b)
>>=?-eq-ok (ok a) f h = (a, refl, h)
>>=?-eq-ok (throw e) f h = absurd (ground arith)

-- A register operand lies in the range that the CPU accepts.
pub parse_register_range : (t : List ℕ) (r : ℕ) → parse_register t ≡ ok r → (1 ≤ r) × (r ≤ 10)
unfolding parse_register register_number
parse_register_range [] r h = absurd (ground arith)
parse_register_range (c ∷ []) r h = absurd (ground arith)
parse_register_range (c ∷ d ∷ s) r h = ground arith

to_u32-lt : (n : Number) → to_u32 n < 2 ^ 32
to_u32-lt n = ground arith

-- An immediate operand is a word.
pub parse_immediate-lt : (t : List ℕ) (v : ℕ) → parse_immediate t ≡ ok v → v < 2 ^ 32
unfolding parse_immediate
parse_immediate-lt [] v h = absurd (ground arith)
parse_immediate-lt (c ∷ []) v h = absurd (ground arith)
parse_immediate-lt (c ∷ d ∷ []) v h = ground arith
parse_immediate-lt (c ∷ d ∷ e ∷ s) v h = ground arith

parse_raw-lt : (t : List ℕ) (v : ℕ) → parse_raw t ≡ ok v → v < 2 ^ 32
unfolding parse_raw
parse_raw-lt t v h = ground arith

-- What the operands of each group must be.
abbrev pub Fits : Form → ℕ → ℕ → Type 0
Fits Form.bare a b = (a ≡ 0) × (b ≡ 0)
Fits Form.register a b = (1 ≤ a) × (a ≤ 10) × (b ≡ 0)
Fits Form.immediate a b = (a < 2 ^ 32) × (b ≡ 0)
Fits Form.raw a b = (a < 2 ^ 32) × (b ≡ 0)
Fits Form.register_immediate a b = (1 ≤ a) × (a ≤ 10) × (b < 2 ^ 32)
Fits Form.register_register a b = (1 ≤ a) × (a ≤ 10) × (1 ≤ b) × (b ≤ 10)

module _ (toks : List (List ℕ)) (a b : ℕ) where
  -- The operands that assembleLine accepts fit their group.
  pub operands-Fits : (f : Form) → operands f toks ≡ ok (a, b) → Fits f a b
  unfolding operands
  operands-Fits Form.bare h = ground arith
  operands-Fits Form.register h = grind (arith, parse_register_range)
  operands-Fits Form.immediate h = grind (arith, parse_immediate-lt)
  operands-Fits Form.raw h = grind (arith, parse_raw-lt)
  operands-Fits Form.register_immediate h = grind (arith, parse_register_range, parse_immediate-lt)
  operands-Fits Form.register_register h = grind (arith, parse_register_range)

-- An instruction with its operands.
pub record Instruction : Type 0 where
  pub op : Opcode
  pub a : ℕ
  pub b : ℕ

abbrev pub IsWellFormed : Instruction → Type 0
IsWellFormed n = Fits (form n.op) n.a n.b
