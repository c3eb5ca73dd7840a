-- ===== src/Program/Listing.antt =====
-- What loadFromFile of PROGRAM.CPP makes of a text: an instruction for each line that has a token, and
-- three words of four bytes for each instruction.
use csci_480_assignment.Base.{
  ℕ, subst, ◌+◌, ◌*◌, ◌/◌, ◌^◌, ◌<◌, ◌≡◌, refl, ap, ap₂, sym, ◌∙◌, ◌≢◌, ◌⊎◌, inl, inr, Option, none,
  some, List, [], ◌∷◌, ◌++◌, arith, if◌then◌else◌, ok, throw, empty_program, length,
}
use csci_480_assignment.Word.{u8}
use csci_480_assignment.Opcode.{Opcode, code}
use csci_480_assignment.Program.{
  Form, form, operands, encode, emit32, assemble_tokens, assemble_line, assemble_lines,
  load_from_file, is_empty,
}
use csci_480_assignment.Program.Text.{
  codes, to_lower, tokenize, tokenize_from, trim, strip_comment, lines,
}
use csci_480_assignment.Program.Numbers.{parse_register, parse_immediate, parse_raw}
use csci_480_assignment.Program.Mnemonics.{parse_mnemonic}
use csci_480_assignment.Program.Mnemonics.Names.{name, parse_mnemonic-name}
use csci_480_assignment.Program.Encoding.{
  Instruction, IsWellFormed, Fits, operands-Fits, >>=?-eq-ok,
}

-- The operands `a` and `b` are what the tokens behind a mnemonic say.
abbrev pub Operands : Form → List (List ℕ) → ℕ → ℕ → Type 0
Operands Form.bare ts a b = (a ≡ 0) × (b ≡ 0)
Operands Form.register ts a b =
    (t : List ℕ) × (us : List (List ℕ)) × (ts ≡ t ∷ us)
    × (parse_register (to_lower t) ≡ ok a)
    × (b ≡ 0)
Operands Form.immediate ts a b =
    (t : List ℕ) × (us : List (List ℕ)) × (ts ≡ t ∷ us) × (parse_immediate t ≡ ok a) × (b ≡ 0)
Operands Form.raw ts a b =
    (t : List ℕ) × (us : List (List ℕ)) × (ts ≡ t ∷ us) × (parse_raw t ≡ ok a) × (b ≡ 0)
Operands Form.register_immediate ts a b =
    (t : List ℕ) × (s : List ℕ) × (us : List (List ℕ)) × (ts ≡ t ∷ s ∷ us)
    × (parse_register (to_lower t) ≡ ok a)
    × (parse_immediate s ≡ ok b)
Operands Form.register_register ts a b =
    (t : List ℕ) × (s : List ℕ) × (us : List (List ℕ)) × (ts ≡ t ∷ s ∷ us)
    × (parse_register (to_lower t) ≡ ok a)
    × (parse_register (to_lower s) ≡ ok b)

-- The tokens of a line, once its comment is off.
abbrev pub tokens_of : List ℕ → List (List ℕ)
tokens_of l = tokenize (trim (strip_comment l))

-- The line says the instruction: its first token is the mnemonic, the others are the operands.
pub record Line (l : List ℕ) (n : Instruction) : Type 0 where
  pub mnemonic : List ℕ
  pub others : List (List ℕ)
  pub tokens : tokens_of l ≡ mnemonic ∷ others
  pub named : to_lower mnemonic ≡ codes (name n.op)
  pub operands : Operands (form n.op) others n.a n.b
  pub fits : IsWellFormed n

-- The instructions are those that the lines say, in their order; a line without a token says none.
pub data Listing : List (List ℕ) → List Instruction → Type 0 where
  done : Listing [] []
  blank :
      (l : List ℕ) (ls : List (List ℕ)) (ns : List Instruction)
      → tokens_of l ≡ []
      → Listing ls ns
      → Listing (l ∷ ls) ns
  line :
      (l : List ℕ) (ls : List (List ℕ)) (n : Instruction) (ns : List Instruction)
      → Line l n
      → Listing ls ns
      → Listing (l ∷ ls) (n ∷ ns)

-- The words of a sequence of bytes, the lowest byte of each first.
pub words : List ℕ → List ℕ
words (b0 ∷ b1 ∷ b2 ∷ b3 ∷ bs) = (b0 + b1 * 2 ^ 8 + b2 * 2 ^ 16 + b3 * 2 ^ 24) ∷ words bs
words _ = []

pub flat : List Instruction → List ℕ
flat [] = []
flat (n ∷ ns) = code n.op ∷ n.a ∷ n.b ∷ flat ns

-- The bytes are those of the instructions.
abbrev pub Encodes : List Instruction → List ℕ → Type 0
Encodes ns bs = (words bs ≡ flat ns) × (length bs ≡ 12 * length ns)

word-bytes :
    (w : ℕ)
    → w < 2 ^ 32
    → u8 w + u8 (w / 2 ^ 8) * 2 ^ 8 + u8 (w / 2 ^ 16) * 2 ^ 16 + u8 (w / 2 ^ 24) * 2 ^ 24 ≡ w
word-bytes w h = omega arith

code-lt : (op : Opcode) → code op < 2 ^ 32
unfolding code
code-lt Opcode.incr = omega arith
code-lt _ = omega arith

Fits-lt : (f : Form) (a b : ℕ) → Fits f a b → (a < 2 ^ 32) × (b < 2 ^ 32)
Fits-lt Form.bare a b h = (omega arith, omega arith)
Fits-lt Form.register a b h = (omega arith, omega arith)
Fits-lt Form.immediate a b h = (omega arith, omega arith)
Fits-lt Form.raw a b h = (omega arith, omega arith)
Fits-lt Form.register_immediate a b h = (omega arith, omega arith)
Fits-lt Form.register_register a b h = (omega arith, omega arith)

Encodes-cons :
    (n : Instruction) (ns : List Instruction) (bs : List ℕ)
    → IsWellFormed n
    → Encodes ns bs
    → Encodes (n ∷ ns) (encode (code n.op) n.a n.b ++ bs)
unfolding words flat emit32
Encodes-cons n ns bs fits (same, size) =
    let (la, lb) = Fits-lt (form n.op) n.a n.b fits in
    (
      ap₂ ◌∷◌ (word-bytes (code n.op) (code-lt n.op))
          (ap₂ ◌∷◌ (word-bytes n.a la) (ap₂ ◌∷◌ (word-bytes n.b lb) same)),
      omega arith,
    )

operands-Operands :
    (f : Form) (m : List ℕ) (ts : List (List ℕ)) (a b : ℕ)
    → operands f (m ∷ ts) ≡ ok (a, b)
    → Operands f ts a b
unfolding operands
operands-Operands Form.bare m ts a b h = (ground arith, ground arith)
operands-Operands Form.register m [] a b h = absurd (ground arith)
operands-Operands Form.register m (t ∷ ts) a b h = (t, ts, refl, ground arith, ground arith)
operands-Operands Form.immediate m [] a b h = absurd (ground arith)
operands-Operands Form.immediate m (t ∷ ts) a b h = (t, ts, refl, ground arith, ground arith)
operands-Operands Form.raw m [] a b h = absurd (ground arith)
operands-Operands Form.raw m (t ∷ ts) a b h = (t, ts, refl, ground arith, ground arith)
operands-Operands Form.register_immediate m [] a b h = absurd (ground arith)
operands-Operands Form.register_immediate m (t ∷ []) a b h = absurd (ground arith)
operands-Operands Form.register_immediate m (t ∷ s ∷ ts) a b h =
    (t, s, ts, refl, ground arith, ground arith)
operands-Operands Form.register_register m [] a b h = absurd (ground arith)
operands-Operands Form.register_register m (t ∷ []) a b h = absurd (ground arith)
operands-Operands Form.register_register m (t ∷ s ∷ ts) a b h =
    (t, s, ts, refl, ground arith, ground arith)

-- What one line gives.
abbrev Assembled : List ℕ → List ℕ → Type 0
Assembled l bs =
    ((tokens_of l ≡ []) × (bs ≡ []))
    ⊎ ((n : Instruction) × Line l n × (bs ≡ encode (code n.op) n.a n.b))

tokens-Assembled :
    (l : List ℕ) (ts : List (List ℕ)) (bs : List ℕ)
    → tokens_of l ≡ ts
    → assemble_tokens ts ≡ ok bs
    → Assembled l bs
unfolding assemble_tokens
tokens-Assembled l [] bs e h = inl (e, ground arith)
tokens-Assembled l (t ∷ ts) bs e h =
    let (op, named, h') = >>=?-eq-ok (parse_mnemonic (to_lower t)) _ h in
    let (ab, read, k) = >>=?-eq-ok (operands (form op) (t ∷ ts)) _ h' in
    inr (
      record { op = op; a = ab.0; b = ab.1 },
      record {
        mnemonic = t;
        others = ts;
        tokens = e;
        named = parse_mnemonic-name (to_lower t) op named;
        operands = operands-Operands (form op) t ts ab.0 ab.1 read;
        fits = operands-Fits (t ∷ ts) ab.0 ab.1 (form op) read;
      },
      ground arith,
    )

line-Assembled :
    (l s bs : List ℕ)
    → trim (strip_comment l) ≡ s
    → (if is_empty s then ok [] else assemble_line s) ≡ ok bs
    → Assembled l bs
unfolding assemble_line tokenize tokenize_from
line-Assembled l [] bs e h = inl (ap tokenize e, ground arith)
line-Assembled l (c ∷ s) bs e h = tokens-Assembled l (tokenize (c ∷ s)) bs (ap tokenize e) h

lines-Listing :
    (ls : List (List ℕ)) (bs : List ℕ)
    → assemble_lines ls ≡ ok bs
    → (ns : List Instruction) × Listing ls ns × Encodes ns bs
unfolding assemble_lines words flat
lines-Listing [] bs h = ([], Listing.done, (ground arith, ground arith))
lines-Listing (l ∷ ls) bs h =
    let s = trim (strip_comment l) in
    let (xs, e, h') = >>=?-eq-ok (if is_empty s then ok [] else assemble_line s) _ h in
    let (ys, f, k) = >>=?-eq-ok (assemble_lines ls) _ h' in
    let (ns, listing, (same, size)) = lines-Listing ls ys f in
    let whole : xs ++ ys ≡ bs = ground arith in
    elim (line-Assembled l s xs refl e) [
      | inl (none_said, empty) ↦
          let tail : ys ≡ bs = ap (λ z. z ++ ys) (sym empty) ∙ whole in
          (ns, Listing.blank l ls ns none_said listing, subst (Encodes ns) tail (same, size))
      | inr (n, said, bytes) ↦
          let all = ap (λ z. z ++ ys) (sym bytes) ∙ whole in
          (
            n ∷ ns,
            Listing.line l ls n ns said listing,
            subst (Encodes (n ∷ ns)) all (Encodes-cons n ns ys said.fits (same, size)),
          )
    ]

not_empty :
    (xs bs : List ℕ)
    → (if is_empty xs then throw empty_program else ok xs) ≡ ok bs
    → (xs ≡ bs) × (bs ≢ [])
not_empty [] bs h = absurd (ground arith)
not_empty (x ∷ xs) bs h = (ground arith, λ e. cc)

-- A file that is accepted could be opened; its instructions are those that its lines say, mnemonic
-- and operands, in their order, and there is one at least; the bytes are the code and the operands of
-- each as words of four bytes, the lowest byte first.
pub load_from_file-Listing :
    (text : Option (List ℕ)) (bs : List ℕ)
    → load_from_file text ≡ ok bs
    → (t : List ℕ) × (ns : List Instruction) × (text ≡ some t)
      × Listing (lines t) ns
      × (words bs ≡ flat ns)
      × (length bs ≡ 12 * length ns)
      × (bs ≢ [])
unfolding load_from_file
load_from_file-Listing none bs h = absurd (ground arith)
load_from_file-Listing (some t) bs h =
    let (xs, e, h') = >>=?-eq-ok (assemble_lines (lines t)) _ h in
    let (same, full) = not_empty xs bs h' in
    let (ns, listing, (w, size)) = lines-Listing (lines t) bs (e ∙ ap ok same) in
    (t, ns, refl, listing, w, size, full)
