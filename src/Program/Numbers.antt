-- ===== src/Program/Numbers.antt =====
-- parseRegister and parseImmediate of PROGRAM.CPP, with std::stoi and std::stoll.
use csci_480_assignment.Base.{
  ℕ, ◌+◌, ◌-◌, ◌*◌, ◌^◌, Bool, true, false, ◌&&◌, ◌||◌, Option, none, some, List, [], ◌∷◌, ltb, leb,
  ◌==◌, if◌then◌else◌, Result, ok, throw, ◌>>=?◌, expected_register, register_out_of_range,
  bad_immediate, bad_number, number_out_of_range,
}
use csci_480_assignment.Word.{u32, u8}
use csci_480_assignment.Program.Text.{drop_space}

-- A number as it is read: its sign and its size.
pub record Number : Type 0 where
  pub negative : Bool
  pub size : ℕ

abbrev pub is_digit : ℕ → Bool
is_digit c = leb b'0' c && leb c b'9'

-- The digits at the front, added to what is read so far; `none` if there is none at all.
unfoldable pub digits_from : Option ℕ → List ℕ → Option ℕ
digits_from acc [] = acc
digits_from acc (c ∷ s) =
    let next : Option ℕ = some (elim acc [ none ↦ c - b'0' | some n ↦ n * 10 + (c - b'0') ]) in
    elim (is_digit c) [ true ↦ digits_from next s | false ↦ acc ]

unfoldable pub magnitude : List ℕ → Result ℕ
magnitude s = elim (digits_from none s) [ none ↦ throw bad_number | some n ↦ ok n ]

-- A sign, if there is one, and the digits.
unfoldable pub signed_number : List ℕ → Result Number
signed_number [] = throw bad_number
signed_number (c ∷ s) =
    if c == b'-'
    then (magnitude s >>=? λ n. ok (record { negative = true; size = n }))
    else (magnitude (if c == b'+' then s else c ∷ s) >>=? λ n.
        ok (record { negative = false; size = n }))

-- The range of a signed integer of which `half` is the number of negative values.
abbrev pub in_range : ℕ → Number → Bool
in_range half n = if n.negative then leb n.size half else ltb n.size half

-- std::stoi and std::stoll: spaces, a number, and a check of its range. What follows is ignored.
unfoldable pub parse_number : ℕ → List ℕ → Result Number
parse_number half s = signed_number (drop_space s) >>=? λ n.
    if in_range half n then ok n else throw number_out_of_range

abbrev pub stoi : List ℕ → Result Number
stoi = parse_number (2 ^ 31)

abbrev pub stoll : List ℕ → Result Number
stoll = parse_number (2 ^ 63)

-- static_cast<uint32_t> of an int, or of an int64_t cut to one.
abbrev pub to_u32 : Number → ℕ
to_u32 n = if n.negative then u32 (2 ^ 32 - u32 n.size) else u32 n.size

-- The number of a register, once it is known to begin with r.
unfoldable pub register_number : List ℕ → Result ℕ
register_number s = stoi s >>=? λ n.
    if n.negative || (ltb n.size 1 || ltb 10 n.size) then throw register_out_of_range else ok n.size

-- Program::parseRegister
unfoldable pub parse_register : List ℕ → Result ℕ
parse_register [] = throw expected_register
parse_register (c ∷ []) = throw expected_register
parse_register (c ∷ d ∷ s) = if c == b'r' then register_number (d ∷ s) else throw expected_register

-- The fallback of parseImmediate: any exception of stoll becomes one of its own.
abbrev pub or_bad : Result Number → Result ℕ
or_bad (ok n) = ok (to_u32 n)
or_bad (throw e) = throw bad_immediate

-- '@' wants one character.
abbrev pub char_immediate : ℕ → List ℕ → Result ℕ
char_immediate d [] = ok (u8 d)
char_immediate d (c ∷ s) = throw bad_immediate

-- Program::parseImmediate
unfoldable pub parse_immediate : List ℕ → Result ℕ
parse_immediate [] = throw bad_immediate
parse_immediate (c ∷ []) = throw bad_immediate
parse_immediate (c ∷ d ∷ s) =
    if c == b'#'
    then (stoll (d ∷ s) >>=? λ n. ok (to_u32 n))
    else if c == b'@'
    then char_immediate d s
    else or_bad (stoll (c ∷ d ∷ s))

-- static_cast<uint32_t>(std::stoi(tok))
unfoldable pub parse_raw : List ℕ → Result ℕ
parse_raw t = stoi t >>=? λ n. ok (to_u32 n)
