-- ===== src/Program/Text.antt =====
-- The text helpers of PROGRAM.CPP, over bytes, and the functions of the standard library that they
-- use, in the "C" locale.
pub mod Tokens
use Prim.Native.Char.{code}
use Prim.Native.String.{String}
use csci_480_assignment.Base.{
  ℕ, ◌+◌, Bool, true, false, ◌&&◌, ◌||◌, List, [], ◌∷◌, ◌++◌, map, reverse, leb, ◌==◌,
  if◌then◌else◌,
}

-- The bytes of an ASCII literal.
abbrev pub codes : String → List ℕ
codes String.[] = []
codes (String.◌∷◌ c s) = code c ∷ codes s

-- std::isspace: a blank, or one of \t \n \v \f \r.
abbrev pub is_space : ℕ → Bool
is_space c = c == 32 || (leb 9 c && leb c 13)

-- std::tolower
abbrev pub lower : ℕ → ℕ
lower c = if leb 65 c && leb c 90 then c + 32 else c

-- Program::stripComment: the text before the first ';'.
unfoldable pub strip_comment : List ℕ → List ℕ
strip_comment [] = []
strip_comment (c ∷ s) = if c == b';' then [] else c ∷ strip_comment s

-- The text from the first character on that is no space.
unfoldable pub drop_space : List ℕ → List ℕ
drop_space [] = []
drop_space (c ∷ s) = if is_space c then drop_space s else c ∷ s

-- Program::trim: both ends.
unfoldable pub trim : List ℕ → List ℕ
trim s = reverse (drop_space (reverse (drop_space s)))

-- Program::toLower
unfoldable pub to_lower : List ℕ → List ℕ
to_lower = map lower

abbrev pub is_separator : ℕ → Bool
is_separator c = is_space c || c == b','

-- The `flush` of tokenize: the current token, if it has characters, goes to the end.
abbrev pub flush : List ℕ → List (List ℕ) → List (List ℕ)
flush [] out = out
flush (c ∷ cur) out = out ++ (c ∷ cur) ∷ []

-- The loop of tokenize, with the current token and the tokens so far.
unfoldable pub tokenize_from : List ℕ → List (List ℕ) → List ℕ → List (List ℕ)
tokenize_from cur out [] = flush cur out
tokenize_from cur out (c ∷ s) =
    tokenize_from (if is_separator c then [] else cur ++ c ∷ [])
      (if is_separator c then flush cur out else out) s

-- Program::tokenize
unfoldable pub tokenize : List ℕ → List (List ℕ)
tokenize s = tokenize_from [] [] s

-- std::getline over the whole file: the pieces between the line ends. An empty piece behind the
-- last one, which getline does not give, is an empty line, and those are passed over.
unfoldable pub lines_from : List ℕ → List ℕ → List (List ℕ)
lines_from cur [] = cur ∷ []
lines_from cur (c ∷ s) = elim (c == 10) [
  | true ↦ cur ∷ lines_from [] s
  | false ↦ lines_from (cur ++ c ∷ []) s
]

unfoldable pub lines : List ℕ → List (List ℕ)
lines text = lines_from [] text
