-- ===== src/Program/Text/Tokens.antt =====
-- What tokenize of PROGRAM.CPP gives: the pieces of the text between blanks and commas.
use csci_480_assignment.Base.{
  ℕ, ◌≤◌, ◌<◌, ◌≡◌, refl, ap, sym, ◌∙◌, true, false, List, [], ◌∷◌, ◌++◌, All, All-append,
  Bool-cases, inl, inr, ◌≢◌, ◌⊎◌, arith,
}
use mathlib.Core.List.{append_assoc, append-nil}
use csci_480_assignment.Program.Text.{is_separator, flush, tokenize, tokenize_from}

-- A character that separates tokens: a comma, a blank, or one of \t \n \v \f \r.
abbrev pub IsSeparator : ℕ → Type 0
IsSeparator c = (c ≡ 44) ⊎ ((c ≡ 32) ⊎ ((9 ≤ c) × (c ≤ 13)))

abbrev pub IsPlain : ℕ → Type 0
IsPlain c = (c ≢ 44) × (c ≢ 32) × ((c < 9) ⊎ (13 < c))

-- A token has a character, and no separator.
abbrev pub IsToken : List ℕ → Type 0
IsToken t = (t ≢ []) × All IsPlain t

IsSeparator-is_separator : (c : ℕ) → IsSeparator c → is_separator c ≡ true
IsSeparator-is_separator c (inl e) = ground arith
IsSeparator-is_separator c (inr (inl e)) = ground arith
IsSeparator-is_separator c (inr (inr (l, h))) = ground arith

IsPlain-is_separator : (c : ℕ) → IsPlain c → is_separator c ≡ false
IsPlain-is_separator c (a, b, inl l) = ground arith
IsPlain-is_separator c (a, b, inr h) = ground arith

is_separator-IsPlain : (c : ℕ) → is_separator c ≡ false → IsPlain c
is_separator-IsPlain c h = (ground arith, ground arith, ground arith)

flush-IsToken :
    (cur : List ℕ) (out : List (List ℕ))
    → All IsPlain cur
    → All IsToken out
    → All IsToken (flush cur out)
flush-IsToken [] out h k = k
flush-IsToken (c ∷ cur) out h k = All-append IsToken out ((c ∷ cur) ∷ []) k (((λ e. cc), h), tt)

tokenize_from-IsToken :
    (cur : List ℕ) (out : List (List ℕ)) (s : List ℕ)
    → All IsPlain cur
    → All IsToken out
    → All IsToken (tokenize_from cur out s)
unfolding tokenize_from
tokenize_from-IsToken cur out [] h k = flush-IsToken cur out h k
tokenize_from-IsToken cur out (c ∷ s) h k = elim (Bool-cases (is_separator c)) [
  | inl e ↦
      rw (e, tokenize_from)
        (tokenize_from-IsToken [] (flush cur out) s tt (flush-IsToken cur out h k))
  | inr e ↦
      rw (e, tokenize_from)
        (tokenize_from-IsToken (cur ++ c ∷ []) out s
          (All-append IsPlain cur (c ∷ []) h (is_separator-IsPlain c e, tt)) k)
]

-- The tokens so far stay in front.
flush-append : (cur : List ℕ) (out : List (List ℕ)) → flush cur out ≡ out ++ flush cur []
flush-append [] out = sym (append-nil out)
flush-append (c ∷ cur) out = refl

tokenize_from-out :
    (cur : List ℕ) (out : List (List ℕ)) (s : List ℕ)
    → tokenize_from cur out s ≡ out ++ tokenize_from cur [] s
unfolding tokenize_from
tokenize_from-out cur out [] = flush-append cur out
tokenize_from-out cur out (c ∷ s) = elim (Bool-cases (is_separator c)) [
  | inl e ↦
      rw (e, tokenize_from)
        (tokenize_from-out [] (flush cur out) s
          ∙ ap (λ x. x ++ tokenize_from [] [] s) (flush-append cur out)
          ∙ append_assoc out (flush cur []) (tokenize_from [] [] s)
          ∙ ap (◌++◌ out) (sym (tokenize_from-out [] (flush cur []) s)))
  | inr e ↦ rw (e, tokenize_from) (tokenize_from-out (cur ++ c ∷ []) out s)
]

-- A separator ends what has been read, whatever follows.
tokenize_from-separator :
    (cur : List ℕ) (x y : List ℕ) (c : ℕ)
    → is_separator c ≡ true
    → tokenize_from cur [] (x ++ c ∷ y) ≡ tokenize_from cur [] x ++ tokenize_from [] [] y
unfolding tokenize_from
tokenize_from-separator cur [] y c h = rw (h, tokenize_from) (tokenize_from-out [] (flush cur []) y)
tokenize_from-separator cur (d ∷ x) y c h = elim (Bool-cases (is_separator d)) [
  | inl e ↦
      rw (e, tokenize_from)
        (tokenize_from-out [] (flush cur []) (x ++ c ∷ y)
          ∙ ap (◌++◌ (flush cur [])) (tokenize_from-separator [] x y c h)
          ∙ sym (append_assoc (flush cur []) (tokenize_from [] [] x) (tokenize_from [] [] y))
          ∙ ap (λ z. z ++ tokenize_from [] [] y) (sym (tokenize_from-out [] (flush cur []) x)))
  | inr e ↦ rw (e, tokenize_from) (tokenize_from-separator (cur ++ d ∷ []) x y c h)
]

tokenize_from-plain :
    (cur t : List ℕ) → All IsPlain t → tokenize_from cur [] t ≡ flush (cur ++ t) []
unfolding tokenize_from
tokenize_from-plain cur [] h = ap (λ x. flush x []) (sym (append-nil cur))
tokenize_from-plain cur (c ∷ t) h =
    let e = IsPlain-is_separator c h.0 in
    rw (e, tokenize_from)
      (tokenize_from-plain (cur ++ c ∷ []) t h.1
        ∙ ap (λ x. flush x []) (append_assoc cur (c ∷ []) t))

flush-token : (t : List ℕ) → t ≢ [] → flush t [] ≡ t ∷ []
flush-token [] n = absurd (n refl)
flush-token (c ∷ t) n = refl

-- The text is split at every separator, a comma or white space, and nowhere else: a text with a
-- separator in it has the tokens of its two sides one behind the other, a text without any is one
-- token, and no token is empty or holds a separator.
pub tokenize_lem :
    (x y t : List ℕ) (c : ℕ)
    → IsSeparator c
    → IsToken t
    → (tokenize (x ++ c ∷ y) ≡ tokenize x ++ tokenize y)
      × (tokenize t ≡ t ∷ [])
      × (tokenize [] ≡ [])
      × All IsToken (tokenize x)
unfolding tokenize tokenize_from
tokenize_lem x y t c s k = (
  tokenize_from-separator [] x y c (IsSeparator-is_separator c s),
  tokenize_from-plain [] t k.1 ∙ flush-token t k.0,
  refl,
  tokenize_from-IsToken [] [] x tt tt,
)
