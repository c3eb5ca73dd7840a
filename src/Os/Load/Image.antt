-- ===== src/Os/Load/Image.antt =====
-- Program::loadIntoMemory of PROGRAM.CPP against the abstract memory, and CPU::fetch of CPU.cpp at an
-- instruction of the program that it has loaded.
use csci_480_assignment.Base.{
  ℕ, zero, suc, ◌+◌, ◌^◌, ◌<◌, ◌≡◌, refl, ap, sym, ◌∙◌, Option, some, List, [], ◌∷◌, ◌++◌, length,
  arith, update, ok, get_elem?, length-append, subst,
}
use mathlib.Core.List.{append_assoc}
use csci_480_assignment.Word.{add32}
use csci_480_assignment.Mmu.{Mmu}
use csci_480_assignment.Mmu.Access.{Shows, write8-Shows}
use csci_480_assignment.Program.{encode, emit32}
use csci_480_assignment.Cpu.{Cpu, Printed, fetch}
use csci_480_assignment.Cpu.Fetch.{Stored, fetch-Stored}
use csci_480_assignment.Os.Load.{load_into_memory}

-- The abstract memory with the bytes of a program written from an address on.
pub store_bytes : (ℕ → Option ℕ) → ℕ → List ℕ → ℕ → Option ℕ
store_bytes m a [] = m
store_bytes m a (b ∷ bs) = store_bytes (update m a (some b)) (add32 a 1) bs

-- As many addresses hold bytes as the list is long.
abbrev pub Room : (ℕ → Option ℕ) → ℕ → List ℕ → Type 0
Room m a bs = (k : ℕ) → k < length bs → (old : ℕ) × (m (a + k) ≡ some old)

-- Where the abstract memory has room for a program, loading succeeds and stores its bytes one behind
-- the other.
pub load_into_memory-Shows :
    (u : Mmu) (m : ℕ → Option ℕ) (a : ℕ) (bs : List ℕ)
    → a + length bs < 2 ^ 32
    → Shows u m
    → Room m a bs
    → (w : Mmu) × (load_into_memory a bs u ≡ (ok tt, w)) × Shows w (store_bytes m a bs)
unfolding load_into_memory store_bytes
load_into_memory-Shows u m a [] small h r = (u, refl, h)
load_into_memory-Shows u m a (b ∷ bs) small h r =
    let (old, e) = r 0 (omega arith) in
    let here : a + 0 ≡ a = omega arith in
    let (v, run, h') = write8-Shows u m a b old h (ap m (sym here) ∙ e) in
    let next : add32 a 1 ≡ a + 1 = omega arith in
    let room : Room (update m a (some b)) (add32 a 1) bs = λ k lt.
      let (old', e') = r (suc k) (omega arith) in
      let same : a + suc k ≡ add32 a 1 + k = omega arith in (old', ground (arith, e', ap m same)) in
    let (w, rest, h'') = load_into_memory-Shows v _ (add32 a 1) bs (omega arith) h' room in
    (w, ground (arith, run, rest), h'')

store_bytes-below :
    (m : ℕ → Option ℕ) (a x : ℕ) (bs : List ℕ)
    → a + length bs < 2 ^ 32
    → x < a
    → store_bytes m a bs x ≡ m x
unfolding store_bytes
store_bytes-below m a x [] small h = refl
store_bytes-below m a x (b ∷ bs) small h =
    store_bytes-below (update m a (some b)) (add32 a 1) x bs (omega arith) (omega arith)
    ∙ ground arith

-- The byte that is stored at an index.
store_bytes-get_elem? :
    (m : ℕ → Option ℕ) (a k : ℕ) (bs : List ℕ) {b : ℕ}
    → a + length bs < 2 ^ 32
    → get_elem? bs k ≡ some b
    → store_bytes m a bs (a + k) ≡ some b
unfolding store_bytes
store_bytes-get_elem? m a k [] small h = absurd (ground arith)
store_bytes-get_elem? m a zero (c ∷ bs) small h =
    store_bytes-below (update m a (some c)) (add32 a 1) (a + 0) bs (omega arith) (omega arith)
    ∙ ground arith
store_bytes-get_elem? m a (suc k) (c ∷ bs) small h =
    let same : a + suc k ≡ add32 a 1 + k = omega arith in
    ap (store_bytes (update m a (some c)) (add32 a 1) bs) same
    ∙ store_bytes-get_elem? (update m a (some c)) (add32 a 1) k bs (omega arith) h

get_elem?-append : (xs ys : List ℕ) (k : ℕ) → get_elem? (xs ++ ys) (length xs + k) ≡ get_elem? ys k
get_elem?-append [] ys k = ap (get_elem? ys) (omega arith)
get_elem?-append (x ∷ xs) ys k =
    let same : length (x ∷ xs) + k ≡ suc (length xs + k) = omega arith in
    ap (get_elem? (x ∷ (xs ++ ys))) same ∙ get_elem?-append xs ys k

-- A byte behind the first bytes of the program.
byte-stored :
    (m : ℕ → Option ℕ) (a k x : ℕ) (before tail : List ℕ) {b : ℕ}
    → a + length (before ++ tail) < 2 ^ 32
    → get_elem? tail k ≡ some b
    → x ≡ a + (length before + k)
    → store_bytes m a (before ++ tail) x ≡ some b
byte-stored m a k x before tail small h e =
    ap (store_bytes m a (before ++ tail)) e
    ∙ store_bytes-get_elem? m a (length before + k) (before ++ tail) small
        (get_elem?-append before tail k ∙ h)

-- A word that lies at an index of the program is stored there.
word-Stored :
    (m : ℕ → Option ℕ) (a w v : ℕ) (before after : List ℕ)
    → a + length (before ++ (emit32 w ++ after)) < 2 ^ 32
    → a + length before ≡ v
    → Stored (store_bytes m a (before ++ (emit32 w ++ after))) v w
unfolding emit32
word-Stored m a w v before after small e =
    let tail = emit32 w ++ after in
    let total = length-append before tail in
    (
      byte-stored m a 0 v before tail small refl (omega arith),
      byte-stored m a 1 (add32 v 1) before tail small refl (omega arith),
      byte-stored m a 2 (add32 v 2) before tail small refl (omega arith),
      byte-stored m a 3 (add32 v 3) before tail small refl (omega arith),
    )

module _ (m : ℕ → Option ℕ) (base raw a b : ℕ) (before after : List ℕ)
    (small : base + length (before ++ (encode raw a b ++ after)) < 2 ^ 32) where
  abbrev program : List ℕ
  program = before ++ (encode raw a b ++ after)

  code-Stored : Stored (store_bytes m base program) (base + length before) raw
  unfolding emit32
  code-Stored =
      word-Stored m base raw (base + length before) before (emit32 a ++ (emit32 b ++ after)) small
        refl

  first-Stored : Stored (store_bytes m base program) (add32 (base + length before) 4) a
  unfolding emit32
  first-Stored =
      let split = append_assoc before (emit32 raw) (emit32 a ++ (emit32 b ++ after)) in
      let fits = subst (λ xs. base + length xs < 2 ^ 32) (sym split) small in
      let len = length-append before (emit32 raw) in
      let all = length-append before (encode raw a b ++ after) in
      subst (λ xs. Stored (store_bytes m base xs) (add32 (base + length before) 4) a) split
        (word-Stored m base a (add32 (base + length before) 4) (before ++ emit32 raw)
          (emit32 b ++ after) fits (omega arith))

  second-Stored : Stored (store_bytes m base program) (add32 (base + length before) 8) b
  unfolding emit32
  second-Stored =
      let split = append_assoc before (emit32 raw ++ emit32 a) (emit32 b ++ after) in
      let fits = subst (λ xs. base + length xs < 2 ^ 32) (sym split) small in
      let len = length-append before (emit32 raw ++ emit32 a) in
      let all = length-append before (encode raw a b ++ after) in
      subst (λ xs. Stored (store_bytes m base xs) (add32 (base + length before) 8) b) split
        (word-Stored m base b (add32 (base + length before) 8) (before ++ (emit32 raw ++ emit32 a))
          after fits (omega arith))

  -- A program that is loaded where the abstract memory has room for it is fetched as it was
  -- encoded: the CPU that stands at an instruction of it gets the code and the operands, and moves
  -- on by twelve bytes.
  pub fetch-load_into_memory :
      (u : Mmu) (c : Cpu) (out : List Printed)
      → raw < 2 ^ 32
      → a < 2 ^ 32
      → b < 2 ^ 32
      → c.ip ≡ base + length before
      → Shows u m
      → Room m base program
      → (w x : Mmu) × (load_into_memory base program u ≡ (ok tt, w))
        × (fetch (record { cpu = c; mmu = w; output = out }) ≡ (
          ok (raw, a, b),
          record { cpu = record c { ip = add32 c.ip 12 }; mmu = x; output = out },
        ))
  fetch-load_into_memory u c out lr la lb at h room =
      let (w, run, h') = load_into_memory-Shows u m base program small h room in
      let mem = store_bytes m base program in
      let (x, got, _) =
        fetch-Stored (record { cpu = c; mmu = w; output = out }) mem raw a b lr la lb h'
          (subst (λ v. Stored mem v raw) (sym at) code-Stored)
          (subst (λ v. Stored mem (add32 v 4) a) (sym at) first-Stored)
          (subst (λ v. Stored mem (add32 v 8) b) (sym at) second-Stored) in
      (w, x, run, got)
