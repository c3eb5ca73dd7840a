-- ===== src/Cpu/Fetch.antt =====
-- CPU::fetch of CPU.cpp on the bytes that Program::emit32 of PROGRAM.CPP writes.
use csci_480_assignment.Base.{ℕ, ◌/◌, ◌^◌, ◌<◌, ◌≡◌, ap, ◌∙◌, arith, Option, ok}
use csci_480_assignment.Word.{u8, add32}
use csci_480_assignment.Mmu
use csci_480_assignment.Mmu.{Mmu}
use csci_480_assignment.Mmu.Access.{Shows}
use csci_480_assignment.Mmu.Words.{Word, read32-Shows, join_bytes-u8}
use csci_480_assignment.Cpu.{Machine, fetch}

-- The four bytes of a word lie at an address, lowest first.
abbrev pub Stored : (ℕ → Option ℕ) → ℕ → ℕ → Type 0
Stored mem v w = Word mem v (u8 w) (u8 (w / 2 ^ 8)) (u8 (w / 2 ^ 16)) (u8 (w / 2 ^ 24))

read32-Stored :
    (u : Mmu) (mem : ℕ → Option ℕ) (v w : ℕ)
    → w < 2 ^ 32
    → Shows u mem
    → Stored mem v w
    → (u' : Mmu) × (Mmu.read32 v u ≡ (ok w, u')) × Shows u' mem
read32-Stored u mem v w lt h s =
    let (u', run, h') =
      read32-Shows u mem v (u8 w) (u8 (w / 2 ^ 8)) (u8 (w / 2 ^ 16)) (u8 (w / 2 ^ 24)) h s in
    (u', run ∙ ap (λ x. (ok x, u')) (join_bytes-u8 w lt), h')

-- An instruction that lies at the instruction pointer is fetched as it was written, and the pointer
-- moves on by its twelve bytes; the memory and the other registers stay.
pub fetch-Stored :
    (m : Machine) (mem : ℕ → Option ℕ) (raw a b : ℕ)
    → raw < 2 ^ 32
    → a < 2 ^ 32
    → b < 2 ^ 32
    → Shows m.mmu mem
    → Stored mem m.cpu.ip raw
    → Stored mem (add32 m.cpu.ip 4) a
    → Stored mem (add32 m.cpu.ip 8) b
    → (u : Mmu) × (fetch m
        ≡ (ok (raw, a, b), record m { cpu = record m.cpu { ip = add32 m.cpu.ip 12 }; mmu = u }))
      × Shows u mem
unfolding fetch
fetch-Stored m mem raw a b lr la lb h sr sa sb =
    let (u0, r0, h0) = read32-Stored m.mmu mem m.cpu.ip raw lr h sr in
    let (u1, r1, h1) = read32-Stored u0 mem (add32 m.cpu.ip 4) a la h0 sa in
    let (u2, r2, h2) = read32-Stored u1 mem (add32 m.cpu.ip 8) b lb h1 sb in
    (u2, ground (arith, r0, r1, r2), h2)
