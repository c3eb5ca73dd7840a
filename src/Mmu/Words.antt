-- ===== src/Mmu/Words.antt =====
-- read32 and write32 of MMU.cpp against the abstract memory, and the word that comes back.
use csci_480_assignment.Base.{
  ℕ, ◌+◌, ◌*◌, ◌/◌, ◌^◌, ◌<◌, ◌≡◌, ap, ◌∙◌, Option, some, arith, update, ok,
}
use csci_480_assignment.Word.{u8, add32}
use csci_480_assignment.Word.Bits.{zero-bit_or, bit_or-shifted}
use csci_480_assignment.Mmu.{Mmu, read32, write32, join_bytes}
use csci_480_assignment.Mmu.Access.{Shows, read8-Shows, write8-Shows}

-- Four bytes in a row, lowest first.
abbrev pub Word : (ℕ → Option ℕ) → ℕ → ℕ → ℕ → ℕ → ℕ → Type 0
Word m v b0 b1 b2 b3 =
    (m v ≡ some b0)
    × (m (add32 v 1) ≡ some b1)
    × (m (add32 v 2) ≡ some b2)
    × (m (add32 v 3) ≡ some b3)

-- Where the abstract memory holds the four bytes of a word, read32 joins them, and leaves that
-- memory as it is.
pub read32-Shows :
    (u : Mmu) (m : ℕ → Option ℕ) (v b0 b1 b2 b3 : ℕ)
    → Shows u m
    → Word m v b0 b1 b2 b3
    → (w : Mmu) × (read32 v u ≡ (ok (join_bytes b0 b1 b2 b3), w)) × Shows w m
unfolding read32
read32-Shows u m v b0 b1 b2 b3 h e =
    let (u0, r0, h0) = read8-Shows u m v b0 h e.0 in
    let (u1, r1, h1) = read8-Shows u0 m (add32 v 1) b1 h0 e.1 in
    let (u2, r2, h2) = read8-Shows u1 m (add32 v 2) b2 h1 e.2 in
    let (u3, r3, h3) = read8-Shows u2 m (add32 v 3) b3 h2 e.3 in
    (u3, ground (arith, r0, r1, r2, r3), h3)

-- The abstract memory with a word written at `v`.
abbrev pub store32 : (ℕ → Option ℕ) → ℕ → ℕ → ℕ → Option ℕ
store32 m v val =
    update
      (update (update (update m v (some (u8 val))) (add32 v 1) (some (u8 (val / 2 ^ 8))))
        (add32 v 2) (some (u8 (val / 2 ^ 16))))
      (add32 v 3) (some (u8 (val / 2 ^ 24)))

-- Where the abstract memory holds the four bytes of a word, write32 stores the four bytes of the
-- new one, and changes no other byte.
pub write32-Shows :
    (u : Mmu) (m : ℕ → Option ℕ) (v val b0 b1 b2 b3 : ℕ)
    → v < 2 ^ 32
    → Shows u m
    → Word m v b0 b1 b2 b3
    → (w : Mmu) × (write32 v val u ≡ (ok tt, w)) × Shows w (store32 m v val)
unfolding write32
write32-Shows u m v val b0 b1 b2 b3 lt h e =
    let (u0, r0, h0) = write8-Shows u m v (u8 val) b0 h e.0 in
    let (u1, r1, h1) = write8-Shows u0 _ (add32 v 1) (u8 (val / 2 ^ 8)) b1 h0 (ground arith) in
    let (u2, r2, h2) = write8-Shows u1 _ (add32 v 2) (u8 (val / 2 ^ 16)) b2 h1 (ground arith) in
    let (u3, r3, h3) = write8-Shows u2 _ (add32 v 3) (u8 (val / 2 ^ 24)) b3 h2 (ground arith) in
    (u3, ground (arith, r0, r1, r2, r3), h3)

-- The bytes of a word, joined again.
pub join_bytes-u8 :
    (val : ℕ)
    → val < 2 ^ 32
    → join_bytes (u8 val) (u8 (val / 2 ^ 8)) (u8 (val / 2 ^ 16)) (u8 (val / 2 ^ 24)) ≡ val
join_bytes-u8 val h =
    let b0 = u8 val in
    let b1 = u8 (val / 2 ^ 8) in
    let b2 = u8 (val / 2 ^ 16) in
    rw
      (
        zero-bit_or b0,
        bit_or-shifted 8 b0 b1 (omega arith),
        bit_or-shifted 16 (b0 + b1 * 2 ^ 8) b2 (omega arith),
        bit_or-shifted 24 (b0 + b1 * 2 ^ 8 + b2 * 2 ^ 16) (u8 (val / 2 ^ 24)) (omega arith),
      )
      (omega arith)

-- A word below 2 ^ 32 that is written where the abstract memory holds four bytes is read back
-- there, also across a page boundary.
pub read32-write32 :
    (u : Mmu) (m : ℕ → Option ℕ) (v val b0 b1 b2 b3 : ℕ)
    → v < 2 ^ 32
    → val < 2 ^ 32
    → Shows u m
    → Word m v b0 b1 b2 b3
    → (w x : Mmu) × (write32 v val u ≡ (ok tt, w)) × (read32 v w ≡ (ok val, x))
read32-write32 u m v val b0 b1 b2 b3 lt fits h e =
    let (w, wr, h') = write32-Shows u m v val b0 b1 b2 b3 lt h e in
    let (x, rd, _) =
      read32-Shows w (store32 m v val) v (u8 val) (u8 (val / 2 ^ 8)) (u8 (val / 2 ^ 16))
        (u8 (val / 2 ^ 24)) h' (ground arith, ground arith, ground arith, ground arith) in
    (w, x, wr, rd ∙ ap (λ b. (ok b, x)) (join_bytes-u8 val fits))
