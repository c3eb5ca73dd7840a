-- ===== src/Mmu/Frames.antt =====
-- readPhysPage and writePhysPage of MMU.cpp: the bytes of a frame.
use csci_480_assignment.Base.{
  ℕ, zero, suc, ◌+◌, ◌*◌, ◌^◌, ◌≤◌, ◌<◌, ◌≡◌, ◌⊎◌, refl, ap₂, ◌∙◌, List, [], ◌∷◌, length, arith,
  update, ok, inl, inr,
}
use csci_480_assignment.Word.{add32, mul32}
use csci_480_assignment.PhysMem
use csci_480_assignment.PhysMem.{PhysMem}
use csci_480_assignment.Mmu.{
  Mmu, read_bytes, write_bytes, read_phys_page, write_phys_page, page_size,
}

-- The bytes from an address on, and a memory in which they are replaced.
pub bytes_of : (ℕ → ℕ) → ℕ → ℕ → List ℕ
bytes_of f a zero = []
bytes_of f a (suc n) = f a ∷ bytes_of f (a + 1) n

pub fill : (ℕ → ℕ) → ℕ → List ℕ → ℕ → ℕ
fill f a [] = f
fill f a (b ∷ bs) = fill (update f a b) (a + 1) bs

fill-below : (f : ℕ → ℕ) (a x : ℕ) (bs : List ℕ) → x < a → fill f a bs x ≡ f x
unfolding fill bytes_of
fill-below f a x [] h = refl
fill-below f a x (b ∷ bs) h = fill-below (update f a b) (a + 1) x bs (omega arith) ∙ ground arith

fill-above : (f : ℕ → ℕ) (a x : ℕ) (bs : List ℕ) → a + length bs ≤ x → fill f a bs x ≡ f x
unfolding fill bytes_of
fill-above f a x [] h = refl
fill-above f a x (b ∷ bs) h = fill-above (update f a b) (a + 1) x bs (omega arith) ∙ ground arith

bytes_of-fill : (f : ℕ → ℕ) (a : ℕ) (bs : List ℕ) → bytes_of (fill f a bs) a (length bs) ≡ bs
unfolding fill bytes_of
bytes_of-fill f a [] = refl
bytes_of-fill f a (b ∷ bs) =
    ap₂ ◌∷◌ (fill-below (update f a b) (a + 1) a bs (omega arith) ∙ ground arith)
      (bytes_of-fill (update f a b) (a + 1) bs)

module _ (base : ℕ) where
  write_bytes-fill :
      (i : ℕ) (bs : List ℕ) (m : PhysMem)
      → base + i + length bs ≤ m.size
      → m.size ≤ 2 ^ 32
      → write_bytes base (length bs) i bs m ≡ (ok tt, record m { mem = fill m.mem (base + i) bs })
  unfolding write_bytes PhysMem.write8 fill
  write_bytes-fill i [] m h s = refl
  write_bytes-fill i (b ∷ bs) m h s =
      let at : add32 base i ≡ base + i = omega arith in
      let next : base + (i + 1) ≡ base + i + 1 = omega arith in
      let rest =
        write_bytes-fill (i + 1) bs (record m { mem = update m.mem (base + i) b }) (omega arith)
          s in
      ground (arith, at, next, rest)

  read_bytes-bytes_of :
      (i n : ℕ) (m : PhysMem)
      → base + i + n ≤ m.size
      → m.size ≤ 2 ^ 32
      → read_bytes base n i m ≡ (ok (bytes_of m.mem (base + i) n), m)
  unfolding read_bytes PhysMem.read8 bytes_of
  read_bytes-bytes_of i zero m h s = refl
  read_bytes-bytes_of i (suc n) m h s =
      let at : add32 base i ≡ base + i = omega arith in
      let next : base + (i + 1) ≡ base + i + 1 = omega arith in
      let rest = read_bytes-bytes_of (i + 1) n m (omega arith) s in ground (arith, at, next, rest)

-- The state behind a page written to the frame `pp`.
abbrev pub with_frame : Mmu → ℕ → List ℕ → Mmu
with_frame u pp buf = record u {
  phys_mem = record u.phys_mem { mem = fill u.phys_mem.mem (pp * page_size) buf };
}

module _ (u : Mmu) (pp : ℕ) (buf : List ℕ) (whole : length buf ≡ page_size)
    (inside : (pp + 1) * page_size ≤ u.phys_mem.size) (small : u.phys_mem.size ≤ 2 ^ 32) where
  write_phys_page-with_frame : write_phys_page pp buf u ≡ (ok tt, with_frame u pp buf)
  unfolding write_phys_page
  write_phys_page-with_frame =
      let at : mul32 pp page_size ≡ pp * page_size = omega arith in
      let zero_at : pp * page_size + 0 ≡ pp * page_size = omega arith in
      let run = write_bytes-fill (pp * page_size) 0 buf u.phys_mem (omega arith) small in
      ground (arith, at, zero_at, run, whole)

  read_phys_page-with_frame :
      read_phys_page pp (with_frame u pp buf) ≡ (ok buf, with_frame u pp buf)
  unfolding read_phys_page
  read_phys_page-with_frame =
      let at : mul32 pp page_size ≡ pp * page_size = omega arith in
      let zero_at : pp * page_size + 0 ≡ pp * page_size = omega arith in
      let w = with_frame u pp buf in
      let run = read_bytes-bytes_of (pp * page_size) 0 page_size w.phys_mem (omega arith) small in
      let same = bytes_of-fill u.phys_mem.mem (pp * page_size) buf in
      ground (arith, at, zero_at, run, same, whole)

  -- A page of 256 bytes that is written to a frame of the memory is read back from it, and no byte
  -- outside the frame changes.
  pub read_phys_page-write_phys_page :
      (w : Mmu) × (write_phys_page pp buf u ≡ (ok tt, w))
      × (read_phys_page pp w ≡ (ok buf, w))
      × ((a : ℕ)
          → (a < pp * page_size) ⊎ ((pp + 1) * page_size ≤ a)
          → w.phys_mem.mem a ≡ u.phys_mem.mem a)
  read_phys_page-write_phys_page = (
    with_frame u pp buf,
    write_phys_page-with_frame,
    read_phys_page-with_frame,
    λ a h. elim h [
      | inl below ↦ fill-below u.phys_mem.mem (pp * page_size) a buf below
      | inr above ↦ fill-above u.phys_mem.mem (pp * page_size) a buf (omega arith)
    ],
  )
