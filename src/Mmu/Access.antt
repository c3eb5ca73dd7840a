-- ===== src/Mmu/Access.antt =====
-- read8 and write8 of MMU.cpp against an abstract memory: a partial map from
-- virtual addresses to bytes.
use csci_480_assignment.Base.{
  ℕ, ◌<◌, ◌≡◌, refl, ap, ◌∙◌, sym, Bool, true, false, Option, none, some, arith, update, ◌==◌,
  Result, ok, throw, Bool-cases, inl, inr, ==→eq,
}
use csci_480_assignment.PhysMem
use csci_480_assignment.PhysMem.{PhysMem}
use csci_480_assignment.Mmu.{Mmu, translate, read8, write8}
use csci_480_assignment.Mmu.Resolve.{resolve, SameView, translate-resolve, translate-SameView}

-- The byte that a virtual address shows, `none` where the access throws.
abbrev pub byte_at : Mmu → ℕ → Option ℕ
byte_at u v = elim (resolve u v) [ ok a ↦ some (u.phys_mem.mem a) | throw e ↦ none ]

-- Mapped addresses lie in physical memory, and no two of them share a byte.
pub record IsSound (u : Mmu) : Type 0 where
  pub fits : (v a : ℕ) → resolve u v ≡ ok a → a < u.phys_mem.size
  pub apart : (v w a : ℕ) → resolve u v ≡ ok a → resolve u w ≡ ok a → v ≡ w

-- The MMU shows the abstract memory `m`.
pub record Shows (u : Mmu) (m : ℕ → Option ℕ) : Type 0 where
  pub sound : IsSound u
  pub bytes : (x : ℕ) → byte_at u x ≡ m x

SameView-IsSound : (u w : Mmu) → SameView u w → IsSound u → IsSound w
SameView-IsSound u w s h = record {
  fits = λ v a e. rw s.mem (h.fits v a (sym (s.addresses v) ∙ e));
  apart = λ v x a e f. h.apart v x a (sym (s.addresses v) ∙ e) (sym (s.addresses x) ∙ f);
}

SameView-Shows : (u w : Mmu) (m : ℕ → Option ℕ) → SameView u w → Shows u m → Shows w m
SameView-Shows u w m s h = record {
  sound = SameView-IsSound u w s h.sound;
  bytes = λ x. ground (arith, s.addresses x, s.mem, h.bytes x);
}

-- A byte that is shown has an address.
address_of :
    (u : Mmu) (v b : ℕ)
    → byte_at u v ≡ some b
    → (a : ℕ) × (resolve u v ≡ ok a) × (u.phys_mem.mem a ≡ b)
address_of u v b h = split (resolve u v) h
  where
    split :
        (r : Result ℕ)
        → elim r [ ok a ↦ some (u.phys_mem.mem a) | throw e ↦ none ] ≡ some b
        → (a : ℕ) × (r ≡ ok a) × (u.phys_mem.mem a ≡ b)
    split (ok a) e = (a, refl, ground arith)
    split (throw x) e = absurd (ground arith)

-- What translate does at a mapped address.
translate_mapped :
    (u : Mmu) (v a : ℕ) (is_write : Bool)
    → resolve u v ≡ ok a
    → (w : Mmu) × (translate v is_write u ≡ (ok a, w)) × SameView u w
translate_mapped u v a is_write e =
    let w : Mmu = (translate v is_write u).1 in
    (w, λ i. ((translate-resolve v is_write u ∙ e) i, w), translate-SameView v is_write u)

module _ (u w : Mmu) (v a : ℕ) (same : w.phys_mem ≡ u.phys_mem) (h : a < u.phys_mem.size) where
  read8_mapped : translate v false u ≡ (ok a, w) → read8 v u ≡ (ok (u.phys_mem.mem a), w)
  unfolding read8 PhysMem.read8
  read8_mapped run = ground arith

  write8_mapped :
      (b : ℕ)
      → translate v true u ≡ (ok a, w)
      → write8 v b u
        ≡ (ok tt, record w { phys_mem = record u.phys_mem { mem = update u.phys_mem.mem a b } })
  unfolding write8 PhysMem.write8
  write8_mapped b run = ground arith

-- At an address that the abstract memory holds, read8 gives its byte, and leaves that memory as it is.
pub read8-Shows :
    (u : Mmu) (m : ℕ → Option ℕ) (v b : ℕ)
    → Shows u m
    → m v ≡ some b
    → (w : Mmu) × (read8 v u ≡ (ok b, w)) × Shows w m
read8-Shows u m v b h e =
    let (a, at, held) = address_of u v b (h.bytes v ∙ e) in
    let (w, run, same) = translate_mapped u v a false at in
    (
      w,
      read8_mapped u w v a same.mem (h.sound.fits v a at) run ∙ ap (λ x. (ok x, w)) held,
      SameView-Shows u w m same h,
    )

-- The state behind a byte written at the address `a`.
abbrev wrote : (w : Mmu) → PhysMem → ℕ → ℕ → Mmu
wrote w p a b = record w { phys_mem = record p { mem = update p.mem a b } }

wrote-Shows :
    (u w : Mmu) (m : ℕ → Option ℕ) (v a b : ℕ)
    → Shows u m
    → SameView u w
    → resolve u v ≡ ok a
    → Shows (wrote w u.phys_mem a b) (update m v (some b))
wrote-Shows u w m v a b h same at = record {
  sound = record {
    fits = λ x c e. h.sound.fits x c (sym (same.addresses x) ∙ e);
    apart =
        λ x y c e f. h.sound.apart x y c (sym (same.addresses x) ∙ e) (sym (same.addresses y) ∙ f);
  };
  bytes = λ x. shown x (resolve u x) refl;
}
  where
    shown :
        (x : ℕ) (r : Result ℕ)
        → resolve u x ≡ r
        → byte_at (wrote w u.phys_mem a b) x ≡ update m v (some b) x
    shown x (ok c) e = elim (Bool-cases (v == x)) [
      | inl t ↦
          let q : resolve u v ≡ resolve u x = ap (resolve u) (==→eq v x t) in
          ground (arith, q, e, at, same.addresses x)
      | inr f ↦ ground (arith, e, same.addresses x, h.bytes x, h.sound.apart v x a at)
    ]
    shown x (throw t) e = ground (arith, e, same.addresses x, h.bytes x)

-- At an address that the abstract memory holds, write8 replaces the byte, and no other byte.
pub write8-Shows :
    (u : Mmu) (m : ℕ → Option ℕ) (v b old : ℕ)
    → Shows u m
    → m v ≡ some old
    → (w : Mmu) × (write8 v b u ≡ (ok tt, w)) × Shows w (update m v (some b))
write8-Shows u m v b old h e =
    let (a, at, _) = address_of u v old (h.bytes v ∙ e) in
    let (w, run, same) = translate_mapped u v a true at in
    (
      wrote w u.phys_mem a b,
      write8_mapped u w v a same.mem (h.sound.fits v a at) b run,
      wrote-Shows u w m v a b h same at,
    )
