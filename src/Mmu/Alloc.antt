-- ===== src/Mmu/Alloc.antt =====
-- allocPhysPage and zeroPhysPage of MMU.cpp.
use csci_480_assignment.Base.{
  ℕ, zero, suc, ◌+◌, ◌*◌, ◌^◌, ◌≤◌, ◌<◌, ◌≡◌, ◌⊎◌, refl, ap, sym, ◌∙◌, Bool, true, false, none,
  some, arith, update, ok, throw, ◌==◌, inl, inr, for_range, for_range_inv, Bool-cases,
  out_of_physical_memory, ==→eq, not_==→ne,
}
use csci_480_assignment.Word.{add32, mul32}
use csci_480_assignment.PhysMem
use csci_480_assignment.PhysMem.{PhysMem}
use csci_480_assignment.Lru
use csci_480_assignment.Mmu.{
  Mmu, num_phys_pages, find_free, zero_phys_page, alloc_phys_page, touch_phys_page, page_size,
}

-- The memory `s` is `m` with `k` zeros from `base` on.
pub record Zeroed (m : PhysMem) (base k : ℕ) (s : PhysMem) : Type 0 where
  pub size : s.size ≡ m.size
  pub zeros : (j : ℕ) → j < k → s.mem (base + j) ≡ 0
  pub others : (a : ℕ) → (a < base) ⊎ (base + k ≤ a) → s.mem a ≡ m.mem a

Zeroed-suc :
    (m s : PhysMem) (base k : ℕ)
    → Zeroed m base k s
    → Zeroed m base (k + 1) (record s { mem = update s.mem (base + k) 0 })
Zeroed-suc m s base k z = record {
  size = z.size;
  zeros = λ j h. elim (Bool-cases (base + k == base + j)) [
    | inl t ↦ ground (arith, t)
    | inr f ↦
        let ne = not_==→ne (base + k) (base + j) f in ground (arith, f, z.zeros j (omega arith))
  ];
  others = λ a h. elim h [
    | inl below ↦ ground (arith, z.others a (inl below))
    | inr above ↦ ground (arith, z.others a (inr (omega arith)))
  ];
}

zeroing :
    (m : PhysMem) (base : ℕ)
    → base + 256 ≤ m.size
    → m.size ≤ 2 ^ 32
    → (s : PhysMem) × (for_range 256 0 (λ i. PhysMem.write8 (add32 base i) 0) m ≡ (ok tt, s))
      × Zeroed m base 256 s
unfolding PhysMem.write8
zeroing m base inside small =
    for_range_inv (Zeroed m base) (λ i. PhysMem.write8 (add32 base i) 0) 256 0 256 m refl
      (λ k t lo hi z.
        let at : add32 base k ≡ base + k = omega arith in
        let size = z.size in
        (
          record t { mem = update t.mem (base + k) 0 },
          ground (arith, at, size),
          Zeroed-suc m t base k z,
        ))
      (record { size = refl; zeros = λ j h. absurd (omega arith); others = λ a h. refl })

-- The frames from `lo` up to `hi` are used.
abbrev pub AllUsed : (ℕ → Bool) → ℕ → ℕ → Type 0
AllUsed used lo hi = (q : ℕ) → lo ≤ q → q < hi → used q ≡ true

AllUsed-cons :
    (used : ℕ → Bool) (lo hi : ℕ) → used lo ≡ true → AllUsed used (lo + 1) hi → AllUsed used lo hi
AllUsed-cons used lo hi e h q a b = elim (Bool-cases (lo == q)) [
  | inl t ↦ sym (ap used (==→eq lo q t)) ∙ e
  | inr f ↦ let ne = not_==→ne lo q f in h q (omega arith) b
]

-- The first frame that is not used.
pub record FirstFree (used : ℕ → Bool) (lo hi p : ℕ) : Type 0 where
  pub above : lo ≤ p
  pub below : p < hi
  pub free : used p ≡ false
  pub first : AllUsed used lo p

find_free-FirstFree :
    (used : ℕ → Bool) (n lo hi : ℕ)
    → lo + n ≡ hi
    → ((find_free used n lo ≡ none) × AllUsed used lo hi)
      ⊎ ((p : ℕ) × (find_free used n lo ≡ some p) × FirstFree used lo hi p)
unfolding find_free
find_free-FirstFree used zero lo hi e = inl (refl, λ q a b. absurd (omega arith))
find_free-FirstFree used (suc n) lo hi e = elim (Bool-cases (used lo)) [
  | inr f ↦ inr (
    lo,
    rw (f, find_free) refl,
    record {
      above = omega arith;
      below = omega arith;
      free = f;
      first = λ q a b. absurd (omega arith);
    },
  )
  | inl t ↦ elim (find_free-FirstFree used n (lo + 1) hi (omega arith)) [
    | inl (run, all) ↦ inl (rw (t, find_free) run, AllUsed-cons used lo hi t all)
    | inr (p, run, f) ↦ inr (
      p,
      rw (t, find_free) run,
      record {
        above = let above = f.above in omega arith;
        below = f.below;
        free = f.free;
        first = AllUsed-cons used lo p t f.first;
      },
    )
  ]
]

-- The state `w` is `u` with the frame `p` taken: marked as used, all zeros, the most recently used.
pub record Taken (u : Mmu) (p : ℕ) (w : Mmu) : Type 0 where
  pub used : w.phys_used ≡ update u.phys_used p true
  pub bytes : Zeroed u.phys_mem (p * page_size) page_size w.phys_mem
  pub lru : w.lru ≡ Lru.touch u.lru p
  pub table : w.active_page_table ≡ u.active_page_table

take :
    (u : Mmu) (p : ℕ)
    → u.phys_mem.size ≤ 2 ^ 32
    → find_free u.phys_used (num_phys_pages u) 0 ≡ some p
    → p < num_phys_pages u
    → (w : Mmu) × (alloc_phys_page u ≡ (ok p, w)) × Taken u p w
unfolding alloc_phys_page zero_phys_page touch_phys_page
take u p small found below =
    let (s, run, z) = zeroing u.phys_mem (p * page_size) (omega arith) small in
    let at : mul32 p page_size ≡ p * page_size = omega arith in
    (
      record u { phys_mem = s; phys_used = update u.phys_used p true; lru = Lru.touch u.lru p },
      ground (arith, at, run, found),
      record { used = refl; bytes = z; lru = refl; table = refl },
    )

-- In a memory of at most 2 ^ 32 bytes, allocPhysPage takes the first frame that is not used, which
-- is then used, all zeros and the most recently used; no other byte changes. Where every frame is
-- used it throws and changes nothing.
pub alloc_phys_page_lem :
    (u : Mmu)
    → u.phys_mem.size ≤ 2 ^ 32
    → ((alloc_phys_page u ≡ (throw out_of_physical_memory, u))
        × AllUsed u.phys_used 0 (num_phys_pages u))
      ⊎ ((p : ℕ) × (w : Mmu) × (alloc_phys_page u ≡ (ok p, w))
          × FirstFree u.phys_used 0 (num_phys_pages u) p
          × Taken u p w)
unfolding alloc_phys_page
alloc_phys_page_lem u small =
    elim (find_free-FirstFree u.phys_used (num_phys_pages u) 0 (num_phys_pages u) (omega arith)) [
      | inl (run, all) ↦ inl (ground (arith, run), all)
      | inr (p, run, f) ↦
          let (w, got, taken) = take u p small run f.below in inr (p, w, got, f, taken)
    ]
