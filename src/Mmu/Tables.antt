-- ===== src/Mmu/Tables.antt =====
-- Page tables under which MMU::translate of MMU.cpp gives no byte to two virtual addresses.
use csci_480_assignment.Base.{
  ℕ, ◌<◌, Bool, sym, ◌∙◌, ◌+◌, ◌*◌, ◌/◌, ◌%◌, ◌^◌, ◌≤◌, ◌≡◌, true, some, arith, get_elem?, ok,
  Option-cases, Bool-cases, inl, inr,
}
use csci_480_assignment.Word.{mul32, add32}
use csci_480_assignment.Mmu.{Mmu, PageTable, PageEntry, page_size, is_valid_vaddr, translate}
use csci_480_assignment.Mmu.Resolve.{resolve, table_address, translate-resolve}
use csci_480_assignment.Mmu.Access.{IsSound}

-- The valid entry `e` of a page.
pub record Maps (pt : PageTable) (vpage : ℕ) (e : PageEntry) : Type 0 where
  pub entry : get_elem? pt vpage ≡ some e
  pub valid : e.is_valid ≡ true

-- The valid entries name frames of a memory of `size` bytes, each frame at most once.
pub record IsTable (pt : PageTable) (size : ℕ) : Type 0 where
  pub inside : (v : ℕ) (e : PageEntry) → Maps pt v e → (e.phys_page + 1) * page_size ≤ size
  pub once :
      (v w : ℕ) (e f : PageEntry) → Maps pt v e → Maps pt w f → e.phys_page ≡ f.phys_page → v ≡ w

mapped_entry :
    (pt : PageTable) (v a : ℕ)
    → table_address pt v ≡ ok a
    → (e : PageEntry) × Maps pt (v / 2 ^ 8) e
      × (a ≡ add32 (mul32 e.phys_page page_size) (v % 2 ^ 8))
mapped_entry pt v a h = elim (Option-cases (get_elem? pt (v / 2 ^ 8))) [
  | inl n ↦ absurd (ground arith)
  | inr (e, s) ↦ elim (Bool-cases e.is_valid) [
    | inl t ↦ (e, record { entry = s; valid = t }, ground arith)
    | inr f ↦ absurd (ground arith)
  ]
]

active_address :
    (u : Mmu) (pt : PageTable) (v a : ℕ)
    → u.active_page_table ≡ some pt
    → resolve u v ≡ ok a
    → table_address pt v ≡ ok a
active_address u pt v a t h = elim (Bool-cases (is_valid_vaddr u.bounds u.shared_regions v)) [
  | inl y ↦ ground arith
  | inr n ↦ absurd (ground arith)
]

-- Under such a table, in a memory of at most 2 ^ 32 bytes, the specification is sound.
pub IsTable-IsSound :
    (u : Mmu) (pt : PageTable)
    → u.active_page_table ≡ some pt
    → u.phys_mem.size ≤ 2 ^ 32
    → IsTable pt u.phys_mem.size
    → IsSound u
IsTable-IsSound u pt t small k = record {
  fits = λ v a h.
      let (e, m, at) = mapped_entry pt v a (active_address u pt v a t h) in
      let inside = k.inside (v / 2 ^ 8) e m in omega arith;
  apart = λ v w a h g.
      let (e, m, at) = mapped_entry pt v a (active_address u pt v a t h) in
      let (f, n, on) = mapped_entry pt w a (active_address u pt w a t g) in
      let ine = k.inside (v / 2 ^ 8) e m in
      let inf = k.inside (w / 2 ^ 8) f n in
      let same = k.once (v / 2 ^ 8) (w / 2 ^ 8) e f m n (omega arith) in omega arith;
}

-- Under an active table whose valid entries name frames inside a memory of at most 2 ^ 32 bytes,
-- each frame at most once, translate gives addresses inside the memory, and gives the same one for
-- two virtual addresses only if they are equal, whether they are read or written.
pub translate-IsTable :
    (u : Mmu) (pt : PageTable) (v w a : ℕ) (b c : Bool)
    → u.active_page_table ≡ some pt
    → u.phys_mem.size ≤ 2 ^ 32
    → IsTable pt u.phys_mem.size
    → (translate v b u).0 ≡ ok a
    → (translate w c u).0 ≡ ok a
    → (a < u.phys_mem.size) × (v ≡ w)
translate-IsTable u pt v w a b c t small k h g =
    let sound = IsTable-IsSound u pt t small k in
    let at : resolve u v ≡ ok a = sym (translate-resolve v b u) ∙ h in
    (sound.fits v a at, sound.apart v w a at (sym (translate-resolve w c u) ∙ g))
