-- ===== src/Mmu/Resolve.antt =====
-- What MMU::translate of MMU.cpp computes, as a function of the state that changes nothing, and
-- what the state keeps of it.
use csci_480_assignment.Base.{
  ◌≢◌, Exception, ℕ, ◌/◌, ◌%◌, ◌^◌, ◌≡◌, refl, ◌⊎◌, Bool, true, false, none, some, arith, get_elem?,
  set, if◌then◌else◌, Result, ok, throw, page_fault, no_active_page_table, outside_process_bounds,
  Option-cases, Bool-cases, inl, inr, get_elem?-set_self, get_elem?-set_ne, lt_of_get_elem?, ◌==◌,
  ==→eq, not_==→ne,
}
use csci_480_assignment.Lru
use csci_480_assignment.Lru.{Lru}
use csci_480_assignment.Word.{mul32, add32}
use csci_480_assignment.Mmu.{
  Mmu, PageTable, PageEntry, is_valid_vaddr, mark_dirty, translate, touch_phys_page, walk,
  page_size,
}

-- The address that an entry gives.
abbrev pub entry_address : ℕ → PageEntry → Result ℕ
entry_address vaddr e =
    if e.is_valid
    then ok (add32 (mul32 e.phys_page page_size) (vaddr % 2 ^ 8))
    else throw (page_fault (vaddr / 2 ^ 8))

abbrev pub table_address : PageTable → ℕ → Result ℕ
table_address pt vaddr = elim (get_elem? pt (vaddr / 2 ^ 8)) [
  | none ↦ throw (page_fault (vaddr / 2 ^ 8))
  | some e ↦ entry_address vaddr e
]

-- The physical address of a virtual one, or the exception that the access throws.
abbrev pub resolve : Mmu → ℕ → Result ℕ
resolve u vaddr = elim u.active_page_table [
  | none ↦ throw no_active_page_table
  | some pt ↦
      if is_valid_vaddr u.bounds u.shared_regions vaddr
      then table_address pt vaddr
      else throw outside_process_bounds
]

-- The two states give the same address for every virtual one, and hold the same bytes.
pub record SameView (u w : Mmu) : Type 0 where
  pub mem : w.phys_mem ≡ u.phys_mem
  pub addresses : (x : ℕ) → resolve w x ≡ resolve u x

table_address-mark_dirty :
    (pt : PageTable) (p x : ℕ) (b : Bool) (e : PageEntry)
    → get_elem? pt p ≡ some e
    → table_address (set pt p (mark_dirty b e)) x ≡ table_address pt x
table_address-mark_dirty pt p x b e h = elim (Bool-cases (p == x / 2 ^ 8)) [
  | inl same ↦ ground (
    arith,
    ==→eq p (x / 2 ^ 8) same,
    get_elem?-set_self pt p (mark_dirty b e) (lt_of_get_elem? pt p h),
  )
  | inr other ↦
      ground
        (arith, get_elem?-set_ne pt p (x / 2 ^ 8) (mark_dirty b e) (not_==→ne p (x / 2 ^ 8) other))
]

-- A table with the same addresses in place of the active one.
swap_table :
    (u : Mmu) (pt pt' : PageTable) (l : Lru) (x : ℕ)
    → u.active_page_table ≡ some pt
    → table_address pt' x ≡ table_address pt x
    → resolve (record u { active_page_table = some pt'; lru = l }) x ≡ resolve u x
swap_table u pt pt' l x a h = rw (a, resolve, h)

module _ (vaddr : ℕ) (is_write : Bool) (u : Mmu) where
  -- The state behind a walk that meets the valid entry `e`.
  abbrev walked : PageTable → PageEntry → Mmu
  walked pt e = record u {
    active_page_table = some (set pt (vaddr / 2 ^ 8) (mark_dirty is_write e));
    lru = Lru.touch u.lru e.phys_page;
  }

  walk_result : (pt : PageTable) → (walk pt vaddr is_write u).0 ≡ table_address pt vaddr
  unfolding walk touch_phys_page
  walk_result pt = ground arith

  walk_absent :
      (pt : PageTable)
      → get_elem? pt (vaddr / 2 ^ 8) ≡ none
      → walk pt vaddr is_write u ≡ (throw (page_fault (vaddr / 2 ^ 8)), u)
  unfolding walk touch_phys_page
  walk_absent pt h = ground arith

  walk_invalid :
      (pt : PageTable) (e : PageEntry)
      → get_elem? pt (vaddr / 2 ^ 8) ≡ some e
      → e.is_valid ≡ false
      → walk pt vaddr is_write u ≡ (throw (page_fault (vaddr / 2 ^ 8)), u)
  unfolding walk touch_phys_page
  walk_invalid pt e h v = ground arith

  pub walk_valid :
      (pt : PageTable) (e : PageEntry)
      → get_elem? pt (vaddr / 2 ^ 8) ≡ some e
      → e.is_valid ≡ true
      → walk pt vaddr is_write u
        ≡ (ok (add32 (mul32 e.phys_page page_size) (vaddr % 2 ^ 8)), walked pt e)
  unfolding walk touch_phys_page
  walk_valid pt e h v = ground arith

  -- The walk changes no address and no byte.
  walk-SameView :
      (pt : PageTable) → u.active_page_table ≡ some pt → SameView u (walk pt vaddr is_write u).1
  walk-SameView pt a = elim (Option-cases (get_elem? pt (vaddr / 2 ^ 8))) [
    | inl h ↦ rw (walk_absent pt h) (record { mem = refl; addresses = λ x. refl })
    | inr (e, h) ↦ elim (Bool-cases e.is_valid) [
      | inl valid ↦ rw (walk_valid pt e h valid) (record {
        mem = refl;
        addresses = λ x.
            swap_table u pt _ (Lru.touch u.lru e.phys_page) x a
              (table_address-mark_dirty pt (vaddr / 2 ^ 8) x is_write e h);
      })
      | inr invalid ↦
          rw (walk_invalid pt e h invalid) (record { mem = refl; addresses = λ x. refl })
    ]
  ]

  -- translate gives the address, or throws, as the specification does.
  pub translate-resolve : (translate vaddr is_write u).0 ≡ resolve u vaddr
  unfolding translate
  translate-resolve = elim (Option-cases u.active_page_table) [
    | inl a ↦ ground arith
    | inr (pt, a) ↦ ground (arith, walk_result pt)
  ]

  -- The two ways in which translate ends: it threw and changed nothing, or it walked the table.
  translate_cases :
      ((translate vaddr is_write u).1 ≡ u)
      ⊎ ((pt : PageTable) × (u.active_page_table ≡ some pt)
          × (translate vaddr is_write u ≡ walk pt vaddr is_write u))
  unfolding translate
  translate_cases = elim (Option-cases u.active_page_table) [
    | inl a ↦ inl (ground arith)
    | inr (pt, a) ↦ elim (Bool-cases (is_valid_vaddr u.bounds u.shared_regions vaddr)) [
      | inl valid ↦ inr (pt, a, ground arith)
      | inr invalid ↦ inl (ground arith)
    ]
  ]

  -- The state behind translate shows the same addresses and bytes.
  pub translate-SameView : SameView u (translate vaddr is_write u).1
  translate-SameView = elim translate_cases [
    | inl e ↦ rw e (record { mem = refl; addresses = λ x. refl })
    | inr (pt, a, e) ↦ rw e (walk-SameView pt a)
  ]

-- An access to `vaddr` through the entry `e` of the table has led from `u` to `w`: the entry `e'` is
-- there now, dirty if it was or if this is a write, and its frame is the most recently used.
pub record Accessed (vaddr : ℕ) (is_write : Bool) (u w : Mmu) (e e' : PageEntry) : Type 0 where
  pub before : PageTable
  pub after : PageTable
  pub active_before : u.active_page_table ≡ some before
  pub active_after : w.active_page_table ≡ some after
  pub entry : get_elem? before (vaddr / 2 ^ 8) ≡ some e
  pub valid : e.is_valid ≡ true
  pub new_entry : get_elem? after (vaddr / 2 ^ 8) ≡ some e'
  pub new_valid : e'.is_valid ≡ true
  pub frame : e'.phys_page ≡ e.phys_page
  pub written : is_write ≡ true → e'.is_dirty ≡ true
  pub only_read : is_write ≡ false → e'.is_dirty ≡ e.is_dirty
  pub others : (q : ℕ) → vaddr / 2 ^ 8 ≢ q → get_elem? after q ≡ get_elem? before q
  pub lru : w.lru ≡ Lru.touch u.lru e.phys_page
  pub used : w.phys_used ≡ u.phys_used

module _ (vaddr : ℕ) (is_write : Bool) (u : Mmu) where
  walk-Accessed :
      (pt : PageTable) (e : PageEntry)
      → u.active_page_table ≡ some pt
      → get_elem? pt (vaddr / 2 ^ 8) ≡ some e
      → e.is_valid ≡ true
      → Accessed vaddr is_write u (walked vaddr is_write u pt e) e (mark_dirty is_write e)
  walk-Accessed pt e a h v = record {
    before = pt;
    after = set pt (vaddr / 2 ^ 8) (mark_dirty is_write e);
    active_before = a;
    active_after = refl;
    entry = h;
    valid = v;
    new_entry =
        get_elem?-set_self pt (vaddr / 2 ^ 8) (mark_dirty is_write e)
          (lt_of_get_elem? pt (vaddr / 2 ^ 8) h);
    new_valid = v;
    frame = refl;
    written = λ y. ground arith;
    only_read = λ n. ground arith;
    others = λ q n. get_elem?-set_ne pt (vaddr / 2 ^ 8) q (mark_dirty is_write e) n;
    lru = refl;
    used = refl;
  }

  -- translate either throws and changes nothing, or it gives an address: then a write has marked the
  -- entry of the page dirty, a read has left its flag, its frame is the most recently used, and all
  -- other entries and the used frames are as before. Either way it changes no byte, and no address
  -- that it will give.
  pub translate-Accessed :
      SameView u (translate vaddr is_write u).1
      × (((x : Exception) × (translate vaddr is_write u ≡ (throw x, u)))
          ⊎ ((a : ℕ) × (w : Mmu) × (e : PageEntry) × (e' : PageEntry) × (translate vaddr is_write u
                ≡ (ok a, w))
              × Accessed vaddr is_write u w e e'))
  unfolding translate
  translate-Accessed = (
    translate-SameView vaddr is_write u,
    elim (Option-cases u.active_page_table) [
      | inl n ↦ inl (no_active_page_table, ground arith)
      | inr (pt, a) ↦ elim (Bool-cases (is_valid_vaddr u.bounds u.shared_regions vaddr)) [
        | inr out ↦ inl (outside_process_bounds, ground arith)
        | inl inside ↦ elim (Option-cases (get_elem? pt (vaddr / 2 ^ 8))) [
          | inl absent ↦
              let run = walk_absent vaddr is_write u pt absent in
              inl (page_fault (vaddr / 2 ^ 8), ground (arith, run))
          | inr (e, h) ↦ elim (Bool-cases e.is_valid) [
            | inr invalid ↦
                let run = walk_invalid vaddr is_write u pt e h invalid in
                inl (page_fault (vaddr / 2 ^ 8), ground (arith, run))
            | inl valid ↦
                let run = walk_valid vaddr is_write u pt e h valid in
                inr (
                  add32 (mul32 e.phys_page page_size) (vaddr % 2 ^ 8),
                  walked vaddr is_write u pt e,
                  e,
                  mark_dirty is_write e,
                  ground (arith, run),
                  walk-Accessed pt e a h valid,
                )
          ]
        ]
      ]
    ],
  )
