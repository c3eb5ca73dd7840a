-- ===== src/Examples/Pages.antt =====
-- The LRU list, the eviction of a page and its way back, on one frame and one process.
use csci_480_assignment.Os.Swap.Entries.{Revised}
use csci_480_assignment.Base.{
  Option, ◌-◌, ◌^◌, ℕ, ◌≡◌, refl, true, false, none, some, List, [], ◌∷◌, ◌++◌, arith, ok, throw,
  out_of_physical_memory, ◌⊎◌, ◌==◌, if◌then◌else◌, contains, remove, All, set, lookup, ◌>>◌,
  replicate,
}
use csci_480_assignment.Lru
use csci_480_assignment.Lru.{Lru, touch, remove_entry, order, lru_page, first_unpinned}
use csci_480_assignment.Lru.Order.{
  IsValid, order-touch, order-remove_entry, touch-IsValid, remove_entry-IsValid, lru_page-least,
}
use csci_480_assignment.Mmu
use csci_480_assignment.PhysMem
use csci_480_assignment.Mmu.Alloc.{AllUsed, FirstFree, Taken, alloc_phys_page_lem}
use csci_480_assignment.Os.Swap.Restore.{Frame, evict_one_page-fill_page}
use csci_480_assignment.Mmu.{
  num_phys_pages, alloc_phys_page, Mmu, PageEntry, mapped_to, read_phys_page, write_phys_page,
}
use csci_480_assignment.Pcb.{Pcb, new_pcb}
use csci_480_assignment.Os.State.{Os, blank_os}
use csci_480_assignment.Os.Swap.{
  evict_one_page, swapped_out, set_entry, fill_page, wire_page, find_owner, release_owner, swap_out,
}
use csci_480_assignment.Os.Swap.Pages.{
  Victim, evict_one_page_dirty, evict_one_page_clean, fill_page-wire_page,
}
use csci_480_assignment.Examples.Memory.{mmu_with}

empty-IsValid : IsValid Lru.empty
unfolding Lru.empty
empty-IsValid = record {
  tracked = tt;
  found = λ p it h. absurd (ground arith);
  injective = λ p q it h k. absurd (ground arith);
  old = λ p it h. absurd (ground arith);
  distinct = tt;
}

abbrev two_pages : Lru
two_pages = touch (touch Lru.empty 3) 5

two_pages-IsValid : IsValid two_pages
two_pages-IsValid = touch-IsValid (touch-IsValid empty-IsValid 3) 5

order-touch_example : order (touch two_pages 3) ≡ 3 ∷ remove 3 (order two_pages)
order-touch_example = order-touch two_pages-IsValid 3

order-remove_entry_example : order (remove_entry two_pages 3) ≡ remove 3 (order two_pages)
order-remove_entry_example = order-remove_entry two_pages-IsValid 3

touch-IsValid_example : IsValid (touch two_pages 3)
touch-IsValid_example = touch-IsValid two_pages-IsValid 3

remove_entry-IsValid_example : IsValid (remove_entry two_pages 5)
remove_entry-IsValid_example = remove_entry-IsValid two_pages-IsValid 5

second_unpinned : lru_page two_pages (3 ∷ []) ≡ some 5
unfolding Lru.empty touch Lru.push_front lru_page first_unpinned
second_unpinned = refl

lru_page-least_example :
    (newer older : List ℕ) × (order two_pages ≡ newer ++ 5 ∷ older)
    × (contains 5 (3 ∷ []) ≡ false)
    × All (λ q. contains q (3 ∷ []) ≡ true) older
lru_page-least_example = lru_page-least two_pages (3 ∷ []) 5 second_unpinned

-- A process with one page, which lies in the only frame.
abbrev dirty_page : PageEntry
dirty_page = record (mapped_to 0) { is_dirty = true }

abbrev owner_of : PageEntry → Pcb
owner_of e = record new_pcb { pid = 1; page_table = e ∷ [] }

abbrev swapping_on : (ℕ → ℕ → Option (List ℕ)) → PageEntry → Os
swapping_on saved e =
    record (blank_os (record (mmu_with (λ a. 7)) {
      lru = record {
        nodes = record { id = 0; page = 0 } ∷ [];
        pos = λ p. if p == 0 then some 0 else none;
        fresh = 1;
      };
    })) { processes = owner_of e ∷ []; phys_page_owner = (0, (1, 0)) ∷ []; disk = saved }

abbrev swapping : PageEntry → Os
swapping = swapping_on (λ pid vp. some (9 ∷ []))

swapping-Victim :
    (saved : ℕ → ℕ → Option (List ℕ)) (e : PageEntry)
    → Victim (swapping_on saved e) 0 1 0 0 (owner_of e) e
unfolding lru_page first_unpinned find_owner
swapping-Victim saved e = record {
  oldest = refl;
  owned = refl;
  owner = refl;
  process = refl;
  entry = refl;
}

page_read :
    (Mmu.read_phys_page 0 (swapping dirty_page).machine.mmu)
    ≡ (ok (replicate 256 7), (swapping dirty_page).machine.mmu)
unfolding Mmu.read_phys_page Mmu.read_bytes PhysMem.read8
page_read = refl

evict_one_page_dirty_example :
    let (r, o') = evict_one_page (swapping dirty_page) in
    (r ≡ ok 0)
    × (o'.disk 1 0 ≡ some (replicate 256 7))
    × Revised
        (swapping dirty_page).processes
        o'.processes
        0
        0
        (owner_of dirty_page)
        (record { phys_page = 2 ^ 32 - 1; is_valid = false; is_dirty = true })
    × (lookup 0 o'.phys_page_owner ≡ none)
    × (o'.machine.mmu.lru ≡ Lru.remove_entry (swapping dirty_page).machine.mmu.lru 0)
evict_one_page_dirty_example =
    evict_one_page_dirty (swapping dirty_page) 0 1 0 0 (owner_of dirty_page) dirty_page
      (replicate 256 7) (swapping dirty_page).machine.mmu
      (swapping-Victim (λ pid vp. some (9 ∷ [])) dirty_page) refl page_read

evict_one_page_clean_example :
    let (r, o') = evict_one_page (swapping (mapped_to 0)) in
    (r ≡ ok 0)
    × (o'.disk ≡ (swapping (mapped_to 0)).disk)
    × (o'.processes
        ≡ set
            (swapping (mapped_to 0)).processes
            0
            (set_entry 0 (swapped_out (mapped_to 0)) (owner_of (mapped_to 0))))
    × (lookup 0 o'.phys_page_owner ≡ none)
evict_one_page_clean_example =
    evict_one_page_clean (swapping (mapped_to 0)) 0 1 0 0 (owner_of (mapped_to 0)) (mapped_to 0)
      (swapping-Victim (λ pid vp. some (9 ∷ [])) (mapped_to 0)) refl

abbrev waiting : Os
waiting = swapping Mmu.blank

abbrev filled : Mmu
filled = (Mmu.write_phys_page 0 (9 ∷ []) waiting.machine.mmu).1

page_written : Mmu.write_phys_page 0 (9 ∷ []) waiting.machine.mmu ≡ (ok tt, filled)
unfolding Mmu.write_phys_page Mmu.write_bytes PhysMem.write8
page_written = refl

fill_page-wire_page_example :
    let (r, o') = (fill_page 0 1 0 true >> wire_page 0 1 0 0) waiting in
    (r ≡ ok tt)
    × (o'.disk 1 0 ≡ none)
    × Revised waiting.processes o'.processes 0 0
        (owner_of Mmu.blank)
        (record { phys_page = 0; is_valid = true; is_dirty = false })
    × (lookup 0 o'.phys_page_owner ≡ some (1, 0))
    × (o'.machine.mmu.lru ≡ Lru.touch filled.lru 0)
fill_page-wire_page_example =
    fill_page-wire_page waiting 0 1 0 0 true (owner_of Mmu.blank) (9 ∷ []) filled refl (omega arith)
      refl page_written

-- A memory of one frame, which is free.
abbrev one_free : Mmu
one_free = record (mmu_with (λ a. 7)) { phys_used = λ p. false }

alloc_phys_page_lem_example :
    ((alloc_phys_page one_free ≡ (throw out_of_physical_memory, one_free))
      × AllUsed one_free.phys_used 0 (num_phys_pages one_free))
    ⊎ ((p : ℕ) × (w : Mmu) × (alloc_phys_page one_free ≡ (ok p, w))
        × FirstFree one_free.phys_used 0 (num_phys_pages one_free) p
        × Taken one_free p w)
alloc_phys_page_lem_example = alloc_phys_page_lem one_free (omega arith)

evicted-Frame : Frame (evict_one_page (swapping dirty_page)).1 0
unfolding evict_one_page release_owner swap_out find_owner Mmu.read_phys_page Mmu.read_bytes
    PhysMem.read8 Mmu.get_lru_phys_page Mmu.remove_lru_entry lru_page first_unpinned
evicted-Frame = record { inside = omega arith; small = omega arith }

evict_one_page-fill_page_example :
    (o' : Os) × (fill_page 0 1 0 false (evict_one_page (swapping dirty_page)).1 ≡ (ok tt, o'))
    × (read_phys_page 0 o'.machine.mmu ≡ (ok (replicate 256 7), o'.machine.mmu))
evict_one_page-fill_page_example =
    evict_one_page-fill_page (swapping dirty_page) 0 0 1 0 0 false (owner_of dirty_page) dirty_page
      (replicate 256 7) (swapping dirty_page).machine.mmu
      (swapping-Victim (λ pid vp. some (9 ∷ [])) dirty_page) refl page_read refl evicted-Frame

-- Nothing is on the disk.
abbrev unsaved : Os
unsaved = swapping_on (λ pid vp. none) (mapped_to 0)
