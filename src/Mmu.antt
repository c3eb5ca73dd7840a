-- ===== src/Mmu.antt =====
-- The memory management unit: MMU.H, MMU.cpp and pageentry.h. Addresses and page numbers are
-- uint32_t. The page table that activePageTable_ points to is kept in the state itself: the OS
-- copies it in and out where it sets the pointer and where it reads the table again.
pub mod Resolve
pub mod Access
pub mod Words
pub mod Tables
pub mod Frames
pub mod Alloc
use csci_480_assignment.Base.{
  ℕ, zero, suc, ◌+◌, ◌-◌, ◌*◌, ◌/◌, ◌%◌, ◌^◌, bit_or, Bool, true, false, not, ◌&&◌, ◌||◌, Option,
  none, some, List, [], ◌∷◌, ◌++◌, length, get_elem?, set, resize, replicate, update, ltb, leb,
  ◌==◌, if◌then◌else◌, Action, Result, ok, throw, ◌>>=◌, ◌>>◌, pure, raise, gets, modify, throw_if,
  or_throw, on_part, for_range, page_fault, bad_memory_size, no_active_page_table,
  outside_process_bounds, out_of_physical_memory, physical_page_out_of_range, no_evictable_page,
}
use csci_480_assignment.Word.{u32, u8, add32, sub32, mul32}
use csci_480_assignment.Lru
use csci_480_assignment.Lru.{Lru}
use csci_480_assignment.PhysMem
use csci_480_assignment.PhysMem.{PhysMem}

abbrev pub unmapped : ℕ
unmapped = 2 ^ 32 - 1

abbrev pub page_size : ℕ
page_size = 256

-- PageEntry; `blank` is PageEntry{}.
pub record PageEntry : Type 0 where
  pub phys_page : ℕ
  pub is_valid : Bool
  pub is_dirty : Bool

abbrev pub blank : PageEntry
blank = record { phys_page = unmapped; is_valid = false; is_dirty = false }

abbrev pub PageTable : Type 0
PageTable = List PageEntry

pub record Bounds : Type 0 where
  pub code_base : ℕ
  pub code_size : ℕ
  pub data_base : ℕ
  pub data_size : ℕ
  pub heap_start : ℕ
  pub heap_end : ℕ
  pub stack_top : ℕ
  pub stack_max : ℕ

pub record SharedRegion : Type 0 where
  pub base : ℕ
  pub size : ℕ

pub record Mmu : Type 0 where
  pub phys_mem : PhysMem
  pub phys_used : ℕ → Bool
  pub active_page_table : Option PageTable
  pub bounds : Bounds
  pub shared_regions : List SharedRegion
  pub lru : Lru

abbrev pub no_bounds : Bounds
no_bounds = record {
  code_base = 0;
  code_size = 0;
  data_base = 0;
  data_size = 0;
  heap_start = 0;
  heap_end = 0;
  stack_top = 0;
  stack_max = 0;
}

-- MMU::MMU
unfoldable pub new_mmu : ℕ → Result Mmu
new_mmu size =
    if size % page_size == 0
    then ok (record {
      phys_mem = PhysMem.new_mem size;
      phys_used = λ p. false;
      active_page_table = none;
      bounds = no_bounds;
      shared_regions = [];
      lru = Lru.empty;
    })
    else throw bad_memory_size

-- MMU::numPhysPages
abbrev pub num_phys_pages : Mmu → ℕ
num_phys_pages u = u32 (u.phys_mem.size / page_size)

abbrev pub on_mem : {A : Type 0} → Action PhysMem A → Action Mmu A
on_mem = on_part (λ u. u.phys_mem) (λ u m. record u { phys_mem = m })

-- MMU::touchPhysPage and MMU::removeLRUEntry
unfoldable pub touch_phys_page : ℕ → Action Mmu (Unit {0})
touch_phys_page ppage = modify (λ u. record u { lru = Lru.touch u.lru ppage })

unfoldable pub remove_lru_entry : ℕ → Action Mmu (Unit {0})
remove_lru_entry ppage = modify (λ u. record u { lru = Lru.remove_entry u.lru ppage })

-- MMU::getLRUPhysPage
unfoldable pub get_lru_phys_page : List ℕ → Action Mmu ℕ
get_lru_phys_page pinned u = or_throw (Lru.lru_page u.lru pinned) no_evictable_page u

-- MMU::zeroPhysPage
unfoldable pub zero_phys_page : ℕ → Action Mmu (Unit {0})
zero_phys_page ppage =
    let base = mul32 ppage page_size in
    on_mem (for_range page_size 0 (λ i. PhysMem.write8 (add32 base i) 0))

-- The loop of allocPhysPage: the first page from `p` on, of `n` pages, that is not used.
unfoldable pub find_free : (ℕ → Bool) → ℕ → ℕ → Option ℕ
find_free used zero p = none
find_free used (suc n) p = elim (used p) [ true ↦ find_free used n (p + 1) | false ↦ some p ]

-- MMU::allocPhysPage
unfoldable pub alloc_phys_page : Action Mmu ℕ
alloc_phys_page = do
  u ← gets (λ u. u)
  p ← or_throw (find_free u.phys_used (num_phys_pages u) 0) out_of_physical_memory
  modify (λ u. record u { phys_used = update u.phys_used p true })
  zero_phys_page p
  touch_phys_page p
  pure p

-- MMU::freePhysPage
unfoldable pub free_phys_page : ℕ → Action Mmu (Unit {0})
free_phys_page ppage = do
  u ← gets (λ u. u)
  throw_if (leb (num_phys_pages u) ppage) physical_page_out_of_range
  modify (λ u. record u { phys_used = update u.phys_used ppage false })
  remove_lru_entry ppage

-- MMU::setPageTable and MMU::setBounds
unfoldable pub set_page_table : PageTable → Action Mmu (Unit {0})
set_page_table pt = modify (λ u. record u { active_page_table = some pt })

unfoldable pub set_bounds : Bounds → Action Mmu (Unit {0})
set_bounds b = modify (λ u. record u { bounds = b })

-- pageTable[vpage] with the physical page, valid and clean.
abbrev pub mapped_to : ℕ → PageEntry
mapped_to pp = record { phys_page = pp; is_valid = true; is_dirty = false }

-- `if (n > table.size()) table.resize(n, PageEntry{})`
abbrev pub grow : ℕ → PageTable → PageTable
grow n pt = if ltb (length pt) n then resize n blank pt else pt

-- MMU::mapPageInto: the new table, and the virtual address of the page.
unfoldable pub map_page_into : PageTable → ℕ → ℕ → PageTable × ℕ
map_page_into pt vpage pp = (set (grow (vpage + 1) pt) vpage (mapped_to pp), mul32 vpage page_size)

-- MMU::addSharedRegion
unfoldable pub add_shared_region : ℕ → ℕ → Action Mmu (Unit {0})
add_shared_region base size = modify (λ u. record u {
  shared_regions = u.shared_regions ++ record { base = base; size = size } ∷ [];
})

-- base <= vaddr && vaddr < base + size
abbrev pub in_range : ℕ → ℕ → ℕ → Bool
in_range base size vaddr = leb base vaddr && ltb vaddr (add32 base size)

abbrev pub in_shared : List SharedRegion → ℕ → Bool
in_shared [] vaddr = false
in_shared (r ∷ rs) vaddr = in_range r.base r.size vaddr || in_shared rs vaddr

-- MMU::isValidVaddr_
unfoldable pub is_valid_vaddr : Bounds → List SharedRegion → ℕ → Bool
is_valid_vaddr b rs vaddr =
    in_range b.code_base b.code_size vaddr
    || (in_range b.data_base b.data_size vaddr
        || ((leb b.heap_start vaddr && ltb vaddr b.heap_end)
            || ((ltb vaddr b.stack_top && leb (sub32 b.stack_top b.stack_max) vaddr)
                || in_shared rs vaddr)))

-- The entry of a page, once it is known to be valid: the dirty flag is set by a write.
abbrev pub mark_dirty : Bool → PageEntry → PageEntry
mark_dirty is_write e = record e { is_dirty = e.is_dirty || is_write }

-- The part of translate behind the checks of the address.
unfoldable pub walk : PageTable → ℕ → Bool → Action Mmu ℕ
walk pt vaddr is_write = do
  let vpage = vaddr / 2 ^ 8
  let offset = vaddr % 2 ^ 8
  entry ← or_throw (get_elem? pt vpage) (page_fault vpage)
  throw_if (not entry.is_valid) (page_fault vpage)
  modify (λ u. record u { active_page_table = some (set pt vpage (mark_dirty is_write entry)) })
  touch_phys_page entry.phys_page
  pure (add32 (mul32 entry.phys_page page_size) offset)

-- MMU::translate
unfoldable pub translate : ℕ → Bool → Action Mmu ℕ
translate vaddr is_write = do
  u ← gets (λ u. u)
  pt ← or_throw u.active_page_table no_active_page_table
  throw_if (not (is_valid_vaddr u.bounds u.shared_regions vaddr)) outside_process_bounds
  walk pt vaddr is_write

-- MMU::read8, write8, read32 and write32
unfoldable pub read8 : ℕ → Action Mmu ℕ
read8 vaddr = do addr ← translate vaddr false; on_mem (PhysMem.read8 addr)

unfoldable pub write8 : ℕ → ℕ → Action Mmu (Unit {0})
write8 vaddr v = do addr ← translate vaddr true; on_mem (PhysMem.write8 addr v)

-- val |= b0; val |= b1 << 8; val |= b2 << 16; val |= b3 << 24
abbrev pub join_bytes : ℕ → ℕ → ℕ → ℕ → ℕ
join_bytes b0 b1 b2 b3 =
    bit_or (bit_or (bit_or (bit_or 0 b0) (b1 * 2 ^ 8)) (b2 * 2 ^ 16)) (b3 * 2 ^ 24)

unfoldable pub read32 : ℕ → Action Mmu ℕ
read32 vaddr = do
  b0 ← read8 vaddr
  b1 ← read8 (add32 vaddr 1)
  b2 ← read8 (add32 vaddr 2)
  b3 ← read8 (add32 vaddr 3)
  pure (join_bytes b0 b1 b2 b3)

unfoldable pub write32 : ℕ → ℕ → Action Mmu (Unit {0})
write32 vaddr val = do
  write8 vaddr (u8 val)
  write8 (add32 vaddr 1) (u8 (val / 2 ^ 8))
  write8 (add32 vaddr 2) (u8 (val / 2 ^ 16))
  write8 (add32 vaddr 3) (u8 (val / 2 ^ 24))

-- The bytes from an address on; readPhysPage reads 256 of them.
unfoldable pub read_bytes : ℕ → ℕ → ℕ → Action PhysMem (List ℕ)
read_bytes base zero i = pure []
read_bytes base (suc n) i = do
  b ← PhysMem.read8 (add32 base i)
  bs ← read_bytes base n (i + 1)
  pure (b ∷ bs)

-- MMU::readPhysPage
unfoldable pub read_phys_page : ℕ → Action Mmu (List ℕ)
read_phys_page ppage = on_mem (read_bytes (mul32 ppage page_size) page_size 0)

-- The bytes of a buffer, from the `i`-th on, `n` at most.
unfoldable pub write_bytes : ℕ → ℕ → ℕ → List ℕ → Action PhysMem (Unit {0})
write_bytes base zero i bs = pure tt
write_bytes base (suc n) i [] = pure tt
write_bytes base (suc n) i (b ∷ bs) = do
  PhysMem.write8 (add32 base i) b
  write_bytes base n (i + 1) bs

-- MMU::writePhysPage
unfoldable pub write_phys_page : ℕ → List ℕ → Action Mmu (Unit {0})
write_phys_page ppage buf = on_mem (write_bytes (mul32 ppage page_size) page_size 0 buf)
