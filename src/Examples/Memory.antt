-- ===== src/Examples/Memory.antt =====
-- An MMU with a memory of one page, on which memory accesses are tried.
use csci_480_assignment.Base.{
  Bool, false, Exception, throw, replicate, ◌⊎◌, ◌≤◌, ◌%◌, ◌/◌, ◌<◌, ◌^◌, ℕ, zero, suc, ◌≡◌, refl,
  true, Option, some, [], ◌∷◌, arith, update, ok,
}
use csci_480_assignment.Lru
use csci_480_assignment.Word.{add32, mul32}
use csci_480_assignment.Mmu.Frames.{read_phys_page-write_phys_page}
use csci_480_assignment.Mmu.{
  walk, touch_phys_page, page_size, write_phys_page, read_phys_page, Mmu, PageTable, PageEntry,
  mapped_to, no_bounds, translate, write8, read32, write32, is_valid_vaddr,
}
use csci_480_assignment.Mmu.Resolve.{
  Accessed, translate-Accessed, resolve, translate-resolve, SameView,
}
use csci_480_assignment.Mmu.Access.{byte_at, Shows, write8-Shows}
use csci_480_assignment.Mmu.Words.{Word, write32-Shows, read32-write32, store32}
use csci_480_assignment.Mmu.Tables.{translate-IsTable, Maps, IsTable, IsTable-IsSound}

abbrev pub one_page : PageTable
one_page = mapped_to 0 ∷ []

-- An MMU whose memory holds `f`, under the table with one page; two pages of addresses are valid.
abbrev pub mmu_with : (ℕ → ℕ) → Mmu
mmu_with f = record {
  phys_mem = record { size = 256; mem = f };
  phys_used = λ p. true;
  active_page_table = some one_page;
  bounds = record no_bounds { code_size = 512 };
  shared_regions = [];
  lru = Lru.empty;
}

abbrev sevens : Mmu
sevens = mmu_with (λ a. 7)

only_first : (v : ℕ) (e : PageEntry) → Maps one_page v e → (v ≡ 0) × (e.phys_page ≡ 0)
only_first zero e m = let h = m.entry in (refl, ground arith)
only_first (suc v) e m = let h = m.entry in absurd (ground arith)

pub one_page-IsTable : IsTable one_page 256
one_page-IsTable = record {
  inside = λ v e m. let (_, z) = only_first v e m in omega arith;
  once = λ v w e f m n same.
      let (a, _) = only_first v e m in let (b, _) = only_first w f n in omega arith;
}

pub mmu_with-Shows : (f : ℕ → ℕ) → Shows (mmu_with f) (byte_at (mmu_with f))
mmu_with-Shows f = record {
  sound = IsTable-IsSound (mmu_with f) one_page refl (omega arith) one_page-IsTable;
  bytes = λ x. refl;
}

abbrev bytes : ℕ → Option ℕ
bytes = byte_at sevens

seven_at : bytes 16 ≡ some 7
unfolding is_valid_vaddr
seven_at = refl

seven-Word : Word bytes 16 7 7 7 7
unfolding is_valid_vaddr
seven-Word = (refl, refl, refl, refl)

read32-write32_example :
    (w x : Mmu) × (write32 16 0x12345678 sevens ≡ (ok tt, w)) × (read32 16 w ≡ (ok 0x12345678, x))
read32-write32_example =
    read32-write32 sevens bytes 16 0x12345678 7 7 7 7 (omega arith) (omega arith)
      (mmu_with-Shows (λ a. 7)) seven-Word

write32-Shows_example :
    (w : Mmu) × (write32 16 0x12345678 sevens ≡ (ok tt, w)) × Shows w (store32 bytes 16 0x12345678)
write32-Shows_example =
    write32-Shows sevens bytes 16 0x12345678 7 7 7 7 (omega arith) (mmu_with-Shows (λ a. 7))
      seven-Word

write8-Shows_example :
    (w : Mmu) × (write8 16 9 sevens ≡ (ok tt, w)) × Shows w (update bytes 16 (some 9))
write8-Shows_example = write8-Shows sevens bytes 16 9 7 (mmu_with-Shows (λ a. 7)) seven_at

translate-resolve_example : (translate 300 true sevens).0 ≡ resolve sevens 300
translate-resolve_example = translate-resolve 300 true sevens

translate-Accessed_example :
    SameView sevens (translate 16 true sevens).1
    × (((x : Exception) × (translate 16 true sevens ≡ (throw x, sevens)))
        ⊎ ((a : ℕ) × (w : Mmu) × (e : PageEntry) × (e' : PageEntry) × (translate 16 true sevens
              ≡ (ok a, w))
            × Accessed 16 true sevens w e e'))
translate-Accessed_example = translate-Accessed 16 true sevens

mapped_at : (is_write : Bool) → (translate 16 is_write sevens).0 ≡ ok 16
unfolding translate walk is_valid_vaddr touch_phys_page
mapped_at is_write = refl

translate-IsTable_example : (16 < 256) × (◌≡◌ {A = ℕ} 16 16)
translate-IsTable_example =
    translate-IsTable sevens one_page 16 16 16 true false refl (omega arith) one_page-IsTable
      (mapped_at true) (mapped_at false)

-- Every address of the first page holds a byte.
pub mmu_with-byte_at :
    (f : ℕ → ℕ) (k : ℕ)
    → k < 256
    → byte_at (mmu_with f) k ≡ some (f (add32 (mul32 0 page_size) (k % 2 ^ 8)))
unfolding is_valid_vaddr
mmu_with-byte_at f k h = let page : k / 2 ^ 8 ≡ 0 = omega arith in ground (arith, page)

read_phys_page-write_phys_page_example :
    (w : Mmu) × (write_phys_page 0 (replicate 256 9) sevens ≡ (ok tt, w))
    × (read_phys_page 0 w ≡ (ok (replicate 256 9), w))
    × ((a : ℕ) → (a < 0) ⊎ (256 ≤ a) → w.phys_mem.mem a ≡ 7)
read_phys_page-write_phys_page_example =
    read_phys_page-write_phys_page sevens 0 (replicate 256 9) refl (omega arith) (omega arith)
