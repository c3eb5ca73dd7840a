-- ===== src/PhysMem.antt =====
-- Physical memory: PHYSMEM.H and PHYSMEM.CPP. The vector of bytes is its size and the byte at each
-- index; an access at or behind the size throws.
use csci_480_assignment.Base.{
  ℕ, leb, update, Action, ◌>>◌, gets, modify, throw_if, address_out_of_bounds,
}

pub record PhysMem : Type 0 where
  pub size : ℕ
  pub mem : ℕ → ℕ

-- PhysMem::PhysMem
unfoldable pub new_mem : ℕ → PhysMem
new_mem sizebytes = record { size = sizebytes; mem = λ a. 0 }

-- PhysMem::bounds_check
abbrev pub bounds_check : ℕ → Action PhysMem (Unit {0})
bounds_check addr m = throw_if (leb m.size addr) address_out_of_bounds m

-- PhysMem::read8
unfoldable pub read8 : ℕ → Action PhysMem ℕ
read8 addr = do bounds_check addr; gets (λ m. m.mem addr)

-- PhysMem::write8
unfoldable pub write8 : ℕ → ℕ → Action PhysMem (Unit {0})
write8 addr val = do bounds_check addr; modify (λ m. record m { mem = update m.mem addr val })
