-- ===== src/Examples/Loading.antt =====
-- A program of two instructions, loaded into the MMU with one page.
use csci_480_assignment.Base.{ℕ, ◌+◌, ◌<◌, ◌≡◌, refl, Option, List, [], ◌++◌, length, arith, ok}
use csci_480_assignment.Word.{add32}
use csci_480_assignment.Mmu.{Mmu}
use csci_480_assignment.Mmu.Access.{byte_at, Shows}
use csci_480_assignment.Program.{encode, emit32}
use csci_480_assignment.Cpu.{Cpu, fetch, new_cpu}
use csci_480_assignment.Os.Load.{load_into_memory}
use csci_480_assignment.Os.Load.Image.{
  Room, store_bytes, load_into_memory-Shows, fetch-load_into_memory,
}
use csci_480_assignment.Examples.Memory.{mmu_with, mmu_with-Shows, mmu_with-byte_at}

abbrev blank_mmu : Mmu
blank_mmu = mmu_with (λ a. 0)

abbrev memory : ℕ → Option ℕ
memory = byte_at blank_mmu

page-Room : (bs : List ℕ) → length bs < 256 → Room memory 0 bs
page-Room bs h k lt = (0, mmu_with-byte_at (λ a. 0) (0 + k) (omega arith))

-- `movi r1, #7` and `exit`.
abbrev first : List ℕ
first = encode 8 1 7

abbrev two_instructions : List ℕ
two_instructions = first ++ (encode 34 0 0 ++ [])

short : length two_instructions < 256
unfolding emit32
short = omega arith

load_into_memory-Shows_example :
    (w : Mmu) × (load_into_memory 0 two_instructions blank_mmu ≡ (ok tt, w))
    × Shows w (store_bytes memory 0 two_instructions)
load_into_memory-Shows_example =
    load_into_memory-Shows blank_mmu memory 0 two_instructions (omega (arith, short))
      (mmu_with-Shows (λ a. 0)) (page-Room two_instructions short)

abbrev at_second : Cpu
at_second = record new_cpu { ip = 12 }

second_at : 12 ≡ 0 + length first
unfolding emit32
second_at = refl

fetch-load_into_memory_example :
    (w x : Mmu) × (load_into_memory 0 two_instructions blank_mmu ≡ (ok tt, w))
    × (fetch (record { cpu = at_second; mmu = w; output = [] }) ≡ (
      ok (34, 0, 0),
      record { cpu = record at_second { ip = add32 12 12 }; mmu = x; output = [] },
    ))
fetch-load_into_memory_example =
    fetch-load_into_memory memory 0 34 0 0 first [] (omega (arith, short)) blank_mmu at_second []
      (omega arith) (omega arith) (omega arith) second_at (mmu_with-Shows (λ a. 0))
      (page-Room two_instructions short)
