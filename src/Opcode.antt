-- ===== src/Opcode.antt =====
-- The instruction set: the enumeration of ENUMOPCODE.H, and the cast of a number to it.
pub mod Codes
use csci_480_assignment.Base.{ℕ, Option, none, some, List, [], ◌∷◌, ◌==◌, if◌then◌else◌}

pub data Opcode : Type 0 where
  incr addi addr movi movr movmr movrm movmm printr printm printcr printcm jmp jmpi jmpa : Opcode
  cmpi cmpr jlt jlti jlta jgt jgti jgta je jei jea call callm ret exit sleep pushr pushi : Opcode
  popr popm input inputc setpriority setpriorityi map_shared_mem acquire_lock : Opcode
  acquire_lock_i release_lock release_lock_i signal_event signal_event_i wait_event : Opcode
  wait_event_i alloc free_memory : Opcode

-- The value of each enumerator.
unfoldable pub code : Opcode → ℕ
code incr = 1
code addi = 2
code addr = 3
code movi = 4
code movr = 5
code movmr = 6
code movrm = 7
code movmm = 8
code printr = 9
code printm = 10
code printcr = 11
code printcm = 12
code jmp = 13
code jmpi = 14
code jmpa = 15
code cmpi = 16
code cmpr = 17
code jlt = 18
code jlti = 19
code jlta = 20
code jgt = 21
code jgti = 22
code jgta = 23
code je = 24
code jei = 25
code jea = 26
code call = 27
code callm = 28
code ret = 29
code exit = 30
code sleep = 31
code pushr = 32
code pushi = 33
code popr = 34
code popm = 35
code input = 36
code inputc = 37
code setpriority = 38
code setpriorityi = 39
code map_shared_mem = 40
code acquire_lock = 41
code acquire_lock_i = 42
code release_lock = 43
code release_lock_i = 44
code signal_event = 45
code signal_event_i = 46
code wait_event = 47
code wait_event_i = 48
code alloc = 49
code free_memory = 50

abbrev pub all_opcodes : List Opcode
all_opcodes =
    incr ∷ addi ∷ addr ∷ movi ∷ movr ∷ movmr ∷ movrm ∷ movmm ∷ printr ∷ printm ∷ printcr ∷ printcm
    ∷ jmp ∷ jmpi ∷ jmpa ∷ cmpi ∷ cmpr ∷ jlt ∷ jlti ∷ jlta ∷ jgt ∷ jgti ∷ jgta ∷ je ∷ jei ∷ jea
    ∷ call ∷ callm ∷ ret ∷ exit ∷ sleep ∷ pushr ∷ pushi ∷ popr ∷ popm ∷ input ∷ inputc ∷ setpriority
    ∷ setpriorityi ∷ map_shared_mem ∷ acquire_lock ∷ acquire_lock_i ∷ release_lock ∷ release_lock_i
    ∷ signal_event ∷ signal_event_i ∷ wait_event ∷ wait_event_i ∷ alloc ∷ free_memory ∷ []

-- The enumerator with the value `n`.
unfoldable pub find_code : ℕ → List Opcode → Option Opcode
find_code n [] = none
find_code n (op ∷ ops) = if n == code op then some op else find_code n ops

-- static_cast<Opcode>(n), `none` for a number that no case of a switch names.
unfoldable pub of_code : ℕ → Option Opcode
unfolding find_code code
of_code n = find_code n all_opcodes
