-- ===== src/Lib.antt =====
-- A verification library for the CSCI-480 virtual machine and operating system: an assembler, a
-- CPU, a paged MMU with an LRU list, and a kernel with priorities, sleeping, locks, events, shared
-- memory, a heap and demand paging.
--
-- The parts, and the files that model them:
--   Base           lists, maps, tests, and actions that pass a state and may throw (a C++ method
--                  that throws keeps the changes it has made, and so does Action)
--   Word           uint8_t, uint32_t and int64_t as bit patterns, with the wrap-around
--   PhysMem        PHYSMEM.H, PHYSMEM.CPP
--   Lru            lruList_ and lruPos_ of MMU.H and the functions of MMU.cpp on them
--   Mmu            MMU.H, MMU.cpp, pageentry.h: translate is Mmu.translate, and so on
--   Opcode, Cpu    ENUMOPCODE.H; CPU.H, CPU.cpp, trap.h: CPU::execute has a clause for each case
--   Program        PROGRAM.H, PROGRAM.CPP: Text (trim, tokenize, ...), Numbers (parseRegister,
--                  parseImmediate), Mnemonics (the table of parseMnemonic), and the assembler itself
--   Pcb            PCB.h, procstate.h, CPU::saveTo and CPU::loadFrom
--   Os             OS.h, OS.cpp: State, Scheduler (queues, sleepers, context switches), Load
--                  (createProcessFromAsm), Sync (locks, events, shared memory, cleanupProcess_),
--                  Swap (handlePageFault_, evictOnePage_), Heap (handleAlloc_, handleFreeMemory_)
--                  and Run (OS::run)
--   Examples       the theorems at concrete inputs
--
-- How they interact: the assembler turns the bytes of a file into the bytes of a program; the OS
-- loads them through the MMU, switches processes in and out of the CPU, and answers the traps and
-- exceptions that end a quantum. CPU and MMU are one Machine, which the OS holds as `machine`.
--
-- Choices of the model:
--   * The page table that activePageTable_ points to is a field of Mmu. OS::run points it at the
--     table of the process that runs, and Os.Run.write_back copies it to the process when the
--     quantum ends, before anything else reads it.
--   * int64_t is its bit pattern below 2 ^ 64. Overflow of a signed sum, which C++ leaves open, wraps.
--   * std::map and std::unordered_map are functions or association lists; where the code goes through
--     an unordered_map, the order is that of the list.
--   * An index behind the end of a vector, which C++ leaves open, throws bad_index.
--   * std::cout is a list of printed values; std::cerr and reportStats are not modelled, nor is the
--     name of a Process. The content of a source file is an argument.
--   * Register numbers above 10 are reached by regs_[15] only; regs is a function of the number.
--   * CPU::Run and the other loops with a bound run on that bound. OS::run runs on a number of rounds
--     and says whether it has ended, since a program can keep it running for ever.
pub mod Base
pub mod Word
pub mod Lru
pub mod PhysMem
pub mod Mmu
pub mod Opcode
pub mod Cpu
pub mod Program
pub mod Pcb
pub mod Os
pub mod Examples
