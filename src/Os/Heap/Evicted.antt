-- ===== src/Os/Heap/Evicted.antt =====
-- An allocated heap page that evictOnePage_ of OS.cpp drops, in the search of handleAlloc_.
use csci_480_assignment.Pcb.{Pcb}
use csci_480_assignment.Os.State.{Os}
