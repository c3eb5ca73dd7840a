-- ===== src/Os/Swap/Entries.antt =====
-- What it means that the page table of one process changes in one entry.
use csci_480_assignment.Base.{
  ℕ, ◌<◌, ◌≡◌, ◌≢◌, refl, some, List, length, get_elem?, set, get_elem?-set_self, get_elem?-set_ne,
  lt_of_get_elem?,
}
use csci_480_assignment.Mmu.{PageEntry}
use csci_480_assignment.Pcb.{Pcb}
use csci_480_assignment.Os.Swap.{set_entry}

-- From `ps` to `qs` the process at `i`, which was `p`, has the entry `e` at the page `vp`; its other
-- entries, all else of it, and the other processes are as they were.
pub record Revised (ps qs : List Pcb) (i vp : ℕ) (p : Pcb) (e : PageEntry) : Type 0 where
  pub process : Pcb
  pub at : get_elem? qs i ≡ some process
  pub entry : get_elem? process.page_table vp ≡ some e
  pub entries : (q : ℕ) → vp ≢ q → get_elem? process.page_table q ≡ get_elem? p.page_table q
  pub rest : record process { page_table = p.page_table } ≡ p
  pub others : (j : ℕ) → i ≢ j → get_elem? qs j ≡ get_elem? ps j

pub set_entry-Revised :
    (ps : List Pcb) (i vp : ℕ) (p : Pcb) (e : PageEntry)
    → get_elem? ps i ≡ some p
    → vp < length p.page_table
    → Revised ps (set ps i (set_entry vp e p)) i vp p e
set_entry-Revised ps i vp p e h lt = record {
  process = set_entry vp e p;
  at = get_elem?-set_self ps i (set_entry vp e p) (lt_of_get_elem? ps i h);
  entry = get_elem?-set_self p.page_table vp e lt;
  entries = λ q n. get_elem?-set_ne p.page_table vp q e n;
  rest = refl;
  others = λ j n. get_elem?-set_ne ps i j (set_entry vp e p) n;
}
