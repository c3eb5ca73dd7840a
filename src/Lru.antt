-- ===== src/Lru.antt =====
-- The LRU list of the MMU: lruList_ and lruPos_ of MMU.H, and the four functions of MMU.cpp that
-- read or change them. The nodes of the std::list have an identity, which an iterator names.
pub mod Order
use csci_480_assignment.Base.{
  ℕ, suc, ◌+◌, List, [], ◌∷◌, map, reverse, Option, none, some, update, ◌==◌, if◌then◌else◌,
  contains,
}

-- A node of the list: its identity and the physical page that it holds.
pub record Node : Type 0 where
  pub id : ℕ
  pub page : ℕ

-- `pos` maps a page to the iterator that names its node; `fresh` is the next unused identity.
pub record Lru : Type 0 where
  pub nodes : List Node
  pub pos : ℕ → Option ℕ
  pub fresh : ℕ

unfoldable pub empty : Lru
empty = record { nodes = []; pos = λ p. none; fresh = 0 }

-- lruList_.erase(it): the node that the iterator names goes.
unfoldable pub erase_node : ℕ → List Node → List Node
erase_node it [] = []
erase_node it (n ∷ ns) = if it == n.id then ns else n ∷ erase_node it ns

-- lruList_.push_front(ppage); lruPos_[ppage] = lruList_.begin()
unfoldable pub push_front : ℕ → List Node → Lru → Lru
push_front ppage ns l = record {
  nodes = record { id = l.fresh; page = ppage } ∷ ns;
  pos = update l.pos ppage (some l.fresh);
  fresh = suc l.fresh;
}

-- touchPhysPage
unfoldable pub touch : Lru → ℕ → Lru
touch l ppage = elim (l.pos ppage) [
  | none ↦ push_front ppage l.nodes l
  | some it ↦ push_front ppage (erase_node it l.nodes) l
]

-- removeLRUEntry
unfoldable pub remove_entry : Lru → ℕ → Lru
remove_entry l ppage = elim (l.pos ppage) [
  | none ↦ l
  | some it ↦ record l { nodes = erase_node it l.nodes; pos = update l.pos ppage none }
]

-- The loop of getLRUPhysPage over the pages from the back of the list: the first one that is not
-- pinned, `none` for the throw behind the loop.
unfoldable pub first_unpinned : List ℕ → List ℕ → Option ℕ
first_unpinned pinned [] = none
first_unpinned pinned (pp ∷ rest) =
    if contains pp pinned then first_unpinned pinned rest else some pp

-- The pages of the list, the most recently used first.
abbrev pub order : Lru → List ℕ
order l = map (λ n. n.page) l.nodes

-- getLRUPhysPage
unfoldable pub lru_page : Lru → List ℕ → Option ℕ
lru_page l pinned = first_unpinned pinned (reverse (order l))
