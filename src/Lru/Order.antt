-- ===== src/Lru/Order.antt =====
-- The list with iterators against a plain move-to-front list of distinct pages.
use mathlib.Core.List.{reverse, ◌++◌, reverse-reverse, reverse-append, reverse-cons, append_assoc}
use mathlib.Core.Path.{◌≡⟨◌⟩◌, ◌∎}
use csci_480_assignment.Base.{
  Bool-cases, All-append, ℕ, ◌<◌, ◌≡◌, refl, ◌≢◌, List, [], ◌∷◌, map, Option, none, some, true,
  false, arith, update, All, contains, remove, IsDistinct, remove_absent, contains-remove_ne, ap,
  sym, Option-cases, contains-remove_self, remove-IsDistinct, inl, inr,
}
use csci_480_assignment.Lru.{
  Lru, Node, erase_node, push_front, touch, remove_entry, order, first_unpinned, lru_page,
}

-- Every node is the one that the map names for its page.
abbrev pub Tracks : (ℕ → Option ℕ) → List Node → Type 0
Tracks pos = All (λ n. pos n.page ≡ some n.id)

pub record IsValid (l : Lru) : Type 0 where
  pub tracked : Tracks l.pos l.nodes
  pub found : (p it : ℕ) → l.pos p ≡ some it → contains p (order l) ≡ true
  pub injective : (p q it : ℕ) → l.pos p ≡ some it → l.pos q ≡ some it → p ≡ q
  pub old : (p it : ℕ) → l.pos p ≡ some it → it < l.fresh
  pub distinct : IsDistinct (order l)

module _ (pos : ℕ → Option ℕ) where
  -- A page that the map does not know is in no node.
  absent :
      (p : ℕ) (ns : List Node)
      → Tracks pos ns
      → pos p ≡ none
      → contains p (map (λ n. n.page) ns) ≡ false
  absent p [] h e = refl
  absent p (n ∷ ns) h e = ground (arith, absent p ns h.1 e, h.0)

  -- Erasing the node of a page removes the page.
  pages-erase_node :
      (p it : ℕ) (ns : List Node)
      → ((q : ℕ) → pos q ≡ some it → p ≡ q)
      → Tracks pos ns
      → pos p ≡ some it
      → map (λ n. n.page) (erase_node it ns) ≡ remove p (map (λ n. n.page) ns)
  unfolding erase_node
  pages-erase_node p it [] inj h e = refl
  pages-erase_node p it (n ∷ ns) inj h e =
      ground (arith, pages-erase_node p it ns inj h.1 e, inj n.page, h.0)

  -- What the map says of a page that no node holds does not matter.
  Tracks-update :
      (p : ℕ) (v : Option ℕ) (ns : List Node)
      → Tracks pos ns
      → contains p (map (λ n. n.page) ns) ≡ false
      → Tracks (update pos p v) ns
  Tracks-update p v [] h e = tt
  Tracks-update p v (n ∷ ns) h e = (ground arith, Tracks-update p v ns h.1 (ground arith))

  erase_node-Tracks : (it : ℕ) (ns : List Node) → Tracks pos ns → Tracks pos (erase_node it ns)
  unfolding erase_node
  erase_node-Tracks it [] h = tt
  erase_node-Tracks it (n ∷ ns) h = ground (arith, erase_node-Tracks it ns h.1)

-- The two branches of each operation, as equations.
module _ (l : Lru) (p : ℕ) where
  touch_new : l.pos p ≡ none → touch l p ≡ push_front p l.nodes l
  unfolding touch
  touch_new e = rw (e, touch)

  touch_known : (it : ℕ) → l.pos p ≡ some it → touch l p ≡ push_front p (erase_node it l.nodes) l
  unfolding touch
  touch_known it e = rw (e, touch)

  remove_new : l.pos p ≡ none → remove_entry l p ≡ l
  unfolding remove_entry
  remove_new e = rw (e, remove_entry)

  remove_known :
      (it : ℕ)
      → l.pos p ≡ some it
      → remove_entry l p ≡ record l { nodes = erase_node it l.nodes; pos = update l.pos p none }
  unfolding remove_entry
  remove_known it e = rw (e, remove_entry)

-- A list of nodes without the page `p`, put behind a new node for it, is valid.
push_front-IsValid :
    (l : Lru) (p : ℕ) (ns : List Node)
    → IsValid l
    → Tracks l.pos ns
    → IsDistinct (map (λ n. n.page) ns)
    → contains p (map (λ n. n.page) ns) ≡ false
    → ((q : ℕ) → p ≢ q → contains q (map (λ n. n.page) ns) ≡ contains q (order l))
    → IsValid (push_front p ns l)
unfolding push_front
push_front-IsValid l p ns v tracked distinct gone same = record {
  tracked = (ground arith, Tracks-update l.pos p _ ns tracked gone);
  found = λ q it e. ground (arith, same q, v.found q it);
  injective = λ q r it e f. ground (arith, v.injective q r it, v.old q it, v.old r it);
  old = λ q it e. ground (arith, v.old q it);
  distinct = (gone, distinct);
}

order-push_front :
    (p : ℕ) (ns : List Node) (l : Lru) → order (push_front p ns l) ≡ p ∷ map (λ n. n.page) ns
unfolding push_front
order-push_front p ns l = refl

module _ {l : Lru} (v : IsValid l) (p : ℕ) where
  -- The pages once the node of `p` is erased.
  pages-erased :
      (it : ℕ) → l.pos p ≡ some it → map (λ n. n.page) (erase_node it l.nodes) ≡ remove p (order l)
  pages-erased it e =
      pages-erase_node l.pos p it l.nodes (λ q h. v.injective p q it e h) v.tracked e

  not_listed : l.pos p ≡ none → contains p (order l) ≡ false
  not_listed e = absent l.pos p l.nodes v.tracked e

  gone_pages : contains p (remove p (order l)) ≡ false
  gone_pages = contains-remove_self p (order l) v.distinct

  -- In a valid list, a touch moves the page to the front of the pages, and brings it in where it is not listed.
  pub order-touch : order (touch l p) ≡ p ∷ remove p (order l)
  order-touch = elim (Option-cases (l.pos p)) [
    | inl e ↦ rw (touch_new l p e, remove_absent p _ (not_listed e), order-push_front)
    | inr (it, e) ↦ rw (touch_known l p it e, ← pages-erased it e) (order-push_front p _ l)
  ]

  -- In a valid list, removing the entry of a page takes the page out, and leaves the others in their order.
  pub order-remove_entry : order (remove_entry l p) ≡ remove p (order l)
  order-remove_entry = elim (Option-cases (l.pos p)) [
    | inl e ↦ rw (remove_new l p e, remove_absent p _ (not_listed e))
    | inr (it, e) ↦ rw (remove_known l p it e, ← pages-erased it e)
  ]

  -- A touch keeps a valid list valid.
  pub touch-IsValid : IsValid (touch l p)
  touch-IsValid = elim (Option-cases (l.pos p)) [
    | inl e ↦
        rw (touch_new l p e)
          (push_front-IsValid l p l.nodes v v.tracked v.distinct (not_listed e) (λ q ne. refl))
    | inr (it, e) ↦ rw (touch_known l p it e) (
        push_front-IsValid l p (erase_node it l.nodes) v
          (erase_node-Tracks l.pos it l.nodes v.tracked)
          (rw (pages-erased it e) (remove-IsDistinct p (order l) v.distinct))
          (rw (pages-erased it e) gone_pages)
          (λ q ne. rw (pages-erased it e) (contains-remove_ne q p (order l) (λ h. ne (sym h)))))
  ]

  -- Removing an entry keeps a valid list valid.
  pub remove_entry-IsValid : IsValid (remove_entry l p)
  remove_entry-IsValid = elim (Option-cases (l.pos p)) [
    | inl e ↦ rw (remove_new l p e) v
    | inr (it, e) ↦ rw (remove_known l p it e) (record {
      tracked =
          Tracks-update l.pos p none _ (erase_node-Tracks l.pos it l.nodes v.tracked)
            (rw (pages-erased it e) gone_pages);
      found = λ q i h.
          rw (pages-erased it e) (ground (arith, v.found q i, contains-remove_ne q p (order l)));
      injective = λ q r i h k. ground (arith, v.injective q r i);
      old = λ q i h. ground (arith, v.old q i);
      distinct = rw (pages-erased it e) (remove-IsDistinct p (order l) v.distinct);
    })
  ]

-- The pages behind the first unpinned one.
first_unpinned_lem :
    (pinned xs : List ℕ) (pp : ℕ)
    → first_unpinned pinned xs ≡ some pp
    → (front back : List ℕ) × (xs ≡ front ++ pp ∷ back)
      × (contains pp pinned ≡ false)
      × All (λ q. contains q pinned ≡ true) front
unfolding first_unpinned
first_unpinned_lem pinned [] pp h = absurd (ground arith)
first_unpinned_lem pinned (x ∷ xs) pp h = elim (Bool-cases (contains x pinned)) [
  | inl e ↦
      let (f, b, split, free, all) = first_unpinned_lem pinned xs pp (ground arith) in
      (x ∷ f, b, ap (◌∷◌ x) split, free, (e, all))
  | inr e ↦ ([], xs, ground arith, ground arith, tt)
]

first_unpinned-none :
    (pinned xs : List ℕ) → first_unpinned pinned xs ≡ none → All (λ q. contains q pinned ≡ true) xs
unfolding first_unpinned
first_unpinned-none pinned [] h = tt
first_unpinned-none pinned (x ∷ xs) h = ground (arith, first_unpinned-none pinned xs)

All-reverse : (P : ℕ → Type 0) (xs : List ℕ) → All P xs → All P (reverse xs)
All-reverse P [] h = tt
All-reverse P (x ∷ xs) h =
    rw (reverse-cons x xs) (All-append P (reverse xs) (x ∷ []) (All-reverse P xs h.1) (h.0, tt))

-- A page that is chosen is listed and not pinned, and every page less recently used is pinned.
pub lru_page-least :
    (l : Lru) (pinned : List ℕ) (pp : ℕ)
    → lru_page l pinned ≡ some pp
    → (newer older : List ℕ) × (order l ≡ newer ++ pp ∷ older)
      × (contains pp pinned ≡ false)
      × All (λ q. contains q pinned ≡ true) older
unfolding lru_page
lru_page-least l pinned pp h =
    let (f, b, split, free, all) = first_unpinned_lem pinned (reverse (order l)) pp h in
    (reverse b, reverse f, unreversed f b split, free, All-reverse _ f all)
  where
    unreversed :
        (f b : List ℕ) → reverse (order l) ≡ f ++ pp ∷ b → order l ≡ reverse b ++ pp ∷ reverse f
    unreversed f b split =
        order l
        ≡⟨ sym (reverse-reverse (order l)) ⟩ reverse (reverse (order l))
        ≡⟨ ap reverse split ⟩ reverse (f ++ pp ∷ b)
        ≡⟨ reverse-append f (pp ∷ b) ⟩ reverse (pp ∷ b) ++ reverse f
        ≡⟨ ap (λ x. x ++ reverse f) (reverse-cons pp b) ⟩ (reverse b ++ pp ∷ []) ++ reverse f
        ≡⟨ append_assoc (reverse b) (pp ∷ []) (reverse f) ⟩ reverse b ++ pp ∷ reverse f ∎
