-- ===== src/Os/Scheduler/Ticks.antt =====
-- A round of the loop of tickSleepers_ of OS.cpp, and the processes beside its sleeper.
use csci_480_assignment.Base.{
  ℕ, ◌-◌, ◌≤◌, ◌<◌, ◌≡◌, ◌≢◌, refl, ap, sym, ◌∙◌, true, false, some, List, [], ◌∷◌, ◌++◌, arith, ok,
  ◌==◌, contains, All, get_elem?, set, get_elem?-set_self, get_elem?-set_ne, lt_of_get_elem?, inl,
  inr, Bool-cases, ==→eq, not_==→ne,
}
use mathlib.Core.List.{append-nil}
use csci_480_assignment.Pcb.{Pcb, ProcState}
use csci_480_assignment.Os.State.{Os}
use csci_480_assignment.Os.Scheduler.{tick_front, tick_process, wake_or_wait, is_sleeping}
use csci_480_assignment.Os.Scheduler.Queues.{Queued, le_or_lt, enqueue_ready_lem}

-- The index names a process.
abbrev pub IsProcess : Os → ℕ → Type 0
IsProcess o w = (q : Pcb) × (get_elem? o.processes w ≡ some q)

pub contains-append : (x : ℕ) (xs ys : List ℕ) → contains x xs ≡ true → contains x (xs ++ ys) ≡ true
contains-append x [] ys h = absurd (ground arith)
contains-append x (y ∷ xs) ys h = elim (Bool-cases (x == y)) [
  | inl t ↦ ground (arith, t)
  | inr f ↦ let rest = contains-append x xs ys (ground (arith, f)) in ground (arith, f, rest)
]

pub contains-snoc : (x : ℕ) (xs : List ℕ) → contains x (xs ++ x ∷ []) ≡ true
contains-snoc x [] = ground arith
contains-snoc x (y ∷ xs) = let rest = contains-snoc x xs in ground (arith, rest)

pub All-map :
    (o o' : Os) (xs : List ℕ)
    → ((x : ℕ) → IsProcess o x → IsProcess o' x)
    → All (IsProcess o) xs
    → All (IsProcess o') xs
All-map o o' [] f h = tt
All-map o o' (x ∷ xs) f h = (f x h.0, All-map o o' xs f h.1)

-- From `o` to `o'` the process at `w` is untouched, no process is lost, and none leaves a ready queue.
pub record Beside (o o' : Os) (w : ℕ) : Type 0 where
  pub same : get_elem? o'.processes w ≡ get_elem? o.processes w
  pub process : (x : ℕ) → IsProcess o x → IsProcess o' x
  pub ready : (k x : ℕ) → contains x (o.ready k) ≡ true → contains x (o'.ready k) ≡ true

pub Beside-trans : (a b c : Os) (w : ℕ) → Beside a b w → Beside b c w → Beside a c w
Beside-trans a b c w f g = record {
  same = g.same ∙ f.same;
  process = λ x h. g.process x (f.process x h);
  ready = λ k x h. g.ready k x (f.ready k x h);
}

pub IsProcess-set :
    (o o' : Os) (j x : ℕ) (q : Pcb)
    → get_elem? o'.processes j ≡ some q
    → ((y : ℕ) → j ≢ y → get_elem? o'.processes y ≡ get_elem? o.processes y)
    → IsProcess o x
    → IsProcess o' x
IsProcess-set o o' j x q at others (r, h) = elim (Bool-cases (j == x)) [
  | inl t ↦ (q, ap (get_elem? o'.processes) (sym (==→eq j x t)) ∙ at)
  | inr f ↦ (r, others x (not_==→ne j x f) ∙ h)
]

Queued-Beside : (o o' : Os) (j : ℕ) (p : Pcb) (k w : ℕ) → j ≢ w → Queued o o' j p k → Beside o o' w
Queued-Beside o o' j p k w n q = record {
  same = q.others w n;
  process = λ x h. IsProcess-set o o' j x (record p { state = ProcState.ready }) q.at q.others h;
  ready = λ l x h. elim (Bool-cases (k == l)) [
    | inl t ↦
        let e = ==→eq k l t in
        ap (λ z. contains x (o'.ready z)) (sym e)
        ∙ ap (contains x) q.queue
        ∙ contains-append x (o.ready k) (j ∷ []) (ap (λ z. contains x (o.ready z)) e ∙ h)
    | inr f ↦ ap (contains x) (q.queues l (not_==→ne k l f)) ∙ h
  ];
}

-- The state in which the front of the sleepers is off the queue, and its process is `q` now.
abbrev pub put : Os → List ℕ → ℕ → Pcb → Os
put o s j q = record o { sleeping = s; processes = set o.processes j q }

put-Beside :
    (o : Os) (s : List ℕ) (j w : ℕ) (p q : Pcb)
    → get_elem? o.processes j ≡ some p
    → j ≢ w
    → Beside o (put o s j q) w
put-Beside o s j w p q h n =
    let at = get_elem?-set_self o.processes j q (lt_of_get_elem? o.processes j h) in
    record {
      same = get_elem?-set_ne o.processes j w q n;
      process = λ x e.
          IsProcess-set o (put o s j q) j x q at (λ y m. get_elem?-set_ne o.processes j y q m) e;
      ready = λ k x e. e;
    }

-- One round of the loop: the front of the queue goes, and at most stands at its end again.
pub record TickRound (o o' : Os) (rest extra : List ℕ) : Type 0 where
  pub run : tick_front o ≡ (ok tt, o')
  pub sleeping : o'.sleeping ≡ rest ++ extra

abbrev pub lowered : Pcb → Pcb
lowered p = record p { sleep_counter = p.sleep_counter - 1 }

module _ (o : Os) (j : ℕ) (rest : List ℕ) (p : Pcb) (front : o.sleeping ≡ j ∷ rest)
    (h : get_elem? o.processes j ≡ some p) where
  -- The process does not sleep: it leaves the queue.
  front_awake : is_sleeping p.state ≡ false → TickRound o (record o { sleeping = rest }) rest []
  unfolding tick_front tick_process
  front_awake a = record { run = ground (arith, front, h, a); sleeping = sym (append-nil rest) }

  -- Its time is over: it is made ready.
  pub front_over :
      is_sleeping p.state ≡ true
      → p.sleep_counter ≤ 1
      → (o' : Os) × (k : ℕ) × TickRound o o' rest []
        × Queued (put o rest j (lowered p)) o' j (lowered p) k
  unfolding tick_front tick_process wake_or_wait
  front_over a l =
      let o1 = put o rest j (lowered p) in
      let at = get_elem?-set_self o.processes j (lowered p) (lt_of_get_elem? o.processes j h) in
      let (o', k, run, q) = enqueue_ready_lem o1 j (lowered p) at in
      let last : p.sleep_counter - 1 == 0 ≡ true = ground arith in
      (
        o',
        k,
        record {
          run = ground (arith, front, h, a, last, run);
          sleeping = ap (λ x. x.sleeping) q.rest ∙ sym (append-nil rest);
        },
        q,
      )

  -- It goes on sleeping, at the end of the queue.
  pub front_on :
      is_sleeping p.state ≡ true
      → 1 < p.sleep_counter
      → TickRound o (put o (rest ++ j ∷ []) j (lowered p)) rest (j ∷ [])
  unfolding tick_front tick_process wake_or_wait
  front_on a l =
      let more : p.sleep_counter - 1 == 0 ≡ false = ground arith in
      record { run = ground (arith, front, h, a, more); sleeping = refl }

  -- Whatever becomes of the front, a process beside it is untouched.
  pub front-Beside :
      (w : ℕ) → j ≢ w → (o' : Os) × (extra : List ℕ) × TickRound o o' rest extra × Beside o o' w
  front-Beside w n = elim (Bool-cases (is_sleeping p.state)) [
    | inr f ↦ (
      record o { sleeping = rest },
      [],
      front_awake f,
      record { same = refl; process = λ x e. e; ready = λ k x e. e },
    )
    | inl t ↦ elim (le_or_lt p.sleep_counter 1) [
      | inr on ↦ (
        put o (rest ++ j ∷ []) j (lowered p),
        j ∷ [],
        front_on t on,
        put-Beside o (rest ++ j ∷ []) j w p (lowered p) h n,
      )
      | inl over ↦
          let (o', k, r, q) = front_over t over in
          (
            o',
            [],
            r,
            Beside-trans o (put o rest j (lowered p)) o' w (put-Beside o rest j w p (lowered p) h n)
                (Queued-Beside (put o rest j (lowered p)) o' j (lowered p) k w n q),
          )
    ]
  ]
