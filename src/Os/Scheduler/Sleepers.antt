-- ===== src/Os/Scheduler/Sleepers.antt =====
-- tickSleepers_ of OS.cpp: what it does to a process that sleeps.
use csci_480_assignment.Base.{
  ℕ, suc, ◌+◌, ◌-◌, ◌≤◌, ◌<◌, ◌≡◌, ◌≢◌, ◌⊎◌, refl, ap, sym, ◌∙◌, true, false, some, List, [], ◌∷◌,
  ◌++◌, arith, ok, length, contains, All, get_elem?, get_elem?-set_self, get_elem?-set_ne,
  lt_of_get_elem?, inl, inr, for_range,
}
use mathlib.Core.List.{append_assoc, append-nil}
use csci_480_assignment.Pcb.{Pcb, ProcState}
use csci_480_assignment.Os.State.{Os}
use csci_480_assignment.Os.Scheduler.{tick_sleepers, tick_front, is_sleeping}
use csci_480_assignment.Os.Scheduler.Queues.{Queued-in_range, le_or_lt}
use csci_480_assignment.Os.Scheduler.Ticks.{
  IsProcess, contains-append, contains-snoc, All-map, Beside, Beside-trans, IsProcess-set, put,
  lowered, front_over, front_on, front-Beside,
}

-- What has become of the sleeper `w`, which was `p`: its time is over and it is ready, in a ready
-- queue, or its counter is one less and it is still in the queue of sleepers.
abbrev pub Ticked : Os → ℕ → Pcb → Type 0
Ticked o w p =
    ((p.sleep_counter ≤ 1)
      × (get_elem? o.processes w ≡ some (record p { sleep_counter = 0; state = ProcState.ready }))
      × ((k : ℕ) × (1 ≤ k) × (k ≤ 32) × (contains w (o.ready k) ≡ true)))
    ⊎ ((1 < p.sleep_counter)
        × (get_elem? o.processes w ≡ some (record p { sleep_counter = p.sleep_counter - 1 }))
        × (contains w o.sleeping ≡ true))

-- The rounds for processes beside `w`.
fronts-Beside :
    (front rest : List ℕ) (o : Os) (i w : ℕ)
    → o.sleeping ≡ front ++ rest
    → All (IsProcess o) front
    → contains w front ≡ false
    → (o' : Os) × (extra : List ℕ) × (for_range (length front) i (λ k. tick_front) o ≡ (ok tt, o'))
      × (o'.sleeping ≡ rest ++ extra)
      × Beside o o' w
unfolding for_range
fronts-Beside [] rest o i w e h n = (
  o,
  [],
  refl,
  e ∙ sym (append-nil rest),
  record { same = refl; process = λ x z. z; ready = λ k x z. z },
)
fronts-Beside (j ∷ front) rest o i w e ((p, at), h) n =
    let other : j ≢ w = λ q. absurd (ground (arith, q)) in
    let (o1, extra, r, b) = front-Beside o j (front ++ rest) p e at w other in
    let (o2, more, run, s, c) =
      fronts-Beside front (rest ++ extra) o1 (i + 1) w (r.sleeping ∙ append_assoc front rest extra)
        (All-map o o1 front b.process h) (ground arith) in
    (
      o2,
      extra ++ more,
      ground (arith, r.run, run),
      s ∙ append_assoc rest extra more,
      Beside-trans o o1 o2 w b c,
    )

-- Lowering the counter of a process loses no process.
put-IsProcess :
    (o : Os) (s : List ℕ) (w x : ℕ) (p q : Pcb)
    → get_elem? o.processes w ≡ some p
    → IsProcess o x
    → IsProcess (put o s w q) x
put-IsProcess o s w x p q h z =
    IsProcess-set o (put o s w q) w x q
      (get_elem?-set_self o.processes w q (lt_of_get_elem? o.processes w h))
      (λ y m. get_elem?-set_ne o.processes w y q m) z

module _ (after rest : List ℕ) (o : Os) (i w : ℕ) (p : Pcb) (e : o.sleeping ≡ w ∷ (after ++ rest))
    (ha : All (IsProcess o) after) (na : contains w after ≡ false)
    (at : get_elem? o.processes w ≡ some p) (asleep : is_sleeping p.state ≡ true) where
  -- What the rounds from that of `w` to the end of the queue do.
  abbrev Ends : Type 0
  Ends =
      (o' : Os) × (for_range (suc (length after)) i (λ k. tick_front) o ≡ (ok tt, o'))
      × Ticked o' w p

  ends_over : p.sleep_counter ≤ 1 → Ends
  unfolding for_range
  ends_over over =
      let lower = put o (after ++ rest) w (lowered p) in
      let (o1, k, r, q) = front_over o w (after ++ rest) p e at asleep over in
      let kept : (x : ℕ) → IsProcess o x → IsProcess o1 x = λ x z.
        IsProcess-set lower o1 w x _ q.at q.others
          (put-IsProcess o (after ++ rest) w x p (lowered p) at z) in
      let (o2, extra, run, _, c) =
        fronts-Beside after (rest ++ []) o1 (i + 1) w (r.sleeping ∙ append_assoc after rest [])
          (All-map o o1 after kept ha) na in
      let (low, high) = Queued-in_range lower o1 w (lowered p) k q in
      let here : contains w (o1.ready k) ≡ true =
        ap (contains w) q.queue ∙ contains-snoc w (o.ready k) in
      let zero_left : p.sleep_counter - 1 ≡ 0 = omega arith in
      (
        o2,
        ground (arith, r.run, run),
        inl (
          over,
          c.same
              ∙ q.at
              ∙ ap (λ n. some (record p { sleep_counter = n; state = ProcState.ready })) zero_left,
          (k, low, high, c.ready k w here),
        ),
      )

  ends_on : 1 < p.sleep_counter → Ends
  unfolding for_range
  ends_on on =
      let o1 = put o ((after ++ rest) ++ w ∷ []) w (lowered p) in
      let r = front_on o w (after ++ rest) p e at asleep on in
      let self = get_elem?-set_self o.processes w (lowered p) (lt_of_get_elem? o.processes w at) in
      let kept : (x : ℕ) → IsProcess o x → IsProcess o1 x =
        λ x z. put-IsProcess o ((after ++ rest) ++ w ∷ []) w x p (lowered p) at z in
      let (o2, extra, run, q, c) =
        fronts-Beside after (rest ++ w ∷ []) o1 (i + 1) w (append_assoc after rest (w ∷ []))
          (All-map o o1 after kept ha) na in
      (
        o2,
        ground (arith, r.run, run),
        inr (
          on,
          c.same ∙ self,
          ap (contains w) q ∙ contains-append w (rest ++ w ∷ []) extra (contains-snoc w rest),
        ),
      )

-- The rounds up to the end of a queue in which `w` stands once.
fronts-Ticked :
    (before after rest : List ℕ) (o : Os) (i w : ℕ) (p : Pcb)
    → o.sleeping ≡ before ++ w ∷ (after ++ rest)
    → All (IsProcess o) before
    → All (IsProcess o) after
    → contains w before ≡ false
    → contains w after ≡ false
    → get_elem? o.processes w ≡ some p
    → p.state ≡ ProcState.waiting_sleep
    → (o' : Os) × (for_range (length (before ++ w ∷ after)) i (λ k. tick_front) o ≡ (ok tt, o'))
      × Ticked o' w p
unfolding for_range
fronts-Ticked [] after rest o i w p e hb ha nb na at s = elim (le_or_lt p.sleep_counter 1) [
  | inl over ↦ ends_over after rest o i w p e ha na at (ap is_sleeping s) over
  | inr on ↦ ends_on after rest o i w p e ha na at (ap is_sleeping s) on
]
fronts-Ticked (j ∷ before) after rest o i w p e ((r, aj), hb) ha nb na at s =
    let other : j ≢ w = λ q. absurd (ground (arith, q)) in
    let (o1, extra, round, b) = front-Beside o j (before ++ w ∷ (after ++ rest)) r e aj w other in
    let sleeping : o1.sleeping ≡ before ++ w ∷ (after ++ (rest ++ extra)) =
      round.sleeping
      ∙ append_assoc before (w ∷ (after ++ rest)) extra
      ∙ ap (λ z. before ++ w ∷ z) (append_assoc after rest extra) in
    let (o2, run, ticked) =
      fronts-Ticked before after (rest ++ extra) o1 (i + 1) w p sleeping
        (All-map o o1 before b.process hb) (All-map o o1 after b.process ha) (ground arith) na
        (b.same ∙ at) s in
    (o2, ground (arith, round.run, run), ticked)

-- Where the queue of sleepers names processes, tickSleepers_ succeeds, and a process that stands in
-- the queue once and sleeps is made ready and enters a ready queue if at most one tick was left; else
-- its counter is one less, it still sleeps, and it is still in the queue.
pub tick_sleepers_lem :
    (o : Os) (before after : List ℕ) (w : ℕ) (p : Pcb)
    → o.sleeping ≡ before ++ w ∷ after
    → All (IsProcess o) before
    → All (IsProcess o) after
    → contains w before ≡ false
    → contains w after ≡ false
    → get_elem? o.processes w ≡ some p
    → p.state ≡ ProcState.waiting_sleep
    → (o' : Os) × (tick_sleepers o ≡ (ok tt, o')) × Ticked o' w p
unfolding tick_sleepers
tick_sleepers_lem o before after w p e hb ha nb na at s =
    let (o', run, ticked) =
      fronts-Ticked before after [] o 0 w p (e ∙ ap (λ z. before ++ w ∷ z) (sym (append-nil after)))
        hb ha nb na at s in
    (o', ap (λ z. for_range (length z) 0 (λ k. tick_front) o) e ∙ run, ticked)
