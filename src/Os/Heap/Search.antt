-- ===== src/Os/Heap/Search.antt =====
-- The search of handleAlloc_ of OS.cpp for a run of free pages.
use csci_480_assignment.Base.{
  ℕ, zero, suc, ◌+◌, ◌-◌, ◌≤◌, ◌<◌, ◌≡◌, refl, ◌≢◌, ap, sym, ◌∙◌, Bool, true, false, none, some,
  arith, if◌then◌else◌, ◌==◌, Bool-cases, leb, leb→le, not_leb→lt, inl, inr, ◌⊎◌, ==→eq, not_==→ne,
}
use csci_480_assignment.Os.Heap.{find_run}

-- The pages from `lo` up to `hi` are free.
abbrev pub FreeBetween : (ℕ → Bool) → ℕ → ℕ → Type 0
FreeBetween used lo hi = (k : ℕ) → lo ≤ k → k < hi → used k ≡ false

FreeBetween-snoc :
    (used : ℕ → Bool) (lo hi : ℕ)
    → FreeBetween used lo hi
    → used hi ≡ false
    → FreeBetween used lo (hi + 1)
FreeBetween-snoc used lo hi h e k a b = elim (Bool-cases (hi == k)) [
  | inl t ↦ ap used (sym (==→eq hi k t)) ∙ e
  | inr f ↦ let ne = not_==→ne hi k f in h k a (omega arith)
]

module _ (used : ℕ → Bool) (pages lo : ℕ) where
  -- The search stands at `vp`, behind a run of `len` free pages that begins at `start`.
  pub record Standing (vp start len : ℕ) : Type 0 where
    pub short : len < pages
    pub inside : lo + len ≤ vp
    pub begins : (len ≢ 0) → start + len ≡ vp
    pub free : FreeBetween used (vp - len) vp
    pub maximal : (vp - len ≡ lo) ⊎ ((b : ℕ) × (b + 1 ≡ vp - len) × (used b ≡ true))
    pub none_before : (s : ℕ) → lo ≤ s → s + pages ≤ vp → FreeBetween used s (s + pages) → ⊥

  -- A page that is used ends the run.
  Standing-used :
      (vp start len : ℕ) → Standing vp start len → used vp ≡ true → Standing (vp + 1) start 0
  Standing-used vp start len r e = record {
    short = let s = r.short in omega arith;
    inside = let i = r.inside in omega arith;
    begins = λ h. absurd (h refl);
    free = λ k a b. absurd (omega arith);
    maximal = inr (vp, omega arith, e);
    none_before = λ s a b f. elim (Bool-cases (leb (s + pages) vp)) [
      | inl t ↦ r.none_before s a (leb→le _ _ t) f
      | inr t ↦
          let far = not_leb→lt _ _ t in
          let sh = r.short in absurd (ground (arith, f vp (omega arith) (omega arith)))
    ];
  }

  -- A free page makes it longer.
  Standing-free :
      (vp start len : ℕ)
      → Standing vp start len
      → used vp ≡ false
      → len + 1 < pages
      → Standing (vp + 1) (if len == 0 then vp else start) (len + 1)
  Standing-free vp start len r e lt = record {
    short = lt;
    inside = let i = r.inside in omega arith;
    begins = λ h. ground (arith, r.begins);
    free = λ k a b. FreeBetween-snoc used (vp - len) vp r.free e k (omega arith) b;
    maximal = elim r.maximal [
      | inl x ↦ inl (omega arith)
      | inr (b, x, y) ↦ inr (b, omega arith, y)
    ];
    none_before = λ s a b f. elim (Bool-cases (leb (s + pages) vp)) [
      | inl t ↦ r.none_before s a (leb→le _ _ t) f
      | inr t ↦
          let far = not_leb→lt _ _ t in
          elim r.maximal [
            | inl x ↦ absurd (omega arith)
            | inr (c, x, y) ↦ absurd (ground (arith, f c (omega arith) (omega arith)))
          ]
    ];
  }

  -- What the search over `n` pages from `vp` on gives.
  abbrev pub Finds : (n vp hi start len : ℕ) → Type 0
  Finds n vp hi start len =
      ((find_run used pages n vp start len ≡ none)
        × ((s : ℕ) → lo ≤ s → s + pages ≤ hi → FreeBetween used s (s + pages) → ⊥))
      ⊎ ((s : ℕ) × (find_run used pages n vp start len ≡ some s)
          × (lo ≤ s)
          × (s + pages ≤ hi)
          × FreeBetween used s (s + pages))

  -- A free page that makes the run long enough ends the search.
  found :
      (vp start len s : ℕ)
      → Standing vp start len
      → used vp ≡ false
      → len + 1 ≡ pages
      → s ≡ (if len == 0 then vp else start)
      → (s + pages ≡ vp + 1) × (lo ≤ s) × FreeBetween used s (s + pages)
  found vp start len s r e lt q =
      let ends : s + pages ≡ vp + 1 = ground (arith, r.begins) in
      let i = r.inside in
      (
        ends,
        omega arith,
        λ k a b. FreeBetween-snoc used (vp - len) vp r.free e k (omega arith) (omega arith),
      )

  find_run-Finds :
      (n vp hi start len : ℕ) → vp + n ≡ hi → Standing vp start len → Finds n vp hi start len
  unfolding find_run
  find_run-Finds zero vp hi start len e r = inl (refl, λ s a b. r.none_before s a (omega arith))
  find_run-Finds (suc n) vp hi start len e r = elim (Bool-cases (used vp)) [
    | inl u ↦
        rw (u, find_run)
          (find_run-Finds n (vp + 1) hi start 0 (omega arith) (Standing-used vp start len r u))
    | inr u ↦ elim (Bool-cases (len + 1 == pages)) [
      | inl t ↦
          let (ends, above, free) =
            found vp start len (if len == 0 then vp else start) r u (==→eq (len + 1) pages t)
              refl in
          inr (if len == 0 then vp else start, rw (u, find_run, t), above, omega arith, free)
      | inr t ↦
          let ne = not_==→ne (len + 1) pages t in
          let sh = r.short in
          rw (u, find_run, t)
            (find_run-Finds n (vp + 1) hi (if len == 0 then vp else start) (len + 1) (omega arith)
              (Standing-free vp start len r u (omega arith)))
    ]
  ]

-- The search over the pages from `lo` up to `hi` gives the start of `pages` free pages that lie in
-- that range, or nothing, and then there is no such run in the range.
pub find_run_lem :
    (used : ℕ → Bool) (pages lo n hi : ℕ)
    → 0 < pages
    → lo + n ≡ hi
    → ((find_run used pages n lo 0 0 ≡ none)
        × ((s : ℕ) → lo ≤ s → s + pages ≤ hi → FreeBetween used s (s + pages) → ⊥))
      ⊎ ((s : ℕ) × (find_run used pages n lo 0 0 ≡ some s)
          × (lo ≤ s)
          × (s + pages ≤ hi)
          × FreeBetween used s (s + pages))
find_run_lem used pages lo n hi pos e = find_run-Finds used pages lo n lo hi 0 0 e (record {
  short = pos;
  inside = omega arith;
  begins = λ h. absurd (h refl);
  free = λ k a b. absurd (omega arith);
  maximal = inl (omega arith);
  none_before = λ s a b f. absurd (omega arith);
})
