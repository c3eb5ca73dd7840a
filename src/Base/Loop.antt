-- ===== src/Base/Loop.antt =====
-- Counted loops over an action, with their invariant rule.
use Prim.Native.Nat.{ℕ, zero, suc, ◌+◌, ◌≤◌, ◌<◌}
use mathlib.Core.Path.{◌≡◌, refl, subst}
use native.Mathlib.Omega.{arith}
use csci_480_assignment.Base.Effect.{ok, throw, Action}

-- for (i = i₀; i < i₀ + n; ++i) body(i): recursion on the rounds left.
unfoldable pub for_range : {S : Type 0} → ℕ → ℕ → (ℕ → Action S (Unit {0})) → Action S (Unit {0})
for_range zero i body s = (ok tt, s)
for_range (suc n) i body s =
    let (r, s') = body i s in
    elim r [ ok _ ↦ for_range n (i + 1) body s' | throw e ↦ (throw e, s') ]

-- Where no round throws and each keeps the invariant, the loop ends and the invariant holds.
pub for_range_inv :
    {S : Type 0} (P : ℕ → S → Type 0) (body : ℕ → Action S (Unit {0})) (n i j : ℕ) (s : S)
    → i + n ≡ j
    → ((k : ℕ) (t : S) → i ≤ k → k < j → P k t → (t' : S) × (body k t ≡ (ok tt, t')) × P (k + 1) t')
    → P i s
    → (s' : S) × (for_range n i body s ≡ (ok tt, s')) × P j s'
unfolding for_range
for_range_inv P body zero i j s e keep h =
    let e' : i ≡ j = omega arith in (s, refl, subst (λ k. P k s) e' h)
for_range_inv P body (suc n) i j s e keep h =
    let (t, run, h') = keep i s (omega arith) (omega arith) h in
    let (u, rest, h'') =
      for_range_inv P body n (i + 1) j t (omega arith) (λ k v lo hi. keep k v (omega arith) hi)
        h' in
    (u, rw (run, for_range, run) rest, h'')
