-- ===== src/Base/Invariants.antt =====
-- Invariants of stateful code: an action keeps a predicate of the state, however it ends.
use Prim.Native.Nat.{ℕ, zero, suc, ◌+◌}
use mathlib.Core.Bool.{Bool, true, false}
use mathlib.Core.Option.{Option, none, some}
use csci_480_assignment.Base.Tests.{if◌then◌else◌}
use csci_480_assignment.Base.Effect.{
  Exception, Result, ok, throw, Action, ◌>>=◌, ◌>>◌, pure, raise, gets, throw_if, when, or_throw,
  catch,
}
use csci_480_assignment.Base.Loop.{for_range}

pub record Keeps {S A : Type 0} (P : S → Type 0) (m : Action S A) : Type 0 where
  pub keeps : (s : S) → P s → P (m s).1

module _ {S : Type 0} {P : S → Type 0} where
  pub Keeps-gets : {A : Type 0} (f : S → A) → Keeps P (gets f)
  Keeps-gets f = record { keeps = λ s h. h }

  pub Keeps-pure : {A : Type 0} (a : A) → Keeps P (pure {S = S} a)
  Keeps-pure a = record { keeps = λ s h. h }

  pub Keeps-raise : {A : Type 0} (e : Exception) → Keeps P (raise {S = S} {A = A} e)
  Keeps-raise e = record { keeps = λ s h. h }

  pub Keeps-throw_if : (b : Bool) (e : Exception) → Keeps P (throw_if {S = S} b e)
  Keeps-throw_if b e = record { keeps = λ s h. h }

  pub Keeps-or_throw : {A : Type 0} (a : Option A) (e : Exception) → Keeps P (or_throw {S = S} a e)
  Keeps-or_throw none e = record { keeps = λ s h. h }
  Keeps-or_throw (some a) e = record { keeps = λ s h. h }

  after-bind :
      {A B : Type 0} (f : A → Action S B)
      → ((a : A) → Keeps P (f a))
      → (r : Result A × S) → P r.1
      → P (elim r.0 as (λ x. Result B × S) [ ok a ↦ f a r.1 | throw e ↦ (throw e, r.1) ]).1
  after-bind f h (ok a, s) p = (h a).keeps s p
  after-bind f h (throw e, s) p = p

  pub Keeps->>= :
      {A B : Type 0} {m : Action S A} {f : A → Action S B}
      → Keeps P m
      → ((a : A) → Keeps P (f a))
      → Keeps P (m >>= f)
  Keeps->>= {m = m} {f = f} h k = record { keeps = λ s p. after-bind f k (m s) (h.keeps s p) }

  pub Keeps->> :
      {A B : Type 0} {m : Action S A} {k : Action S B} → Keeps P m → Keeps P k → Keeps P (m >> k)
  Keeps->> h k = Keeps->>= h (λ a. k)

  pub Keeps-if :
      {A : Type 0} {m k : Action S A} (b : Bool)
      → Keeps P m
      → Keeps P k
      → Keeps P (if b then m else k)
  Keeps-if true h k = h
  Keeps-if false h k = k

  pub Keeps-when : {m : Action S (Unit {0})} (b : Bool) → Keeps P m → Keeps P (when b m)
  Keeps-when true h = record { keeps = λ s p. h.keeps s p }
  Keeps-when false h = record { keeps = λ s p. p }

  after-catch :
      {A : Type 0} (f : Exception → Action S A)
      → ((e : Exception) → Keeps P (f e))
      → (r : Result A × S) → P r.1
      → P (elim r.0 as (λ x. Result A × S) [ ok a ↦ (ok a, r.1) | throw e ↦ f e r.1 ]).1
  after-catch f h (ok a, s) p = p
  after-catch f h (throw e, s) p = (h e).keeps s p

  pub Keeps-catch :
      {A : Type 0} {m : Action S A} {f : Exception → Action S A}
      → Keeps P m
      → ((e : Exception) → Keeps P (f e))
      → Keeps P (catch m f)
  Keeps-catch {m = m} {f = f} h k = record { keeps = λ s p. after-catch f k (m s) (h.keeps s p) }

  for_range_keeps :
      (n i : ℕ) (body : ℕ → Action S (Unit {0}))
      → ((k : ℕ) → Keeps P (body k))
      → (s : S) → P s
      → P (for_range n i body s).1
  unfolding for_range
  for_range_keeps zero i body h s p = p
  for_range_keeps (suc n) i body h s p =
      go (for_range_keeps n (i + 1) body h) (body i s) ((h i).keeps s p)
    where
      go :
          ((t : S) → P t → P (for_range n (i + 1) body t).1)
          → (r : Result (Unit {0}) × S) → P r.1
          → P
              (elim r.0 as (λ x. Result (Unit {0}) × S) [
                | ok _ ↦ for_range n (i + 1) body r.1
                | throw e ↦ (throw e, r.1)
              ]).1
      go rest (ok x, t) q = rest t q
      go rest (throw e, t) q = q

  pub Keeps-for_range :
      (n i : ℕ) {body : ℕ → Action S (Unit {0})}
      → ((k : ℕ) → Keeps P (body k))
      → Keeps P (for_range n i body)
  Keeps-for_range n i {body} h = record { keeps = for_range_keeps n i body h }
