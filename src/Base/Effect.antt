-- ===== src/Base/Effect.antt =====
-- Stateful code that may throw. The state comes back after a throw too: what was written before
-- stays written, as in C++.
use Prim.Native.Nat.{ℕ}
use mathlib.Core.Path.{◌≡◌, refl}
use mathlib.Core.Bool.{Bool}
use mathlib.Core.Option.{Option, none, some}
use native.Mathlib.Omega.{arith}
use csci_480_assignment.Base.Tests.{if◌then◌else◌}

-- The exceptions that the program throws, one constructor for each `throw`. `bad_index` stands for
-- an index outside a vector, which C++ leaves undefined.
pub data Exception : Type 0 where
  page_fault : ℕ → Exception
  address_out_of_bounds : Exception
  bad_memory_size : Exception
  no_active_page_table : Exception
  outside_process_bounds : Exception
  out_of_physical_memory : Exception
  physical_page_out_of_range : Exception
  no_evictable_page : Exception
  invalid_register : Exception
  unknown_opcode : ℕ → Exception
  no_code_bytes : Exception
  pid_not_found : Exception
  bad_index : Exception
  missing_operand : Exception
  expected_register : Exception
  register_out_of_range : Exception
  bad_immediate : Exception
  bad_number : Exception
  number_out_of_range : Exception
  unknown_mnemonic : Exception
  cannot_open_file : Exception
  empty_program : Exception

pub data Result (A : Type 0) : Type 0 where
  ok : A → Result A
  throw : Exception → Result A

-- Pure code that may throw.
infixl 5 ◌>>=?◌
abbrev pub ◌>>=?◌ : {A B : Type 0} → Result A → (A → Result B) → Result B
ok a >>=? f = f a
throw e >>=? f = throw e

abbrev pub Action : Type 0 → Type 0 → Type 0
Action S A = S → Result A × S

infixl 5 ◌>>=◌ ◌>>◌
abbrev pub ◌>>=◌ : {S A B : Type 0} → Action S A → (A → Action S B) → Action S B
◌>>=◌ m f s = let (r, s') = m s in elim r [ ok a ↦ f a s' | throw e ↦ (throw e, s') ]

abbrev pub ◌>>◌ : {S A B : Type 0} → Action S A → Action S B → Action S B
m >> k = m >>= λ _. k

abbrev pub pure : {S A : Type 0} → A → Action S A
pure a s = (ok a, s)

abbrev pub raise : {S A : Type 0} → Exception → Action S A
raise e s = (throw e, s)

abbrev pub gets : {S A : Type 0} → (S → A) → Action S A
gets f s = (ok (f s), s)

abbrev pub modify : {S : Type 0} → (S → S) → Action S (Unit {0})
modify f s = (ok tt, f s)

abbrev pub throw_if : {S : Type 0} → Bool → Exception → Action S (Unit {0})
throw_if b e s = (if b then throw e else ok tt, s)

abbrev pub or_throw : {S A : Type 0} → Option A → Exception → Action S A
or_throw none e s = (throw e, s)
or_throw (some a) e s = (ok a, s)

-- `if (b) m;`
abbrev pub when : {S : Type 0} → Bool → Action S (Unit {0}) → Action S (Unit {0})
when b m s = if b then m s else (ok tt, s)

-- An action on a part of the state.
abbrev pub on_part : {S T A : Type 0} → (S → T) → (S → T → S) → Action T A → Action S A
on_part get put m s = let (r, t) = m (get s) in (r, put s t)

-- `try { m } catch (...) { h }`
abbrev pub catch : {S A : Type 0} → Action S A → (Exception → Action S A) → Action S A
catch m h s = let (r, s') = m s in elim r [ ok a ↦ (ok a, s') | throw e ↦ h e s' ]

-- Inversion of a bind that ends well.
module _ {S A B : Type 0} (f : A → Action S B) {b : B} {t : S} where
  after-eq-ok :
      (r : Result A × S)
      → elim r.0 [ ok a ↦ f a r.1 | throw e ↦ (throw e, r.1) ] ≡ (ok b, t)
      → (a : A) × (s' : S) × (r ≡ (ok a, s')) × (f a s' ≡ (ok b, t))
  after-eq-ok (ok a, s') h = (a, s', refl, h)
  after-eq-ok (throw e, s') h = absurd (ground arith)

  pub >>=-eq-ok :
      (m : Action S A) (s : S)
      → (m >>= f) s ≡ (ok b, t)
      → (a : A) × (s' : S) × (m s ≡ (ok a, s')) × (f a s' ≡ (ok b, t))
  >>=-eq-ok m s h = after-eq-ok (m s) h
