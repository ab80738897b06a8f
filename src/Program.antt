-- ===== src/Program.antt =====
-- How a C++ function runs: it changes a state, and it returns, throws or has undefined behaviour.
-- What was written before a throw stays written.
pub mod Preserving
use behavior_tree_ros.Prelude.{String, Bool, ◌≡◌, refl, if◌then◌else◌, true, false, ◌⊎◌, inl, inr}

-- The exception types that the code throws or catches, each with its `what()`.
pub data Exception : Type 0 where
  runtime_error : String → Exception
  logic_error : String → Exception
  std_logic_error : String → Exception
  other_error : String → Exception

abbrev pub what : Exception → String
what (runtime_error m) = m
what (logic_error m) = m
what (std_logic_error m) = m
what (other_error m) = m

-- Undefined behaviour, which no handler catches.
pub data Fault : Type 0 where
  null_pointer invalid_future invalid_range joinable_thread signed_overflow : Fault

pub data Outcome (A : Type 0) : Type 0 where
  done : A → Outcome A
  throws : Exception → Outcome A
  faults : Fault → Outcome A

abbrev pub Program : Type 0 → Type 0 → Type 0
Program S A = S → Outcome A × S

-- What comes after a step, by how the step ended.
abbrev pub continue : {S A B : Type 0} → Outcome A × S → (A → Program S B) → Outcome B × S
continue (done a, s) f = f a s
continue (throws e, s) f = (throws e, s)
continue (faults u, s) f = (faults u, s)

infixl 5 ◌>>=◌ ◌>>◌
abbrev pub ◌>>=◌ : {S A B : Type 0} → Program S A → (A → Program S B) → Program S B
◌>>=◌ m f s = continue (m s) f

abbrev pub ◌>>◌ : {S A B : Type 0} → Program S A → Program S B → Program S B
m >> k = m >>= λ _. k

module _ {S : Type 0} where
  abbrev pub pure : {A : Type 0} → A → Program S A
  pure a s = (done a, s)

  abbrev pub throw : {A : Type 0} → Exception → Program S A
  throw e s = (throws e, s)

  abbrev pub fault : {A : Type 0} → Fault → Program S A
  fault u s = (faults u, s)

  -- A call of code that leaves the state alone: its outcome is the call's.
  abbrev pub lift : {A : Type 0} → Outcome A → Program S A
  lift r s = (r, s)

  abbrev pub gets : {A : Type 0} → (S → A) → Program S A
  gets f s = (done (f s), s)

  abbrev pub modify : (S → S) → Program S (Unit {0})
  modify f s = (done tt, f s)

  -- `if(b) { m }`
  abbrev pub when : Bool → Program S (Unit {0}) → Program S (Unit {0})
  when b m = if b then m else pure tt

  -- A call whose result is not used.
  abbrev pub ignore : {A : Type 0} → Program S A → Program S (Unit {0})
  ignore m = m >>= λ _. pure tt

abbrev pub is_fault : {A : Type 0} → Outcome A → Bool
is_fault (faults u) = true
is_fault (done a) = false
is_fault (throws e) = false

abbrev pub is_done : {A : Type 0} → Outcome A → Bool
is_done (done a) = true
is_done (throws e) = false
is_done (faults u) = false

pub Outcome-cases : {A : Type 0} (o : Outcome A) → ((a : A) × (o ≡ done a)) ⊎ (is_done o ≡ false)
Outcome-cases (done a) = inl (a, refl)
Outcome-cases (throws e) = inr refl
Outcome-cases (faults u) = inr refl

-- A call of code outside the program that has no undefined behaviour.
abbrev pub NeverFaults : {A : Type 0} → Outcome A → Type 0
NeverFaults r = is_fault r ≡ false

-- `try { m } catch(const std::exception& e) { handler }`
abbrev pub handle : {S A : Type 0} → Outcome A × S → (Exception → Program S A) → Outcome A × S
handle (done a, t) h = (done a, t)
handle (throws e, t) h = h e t
handle (faults u, t) h = (faults u, t)

abbrev pub try_catch : {S A : Type 0} → Program S A → (Exception → Program S A) → Program S A
try_catch m handler s = handle (m s) handler
