-- ===== src/Program/Preserving.antt =====
-- Predicates on the state that a program keeps, however it ends.
use behavior_tree_ros.Program.{Program, Outcome, done, throws, faults, continue, ◌>>=◌}

abbrev pub Preserves : {S A : Type 0} → (S → Type 0) → Program S A → Type 0
Preserves {S} P m = (s : S) → P s → P (m s).1

module _ {S : Type 0} (P : S → Type 0) where
  continue-Preserves :
      {A B : Type 0} (r : Outcome A × S) (f : A → Program S B)
      → P r.1
      → ((a : A) → Preserves P (f a))
      → P (continue r f).1
  continue-Preserves (done a, t) f kept next = next a t kept
  continue-Preserves (throws x, t) f kept next = kept
  continue-Preserves (faults u, t) f kept next = kept

  pub bind-Preserves :
      {A B : Type 0} (m : Program S A) (f : A → Program S B)
      → Preserves P m
      → ((a : A) → Preserves P (f a))
      → Preserves P (m >>= f)
  bind-Preserves m f first next s kept = continue-Preserves (m s) f (first s kept) next
