-- ===== src/Registry/Tests.antt =====
-- Two nodes that share an instance, and two that do not.
use behavior_tree_ros.Prelude.{[], ◌∷◌, none, ◌≡◌, some, ap, refl}
use behavior_tree_ros.Registry.{Registry, must_create, create, insert_or_assign, find, acquire}
use behavior_tree_ros.Registry.Sharing.{IsConsistent}

abbrev empty : Registry
empty = record { entries = []; held = []; next_instance = 0 }

empty-IsConsistent : IsConsistent empty
unfolding find
empty-IsConsistent = record { fresh = λ k i h. cc; apart = λ j k i g h. cc }

abbrev one : Registry
one = record { entries = ("/bt/sleep", 0) ∷ []; held = []; next_instance = 1 }

acquire-empty : acquire "/bt/sleep" none empty ≡ (some 0, one)
unfolding acquire must_create create find insert_or_assign
acquire-empty = refl

got_first : (acquire "/bt/sleep" none empty).0 ≡ some 0
got_first = ap (λ p. p.0) acquire-empty

-- The first node still holds its instance.
got_second :
    (acquire "/bt/walk" none (record ((acquire "/bt/sleep" none empty).1) { held = 0 ∷ [] })).0
    ≡ some 1
unfolding acquire must_create create find insert_or_assign
got_second = refl
