-- ===== src/Registry/Threads/Tests.antt =====
-- Two nodes that call `createClient` for one key.
use behavior_tree_ros.Registry.{find, insert_or_assign}
use behavior_tree_ros.Registry.Threads.{
  Shared, Reach, no_nodes, goes, gets_instance, looking, creating, locking, outside, here, next,
  enters, misses, makes, leaves, finds, locks, waiting,
}
use behavior_tree_ros.Registry.Threads.Sharing.{threads_share}
use behavior_tree_ros.Registry.Threads.Lost.{destruction_loses_instance, without}
use behavior_tree_ros.Prelude.{some, ◌∷◌, ◌↔◌, [], ℕ, arith, none, ◌≡◌, refl}

abbrev asked : Shared
asked = record (goes 0 (looking "k") no_nodes) { owner = some 0 }

abbrev made : Shared
made = record (gets_instance 0 (some 0) "k" (goes 0 (creating "k") asked)) {
  entries = ("k", 0) ∷ [];
  next_instance = 1;
}

abbrev left : Shared
left = record (goes 0 outside made) { owner = none }

-- The second node has found the instance of the first.
abbrev at_lock : Shared
at_lock = goes 1 (locking "k" 0) (record (goes 1 (looking "k") left) { owner = some 1 })

made-Reach : Reach no_nodes made
unfolding find insert_or_assign
made-Reach =
    next (next (next here (enters 0 "k" refl refl)) (misses 0 "k" refl refl)) (makes 0 "k" refl)

at_lock-Reach : Reach no_nodes at_lock
unfolding find
at_lock-Reach =
    next (next (next made-Reach (leaves 0 0 refl refl)) (enters 1 "k" refl refl))
      (finds 1 0 "k" refl refl (0, refl))

abbrev both : Shared
both = gets_instance 1 (some 0) "k" at_lock

threads_share_example : ((both.nodes 0).client_key ≡ (both.nodes 1).client_key) ↔ (◌≡◌ {A = ℕ} 0 0)
threads_share_example =
    threads_share both 0 1 0 0 (next at_lock-Reach (locks 1 0 "k" refl (0, refl))) refl refl

destruction_loses_instance_example :
    let t = gets_instance 1 none "k" (without 0 at_lock) in
    Reach no_nodes t × ((t.nodes 1).pc ≡ waiting) × ((t.nodes 1).client_instance ≡ none)
destruction_loses_instance_example =
    destruction_loses_instance at_lock 0 1 0 "k" at_lock-Reach refl refl (λ l h. ground arith)
