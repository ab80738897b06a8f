-- ===== src/Registry/Threads/Lost.antt =====
-- What the mutex does not guard: the end of the last node that holds an instance.
use behavior_tree_ros.Registry.Threads.{
  Shared, Reach, no_nodes, drops, loses, next, locking, outside, waiting, gets_instance, assign,
}
use behavior_tree_ros.Prelude.{ℕ, none, String, ◌≡◌, some, arith}

-- The state once a node has been destroyed.
abbrev pub without : ℕ → Shared → Shared
without m s = record s { nodes = assign m (record (s.nodes m) { client_instance = none }) s.nodes }

-- A node stands between `expired()` and `lock()`, and the only other holder of the instance that it
-- found is outside `createClient`: in two further steps, the destruction of that holder and the
-- `lock()`, the node goes on to wait for the server with a null instance.
pub destruction_loses_instance :
    (s : Shared) (m n i : ℕ) (key : String)
    → Reach no_nodes s
    → (s.nodes n).pc ≡ locking key i
    → (s.nodes m).pc ≡ outside
    → ((l : ℕ) → (s.nodes l).client_instance ≡ some i → l ≡ m)
    → let t = gets_instance n none key (without m s) in
      Reach no_nodes t × ((t.nodes n).pc ≡ waiting) × ((t.nodes n).client_instance ≡ none)
destruction_loses_instance s m n i key r at_lock idle only = (
  next (next r (drops m idle))
      (loses n i key (ground (arith, at_lock, idle)) (λ l h. ground (arith, only l, h))),
  ground arith,
  ground arith,
)
