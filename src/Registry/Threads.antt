-- ===== src/Registry/Threads.antt =====
-- `createClient` in several threads (behaviortree_ros2/include/behaviortree_ros2/bt_action_node.hpp):
-- the calls take `getMutex()` around the registry, but a node that is destroyed lets its instance go
-- without it. Each shared access is one step. An instance is a number, a node too; a node is used by
-- one thread at a time. That a new instance is stored and entered is one step, since nobody reads an
-- entry without the mutex.
pub mod Sharing
pub mod Lost
mod Tests
use behavior_tree_ros.Prelude.{
  ℕ, String, Bool, Option, List, ◌≡◌, ◌≢◌, some, none, true, false, suc, [], if◌then◌else◌, ◌==◌,
}
use behavior_tree_ros.Registry.{find, insert_or_assign}

-- Where a node is in `createClient`.
pub data Pc : Type 0 where
  outside waiting : Pc
  looking creating : String → Pc
  locking : String → ℕ → Pc

pub record Node : Type 0 where
  pub pc : Pc
  -- `client_instance_`, and the key under which it was got
  pub client_instance : Option ℕ
  pub client_key : String

pub record Shared : Type 0 where
  pub nodes : ℕ → Node
  -- the node whose call holds the mutex
  pub owner : Option ℕ
  pub entries : List (String × ℕ)
  pub next_instance : ℕ

-- An array with one cell written.
abbrev pub assign : ℕ → Node → (ℕ → Node) → ℕ → Node
assign n v f j = if j == n then v else f j

abbrev pub goes : ℕ → Pc → Shared → Shared
goes n p s = record s { nodes = assign n (record (s.nodes n) { pc = p }) s.nodes }

-- The node goes on with this instance in place of the one it had.
abbrev pub gets_instance : ℕ → Option ℕ → String → Shared → Shared
gets_instance n o key s = record s {
  nodes = assign n (record { pc = waiting; client_instance = o; client_key = key }) s.nodes;
}

-- Some node holds the instance, or `expired()`.
abbrev pub IsAlive : Shared → ℕ → Type 0
IsAlive s i = (n : ℕ) × ((s.nodes n).client_instance ≡ some i)

abbrev pub IsExpired : Shared → ℕ → Type 0
IsExpired s i = (n : ℕ) → (s.nodes n).client_instance ≢ some i

pub data Step (s : Shared) : Shared → Type 0 where
  -- `std::unique_lock lk(getMutex())`
  enters :
      (n : ℕ) (key : String)
      → (s.nodes n).pc ≡ outside
      → s.owner ≡ none
      → Step s (record (goes n (looking key) s) { owner = some n })
  -- the ROS node is gone: the exception gives the mutex back
  throws :
      (n : ℕ) (key : String)
      → (s.nodes n).pc ≡ looking key
      → Step s (record (goes n outside s) { owner = none })
  -- `it == registry.end()`
  misses :
      (n : ℕ) (key : String)
      → (s.nodes n).pc ≡ looking key
      → find key s.entries ≡ none
      → Step s (goes n (creating key) s)
  -- `it->second.expired()`
  expires :
      (n i : ℕ) (key : String)
      → (s.nodes n).pc ≡ looking key
      → find key s.entries ≡ some i
      → IsExpired s i
      → Step s (goes n (creating key) s)
  -- `std::make_shared` and `insert_or_assign`
  makes :
      (n : ℕ) (key : String)
      → (s.nodes n).pc ≡ creating key
      → Step s (record (gets_instance n (some s.next_instance) key s) {
        entries = insert_or_assign key s.next_instance s.entries;
        next_instance = suc s.next_instance;
      })
  -- the constructor of the instance throws
  fails :
      (n : ℕ) (key : String)
      → (s.nodes n).pc ≡ creating key
      → Step s (record (goes n outside s) { owner = none })
  -- not expired
  finds :
      (n i : ℕ) (key : String)
      → (s.nodes n).pc ≡ looking key
      → find key s.entries ≡ some i
      → IsAlive s i
      → Step s (goes n (locking key i) s)
  -- `it->second.lock()`, of an instance that somebody holds and of one that nobody holds any more
  locks :
      (n i : ℕ) (key : String)
      → (s.nodes n).pc ≡ locking key i
      → IsAlive s i
      → Step s (gets_instance n (some i) key s)
  loses :
      (n i : ℕ) (key : String)
      → (s.nodes n).pc ≡ locking key i
      → IsExpired s i
      → Step s (gets_instance n none key s)
  -- after the wait for the server, through the instance
  leaves :
      (n i : ℕ)
      → (s.nodes n).pc ≡ waiting
      → (s.nodes n).client_instance ≡ some i
      → Step s (record (goes n outside s) { owner = none })
  -- a node that is not in `createClient` is destroyed
  drops :
      (n : ℕ)
      → (s.nodes n).pc ≡ outside
      → Step s
          (record s { nodes = assign n (record (s.nodes n) { client_instance = none }) s.nodes })

abbrev pub no_nodes : Shared
no_nodes = record {
  nodes = λ n. record { pc = outside; client_instance = none; client_key = "" };
  owner = none;
  entries = [];
  next_instance = 0;
}

pub data Reach (s : Shared) : Shared → Type 0 where
  here : Reach s s
  next : {t u : Shared} → Reach s t → Step t u → Reach s u
