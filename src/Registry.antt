-- ===== src/Registry.antt =====
-- The static registries of RosActionNode, RosServiceNode and RosTopicSubNode: a map from
-- "<node>/<name>" to a weak pointer to a shared instance
-- (behaviortree_ros2/include/behaviortree_ros2/bt_action_node.hpp, bt_service_node.hpp,
-- bt_topic_sub_node.hpp). An instance is a number. A weak pointer has expired when no node holds the
-- instance: `held` lists those that other nodes hold, and the node that looks passes its own.
-- The look-up is the same code in the three headers, and one definition here, which `createClient` and
-- `createSubscriber` of each wrapper call.
pub mod Sharing
pub mod Threads
pub mod Copies
mod Tests
use behavior_tree_ros.Prelude.{
  ℕ, suc, String, Bool, true, false, not, ◌||◌, Option, none, some, List, [], ◌∷◌, ◌==◌, str_eq,
  if◌then◌else◌, contains,
}

pub record Registry : Type 0 where
  pub entries : List (String × ℕ)
  pub held : List ℕ
  pub next_instance : ℕ

-- `registry.find(key)`
unfoldable pub find : String → List (String × ℕ) → Option ℕ
find key [] = none
find key ((k, i) ∷ rest) = if str_eq k key then some i else find key rest

-- `registry.insert_or_assign(key, instance)`
unfoldable pub insert_or_assign : String → ℕ → List (String × ℕ) → List (String × ℕ)
insert_or_assign key i [] = (key, i) ∷ []
insert_or_assign key i ((k, j) ∷ rest) =
    if str_eq k key then (key, i) ∷ rest else (k, j) ∷ insert_or_assign key i rest

-- Does the node that holds `own` hold `i`?
abbrev pub holds : Option ℕ → ℕ → Bool
holds none i = false
holds (some j) i = j == i

-- `it->second.expired()`
pub expired : Option ℕ → List ℕ → ℕ → Bool
expired own held i = not (holds own i || contains held i)

-- `it == registry.end() || it->second.expired()`: must a new instance be made?
abbrev needs_instance : Option ℕ → List ℕ → Option ℕ → Bool
needs_instance own held none = true
needs_instance own held (some i) = expired own held i

unfoldable pub must_create : String → Option ℕ → Registry → Bool
unfolding find expired
must_create key own r = needs_instance own r.held (find key r.entries)

-- `std::make_shared` and `registry.insert_or_assign`.
unfoldable pub create : String → Registry → ℕ × Registry
unfolding insert_or_assign
create key r = (
  r.next_instance,
  record r {
    entries = insert_or_assign key r.next_instance r.entries;
    next_instance = suc r.next_instance;
  },
)

-- `it->second.lock()`
unfoldable pub lock : String → Registry → Option ℕ
unfolding find
lock key r = find key r.entries

-- The part that `createClient` and `createSubscriber` share: look the key up, and make an instance
-- where there is none that is alive.
unfoldable pub acquire : String → Option ℕ → Registry → Option ℕ × Registry
unfolding must_create create lock
acquire key own r =
    if must_create key own r then (let (i, r') = create key r in (some i, r')) else (lock key r, r)
