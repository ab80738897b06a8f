-- ===== src/TreeExecutionServer/Reloading.antt =====
-- What `get_loaded_trees` answers while `executeRegistration` works on the factory.
mod Tests
use behavior_tree_ros.BtUtils.{
  FactoryCall, clear_registered_behavior_trees, register_nodes_into_factory,
}
use behavior_tree_ros.BtUtils.Loading.{Calls, call, register_plugins, register_behavior_trees}
use behavior_tree_ros.Prelude.{
  List, String, ◌++◌, [], sym, true, ℕ, suc, zero, ◌≡◌, ◌∷◌, Bool, false, ◌&&◌, if◌then◌else◌,
  str_eq,
}
use behavior_tree_ros.TreeExecutionServer.{Server, on_factory, Registration}
use behavior_tree_ros.Program.{Program, ◌>>◌, modify, lift}
use behavior_tree_ros.BtUtils.Loading.Log.{Extends}

abbrev pub has_name : String → List String → Bool
has_name name [] = false
has_name name (n ∷ ns) = if str_eq n name then true else has_name name ns

-- Is every name of the first list in the second?
abbrev pub are_among : List String → List String → Bool
are_among [] ys = true
are_among (x ∷ xs) ys = has_name x ys && are_among xs ys

-- `registeredBehaviorTrees()` after a list of calls, the latest first, where `trees_of` are the trees
-- that are defined in what a call reads: none after the clear, and a call adds only its own. Which of
-- them it adds may depend on all calls before, also on those before the clear.
pub record IsFactory (registered : Calls → List String) (trees_of : FactoryCall → List String)
    : Type 0 where
  pub clears : (cs : Calls) → registered (clear_registered_behavior_trees ∷ cs) ≡ []
  pub adds :
      (c : FactoryCall) (cs : Calls)
      → are_among (registered (c ∷ cs)) (trees_of c ++ registered cs) ≡ true

-- All trees that some calls read.
abbrev pub trees_read : (FactoryCall → List String) → Calls → List String
trees_read trees_of [] = []
trees_read trees_of (c ∷ cs) = trees_of c ++ trees_read trees_of cs

module _ (base : Calls) where
  IsLonger : Server → Type 0
  IsLonger s = Extends base s.factory_calls

  -- What `executeRegistration` does after the clear, from its end.
  abbrev load_trees : Registration → Program Server (Unit {0})
  load_trees e =
      on_factory (register_behavior_trees e.host e.new_params.load)
      >> modify (λ s. record s { factory_initialized = true })

  abbrev load_all : Registration → Program Server (Unit {0})
  load_all e = on_factory (register_plugins e.host e.new_params.load) >> load_trees e

  abbrev reload : Registration → Program Server (Unit {0})
  reload e = on_factory (call register_nodes_into_factory) >> (lift e.register_nodes >> load_all e)

-- The `k` latest of some calls, and the others.
abbrev pub latest : ℕ → Calls → Calls
latest zero cs = []
latest (suc k) [] = []
latest (suc k) (c ∷ cs) = c ∷ latest k cs

abbrev pub before : ℕ → Calls → Calls
before zero cs = cs
before (suc k) [] = []
before (suc k) (c ∷ cs) = before k cs
