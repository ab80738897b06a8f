-- ===== src/BtUtils/Loading/Log.antt =====
-- The loading only adds to what is asked of the factory and of the plugins.
use behavior_tree_ros.BtUtils.Loading.{
  Calls, call, for_each, in_directory, load_tree, load_behavior_trees, load_plugin, load_plugins,
  load_plugin_entry, register_plugins, register_behavior_trees, run_registration, LoadParams,
  plugin_params,
}
use behavior_tree_ros.BtUtils.{
  FactoryCall, Host, DirectoryEntry, register_behavior_tree_from_file, plugin_symbol,
  ros_plugin_symbol, get_directory_path,
}
use behavior_tree_ros.Program.Preserving.{Preserves, bind-Preserves}
use behavior_tree_ros.Prelude.{
  ◌≡◌, ◌++◌, ap, List, not, [], true, false, if◌then◌else◌, ◌∷◌, Bool, String, str_eq,
}
use behavior_tree_ros.Program.{
  Program, when, try_catch, lift, pure, handle, done, throws, faults, ◌>>=◌, ◌>>◌, Outcome,
}
use behavior_tree_ros.RosNodeParams.{RosNodeParams}

-- The calls `cs` are those of `base` and more.
abbrev pub Extends : Calls → Calls → Type 0
Extends base cs = (new : Calls) × (cs ≡ new ++ base)

module _ (base : Calls) where
  abbrev pub Grows : {A : Type 0} → Program Calls A → Type 0
  Grows m = Preserves (Extends base) m

  pub call-Grows : (c : FactoryCall) → Grows (call c)
  call-Grows c cs (new, is_new) = (c ∷ new, ap (λ x. c ∷ x) is_new)

  for_each-Grows :
      {A : Type 0} (body : A → Program Calls (Unit {0}))
      → ((a : A) → Grows (body a))
      → (xs : List A) → Grows (for_each body xs)
  unfolding for_each
  for_each-Grows body grows [] = λ cs kept. kept
  for_each-Grows body grows (x ∷ xs) =
      bind-Preserves (Extends base) (body x) (λ u. for_each body xs) (grows x)
        (λ u. for_each-Grows body grows xs)

  either-Grows :
      (b : Bool) (m k : Program Calls (Unit {0})) → Grows m → Grows k → Grows (if b then m else k)
  either-Grows true m k first second = first
  either-Grows false m k first second = second

  when-Grows : (b : Bool) (m : Program Calls (Unit {0})) → Grows m → Grows (when b m)
  when-Grows b m grows = either-Grows b m (pure tt) grows (λ cs kept. kept)

  -- `try` with a handler that does nothing
  try_catch-Grows : (m : Program Calls (Unit {0})) → Grows m → Grows (try_catch m (λ e. pure tt))
  try_catch-Grows m grows cs kept = handled (m cs) (grows cs kept)
    where
      handled :
          (r : Outcome (Unit {0}) × Calls)
          → Extends base r.1
          → Extends base (handle r (λ e. pure tt)).1
      handled (done a, t) kept' = kept'
      handled (throws x, t) kept' = kept'
      handled (faults u, t) kept' = kept'

  pub lift-Grows : {A : Type 0} (o : Outcome A) → Grows (lift o)
  lift-Grows o cs kept = kept

  -- A call of the outside, and what is done with its result.
  lift_then-Grows :
      {A : Type 0} (o : Outcome A) (f : A → Program Calls (Unit {0}))
      → ((a : A) → Grows (f a))
      → Grows (lift o >>= f)
  lift_then-Grows {A} o f grows =
      bind-Preserves (Extends base) {A = A} {B = Unit {0}} (lift o) f (lift-Grows o) grows

  -- A call of the factory or of a plugin, and how it ends.
  ask-Grows : (c : FactoryCall) (o : Outcome (Unit {0})) → Grows (call c >> lift o)
  ask-Grows c o =
      bind-Preserves (Extends base) {A = Unit {0}} {B = Unit {0}} (call c) (λ u. lift o)
        (call-Grows c) (λ u. lift-Grows o)

  in_directory-Grows :
      (host : Host) (body : String → Program Calls (Unit {0}))
      → ((directory : String) → Grows (body directory))
      → (value : String) → Grows (in_directory host body value)
  unfolding in_directory
  in_directory-Grows host body grows value =
      lift_then-Grows (get_directory_path host.share value)
        (λ directory. when (not (str_eq directory "")) (body directory))
        (λ directory. when-Grows (not (str_eq directory "")) (body directory) (grows directory))

  load_tree-Grows : (host : Host) (entry : DirectoryEntry) → Grows (load_tree host entry)
  unfolding load_tree
  load_tree-Grows host entry =
      let m : Program Calls (Unit {0}) =
        call (register_behavior_tree_from_file entry.path)
        >> lift (host.register_file entry.path) in
      when-Grows (str_eq entry.extension ".xml") (try_catch m (λ e. pure tt)) (
        try_catch-Grows m
          (ask-Grows (register_behavior_tree_from_file entry.path) (host.register_file entry.path)))

  pub register_behavior_trees-Grows :
      (host : Host) (p : LoadParams) → Grows (register_behavior_trees host p)
  unfolding register_behavior_trees load_behavior_trees
  register_behavior_trees-Grows host p =
      for_each-Grows (in_directory host (load_behavior_trees host))
        (in_directory-Grows host (load_behavior_trees host) λ directory.
          lift_then-Grows (host.list_directory directory) (for_each (load_tree host))
            (for_each-Grows (load_tree host) (load_tree-Grows host)))
        p.behavior_trees

  run_registration-Grows :
      (host : Host) (params : RosNodeParams) (path : String)
      → Grows (run_registration host params path)
  unfolding run_registration
  run_registration-Grows host params path =
      either-Grows (host.has_plugin_symbol path)
        (call (plugin_symbol path) >> lift (host.run_plugin path))
        (when (host.has_ros_plugin_symbol path)
          (call (ros_plugin_symbol path params) >> lift (host.run_plugin path)))
        (ask-Grows (plugin_symbol path) (host.run_plugin path))
        (when-Grows (host.has_ros_plugin_symbol path)
          (call (ros_plugin_symbol path params) >> lift (host.run_plugin path))
          (ask-Grows (ros_plugin_symbol path params) (host.run_plugin path)))

  load_plugin-Grows :
      (host : Host) (params : RosNodeParams) (path : String) → Grows (load_plugin host params path)
  unfolding load_plugin
  load_plugin-Grows host params path =
      try_catch-Grows (lift (host.load_library path) >> run_registration host params path) (
        lift_then-Grows (host.load_library path) (λ u. run_registration host params path)
          (λ u. run_registration-Grows host params path))

  load_plugins-Grows :
      (host : Host) (params : RosNodeParams) (directory : String)
      → Grows (load_plugins host params directory)
  unfolding load_plugins load_plugin_entry
  load_plugins-Grows host params directory =
      lift_then-Grows (host.list_directory directory) (for_each (load_plugin_entry host params)) (
        for_each-Grows (load_plugin_entry host params) λ entry.
          when-Grows (str_eq entry.extension ".so") (load_plugin host params entry.path)
            (load_plugin-Grows host params entry.path))

  pub register_plugins-Grows : (host : Host) (p : LoadParams) → Grows (register_plugins host p)
  unfolding register_plugins
  register_plugins-Grows host p =
      for_each-Grows (in_directory host (load_plugins host (plugin_params host p)))
        (in_directory-Grows host (load_plugins host (plugin_params host p))
          (load_plugins-Grows host (plugin_params host p)))
        p.plugins
