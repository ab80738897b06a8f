-- ===== src/Registry/Copies.antt =====
-- What `createClient` of the action and of the service wrapper do to a node's instance and to the
-- registry, told by which nodes hold the instances.
mod Tests
use behavior_tree_ros.ActionNode.{Env as ActionEnv, State as ActionState}
use behavior_tree_ros.ActionNode.Client.{create_client as create_action_client}
use behavior_tree_ros.ServiceNode.{Env as ServiceEnv, State as ServiceState, create_client}
use behavior_tree_ros.Registry.{Registry, must_create, acquire, find, expired, create, lock}
use behavior_tree_ros.RosNodeParams.{went_out_of_scope}
use behavior_tree_ros.Prelude.{
  String, Option, Bool, none, some, ◌≡◌, ◌≢◌, ◌<>◌, arith, Bool-cases, inl, inr, eq_iff, str_eq,
  if◌then◌else◌, refl, ℕ, false, List, suc, ◌⊎◌, contains, true, ◌∙◌, Option-cases, eq_refl, sym,
}
use behavior_tree_ros.Program.{Outcome, done, throws, faults, runtime_error}
use behavior_tree_ros.Registry.Sharing.{find-insert_or_assign}

-- An outcome with the instance and the registry that are left.
abbrev pub Looked : Type 0
Looked = Outcome Bool × Option ℕ × Registry

-- The constructor of a new instance decides, and a failure changes nothing.
abbrev after_make : Outcome (Unit {0}) → Bool → Option ℕ → Registry → Option ℕ × Registry → Looked
after_make (done _) found own r (i, s) = (done found, i, s)
after_make (throws x) found own r a = (throws x, own, r)
after_make (faults u) found own r a = (faults u, own, r)

-- The effect of both functions on the instance and the registry.
looked_up : Option String → Outcome (Unit {0}) → Bool → String → Option ℕ → Registry → Looked
looked_up none make found name own r = (throws (runtime_error went_out_of_scope), own, r)
looked_up (some full) make found name own r =
    let key = full <> "/" <> name in
    let make' = if must_create key own r then make else done tt in
    after_make make' found own r (acquire key own r)

abbrev pub action_view : {G R : Type 0} → Outcome Bool × ActionState G R → Looked
action_view (o, t) = (o, t.client_instance, t.registry)

abbrev pub service_view : {Q R : Type 0} → Outcome Bool × ServiceState Q R → Looked
service_view (o, t) = (o, t.srv_instance, t.registry)

action_lem :
    {G F R : Type 0} (node : Option String) (make : Outcome (Unit {0})) (e : ActionEnv G F R)
    (name : String) (s : ActionState G R)
    → e.ros_node ≡ node
    → e.make_instance ≡ make
    → str_eq name "" ≡ false
    → action_view (create_action_client e name s)
      ≡ looked_up node make e.server_found name s.client_instance s.registry
unfolding create_action_client looked_up
action_lem none make e name s alive made real = rw (alive, real) refl
action_lem (some full) (done _) e name s alive made real =
    elim (Bool-cases (must_create (full <> "/" <> name) s.client_instance s.registry)) [
      | inl must ↦ rw (alive, real, must, made) refl
      | inr free ↦ rw (alive, real, free) refl
    ]
action_lem (some full) (throws x) e name s alive made real =
    elim (Bool-cases (must_create (full <> "/" <> name) s.client_instance s.registry)) [
      | inl must ↦ rw (alive, real, must, made) refl
      | inr free ↦ rw (alive, real, free) refl
    ]
action_lem (some full) (faults u) e name s alive made real =
    elim (Bool-cases (must_create (full <> "/" <> name) s.client_instance s.registry)) [
      | inl must ↦ rw (alive, real, must, made) refl
      | inr free ↦ rw (alive, real, free) refl
    ]

service_lem :
    {Q R : Type 0} (node : Option String) (make : Outcome (Unit {0})) (e : ServiceEnv Q R)
    (name : String) (s : ServiceState Q R)
    → e.ros_node ≡ node
    → e.make_instance ≡ make
    → str_eq name "" ≡ false
    → str_eq name "__default__placeholder__" ≡ false
    → service_view (create_client e name s)
      ≡ looked_up node make e.service_found name s.srv_instance s.registry
unfolding create_client looked_up
service_lem none make e name s alive made real known = rw (alive, real, known) refl
service_lem (some full) (done _) e name s alive made real known =
    elim (Bool-cases (must_create (full <> "/" <> name) s.srv_instance s.registry)) [
      | inl must ↦ rw (alive, real, known, must, made) refl
      | inr free ↦ rw (alive, real, known, free) refl
    ]
service_lem (some full) (throws x) e name s alive made real known =
    elim (Bool-cases (must_create (full <> "/" <> name) s.srv_instance s.registry)) [
      | inl must ↦ rw (alive, real, known, must, made) refl
      | inr free ↦ rw (alive, real, known, free) refl
    ]
service_lem (some full) (faults u) e name s alive made real known =
    elim (Bool-cases (must_create (full <> "/" <> name) s.srv_instance s.registry)) [
      | inl must ↦ rw (alive, real, known, must, made) refl
      | inr free ↦ rw (alive, real, known, free) refl
    ]

-- The node itself or another one holds the instance.
abbrev pub IsHeld : Option ℕ → List ℕ → ℕ → Type 0
IsHeld own held i = (own ≡ some i) ⊎ (contains held i ≡ true)

-- The key names an instance that some node holds.
abbrev pub IsShared : String → Option ℕ → Registry → ℕ → Type 0
IsShared key own r i = (find key r.entries ≡ some i) × IsHeld own r.held i

-- A new instance, by how its constructor ends: it gets the key, and no other key changes.
abbrev pub Made : String → Option ℕ → Registry → Bool → Outcome (Unit {0}) → Looked → Type 0
Made key own r found (done _) (o, i, t) =
    (o ≡ done found)
    × (i ≡ some r.next_instance)
    × (t.next_instance ≡ suc r.next_instance)
    × (t.held ≡ r.held)
    × (find key t.entries ≡ some r.next_instance)
    × ((k : String) → (k ≡ key) ⊎ (find k t.entries ≡ find k r.entries))
Made key own r found (throws x) l = l ≡ (throws x, own, r)
Made key own r found (faults u) l = l ≡ (faults u, own, r)

-- The instance of the key where a node holds it, and else a new one.
abbrev pub SharesOrMakes :
    String → Option ℕ → Registry → Bool → Outcome (Unit {0}) → Looked → Type 0
SharesOrMakes key own r found make l =
    ((i : ℕ) × IsShared key own r i × (l ≡ (done found, some i, r)))
    ⊎ ((¬ ((i : ℕ) × IsShared key own r i)) × Made key own r found make l)

expired-IsHeld :
    (own : Option ℕ) (held : List ℕ) (i : ℕ) → expired own held i ≡ false → IsHeld own held i
unfolding expired
expired-IsHeld own held i alive = ground arith

IsHeld-expired :
    (own : Option ℕ) (held : List ℕ) (i : ℕ) → IsHeld own held i → expired own held i ≡ false
unfolding expired
IsHeld-expired own held i kept = ground arith

abbrev looked : String → Option ℕ → Registry → Bool → Outcome (Unit {0}) → Looked
looked key own r found make =
    after_make (if must_create key own r then make else done tt) found own r (acquire key own r)

looked-Made :
    (key : String) (own : Option ℕ) (r : Registry) (found : Bool) (make : Outcome (Unit {0}))
    → must_create key own r ≡ true
    → Made key own r found make (looked key own r found make)
unfolding acquire create
looked-Made key own r found (throws x) must = rw must refl
looked-Made key own r found (faults u) must = rw must refl
looked-Made key own r found (done _) must = rw must (
  refl,
  refl,
  refl,
  refl,
  find-insert_or_assign key key r.next_instance r.entries ∙ rw (eq_refl key) refl,
  λ k. elim (Bool-cases (str_eq key k)) [
    | inl same ↦ inl (sym (ground (arith, same, eq_iff key k)))
    | inr apart ↦ inr (find-insert_or_assign k key r.next_instance r.entries ∙ rw apart refl)
  ],
)

looked-SharesOrMakes :
    (key : String) (own : Option ℕ) (r : Registry) (found : Bool) (make : Outcome (Unit {0}))
    → SharesOrMakes key own r found make (looked key own r found make)
unfolding acquire must_create lock
looked-SharesOrMakes key own r found make = elim (Option-cases (find key r.entries)) [
  | inl unnamed ↦ inr (
    (λ shared. ground (arith, shared.1.0, unnamed)),
    looked-Made key own r found make (ground (arith, unnamed)),
  )
  | inr (i, named) ↦ elim (Bool-cases (expired own r.held i)) [
    | inl gone ↦ inr (
      (λ shared.
          let same : shared.0 ≡ i = ground (arith, shared.1.0, named) in
          let alive : expired own r.held shared.0 ≡ false =
            IsHeld-expired own r.held shared.0 shared.1.1 in
          ground (arith, same, alive, gone)),
      looked-Made key own r found make (ground (arith, named, gone)),
    )
    | inr alive ↦ inl (i, (named, expired-IsHeld own r.held i alive), rw (named, alive) refl)
  ]
]

-- For a name that is neither empty nor the placeholder, and a ROS node that lives, `createClient`
-- of the action wrapper and that of the service wrapper each do one of two things. Where the key
-- names an instance that the node itself or another one holds, the node has that instance, and the
-- registry stays. Else a new instance is made: where its constructor returns, the node has it, the
-- key names it, and no other key changes; where the constructor fails, its failure goes on, and the
-- instance and the registry stay.
pub create_clients_share_or_make :
    {G F R Q P : Type 0} (a : ActionEnv G F R) (b : ServiceEnv Q P) (name full : String)
    (s : ActionState G R) (u : ServiceState Q P)
    → name ≢ ""
    → name ≢ "__default__placeholder__"
    → a.ros_node ≡ some full
    → b.ros_node ≡ some full
    → SharesOrMakes
        (full <> "/" <> name)
        s.client_instance
        s.registry
        a.server_found
        a.make_instance
        (action_view (create_action_client a name s))
      × SharesOrMakes
          (full <> "/" <> name)
          u.srv_instance
          u.registry
          b.service_found
          b.make_instance
          (service_view (create_client b name u))
unfolding looked_up
create_clients_share_or_make a b name full s u some_name real on_a on_b =
    let named : str_eq name "" ≡ false = ground (arith, eq_iff name "") in
    let known : str_eq name "__default__placeholder__" ≡ false =
      ground (arith, eq_iff name "__default__placeholder__") in
    (
      rw (action_lem (some full) a.make_instance a name s on_a refl named) (
          looked-SharesOrMakes (full <> "/" <> name) s.client_instance s.registry a.server_found
            a.make_instance),
      rw (service_lem (some full) b.make_instance b name u on_b refl named known) (
          looked-SharesOrMakes (full <> "/" <> name) u.srv_instance u.registry b.service_found
            b.make_instance),
    )
