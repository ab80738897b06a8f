-- ===== src/ClientInstances/Executors.antt =====
-- Which executors have the group of an endpoint.
use behavior_tree_ros.ClientInstances.{
  create_callback_group, add_callback_group, create_endpoint, Graph, Endpoint, Kind, InstanceEnv,
  taken_by_node, executors_of, open_instance, action_client_instance, service_client_instance,
  subscriber_instance, action_client, service_client, subscription,
}
use behavior_tree_ros.Prelude.{ℕ, String, List, [], ◌∷◌, ◌≡◌, ◌≢◌, some, none, false, arith, refl}
use behavior_tree_ros.Program.{Outcome, done, throws, faults, Program, ◌>>=◌, ◌>>◌}

-- The node's executors do not take the endpoint's group, and only the executor of its instance has it.
abbrev pub IsPrivate : Graph → Endpoint → Type 0
IsPrivate s p =
    (taken_by_node p.group s.groups ≡ some false) × (executors_of p.group s.added ≡ p.instance ∷ [])

abbrev pub AllPrivate : Graph → List Endpoint → Type 0
AllPrivate s [] = Unit {0}
AllPrivate s (p ∷ ps) = IsPrivate s p × AllPrivate s ps

pub record IsSeparate (s : Graph) : Type 0 where
  pub private_all : AllPrivate s s.endpoints
  -- an executor has only groups that were made
  pub made : (g : ℕ) → taken_by_node g s.groups ≡ none → executors_of g s.added ≡ []

-- `create_callback_group` makes a group that was not there.
abbrev pub MakesNew : InstanceEnv → Graph → Type 0
MakesNew e s = (g : ℕ) → e.new_group ≡ done g → taken_by_node g s.groups ≡ none

abbrev with_group : ℕ → String → Graph → Graph
with_group g node s = record s {
  groups = record { id = g; node = node; automatic = false } ∷ s.groups;
}

abbrev with_executor : ℕ → ℕ → Graph → Graph
with_executor i g s = record s { added = (i, g) ∷ s.added }

abbrev with_endpoint : Endpoint → Graph → Graph
with_endpoint p s = record s { endpoints = p ∷ s.endpoints }

-- Another group changes nothing for the endpoints that are there.
others-private :
    (i g : ℕ) (node : String) (s : Graph) (ps : List Endpoint)
    → taken_by_node g s.groups ≡ none
    → AllPrivate s ps
    → AllPrivate (with_group g node s) ps × AllPrivate (with_executor i g (with_group g node s)) ps
unfolding taken_by_node executors_of
others-private i g node s [] new all = (tt, tt)
others-private i g node s (p ∷ ps) new all =
    let rest = others-private i g node s ps new all.1 in
    let apart : g ≢ p.group = λ h. ground (arith, h, new, all.0) in
    ((ground (arith, apart, all.0), rest.0), (ground (arith, apart, all.0), rest.1))

module _ (i g : ℕ) (node : String) (s : Graph) where
  grouped-IsSeparate :
      taken_by_node g s.groups ≡ none → IsSeparate s → IsSeparate (with_group g node s)
  unfolding taken_by_node
  grouped-IsSeparate new sep = record {
    private_all = (others-private i g node s s.endpoints new sep.private_all).0;
    made = λ h none_yet. ground (arith, none_yet, sep.made h);
  }

  executed-IsSeparate :
      taken_by_node g s.groups ≡ none
      → IsSeparate s
      → IsSeparate (with_executor i g (with_group g node s))
  unfolding taken_by_node executors_of
  executed-IsSeparate new sep = record {
    private_all = (others-private i g node s s.endpoints new sep.private_all).1;
    made = λ h none_yet. ground (arith, none_yet, sep.made h);
  }

  opened-IsSeparate :
      (kind : Kind) (name : String)
      → taken_by_node g s.groups ≡ none
      → IsSeparate s
      → IsSeparate (
          with_endpoint
            (record { kind = kind; name = name; group = g; instance = i })
            (with_executor i g (with_group g node s)))
  unfolding taken_by_node executors_of
  opened-IsSeparate kind name new sep = record {
    private_all = (
      ground (arith, sep.made g new),
      (others-private i g node s s.endpoints new sep.private_all).1,
    );
    made = (executed-IsSeparate new sep).made;
  }

-- What the three constructors have in common.
abbrev any_instance : InstanceEnv → Kind → ℕ → String → String → Program Graph (Unit {0})
any_instance e kind instance node name = do
  g ← create_callback_group e node false
  add_callback_group e instance g
  create_endpoint e (record { kind = kind; name = name; group = g; instance = instance })

-- A constructor, by how the calls of rclcpp end.
any_instance-IsSeparate :
    (o : Outcome ℕ) (p q : Outcome (Unit {0})) (kind : Kind) (i : ℕ) (node name : String)
    (s : Graph)
    → let e : InstanceEnv = record { new_group = o; add_group = p; make_endpoint = q } in
      MakesNew e s → IsSeparate s → IsSeparate (any_instance e kind i node name s).1
any_instance-IsSeparate (throws x) p q kind i node name s new sep = sep
any_instance-IsSeparate (faults u) p q kind i node name s new sep = sep
any_instance-IsSeparate (done g) (throws x) q kind i node name s new sep =
    grouped-IsSeparate i g node s (new g refl) sep
any_instance-IsSeparate (done g) (faults u) q kind i node name s new sep =
    grouped-IsSeparate i g node s (new g refl) sep
any_instance-IsSeparate (done g) (done _) (throws x) kind i node name s new sep =
    executed-IsSeparate i g node s (new g refl) sep
any_instance-IsSeparate (done g) (done _) (faults u) kind i node name s new sep =
    executed-IsSeparate i g node s (new g refl) sep
any_instance-IsSeparate (done g) (done _) (done _) kind i node name s new sep =
    opened-IsSeparate i g node s kind name (new g refl) sep

opens-IsSeparate :
    (e : InstanceEnv) (kind : Kind) (i : ℕ) (node name : String) (s : Graph)
    → MakesNew e s
    → IsSeparate s
    → IsSeparate (open_instance e kind i node name s).1
unfolding action_client_instance service_client_instance subscriber_instance
opens-IsSeparate e action_client i node name s =
    any_instance-IsSeparate e.new_group e.add_group e.make_endpoint action_client i node name s
opens-IsSeparate e service_client i node name s =
    any_instance-IsSeparate e.new_group e.add_group e.make_endpoint service_client i node name s
opens-IsSeparate e subscription i node name s =
    any_instance-IsSeparate e.new_group e.add_group e.make_endpoint subscription i node name s

-- Constructors of the three kinds, one after the other.
pub data Reach (s : Graph) : Graph → Type 0 where
  here : Reach s s
  next :
      {t : Graph} (e : InstanceEnv) (kind : Kind) (i : ℕ) (node name : String)
      → Reach s t
      → MakesNew e t
      → Reach s (open_instance e kind i node name t).1

abbrev pub nothing : Graph
nothing = record { groups = []; added = []; endpoints = [] }

Reach-IsSeparate : {s : Graph} → Reach nothing s → IsSeparate s
unfolding executors_of
Reach-IsSeparate here = record { private_all = tt; made = λ g h. refl }
Reach-IsSeparate (next {t} e kind i node name r new) =
    opens-IsSeparate e kind i node name t new (Reach-IsSeparate r)

-- Whatever client instances were made, of the three kinds and in any order, and however the calls
-- of rclcpp ended, where `create_callback_group` makes a group that was not there: each endpoint is
-- in a group that the node's executors do not take, and that only the executor of the endpoint's
-- own instance has.
pub own_executors : (s : Graph) → Reach nothing s → AllPrivate s s.endpoints
own_executors s r = (Reach-IsSeparate r).private_all
