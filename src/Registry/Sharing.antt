-- ===== src/Registry/Sharing.antt =====
-- What the registries are for: which nodes share an instance.
use behavior_tree_ros.Prelude.{
  ℕ, ◌<◌, String, some, List, [], ◌∷◌, ◌≡◌, refl, arith, str_eq, eq_iff, if◌then◌else◌, Option,
  Bool-cases, ◌≢◌, is_some, inl, true, contains, inr, eq_refl, false, ◌≤◌, ◌∙◌,
}
use behavior_tree_ros.Registry.{
  Registry, find, insert_or_assign, create, acquire, must_create, lock, expired,
}

pub find-insert_or_assign :
    (j k : String) (i : ℕ) (m : List (String × ℕ))
    → find j (insert_or_assign k i m) ≡ (if str_eq k j then some i else find j m)
unfolding find insert_or_assign
find-insert_or_assign j k i [] = refl
find-insert_or_assign j k i ((l, n) ∷ m) =
    ground (arith, eq_iff k j, eq_iff l k, eq_iff l j, find-insert_or_assign j k i m)

-- Two keys never name one instance, and every named instance was handed out before.
pub record IsConsistent (r : Registry) : Type 0 where
  pub fresh : (k : String) (i : ℕ) → find k r.entries ≡ some i → i < r.next_instance
  pub apart : (j k : String) (i : ℕ) → find j r.entries ≡ some i → find k r.entries ≡ some i → j ≡ k

find-create :
    (j key : String) (r : Registry)
    → find j (create key r).1.entries
      ≡ (if str_eq key j then some r.next_instance else find j r.entries)
unfolding create
find-create j key r = find-insert_or_assign j key r.next_instance r.entries

create-IsConsistent : (key : String) (r : Registry) → IsConsistent r → IsConsistent (create key r).1
unfolding create
create-IsConsistent key r c = record {
  fresh = λ k i h. ground (arith, find-create k key r, eq_iff key k, c.fresh k i);
  apart = λ j k i h g. ground (
    arith,
    find-create j key r,
    find-create k key r,
    eq_iff key j,
    eq_iff key k,
    c.fresh j i,
    c.fresh k i,
    c.apart j k i,
  );
}

-- Looking a key up, or making its instance, keeps the registry consistent: two keys never name one
-- instance, and every named instance was handed out before.
pub acquire-IsConsistent :
    (key : String) (own : Option ℕ) (r : Registry)
    → IsConsistent r
    → IsConsistent (acquire key own r).1
unfolding acquire
acquire-IsConsistent key own r c = elim (Bool-cases (must_create key own r)) [
  | inl p ↦ rw p (create-IsConsistent key r c)
  | inr p ↦ rw p c
]

-- Afterwards the key names the instance that the node got.
pub find-acquire_self :
    (key : String) (own : Option ℕ) (r : Registry)
    → let (o, r') = acquire key own r in (is_some o ≡ true) × (find key r'.entries ≡ o)
unfolding acquire must_create lock create
find-acquire_self key own r = ground (arith, find-create key key r, eq_refl key)

-- The instance was handed out by then.
pub acquire-bounds :
    (key : String) (own : Option ℕ) (r : Registry) (i : ℕ)
    → IsConsistent r
    → let (o, r') = acquire key own r in
      (r.next_instance ≤ r'.next_instance) × (o ≡ some i → i < r'.next_instance)
unfolding acquire create
acquire-bounds key own r i c = (
  ground arith,
  λ got. (acquire-IsConsistent key own r c).fresh key i ((find-acquire_self key own r).1 ∙ got),
)

pub find-acquire_ne :
    (j key : String) (own : Option ℕ) (r : Registry)
    → j ≢ key
    → find j (acquire key own r).1.entries ≡ find j r.entries
unfolding acquire
find-acquire_ne j key own r apart = ground (arith, find-create j key r, eq_iff key j)

pub acquire_found :
    (key : String) (own : Option ℕ) (r : Registry) (i : ℕ)
    → find key r.entries ≡ some i
    → contains r.held i ≡ true
    → (must_create key own r ≡ false) × (acquire key own r ≡ (some i, r))
unfolding acquire must_create lock expired
acquire_found key own r i named alive = ground arith

-- A second node with the same key gets the instance of the first, and makes none, as long as some
-- other node, such as the first, holds that instance.
acquire_shares :
    (key : String) (own other : Option ℕ) (held : List ℕ) (i : ℕ) (r : Registry)
    → (acquire key own r).0 ≡ some i
    → contains held i ≡ true
    → let r' = record ((acquire key own r).1) { held = held } in
      (must_create key other r' ≡ false) × (acquire key other r' ≡ (some i, r'))
acquire_shares key own other held i r got alive =
    acquire_found key other (record ((acquire key own r).1) { held = held }) i
      (ground (arith, find-acquire_self key own r)) alive

-- In a consistent registry, two nodes that look up different keys one after the other never get one
-- instance.
acquire_separates :
    (j k : String) (own other : Option ℕ) (held : List ℕ) (a b : ℕ) (r : Registry)
    → IsConsistent r
    → j ≢ k
    → (acquire j own r).0 ≡ some a
    → (acquire k other (record ((acquire j own r).1) { held = held })).0 ≡ some b
    → a ≢ b
acquire_separates j k own other held a b r c apart got_a got_b same =
    let r1 : Registry = record ((acquire j own r).1) { held = held } in
    let c1 : IsConsistent r1 = record {
      fresh = (acquire-IsConsistent j own r c).fresh;
      apart = (acquire-IsConsistent j own r c).apart;
    } in
    ground (
      arith,
      find-acquire_self j own r,
      find-acquire_ne j k other r1 apart,
      find-acquire_self k other r1,
      (acquire-IsConsistent k other r1 c1).apart j k a,
      apart,
    )
