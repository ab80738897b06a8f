-- ===== src/Registry/Threads/Sharing.antt =====
-- Which nodes share an instance, whatever the order of the threads' steps.
use behavior_tree_ros.Registry.Threads.{
  Pc, Shared, outside, creating, locking, gets_instance, goes, assign, Step, no_nodes, Reach,
  enters, next, looking, here, throws, misses, expires, makes, finds, fails, locks, loses, leaves,
  drops,
}
use behavior_tree_ros.Registry.{find, insert_or_assign}
use behavior_tree_ros.Registry.Sharing.{find-insert_or_assign}
use behavior_tree_ros.Prelude.{
  Bool, true, ◌≡◌, false, some, String, ◌<◌, ◌≢◌, Option, suc, if◌then◌else◌, str_eq, eq_iff,
  eq_refl, none, ◌↔◌, refl, ℕ, arith,
}

abbrev pub is_outside : Pc → Bool
is_outside outside = true
is_outside _ = false

pub record IsOrdered (s : Shared) : Type 0 where
  pub exclusive : (n : ℕ) → is_outside (s.nodes n).pc ≡ false → s.owner ≡ some n
  pub known : (k : String) (i : ℕ) → find k s.entries ≡ some i → i < s.next_instance
  pub apart : (j k : String) (i : ℕ) → find j s.entries ≡ some i → find k s.entries ≡ some i → j ≡ k
  pub listed :
      (n i : ℕ)
      → (s.nodes n).client_instance ≡ some i
      → find (s.nodes n).client_key s.entries ≡ some i
  pub unused :
      (n m : ℕ) (k : String) (i : ℕ)
      → (s.nodes n).pc ≡ creating k
      → find k s.entries ≡ some i
      → (s.nodes m).client_instance ≢ some i
  pub named :
      (n : ℕ) (k : String) (i : ℕ) → (s.nodes n).pc ≡ locking k i → find k s.entries ≡ some i

-- A node goes on in its call, or ends it.
goes-IsOrdered :
    (n : ℕ) (p : Pc) (w : Option ℕ) (s : Shared)
    → IsOrdered s
    → ((m : ℕ) → m ≢ n → is_outside (s.nodes m).pc ≡ false → w ≡ some m)
    → (is_outside p ≡ false → w ≡ some n)
    → ((m : ℕ) (k : String) (i : ℕ)
        → p ≡ creating k
        → find k s.entries ≡ some i
        → (s.nodes m).client_instance ≢ some i)
    → ((k : String) (i : ℕ) → p ≡ locking k i → find k s.entries ≡ some i)
    → IsOrdered (record (goes n p s) { owner = w })
goes-IsOrdered n p w s o others mine expired found = record {
  exclusive = λ m h. ground (arith, others m, mine);
  known = o.known;
  apart = o.apart;
  listed = λ m i h. ground (arith, o.listed m i);
  unused = λ m l k i h f. ground (arith, o.unused m l k i, expired l k i);
  named = λ m k i h. ground (arith, o.named m k i, found k i);
}

-- A node gets an instance that has an entry, or none.
gets-IsOrdered :
    (n : ℕ) (x : Option ℕ) (key : String) (s : Shared)
    → IsOrdered s
    → s.owner ≡ some n
    → ((i : ℕ) → x ≡ some i → find key s.entries ≡ some i)
    → IsOrdered (gets_instance n x key s)
gets-IsOrdered n x key s o own found = record {
  exclusive = λ m h. ground (arith, o.exclusive m);
  known = o.known;
  apart = o.apart;
  listed = λ m i h. ground (arith, o.listed m i, found i);
  unused = λ m l k i h f. ground (arith, o.unused m l k i, o.exclusive m);
  named = λ m k i h. ground (arith, o.named m k i);
}

makes-IsOrdered :
    (n : ℕ) (key : String) (s : Shared)
    → IsOrdered s
    → (s.nodes n).pc ≡ creating key
    → IsOrdered (record (gets_instance n (some s.next_instance) key s) {
      entries = insert_or_assign key s.next_instance s.entries;
      next_instance = suc s.next_instance;
    })
makes-IsOrdered n key s o now = record {
  exclusive = λ m h. ground (arith, o.exclusive m);
  known = λ k i h. ground (arith, entry k, o.known k i);
  apart = λ j k i h g. ground (
    arith,
    entry j,
    entry k,
    eq_iff key j,
    eq_iff key k,
    o.known j i,
    o.known k i,
    o.apart j k i,
  );
  listed = λ m i h. ground (
    arith,
    o.listed m i,
    entry key,
    entry (s.nodes m).client_key,
    eq_iff key (s.nodes m).client_key,
    eq_refl key,
    o.unused n m key i now,
  );
  unused = λ m l k i h f. ground (arith, o.exclusive m, o.exclusive n);
  named = λ m k i h. ground (arith, o.exclusive m, o.exclusive n);
}
  where
    entry :
        (k : String)
        → find k (insert_or_assign key s.next_instance s.entries)
          ≡ (if str_eq key k then some s.next_instance else find k s.entries)
    entry k = find-insert_or_assign k key s.next_instance s.entries

drops-IsOrdered :
    (n : ℕ) (s : Shared)
    → IsOrdered s
    → IsOrdered
        (record s { nodes = assign n (record (s.nodes n) { client_instance = none }) s.nodes })
drops-IsOrdered n s o = record {
  exclusive = λ m h. ground (arith, o.exclusive m);
  known = o.known;
  apart = o.apart;
  listed = λ m i h. ground (arith, o.listed m i);
  unused = λ m l k i h f. ground (arith, o.unused m l k i);
  named = λ m k i h. ground (arith, o.named m k i);
}

module _ {s : Shared} (o : IsOrdered s) (n : ℕ) where
  -- The others' claims to the mutex, while this node has it.
  alone : (m : ℕ) → s.owner ≡ some n → m ≢ n → is_outside (s.nodes m).pc ≡ false → ⊥
  alone m own apart inside = ground (arith, o.exclusive m)

  -- The node goes on in its call.
  goes_on :
      (p : Pc)
      → is_outside (s.nodes n).pc ≡ false
      → ((m : ℕ) (k : String) (i : ℕ)
          → p ≡ creating k
          → find k s.entries ≡ some i
          → (s.nodes m).client_instance ≢ some i)
      → ((k : String) (i : ℕ) → p ≡ locking k i → find k s.entries ≡ some i)
      → IsOrdered (goes n p s)
  goes_on p inside expired found =
      goes-IsOrdered n p s.owner s o (λ m apart h. o.exclusive m h) (λ h. o.exclusive n inside)
        expired found

  -- The call ends, and gives the mutex back.
  goes_out :
      is_outside (s.nodes n).pc ≡ false → IsOrdered (record (goes n outside s) { owner = none })
  goes_out inside =
      goes-IsOrdered n outside none s o
        (λ m apart h. absurd (alone m (o.exclusive n inside) apart h)) (λ h. cc) (λ m k i h f g. cc)
        (λ k i h. cc)

Step-IsOrdered : {s t : Shared} → Step s t → IsOrdered s → IsOrdered t
Step-IsOrdered {s} (enters n key p free) o =
    goes-IsOrdered n (looking key) (some n) s o (λ m apart h. ground (arith, o.exclusive m))
      (λ h. refl) (λ m k i h f g. cc) (λ k i h. cc)
Step-IsOrdered {s} (throws n key p) o = goes_out o n (ground arith)
Step-IsOrdered {s} (misses n key p missing) o =
    goes_on o n (creating key) (ground arith) (λ m k i h f. ground arith) (λ k i h. cc)
Step-IsOrdered {s} (expires n j key p found gone) o =
    goes_on o n (creating key) (ground arith) (λ m k i h f. ground (arith, gone m)) (λ k i h. cc)
Step-IsOrdered {s} (makes n key p) o = makes-IsOrdered n key s o p
Step-IsOrdered {s} (fails n key p) o = goes_out o n (ground arith)
Step-IsOrdered {s} (finds n j key p found alive) o =
    goes_on o n (locking key j) (ground arith) (λ m k i h f g. cc) (λ k i h. ground arith)
Step-IsOrdered {s} (locks n j key p alive) o =
    gets-IsOrdered n (some j) key s o (o.exclusive n (ground arith))
      (λ i h. ground (arith, o.named n key j p))
Step-IsOrdered {s} (loses n j key p gone) o =
    gets-IsOrdered n none key s o (o.exclusive n (ground arith)) (λ i h. cc)
Step-IsOrdered {s} (leaves n i p has) o = goes_out o n (ground arith)
Step-IsOrdered {s} (drops n p) o = drops-IsOrdered n s o

no_nodes-IsOrdered : IsOrdered no_nodes
unfolding find
no_nodes-IsOrdered = record {
  exclusive = λ n h. cc;
  known = λ k i h. cc;
  apart = λ j k i h g. cc;
  listed = λ n i h. cc;
  unused = λ n m k i h f. cc;
  named = λ n k i h. cc;
}

pub Reach-IsOrdered : {s : Shared} → Reach no_nodes s → IsOrdered s
Reach-IsOrdered here = no_nodes-IsOrdered
Reach-IsOrdered (next r st) = Step-IsOrdered st (Reach-IsOrdered r)

-- Nodes that call `createClient` in any number of threads, with the threads' steps in any order and
-- nodes destroyed in between, from an empty registry on: two nodes that have instances have the
-- same one exactly if they got them under the same key.
pub threads_share :
    (s : Shared) (m n i j : ℕ)
    → Reach no_nodes s
    → (s.nodes m).client_instance ≡ some i
    → (s.nodes n).client_instance ≡ some j
    → ((s.nodes m).client_key ≡ (s.nodes n).client_key) ↔ (i ≡ j)
threads_share s m n i j r has_m has_n =
    let o = Reach-IsOrdered r in
    let p = o.listed m i has_m in
    let q = o.listed n j has_n in
    (
      λ same. ground (arith, p, q, same),
      λ same. o.apart (s.nodes m).client_key (s.nodes n).client_key i p (ground (arith, q, same)),
    )
