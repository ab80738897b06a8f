-- ===== src/RosLogger/Columns.antt =====
-- Where the columns of the log stand.
use behavior_tree_ros.BtUtils.{drop, size}
use behavior_tree_ros.RosLogger.{padding, min, ws_count, whitespaces}
use behavior_tree_ros.Prelude.{ℕ, String, ◌≡◌, ◌≤◌, ◌-◌, ◌+◌, suc, arith, if◌then◌else◌, ltb, zero}

size-drop : (n : ℕ) (s : String) → size (drop n s) ≡ size s - n
unfolding drop
size-drop zero s = ground arith
size-drop (suc n) String.[] = ground arith
size-drop (suc n) (String.◌∷◌ c s) = ground (arith, size-drop n s)

-- The index into the array of blanks never leaves it, its closing zero included, and the name with
-- its padding fills 25 columns exactly, or all that the name takes where that is more.
padding-size :
    (name : String)
    → (min ws_count (size name) ≤ size whitespaces)
      × (size name + size (padding name)
          ≡ (if ltb (size name) ws_count then ws_count else size name))
unfolding padding min
padding-size name = (ground arith, ground (arith, size-drop (min ws_count (size name)) whitespaces))
