-- ===== src/BtUtils/Paths.antt =====
-- `GetDirectoryPath`: what it makes of "package/subfolder", and of a value with no '/'.
use behavior_tree_ros.Prelude.{
  String, ◌≡◌, ℕ, false, none, some, ◌<>◌, arith, ◌<◌, Option-cases, suc, refl, inl, inr, ◌∙◌, ap,
}
use behavior_tree_ros.Program.{Outcome, faults, invalid_range, done, throws}
use text.Mathlib.TextLemmas.{nil-append, cons-append}
use native.Mathlib.Numerals.{add-one}
use Prim.Native.Char.{Char}
use behavior_tree_ros.BtUtils.{
  find_first_of, is_slash, take, search_directory, drop, size, get_directory_path,
}

-- A text with no '/'.
abbrev pub HasNoSlash : String → Type 0
HasNoSlash String.[] = Unit {0}
HasNoSlash (String.◌∷◌ c s) = (is_slash c ≡ false) × HasNoSlash s

find_first_of-none : (value : String) → HasNoSlash value → find_first_of value ≡ none
unfolding find_first_of
find_first_of-none String.[] h = refl
find_first_of-none (String.◌∷◌ c s) h = ground (arith, find_first_of-none s h.1)

-- The position of the first '/' never is the size, so the test that should catch a missing '/' is
-- never met.
find_first_of-lt-size :
    (value : String) (pos : ℕ) → find_first_of value ≡ some pos → pos < size value
unfolding find_first_of
find_first_of-lt-size String.[] pos h = cc
find_first_of-lt-size (String.◌∷◌ c s) pos h = elim (Option-cases (find_first_of s)) [
  | inl e ↦ ground arith
  | inr (k, e) ↦ ground (arith, find_first_of-lt-size s k e)
]

-- A parameter with no '/' has undefined behaviour, whatever packages there are: the code compares
-- the position with `size()`, and `find_first_of` returns `npos`.
pub get_directory_path_no_slash :
    (share : String → Outcome String) (value : String)
    → HasNoSlash value
    → get_directory_path share value ≡ faults invalid_range
unfolding get_directory_path
get_directory_path_no_slash share value h = rw (find_first_of-none value h, get_directory_path)

-- What is found at the first '/': the texts before and after it.
abbrev SplitsAt : String → String → String → Type 0
SplitsAt name subfolder value =
    (find_first_of value ≡ some (size name))
    × (take (size name) value ≡ name)
    × (drop (suc (size name)) value ≡ subfolder)

slash-append : (s : String) → "/" <> s ≡ String.◌∷◌ "/" s
slash-append s = cons-append "/" "" s ∙ ap (String.◌∷◌ "/") (nil-append s)

SplitsAt-head : (s : String) → SplitsAt "" s (String.◌∷◌ "/" s)
unfolding find_first_of take drop
SplitsAt-head s = (refl, refl, refl)

splits_cons :
    (c : Char) (name subfolder rest : String)
    → is_slash c ≡ false
    → SplitsAt name subfolder rest
    → SplitsAt (String.◌∷◌ c name) subfolder (String.◌∷◌ c rest)
unfolding find_first_of take drop
splits_cons c name subfolder rest h s = (rw (h, s.0), ap (String.◌∷◌ c) s.1, s.2)

splits :
    (name subfolder : String)
    → HasNoSlash name
    → SplitsAt name subfolder (name <> ("/" <> subfolder))
splits String.[] subfolder h =
    rw (nil-append ("/" <> subfolder), slash-append subfolder) (SplitsAt-head subfolder)
splits (String.◌∷◌ c s) subfolder h =
    rw (cons-append c s ("/" <> subfolder))
      (splits_cons c s subfolder (s <> ("/" <> subfolder)) h.0 (splits s subfolder h.1))

-- Where the package's name has no '/', "package/subfolder" leads to that subfolder of the package's
-- share directory, and to "" where the look-up of the package throws, whatever it throws; further
-- '/' stay in the subfolder.
pub get_directory_path_splits :
    (share : String → Outcome String) (name subfolder : String)
    → HasNoSlash name
    → get_directory_path share (name <> ("/" <> subfolder)) ≡ elim (share name) [
      | done directory ↦ done (directory <> "/" <> subfolder)
      | throws e ↦ done ""
      | faults u ↦ faults u
    ]
unfolding get_directory_path search_directory
get_directory_path_splits share name subfolder h =
    let s = splits name subfolder h in
    let p = find_first_of-lt-size (name <> ("/" <> subfolder)) (size name) s.0 in
    ground (arith, s, p, add-one (size name))
