-- ===== src/Config/Labels.antt =====
-- internal/config/config.go, `parseLabelsEnv`: the labels that the environment gives a node.
use Prim.Native.Char.{Char, code}
use compute_agent.Base.{
  ℕ, String, Option, none, some, List, [], ◌∷◌, ◌||◌, ◌==◌, is_blank, trim_space, after_char,
  if◌then◌else◌,
}
use compute_agent.Base.Dict
use compute_agent.Base.Dict.{Dict}

abbrev pub push_char : Char → List String → List String
push_char c [] = String.◌∷◌ c "" ∷ []
push_char c (s ∷ ss) = String.◌∷◌ c s ∷ ss

-- `strings.Split` at one character
unfoldable pub split : ℕ → String → List String
split sep String.[] = "" ∷ []
split sep (String.◌∷◌ c s) =
    let rest = split sep s in if code c == sep then "" ∷ rest else push_char c rest

-- What stands before and after the first such character.
unfoldable pub cut : ℕ → String → Option (String × String)
cut sep String.[] = none
cut sep (String.◌∷◌ c s) =
    let rest = cut sep s in if code c == sep then some ("", s) else after_char c rest

abbrev set_pair : Option (String × String) → Dict String → Dict String
set_pair none labels = labels
set_pair (some (before, after)) labels =
    let k = trim_space before in
    let v = trim_space after in
    if is_blank before || (is_blank k || is_blank v) then labels else Dict.put k v labels

-- One turn of the loop; a pair that is blank has no `=`.
unfoldable pub add_pair : String → Dict String → Dict String
unfolding cut
add_pair pair labels = set_pair (cut b'=' (trim_space pair)) labels

unfoldable pub add_pairs : List String → Dict String → Dict String
unfolding add_pair
add_pairs [] labels = labels
add_pairs (p ∷ ps) labels = add_pairs ps (add_pair p labels)

-- `parseLabelsEnv`
unfoldable pub parse_labels_env : String → Dict String
unfolding split add_pairs
parse_labels_env s = if is_blank s then [] else add_pairs (split b',' s) []
