-- ===== src/Api/Mux.antt =====
-- `http.ServeMux` as search-services/api/main.go uses it: patterns with a method, and `{id}` for
-- one segment. A path is the list of its segments, cleaned and decoded.
pub mod Laws
use microservice_comics.Base.{
  string_eq, ℕ, suc, String, Bool, true, false, List, [], ◌∷◌, Option, none, some, ◌==◌, ◌&&◌, ◌||◌,
  leb, any, if◌then◌else◌,
}

pub data Segment : Type 0 where
  literal : String → Segment
  id_wildcard : Segment

-- A pattern, with what it was registered for.
pub record Route (E : Type 0) : Type 0 where
  pub method : String
  pub pattern : List Segment
  pub endpoint : E

-- `r.PathValue("id")` for a path that the pattern matches. A wildcard takes no empty segment.
unfoldable pub path_value : List Segment → List String → Option String
path_value [] [] = some ""
path_value [] (s ∷ ss) = none
path_value (p ∷ ps) [] = none
path_value (literal l ∷ ps) (s ∷ ss) = let rest = path_value ps ss in if l == s then rest else none
path_value (id_wildcard ∷ ps) (s ∷ ss) = elim (path_value ps ss) [
  | none ↦ none
  | some rest ↦ if s == "" then none else some s
]

-- GET stands for HEAD, too.
abbrev pub takes_method : String → String → Bool
takes_method pattern method = pattern == method || (pattern == "GET" && method == "HEAD")

abbrev wildcards : List Segment → ℕ
wildcards [] = 0
wildcards (literal l ∷ ps) = wildcards ps
wildcards (id_wildcard ∷ ps) = suc (wildcards ps)

pub data Routed (E : Type 0) : Type 0 where
  no_path wrong_method : Routed E
  found : E → String → Routed E

module _ {E : Type 0} where
  -- A match: the number of wildcards, the endpoint and the path value.
  abbrev pub with_method : Route E → String → Option String → Option (ℕ × E × String)
  with_method r method none = none
  with_method r method (some id) =
      if takes_method r.method method then some (wildcards r.pattern, r.endpoint, id) else none

  -- Of two patterns that match a path, the one with fewer wildcards is the more specific.
  abbrev pub more_specific :
      Option (ℕ × E × String) → Option (ℕ × E × String) → Option (ℕ × E × String)
  more_specific none n = n
  more_specific (some m) none = some m
  more_specific (some m) (some n) = if leb m.0 n.0 then some m else some n

  unfoldable pub best_match : List (Route E) → String → List String → Option (ℕ × E × String)
  unfolding path_value
  best_match [] method path = none
  best_match (r ∷ rs) method path =
      more_specific (with_method r method (path_value r.pattern path)) (best_match rs method path)

  abbrev has_path : List String → Route E → Bool
  has_path path r = elim (path_value r.pattern path) [ none ↦ false | some id ↦ true ]

  abbrev pub outcome : Bool → Option (ℕ × E × String) → Routed E
  outcome has_path (some (n, e, id)) = found e id
  outcome true none = wrong_method
  outcome false none = no_path

  abbrev pub routed : List (Route E) → String → List String → Routed E
  routed rs method path = outcome (any (has_path path) rs) (best_match rs method path)
