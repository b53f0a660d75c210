-- ===== src/Agent/Gateway.antt =====
-- What the Agent reads of Docker's answers (agent/src/nodeconductor_agent/docker_gateway.py): the
-- labels of a container, and the lists of containers. Texts are lists of code points here, since
-- their characters count; what Docker answers is an argument.
pub mod Labels
pub mod Containers
use node_conductor.Base.{
  ℕ, zero, suc, ◌+◌, Bool, true, false, Option, none, some, List, [], ◌∷◌, ◌++◌, ◌&&◌, ◌||◌, not,
  ◌==◌, ltb, leb, if◌then◌else◌, length, is_some,
}
use node_conductor.Agent.Schema.{ComposeClassification, coherent}

abbrev pub Chars : Type 0
Chars = List ℕ

unfoldable pub same_chars : Chars → Chars → Bool
same_chars [] [] = true
same_chars (x ∷ xs) (y ∷ ys) = x == y && same_chars xs ys
same_chars _ _ = false

-- A value of Docker's JSON: a string or something else.
pub data Value : Type 0 where
  str : Chars → Value
  other : Value

-- A JSON object, by its keys.
abbrev pub Object : Type 0
Object = List (Chars × Value)

unfoldable pub get : Chars → Object → Option Value
get k [] = none
get k ((j, v) ∷ xs) = let rest = get k xs in if same_chars k j then some v else rest

-- `str.strip`, where `is_space` says which characters are white space.
unfoldable pub strip_left : (ℕ → Bool) → Chars → Chars
strip_left is_space [] = []
strip_left is_space (c ∷ cs) =
    let rest = strip_left is_space cs in if is_space c then rest else c ∷ cs

unfoldable pub strip_right : (ℕ → Bool) → Chars → Chars
strip_right is_space [] = []
strip_right is_space (c ∷ cs) = elim (strip_right is_space cs) [
  | [] ↦ if is_space c then [] else c ∷ []
  | d ∷ ds ↦ c ∷ d ∷ ds
]

unfoldable pub strip : (ℕ → Bool) → Chars → Chars
strip is_space cs = strip_right is_space (strip_left is_space cs)

-- A control character, a slash or a backslash.
abbrev pub is_unsafe : ℕ → Bool
is_unsafe c = ltb c 32 || (c == 47 || c == 92)

unfoldable pub any_unsafe : Chars → Bool
any_unsafe [] = false
any_unsafe (c ∷ cs) = is_unsafe c || any_unsafe cs

abbrev pub is_empty : Chars → Bool
is_empty [] = true
is_empty (c ∷ cs) = false

abbrev pub is_refused : Chars → Bool
is_refused normalized =
    is_empty normalized || (ltb 255 (length normalized) || any_unsafe normalized)

-- `_safe_compose_label`; `labels.get` gives none for a missing key.
unfoldable pub safe_compose_label : (ℕ → Bool) → Option Value → Option Chars
safe_compose_label is_space none = none
safe_compose_label is_space (some other) = none
safe_compose_label is_space (some (str value)) =
    if is_refused (strip is_space value) then none else some (strip is_space value)

-- The names of the two labels.
pub record LabelNames : Type 0 where
  pub project : Chars
  pub service : Chars

abbrev pub classified : Bool → Option Chars → Option Chars → ComposeClassification
classified present (some p) (some s) = if present then coherent else ComposeClassification.ambiguous
classified present _ _ = ComposeClassification.ambiguous

-- `_compose_metadata`; there are no labels where `Config` or its `Labels` is no object.
unfoldable pub compose_metadata :
    (ℕ → Bool) → LabelNames → Option Object → ComposeClassification × Option Chars × Option Chars
compose_metadata is_space names none = (ComposeClassification.none, none, none)
compose_metadata is_space names (some labels) =
    let project_present = is_some (get names.project labels) in
    let service_present = is_some (get names.service labels) in
    let project = safe_compose_label is_space (get names.project labels) in
    let service = safe_compose_label is_space (get names.service labels) in
    if not project_present && not service_present
    then (ComposeClassification.none, none, none)
    else (classified (project_present && service_present) project service, project, service)
