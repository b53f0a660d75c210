-- ===== src/Agent/Registry.antt =====
-- The local allowlist of Compose projects (agent/src/nodeconductor_agent/compose_registry.py). The
-- file system and the TOML parser are arguments: what they answer for a path.
pub mod Fields
pub mod Allowed
use node_conductor.Base.{
  ℕ, zero, suc, ◌+◌, Text, Bool, true, false, Option, none, some, List, [], ◌∷◌, ◌&&◌, ◌||◌, not,
  ◌==◌, ltb, leb, if◌then◌else◌, length, is_none,
}
use node_conductor.Agent.Gateway.{Chars, same_chars}

-- A value of TOML, as far as the code tells values apart; an item of an array that is no string is
-- none.
pub data Toml : Type 0 where
  string : Chars → Toml
  integer : ℕ → Toml
  negative boolean other : Toml
  array : List (Option Chars) → Toml

-- A TOML table of one project, by its four fields, and whether it has any other.
pub record ProjectTable : Type 0 where
  pub project_name : Option Toml
  pub working_directory : Option Toml
  pub compose_files : Option Toml
  pub stop_timeout_seconds : Option Toml
  pub has_more : Bool

-- What the operating system says of a path: whether it is absolute, what `resolve` makes of it, and
-- what stands there.
pub record FileSystem : Type 0 where
  pub is_absolute : Chars → Bool
  pub resolve : Chars → Option Chars
  pub is_dir : Chars → Bool
  pub is_file : Chars → Bool

pub record ComposeProjectDefinition : Type 0 where
  pub project_name : Chars
  pub working_directory : Chars
  pub compose_files : List Chars
  pub stop_timeout_seconds : ℕ

-- A letter in lower case or a digit; and these, `_` or `-`.
abbrev pub is_head_character : ℕ → Bool
is_head_character c = (leb 97 c && leb c 122) || (leb 48 c && leb c 57)

abbrev pub is_name_character : ℕ → Bool
is_name_character c = is_head_character c || (c == 95 || c == 45)

unfoldable pub all_name_characters : Chars → Bool
all_name_characters [] = true
all_name_characters (c ∷ cs) = is_name_character c && all_name_characters cs

-- PROJECT_NAME_PATTERN
unfoldable pub is_project_name : Chars → Bool
is_project_name [] = false
is_project_name (c ∷ cs) = is_head_character c && (all_name_characters cs && leb (length cs) 254)

module _ (fs : FileSystem) where
  -- `_absolute_path`
  unfoldable pub absolute_path : Chars → Option Chars
  absolute_path [] = none
  absolute_path (c ∷ cs) = if fs.is_absolute (c ∷ cs) then fs.resolve (c ∷ cs) else none

  abbrev pub checked_path : (Chars → Bool) → Option Chars → Option Chars
  checked_path p none = none
  checked_path p (some path) = if p path then some path else none

  -- `_resolved_directory`
  unfoldable pub resolved_directory : Toml → Option Chars
  resolved_directory (string cs) = checked_path fs.is_dir (absolute_path cs)
  resolved_directory _ = none

  -- `_resolved_file`
  unfoldable pub resolved_file : Chars → Option Chars
  resolved_file cs = checked_path fs.is_file (absolute_path cs)

  abbrev pub joined : Option Chars → Option (List Chars) → Option (List Chars)
  joined (some f) (some fs') = some (f ∷ fs')
  joined _ _ = none

  -- Each item a string, and each string the path of a file.
  unfoldable pub resolved_files : List (Option Chars) → Option (List Chars)
  resolved_files [] = some []
  resolved_files (none ∷ items) = none
  resolved_files (some cs ∷ items) = joined (resolved_file cs) (resolved_files items)

  unfoldable pub any_chars : Chars → List Chars → Bool
  any_chars cs [] = false
  any_chars cs (d ∷ ds) = same_chars cs d || any_chars cs ds

  unfoldable pub has_duplicates : List Chars → Bool
  has_duplicates [] = false
  has_duplicates (d ∷ ds) = any_chars d ds || has_duplicates ds

  abbrev pub without_duplicates : Option (List Chars) → Option (List Chars)
  without_duplicates none = none
  without_duplicates (some files) = if has_duplicates files then none else some files

  abbrev pub checked_files : Toml → Option (List Chars)
  checked_files (array []) = none
  checked_files (array (i ∷ items)) =
      if ltb 16 (length (i ∷ items)) then none else without_duplicates (resolved_files (i ∷ items))
  checked_files _ = none

  abbrev pub checked_timeout : Toml → Option ℕ
  checked_timeout (integer n) = if ltb n 1 || ltb 300 n then none else some n
  checked_timeout _ = none

  abbrev pub checked_name : Chars → Toml → Option Chars
  checked_name registry_name (string cs) =
      if same_chars cs registry_name && is_project_name cs then some cs else none
  checked_name registry_name _ = none

  abbrev pub defined :
      Option Chars → Option Chars → Option (List Chars) → Option ℕ → Option ComposeProjectDefinition
  defined (some name) (some directory) (some files) (some timeout) = some (record {
    project_name = name;
    working_directory = directory;
    compose_files = files;
    stop_timeout_seconds = timeout;
  })
  defined _ _ _ _ = none

  abbrev pub parse_fields :
      Chars
      → Option Toml
      → Option Toml
      → Option Toml
      → Option Toml
      → Option ComposeProjectDefinition
  parse_fields registry_name (some n) (some d) (some f) (some t) =
      defined (checked_name registry_name n) (resolved_directory d) (checked_files f)
        (checked_timeout t)
  parse_fields registry_name _ _ _ _ = none

  -- `_parse_project`, none for a `ComposeRegistryError`.
  unfoldable pub parse_project : Chars → ProjectTable → Option ComposeProjectDefinition
  parse_project registry_name t =
      if not (is_project_name registry_name) || t.has_more
      then none
      else parse_fields registry_name t.project_name t.working_directory t.compose_files
          t.stop_timeout_seconds

  abbrev pub parsed_with :
      Chars
      → Option ComposeProjectDefinition
      → Option (List (Chars × ComposeProjectDefinition))
      → Option (List (Chars × ComposeProjectDefinition))
  parsed_with name (some d) (some ds) = some ((name, d) ∷ ds)
  parsed_with name _ _ = none

  -- The loop over the tables in `load`: one bad project refuses the file.
  unfoldable pub parse_projects :
      List (Chars × ProjectTable) → Option (List (Chars × ComposeProjectDefinition))
  parse_projects [] = some []
  parse_projects ((name, t) ∷ ts) = parsed_with name (parse_project name t) (parse_projects ts)

-- `ComposeProjectRegistry`
pub record Registry : Type 0 where
  pub projects : List (Chars × ComposeProjectDefinition)
  pub usable : Bool

abbrev pub registry_of : Option (List (Chars × ComposeProjectDefinition)) → Registry
registry_of none = record { projects = []; usable = false }
registry_of (some ds) = record { projects = ds; usable = true }

-- `load_or_unavailable`, from the tables of the file, or none where `load` gets no such tables.
unfoldable pub load_or_unavailable : FileSystem → Option (List (Chars × ProjectTable)) → Registry
load_or_unavailable fs none = registry_of none
load_or_unavailable fs (some tables) = registry_of (parse_projects fs tables)

unfoldable pub look_up :
    Chars → List (Chars × ComposeProjectDefinition) → Option ComposeProjectDefinition
look_up name [] = none
look_up name ((n, d) ∷ ds) =
    let rest = look_up name ds in if same_chars name n then some d else rest

-- `get`
unfoldable pub get_project : Chars → Registry → Option ComposeProjectDefinition
get_project name r = if r.usable then look_up name r.projects else none

abbrev pub is_empty_list {ℓ} : {A : Type ℓ} → List A → Bool
is_empty_list [] = true
is_empty_list (x ∷ xs) = false

unfoldable pub has_projects : Registry → Bool
has_projects r = r.usable && not (is_empty_list r.projects)
