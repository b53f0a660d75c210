-- ===== src/Agent/Tests/Edges.antt =====
-- What comes from outside: labels of a container, the body of a request, a file of projects.
use node_conductor.Base.{
  ℕ, ◌≡◌, refl, ◌++◌, Bool, true, false, some, List, [], ◌∷◌, ◌==◌, ltb, if◌then◌else◌,
}
use node_conductor.Agent.Gateway.{
  Chars, same_chars, str, Object, get, strip_left, strip_right, strip, any_unsafe,
  safe_compose_label, LabelNames, compose_metadata,
}
use node_conductor.Agent.Gateway.Labels.{IsLabel, coherent-labels}
use node_conductor.Agent.Middleware.{
  HttpMessage, request, bytes, too_large, application, limit_body, last, chunk, body_size,
  body_is_limited,
}
use node_conductor.Agent.Registry.{
  string, integer, array, ProjectTable, FileSystem, ComposeProjectDefinition, all_name_characters,
  is_project_name, absolute_path, resolved_directory, resolved_file, resolved_files, any_chars,
  has_duplicates, parse_project, parse_projects, load_or_unavailable, look_up, get_project,
}
use node_conductor.Agent.Registry.Allowed.{IsAllowed, registry-IsAllowed}

abbrev is_blank : ℕ → Bool
is_blank c = c == 32

abbrev label_names : LabelNames
label_names = record { project = 112 ∷ []; service = 115 ∷ [] }

-- The project " ab " and the service "c".
abbrev labels : Object
labels = (112 ∷ [], str (32 ∷ 97 ∷ 98 ∷ 32 ∷ [])) ∷ (115 ∷ [], str (99 ∷ [])) ∷ []

coherent-labels_example :
    (p : Chars) × (s : Chars) × (some (97 ∷ 98 ∷ []) ≡ some p)
    × (some (99 ∷ []) ≡ some s)
    × IsLabel is_blank p
    × IsLabel is_blank s
unfolding compose_metadata get same_chars safe_compose_label strip strip_left strip_right any_unsafe
coherent-labels_example =
    coherent-labels is_blank label_names (some labels) (some (97 ∷ 98 ∷ [])) (some (99 ∷ [])) refl

-- Five bytes in two messages, where four are allowed.
abbrev two_messages : List HttpMessage
two_messages = request (1 ∷ 2 ∷ 3 ∷ []) true ∷ request (4 ∷ 5 ∷ []) false ∷ []

body_is_limited_example :
    limit_body 4 true (bytes 4) (two_messages ++ [])
    ≡ (if ltb 4 (body_size two_messages) then too_large else application two_messages)
body_is_limited_example =
    body_is_limited 4 (bytes 4) [] (chunk (1 ∷ 2 ∷ 3 ∷ []) (last (4 ∷ 5 ∷ []))) refl

-- Every path is absolute and leads to itself, and is a directory and a file.
abbrev any_path : FileSystem
any_path = record {
  is_absolute = λ p. true;
  resolve = λ p. some p;
  is_dir = λ p. true;
  is_file = λ p. true;
}

abbrev web : Chars
web = 119 ∷ 101 ∷ 98 ∷ []

abbrev web_table : ProjectTable
web_table = record {
  project_name = some (string web);
  working_directory = some (string (47 ∷ []));
  compose_files = some (array (some (47 ∷ 97 ∷ []) ∷ some (47 ∷ 98 ∷ []) ∷ []));
  stop_timeout_seconds = some (integer 30);
  has_more = false;
}

abbrev web_project : ComposeProjectDefinition
web_project = record {
  project_name = web;
  working_directory = 47 ∷ [];
  compose_files = (47 ∷ 97 ∷ []) ∷ (47 ∷ 98 ∷ []) ∷ [];
  stop_timeout_seconds = 30;
}

registry-IsAllowed_example : IsAllowed any_path web web_project
unfolding get_project load_or_unavailable look_up parse_projects parse_project is_project_name
    all_name_characters same_chars resolved_directory absolute_path resolved_files resolved_file
    has_duplicates any_chars
registry-IsAllowed_example =
    registry-IsAllowed any_path (some ((web, web_table) ∷ [])) web web_project refl
