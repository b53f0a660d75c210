-- ===== src/Backend/Tests/Client.antt =====
-- A response in two chunks.
use node_conductor.Base.{ℕ, Option, some, List, [], ◌∷◌, length}
use node_conductor.Backend.Client.{Parsed, object}

-- Any body is an object, and its length is what the model reads of it.
abbrev parse_length : List ℕ → Parsed ℕ
parse_length body = object (length body)

abbrev accept_any : ℕ → Option ℕ
accept_any n = some n

abbrev chunks : List (List ℕ)
chunks = (1 ∷ 2 ∷ []) ∷ (3 ∷ []) ∷ []
