-- ===== src/Backend/Client.antt =====
-- The client of an Agent (backend/src/nodeconductor/services/agent_client.py). What httpx, json,
-- pydantic and urllib answer is an argument.
use node_conductor.Base.{
  ℕ, zero, suc, Bool, Option, none, some, List, [], ◌∷◌, ◌++◌, ◌||◌, not, ◌==◌, ltb, min,
  if◌then◌else◌, length,
}
use node_conductor.Backend.Inventory.{
  SyncError, response_invalid, response_too_large, agent_unavailable, credentials_unavailable,
  credentials_invalid, deadline_expired, https_endpoint_invalid, Checked, fine, error,
}
use node_conductor.Backend.Targets.{AgentTransport, unix_socket, https, Connection}

-- One request: an error of httpx, or a status with the chunks of the body.
pub data Exchange : Type 0 where
  http_error : Exchange
  response : ℕ → List (List ℕ) → Exchange

-- What `json.loads` makes of a body: no JSON, JSON that is no object, or an object.
pub data Parsed {ℓ} (P : Type ℓ) : Type ℓ where
  no_json no_object : Parsed P
  object : P → Parsed P

-- The loop of `_read_json`, with the bytes so far.
unfoldable pub read_body : ℕ → List ℕ → List (List ℕ) → Checked (List ℕ)
read_body limit body [] = fine body
read_body limit body (chunk ∷ chunks) =
    let rest = read_body limit (body ++ chunk) chunks in
    if ltb limit (length (body ++ chunk)) then error response_too_large else rest

module _ {P A : Type 0} (parse : List ℕ → Parsed P) (validate : P → Option A) where
  abbrev pub payload_of : Parsed P → Checked P
  payload_of no_json = error response_invalid
  payload_of no_object = error response_invalid
  payload_of (object p) = fine p

  abbrev pub parsed_body : Checked (List ℕ) → Checked P
  parsed_body (error e) = error e
  parsed_body (fine body) = payload_of (parse body)

  -- `_read_json`
  unfoldable pub read_json : ℕ → List (List ℕ) → Checked P
  read_json limit chunks = parsed_body (read_body limit [] chunks)

  abbrev pub validated : Option A → Checked A
  validated none = error response_invalid
  validated (some a) = fine a

  abbrev pub validated_payload : Checked P → Checked A
  validated_payload (error e) = error e
  validated_payload (fine p) = validated (validate p)

  -- `_get`
  unfoldable pub get : ℕ → Exchange → Checked A
  get limit http_error = error agent_unavailable
  get limit (response status chunks) =
      if not (status == 200)
      then error agent_unavailable
      else validated_payload (read_json limit chunks)

pub record Timeout : Type 0 where
  pub connect : ℕ
  pub read : ℕ
  pub write : ℕ
  pub pool : ℕ

-- `configured or remaining`, where zero counts as missing.
abbrev pub or_remaining : Option ℕ → ℕ → ℕ
or_remaining none remaining = remaining
or_remaining (some zero) remaining = remaining
or_remaining (some (suc n)) remaining = suc n

-- `_bounded_timeout`; what is not positive is zero here.
unfoldable pub bounded_timeout : Option ℕ → Option ℕ → ℕ → Checked Timeout
bounded_timeout connect_timeout response_timeout zero = error deadline_expired
bounded_timeout connect_timeout response_timeout (suc n) =
    let connect = min (suc n) (or_remaining connect_timeout (suc n)) in
    let answer = min (suc n) (or_remaining response_timeout (suc n)) in
    fine (record { connect = connect; read = answer; write = answer; pool = connect })

-- What `urlparse` finds in an endpoint.
pub record ParsedUrl : Type 0 where
  pub is_https : Bool
  pub has_hostname : Bool
  pub has_username : Bool
  pub has_password : Bool

-- `_base_url`: whether it raises.
unfoldable pub base_url_error : AgentTransport → ParsedUrl → Option SyncError
base_url_error unix_socket url = none
base_url_error https url =
    if not url.is_https || (not url.has_hostname || (url.has_username || url.has_password))
    then some https_endpoint_invalid
    else none

-- `_build_transport`: whether it raises. `resolve` says whether the credentials of a reference are
-- there, and `loads` whether a context can be made of them.
unfoldable pub transport_error : (ℕ → Bool) → (ℕ → Bool) → Connection → Option SyncError
transport_error resolve loads c = elim c.transport [
  | unix_socket ↦ none
  | https ↦ elim c.credential_ref [
    | none ↦ some credentials_unavailable
    | some ref ↦
        if not (resolve ref)
        then some credentials_unavailable
        else if not (loads ref)
        then some credentials_invalid
        else none
  ]
]

unfoldable pub flatten : List (List ℕ) → List ℕ
flatten [] = []
flatten (chunk ∷ chunks) = chunk ++ flatten chunks
