-- ===== src/Agent/Middleware.antt =====
-- The limit on request bodies (agent/src/nodeconductor_agent/middleware.py). A body is a list of
-- bytes; the messages are what `receive` gives, one after the other.
use node_conductor.Base.{
  ℕ, suc, ◌+◌, ◌≡◌, ◌∙◌, ap, inl, inr, Bool, true, false, List, [], ◌∷◌, ◌++◌, arith, ltb, not,
  zero, if◌then◌else◌, length, Bool-cases,
}

pub data HttpMessage : Type 0 where
  disconnect : HttpMessage
  request : List ℕ → Bool → HttpMessage

-- The value of the header `content-length`, if there is one: a number, or none.
pub data LengthHeader : Type 0 where
  absent malformed negative : LengthHeader
  bytes : ℕ → LengthHeader

-- What one call comes to: the application with the messages that it will receive, the response
-- 413 or 400, a return without a response, or the wait for a message that does not come.
pub data Call : Type 0 where
  untouched : Call
  application : List HttpMessage → Call
  too_large bad_length returns waits : Call

abbrev pub with_message : HttpMessage → Call → Call
with_message m (application ms) = application (m ∷ ms)
with_message m c = c

-- The loop that reads the body, with the size so far.
unfoldable pub collect : ℕ → ℕ → List HttpMessage → Call
collect limit size [] = waits
collect limit size (disconnect ∷ ms) = returns
collect limit size (request body more ∷ ms) =
    let rest = collect limit (size + length body) ms in
    if ltb limit (size + length body)
    then too_large
    else if more
    then with_message (request body more) rest
    else application (request body more ∷ [])

-- `content_length is not None and content_length > self.max_body_bytes`
abbrev pub announces_more : ℕ → LengthHeader → Bool
announces_more limit (bytes n) = ltb limit n
announces_more limit _ = false

-- `RequestBodyLimitMiddleware.__call__`
unfoldable pub limit_body : ℕ → Bool → LengthHeader → List HttpMessage → Call
limit_body limit is_http header ms =
    if not is_http
    then untouched
    else if announces_more limit header
    then too_large
    else collect limit 0 ms

-- The k-th message that `replay_receive` gives.
unfoldable pub replay_receive : List HttpMessage → ℕ → HttpMessage
replay_receive [] k = disconnect
replay_receive (m ∷ ms) zero = m
replay_receive (m ∷ ms) (suc k) = replay_receive ms k

-- The messages of one request: each but the last says that more follow.
pub data IsRequest : List HttpMessage → Type 0 where
  last : (body : List ℕ) → IsRequest (request body false ∷ [])
  chunk :
      (body : List ℕ) {ms : List HttpMessage} → IsRequest ms → IsRequest (request body true ∷ ms)

unfoldable pub body_size : List HttpMessage → ℕ
body_size [] = 0
body_size (disconnect ∷ ms) = body_size ms
body_size (request body more ∷ ms) = length body + body_size ms

collect-request :
    (limit size : ℕ) {ms : List HttpMessage} (rest : List HttpMessage)
    → IsRequest ms
    → collect limit size (ms ++ rest)
      ≡ (if ltb limit (size + body_size ms) then too_large else application ms)
unfolding collect body_size
collect-request limit size rest (last body) = ground arith
collect-request limit size rest (chunk body {ms = ms} r) =
    elim (Bool-cases (ltb limit (size + length body))) [
      | inl over ↦ ground arith
      | inr within ↦ ground (arith, collect-request limit (size + length body) rest r)
    ]

-- A request without a content length above the limit reaches the application, with all of its
-- messages and no other, just when its body as a whole is within the limit; else the answer is 413.
pub body_is_limited :
    (limit : ℕ) (header : LengthHeader) {ms : List HttpMessage} (rest : List HttpMessage)
    → IsRequest ms
    → announces_more limit header ≡ false
    → limit_body limit true header (ms ++ rest)
      ≡ (if ltb limit (body_size ms) then too_large else application ms)
unfolding limit_body
body_is_limited limit header {ms = ms} rest r h = rw h (
    collect-request limit 0 rest r
    ∙ ap (λ n. if ltb limit n then too_large else application ms) (omega arith))
