-- ===== src/Backend/Middleware.antt =====
-- The limits on bodies and on time of a request (backend/src/nodeconductor/core/middleware.py). The
-- messages and the calls are those of the Agent's middleware.
use node_conductor.Base.{
  ℕ, ◌+◌, ◌≡◌, ◌∙◌, ap, inl, inr, Bool, true, false, List, [], ◌∷◌, ◌++◌, arith, ltb, not,
  if◌then◌else◌, length, Bool-cases,
}
use node_conductor.Agent.Middleware.{
  HttpMessage, disconnect, request, LengthHeader, absent, malformed, negative, bytes, Call,
  untouched, application, too_large, bad_length, waits, with_message, IsRequest, last, chunk,
  body_size,
}

-- The loop that reads the body; a disconnect ends it and is handed on.
unfoldable pub receive_body : ℕ → ℕ → List HttpMessage → Call
receive_body limit received [] = waits
receive_body limit received (disconnect ∷ ms) = application (disconnect ∷ [])
receive_body limit received (request body more ∷ ms) =
    let rest = receive_body limit (received + length body) ms in
    if ltb limit (received + length body)
    then too_large
    else if more
    then with_message (request body more) rest
    else application (request body more ∷ [])

abbrev pub after_header : ℕ → LengthHeader → List HttpMessage → Call
after_header limit malformed ms = bad_length
after_header limit (bytes n) ms = if ltb limit n then too_large else receive_body limit 0 ms
after_header limit negative ms = receive_body limit 0 ms
after_header limit absent ms = receive_body limit 0 ms

-- `RequestBodyLimitMiddleware.__call__`
unfoldable pub limit_request_body : ℕ → Bool → LengthHeader → List HttpMessage → Call
limit_request_body limit is_http header ms =
    if not is_http then untouched else after_header limit header ms

-- How the application's call ends within the time that `wait_for` gives it: by itself, or not, with
-- a response begun or not.
pub data AppEnd : Type 0 where
  completed : AppEnd
  timed_out : Bool → AppEnd

pub data Reply : Type 0 where
  of_application cut_off gateway_timeout : Reply

-- `RequestTimeoutMiddleware.__call__`
unfoldable pub limit_time : Bool → AppEnd → Reply
limit_time is_http completed = of_application
limit_time false (timed_out started) = of_application
limit_time true (timed_out started) = if started then cut_off else gateway_timeout

receive_body-request :
    (limit received : ℕ) {ms : List HttpMessage} (rest : List HttpMessage)
    → IsRequest ms
    → receive_body limit received (ms ++ rest)
      ≡ (if ltb limit (received + body_size ms) then too_large else application ms)
unfolding receive_body body_size
receive_body-request limit received rest (last body) = ground arith
receive_body-request limit received rest (chunk body {ms = ms} r) =
    elim (Bool-cases (ltb limit (received + length body))) [
      | inl over ↦ ground arith
      | inr within ↦ ground (arith, receive_body-request limit (received + length body) rest r)
    ]

-- A request without a content length reaches the application, with all of its messages and no
-- other, just when its body as a whole is within the limit; else the answer is 413.
pub request_body_is_limited :
    (limit : ℕ) {ms : List HttpMessage} (rest : List HttpMessage)
    → IsRequest ms
    → limit_request_body limit true absent (ms ++ rest)
      ≡ (if ltb limit (body_size ms) then too_large else application ms)
unfolding limit_request_body
request_body_is_limited limit {ms = ms} rest r =
    receive_body-request limit 0 rest r
    ∙ ap (λ n. if ltb limit n then too_large else application ms) (omega arith)
