-- ===== src/Observability/Correlation.antt =====
-- app/observability/correlation.py: `CorrelationMiddleware.dispatch`.
use ai_backend_foundation.Action.{
  Action, Outcome, modify, ok, pure, raised, try_finally, ◌>>=◌, ◌>>◌,
}
use ai_backend_foundation.Http.{Edge, Endpoint, Response, on_response, set_header}
use ai_backend_foundation.Prelude.{
  Option, String, if◌then◌else◌, is_empty, is_some, none, not, some, suc, ◌||◌, refl, ◌≡◌,
}
use ai_backend_foundation.Shared.Types.{UuidModule}

-- The id for a request: the header's, if it is the text of a UUID, or a new one.
unfoldable pub choose_request_id : UuidModule → Option String → Edge → String × Edge
choose_request_id uuid none s = (uuid.str (uuid.uuid4 s.asked), record s { asked = suc s.asked })
choose_request_id uuid (some inbound) s =
    if is_empty inbound || not (is_some (uuid.parse inbound))
    then (uuid.str (uuid.uuid4 s.asked), record s { asked = suc s.asked })
    else (inbound, s)

-- `request_id_var.set(request_id)`: the token knows the value before.
unfoldable pub set_request_id_var : String → Action Edge String
set_request_id_var request_id s = (ok s.request_id_var, record s { request_id_var = request_id })

-- `request_id_var.reset(token)`
unfoldable pub reset_request_id_var : String → Action Edge (Unit {0})
reset_request_id_var token s = (ok tt, record s { request_id_var = token })

-- The rest of `dispatch` once the id is chosen.
unfoldable pub with_request_id : String → Endpoint → Endpoint
with_request_id request_id call_next = do
  modify (λ s. record s { state_request_id = request_id })
  token ← set_request_id_var request_id
  try_finally (do response ← call_next; pure (set_header "X-Request-ID" request_id response))
      (reset_request_id_var token)

unfoldable pub correlation : UuidModule → Option String → Endpoint → Endpoint
correlation uuid inbound call_next s =
    let (request_id, s') = choose_request_id uuid inbound s in
    with_request_id request_id call_next s'

-- The answer of the inner application with the header, or its exception, and the old value of the
-- context variable in both cases.
pub with_request_id_lem :
    (request_id : String) (call_next : Endpoint) (s : Edge)
    → (let (r, s') =
          call_next (record s { state_request_id = request_id; request_id_var = request_id }) in
        with_request_id request_id call_next s ≡ (
          on_response (set_header "X-Request-ID" request_id) r,
          record s' { request_id_var = s.request_id_var },
        ))
unfolding with_request_id set_request_id_var reset_request_id_var try_finally modify pure ◌>>=◌
with_request_id_lem request_id call_next s =
    finish (call_next (record s { state_request_id = request_id; request_id_var = request_id }))
  where
    finish :
        (o : Outcome Response × Edge)
        → with_request_id request_id (λ t. o) s ≡ (
          on_response (set_header "X-Request-ID" request_id) o.0,
          record o.1 { request_id_var = s.request_id_var },
        )
    finish (ok response, s') = refl
    finish (raised e, s') = refl
