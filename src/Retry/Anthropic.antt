-- ===== src/Retry/Anthropic.antt =====
-- What Anthropic's transport resends: `AnthropicTransport.transient`
-- (src/nare/transport/anthropic.py).
use nare.Prelude.{
  ℕ, List, [], ◌∷◌, Option, none, some, Text, codes, same, ltb, ◌==◌, ◌&&◌, if◌then◌else◌,
}
use nare.Retry.Failure.{Raised, Transient, status, overloaded, plain_reason, transient}

-- The two failures of an APIStatusError with this status and this type of error in its body.
unfoldable pub api_failure : Raised → Option Text → Option ℕ → Option Transient
unfolding same
api_failure e none code = none
api_failure e (some kind) none = none
api_failure e (some kind) (some code) =
    if same kind (codes "overloaded_error") && ltb code 400
    then some (plain_reason overloaded)
    else if code == 500
    then some (record { reason = status; code = some 500; retry_after = e.header_after })
    else none

-- The shared rule, after those two failures of the exception itself.
unfoldable pub anthropic_transient : List Raised → Option Transient
unfolding api_failure transient
anthropic_transient [] = transient []
anthropic_transient (e ∷ causes) = elim (api_failure e e.api_error e.status_code) [
  | some found ↦ some found
  | none ↦ transient (e ∷ causes)
]
