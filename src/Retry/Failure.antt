-- ===== src/Retry/Failure.antt =====
-- What a failed request raised, and whether it is worth resending
-- (src/nare/transport/__init__.py).
use nare.Prelude.{ℕ, Bool, List, [], ◌∷◌, Option, none, some, Text, ◌==◌, ◌||◌, if◌then◌else◌}

-- The reasons of `TransientReason`.
pub data Reason : Type 0 where
  timeout connection stream status overloaded : Reason

pub record Transient : Type 0 where
  pub reason : Reason
  pub code : Option ℕ
  pub retry_after : Option ℕ

-- The classes of exception that `transient` tells apart.
pub data Class : Type 0 where
  stream_dropped timeout_exception network_error protocol_error other : Class

-- One exception of a cause chain: its class, its `status_code` if that is an int, and the
-- seconds that its `retry_after` attribute or Retry-After header reads as, if they are finite
-- and not negative; the seconds of the header alone; and of an APIStatusError of Anthropic's SDK, the
-- `type` of the `error` in its body, empty where it has none.
pub record Raised : Type 0 where
  pub class : Class
  pub status_code : Option ℕ
  pub after : Option ℕ
  pub header_after : Option ℕ
  pub api_error : Option Text

unfoldable pub retry_status : ℕ → Bool
retry_status n = n == 429 || n == 502 || n == 503 || n == 504 || n == 529

-- The plain reasons carry no status and no wait.
abbrev pub plain_reason : Reason → Transient
plain_reason r = record { reason = r; code = none; retry_after = none }

-- The status test of one exception, on the code that it carries.
unfoldable pub by_status : Raised → Option ℕ → Option Transient
by_status e none = none
by_status e (some n) =
    if retry_status n
    then some (record { reason = status; code = some n; retry_after = e.after })
    else none

unfoldable pub classify : Class → Raised → Option Transient
unfolding by_status
classify stream_dropped e = some (plain_reason stream)
classify timeout_exception e = some (plain_reason timeout)
classify network_error e = some (plain_reason connection)
classify protocol_error e = some (plain_reason connection)
classify other e = by_status e e.status_code

-- The exception, then its `__cause__`, and so on: the first that is transient decides.
unfoldable pub transient : List Raised → Option Transient
unfolding classify
transient [] = none
transient (e ∷ causes) = elim (classify e.class e) [ none ↦ transient causes | some t ↦ some t ]
