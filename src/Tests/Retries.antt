-- ===== src/Tests/Retries.antt =====
-- A request that fails once and is then answered (src/nare/loop.py, `_with_retries`).
use nare.Prelude.{codes, refl, same, ℕ, zero, suc, ◌≡◌, List, [], ◌∷◌, none, some}
use nare.Retry.{Raised, status, other}
use nare.Retry.Anthropic.{anthropic_transient}
use nare.Retry.Loop.{RetryPolicy, Attempt, reply, raised}

abbrev twice : RetryPolicy
twice = record { retries = 2; seconds = 60_000 }

abbrev failed_500 : List Raised
failed_500 =
    record {
      class = other;
      status_code = some 500;
      after = none;
      header_after = none;
      api_error = some (codes "api_error");
    }
    ∷ []

-- Anthropic's own rule resends a 500.
anthropic-resends :
    anthropic_transient failed_500
    ≡ some (record { reason = status; code = some 500; retry_after = none })
unfolding anthropic_transient same
anthropic-resends = refl

abbrev second_time : ℕ → Attempt ℕ
second_time zero = raised failed_500
second_time (suc n) = reply 7
