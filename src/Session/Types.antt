-- ===== src/Session/Types.antt =====
-- The records of src/nare/session.py: content blocks, messages, usage and the session.
use nare.Prelude.{ℕ, ◌+◌, Bool, ◌||◌, List, Option, none, some, Text}
use nare.Json.Value.{Value}

pub data Role : Type 0 where
  user assistant : Role

-- The blocks the program writes and reads. A missing signature is the empty text.
pub data Block : Type 0 where
  text : Text → Block
  thinking : Text → Text → Block
  redacted_thinking : Text → Block
  tool_use : Text → Text → Value → Block
  tool_result : Text → Text → Bool → Block
  other : Text → Block

pub record Message : Type 0 where
  pub role : Role
  pub content : List Block

-- Costs are whole numbers of a fixed small fraction of a dollar.
pub record Usage : Type 0 where
  pub input : ℕ
  pub output : ℕ
  pub cache_read : ℕ
  pub cache_write : ℕ
  pub cost : Option ℕ
  pub estimated : Bool

unfoldable pub total_tokens : Usage → ℕ
total_tokens u = u.input + u.output + u.cache_read + u.cache_write

unfoldable pub add_cost : Option ℕ → Option ℕ → Option ℕ
add_cost none b = none
add_cost (some a) none = none
add_cost (some a) (some b) = some (a + b)

-- `Usage.__add__`.
unfoldable pub add_usage : Usage → Usage → Usage
unfolding add_cost
add_usage a b = record {
  input = a.input + b.input;
  output = a.output + b.output;
  cache_read = a.cache_read + b.cache_read;
  cache_write = a.cache_write + b.cache_write;
  cost = add_cost a.cost b.cost;
  estimated = a.estimated || b.estimated;
}

pub data Status : Type 0 where
  working blocked done error : Status

-- One granted correction as the session logs it.
pub record Logged : Type 0 where
  pub kind : Text
  pub charged : Bool
  pub codes : List Text

-- What a read left as evidence: its path, digest and size, under the tool's name.
pub record Evidence : Type 0 where
  pub tool : Text
  pub path : Text
  pub sha256 : Text
  pub size : ℕ

pub record Budget : Type 0 where
  pub tokens : Option ℕ
  pub usd : Option ℕ

pub record Forked : Type 0 where
  pub session_id : Text
  pub turn : ℕ
  pub path : Option Text

-- An event, by its kind and text.
pub record Event : Type 0 where
  pub kind : Text
  pub text : Text

-- What the session remembers of the last request: its tokens as the provider counted them, and
-- the messages and the characters it had.
pub record Measured : Type 0 where
  pub tokens : ℕ
  pub messages : ℕ
  pub chars : ℕ

-- The tools a run was allowed, and the digest of those that are not built in.
pub record Recorded : Type 0 where
  pub tools : List Text
  pub external_sha256 : Option Text

-- A bash call that a policy rule decided.
pub record Ruled : Type 0 where
  pub tool_use_id : Text
  pub effect : Text
  pub patterns : List Text

pub record Session : Type 0 where
  pub id : Text
  pub messages : List Message
  pub usage : Usage
  pub status : Status
  pub questions : List Text
  pub stop_reason : Option Text
  pub error : Option Text
  pub turns : ℕ
  pub retries : ℕ
  pub tool_calls : ℕ
  pub cutoffs : ℕ
  pub last_input : Measured
  pub policy : Option Recorded
  pub budget : Budget
  pub output : Option Value
  pub schema_retried : Bool
  pub schema_stated : Bool
  pub ask_nudged : Bool
  pub schema_corrections : ℕ
  pub schema_correction_log : List Logged
  pub schema_errors_seen : List Text
  pub schema_fewest_errors : Option ℕ
  pub schema_sha256 : Option Text
  pub interrupted_at : Option Text
  pub process_groups : List ℕ
  pub evidence : List Evidence
  pub bash_rules : List Ruled
  pub forked_from : Option Forked
  pub events : List Event
