-- ===== src/Compact/Elide.antt =====
-- The two tiers of elision: `_drop_thinking`, `estimate`, `compact` and `_elide_inputs`
-- (src/nare/compact.py). Images are left out, with the argument that says whether they are sent.
use nare.Prelude.{
  ℕ, ◌+◌, ◌-◌, ◌*◌, Bool, true, false, not, ◌&&◌, List, [], ◌∷◌, ◌++◌, map, Option, none, some,
  Text, leb, ltb, length, take, drop, keep, ◌==◌, if◌then◌else◌,
}
use nare.Json.Value.{Value}
use nare.Session.Types.{Measured, Role, user, assistant, Block, Message}
use nare.Session.Thinking.{sent_back, without_sent_thinking, drop_signed_thinking}
use nare.Compact.Stub.{calls_of, failed_of, elided_result, elided_input}

-- `size` is the length of `json.dumps` of the messages.
unfoldable pub context_chars : (List Message → ℕ) → List Message → ℕ
context_chars size ms =
    size (map {A = Message} {B = Message} (λ m. record m { content = keep sent_back m.content }) ms)

-- Four times the estimate, which is a whole number.
unfoldable pub estimate : (List Message → ℕ) → Measured → List Message → ℕ
unfolding context_chars
estimate size last ms =
    if last.tokens == 0
    then context_chars size ms
    else let appended = drop last.messages ms in
      let chars = if length appended == 0 then 0 else context_chars size appended in
      4 * last.tokens + context_chars size (take last.messages ms) + chars - last.chars

-- A content once the thinking that goes back is dropped from it, if it is.
abbrev pub view : Bool → List Block → List Block
view false content = content
view true content = without_sent_thinking content

abbrev pub view_all : Bool → List Message → List Message
view_all dropped ms =
    map {A = Message} {B = Message} (λ m. record m { content = view dropped m.content }) ms

-- A tier on its way: the blocks done of the message at hand, whether the thinking from there on
-- is dropped, and the counts.
pub record Tier : Type 0 where
  pub done : List Block
  pub dropped : Bool
  pub elided : ℕ
  pub thinking : ℕ

-- `fits` is the test of the estimate against 0.6 of the window, `elide` what the tier makes of a
-- block in a turn, `acts` whether the tier acts on a message of a role at an index.
module _ (fits : List Message → Bool) (elide : ℕ → Block → Option Block)
    (acts : Role → ℕ → Bool) where
  -- An elision: every thinking block that goes back is dropped from this message on.
  unfoldable pub replaced : Message → Tier → Block → List Block → List Message → Tier
  replaced m t stub blocks rest =
      let now =
        record m { content = t.done ++ stub ∷ view t.dropped blocks } ∷ view_all t.dropped rest in
      record {
        done = without_sent_thinking (t.done ++ stub ∷ []);
        dropped = true;
        elided = t.elided + 1;
        thinking = t.thinking + (drop_signed_thinking now).1;
      }

  -- One block. Asking whether the session fits changes nothing, so that it is asked once for a
  -- block that can be elided, and that a tier which stops where it fits goes on without effect.
  unfoldable pub one_block :
      ℕ → List Message → Message → Tier → Block → List Block → List Message → Tier
  unfolding replaced
  one_block turn before m t block blocks rest = elim (elide turn block) [
    | none ↦ record t { done = t.done ++ view t.dropped (block ∷ []) }
    | some stub ↦
        if fits (
          before
          ++ record m { content = t.done ++ view t.dropped (block ∷ blocks) }
            ∷ view_all t.dropped rest)
        then record t { done = t.done ++ view t.dropped (block ∷ []) }
        else replaced m t stub blocks rest
  ]

  unfoldable pub blocks_from : ℕ → List Message → Message → Tier → List Block → List Message → Tier
  unfolding one_block
  blocks_from turn before m t [] rest = t
  blocks_from turn before m t (b ∷ bs) rest =
      blocks_from turn before m (one_block turn before m t b bs rest) bs rest

  abbrev pub turn_after : Role → ℕ → ℕ
  turn_after user turn = turn
  turn_after assistant turn = turn + 1

  abbrev pub start : Tier → Tier
  start t = record t { done = [] }

  unfoldable pub one_message : ℕ → ℕ → List Message → Tier → Message → List Message → Tier
  unfolding blocks_from
  one_message i turn before t m rest =
      if acts m.role i
      then blocks_from (turn_after m.role turn) before m (start t) m.content rest
      else record t { done = view t.dropped m.content }

  -- The messages from an index on, after those done.
  unfoldable pub messages_from : ℕ → ℕ → List Message → Tier → List Message → List Message × Tier
  unfolding one_message
  messages_from i turn before t [] = (before, t)
  messages_from i turn before t (m ∷ ms) =
      let after = one_message i turn before t m ms in
      messages_from (i + 1) (turn_after m.role turn)
        (before ++ record m { content = after.done } ∷ []) after ms

abbrev pub at_start : Tier
at_start = record { done = []; dropped = false; elided = 0; thinking = 0 }

-- `assistant_indices[-2]`, where there are two.
unfoldable pub second_last : ℕ → ℕ → ℕ → List Message → ℕ
second_last i before at [] = before
second_last i before at (m ∷ ms) = elim m.role [
  | user ↦ second_last (i + 1) before at ms
  | assistant ↦ second_last (i + 1) at i ms
]

unfoldable pub protected_from : List Message → ℕ
unfolding second_last
protected_from ms = second_last 0 0 0 ms

abbrev pub acts_on_results : ℕ → Role → ℕ → Bool
acts_on_results bound user i = ltb 0 i && ltb i bound
acts_on_results bound assistant i = false

abbrev pub acts_on_inputs : ℕ → Role → ℕ → Bool
acts_on_inputs bound user i = false
acts_on_inputs bound assistant i = ltb i bound

-- Estimates are four times what the source has, and its limits are written over 10.
pub record CompactionReport : Type 0 where
  pub elided : ℕ
  pub before : ℕ
  pub after : ℕ
  pub window : ℕ
  pub inputs : ℕ
  pub thinking : ℕ

unfoldable pub is_full : ℕ → ℕ → Bool
is_full window estimated = leb (window * 32) (estimated * 10)

unfoldable pub is_small : ℕ → ℕ → Bool
is_small window estimated = leb (estimated * 10) (window * 24)

module _ (size : List Message → ℕ) (shown : Value → Text) where
  unfoldable pub elide_results : Measured → ℕ → List Message → List Message × Tier
  unfolding estimate is_small protected_from calls_of elided_result messages_from
  elide_results last window ms =
      messages_from (λ now. is_small window (estimate size last now))
        (elided_result (calls_of [] ms)) (acts_on_results (protected_from ms)) 0 0 [] at_start ms

  unfoldable pub elide_inputs : Measured → ℕ → ℕ → List Message → List Message × Tier
  unfolding estimate is_small failed_of elided_input messages_from
  elide_inputs last window bound ms =
      messages_from (λ now. is_small window (estimate size last now))
        (elided_input shown (failed_of ms)) (acts_on_inputs bound) 0 0 [] at_start ms

  -- The messages after, and the report where something was elided.
  unfoldable pub compact : Measured → ℕ → List Message → List Message × Option CompactionReport
  unfolding estimate is_full protected_from elide_results elide_inputs
  compact last window ms =
      if not (is_full window (estimate size last ms))
      then (ms, none)
      else let (middle, results) = elide_results last window ms in
        let (after, inputs) = elide_inputs last window (protected_from ms) middle in
        (
          after,
          if results.elided + inputs.elided == 0
              then none
              else some (record {
                elided = results.elided;
                before = estimate size last ms;
                after = estimate size last after;
                window = window;
                inputs = inputs.elided;
                thinking = results.thinking + inputs.thinking;
              }),
        )
