-- ===== src/Run/Prefix.antt =====
-- What a resume changes ahead of the conversation: `prefix_changes` and `state_schema`
-- (src/nare/loop.py).
use nare.Prelude.{
  ℕ, zero, suc, Bool, true, false, not, List, [], ◌∷◌, ◌++◌, Option, none, some, Text, codes, same,
  has, keep, add_new, join, decimal, ltb, if◌then◌else◌,
}
use nare.Json.Value.{Value}
use nare.Session.Types.{Session, Recorded}
use nare.Session.Reopen.{append_user_text}
use nare.Session.Thinking.{drop_signed_thinking}
use nare.Loop.Hold.{add_event, progress}
use nare.Step.Answer.{Schema}

-- Python's order of strings, by code points.
unfoldable pub precedes : Text → Text → Bool
precedes [] [] = false
precedes [] (d ∷ ds) = true
precedes (c ∷ cs) [] = false
precedes (c ∷ cs) (d ∷ ds) =
    let later = precedes cs ds in if ltb c d then true else if ltb d c then false else later

unfoldable pub insert_name : Text → List Text → List Text
unfolding precedes
insert_name t [] = t ∷ []
insert_name t (u ∷ us) =
    let rest = insert_name t us in if precedes t u then t ∷ u ∷ us else u ∷ rest

-- `sorted`.
unfoldable pub sorted_names : List Text → List Text
unfolding insert_name
sorted_names [] = []
sorted_names (t ∷ ts) = insert_name t (sorted_names ts)

-- The names of the first set that are not in the second, once each.
unfoldable pub minus : List Text → List Text → List Text
minus xs ys = keep (λ x. not (has x ys)) (add_new [] xs)

abbrev pub named : Text → List Text → List Text
named word [] = []
named word (n ∷ ns) = (word ++ join (codes ", ") (sorted_names (n ∷ ns))) ∷ []

abbrev pub tools_changed : List Text → List Text
tools_changed [] = []
tools_changed (p ∷ ps) = (codes "tools " ++ join (codes " and ") (p ∷ ps)) ∷ []

abbrev pub same_digest : Text → Option Text → Bool
same_digest d none = false
same_digest d (some e) = same d e

-- A digest is compared only where the record has one.
abbrev pub digest_changed : Option Text → Option Text → List Text
digest_changed none now = []
digest_changed (some d) now =
    if same_digest d now then [] else codes "the definitions of MCP tools" ∷ []

unfoldable pub prefix_changes : Option Recorded → Recorded → List Text
unfolding minus sorted_names
prefix_changes none now = []
prefix_changes (some recorded) now =
    tools_changed (
      named (codes "added ") (minus now.tools recorded.tools)
      ++ named (codes "removed ") (minus recorded.tools now.tools))
    ++ digest_changed recorded.external_sha256 now.external_sha256

abbrev pub dropped_text : ℕ → Text
dropped_text zero = codes "No signed thinking to drop"
dropped_text (suc n) =
    codes "Signed thinking dropped from "
    ++ (decimal (suc n)
        ++ (codes " blocks, since it is " ++ codes "bound to the tools it was made with"))

-- Signed thinking is bound to the tools it was made with.
abbrev pub on_changes : List Text → Session → Session
on_changes [] s = s
on_changes (c ∷ cs) s =
    let (messages, dropped) = drop_signed_thinking s.messages in
    add_event progress
      (codes "tool set changed on resume: "
        ++ (join (codes "; ") (c ∷ cs) ++ (codes ". " ++ dropped_text dropped)))
      (record s { messages = messages })

unfoldable pub resume_tools : Recorded → Session → Session
unfolding prefix_changes drop_signed_thinking add_event
resume_tools now s = record (on_changes (prefix_changes s.policy now) s) { policy = some now }

abbrev pub digest_differs : Text → Option Text → Bool
digest_differs digest none = false
digest_differs digest (some stated) = not (same stated digest)

-- An output that the schema now in force rejects is no answer of this run.
abbrev pub still_valid : Schema → Option Value → Option Value
still_valid schema none = none
still_valid schema (some v) = elim (schema.validate v) [ [] ↦ some v | e ∷ es ↦ none ]

-- `digest` is the schema's digest, `schema.restated` its instruction.
unfoldable pub state_schema : Schema → Text → Session → Session
unfolding append_user_text add_event
state_schema schema digest s =
    let told : Session =
      if not s.schema_stated
      then record (append_user_text s schema.restated) { schema_stated = true }
      else if digest_differs digest s.schema_sha256
      then record (add_event progress
          (codes "schema changed: this run validates against a different schema "
            ++ codes "from the one the session stated")
          (append_user_text s
            (codes "The required JSON Schema has changed. " ++ schema.restated))) {
              output = still_valid schema s.output;
            }
      else s in
    record told { schema_sha256 = some digest }
