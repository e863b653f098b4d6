-- ===== src/Loop/Nudge.antt =====
-- A question asked in prose, and the reply of a finished run: `_wrote_a_file`, `_nudge_question`,
-- `_final_text` and `final_text` (src/nare/loop.py).
use nare.Prelude.{
  ◌≡◌, refl, sym, ap, Bool, true, false, not, ◌||◌, List, [], ◌∷◌, ◌++◌, Option, none, some, Text,
  codes, same, has, join, arith, if◌then◌else◌,
}
use nare.Session.Types.{
  user, assistant, Block, text, tool_use, tool_result, Message, Session, working, blocked, done,
  error,
}
use nare.Session.Reopen.{append_user_text}
use nare.Loop.Hold.{add_event, progress}

unfoldable pub writes_in : List Block → List Text
writes_in [] = []
writes_in (tool_use i name input ∷ bs) =
    if same name (codes "write") || same name (codes "edit") then i ∷ writes_in bs else writes_in bs
writes_in (b ∷ bs) = writes_in bs

unfoldable pub writes_of : List Message → List Text
unfolding writes_in
writes_of [] = []
writes_of (m ∷ ms) = elim m.role [
  | user ↦ writes_of ms
  | assistant ↦ writes_in m.content ++ writes_of ms
]

unfoldable pub succeeded_in : List Text → List Block → Bool
succeeded_in writes [] = false
succeeded_in writes (tool_result i content false ∷ bs) = has i writes || succeeded_in writes bs
succeeded_in writes (b ∷ bs) = succeeded_in writes bs

unfoldable pub succeeded_of : List Text → List Message → Bool
unfolding succeeded_in
succeeded_of writes [] = false
succeeded_of writes (m ∷ ms) = elim m.role [
  | user ↦ succeeded_in writes m.content || succeeded_of writes ms
  | assistant ↦ succeeded_of writes ms
]

unfoldable pub wrote_a_file : Session → Bool
unfolding writes_of succeeded_of
wrote_a_file s = succeeded_of (writes_of s.messages) s.messages

-- What a nudge writes into the session; `nudge` is the text of `QUESTION_NUDGE`.
unfoldable pub nudged : Text → Session → Session
unfolding add_event append_user_text
nudged nudge s =
    add_event progress (codes "reply asked a question in prose: nudged toward ask")
      (append_user_text (record s { ask_nudged = true }) nudge)

-- `offered` says that the policy has the tool, `asks` is the answer of `asks_in_prose`.
unfoldable pub nudge_question : Text → Session → Bool → Bool → Bool → Bool → Bool × Session
unfolding wrote_a_file nudged
nudge_question nudge s asks enabled summary offered =
    if not enabled || (summary || (s.ask_nudged || not offered))
    then (false, s)
    else if wrote_a_file s || not asks
    then (false, s)
    else (true, nudged nudge s)

abbrev pub texts_of : List Block → List Text
texts_of [] = []
texts_of (text t ∷ bs) = t ∷ texts_of bs
texts_of (b ∷ bs) = texts_of bs

unfoldable pub last_reply : List Message → Option Text
last_reply [] = none
last_reply (m ∷ ms) = elim (last_reply ms) [
  | some t ↦ some t
  | none ↦ elim m.role [ user ↦ none | assistant ↦ some (join (codes "\n") (texts_of m.content)) ]
]

-- `redact` takes secrets out of a text.
unfoldable pub final_text : (Text → Text) → Session → Option Text
unfolding last_reply
final_text redact s = elim s.status [
  | done ↦ elim (last_reply s.messages) [ none ↦ none | some t ↦ some (redact t) ]
  | working ↦ none
  | blocked ↦ none
  | error ↦ none
]

pub nudge_question-true :
    (nudge : Text) (s after : Session) (asks enabled summary offered : Bool)
    → nudge_question nudge s asks enabled summary offered ≡ (true, after)
    → (s.ask_nudged ≡ false) × (wrote_a_file s ≡ false) × (after ≡ nudged nudge s)
unfolding nudge_question
nudge_question-true nudge s after asks enabled summary offered e =
    by_tests (not enabled || (summary || (s.ask_nudged || not offered)))
      (wrote_a_file s || not asks) refl refl e
  where
    by_tests :
        (out wrote : Bool)
        → (not enabled || (summary || (s.ask_nudged || not offered))) ≡ out
        → (wrote_a_file s || not asks) ≡ wrote
        → ◌≡◌ {A = Bool × Session}
            (if out then (false, s) else if wrote then (false, s) else (true, nudged nudge s))
            (true, after)
        → (s.ask_nudged ≡ false) × (wrote_a_file s ≡ false) × (after ≡ nudged nudge s)
    by_tests true wrote o w h = absurd (cc (ap (λ p. p.0) h))
    by_tests false true o w h = absurd (cc (ap (λ p. p.0) h))
    by_tests false false o w h = (ground arith, ground arith, sym (ap (λ p. p.1) h))

pub nudge_question-nudged :
    (nudge : Text) (s : Session) (asks enabled summary offered : Bool)
    → s.ask_nudged ≡ true
    → nudge_question nudge s asks enabled summary offered ≡ (false, s)
unfolding nudge_question
nudge_question-nudged nudge s asks false summary offered e = refl
nudge_question-nudged nudge s asks true true offered e = refl
nudge_question-nudged nudge s asks true false offered e = rw e refl
