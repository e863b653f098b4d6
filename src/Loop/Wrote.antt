-- ===== src/Loop/Wrote.antt =====
-- Which runs are nudged (src/nare/loop.py).
use nare.Prelude.{
  if◌then◌else◌, ◌≡◌, refl, sym, ap, ◌∙◌, ◌⊎◌, inl, inr, Bool, true, false, ◌||◌, List, [], ◌∷◌,
  Text, codes, arith, same, same_refl, has, has-append,
}
use nare.Session.Types.{
  user, assistant, Block, text, thinking, redacted_thinking, tool_use, tool_result, other, Message,
  Session,
}
use nare.Session.Reopen.{append_user_text}
use nare.Loop.Hold.{add_event}
use nare.Loop.Nudge.{
  writes_in, writes_of, succeeded_in, succeeded_of, wrote_a_file, nudged, nudge_question,
  nudge_question-true, nudge_question-nudged,
}

-- A call of the write or edit tool under this id.
abbrev pub CallsWrite : Text → List Block → Type 0
CallsWrite i [] = ⊥
CallsWrite i (tool_use j name input ∷ bs) =
    ((i ≡ j) × ((name ≡ codes "write") ⊎ (name ≡ codes "edit"))) ⊎ CallsWrite i bs
CallsWrite i (text t ∷ bs) = CallsWrite i bs
CallsWrite i (thinking t signature ∷ bs) = CallsWrite i bs
CallsWrite i (redacted_thinking d ∷ bs) = CallsWrite i bs
CallsWrite i (tool_result j content failed ∷ bs) = CallsWrite i bs
CallsWrite i (other k ∷ bs) = CallsWrite i bs

-- A result under this id that is not an error.
abbrev pub Succeeds : Text → List Block → Type 0
Succeeds i [] = ⊥
Succeeds i (tool_result j content failed ∷ bs) = ((i ≡ j) × (failed ≡ false)) ⊎ Succeeds i bs
Succeeds i (text t ∷ bs) = Succeeds i bs
Succeeds i (thinking t signature ∷ bs) = Succeeds i bs
Succeeds i (redacted_thinking d ∷ bs) = Succeeds i bs
Succeeds i (tool_use j name input ∷ bs) = Succeeds i bs
Succeeds i (other k ∷ bs) = Succeeds i bs

abbrev pub CalledIn : Text → List Message → Type 0
CalledIn i [] = ⊥
CalledIn i (m ∷ ms) = ((m.role ≡ assistant) × CallsWrite i m.content) ⊎ CalledIn i ms

abbrev pub SucceededIn : Text → List Message → Type 0
SucceededIn i [] = ⊥
SucceededIn i (m ∷ ms) = ((m.role ≡ user) × Succeeds i m.content) ⊎ SucceededIn i ms

has-writes_in : (i : Text) (bs : List Block) → CallsWrite i bs → has i (writes_in bs) ≡ true
unfolding writes_in has
has-writes_in i [] h = absurd h
has-writes_in i (tool_use j name input ∷ bs) (inl (e, inl w)) =
    rw (e, w, same_refl (codes "write")) (rw same_refl refl)
has-writes_in i (tool_use j name input ∷ bs) (inl (e, inr w)) =
    by_test (same name (codes "write")) (same name (codes "edit"))
      (ap (λ x. same x (codes "edit")) w ∙ same_refl (codes "edit"))
  where
    by_test :
        (a b : Bool) → b ≡ true → has i (if a || b then j ∷ writes_in bs else writes_in bs) ≡ true
    by_test true b t = rw e (rw same_refl refl)
    by_test false b t = rw (t, e) (rw same_refl refl)
has-writes_in i (tool_use j name input ∷ bs) (inr h) =
    by_test (same name (codes "write") || same name (codes "edit")) (has-writes_in i bs h)
  where
    by_test :
        (b : Bool)
        → has i (writes_in bs) ≡ true
        → has i (if b then j ∷ writes_in bs else writes_in bs) ≡ true
    by_test true k = ground arith
    by_test false k = k
has-writes_in i (text t ∷ bs) h = has-writes_in i bs h
has-writes_in i (thinking t signature ∷ bs) h = has-writes_in i bs h
has-writes_in i (redacted_thinking d ∷ bs) h = has-writes_in i bs h
has-writes_in i (tool_result j content failed ∷ bs) h = has-writes_in i bs h
has-writes_in i (other k ∷ bs) h = has-writes_in i bs h

has-writes_of : (i : Text) (ms : List Message) → CalledIn i ms → has i (writes_of ms) ≡ true
unfolding writes_of
has-writes_of i [] h = absurd h
has-writes_of i (m ∷ ms) (inl (r, h)) =
    rw r (
      ground
        (arith, has-append i (writes_in m.content) (writes_of ms), has-writes_in i m.content h))
has-writes_of i (m ∷ ms) (inr h) =
    let later = has-writes_of i ms h in
    ground (arith, has-append i (writes_in m.content) (writes_of ms), later)

succeeded_in-true :
    (i : Text) (writes : List Text) (bs : List Block)
    → has i writes ≡ true
    → Succeeds i bs
    → succeeded_in writes bs ≡ true
unfolding succeeded_in
succeeded_in-true i writes [] w h = absurd h
succeeded_in-true i writes (tool_result j content true ∷ bs) w (inl (e, f)) = absurd (cc f)
succeeded_in-true i writes (tool_result j content false ∷ bs) w (inl (e, f)) = rw (← e) (rw w refl)
succeeded_in-true i writes (tool_result j content true ∷ bs) w (inr h) =
    succeeded_in-true i writes bs w h
succeeded_in-true i writes (tool_result j content false ∷ bs) w (inr h) =
    let later = succeeded_in-true i writes bs w h in ground (arith, later)
succeeded_in-true i writes (text t ∷ bs) w h = succeeded_in-true i writes bs w h
succeeded_in-true i writes (thinking t signature ∷ bs) w h = succeeded_in-true i writes bs w h
succeeded_in-true i writes (redacted_thinking d ∷ bs) w h = succeeded_in-true i writes bs w h
succeeded_in-true i writes (tool_use j name input ∷ bs) w h = succeeded_in-true i writes bs w h
succeeded_in-true i writes (other k ∷ bs) w h = succeeded_in-true i writes bs w h

succeeded_of-true :
    (i : Text) (writes : List Text) (ms : List Message)
    → has i writes ≡ true
    → SucceededIn i ms
    → succeeded_of writes ms ≡ true
unfolding succeeded_of
succeeded_of-true i writes [] w h = absurd h
succeeded_of-true i writes (m ∷ ms) w (inl (r, h)) =
    rw (r, succeeded_in-true i writes m.content w h) refl
succeeded_of-true i writes (m ∷ ms) w (inr h) =
    let later = succeeded_of-true i writes ms w h in ground (arith, later)

-- A nudge is given only to a session that was not nudged, and in which no call of write or edit has a
-- result that is not an error; the session is then marked, and a session that is marked so, whatever else
-- became of it, is given no nudge and left as it is.
pub nudge_question_once :
    (nudge : Text) (s after later : Session) (asks enabled summary offered : Bool)
    (asks' enabled' summary' offered' : Bool)
    → nudge_question nudge s asks enabled summary offered ≡ (true, after)
    → later.ask_nudged ≡ after.ask_nudged
    → (s.ask_nudged ≡ false)
      × ((i : Text) → CalledIn i s.messages → SucceededIn i s.messages → ⊥)
      × (nudge_question nudge later asks' enabled' summary' offered' ≡ (false, later))
unfolding nudged add_event append_user_text wrote_a_file
nudge_question_once nudge s after later asks enabled summary offered asks' enabled' summary'
      offered' e marked =
    let (fresh, unwritten, is) = nudge_question-true nudge s after asks enabled summary offered e in
    (
      fresh,
      (λ i called ok. absurd (
          cc (
            sym (
              succeeded_of-true i (writes_of s.messages) s.messages
                (has-writes_of i s.messages called) ok)
            ∙ unwritten))),
      nudge_question-nudged nudge later asks' enabled' summary' offered'
          (marked ∙ ap (λ a. a.ask_nudged) is),
    )
