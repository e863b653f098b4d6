-- ===== src/Step/Frames.antt =====
-- What the calls of a turn leave of the session and of the results.
use nare.Prelude.{
  ℕ, ◌≡◌, refl, sym, ap, ◌∙◌, inl, inr, Bool, false, List, [], ◌∷◌, ◌++◌, map, Option, none, some,
  Text, codes, append_assoc, append-nil, Option-cases,
}
use nare.Session.Types.{Session, Message, Evidence, Ruled}
use nare.Step.Reply.{
  ToolCall, ToolCallLimit, Answered, failed_with, Ran, Dispatched, ran, cancelled, broke,
}
use nare.Step.Calls.{
  Tools, Calling, Left, went_on, interrupted, died, refusal_of, started, note_evidence, note_rules,
  kept_run, kept_rules, kept_refusal, calls_from, count_refused, run_calls, result_events,
  call_events, TurnEnd,
}

abbrev pub ids : List ToolCall → List Text
ids calls = map (λ c. c.id) calls

abbrev pub answered_ids : List Answered → List Text
answered_ids answered = map (λ a. a.id) answered

-- What of a session its turns are counted and its transcript kept by.
abbrev pub frame : Session → List Message × ℕ
frame s = (s.messages, s.turns)

-- What a turn leaves, however it ends.
abbrev pub session_of : TurnEnd → Session
session_of (TurnEnd.returned s limit) = s
session_of (TurnEnd.raised s limit why) = s
session_of (TurnEnd.stopped s limit) = s

note_evidence-frame : (es : List Evidence) (s : Session) → frame (note_evidence es s) ≡ frame s
unfolding note_evidence
note_evidence-frame [] s = refl
note_evidence-frame (e ∷ es) s = note_evidence-frame es _

note_rules-frame : (rs : List Ruled) (s : Session) → frame (note_rules rs s) ≡ frame s
unfolding note_rules
note_rules-frame [] s = refl
note_rules-frame (r ∷ rs) s = note_rules-frame rs _

kept_run-frame :
    (call : ToolCall) (r : Ran) (c : Calling) → frame (kept_run call r c).session ≡ frame c.session
unfolding kept_run
kept_run-frame call r c =
    note_evidence-frame r.evidence (note_rules r.rules c.session)
    ∙ note_rules-frame r.rules c.session

pub result_events-frame :
    (tools : Tools) (calls : List ToolCall) (answered : List Answered) (s : Session)
    → frame (result_events tools calls answered s) ≡ frame s
unfolding result_events
result_events-frame tools [] answered s = refl
result_events-frame tools (c ∷ cs) [] s = refl
result_events-frame tools (c ∷ cs) (a ∷ rest) s = result_events-frame tools cs rest _

pub call_events-frame :
    (calls : List ToolCall) (s : Session) → frame (call_events calls s) ≡ frame s
unfolding call_events
call_events-frame [] s = refl
call_events-frame (c ∷ cs) s = call_events-frame cs _

answered_ids-append :
    (xs ys : List Answered) → answered_ids (xs ++ ys) ≡ answered_ids xs ++ answered_ids ys
answered_ids-append [] ys = refl
answered_ids-append (x ∷ xs) ys = ap (◌∷◌ x.id) (answered_ids-append xs ys)

-- The results are those of the calls up to some place, and the transcript is as it was.
abbrev UpTo : List ToolCall → Calling → Calling → Type 0
UpTo calls before after =
    (ended rest : List ToolCall) × (calls ≡ ended ++ rest)
    × (answered_ids after.results ≡ answered_ids before.results ++ ids ended)
    × (frame after.session ≡ frame before.session)

one_more :
    (call : ToolCall) (calls : List ToolCall) (before now after : Calling)
    → answered_ids now.results ≡ answered_ids before.results ++ call.id ∷ []
    → frame now.session ≡ frame before.session
    → UpTo calls now after
    → UpTo (call ∷ calls) before after
one_more call calls before now after i m (ended, rest, split, is, kept) = (
  call ∷ ended,
  rest,
  ap (◌∷◌ call) split,
  is
      ∙ ap (λ xs. xs ++ ids ended) i
      ∙ append_assoc (answered_ids before.results) (call.id ∷ []) (ids ended),
  kept ∙ m,
)

module _ (tools : Tools) (summary only_asks : Bool) where
  calls_from-UpTo :
      (c : Calling) (calls : List ToolCall)
      → UpTo calls c (calls_from tools summary only_asks c calls).0
  unfolding calls_from
  calls_from-UpTo c [] = ([], [], refl, sym (append-nil _), refl)
  calls_from-UpTo c (call ∷ calls) =
      elim (Option-cases (refusal_of summary only_asks tools.has_ask c.limit call)) [
        | inr ((said, at_limit), e) ↦
            rw (e, calls_from)
              (one_more call calls c (kept_refusal call said at_limit c)
                (calls_from tools summary only_asks (kept_refusal call said at_limit c) calls).0
                (unfold kept_refusal in answered_ids-append c.results _)
                (unfold kept_refusal in refl)
                (calls_from-UpTo (kept_refusal call said at_limit c) calls))
        | inl e ↦
            rw (e, calls_from)
              (dispatched (λ d. calls_from-UpTo d calls)
                (tools.dispatch (started c).session.tool_calls call))
      ]
    where
      dispatched :
          ((d : Calling) → UpTo calls d (calls_from tools summary only_asks d calls).0)
          → (d : Dispatched)
          → let after : Calling × Left = elim d [
            | ran r ↦ calls_from tools summary only_asks (kept_run call r (started c)) calls
            | cancelled rules ↦ (kept_rules rules (started c), interrupted)
            | broke rules why ↦ (kept_rules rules (started c), died why)
          ] in
            UpTo (call ∷ calls) c after.0
      dispatched again (ran r) =
          one_more call calls c (kept_run call r (started c))
            (calls_from tools summary only_asks (kept_run call r (started c)) calls).0
            (unfold kept_run in answered_ids-append c.results _) (kept_run-frame call r (started c))
            (again (kept_run call r (started c)))
      dispatched again (cancelled rules) = (
        [],
        call ∷ calls,
        refl,
        unfold kept_rules in sym (append-nil _),
        unfold kept_rules in note_rules-frame rules (started c).session,
      )
      dispatched again (broke rules why) = (
        [],
        call ∷ calls,
        refl,
        unfold kept_rules in sym (append-nil _),
        unfold kept_rules in note_rules-frame rules (started c).session,
      )

pub answered_ids-told :
    (said : ToolCall → Text) (calls : List ToolCall)
    → answered_ids (map (λ call. failed_with call (said call)) calls) ≡ ids calls
answered_ids-told said [] = refl
answered_ids-told said (c ∷ cs) = ap (◌∷◌ c.id) (answered_ids-told said cs)

pub run_calls-UpTo :
    (tools : Tools) (summary only_asks : Bool) (why : Option Text) (s : Session)
    (limit : Option ToolCallLimit) (calls : List ToolCall)
    → (ended rest : List ToolCall) × (calls ≡ ended ++ rest)
      × (answered_ids (run_calls tools summary only_asks why s limit calls).0.results ≡ ids ended)
      × (frame (run_calls tools summary only_asks why s limit calls).0.session ≡ frame s)
unfolding run_calls
run_calls-UpTo tools summary only_asks (some why) s limit calls = (
  calls,
  [],
  sym (append-nil calls),
  answered_ids-told (λ c. codes "not run: " ++ why) calls,
  refl,
)
run_calls-UpTo tools summary only_asks none s limit calls =
    let first : Calling = record { session = s; limit = limit; results = []; refused = false } in
    by_left _ (calls_from tools summary only_asks first calls).1
      (calls_from-UpTo tools summary only_asks first calls)
  where
    by_left :
        (c : Calling) (left : Left)
        → UpTo calls (record { session = s; limit = limit; results = []; refused = false }) c
        → let after : Calling × Left = elim left [
          | went_on ↦ (record c { limit = count_refused c.refused c.limit }, went_on)
          | interrupted ↦ (c, interrupted)
          | died why ↦ (c, died why)
        ] in
          (ended rest : List ToolCall) × (calls ≡ ended ++ rest)
          × (answered_ids after.0.results ≡ ids ended)
          × (frame after.0.session ≡ frame s)
    by_left c went_on h = h
    by_left c interrupted h = h
    by_left c (died why) h = h
