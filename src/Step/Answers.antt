-- ===== src/Step/Answers.antt =====
-- The calls of a turn are answered, however the turn ends.
use nare.Prelude.{
  ℕ, ◌≡◌, refl, ap, ◌∙◌, ◌⊎◌, inl, inr, Bool, true, false, not, ◌&&◌, List, [], ◌∷◌, ◌++◌, map,
  Option, none, some, Text, drop, length, append-nil, if◌then◌else◌, Bool-cases,
}
use nare.Json.Value.{Value}
use nare.Session.Reopen.{append_block, append_user_text}
use nare.Loop.Hold.{add_event, error_kind}
use nare.Session.Types.{error, blocked, Session, Message, user, Block, text}
use nare.Session.Continue.{append_block-after}
use nare.Step.Reply.{
  StopReason, ToolCall, ToolCallLimit, Answered, failed_with, block_of, unfinished_text, guidance,
  calls_not_run, questions_from,
}
use nare.Step.Calls.{
  Tools, Left, went_on, interrupted, died, unanswered_text, undelivered, complete, result_events,
  call_events, asks_only, after_calls, leave, with_calls,
}
use nare.Step.Frames.{
  ids, answered_ids, frame, session_of, result_events-frame, call_events-frame, answered_ids-told,
  run_calls-UpTo,
}

filled :
    (said : Text) (results : List Answered) (ended rest : List ToolCall)
    → answered_ids results ≡ ids ended
    → answered_ids
        (results ++ map (λ call. failed_with call said) (drop (length results) (ended ++ rest)))
      ≡ ids (ended ++ rest)
filled said [] [] rest e = answered_ids-told (λ _. said) rest
filled said [] (c ∷ cs) rest e = absurd (cc e)
filled said (r ∷ rs) [] rest e = absurd (cc e)
filled said (r ∷ rs) (c ∷ cs) rest e =
    let same : r.id ≡ c.id = cc e in
    let others : answered_ids rs ≡ ids cs = cc e in
    ap (◌∷◌ r.id) (filled said rs cs rest others) ∙ ap (λ i. i ∷ ids (cs ++ rest)) same

answered_ids-undelivered :
    (answered : List Answered) → answered_ids (map undelivered answered) ≡ answered_ids answered
answered_ids-undelivered [] = refl
answered_ids-undelivered (a ∷ rest) = elim (Bool-cases a.is_error) [
  | inl e ↦ rw e (ap (◌∷◌ a.id) (answered_ids-undelivered rest))
  | inr e ↦ rw e (ap (◌∷◌ a.id) (answered_ids-undelivered rest))
]

complete-ids :
    (calls : List ToolCall) (only_asks unfinished : Bool) (left : Left) (results : List Answered)
    (ended rest : List ToolCall)
    → calls ≡ ended ++ rest
    → answered_ids results ≡ ids ended
    → answered_ids (complete calls only_asks unfinished left results) ≡ ids calls
unfolding complete
complete-ids calls only_asks unfinished left results ended rest split e =
    let whole : answered_ids (
          results
          ++ map (λ call. failed_with call (unanswered_text left)) (drop (length results) calls))
        ≡ ids calls =
      rw split (filled (unanswered_text left) results ended rest e) in
    by_test _ _ whole
  where
    by_test :
        (mixed : Bool) (xs : List Answered)
        → answered_ids xs ≡ ids calls
        → answered_ids (if mixed then map undelivered xs else xs) ≡ ids calls
    by_test true xs h = answered_ids-undelivered xs ∙ h
    by_test false xs h = h

-- At most a text is added to the user's turn.
abbrev pub MayAdd : List Message × ℕ → List Message × ℕ → Type 0
MayAdd before after =
    (after ≡ before) ⊎ ((t : Text) × (after ≡ (append_block (text t) before.0, before.1)))

after_calls-MayAdd :
    (shown : Value → Text) (reason : StopReason) (corrected only_asks failed : Bool)
    (calls : List ToolCall) (s : Session)
    → MayAdd (frame s) (frame (after_calls shown reason corrected only_asks failed calls s))
unfolding after_calls append_user_text add_event
after_calls-MayAdd shown reason corrected only_asks failed calls s =
    by_text (unfinished_text reason) corrected (only_asks && not failed)
  where
    by_text :
        (why : Option Text) (corrected asking : Bool)
        → let after : Session = elim why [
          | some said ↦
              if corrected
              then append_user_text s (guidance reason ++ calls_not_run)
              else add_event error_kind said (record s { status = error; error = some said })
          | none ↦
              if asking
              then record s { status = blocked; questions = questions_from shown calls }
              else s
        ] in
          MayAdd (frame s) (frame after)
    by_text (some said) true asking = inr (guidance reason ++ calls_not_run, refl)
    by_text (some said) false asking = inl refl
    by_text none corrected true = inl refl
    by_text none corrected false = inl refl

MayAdd-after :
    (ms : List Message) (n : ℕ) (after : List Message × ℕ) (bs : List Block)
    → MayAdd (ms ++ record { role = user; content = bs } ∷ [], n) after
    → (notes : List Text) × (after
        ≡ (ms ++ record { role = user; content = bs ++ map text notes } ∷ [], n))
MayAdd-after ms n after bs (inl e) = ([], rw append-nil e)
MayAdd-after ms n after bs (inr (t, e)) =
    (t ∷ [], e ∙ ap (λ added. (added, n)) (append_block-after (text t) ms bs))

MayAdd-from :
    {before now : List Message × ℕ} (after : List Message × ℕ)
    → before ≡ now
    → MayAdd before after
    → MayAdd now after
MayAdd-from after e (inl same) = inl (same ∙ e)
MayAdd-from after e (inr (t, added)) = inr (t, added ∙ ap (λ f. (append_block (text t) f.0, f.1)) e)

MayAdd-leave :
    (left : Left) (limit : Option ToolCallLimit) (held after : Session)
    → MayAdd (frame held) (frame after)
    → MayAdd (frame held) (frame (session_of (leave left limit held after)))
MayAdd-leave went_on limit held after h = h
MayAdd-leave interrupted limit held after h = inl refl
MayAdd-leave (died why) limit held after h = inl refl

-- The turn's last part: what it adds after the results.
noted :
    (shown : Value → Text) (tools : Tools) (reason : StopReason) (corrected only_asks failed : Bool)
    (calls : List ToolCall) (left : Left) (limit : Option ToolCallLimit) (s c : Session)
    (answered : List Answered)
    → frame c ≡ frame s
    → let held : Session = record c {
      messages = c.messages ++ record { role = user; content = map block_of answered } ∷ [];
    } in
      let told = result_events tools calls answered held in
      (notes : List Text) × (frame (
          session_of (
            leave left limit told (after_calls shown reason corrected only_asks failed calls told)))
        ≡ (
          s.messages
              ++ record { role = user; content = map block_of answered ++ map text notes } ∷ [],
          s.turns,
        ))
noted shown tools reason corrected only_asks failed calls left limit s c answered kept =
    let held : Session = record c {
      messages = c.messages ++ record { role = user; content = map block_of answered } ∷ [];
    } in
    let told = result_events tools calls answered held in
    let after = after_calls shown reason corrected only_asks failed calls told in
    let is : frame told
        ≡ (s.messages ++ record { role = user; content = map block_of answered } ∷ [], s.turns) =
      result_events-frame tools calls answered held
      ∙ ap (λ f. (f.0 ++ record { role = user; content = map block_of answered } ∷ [], f.1)) kept in
    MayAdd-after s.messages s.turns (frame (session_of (leave left limit told after)))
      (map block_of answered)
      (MayAdd-from _ is (
        MayAdd-leave left limit told after
          (after_calls-MayAdd shown reason corrected only_asks failed calls told)))

pub with_calls-frame :
    (shown : Value → Text) (tools : Tools) (summary : Bool) (reason : StopReason) (corrected : Bool)
    (calls : List ToolCall) (limit : Option ToolCallLimit) (s : Session)
    → (answered : List Answered) × (notes : List Text) × (answered_ids answered ≡ ids calls)
      × (frame (session_of (with_calls shown tools summary reason corrected calls limit s)) ≡ (
        s.messages
            ++ record { role = user; content = map block_of answered ++ map text notes } ∷ [],
        s.turns,
      ))
unfolding with_calls
with_calls-frame shown tools summary reason corrected calls limit s =
    let (ended, rest, split, is, kept) =
      run_calls-UpTo tools summary (asks_only calls) (unfinished_text reason) (call_events calls s)
        limit calls in
    let (notes, m) =
      noted shown tools reason corrected (asks_only calls) _ calls _ _ s _ _
        (kept ∙ call_events-frame calls s) in
    (_, notes, complete-ids calls _ _ _ _ ended rest split is, m)

-- However a turn with calls ends, whether it returns, is interrupted or is left by an exception, it
-- adds to the transcript one user message, which holds one result for each call, in the order of the
-- calls, and then no more than texts.
pub with_calls-answers :
    (shown : Value → Text) (tools : Tools) (summary : Bool) (reason : StopReason) (corrected : Bool)
    (calls : List ToolCall) (limit : Option ToolCallLimit) (s : Session)
    → (answered : List Answered) × (notes : List Text) × (answered_ids answered ≡ ids calls)
      × ((session_of (with_calls shown tools summary reason corrected calls limit s)).messages
          ≡ s.messages
            ++ record { role = user; content = map block_of answered ++ map text notes } ∷ [])
with_calls-answers shown tools summary reason corrected calls limit s =
    let (answered, notes, is, f) =
      with_calls-frame shown tools summary reason corrected calls limit s in
    (answered, notes, is, ap (λ g. g.0) f)
