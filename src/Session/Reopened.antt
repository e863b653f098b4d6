-- ===== src/Session/Reopened.antt =====
-- A reopened session, and one without its signed thinking, by the pairing of calls and results
-- (src/nare/session.py).
use nare.Prelude.{
  ◌≡◌, refl, sym, ap, ◌∙◌, inl, inr, List, [], ◌∷◌, ◌++◌, Option, none, some, Text, keep,
  Option-cases,
}
use nare.Session.Types.{
  user, assistant, Message, Block, text, thinking, redacted_thinking, tool_use, tool_result, other,
  Session,
}
use nare.Session.Thinking.{without_sent_thinking, drop_signed_thinking}
use nare.Session.Reopen.{
  last_message, is_call, call_id, unanswered, answers, answer_calls, add_text, append_user_text,
  reopen,
}
use nare.Session.Continue.{
  Alternates, Role-cases, add_blocks-Alternates, reopen-messages, text_blocks,
}
use nare.Session.Pairing.{
  asked_ids, given_ids, IsAnswered, AnsweredBefore, append_block-IsAnswered, outline,
}

given_ids-answers : (bs : List Block) → given_ids (answers (keep is_call bs)) ≡ asked_ids bs
unfolding answers is_call call_id
given_ids-answers [] = refl
given_ids-answers (text t ∷ bs) = given_ids-answers bs
given_ids-answers (thinking t signature ∷ bs) = given_ids-answers bs
given_ids-answers (redacted_thinking d ∷ bs) = given_ids-answers bs
given_ids-answers (tool_use i n v ∷ bs) = ap (◌∷◌ i) (given_ids-answers bs)
given_ids-answers (tool_result i c e ∷ bs) = given_ids-answers bs
given_ids-answers (other k ∷ bs) = given_ids-answers bs

asked_ids-answers : (bs : List Block) → asked_ids (answers bs) ≡ []
unfolding answers
asked_ids-answers [] = refl
asked_ids-answers (b ∷ bs) = asked_ids-answers bs

no-calls : (bs : List Block) → keep is_call bs ≡ [] → asked_ids bs ≡ []
no-calls bs e =
    sym (given_ids-answers bs) ∙ ap (λ cs. given_ids (answers cs)) e ∙ unfold answers in refl

-- The last message of a transcript that asks nothing there.
settled-IsAnswered :
    (ms : List Message)
    → AnsweredBefore ms
    → ((m : Message) → last_message ms ≡ some m → m.role ≡ assistant → asked_ids m.content ≡ [])
    → IsAnswered ms
unfolding last_message
settled-IsAnswered [] h k = tt
settled-IsAnswered (m ∷ []) h k = (k m refl, tt)
settled-IsAnswered (m ∷ n ∷ ns) h k = (h.0, settled-IsAnswered (n ∷ ns) h.1 k)

-- The calls of the last message, answered.
followed-IsAnswered :
    (ms : List Message) (m : Message) (bs : List Block)
    → AnsweredBefore ms
    → last_message ms ≡ some m
    → asked_ids m.content ≡ given_ids bs
    → IsAnswered (ms ++ record { role = user; content = bs } ∷ [])
unfolding last_message
followed-IsAnswered [] m bs h e k = absurd (cc e)
followed-IsAnswered (n ∷ []) m bs h e k =
    let same : n ≡ m = cc e in
    ((λ _. ap (λ x. asked_ids x.content) same ∙ k), ((λ a. absurd (cc a)), tt))
followed-IsAnswered (n ∷ l ∷ ls) m bs h e k = (h.0, followed-IsAnswered (l ∷ ls) m bs h.1 e k)

-- Where the last message waits for no call, or is the assistant's and its calls are answered.
answer_calls-IsAnswered :
    (ms : List Message) → AnsweredBefore ms → IsAnswered (answer_calls (unanswered ms) ms)
unfolding unanswered answer_calls
answer_calls-IsAnswered ms h = elim (Option-cases (last_message ms)) [
  | inl e ↦ rw (e, unanswered) (settled-IsAnswered ms h (λ m is r. absurd (cc (sym e ∙ is))))
  | inr (m, e) ↦ elim (Role-cases m.role) [
    | inl r ↦ rw (e, unanswered) (rw (r, unanswered) (settled-IsAnswered ms h (by_user m e r)))
    | inr r ↦ rw (e, unanswered) (rw (r, unanswered) (by_calls m e (keep is_call m.content) refl))
  ]
]
  where
    same_last : {m n : Message} → last_message ms ≡ some m → last_message ms ≡ some n → m ≡ n
    same_last e is = cc (sym e ∙ is)

    by_user :
        (m : Message)
        → last_message ms ≡ some m
        → m.role ≡ user
        → (n : Message) → last_message ms ≡ some n
        → n.role ≡ assistant
        → asked_ids n.content ≡ []
    by_user m e r n is a = absurd (cc (sym r ∙ ap (λ x. x.role) (same_last e is) ∙ a))

    by_calls :
        (m : Message)
        → last_message ms ≡ some m
        → (calls : List Block) → keep is_call m.content ≡ calls
        → IsAnswered (answer_calls calls ms)
    by_calls m e [] k =
        settled-IsAnswered ms h
          (λ n is a. ap (λ x. asked_ids x.content) (sym (same_last e is)) ∙ no-calls m.content k)
    by_calls m e (c ∷ cs) k =
        followed-IsAnswered ms m (answers (c ∷ cs)) h e
          (sym (given_ids-answers m.content) ∙ ap (λ xs. given_ids (answers xs)) k)

add_text-IsAnswered :
    (t : Option Text) (s : Session) → IsAnswered s.messages → IsAnswered (add_text t s).messages
unfolding add_text append_user_text
add_text-IsAnswered none s h = h
add_text-IsAnswered (some []) s h = h
add_text-IsAnswered (some (c ∷ cs)) s h = append_block-IsAnswered (c ∷ cs) s.messages h

-- Where each assistant message but the last is followed by a result for each of its calls, in their
-- order, then in the reopened session each assistant message is, the last one too; and its roles
-- alternate if they did before.
pub reopen_well_formed :
    (s : Session) (t : Option Text)
    → AnsweredBefore s.messages
    → IsAnswered (reopen s t).messages × (Alternates s.messages → Alternates (reopen s t).messages)
unfolding reopen
reopen_well_formed s t h = (
  add_text-IsAnswered t _ (answer_calls-IsAnswered s.messages h),
  λ k.
      rw reopen-messages
        (add_blocks-Alternates (answers (unanswered s.messages) ++ text_blocks t) s.messages k),
)

asked_ids-without : (bs : List Block) → asked_ids (without_sent_thinking bs) ≡ asked_ids bs
unfolding without_sent_thinking
asked_ids-without [] = refl
asked_ids-without (text [] ∷ bs) = asked_ids-without bs
asked_ids-without (text (c ∷ cs) ∷ bs) = asked_ids-without bs
asked_ids-without (thinking t [] ∷ bs) = asked_ids-without bs
asked_ids-without (thinking t (c ∷ cs) ∷ bs) = asked_ids-without bs
asked_ids-without (redacted_thinking d ∷ bs) = asked_ids-without bs
asked_ids-without (tool_use i n v ∷ bs) = ap (◌∷◌ i) (asked_ids-without bs)
asked_ids-without (tool_result i c e ∷ bs) = asked_ids-without bs
asked_ids-without (other k ∷ bs) = asked_ids-without bs

given_ids-without : (bs : List Block) → given_ids (without_sent_thinking bs) ≡ given_ids bs
unfolding without_sent_thinking
given_ids-without [] = refl
given_ids-without (text [] ∷ bs) = given_ids-without bs
given_ids-without (text (c ∷ cs) ∷ bs) = given_ids-without bs
given_ids-without (thinking t [] ∷ bs) = given_ids-without bs
given_ids-without (thinking t (c ∷ cs) ∷ bs) = given_ids-without bs
given_ids-without (redacted_thinking d ∷ bs) = given_ids-without bs
given_ids-without (tool_use i n v ∷ bs) = given_ids-without bs
given_ids-without (tool_result i c e ∷ bs) = ap (◌∷◌ i) (given_ids-without bs)
given_ids-without (other k ∷ bs) = given_ids-without bs

pub outline-drop_signed_thinking :
    (ms : List Message) → outline ms ≡ outline (drop_signed_thinking ms).0
unfolding drop_signed_thinking
outline-drop_signed_thinking [] = refl
outline-drop_signed_thinking (m ∷ ms) =
    rw (asked_ids-without m.content, given_ids-without m.content)
      (ap (◌∷◌ (m.role, asked_ids m.content, given_ids m.content))
        (outline-drop_signed_thinking ms))
