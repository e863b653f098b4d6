-- ===== src/Session/Pairing.antt =====
-- The pairing of calls and results in a transcript (src/nare/session.py).
use nare.Prelude.{◌≡◌, refl, sym, ap, ◌∙◌, inl, inr, List, [], ◌∷◌, ◌++◌, map, Text, append-nil}
use nare.Session.Types.{
  Role, user, assistant, Message, Block, text, thinking, redacted_thinking, tool_use, tool_result,
  other,
}
use nare.Session.Reopen.{last_message, append_block}
use nare.Session.Continue.{
  EndsInUser, Role-cases, append_block-user, append_block-assistant, append_block-cons,
}

-- The ids of the calls among the blocks.
abbrev pub asked_ids : List Block → List Text
asked_ids [] = []
asked_ids (tool_use i n v ∷ bs) = i ∷ asked_ids bs
asked_ids (text t ∷ bs) = asked_ids bs
asked_ids (thinking t signature ∷ bs) = asked_ids bs
asked_ids (redacted_thinking d ∷ bs) = asked_ids bs
asked_ids (tool_result i c e ∷ bs) = asked_ids bs
asked_ids (other k ∷ bs) = asked_ids bs

-- The ids that the results among the blocks answer.
abbrev pub given_ids : List Block → List Text
given_ids [] = []
given_ids (tool_result i c e ∷ bs) = i ∷ given_ids bs
given_ids (text t ∷ bs) = given_ids bs
given_ids (thinking t signature ∷ bs) = given_ids bs
given_ids (redacted_thinking d ∷ bs) = given_ids bs
given_ids (tool_use i n v ∷ bs) = given_ids bs
given_ids (other k ∷ bs) = given_ids bs

-- The results at the head of what follows a message.
abbrev pub results_next : List Message → List Text
results_next [] = []
results_next (m ∷ ms) = given_ids m.content

-- Each assistant message is followed by a result for each of its calls, in their order, and the
-- last message, where it is an assistant's, has none.
abbrev pub IsAnswered : List Message → Type 0
IsAnswered [] = Unit
IsAnswered (m ∷ ms) = (m.role ≡ assistant → asked_ids m.content ≡ results_next ms) × IsAnswered ms

-- The same, but for the last message, whose calls may wait.
abbrev pub AnsweredBefore : List Message → Type 0
AnsweredBefore [] = Unit
AnsweredBefore (m ∷ []) = Unit
AnsweredBefore (m ∷ n ∷ ns) =
    (m.role ≡ assistant → asked_ids m.content ≡ given_ids n.content) × AnsweredBefore (n ∷ ns)

pub asked_ids-append : (xs ys : List Block) → asked_ids (xs ++ ys) ≡ asked_ids xs ++ asked_ids ys
asked_ids-append [] ys = refl
asked_ids-append (text t ∷ xs) ys = asked_ids-append xs ys
asked_ids-append (thinking t signature ∷ xs) ys = asked_ids-append xs ys
asked_ids-append (redacted_thinking d ∷ xs) ys = asked_ids-append xs ys
asked_ids-append (tool_use i n v ∷ xs) ys = ap (◌∷◌ i) (asked_ids-append xs ys)
asked_ids-append (tool_result i c e ∷ xs) ys = asked_ids-append xs ys
asked_ids-append (other k ∷ xs) ys = asked_ids-append xs ys

pub given_ids-append : (xs ys : List Block) → given_ids (xs ++ ys) ≡ given_ids xs ++ given_ids ys
given_ids-append [] ys = refl
given_ids-append (text t ∷ xs) ys = given_ids-append xs ys
given_ids-append (thinking t signature ∷ xs) ys = given_ids-append xs ys
given_ids-append (redacted_thinking d ∷ xs) ys = given_ids-append xs ys
given_ids-append (tool_use i n v ∷ xs) ys = given_ids-append xs ys
given_ids-append (tool_result i c e ∷ xs) ys = ap (◌∷◌ i) (given_ids-append xs ys)
given_ids-append (other k ∷ xs) ys = given_ids-append xs ys

given_ids-text : (bs : List Block) (t : Text) → given_ids (bs ++ text t ∷ []) ≡ given_ids bs
given_ids-text bs t = given_ids-append bs (text t ∷ []) ∙ append-nil (given_ids bs)

user-no-call : {A : Type 0} (m : Message) → m.role ≡ user → m.role ≡ assistant → A
user-no-call m u a = absurd (cc (sym u ∙ a))

results_next-text :
    (t : Text) (m : Message) (ms : List Message)
    → results_next (append_block (text t) (m ∷ ms)) ≡ given_ids m.content
results_next-text t m [] = elim (Role-cases m.role) [
  | inl e ↦ rw (append_block-user (text t) m e) (given_ids-text m.content t)
  | inr e ↦ rw (append_block-assistant (text t) m e) refl
]
results_next-text t m (n ∷ ns) = ap results_next (append_block-cons (text t) m n ns)

-- A text for the user answers and asks nothing.
pub append_block-IsAnswered :
    (t : Text) (ms : List Message) → IsAnswered ms → IsAnswered (append_block (text t) ms)
append_block-IsAnswered t [] h = unfold append_block in ((λ _. refl), tt)
append_block-IsAnswered t (m ∷ []) h = elim (Role-cases m.role) [
  | inl e ↦ rw (append_block-user (text t) m e) ((λ a. user-no-call m e a), tt)
  | inr e ↦ rw (append_block-assistant (text t) m e) (h.0, ((λ _. refl), tt))
]
append_block-IsAnswered t (m ∷ n ∷ ns) h =
    rw append_block-cons
      ((λ a. h.0 a ∙ sym (results_next-text t n ns)), append_block-IsAnswered t (n ∷ ns) h.1)

-- After the user, what is answered by itself may follow.
pub append-IsAnswered :
    (ms after : List Message)
    → EndsInUser ms
    → IsAnswered ms
    → IsAnswered after
    → IsAnswered (ms ++ after)
unfolding last_message
append-IsAnswered [] after (l, e, r) h k = absurd (cc e)
append-IsAnswered (m ∷ []) after (l, e, r) h k =
    let same : m ≡ l = cc e in ((λ a. user-no-call m (ap (λ x. x.role) same ∙ r) a), k)
append-IsAnswered (m ∷ n ∷ ns) after ends h k = (h.0, append-IsAnswered (n ∷ ns) after ends h.1 k)

-- What pairing reads of a transcript.
abbrev pub outline : List Message → List (Role × List Text × List Text)
outline ms = map (λ m. (m.role, asked_ids m.content, given_ids m.content)) ms

pub outline-IsAnswered :
    (ms ns : List Message) → outline ms ≡ outline ns → IsAnswered ms → IsAnswered ns
outline-IsAnswered [] [] e h = tt
outline-IsAnswered [] (n ∷ ns) e h = absurd (cc e)
outline-IsAnswered (m ∷ ms) [] e h = absurd (cc e)
outline-IsAnswered (m ∷ ms) (n ∷ ns) e h =
    let first : ◌≡◌ {A = Role × List Text × List Text}
        (m.role, asked_ids m.content, given_ids m.content)
        (n.role, asked_ids n.content, given_ids n.content) =
      cc e in
    let others : outline ms ≡ outline ns = cc e in
    (
      (λ a. sym (ap (λ p. p.1) first) ∙ h.0 (ap (λ p. p.0) first ∙ a) ∙ next ms ns others),
      outline-IsAnswered ms ns others h.1,
    )
  where
    next : (ms ns : List Message) → outline ms ≡ outline ns → results_next ms ≡ results_next ns
    next [] [] e = refl
    next [] (n ∷ ns) e = absurd (cc e)
    next (m ∷ ms) [] e = absurd (cc e)
    next (m ∷ ms) (n ∷ ns) e =
        let first : ◌≡◌ {A = Role × List Text × List Text}
            (m.role, asked_ids m.content, given_ids m.content)
            (n.role, asked_ids n.content, given_ids n.content) =
          cc e in
        ap (λ p. p.2) first
