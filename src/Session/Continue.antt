-- ===== src/Session/Continue.antt =====
-- What reopening adds to a transcript, whose roles go on alternating (src/nare/session.py).
use nare.Prelude.{
  ◌≡◌, refl, ap, ◌∙◌, sym, ◌≢◌, ◌⊎◌, inl, inr, true, List, [], ◌∷◌, ◌++◌, Option, none, some, Text,
  arith, append-nil, append_assoc, Option-cases,
}
use nare.Session.Types.{Role, user, assistant, Block, text, tool_result, Message, Session}
use nare.Session.Reopen.{
  last_message, append_block, unanswered, answers, answer_calls, add_text, reopen, call_id, stopped,
}

-- Neighbouring messages have different roles, as vendors require.
abbrev pub Alternates : List Message → Type 0
Alternates [] = Unit
Alternates (m ∷ []) = Unit
Alternates (m ∷ n ∷ ns) = (m.role ≢ n.role) × Alternates (n ∷ ns)

-- Blocks added to the user's turn, one after another.
abbrev pub add_blocks : List Block → List Message → List Message
add_blocks [] ms = ms
add_blocks (b ∷ bs) ms = add_blocks bs (append_block b ms)

abbrev pub text_blocks : Option Text → List Block
text_blocks none = []
text_blocks (some []) = []
text_blocks (some (c ∷ cs)) = text (c ∷ cs) ∷ []

-- The transcript ends in a user message, or is empty.
abbrev pub EndsInUser : List Message → Type 0
EndsInUser ms = (m : Message) × (last_message ms ≡ some m) × (m.role ≡ user)

pub Role-cases : (r : Role) → (r ≡ user) ⊎ (r ≡ assistant)
Role-cases user = inl refl
Role-cases assistant = inr refl

cons-EndsInUser : (m : Message) (ms : List Message) → EndsInUser ms → EndsInUser (m ∷ ms)
unfolding last_message
cons-EndsInUser m [] (x, e, r) = absurd (cc e)
cons-EndsInUser m (n ∷ ns) (x, e, r) = (x, e, r)

pub append_block-user :
    (b : Block) (m : Message)
    → m.role ≡ user
    → append_block b (m ∷ []) ≡ record m { content = m.content ++ b ∷ [] } ∷ []
unfolding append_block
append_block-user b m e = ground arith

pub append_block-assistant :
    (b : Block) (m : Message)
    → m.role ≡ assistant
    → append_block b (m ∷ []) ≡ m ∷ record { role = user; content = b ∷ [] } ∷ []
unfolding append_block
append_block-assistant b m e = ground arith

pub append_block-cons :
    (b : Block) (m n : Message) (ns : List Message)
    → append_block b (m ∷ n ∷ ns) ≡ m ∷ append_block b (n ∷ ns)
unfolding append_block
append_block-cons b m n ns = refl

pub append_block-EndsInUser : (b : Block) (ms : List Message) → EndsInUser (append_block b ms)
unfolding last_message
append_block-EndsInUser b [] =
    unfold append_block in (record { role = user; content = b ∷ [] }, refl, refl)
append_block-EndsInUser b (m ∷ []) = elim (Role-cases m.role) [
  | inl e ↦ rw (append_block-user b m e) (record m { content = m.content ++ b ∷ [] }, refl, e)
  | inr e ↦ rw (append_block-assistant b m e) (record { role = user; content = b ∷ [] }, refl, refl)
]
append_block-EndsInUser b (m ∷ n ∷ ns) =
    rw append_block-cons
      (cons-EndsInUser m (append_block b (n ∷ ns)) (append_block-EndsInUser b (n ∷ ns)))

-- Adding a block leaves the first message's role.
append_block-head :
    (b : Block) (m : Message) (ms : List Message)
    → (n : Message) × (ns : List Message) × (append_block b (m ∷ ms) ≡ n ∷ ns) × (n.role ≡ m.role)
append_block-head b m [] = elim (Role-cases m.role) [
  | inl e ↦ (record m { content = m.content ++ b ∷ [] }, [], append_block-user b m e, refl)
  | inr e ↦ (m, record { role = user; content = b ∷ [] } ∷ [], append_block-assistant b m e, refl)
]
append_block-head b m (k ∷ ks) = (m, append_block b (k ∷ ks), append_block-cons b m k ks, refl)

cons-Alternates :
    (m : Message) (ms : List Message) {n : Message} {ns : List Message}
    → ms ≡ n ∷ ns
    → m.role ≢ n.role
    → Alternates ms
    → Alternates (m ∷ ms)
cons-Alternates m [] e ne h = tt
cons-Alternates m (k ∷ ks) e ne h = ((λ same. ne (same ∙ cc e)), h)

pub append_block-Alternates :
    (b : Block) (ms : List Message) → Alternates ms → Alternates (append_block b ms)
append_block-Alternates b [] h = unfold append_block in tt
append_block-Alternates b (m ∷ []) h = elim (Role-cases m.role) [
  | inl e ↦ rw (append_block-user b m e) tt
  | inr e ↦ rw (append_block-assistant b m e) ((λ x. cc), tt)
]
append_block-Alternates b (m ∷ n ∷ ns) h =
    let (k, ks, e, r) = append_block-head b n ns in
    rw append_block-cons (
      cons-Alternates m (append_block b (n ∷ ns)) e (λ x. h.0 (x ∙ r))
        (append_block-Alternates b (n ∷ ns) h.1))

pub append_block-after :
    (b : Block) (ms : List Message) (bs : List Block)
    → append_block b (ms ++ record { role = user; content = bs } ∷ [])
      ≡ ms ++ record { role = user; content = bs ++ b ∷ [] } ∷ []
unfolding append_block
append_block-after b [] bs = refl
append_block-after b (m ∷ []) bs = refl
append_block-after b (m ∷ n ∷ ns) bs = ap (◌∷◌ m) (append_block-after b (n ∷ ns) bs)

add_blocks-after :
    (bs : List Block) (ms : List Message) (cs : List Block)
    → add_blocks bs (ms ++ record { role = user; content = cs } ∷ [])
      ≡ ms ++ record { role = user; content = cs ++ bs } ∷ []
add_blocks-after [] ms cs = rw append-nil
add_blocks-after (b ∷ bs) ms cs =
    ap (add_blocks bs) (append_block-after b ms cs)
    ∙ add_blocks-after bs ms (cs ++ b ∷ [])
    ∙ rw append_assoc

append_block-EndsInAssistant :
    (b : Block) (ms : List Message) (m : Message)
    → last_message ms ≡ some m
    → m.role ≡ assistant
    → append_block b ms ≡ ms ++ record { role = user; content = b ∷ [] } ∷ []
unfolding last_message
append_block-EndsInAssistant b [] m e r = absurd (cc e)
append_block-EndsInAssistant b (k ∷ []) m e r = append_block-assistant b k (rw (← r) (cc e))
append_block-EndsInAssistant b (k ∷ n ∷ ns) m e r =
    append_block-cons b k n ns ∙ ap (◌∷◌ k) (append_block-EndsInAssistant b (n ∷ ns) m e r)

-- A transcript with unanswered calls ends in an assistant message.
unanswered-last :
    (ms : List Message) {c : Block} {cs : List Block}
    → unanswered ms ≡ c ∷ cs
    → (m : Message) × (last_message ms ≡ some m) × (m.role ≡ assistant)
unfolding unanswered
unanswered-last ms h = elim (Option-cases (last_message ms)) [
  | inl e ↦ absurd (ground arith)
  | inr (m, e) ↦ elim (Role-cases m.role) [ inl r ↦ absurd (ground arith) | inr r ↦ (m, e, r) ]
]

followed_by :
    (b : Block) (bs : List Block) (ms : List Message) (m : Message)
    → last_message ms ≡ some m
    → m.role ≡ assistant
    → ms ++ record { role = user; content = b ∷ bs } ∷ [] ≡ add_blocks (b ∷ bs) ms
followed_by b bs ms m l r =
    sym (
      ap (add_blocks bs) (append_block-EndsInAssistant b ms m l r)
      ∙ add_blocks-after bs ms (b ∷ []))

answer_calls-add_blocks :
    (ms : List Message) (calls : List Block)
    → unanswered ms ≡ calls
    → answer_calls calls ms ≡ add_blocks (answers calls) ms
unfolding answer_calls answers
answer_calls-add_blocks ms [] e = refl
answer_calls-add_blocks ms (c ∷ cs) e =
    let (m, l, r) = unanswered-last ms e in
    followed_by (tool_result (call_id c) stopped true) (answers cs) ms m l r

add_blocks-append :
    (xs ys : List Block) (ms : List Message)
    → add_blocks (xs ++ ys) ms ≡ add_blocks ys (add_blocks xs ms)
add_blocks-append [] ys ms = refl
add_blocks-append (x ∷ xs) ys ms = add_blocks-append xs ys (append_block x ms)

pub add_blocks-Alternates :
    (bs : List Block) (ms : List Message) → Alternates ms → Alternates (add_blocks bs ms)
add_blocks-Alternates [] ms h = h
add_blocks-Alternates (b ∷ bs) ms h =
    add_blocks-Alternates bs (append_block b ms) (append_block-Alternates b ms h)

add_text-messages :
    (t : Option Text) (s : Session)
    → (add_text t s).messages ≡ add_blocks (text_blocks t) s.messages
unfolding add_text
add_text-messages none s = refl
add_text-messages (some []) s = refl
add_text-messages (some (c ∷ cs)) s = refl

-- Reopening adds to the user's turn an error result for each unanswered call, in the order of
-- the calls, and then the caller's text if it has any; it changes nothing else of the transcript.
pub reopen-messages :
    (s : Session) (t : Option Text)
    → (reopen s t).messages
      ≡ add_blocks (answers (unanswered s.messages) ++ text_blocks t) s.messages
unfolding reopen
reopen-messages s t =
    add_text-messages t _
    ∙ ap (add_blocks (text_blocks t))
        (answer_calls-add_blocks s.messages (unanswered s.messages) refl)
    ∙ sym (add_blocks-append (answers (unanswered s.messages)) (text_blocks t) s.messages)
