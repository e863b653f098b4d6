-- ===== src/Step/Ready.antt =====
-- What a transcript may be sent as and kept as, and what a reply and its answers make of it.
use nare.Prelude.{◌≡◌, refl, sym, ap, ◌∙◌, ◌≢◌, List, [], ◌∷◌, ◌++◌, some, append_assoc, Text}
use nare.Session.Types.{user, assistant, Message, Block, text}
use nare.Session.Reopen.{last_message, append_block}
use nare.Session.Continue.{Alternates, EndsInUser, append_block-EndsInUser, append_block-Alternates}
use nare.Session.Pairing.{
  asked_ids, given_ids, IsAnswered, append_block-IsAnswered, append-IsAnswered,
}
use nare.Step.Reply.{Reply}
use nare.Step.Frames.{ids}

-- What may be sent: the roles alternate, the user speaks last, and each assistant message is followed
-- by a result for each of its calls, in their order.
pub record IsReady (ms : List Message) : Type 0 where
  pub alternates : Alternates ms
  pub ends_in_user : EndsInUser ms
  pub answered : IsAnswered ms

-- What may be kept: the same, where the last message may be an assistant's that has no calls.
pub record IsClosed (ms : List Message) : Type 0 where
  pub alternates : Alternates ms
  pub answered : IsAnswered ms

-- A transport's reply lists the calls that its content holds.
abbrev pub IsHonest : Reply → Type 0
IsHonest reply = asked_ids reply.content ≡ ids reply.tool_calls

pub ready-IsClosed : (ms : List Message) → IsReady ms → IsClosed ms
ready-IsClosed ms h = record { alternates = h.alternates; answered = h.answered }

pub append_block-IsReady :
    (t : Text) (ms : List Message) → IsClosed ms → IsReady (append_block (text t) ms)
append_block-IsReady t ms h = record {
  alternates = append_block-Alternates (text t) ms h.alternates;
  ends_in_user = append_block-EndsInUser (text t) ms;
  answered = append_block-IsAnswered t ms h.answered;
}

last_message-append : (ms : List Message) (m : Message) → last_message (ms ++ m ∷ []) ≡ some m
unfolding last_message
last_message-append [] m = refl
last_message-append (k ∷ []) m = refl
last_message-append (k ∷ n ∷ ns) m = last_message-append (n ∷ ns) m

append-Alternates :
    (ms : List Message) (l m : Message)
    → Alternates ms
    → last_message ms ≡ some l
    → l.role ≢ m.role
    → Alternates (ms ++ m ∷ [])
unfolding last_message
append-Alternates [] l m h e ne = tt
append-Alternates (k ∷ []) l m h e ne =
    ((λ same. ne (ap (λ x. x.role) (some-injective (sym e)) ∙ same)), tt)
  where
    some-injective : {a b : Message} → some a ≡ some b → a ≡ b
    some-injective e = cc e
append-Alternates (k ∷ n ∷ ns) l m h e ne = (h.0, append-Alternates (n ∷ ns) l m h.1 e ne)

user-not-assistant : user ≢ assistant
user-not-assistant e = cc e

assistant-not-user : assistant ≢ user
assistant-not-user e = cc e

-- A reply follows the user's turn, and the user's turn a reply.
follow-Alternates :
    (ms : List Message) (content : List Block)
    → IsReady ms
    → Alternates (ms ++ record { role = assistant; content = content } ∷ [])
follow-Alternates ms content h =
    let (l, e, r) = h.ends_in_user in
    append-Alternates ms l (record { role = assistant; content = content }) h.alternates e
      (λ same. user-not-assistant (sym r ∙ same))

pub answer-IsReady :
    (ms : List Message) (content answers : List Block)
    → IsReady ms
    → asked_ids content ≡ given_ids answers
    → IsReady (
        (ms ++ record { role = assistant; content = content } ∷ [])
        ++ record { role = user; content = answers } ∷ [])
answer-IsReady ms content answers h paired =
    let said : Message = record { role = assistant; content = content } in
    let told : Message = record { role = user; content = answers } in
    record {
      alternates =
          append-Alternates (ms ++ said ∷ []) said told (follow-Alternates ms content h)
            (last_message-append ms said) assistant-not-user;
      ends_in_user = (told, last_message-append (ms ++ said ∷ []) told, refl);
      answered = rw append_assoc (
          append-IsAnswered ms (said ∷ told ∷ []) h.ends_in_user h.answered
            ((λ _. paired), ((λ a. absurd (user-not-assistant a)), tt)));
    }

-- A reply that calls nothing.
pub follow-IsClosed :
    (ms : List Message) (content : List Block)
    → IsReady ms
    → asked_ids content ≡ []
    → IsClosed (ms ++ record { role = assistant; content = content } ∷ [])
follow-IsClosed ms content h silent = record {
  alternates = follow-Alternates ms content h;
  answered =
      append-IsAnswered ms (record { role = assistant; content = content } ∷ []) h.ends_in_user
        h.answered ((λ _. silent), tt);
}
