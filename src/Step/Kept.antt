-- ===== src/Step/Kept.antt =====
-- The transcript after a reply, and after what is said to it.
use nare.Prelude.{
  ◌≡◌, refl, sym, ap, ◌∙◌, ◌≢◌, ◌⊎◌, inl, inr, Bool, true, false, ◌&&◌, List, [], ◌∷◌, ◌++◌,
  if◌then◌else◌,
}
use nare.Session.Types.{Session, user, assistant, Message, Block, working}
use nare.Session.Pairing.{asked_ids, given_ids}
use nare.Step.Frames.{session_of}
use nare.Step.Speaks.{Spoken}
use nare.Step.Reply.{Reply}
use nare.Step.Calls.{TurnEnd}
use nare.Step.Turn.{is_nil, keep_reply}
use nare.Step.Ready.{
  IsReady, IsClosed, ready-IsClosed, append_block-IsReady, follow-IsClosed, answer-IsReady,
}

-- A turn that goes on has a transcript that may be sent.
abbrev pub Closes : Bool → Session → Type 0
Closes summary t = IsClosed t.messages × (t.status ≡ working → summary ≡ false → IsReady t.messages)

abbrev pub Ended : Bool → TurnEnd → Type 0
Ended summary (TurnEnd.returned t limit) = Closes summary t
Ended summary (TurnEnd.raised t limit why) = IsClosed t.messages
Ended summary (TurnEnd.stopped t limit) = IsClosed t.messages

pub ready-Closes : (summary : Bool) (t : Session) → IsReady t.messages → Closes summary t
ready-Closes summary t h = (ready-IsClosed t.messages h, λ _ _. h)

-- The transcript after a reply: it is kept, or it was empty and is not.
abbrev pub Kept : Reply → Session → Session → Type 0
Kept reply s kept =
    (kept.messages ≡ s.messages ++ record { role = assistant; content = reply.content } ∷ [])
    ⊎ ((kept.messages ≡ s.messages) × (reply.content ≡ []))

pub keep_reply-Kept :
    (reply : Reply) (corrected : Bool) (s : Session) → Kept reply s (keep_reply reply corrected s)
unfolding keep_reply
keep_reply-Kept reply corrected s = by_content reply.content refl corrected
  where
    by_content :
        (content : List Block)
        → reply.content ≡ content
        → (corrected : Bool)
        → let after : Session = if corrected && is_nil content then s else record s {
          messages = s.messages ++ record { role = assistant; content = content } ∷ [];
        } in
          Kept reply s after
    by_content [] e true = inr (refl, e)
    by_content [] e false = inl (rw e refl)
    by_content (b ∷ bs) e true = inl (rw e refl)
    by_content (b ∷ bs) e false = inl (rw e refl)

-- A reply without calls.
pub Spoken-Closes :
    (summary : Bool) (reply : Reply) (s kept t : Session)
    → IsReady s.messages
    → asked_ids reply.content ≡ []
    → Kept reply s kept
    → Spoken summary kept t
    → Closes summary t
Spoken-Closes summary reply s kept t h silent (inl e) (inl (said, m)) = ready-Closes summary t (
    rw (ap (λ f. f.0) m, e)
      (append_block-IsReady said _ (follow-IsClosed s.messages reply.content h silent)))
Spoken-Closes summary reply s kept t h silent (inl e) (inr (m, over)) = (
  rw (ap (λ f. f.0) m, e) (follow-IsClosed s.messages reply.content h silent),
  λ on ongoing. absurd (not_over over on ongoing),
)
  where
    not_over : (t.status ≢ working) ⊎ (summary ≡ true) → t.status ≡ working → summary ≡ false → ⊥
    not_over (inl ne) on ongoing = ne on
    not_over (inr e) on ongoing = cc (sym e ∙ ongoing)
Spoken-Closes summary reply s kept t h silent (inr (e, nil)) (inl (said, m)) =
    ready-Closes summary t
      (rw (ap (λ f. f.0) m, e) (append_block-IsReady said s.messages (ready-IsClosed s.messages h)))
Spoken-Closes summary reply s kept t h silent (inr (e, nil)) (inr (m, over)) =
    ready-Closes summary t (rw (ap (λ f. f.0) m, e) h)

-- A reply with calls is kept, and answered.
pub answered-IsReady :
    (reply : Reply) (s kept : Session) (after : List Message) (content : List Block)
    → IsReady s.messages
    → reply.content ≢ []
    → asked_ids reply.content ≡ given_ids content
    → Kept reply s kept
    → after ≡ kept.messages ++ record { role = user; content = content } ∷ []
    → IsReady after
answered-IsReady reply s kept after content h ne paired (inl e) m =
    rw (m, e) (answer-IsReady s.messages reply.content content h paired)
answered-IsReady reply s kept after content h ne paired (inr (e, nil)) m = absurd (ne nil)

pub ready-Ended :
    (summary : Bool) (out : TurnEnd) → IsReady (session_of out).messages → Ended summary out
ready-Ended summary (TurnEnd.returned t limit) h = ready-Closes summary t h
ready-Ended summary (TurnEnd.raised t limit why) h = ready-IsClosed t.messages h
ready-Ended summary (TurnEnd.stopped t limit) h = ready-IsClosed t.messages h
