-- ===== src/Step/Keeps.antt =====
-- What of a turn leaves the transcript as it is, and compaction, which keeps its roles.
use nare.Prelude.{
  ◌≡◌, refl, sym, ap, ◌∙◌, inl, inr, Bool, true, false, List, [], ◌∷◌, map, Option, none, some,
  Text, Bool-cases,
}
use nare.Session.Types.{
  Session, Role, Message, Block, text, thinking, redacted_thinking, tool_use, tool_result, other,
}
use nare.Session.Reopen.{last_message}
use nare.Session.Continue.{Alternates, EndsInUser}
use nare.Loop.Hold.{add_event}
use nare.Compact.Elide.{CompactionReport, compact}
use nare.Compact.Keeps.{kept_of, kept_all, skeleton, skeleton-compact}
use nare.Retry.Loop.{Retried}
use nare.Step.Reply.{is_cutoff, Reply, CutoffLimit}
use nare.Step.Answer.{Schema}
use nare.Step.Turn.{
  Mode, plain, tools_kept, constrained, Turn, compacted, report_compaction, report_mode,
  report_retries, cut_off, count_cutoff, keep_reply, block_events, retained, kept_turn,
}
use nare.Session.Pairing.{
  asked_ids, given_ids, asked_ids-append, given_ids-append, outline, outline-IsAnswered,
}
use nare.Step.Frames.{frame}
use nare.Step.Ready.{IsReady}

abbrev pub roles : List Message → List Role
roles ms = map (λ m. m.role) ms

roles-skeleton : (ms : List Message) → roles ms ≡ map (λ p. p.0) (skeleton ms)
roles-skeleton [] = refl
roles-skeleton (m ∷ ms) = ap (◌∷◌ m.role) (roles-skeleton ms)

pub roles-Alternates : (ms ns : List Message) → roles ms ≡ roles ns → Alternates ms → Alternates ns
roles-Alternates [] [] e h = tt
roles-Alternates [] (n ∷ ns) e h = absurd (cc e)
roles-Alternates (m ∷ ms) [] e h = absurd (cc e)
roles-Alternates (m ∷ ms) (n ∷ []) e h = tt
roles-Alternates (m ∷ []) (n ∷ k ∷ ns) e h = absurd (cc e)
roles-Alternates (m ∷ l ∷ ms) (n ∷ k ∷ ns) e h =
    let first : m.role ≡ n.role = cc e in
    let second : l.role ≡ k.role = cc e in
    let others : roles (l ∷ ms) ≡ roles (k ∷ ns) = cc e in
    ((λ same. h.0 (first ∙ same ∙ sym second)), roles-Alternates (l ∷ ms) (k ∷ ns) others h.1)

pub roles-EndsInUser : (ms ns : List Message) → roles ms ≡ roles ns → EndsInUser ms → EndsInUser ns
unfolding last_message
roles-EndsInUser [] ns e (l, is, r) = absurd (cc is)
roles-EndsInUser (m ∷ ms) [] e h = absurd (cc e)
roles-EndsInUser (m ∷ []) (n ∷ []) e (l, is, r) =
    let same : m.role ≡ n.role = cc e in
    let last : m ≡ l = cc is in (n, refl, sym same ∙ ap (λ x. x.role) last ∙ r)
roles-EndsInUser (m ∷ []) (n ∷ k ∷ ns) e h = absurd (cc e)
roles-EndsInUser (m ∷ l ∷ ms) (n ∷ []) e h = absurd (cc e)
roles-EndsInUser (m ∷ l ∷ ms) (n ∷ k ∷ ns) e h =
    let others : roles (l ∷ ms) ≡ roles (k ∷ ns) = cc e in
    roles-EndsInUser (l ∷ ms) (k ∷ ns) others h

pub report_compaction-frame :
    (turn : Turn) (r : Option CompactionReport) (s : Session)
    → frame (report_compaction turn.format r s) ≡ frame s
unfolding add_event
report_compaction-frame turn none s = refl
report_compaction-frame turn (some r) s = refl

asked_ids-kept_of : (b : Block) → asked_ids (kept_of b) ≡ asked_ids (b ∷ [])
asked_ids-kept_of (text t) = refl
asked_ids-kept_of (thinking t signature) = refl
asked_ids-kept_of (redacted_thinking d) = refl
asked_ids-kept_of (tool_use i n v) = refl
asked_ids-kept_of (tool_result i c true) = refl
asked_ids-kept_of (tool_result i c false) = refl
asked_ids-kept_of (other k) = refl

given_ids-kept_of : (b : Block) → given_ids (kept_of b) ≡ given_ids (b ∷ [])
given_ids-kept_of (text t) = refl
given_ids-kept_of (thinking t signature) = refl
given_ids-kept_of (redacted_thinking d) = refl
given_ids-kept_of (tool_use i n v) = refl
given_ids-kept_of (tool_result i c true) = refl
given_ids-kept_of (tool_result i c false) = refl
given_ids-kept_of (other k) = refl

asked_ids-kept_all : (bs : List Block) → asked_ids (kept_all bs) ≡ asked_ids bs
asked_ids-kept_all [] = refl
asked_ids-kept_all (b ∷ bs) =
    asked_ids-append (kept_of b) (kept_all bs)
    ∙ rw (asked_ids-kept_of b, asked_ids-kept_all bs) (sym (asked_ids-append (b ∷ []) bs))

given_ids-kept_all : (bs : List Block) → given_ids (kept_all bs) ≡ given_ids bs
given_ids-kept_all [] = refl
given_ids-kept_all (b ∷ bs) =
    given_ids-append (kept_of b) (kept_all bs)
    ∙ rw (given_ids-kept_of b, given_ids-kept_all bs) (sym (given_ids-append (b ∷ []) bs))

-- The outline is read of the skeleton.
outline-skeleton :
    (ms : List Message) → outline ms ≡ map (λ p. (p.0, asked_ids p.1, given_ids p.1)) (skeleton ms)
outline-skeleton [] = refl
outline-skeleton (m ∷ ms) =
    rw (asked_ids-kept_all m.content, given_ids-kept_all m.content)
      (ap (◌∷◌ (m.role, asked_ids m.content, given_ids m.content)) (outline-skeleton ms))

-- Compaction leaves what may be sent as such.
pub compacted-IsReady :
    (turn : Turn) (s : Session) → IsReady s.messages → IsReady (compacted turn s).messages
unfolding compacted
compacted-IsReady turn s h =
    let same : roles s.messages
        ≡ roles (compact turn.size turn.shown s.last_input turn.window s.messages).0 =
      roles-skeleton s.messages
      ∙ ap (map (λ p. p.0))
          (sym (skeleton-compact turn.size turn.shown s.last_input turn.window s.messages))
      ∙ sym (roles-skeleton _) in
    let paired =
      outline-skeleton s.messages
      ∙ ap (map (λ p. (p.0, asked_ids p.1, given_ids p.1)))
          (sym (skeleton-compact turn.size turn.shown s.last_input turn.window s.messages))
      ∙ sym (outline-skeleton _) in
    let (after, report) = compact turn.size turn.shown s.last_input turn.window s.messages in
    rw (ap (λ f. f.0) (report_compaction-frame turn report (record s { messages = after })))
      (record {
        alternates = roles-Alternates s.messages _ same h.alternates;
        ends_in_user = roles-EndsInUser s.messages _ same h.ends_in_user;
        answered = outline-IsAnswered s.messages _ paired h.answered;
      })

-- What is reported changes no message.
pub report_mode-frame :
    (turn : Turn) (mode : Mode) (s : Session) → frame (report_mode turn mode s) ≡ frame s
unfolding add_event
report_mode-frame turn plain s = refl
report_mode-frame turn tools_kept s = refl
report_mode-frame turn constrained s = refl

pub report_retries-frame :
    (turn : Turn) (rs : List Retried) (s : Session) → frame (report_retries turn rs s) ≡ frame s
unfolding report_retries add_event
report_retries-frame turn [] s = refl
report_retries-frame turn (r ∷ rs) s = elim (Bool-cases turn.streamed) [
  | inl e ↦ rw (e, report_retries) (report_retries-frame turn rs s)
  | inr e ↦ rw (e, report_retries) (report_retries-frame turn rs _)
]

pub count_cutoff-frame :
    (reply : Reply) (cutoffs : Option CutoffLimit) (s : Session)
    → frame (count_cutoff reply cutoffs s).2 ≡ frame s
unfolding count_cutoff cut_off add_event
count_cutoff-frame reply none s = elim (Bool-cases (is_cutoff reply.stop_reason)) [
  | inl e ↦ rw e refl
  | inr e ↦ rw e refl
]
count_cutoff-frame reply (some l) s = elim (Bool-cases (is_cutoff reply.stop_reason)) [
  | inl e ↦ rw e refl
  | inr e ↦ rw e refl
]

block_events-frame : (bs : List Block) (s : Session) → frame (block_events bs s) ≡ frame s
unfolding block_events add_event
block_events-frame [] s = refl
block_events-frame (text t ∷ bs) s = block_events-frame bs _
block_events-frame (thinking t signature ∷ bs) s = block_events-frame bs _
block_events-frame (redacted_thinking d ∷ bs) s = block_events-frame bs s
block_events-frame (tool_use i n v ∷ bs) s = block_events-frame bs s
block_events-frame (tool_result i c e ∷ bs) s = block_events-frame bs s
block_events-frame (other k ∷ bs) s = block_events-frame bs s

retained-frame :
    (schema : Option Schema) (said : Text) (s : Session) → frame (retained schema said s) ≡ frame s
retained-frame none said s = refl
retained-frame (some schema) said s = refl

pub kept_turn-frame :
    (turn : Turn) (reply : Reply) (corrected : Bool) (s : Session)
    → frame (kept_turn turn reply corrected s) ≡ frame (keep_reply reply corrected s)
unfolding kept_turn add_event
kept_turn-frame turn reply corrected s = elim (Bool-cases turn.streamed) [
  | inl e ↦ rw (e, retained-frame) refl
  | inr e ↦ rw (e, retained-frame) (block_events-frame reply.content (keep_reply reply corrected s))
]
