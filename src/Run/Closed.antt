-- ===== src/Run/Closed.antt =====
-- A run leaves a transcript that can be saved and taken up again.
use nare.Prelude.{
  ℕ, zero, suc, ◌+◌, ◌-◌, ◌≡◌, refl, sym, ap, ◌∙◌, inl, inr, Bool, true, false, not, List, [], ◌∷◌,
  Option, none, some, Text, leb, Bool-cases, if◌then◌else◌,
}
use nare.Session.Types.{Session, working}
use nare.Session.Reopen.{append_user_text}
use nare.Loop.Hold.{add_event}
use nare.Loop.Budget.{Prices}
use nare.Step.Reply.{CutoffLimit, Reply}
use nare.Step.Calls.{TurnEnd}
use nare.Step.Ready.{IsReady, IsClosed, IsHonest, ready-IsClosed, append_block-IsReady}
use nare.Step.Kept.{Ended}
use nare.Step.Closed.{step-Ended}
use nare.Retry.Loop.{Attempt}
use nare.Step.Turn.{is_nil, Request}
use nare.Run.Setup.{Invocation, Flow, drain, is_working}
use nare.Run.Turns.{
  hear, read_inbox, announced, turn_ended, after_step, turn_of, take_turn, one_turn, next_pass,
  run_from,
}
use nare.Run.Follows.{
  check_budget-cases, error-not-working, is_working-true, Lands, turn_ended-Lands,
}

-- A working session may be sent, another one kept.
abbrev pub Sound : Session → Type 0
Sound s = IsClosed s.messages × (s.status ≡ working → IsReady s.messages)

hear-IsReady : (ts : List Text) (s : Session) → IsReady s.messages → IsReady (hear ts s).messages
unfolding hear append_user_text add_event
hear-IsReady [] s h = h
hear-IsReady (t ∷ ts) s h =
    hear-IsReady ts _ (append_block-IsReady t s.messages (ready-IsClosed s.messages h))

read_inbox-IsReady :
    (inbox : Option (ℕ → List Text)) (f : Flow)
    → IsReady f.session.messages
    → IsReady (read_inbox inbox f).session.messages
unfolding read_inbox drain
read_inbox-IsReady none f h = h
read_inbox-IsReady (some inbox) f h = hear-IsReady (inbox f.begun) f.session h

announced-IsReady :
    (has_tools summary : Bool) (remaining : ℕ) (s : Session)
    → IsReady s.messages
    → IsReady (announced has_tools summary remaining s).messages
unfolding announced append_user_text add_event
announced-IsReady has_tools true remaining s h =
    append_block-IsReady _ s.messages (ready-IsClosed s.messages h)
announced-IsReady has_tools false remaining s h = elim (Bool-cases (leb remaining 5)) [
  | inr e ↦ rw e h
  | inl e ↦ elim (Bool-cases has_tools) [
    | inl t ↦ rw (e, t) (append_block-IsReady _ s.messages (ready-IsClosed s.messages h))
    | inr t ↦ rw (e, t) h
  ]
]

-- After a turn: what is kept, and unless the run is interrupted, what may be sent.
abbrev Landed : Flow × Bool → Type 0
Landed (g, interrupted) =
    IsClosed g.session.messages
    × (interrupted ≡ false → g.session.status ≡ working → IsReady g.session.messages)

turn_ended-Landed :
    (i : Invocation) (summary : Bool) (f : Flow) (counted : Option CutoffLimit) (out : TurnEnd)
    → Ended summary out
    → Landed (turn_ended i summary f counted out)
unfolding turn_ended drain
turn_ended-Landed i summary f counted (TurnEnd.returned t limit) h =
    let lands = turn_ended-Lands i summary f counted (TurnEnd.returned t limit) in
    (rw lands.messages h.0, λ _ on. rw lands.messages (h.1 (lands.worked on) (ongoing lands on)))
  where
    ongoing :
        {s : Session}
        → Lands summary (TurnEnd.returned t limit) s
        → s.status ≡ working
        → summary ≡ false
    ongoing lands on = elim (Bool-cases summary) [
      | inl e ↦ absurd (error-not-working (sym (lands.ends e).0 ∙ on))
      | inr e ↦ e
    ]
turn_ended-Landed i summary f counted (TurnEnd.raised t limit why) h =
    let lands = turn_ended-Lands i summary f counted (TurnEnd.raised t limit why) in
    (rw lands.messages h, λ _ on. absurd (error-not-working (sym (lands.stays tt) ∙ on)))
turn_ended-Landed i summary f counted (TurnEnd.stopped t limit) h =
    let lands = turn_ended-Lands i summary f counted (TurnEnd.stopped t limit) in
    (rw lands.messages h, λ e. absurd (cc e))

-- Every reply of the transport lists the calls of its content, in every turn of the run.
abbrev pub IsHonestRun : Invocation → Type 0
IsHonestRun i =
    (turn n : ℕ) (request : Request) (reply : Reply)
    → i.attempts turn request n ≡ Attempt.reply reply
    → IsHonest reply

module _ (i : Invocation) (honest : IsHonestRun i) (window : ℕ) (prices : Option Prices)
    (first : ℕ) where
  take_turn-Landed :
      (f : Flow)
      → IsReady f.session.messages
      → (p : Flow × Bool) × (take_turn i window prices first f ≡ some p) × Landed p
  unfolding take_turn drain
  take_turn-Landed f h =
      let used = f.session.turns - first in
      let summary = leb i.max_turns used in
      let said =
        announced (not (is_nil i.turn.tools.offered)) summary (i.max_turns - used) f.session in
      let asked : Flow = record f { session = said; begun = f.begun + 1 } in
      let sent = if i.turn.streamed then drain asked else asked in
      let ready : IsReady sent.session.messages = drained i.turn.streamed asked (
        announced-IsReady (not (is_nil i.turn.tools.offered)) summary (i.max_turns - used) f.session
          h) in
      let (out, counted, eq, ended) =
        step-Ended (turn_of i window prices first f.begun summary) sent.limit sent.cutoffs
          sent.session (λ request n reply. honest f.begun n request reply) ready in
      (
        turn_ended i summary sent counted out,
        ap (after_step i summary sent) eq,
        turn_ended-Landed i summary sent counted out ended,
      )
    where
      drained :
          (streamed : Bool) (asked : Flow)
          → IsReady asked.session.messages
          → IsReady (if streamed then drain asked else asked).session.messages
      drained true asked h = h
      drained false asked h = h

  one_turn-Landed :
      (f : Flow)
      → IsReady f.session.messages
      → (p : Flow × Bool) × (one_turn i window prices first f ≡ some p) × Landed p
  unfolding one_turn drain
  one_turn-Landed f h =
      let heard = read_inbox i.inbox f in
      let ready = read_inbox-IsReady i.inbox f h in
      elim (check_budget-cases i.money heard.session) [
        | inl e ↦ rw e (take_turn-Landed heard ready)
        | inr (t, e, status, _, same) ↦ rw e (
          _,
          refl,
          (
            rw same (ready-IsClosed heard.session.messages ready),
            λ _ on. absurd (error-not-working (sym status ∙ on)),
          ),
        )
      ]

  next_pass-IsClosed :
      (fuel : ℕ) (p q : Flow × Bool)
      → Landed p
      → next_pass (run_from i window prices first fuel) (some p) ≡ some q
      → ((g : Flow)
          → Sound g.session
          → run_from i window prices first fuel g ≡ some q
          → IsClosed q.0.session.messages)
      → IsClosed q.0.session.messages
  next_pass-IsClosed fuel (g, true) q landed e again =
      let same : ◌≡◌ {A = Flow × Bool} (g, true) q = cc e in rw (← same) landed.0
  next_pass-IsClosed fuel (g, false) q landed e again = again g (landed.0, landed.1 refl) e

  pub run_from-IsClosed :
      (fuel : ℕ) (f : Flow) (q : Flow × Bool)
      → Sound f.session
      → run_from i window prices first fuel f ≡ some q
      → IsClosed q.0.session.messages
  unfolding run_from
  run_from-IsClosed zero f q h e = absurd (cc e)
  run_from-IsClosed (suc fuel) f q h e = elim (Bool-cases (is_working f.session.status)) [
    | inr off ↦
        let stopped : ◌≡◌ {A = Option (Flow × Bool)} (some (f, false)) (some q) =
          rw (off, run_from) at e in
        let same : ◌≡◌ {A = Flow × Bool} (f, false) q = cc stopped in rw (← same) h.0
    | inl on ↦
        let (p, eq, landed) = one_turn-Landed f (h.1 (is_working-true f.session.status on)) in
        next_pass-IsClosed fuel p q landed (rw (on, eq, run_from) at e)
          (λ g sound is. run_from-IsClosed fuel g q sound is)
  ]
