-- ===== src/Run/Follows.antt =====
-- What a run does round a turn, and what of a session that leaves as it is.
use nare.Prelude.{
  ℕ, ◌≡◌, refl, sym, ap, ◌∙◌, ◌≢◌, ◌⊎◌, inl, inr, Bool, true, false, List, [], ◌∷◌, Option, none,
  some, Text, arith, if◌then◌else◌,
}
use nare.Session.Types.{Session, Status, working, blocked, done, error}
use nare.Session.Reopen.{append_user_text}
use nare.Loop.Hold.{add_event}
use nare.Loop.Budget.{reasons, stop_for, check_budget}
use nare.Step.Reply.{ToolCallLimit, CutoffLimit}
use nare.Step.Calls.{TurnEnd}
use nare.Step.Frames.{session_of}
use nare.Step.Counts.{IsOver}
use nare.Run.Setup.{Invocation, Flow, drain, is_working}
use nare.Run.Turns.{
  hear, read_inbox, announced, is_settled, kept_calling, stop_calling, after_turn, run_failed,
  closed_by, max_turns_stop, turn_ended,
}

pub error-not-working : error ≢ working
error-not-working e = cc e

pub is_working-true : (s : Status) → is_working s ≡ true → s ≡ working
is_working-true working e = refl
is_working-true blocked e = absurd (cc e)
is_working-true done e = absurd (cc e)
is_working-true error e = absurd (cc e)

pub is_working-false : (s : Status) → is_working s ≡ false → s ≢ working
is_working-false s e f = cc (sym e ∙ ap is_working f)

pub hear-turns : (ts : List Text) (s : Session) → (hear ts s).turns ≡ s.turns
unfolding hear append_user_text add_event
hear-turns [] s = refl
hear-turns (t ∷ ts) s = hear-turns ts _

pub read_inbox-turns :
    (inbox : Option (ℕ → List Text)) (f : Flow)
    → (read_inbox inbox f).session.turns ≡ f.session.turns
unfolding read_inbox drain
read_inbox-turns none f = refl
read_inbox-turns (some inbox) f = hear-turns (inbox f.begun) f.session

pub announced-turns :
    (has_tools summary : Bool) (remaining : ℕ) (s : Session)
    → (announced has_tools summary remaining s).turns ≡ s.turns
unfolding announced append_user_text add_event
announced-turns has_tools true remaining s = refl
announced-turns has_tools false remaining s = ground arith

-- The ceilings stop a run as an error, or leave the session as it is.
pub check_budget-cases :
    (money : ℕ → Text) (s : Session)
    → ◌≡◌ {A = Bool × Session} (check_budget money s) (false, s)
      ⊎ ((t : Session) × ◌≡◌ {A = Bool × Session} (check_budget money s) (true, t)
          × (t.status ≡ error)
          × (t.turns ≡ s.turns)
          × (t.messages ≡ s.messages))
unfolding check_budget stop_for add_event
check_budget-cases money s = by_reasons (reasons money s)
  where
    by_reasons :
        (rs : List Text)
        → ◌≡◌ {A = Bool × Session} (stop_for rs s) (false, s)
          ⊎ ((t : Session) × ◌≡◌ {A = Bool × Session} (stop_for rs s) (true, t)
              × (t.status ≡ error)
              × (t.turns ≡ s.turns)
              × (t.messages ≡ s.messages))
    by_reasons [] = inl refl
    by_reasons (r ∷ rs) = inr (_, refl, refl, refl, refl)

-- What follows a turn that returned counts no turn and keeps the transcript, and a run that is an error
-- stays one.
pub record Follows (s t : Session) : Type 0 where
  pub turns : t.turns ≡ s.turns
  pub messages : t.messages ≡ s.messages
  pub stays : s.status ≡ error → t.status ≡ error
  pub worked : t.status ≡ working → s.status ≡ working

refl-Follows : (s : Session) → Follows s s
refl-Follows s = record { turns = refl; messages = refl; stays = λ e. e; worked = λ e. e }

budget-Follows : (money : ℕ → Text) (s : Session) → Follows s (check_budget money s).1
budget-Follows money s = elim (check_budget-cases money s) [
  | inl e ↦ rw e (refl-Follows s)
  | inr (t, e, status, turns, messages) ↦ rw e (record {
    turns = turns;
    messages = messages;
    stays = λ _. status;
    worked = λ on. absurd (error-not-working (sym status ∙ on));
  })
]

stop_calling-Follows : (limit : Option ℕ) (s : Session) → Follows s (stop_calling limit s)
unfolding add_event
stop_calling-Follows none s = refl-Follows s
stop_calling-Follows (some limit) s = record {
  turns = refl;
  messages = refl;
  stays = λ _. refl;
  worked = λ on. absurd (error-not-working on);
}

trans-Follows : (r s t : Session) → Follows r s → Follows s t → Follows r t
trans-Follows r s t a b = record {
  turns = b.turns ∙ a.turns;
  messages = b.messages ∙ a.messages;
  stays = λ e. b.stays (a.stays e);
  worked = λ e. a.worked (b.worked e);
}

choose-Follows :
    (r s t : Session) (b : Bool) → Follows r s → Follows r t → Follows r (if b then s else t)
choose-Follows r s t true first second = first
choose-Follows r s t false first second = second

pub after_turn-Follows :
    (money : ℕ → Text) (limit : Option ToolCallLimit) (s : Session)
    → Follows s (after_turn money limit s)
unfolding after_turn
after_turn-Follows money limit s =
    let spent = if is_settled s.status then s else (check_budget money s).1 in
    let first : Follows s spent =
      choose-Follows s s (check_budget money s).1 (is_settled s.status) (refl-Follows s)
        (budget-Follows money s) in
    choose-Follows s (stop_calling (kept_calling limit) spent) spent (is_working spent.status)
      (trans-Follows s spent (stop_calling (kept_calling limit) spent) first
        (stop_calling-Follows (kept_calling limit) spent))
      first

closed_by-Follows :
    (summary : Bool) (max_turns : ℕ) (s : Session) → Follows s (closed_by summary max_turns s)
unfolding closed_by add_event
closed_by-Follows false max_turns s = refl-Follows s
closed_by-Follows true max_turns s = record {
  turns = refl;
  messages = refl;
  stays = λ _. refl;
  worked = λ on. absurd (error-not-working on);
}

closed_by-limit :
    (summary : Bool) (max_turns : ℕ) (s : Session)
    → summary ≡ true
    → ((closed_by summary max_turns s).status ≡ error)
      × ((closed_by summary max_turns s).stop_reason ≡ some max_turns_stop)
unfolding closed_by add_event
closed_by-limit true max_turns s e = (refl, refl)
closed_by-limit false max_turns s e = absurd (cc e)

-- What comes of a turn's end: its turns and its transcript, that a run that is over is an error, and
-- that a summary ends the run.
pub record Lands (summary : Bool) (out : TurnEnd) (s : Session) : Type 0 where
  pub turns : s.turns ≡ (session_of out).turns
  pub messages : s.messages ≡ (session_of out).messages
  pub stays : IsOver out → s.status ≡ error
  pub worked : s.status ≡ working → (session_of out).status ≡ working
  pub ends : summary ≡ true → (s.status ≡ error) × (s.stop_reason ≡ some max_turns_stop)

closed_by-Lands :
    (summary : Bool) (max_turns : ℕ) (out : TurnEnd) (t : Session)
    → Follows (session_of out) t
    → (IsOver out → t.status ≡ error)
    → Lands summary out (closed_by summary max_turns t)
closed_by-Lands summary max_turns out t h over =
    let last = closed_by-Follows summary max_turns t in
    record {
      turns = last.turns ∙ h.turns;
      messages = last.messages ∙ h.messages;
      stays = λ e. last.stays (over e);
      worked = λ on. h.worked (last.worked on);
      ends = closed_by-limit summary max_turns t;
    }

pub turn_ended-Lands :
    (i : Invocation) (summary : Bool) (f : Flow) (counted : Option CutoffLimit) (out : TurnEnd)
    → Lands summary out (turn_ended i summary f counted out).0.session
unfolding turn_ended drain
turn_ended-Lands i summary f counted (TurnEnd.returned t limit) =
    let h = after_turn-Follows i.money limit t in
    let closed =
      closed_by-Lands summary i.max_turns (TurnEnd.returned t limit) _ h (λ e. h.stays e.0) in
    record {
      turns = closed.turns;
      messages = closed.messages;
      stays = closed.stays;
      worked = closed.worked;
      ends = closed.ends;
    }
turn_ended-Lands i summary f counted (TurnEnd.raised t limit why) =
    let h : Follows t (run_failed why t) =
      unfold run_failed in
      unfold add_event in
      record {
        turns = refl;
        messages = refl;
        stays = λ _. refl;
        worked = λ on. absurd (error-not-working on);
      } in
    let closed =
      closed_by-Lands summary i.max_turns (TurnEnd.raised t limit why) (run_failed why t) h
        (λ _. unfold run_failed in unfold add_event in refl) in
    record {
      turns = closed.turns;
      messages = closed.messages;
      stays = closed.stays;
      worked = closed.worked;
      ends = closed.ends;
    }
turn_ended-Lands i summary f counted (TurnEnd.stopped t limit) =
    closed_by-Lands summary i.max_turns (TurnEnd.stopped t limit) t (refl-Follows t)
      (λ over. absurd over)
