-- ===== src/Run/Ends.antt =====
-- Every run ends, within its turns.
use nare.Prelude.{
  ℕ, zero, suc, ◌+◌, ◌-◌, ◌≤◌, ◌<◌, ◌≡◌, refl, sym, ap, ◌∙◌, ◌≢◌, ◌⊎◌, inl, inr, Bool, true, false,
  not, Option, some, arith, leb, leb→le, leb→lt, Bool-cases, if◌then◌else◌,
}
use nare.Session.Types.{Session, working, error}
use nare.Loop.Budget.{Prices}
use nare.Step.Calls.{TurnEnd}
use nare.Step.Counts.{CountsFrom, CountsOne-CountsFrom, step-CountsOne}
use nare.Step.Turn.{is_nil}
use nare.Run.Setup.{Invocation, Flow, drain, is_working}
use nare.Run.Turns.{
  read_inbox, announced, max_turns_stop, turn_ended, after_step, turn_of, take_turn, one_turn,
  next_pass, run_from,
}
use nare.Run.Follows.{
  error-not-working, is_working-true, is_working-false, read_inbox-turns, announced-turns,
  check_budget-cases, Lands, turn_ended-Lands,
}

-- Within the turns allowed, or the summary was the one turn more and ended the run.
abbrev pub WithinTurns : ℕ → Session → Type 0
WithinTurns allowed s =
    (s.turns ≤ allowed)
    ⊎ ((s.turns ≡ allowed + 1) × (s.status ≡ error) × (s.stop_reason ≡ some max_turns_stop))

module _ (i : Invocation) (window : ℕ) (prices : Option Prices) (first : ℕ) where
  abbrev Bounded : Session → Type 0
  Bounded s = WithinTurns (first + i.max_turns) s

  -- After a pass: the run is interrupted, over, or one turn further within its turns.
  abbrev Passed : ℕ → Flow × Bool → Type 0
  Passed n (g, interrupted) =
      Bounded g.session
      × ((interrupted ≡ true)
          ⊎ (g.session.status ≢ working)
          ⊎ ((g.session.turns ≡ n + 1) × (n < first + i.max_turns)))

  landed-Passed :
      (n : ℕ) (summary : Bool) (out : TurnEnd) (p : Flow × Bool)
      → first ≤ n
      → n ≤ first + i.max_turns
      → leb i.max_turns (n - first) ≡ summary
      → CountsFrom n out
      → Lands summary out p.0.session
      → Passed n p
  landed-Passed n true out (g, interrupted) lo hi e (inl counts) lands = (
    inr (
      lands.turns ∙ counts ∙ omega (arith, leb→le i.max_turns (n - first) e),
      (lands.ends refl).0,
      (lands.ends refl).1,
    ),
    inr (inl (λ on. error-not-working (sym (lands.ends refl).0 ∙ on))),
  )
  landed-Passed n false out (g, interrupted) lo hi e (inl counts) lands =
      let used = leb→lt i.max_turns (n - first) e in
      let now = lands.turns ∙ counts in
      (inl (omega (arith, used, now)), inr (inr (now, omega (arith, used))))
  landed-Passed n summary out (g, interrupted) lo hi e (inr (counts, over)) lands = (
    inl (omega (arith, lands.turns, counts)),
    inr (inl (λ on. error-not-working (sym (lands.stays over) ∙ on))),
  )

  Passed-from : (n k : ℕ) (p : Flow × Bool) → n ≡ k → Passed n p → Passed k p
  Passed-from n k p e passed = rw (← e) passed

  -- A run that goes on is within its turns.
  working-turns : (s : Session) → s.status ≡ working → Bounded s → s.turns ≤ first + i.max_turns
  working-turns s on (inl within) = within
  working-turns s on (inr (_, status, _)) = absurd (error-not-working (sym status ∙ on))

  -- A turn within the turns allowed comes to an end.
  take_turn-Passed :
      (f : Flow)
      → first ≤ f.session.turns
      → f.session.turns ≤ first + i.max_turns
      → (p : Flow × Bool) × (take_turn i window prices first f ≡ some p) × Passed f.session.turns p
  unfolding take_turn drain
  take_turn-Passed f lo hi =
      let used = f.session.turns - first in
      let summary = leb i.max_turns used in
      let said =
        announced (not (is_nil i.turn.tools.offered)) summary (i.max_turns - used) f.session in
      let told : Flow = record f { session = said; begun = f.begun + 1 } in
      let sent = if i.turn.streamed then drain told else told in
      let same : sent.session.turns ≡ f.session.turns =
        drained i.turn.streamed told
        ∙ announced-turns (not (is_nil i.turn.tools.offered)) summary (i.max_turns - used)
            f.session in
      let (out, counted, eq, counts) =
        step-CountsOne (turn_of i window prices first f.begun summary) sent.limit sent.cutoffs
          sent.session in
      (
        turn_ended i summary sent counted out,
        ap (after_step i summary sent) eq,
        landed-Passed f.session.turns summary out (turn_ended i summary sent counted out) lo hi refl
            (CountsOne-CountsFrom f.session.turns sent.session out same counts)
            (turn_ended-Lands i summary sent counted out),
      )
    where
      drained :
          (streamed : Bool) (told : Flow)
          → (if streamed then drain told else told).session.turns ≡ told.session.turns
      drained true told = refl
      drained false told = refl

  one_turn-Passed :
      (f : Flow)
      → first ≤ f.session.turns
      → f.session.turns ≤ first + i.max_turns
      → (p : Flow × Bool) × (one_turn i window prices first f ≡ some p) × Passed f.session.turns p
  unfolding one_turn drain
  one_turn-Passed f lo hi =
      let heard = read_inbox i.inbox f in
      let same = read_inbox-turns i.inbox f in
      elim (check_budget-cases i.money heard.session) [
        | inl e ↦
            let (p, eq, passed) =
              take_turn-Passed heard (omega (arith, same, lo)) (omega (arith, same, hi)) in
            rw e (p, eq, Passed-from heard.session.turns f.session.turns p same passed)
        | inr (t, e, status, turns, _) ↦ rw e (
          _,
          refl,
          (
            inl (omega (arith, turns, same, hi)),
            inr (inl (λ on. error-not-working (sym status ∙ on))),
          ),
        )
      ]

  -- What is left to a run: nothing, or enough passes.
  abbrev Remaining : ℕ → Session → Type 0
  Remaining fuel s =
      (s.status ≢ working) ⊎ ((first ≤ s.turns) × (first + i.max_turns + 2 ≤ fuel + s.turns))

  abbrev Finishes : ℕ → Flow → Type 0
  Finishes fuel f =
      (p : Flow × Bool) × (run_from i window prices first fuel f ≡ some p)
      × Bounded p.0.session
      × ((p.1 ≡ true) ⊎ (p.0.session.status ≢ working))

  next_pass-Finishes :
      (fuel n : ℕ) (p : Flow × Bool)
      → first ≤ n
      → n ≤ first + i.max_turns
      → first + i.max_turns + 2 ≤ suc fuel + n
      → Passed n p
      → ((g : Flow) → 1 ≤ fuel → Bounded g.session → Remaining fuel g.session → Finishes fuel g)
      → (q : Flow × Bool) × (next_pass (run_from i window prices first fuel) (some p) ≡ some q)
        × Bounded q.0.session
        × ((q.1 ≡ true) ⊎ (q.0.session.status ≢ working))
  next_pass-Finishes fuel n (g, true) lo hi left (bounded, next) again =
      ((g, true), refl, bounded, inl refl)
  next_pass-Finishes fuel n (g, false) lo hi left (bounded, inl e) again = absurd (cc e)
  next_pass-Finishes fuel n (g, false) lo hi left (bounded, inr (inl off)) again =
      again g (omega (arith, left, hi)) bounded (inl off)
  next_pass-Finishes fuel n (g, false) lo hi left (bounded, inr (inr (now, within))) again =
      again g (omega (arith, left, hi)) bounded
        (inr (omega (arith, now, lo), omega (arith, now, left)))

  pub run_from-Finishes :
      (fuel : ℕ) (f : Flow)
      → 1 ≤ fuel
      → Bounded f.session
      → Remaining fuel f.session
      → Finishes fuel f
  unfolding run_from
  run_from-Finishes zero f h bounded left = absurd (omega (arith, h))
  run_from-Finishes (suc fuel) f h bounded left = elim (Bool-cases (is_working f.session.status)) [
    | inr off ↦
        rw (off, run_from) ((f, false), refl, bounded, inr (is_working-false f.session.status off))
    | inl on ↦ elim left [
      | inl off ↦ absurd (off (is_working-true f.session.status on))
      | inr (lo, enough) ↦
          let hi = working-turns f.session (is_working-true f.session.status on) bounded in
          let (p, eq, passed) = one_turn-Passed f lo hi in
          rw (on, eq, run_from)
            (next_pass-Finishes fuel f.session.turns p lo hi enough passed
              (λ g. run_from-Finishes fuel g))
    ]
  ]
