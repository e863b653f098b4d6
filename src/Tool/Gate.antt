-- ===== src/Tool/Gate.antt =====
-- What a call has passed when its tool is started.
use nare.Prelude.{
  ◌≡◌, refl, ap, ◌∙◌, ◌≢◌, ◌⊎◌, inl, inr, Bool, true, false, not, ◌&&◌, List, [], ◌∷◌, none, some,
  Text, same, same_refl, has, Bool-cases, Option-cases, &&_left,
}
use nare.Json.Value.{Fields}
use nare.Shell.Commands.{Unicode, is_empty}
use nare.Rules.Decide.{Decision, denied, allowed, undecided, decide}
use nare.Rules.Clear.{LineClear, decide_not_denied}
use nare.Step.Reply.{ToolCall}
use nare.Tool.Policy.{
  Approval, approves, declines, withdrawn, gives_reason, approver_raises, Policy, Host, bash,
  command_of,
}
use nare.Tool.Started.{StartedWith, run_tool-StartedWith}
use nare.Tool.Dispatch.{
  by_approval, by_decision, decision_of, is_unconfined, by_problems, arguments_of, is_known,
  by_policy, dispatch,
}

is_empty-false : (xs : List Text) → xs ≢ [] → is_empty xs ≡ false
is_empty-false [] h = absurd (h refl)
is_empty-false (x ∷ xs) h = refl

module _ (host : Host) (policy : Policy) (u : Unicode) (call : ToolCall) where
  -- The approver said yes, or an allow rule covers the command of a bash call.
  abbrev pub IsCleared : Fields → Type 0
  IsCleared args =
      (host.approve call.name call.args ≡ approves)
      ⊎ ((same call.name bash ≡ true)
          × (patterns : List Text) × (decide u (command_of host args) policy.bash_allow
                policy.bash_deny
              ≡ allowed patterns))

  decision_of-allowed :
      (args : Fields) (patterns : List Text)
      → decision_of host policy u call.name args ≡ allowed patterns
      → (same call.name bash ≡ true)
        × (decide u (command_of host args) policy.bash_allow policy.bash_deny ≡ allowed patterns)
  unfolding decision_of
  decision_of-allowed args patterns e =
      elim (Bool-cases
        (same call.name bash && not (is_empty policy.bash_allow && is_empty policy.bash_deny))) [
          | inl t ↦ (&&_left (same call.name bash) _ t, rw t at e)
          | inr f ↦ absurd (cc (rw f at e))
        ]

  by_approval-started :
      (args given : Fields) (answer : Approval)
      → (by_approval host policy call args answer).started ≡ some given
      → (answer ≡ approves) × StartedWith host policy call.name args given
  by_approval-started args given approves e =
      (refl, run_tool-StartedWith host policy call.name true [] args given e)
  by_approval-started args given declines e = absurd (cc e)
  by_approval-started args given (gives_reason why) e = absurd (cc e)
  by_approval-started args given (approver_raises why) e = absurd (cc e)
  by_approval-started args given withdrawn e = absurd (cc e)

  by_decision-started :
      (args given : Fields) (d : Decision)
      → decision_of host policy u call.name args ≡ d
      → (by_decision host policy call args d).started ≡ some given
      → IsCleared args
        × ((patterns : List Text) → d ≢ denied patterns)
        × StartedWith host policy call.name args given
  by_decision-started args given (denied patterns) is e = absurd (cc e)
  by_decision-started args given (allowed patterns) is e =
      let (shell, rule) = decision_of-allowed args patterns is in
      (
        inr (shell, patterns, rule),
        λ ps same. cc same,
        run_tool-StartedWith host policy call.name false _ args given e,
      )
  by_decision-started args given undecided is e =
      let (yes_said, with_args) =
        by_approval-started args given (host.approve call.name call.args) e in
      (inl yes_said, λ ps same. cc same, with_args)

  -- What the arguments have passed.
  abbrev Passes : Fields → Fields × List Text → Type 0
  Passes given (args, problems) =
      (problems ≡ [])
      × (is_unconfined host policy call.name ≡ false)
      × IsCleared args
      × ((patterns : List Text) → decision_of host policy u call.name args ≢ denied patterns)
      × StartedWith host policy call.name args given

  by_problems-started :
      (p : Fields × List Text) (given : Fields)
      → (by_problems host policy u call p).started ≡ some given
      → Passes given p
  by_problems-started (args, q ∷ qs) given e = absurd (cc e)
  by_problems-started (args, []) given e = elim (Bool-cases (is_unconfined host policy call.name)) [
    | inl t ↦ absurd (cc (rw t at e))
    | inr f ↦
        let (cleared, open_, with_args) = by_decision-started args given _ refl (rw f at e) in
        (refl, f, cleared, open_, with_args)
  ]

  -- All that a started call has passed.
  abbrev PassesAll : Fields → Type 0
  PassesAll given =
      (call.error ≡ none)
      × (has call.name policy.tools ≡ true)
      × Passes given (arguments_of host policy call)

  by_policy-started :
      (given : Fields)
      → call.error ≡ none
      → (by_policy host policy u call).started ≡ some given
      → PassesAll given
  by_policy-started given fit e = elim (Bool-cases (is_known host policy call.name)) [
    | inr f ↦ absurd (cc (rw f at e))
    | inl t ↦ elim (Bool-cases (has call.name policy.tools)) [
      | inr f ↦ absurd (cc (rw (t, f) at e))
      | inl has_it ↦ (
        fit,
        has_it,
        by_problems-started (arguments_of host policy call) given (rw (t, has_it) at e),
      )
    ]
  ]

  dispatch-PassesAll :
      (given : Fields) → (dispatch host policy u call).started ≡ some given → PassesAll given
  unfolding dispatch
  dispatch-PassesAll given e = elim (Option-cases call.error) [
    | inr (why, f) ↦ absurd (cc (rw (f, dispatch) at e))
    | inl f ↦ by_policy-started given f (rw (f, dispatch) at e)
  ]

  -- Where a tool is started for a call, the call is well formed, the policy has the tool, its arguments
  -- have no problem, a bash call is not one that has to be sandboxed where no sandbox or root is there,
  -- and either the approver said yes to the call or an allow rule of the policy covers the whole command.
  -- An external tool is started with the checked arguments as they are. A built-in one has them unchanged
  -- but for nare's own keys, the path of a tool that takes one has passed the root, and a bash call
  -- carries the confinement that was found.
  pub dispatch_started :
      (given : Fields)
      → (dispatch host policy u call).started ≡ some given
      → (call.error ≡ none)
        × (has call.name policy.tools ≡ true)
        × ((arguments_of host policy call).1 ≡ [])
        × (is_unconfined host policy call.name ≡ false)
        × IsCleared (arguments_of host policy call).0
        × StartedWith host policy call.name (arguments_of host policy call).0 given
  dispatch_started given e =
      let (fit, listed, (right, confined, cleared, _, with_args)) = dispatch-PassesAll given e in
      (fit, listed, right, confined, cleared, with_args)

  decision_of-bash :
      (args : Fields)
      → call.name ≡ bash
      → policy.bash_deny ≢ []
      → decision_of host policy u call.name args
        ≡ decide u (command_of host args) policy.bash_allow policy.bash_deny
  unfolding decision_of
  decision_of-bash args shell some_rule =
      rw
        (
          ap (λ name. same name bash) shell ∙ same_refl bash,
          is_empty-false policy.bash_deny some_rule,
          both (is_empty policy.bash_allow),
        )
        refl
    where
      both : (b : Bool) → (b && false) ≡ false
      both true = refl
      both false = refl

  -- Where a bash call is started under a policy with a deny list, its command line is read, and each of
  -- its commands has plain words alone, holds no `=` in its command word, matches no deny pattern at any
  -- suffix of its words, and passes to a runner no argument that is refused one level deeper: an
  -- approval does not lift a denial.
  pub dispatch_not_denied :
      (given : Fields)
      → call.name ≡ bash
      → policy.bash_deny ≢ []
      → (dispatch host policy u call).started ≡ some given
      → LineClear u policy.bash_deny 4 (command_of host (arguments_of host policy call).0)
  unfolding decision_of
  dispatch_not_denied given shell some_rule e =
      let (_, _, (_, _, _, undenied, _)) = dispatch-PassesAll given e in
      decide_not_denied u policy.bash_deny (command_of host (arguments_of host policy call).0)
        policy.bash_allow some_rule
        (λ rules denial.
          undenied rules
            (decision_of-bash (arguments_of host policy call).0 shell some_rule ∙ denial))
