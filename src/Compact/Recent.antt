-- ===== src/Compact/Recent.antt =====
-- What compaction leaves of the last turns.
use nare.Prelude.{
  ◌⊎◌, ℕ, zero, suc, ◌+◌, ◌≤◌, ◌≡◌, refl, sym, ap, ◌∙◌, inl, inr, Bool, true, false, List, [], ◌∷◌,
  ◌++◌, append_assoc, append-nil, Option, Text, arith, Bool-cases, length, drop, length-append,
}
use nare.Json.Value.{Value}
use nare.Session.Types.{
  Measured, Role, user, assistant, Block, text, thinking, redacted_thinking, tool_use, tool_result,
  other, Message,
}
use nare.Session.Continue.{Role-cases}
use nare.Session.Thinking.{is_thinking, sent_back, without_sent_thinking, without_thinking}
use nare.Compact.Stub.{elided_result, elided_input, calls_of, failed_of}
use nare.Compact.Elide.{
  estimate, view, Tier, turn_after, one_message, messages_from, at_start, second_last,
  protected_from, acts_on_results, acts_on_inputs, is_full, is_small, elide_results, elide_inputs,
  compact,
}

-- The messages by their roles and all their blocks but thinking.
abbrev pub spoken : List Message → List (Role × List Block)
spoken [] = []
spoken (m ∷ ms) = (m.role, without_thinking m.content) ∷ spoken ms

without_thinking-view :
    (dropped : Bool) (bs : List Block) → without_thinking (view dropped bs) ≡ without_thinking bs
unfolding without_sent_thinking sent_back is_thinking
without_thinking-view false bs = refl
without_thinking-view true [] = refl
without_thinking-view true (text [] ∷ bs) = ap (◌∷◌ (text [])) (without_thinking-view true bs)
without_thinking-view true (text (c ∷ cs) ∷ bs) =
    ap (◌∷◌ (text (c ∷ cs))) (without_thinking-view true bs)
without_thinking-view true (thinking t [] ∷ bs) = without_thinking-view true bs
without_thinking-view true (thinking t (c ∷ cs) ∷ bs) = without_thinking-view true bs
without_thinking-view true (redacted_thinking d ∷ bs) = without_thinking-view true bs
without_thinking-view true (tool_use i n v ∷ bs) =
    ap (◌∷◌ (tool_use i n v)) (without_thinking-view true bs)
without_thinking-view true (tool_result i c e ∷ bs) =
    ap (◌∷◌ (tool_result i c e)) (without_thinking-view true bs)
without_thinking-view true (other k ∷ bs) = ap (◌∷◌ (other k)) (without_thinking-view true bs)

spoken-replace :
    (n : ℕ) (before : List Message) (x y : Message) (ms : List Message)
    → x.role ≡ y.role
    → (n ≤ length before → without_thinking x.content ≡ without_thinking y.content)
    → spoken (drop n (before ++ x ∷ ms)) ≡ spoken (drop n (before ++ y ∷ ms))
spoken-replace zero [] x y ms r h = λ i. (r i, h (omega arith) i) ∷ spoken ms
spoken-replace zero (b ∷ bs) x y ms r h =
    ap (◌∷◌ (b.role, without_thinking b.content))
      (spoken-replace zero bs x y ms r (λ _. h (omega arith)))
spoken-replace (suc n) [] x y ms r h = refl
spoken-replace (suc n) (b ∷ bs) x y ms r h = spoken-replace n bs x y ms r (λ le. h (omega arith))

module _ (fits : List Message → Bool) (elide : ℕ → Block → Option Block) (acts : Role → ℕ → Bool)
    (bound : ℕ) (stops : (role : Role) (i : ℕ) → bound ≤ i → acts role i ≡ false) where
  spoken-messages_from :
      (i turn : ℕ) (before : List Message) (t : Tier) (ms : List Message)
      → length before ≡ i
      → spoken (drop bound (messages_from fits elide acts i turn before t ms).0)
        ≡ spoken (drop bound (before ++ ms))
  unfolding messages_from one_message
  spoken-messages_from i turn before t [] e =
      ap (λ l. spoken (drop bound l)) (sym (append-nil before))
  spoken-messages_from i turn before t (m ∷ ms) e =
      let after = one_message fits elide acts i turn before t m ms in
      let here : Message = record m { content = after.done } in
      spoken-messages_from (i + 1) (turn_after fits elide acts m.role turn) (before ++ here ∷ [])
        after ms (omega (arith, length-append before (here ∷ [])))
      ∙ ap (λ l. spoken (drop bound l)) (append_assoc before (here ∷ []) ms)
      ∙ spoken-replace bound before here m ms refl
          (λ le. rw (stops m.role i (omega arith)) (without_thinking-view t.dropped m.content))

compact-drop :
    (size : List Message → ℕ) (shown : Value → Text) (last : Measured) (window : ℕ)
    (ms : List Message) (n : ℕ)
    → protected_from ms ≤ n
    → spoken (drop n (compact size shown last window ms).0) ≡ spoken (drop n ms)
unfolding compact elide_results elide_inputs
compact-drop size shown last window ms n le =
    elim (Bool-cases (is_full window (estimate size last ms))) [
      | inr e ↦ rw e refl
      | inl y ↦
          let results = elide_results size shown last window ms in
          rw y (
            spoken-messages_from (λ now. is_small window (estimate size last now))
              (elided_input shown (failed_of results.0)) (acts_on_inputs (protected_from ms)) n
              (λ role i h. stops_inputs (protected_from ms) role i (omega (arith, le, h))) 0 0 []
              at_start results.0 refl
            ∙ spoken-messages_from (λ now. is_small window (estimate size last now))
                (elided_result (calls_of [] ms)) (acts_on_results (protected_from ms)) n
                (λ role i h. stops_results (protected_from ms) role i (omega (arith, le, h))) 0 0 []
                at_start ms refl)
    ]
  where
    stops_inputs :
        (bound : ℕ) (role : Role) (i : ℕ) → bound ≤ i → acts_on_inputs bound role i ≡ false
    stops_inputs bound user i h = refl
    stops_inputs bound assistant i h = ground arith

    stops_results :
        (bound : ℕ) (role : Role) (i : ℕ) → bound ≤ i → acts_on_results bound role i ≡ false
    stops_results bound user i h = ground arith
    stops_results bound assistant i h = refl

-- How many of the messages are the assistant's.
abbrev pub assistants : List Message → ℕ
assistants [] = 0
assistants (m ∷ ms) = elim m.role [ user ↦ assistants ms | assistant ↦ 1 + assistants ms ]

abbrev pub StartsWithAssistant : List Message → Type 0
StartsWithAssistant [] = ⊥
StartsWithAssistant (m ∷ ms) = m.role ≡ assistant

-- The last messages, from an assistant's on with one more of those at most, or any of a transcript that
-- has no more than one.
abbrev pub IsRecent : List Message → List Message → Type 0
IsRecent before recent =
    (StartsWithAssistant recent × (assistants recent ≤ 2)) ⊎ (assistants (before ++ recent) ≤ 1)

-- The place found is at most the last one given, where one assistant message is left, and the one
-- before it where none is.
second_last-few :
    (i b a : ℕ) (ms : List Message)
    → ((assistants ms ≡ 0) × (second_last i b a ms ≡ b))
      ⊎ ((assistants ms ≡ 1) × (second_last i b a ms ≡ a))
      ⊎ (2 ≤ assistants ms)
unfolding second_last
second_last-few i b a [] = inl (refl, refl)
second_last-few i b a (m ∷ ms) = elim (Role-cases m.role) [
  | inl e ↦ rw (e, second_last) (second_last-few (i + 1) b a ms)
  | inr e ↦
      rw (e, second_last)
        (elim (second_last-few (i + 1) a i ms) [
          | inl (n, is) ↦ inr (inl (omega (arith, n), is))
          | inr (inl (n, is)) ↦ inr (inr (omega (arith, n)))
          | inr (inr n) ↦ inr (inr (omega (arith, n)))
        ])
]

second_last-le :
    (i b a : ℕ) (before recent : List Message)
    → b ≤ i
    → a ≤ i
    → StartsWithAssistant recent
    → assistants recent ≤ 2
    → second_last i b a (before ++ recent) ≤ i + length before
unfolding second_last
second_last-le i b a [] [] lb la starts few = absurd starts
second_last-le i b a [] (m ∷ ms) lb la starts few =
    let left : 1 + assistants ms ≤ 2 = rw starts at few in
    rw (starts, second_last)
      (elim (second_last-few (i + 1) a i ms) [
        | inl (n, is) ↦ omega (arith, is, la)
        | inr (inl (n, is)) ↦ omega (arith, is)
        | inr (inr n) ↦ absurd (omega (arith, n, left))
      ])
second_last-le i b a (m ∷ before) recent lb la starts few = elim (Role-cases m.role) [
  | inl e ↦
      let later =
        second_last-le (i + 1) b a before recent (omega (arith, lb)) (omega (arith, la)) starts
          few in
      rw (e, second_last) (omega (arith, later))
  | inr e ↦
      let later =
        second_last-le (i + 1) a i before recent (omega (arith, la)) (omega arith) starts few in
      rw (e, second_last) (omega (arith, later))
]

protected_from-le :
    (before recent : List Message)
    → IsRecent before recent
    → protected_from (before ++ recent) ≤ length before
unfolding protected_from
protected_from-le before recent (inl (starts, few)) =
    omega (arith, second_last-le 0 0 0 before recent (omega arith) (omega arith) starts few)
protected_from-le before recent (inr few) = elim (second_last-few 0 0 0 (before ++ recent)) [
  | inl (n, is) ↦ omega (arith, is)
  | inr (inl (n, is)) ↦ omega (arith, is)
  | inr (inr n) ↦ absurd (omega (arith, n, few))
]

drop-before : (before recent : List Message) → drop (length before) (before ++ recent) ≡ recent
drop-before [] recent = refl
drop-before (m ∷ before) recent = drop-before before recent

-- From the last assistant message but one on, or from any message where there are fewer than two of
-- those, compaction leaves every message, its role and every block of it that is not thinking.
pub compact-spoken :
    (size : List Message → ℕ) (shown : Value → Text) (last : Measured) (window : ℕ)
    (before recent : List Message)
    → IsRecent before recent
    → spoken (drop (length before) (compact size shown last window (before ++ recent)).0)
      ≡ spoken recent
compact-spoken size shown last window before recent h =
    compact-drop size shown last window (before ++ recent) (length before)
      (protected_from-le before recent h)
    ∙ ap spoken (drop-before before recent)
