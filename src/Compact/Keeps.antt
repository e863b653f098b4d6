-- ===== src/Compact/Keeps.antt =====
-- What eliding never changes: the tasks, the pairing of calls and results, and what the stubs must
-- not claim.
use nare.Prelude.{
  ℕ, ◌+◌, ◌≡◌, refl, sym, ap, ◌∙◌, inl, inr, Bool, true, false, ◌||◌, List, [], ◌∷◌, ◌++◌,
  append_assoc, append-nil, Option, some, Text, same, arith, Option-cases, Bool-cases,
  if◌then◌else◌,
}
use nare.Json.Value.{Value, null, obj}
use nare.Json.Dict.{Dict}
use nare.Session.Types.{
  Measured, Role, Block, text, thinking, redacted_thinking, tool_use, tool_result, other, Message,
}
use nare.Session.Thinking.{without_sent_thinking}
use nare.Compact.Stub.{write, edit, elided_result, elided_input, calls_of, failed_of}
use nare.Compact.Elide.{
  estimate, view, view_all, Tier, replaced, one_block, blocks_from, turn_after, start, one_message,
  messages_from, at_start, protected_from, acts_on_results, acts_on_inputs, is_full, is_small,
  elide_results, elide_inputs, compact,
}

-- The input of a call, blanked where the call is one whose fields may be elided.
abbrev pub kept_input : Text → Value → Value
kept_input name input = if same name write || same name edit then null else input

-- What must stay of a block. A text, another block and an error's result stay whole, a result keeps
-- the call it answers, a call its id and name and, unless it writes or edits, its input.
abbrev pub kept_of : Block → List Block
kept_of (text t) = text t ∷ []
kept_of (thinking t signature) = []
kept_of (redacted_thinking d) = []
kept_of (tool_use i name input) = tool_use i name (kept_input name input) ∷ []
kept_of (tool_result i content true) = tool_result i content true ∷ []
kept_of (tool_result i content false) = tool_result i [] false ∷ []
kept_of (other kind) = other kind ∷ []

abbrev pub kept_all : List Block → List Block
kept_all [] = []
kept_all (b ∷ bs) = kept_of b ++ kept_all bs

-- The transcript by its roles and by what must stay of each message.
abbrev pub skeleton : List Message → List (Role × List Block)
skeleton [] = []
skeleton (m ∷ ms) = (m.role, kept_all m.content) ∷ skeleton ms

kept_all-append : (xs ys : List Block) → kept_all (xs ++ ys) ≡ kept_all xs ++ kept_all ys
kept_all-append [] ys = refl
kept_all-append (x ∷ xs) ys =
    ap (◌++◌ (kept_of x)) (kept_all-append xs ys)
    ∙ sym (append_assoc (kept_of x) (kept_all xs) (kept_all ys))

skeleton-append : (xs ys : List Message) → skeleton (xs ++ ys) ≡ skeleton xs ++ skeleton ys
skeleton-append [] ys = refl
skeleton-append (m ∷ ms) ys = ap (◌∷◌ (m.role, kept_all m.content)) (skeleton-append ms ys)

kept_all-without : (bs : List Block) → kept_all (without_sent_thinking bs) ≡ kept_all bs
unfolding without_sent_thinking
kept_all-without [] = refl
kept_all-without (text [] ∷ bs) = ap (◌∷◌ (text [])) (kept_all-without bs)
kept_all-without (text (c ∷ cs) ∷ bs) = ap (◌∷◌ (text (c ∷ cs))) (kept_all-without bs)
kept_all-without (thinking t [] ∷ bs) = kept_all-without bs
kept_all-without (thinking t (c ∷ cs) ∷ bs) = kept_all-without bs
kept_all-without (redacted_thinking d ∷ bs) = kept_all-without bs
kept_all-without (tool_use i n v ∷ bs) = ap (◌++◌ (kept_of (tool_use i n v))) (kept_all-without bs)
kept_all-without (tool_result i c e ∷ bs) =
    ap (◌++◌ (kept_of (tool_result i c e))) (kept_all-without bs)
kept_all-without (other k ∷ bs) = ap (◌∷◌ (other k)) (kept_all-without bs)

kept_all-view : (dropped : Bool) (bs : List Block) → kept_all (view dropped bs) ≡ kept_all bs
kept_all-view false bs = refl
kept_all-view true bs = kept_all-without bs

module _ (fits : List Message → Bool) (elide : ℕ → Block → Option Block) (acts : Role → ℕ → Bool)
    (keeps : (turn : ℕ) (b stub : Block)
      → elide turn b ≡ some stub
      → kept_of stub ≡ kept_of b) where
  kept_all-one_block :
      (turn : ℕ) (before : List Message) (m : Message) (t : Tier) (b : Block) (bs : List Block)
      (rest : List Message)
      → kept_all (one_block fits elide acts turn before m t b bs rest).done
        ≡ kept_all t.done ++ kept_of b
  unfolding one_block replaced
  kept_all-one_block turn before m t b bs rest = elim (Option-cases (elide turn b)) [
    | inl e ↦ rw (e, one_block, kept_all) left
    | inr (stub, e) ↦ elim (Bool-cases (fits (now))) [
      | inl y ↦ rw (e, y, one_block, kept_all) left
      | inr n ↦
          rw (e, n, one_block, kept_all)
            (kept_all-without (t.done ++ stub ∷ [])
              ∙ kept_all-append t.done (stub ∷ [])
              ∙ ap (◌++◌ (kept_all t.done)) (append-nil (kept_of stub) ∙ keeps turn b stub e))
    ]
  ]
    where
      now : List Message
      now =
          before
          ++ record m { content = t.done ++ view t.dropped (b ∷ bs) } ∷ view_all t.dropped rest

      left : kept_all (t.done ++ view t.dropped (b ∷ [])) ≡ kept_all t.done ++ kept_of b
      left =
          kept_all-append t.done (view t.dropped (b ∷ []))
          ∙ ap (◌++◌ (kept_all t.done)) (kept_all-view t.dropped (b ∷ []) ∙ append-nil (kept_of b))

  kept_all-blocks_from :
      (turn : ℕ) (before : List Message) (m : Message) (t : Tier) (bs : List Block)
      (rest : List Message)
      → kept_all (blocks_from fits elide acts turn before m t bs rest).done
        ≡ kept_all t.done ++ kept_all bs
  unfolding blocks_from
  kept_all-blocks_from turn before m t [] rest = sym (append-nil (kept_all t.done))
  kept_all-blocks_from turn before m t (b ∷ bs) rest =
      kept_all-blocks_from turn before m (one_block fits elide acts turn before m t b bs rest) bs
        rest
      ∙ ap (λ d. d ++ kept_all bs) (kept_all-one_block turn before m t b bs rest)
      ∙ append_assoc (kept_all t.done) (kept_of b) (kept_all bs)

  kept_all-one_message :
      (i turn : ℕ) (before : List Message) (t : Tier) (m : Message) (rest : List Message)
      → kept_all (one_message fits elide acts i turn before t m rest).done ≡ kept_all m.content
  unfolding one_message
  kept_all-one_message i turn before t m rest = elim (Bool-cases (acts m.role i)) [
    | inl y ↦ rw y (
        kept_all-blocks_from (turn_after fits elide acts m.role turn) before m
          (start fits elide acts t) m.content rest)
    | inr n ↦ rw n (kept_all-view t.dropped m.content)
  ]

  skeleton-messages_from :
      (i turn : ℕ) (before : List Message) (t : Tier) (ms : List Message)
      → skeleton (messages_from fits elide acts i turn before t ms).0
        ≡ skeleton before ++ skeleton ms
  unfolding messages_from
  skeleton-messages_from i turn before t [] = sym (append-nil (skeleton before))
  skeleton-messages_from i turn before t (m ∷ ms) =
      let after = one_message fits elide acts i turn before t m ms in
      let here : Message = record m { content = after.done } in
      skeleton-messages_from (i + 1) (turn_after fits elide acts m.role turn) (before ++ here ∷ [])
        after ms
      ∙ ap (λ done. done ++ skeleton ms) (skeleton-append before (here ∷ []))
      ∙ append_assoc (skeleton before) (skeleton (here ∷ [])) (skeleton ms)
      ∙ ap (λ kept. skeleton before ++ (m.role, kept) ∷ skeleton ms)
          (kept_all-one_message i turn before t m ms)

elided_result-kept :
    (calls : Dict Text) (turn : ℕ) (b stub : Block)
    → elided_result calls turn b ≡ some stub
    → kept_of stub ≡ kept_of b
unfolding elided_result
elided_result-kept calls turn (tool_result i content false) stub e = ground arith
elided_result-kept calls turn (tool_result i content true) stub e = absurd (cc e)
elided_result-kept calls turn (text t) stub e = absurd (cc e)
elided_result-kept calls turn (thinking t s) stub e = absurd (cc e)
elided_result-kept calls turn (redacted_thinking d) stub e = absurd (cc e)
elided_result-kept calls turn (tool_use i n v) stub e = absurd (cc e)
elided_result-kept calls turn (other k) stub e = absurd (cc e)

elided_input-kept :
    (shown : Value → Text) (failed : List Text) (turn : ℕ) (b stub : Block)
    → elided_input shown failed turn b ≡ some stub
    → kept_of stub ≡ kept_of b
unfolding elided_input
elided_input-kept shown failed turn (tool_use i name (obj args)) stub e = ground arith
elided_input-kept shown failed turn (tool_use i name _) stub e = absurd (cc e)
elided_input-kept shown failed turn (tool_result i content failing) stub e = absurd (cc e)
elided_input-kept shown failed turn (text t) stub e = absurd (cc e)
elided_input-kept shown failed turn (thinking t s) stub e = absurd (cc e)
elided_input-kept shown failed turn (redacted_thinking d) stub e = absurd (cc e)
elided_input-kept shown failed turn (other k) stub e = absurd (cc e)

module _ (size : List Message → ℕ) (shown : Value → Text) (last : Measured) (window : ℕ) where
  skeleton-elide_results :
      (ms : List Message) → skeleton (elide_results size shown last window ms).0 ≡ skeleton ms
  unfolding elide_results
  skeleton-elide_results ms =
      skeleton-messages_from (λ now. is_small window (estimate size last now))
        (elided_result (calls_of [] ms)) (acts_on_results (protected_from ms))
        (elided_result-kept (calls_of [] ms)) 0 0 [] at_start ms

  skeleton-elide_inputs :
      (bound : ℕ) (ms : List Message)
      → skeleton (elide_inputs size shown last window bound ms).0 ≡ skeleton ms
  unfolding elide_inputs
  skeleton-elide_inputs bound ms =
      skeleton-messages_from (λ now. is_small window (estimate size last now))
        (elided_input shown (failed_of ms)) (acts_on_inputs bound)
        (elided_input-kept shown (failed_of ms)) 0 0 [] at_start ms

-- Compaction keeps, in order, every message and its role and, of what is not thinking, every text,
-- every error's result, every call's id and name, the call that each result answers, and the whole
-- input of a call that neither writes nor edits.
pub skeleton-compact :
    (size : List Message → ℕ) (shown : Value → Text) (last : Measured) (window : ℕ)
    (ms : List Message)
    → skeleton (compact size shown last window ms).0 ≡ skeleton ms
unfolding compact
skeleton-compact size shown last window ms =
    elim (Bool-cases (is_full window (estimate size last ms))) [
      | inr n ↦ rw n refl
      | inl y ↦
          let results = elide_results size shown last window ms in
          rw y (
            skeleton-elide_inputs size shown last window (protected_from ms) results.0
            ∙ skeleton-elide_results size shown last window ms)
    ]
