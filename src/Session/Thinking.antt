-- ===== src/Session/Thinking.antt =====
-- What goes back to the model, and dropping the thinking that does (src/nare/session.py).
use nare.Prelude.{
  ℕ, ◌+◌, ◌-◌, ◌≤◌, ◌≡◌, refl, ap, Bool, true, false, not, ◌||◌, List, [], ◌∷◌, Text, length, keep,
  arith,
}
use nare.Session.Types.{
  Block, text, thinking, redacted_thinking, tool_use, tool_result, other, Message,
}

-- `bool(s)` of a string.
abbrev pub truthy : Text → Bool
truthy [] = false
truthy (c ∷ cs) = true

-- Whether a saved block goes back to the model.
unfoldable pub sent_back : Block → Bool
sent_back (thinking t signature) = truthy signature
sent_back (text t) = truthy t
sent_back _ = true

unfoldable pub is_thinking : Block → Bool
is_thinking (thinking t signature) = true
is_thinking (redacted_thinking d) = true
is_thinking _ = false

unfoldable pub without_sent_thinking : List Block → List Block
unfolding is_thinking sent_back
without_sent_thinking content = keep (λ b. not (is_thinking b) || not (sent_back b)) content

-- `drop_signed_thinking`: the messages it leaves, and how many blocks it dropped.
unfoldable pub drop_signed_thinking : List Message → List Message × ℕ
drop_signed_thinking [] = ([], 0)
drop_signed_thinking (m ∷ ms) =
    let kept = without_sent_thinking m.content in
    let (rest, dropped) = drop_signed_thinking ms in
    (record m { content = kept } ∷ rest, length m.content - length kept + dropped)

-- What a transport sends of the blocks.
abbrev pub sent : List Block → List Block
sent content = keep sent_back content

-- The blocks without any thinking at all.
abbrev pub without_thinking : List Block → List Block
without_thinking content = keep (λ b. not (is_thinking b)) content

-- After the drop, what goes back to the model is what went back before, less every thinking
-- block: no thinking is sent, and every other block still is, in order.
pub sent-without_sent_thinking :
    (content : List Block) → sent (without_sent_thinking content) ≡ without_thinking (sent content)
unfolding without_sent_thinking
sent-without_sent_thinking [] = refl
sent-without_sent_thinking (text (c ∷ cs) ∷ bs) =
    ap (◌∷◌ (text (c ∷ cs))) (sent-without_sent_thinking bs)
sent-without_sent_thinking (tool_use i n v ∷ bs) =
    ap (◌∷◌ (tool_use i n v)) (sent-without_sent_thinking bs)
sent-without_sent_thinking (tool_result i c e ∷ bs) =
    ap (◌∷◌ (tool_result i c e)) (sent-without_sent_thinking bs)
sent-without_sent_thinking (other k ∷ bs) = ap (◌∷◌ (other k)) (sent-without_sent_thinking bs)
sent-without_sent_thinking (text [] ∷ bs) = sent-without_sent_thinking bs
sent-without_sent_thinking (thinking t [] ∷ bs) = sent-without_sent_thinking bs
sent-without_sent_thinking (thinking t (c ∷ cs) ∷ bs) = sent-without_sent_thinking bs
sent-without_sent_thinking (redacted_thinking d ∷ bs) = sent-without_sent_thinking bs

-- The number of blocks of a transcript, and what is sent of each of its messages.
abbrev pub blocks : List Message → ℕ
blocks [] = 0
blocks (m ∷ ms) = length m.content + blocks ms

length-keep : {A : Type 0} (p : A → Bool) (xs : List A) → length (keep p xs) ≤ length xs
length-keep p [] = omega arith
length-keep p (x ∷ xs) = ground (arith, length-keep p xs)

length-without_sent_thinking :
    (content : List Block) → length (without_sent_thinking content) ≤ length content
unfolding without_sent_thinking
length-without_sent_thinking content =
    length-keep (λ b. not (is_thinking b) || not (sent_back b)) content

-- Each message of the first list is the one of the second with the role kept, and with only its
-- thinking gone from what is sent.
abbrev pub LosesThinking : List Message → List Message → Type 0
LosesThinking [] [] = Unit
LosesThinking [] (m ∷ ms) = ⊥
LosesThinking (k ∷ ks) [] = ⊥
LosesThinking (k ∷ ks) (m ∷ ms) =
    (k.role ≡ m.role) × (sent k.content ≡ without_thinking (sent m.content)) × LosesThinking ks ms

-- Dropping the signed thinking of a history keeps every message and its role, takes from what is
-- sent exactly the thinking, and reports exactly the number of blocks that are gone.
pub drop_signed_thinking-LosesThinking :
    (ms : List Message)
    → LosesThinking (drop_signed_thinking ms).0 ms
      × (blocks (drop_signed_thinking ms).0 + (drop_signed_thinking ms).1 ≡ blocks ms)
unfolding drop_signed_thinking
drop_signed_thinking-LosesThinking [] = (tt, omega arith)
drop_signed_thinking-LosesThinking (m ∷ ms) =
    let (loses, counted) = drop_signed_thinking-LosesThinking ms in
    (
      (refl, sent-without_sent_thinking m.content, loses),
      omega (arith, length-without_sent_thinking m.content),
    )
