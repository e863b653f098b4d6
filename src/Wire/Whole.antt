-- ===== src/Wire/Whole.antt =====
-- A request's messages alternate, and lose nothing that goes back to the model.
use nare.Prelude.{
  ◌≡◌, refl, sym, ap, ◌∙◌, ◌≢◌, inl, inr, Bool, true, false, ◌&&◌, List, [], ◌∷◌, ◌++◌, keep,
  append_assoc, append-nil, Bool-cases, &&_left,
}
use nare.Session.Types.{Role, user, assistant, Block, Message}
use nare.Session.Thinking.{sent_back, sent}
use nare.Session.Continue.{Alternates}
use nare.Step.Turn.{is_nil}
use nare.Wire.Messages.{same_role, is_assistant, join_turn, send_turn, send_turns, messages_from}

same_role-true : (r s : Role) → same_role r s ≡ true → r ≡ s
same_role-true user user e = refl
same_role-true assistant assistant e = refl
same_role-true user assistant e = absurd (cc e)
same_role-true assistant user e = absurd (cc e)

same_role-false : (r s : Role) → same_role r s ≡ false → r ≢ s
same_role-false user user e f = cc e
same_role-false assistant assistant e f = cc e
same_role-false user assistant e f = cc f
same_role-false assistant user e f = cc f

-- The first message keeps its role.
join_turn-head :
    (m k : Message) (ks : List Message)
    → (n : Message) × (ns : List Message) × (join_turn m (k ∷ ks) ≡ n ∷ ns) × (n.role ≡ k.role)
unfolding join_turn
join_turn-head m k [] = elim (Bool-cases (same_role k.role m.role)) [
  | inl e ↦ rw (e, join_turn) (record k { content = k.content ++ m.content }, [], refl, refl)
  | inr e ↦ rw (e, join_turn) (k, m ∷ [], refl, refl)
]
join_turn-head m k (l ∷ ls) = (k, join_turn m (l ∷ ls), refl, refl)

cons-Alternates :
    (k : Message) (ms : List Message) {n : Message} {ns : List Message}
    → ms ≡ n ∷ ns
    → k.role ≢ n.role
    → Alternates ms
    → Alternates (k ∷ ms)
cons-Alternates k [] e ne h = tt
cons-Alternates k (m ∷ ms) e ne h = ((λ same. ne (same ∙ cc e)), h)

join_turn-Alternates :
    (m : Message) (ms : List Message) → Alternates ms → Alternates (join_turn m ms)
unfolding join_turn
join_turn-Alternates m [] h = tt
join_turn-Alternates m (k ∷ []) h = elim (Bool-cases (same_role k.role m.role)) [
  | inl e ↦ rw (e, join_turn) tt
  | inr e ↦ rw (e, join_turn) (same_role-false k.role m.role e, tt)
]
join_turn-Alternates m (k ∷ l ∷ ls) h =
    let (n, ns, e, r) = join_turn-head m l ls in
    cons-Alternates k (join_turn m (l ∷ ls)) e (λ x. h.0 (x ∙ r))
      (join_turn-Alternates m (l ∷ ls) h.1)

send_turn-Alternates :
    (output : List Message) (m : Message) → Alternates output → Alternates (send_turn output m)
unfolding send_turn
send_turn-Alternates output m h =
    elim (Bool-cases (is_nil (sent m.content) && is_assistant m.role)) [
      | inl e ↦ rw e h
      | inr e ↦ rw e (join_turn-Alternates (record m { content = sent m.content }) output h)
    ]

send_turns-Alternates :
    (ms output : List Message) → Alternates output → Alternates (send_turns output ms)
unfolding send_turns
send_turns-Alternates [] output h = h
send_turns-Alternates (m ∷ ms) output h =
    send_turns-Alternates ms (send_turn output m) (send_turn-Alternates output m h)

-- The blocks of a transcript in order, each with who said it.
abbrev pub said_by : Role → List Block → List (Role × Block)
said_by r [] = []
said_by r (b ∷ bs) = (r, b) ∷ said_by r bs

abbrev pub spoken : List Message → List (Role × Block)
spoken [] = []
spoken (m ∷ ms) = said_by m.role m.content ++ spoken ms

said_by-append :
    (r : Role) (xs ys : List Block) → said_by r (xs ++ ys) ≡ said_by r xs ++ said_by r ys
said_by-append r [] ys = refl
said_by-append r (x ∷ xs) ys = ap (λ rest. (r, x) ∷ rest) (said_by-append r xs ys)

spoken-join_turn :
    (m : Message) (ms : List Message)
    → spoken (join_turn m ms) ≡ spoken ms ++ said_by m.role m.content
unfolding join_turn
spoken-join_turn m [] = append-nil _
spoken-join_turn m (k ∷ []) = elim (Bool-cases (same_role k.role m.role)) [
  | inl e ↦ rw e (
      append-nil (said_by k.role (k.content ++ m.content))
      ∙ said_by-append k.role k.content m.content
      ∙ ap (λ r. said_by k.role k.content ++ said_by r m.content) (same_role-true k.role m.role e)
      ∙ ap (λ xs. xs ++ said_by m.role m.content) (sym (append-nil (said_by k.role k.content))))
  | inr e ↦ rw e (
      ap (◌++◌ (said_by k.role k.content)) (append-nil (said_by m.role m.content))
      ∙ ap (λ xs. xs ++ said_by m.role m.content) (sym (append-nil (said_by k.role k.content))))
]
spoken-join_turn m (k ∷ l ∷ ls) =
    ap (◌++◌ (said_by k.role k.content)) (spoken-join_turn m (l ∷ ls))
    ∙ sym (append_assoc (said_by k.role k.content) (spoken (l ∷ ls)) _)

abbrev goes_back : Role × Block → Bool
goes_back (r, b) = sent_back b

said_by-sent : (r : Role) (bs : List Block) → said_by r (sent bs) ≡ keep goes_back (said_by r bs)
said_by-sent r [] = refl
said_by-sent r (b ∷ bs) = elim (Bool-cases (sent_back b)) [
  | inl e ↦ rw (e, said_by, keep) (ap (λ rest. (r, b) ∷ rest) (said_by-sent r bs))
  | inr e ↦ rw (e, said_by, keep) (said_by-sent r bs)
]

keep-append :
    (p : Role × Block → Bool) (xs ys : List (Role × Block))
    → keep p (xs ++ ys) ≡ keep p xs ++ keep p ys
keep-append p [] ys = refl
keep-append p (x ∷ xs) ys = elim (Bool-cases (p x)) [
  | inl e ↦ rw (e, keep) (ap (◌∷◌ x) (keep-append p xs ys))
  | inr e ↦ rw (e, keep) (keep-append p xs ys)
]

nothing_sent : (bs : List Block) (r : Role) → is_nil bs ≡ true → said_by r bs ≡ []
nothing_sent [] r e = refl
nothing_sent (b ∷ bs) r e = absurd (cc e)

spoken-send_turn :
    (output : List Message) (m : Message)
    → spoken (send_turn output m) ≡ spoken output ++ keep goes_back (said_by m.role m.content)
unfolding send_turn
spoken-send_turn output m = elim (Bool-cases (is_nil (sent m.content) && is_assistant m.role)) [
  | inl e ↦ rw e (
      sym (append-nil (spoken output))
      ∙ ap (◌++◌ (spoken output)) (
          sym (nothing_sent (sent m.content) m.role (&&_left (is_nil (sent m.content)) _ e))
          ∙ said_by-sent m.role m.content))
  | inr e ↦ rw e (
      spoken-join_turn (record m { content = sent m.content }) output
      ∙ ap (◌++◌ (spoken output)) (said_by-sent m.role m.content))
]

spoken-send_turns :
    (ms output : List Message)
    → spoken (send_turns output ms) ≡ spoken output ++ keep goes_back (spoken ms)
unfolding send_turns
spoken-send_turns [] output = sym (append-nil (spoken output))
spoken-send_turns (m ∷ ms) output =
    spoken-send_turns ms (send_turn output m)
    ∙ ap (λ xs. xs ++ keep goes_back (spoken ms)) (spoken-send_turn output m)
    ∙ append_assoc (spoken output) (keep goes_back (said_by m.role m.content))
        (keep goes_back (spoken ms))
    ∙ ap (◌++◌ (spoken output)) (sym (keep-append goes_back (said_by m.role m.content) (spoken ms)))

-- For every transcript, the messages of a request alternate between user and assistant, and they hold
-- exactly the blocks of the transcript that go back to the model, in order, each still said by whoever
-- said it.
pub messages_from-spoken :
    (ms : List Message)
    → Alternates (messages_from ms)
      × (spoken (messages_from ms) ≡ keep (λ p. sent_back p.1) (spoken ms))
unfolding messages_from
messages_from-spoken ms = (send_turns-Alternates ms [] tt, spoken-send_turns ms [])
