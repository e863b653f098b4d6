-- ===== src/Repetition/Watch.antt =====
-- The watch on a stream judges the tail it keeps as the rule judges the whole stream.
use nare.Prelude.{
  ℕ, leb, ◌+◌, ◌-◌, ◌*◌, ◌≤◌, ◌≡◌, refl, sym, ap, ◌∙◌, ◌⊎◌, Bool, false, List, [], ◌∷◌, ◌++◌, Text,
  arith, length, length-append, length-drop, take, take-append-drop, ltb, if◌then◌else◌, ltb→lt,
  ltb→le, Bool-cases, inl, inr, append_assoc, append-nil,
}
use nare.Repetition.Rule.{Limits, kept, last, Watch, fresh, grown, feed_some, feed, degenerate}
use nare.Repetition.Tail.{degenerate-append}

-- `w` has seen `whole`: it keeps a tail of it, all of it or enough for the rule, and no more than
-- twice that.
pub record Watches (l : Limits) (whole : Text) (w : Watch) : Type 0 where
  pub before : Text
  pub split : whole ≡ before ++ w.tail
  pub enough : (before ≡ []) ⊎ (kept l ≤ length w.tail)
  pub bounded : length w.tail ≤ 2 * kept l
  pub seen_is : w.seen ≡ length whole
  pub checked_le : w.checked ≤ w.seen

fresh-Watches : (l : Limits) → Watches l [] fresh
fresh-Watches l = record {
  before = [];
  split = refl;
  enough = inl refl;
  bounded = omega arith;
  seen_is = refl;
  checked_le = omega arith;
}

-- The tail that is kept, and what is before it.
record Tailed (l : Limits) (whole tail : Text) : Type 0 where
  before : Text
  split : whole ≡ before ++ tail
  enough : (before ≡ []) ⊎ (kept l ≤ length tail)
  bounded : length tail ≤ 2 * kept l

grown-Tailed :
    (l : Limits) (whole tail fragment before : Text)
    → whole ≡ before ++ tail
    → (before ≡ []) ⊎ (kept l ≤ length tail)
    → Tailed l (whole ++ fragment) (grown l tail fragment)
unfolding grown last
grown-Tailed l whole tail fragment before split enough =
    elim (Bool-cases (ltb (2 * kept l) (length (tail ++ fragment)))) [
      | inl long ↦ rw long (record {
        before = before ++ take (length (tail ++ fragment) - kept l) (tail ++ fragment);
        split =
            rw split (append_assoc before tail fragment)
            ∙ ap (◌++◌ before)
                (sym (take-append-drop (length (tail ++ fragment) - kept l) (tail ++ fragment)))
            ∙ sym (append_assoc before _ _);
        enough = inr (
            omega (
              arith,
              length-drop (length (tail ++ fragment) - kept l) (tail ++ fragment),
              ltb→lt _ _ long,
            ));
        bounded = omega (
          arith,
          length-drop (length (tail ++ fragment) - kept l) (tail ++ fragment),
          ltb→lt _ _ long,
        );
      })
      | inr short ↦ rw short (record {
        before = before;
        split = rw split (append_assoc before tail fragment);
        enough = elim enough [
          | inl all ↦ inl all
          | inr k ↦ inr (omega (arith, length-append tail fragment))
        ];
        bounded = ltb→le _ _ short;
      })
    ]

Tailed-degenerate :
    (l : Limits) (whole tail : Text)
    → l.max_period ≤ l.repeat_span
    → Tailed l whole tail
    → degenerate l tail ≡ degenerate l whole
Tailed-degenerate l whole tail h t = elim t.enough [
  | inl e ↦ ap (degenerate l) (sym (t.split ∙ ap (λ b. b ++ tail) e))
  | inr k ↦ sym (ap (degenerate l) t.split ∙ degenerate-append l t.before tail h k)
]

-- When a fragment makes a check due, `n` characters after the last one.
abbrev due : Limits → ℕ → Text → Bool
due l n [] = false
due l n (c ∷ cs) = leb l.check_chars (n + length (c ∷ cs))

-- The characters since the last check: a fragment adds its own, and one that brings them to
-- `check_chars` is checked and starts the count again; an empty fragment is passed over.
abbrev pub unchecked : Limits → ℕ → List Text → ℕ
unchecked l n [] = n
unchecked l n ([] ∷ fs) = unchecked l n fs
unchecked l n ((c ∷ cs) ∷ fs) =
    unchecked l (if leb l.check_chars (n + length (c ∷ cs)) then 0 else n + length (c ∷ cs)) fs

feed_some-Watches :
    (l : Limits) (whole : Text) (w : Watch) (fragment : Text)
    → l.max_period ≤ l.repeat_span
    → Watches l whole w
    → Watches l (whole ++ fragment) (feed_some l w fragment).0
      × ((feed_some l w fragment).1 ≡ (
          if ltb (w.seen + length fragment - w.checked) l.check_chars
          then false
          else degenerate l (whole ++ fragment)))
unfolding feed_some
feed_some-Watches l whole w fragment h k =
    let t = grown-Tailed l whole w.tail fragment k.before k.split k.enough in
    let counted : w.seen + length fragment ≡ length (whole ++ fragment) =
      omega (arith, k.seen_is, length-append whole fragment) in
    elim (Bool-cases (ltb (w.seen + length fragment - w.checked) l.check_chars)) [
      | inl early ↦ rw early (
        record {
          before = t.before;
          split = t.split;
          enough = t.enough;
          bounded = t.bounded;
          seen_is = counted;
          checked_le = omega (arith, k.checked_le);
        },
        refl,
      )
      | inr now ↦ rw now (
        record {
          before = t.before;
          split = t.split;
          enough = t.enough;
          bounded = t.bounded;
          seen_is = counted;
          checked_le = omega arith;
        },
        Tailed-degenerate l (whole ++ fragment) (grown l w.tail fragment) h t,
      )
    ]

-- However a stream is cut into fragments, the watch keeps a bounded tail of it, and its answer to
-- a fragment is, where a check is due, the rule's verdict on the whole stream so far, and
-- otherwise no.
pub feed-Watches :
    (l : Limits) (whole : Text) (w : Watch) (fragment : Text)
    → l.max_period ≤ l.repeat_span
    → Watches l whole w
    → Watches l (whole ++ fragment) (feed l w fragment).0
      × ((feed l w fragment).1 ≡ (
          if due l (w.seen - w.checked) fragment then degenerate l (whole ++ fragment) else false))
unfolding feed
feed-Watches l whole w [] h k = rw append-nil (k, refl)
feed-Watches l whole w (c ∷ cs) h k =
    let (watches, answer) = feed_some-Watches l whole w (c ∷ cs) h k in
    (watches, answer ∙ ground (arith, k.checked_le))

-- All the fragments of a stream, the watch's answers left out.
abbrev pub feed_all : Limits → Watch → List Text → Watch
feed_all l w [] = w
feed_all l w (f ∷ fs) = feed_all l (feed l w f).0 fs

abbrev pub concat : List Text → Text
concat [] = []
concat (f ∷ fs) = f ++ concat fs

feed_all-Watches :
    (l : Limits) (fs : List Text) (whole : Text) (w : Watch)
    → l.max_period ≤ l.repeat_span
    → Watches l whole w
    → Watches l (whole ++ concat fs) (feed_all l w fs)
feed_all-Watches l [] whole w h k = rw append-nil k
feed_all-Watches l (f ∷ fs) whole w h k =
    rw (← append_assoc)
      (feed_all-Watches l fs (whole ++ f) (feed l w f).0 h (feed-Watches l whole w f h k).0)

-- The watch counts the characters since the last check.
feed-unchecked :
    (l : Limits) (w : Watch) (c : ℕ) (cs : Text)
    → w.checked ≤ w.seen
    → let n = w.seen - w.checked in
      (feed l w (c ∷ cs)).0.seen - (feed l w (c ∷ cs)).0.checked
      ≡ (if leb l.check_chars (n + length (c ∷ cs)) then 0 else n + length (c ∷ cs))
unfolding feed feed_some
feed-unchecked l w c cs le = ground arith

feed-empty : (l : Limits) (w : Watch) → (feed l w []).0 ≡ w
unfolding feed
feed-empty l w = refl

feed_all-unchecked :
    (l : Limits) (fs : List Text) (whole : Text) (w : Watch)
    → l.max_period ≤ l.repeat_span
    → Watches l whole w
    → (feed_all l w fs).seen - (feed_all l w fs).checked ≡ unchecked l (w.seen - w.checked) fs
feed_all-unchecked l [] whole w h k = refl
feed_all-unchecked l ([] ∷ fs) whole w h k =
    ap (λ v. v.seen - v.checked) (ap (λ v. feed_all l v fs) (feed-empty l w))
    ∙ feed_all-unchecked l fs whole w h k
feed_all-unchecked l ((c ∷ cs) ∷ fs) whole w h k =
    feed_all-unchecked l fs (whole ++ c ∷ cs) (feed l w (c ∷ cs)).0 h
      (feed-Watches l whole w (c ∷ cs) h k).0
    ∙ ap (λ n. unchecked l n fs) (feed-unchecked l w c cs k.checked_le)

-- After any fragments, the next one is checked where it is not empty and brings the characters since the
-- last check to `check_chars`. Its answer is then the rule's verdict on the whole stream, and otherwise
-- no, and the watch keeps no more than twice what the rule reads. The longest period must not pass the
-- span.
pub feed_all_judges :
    (l : Limits) (fs : List Text) (fragment : Text)
    → l.max_period ≤ l.repeat_span
    → let w = feed_all l fresh fs in
      (length w.tail ≤ 2 * kept l)
      × ((feed l w fragment).1 ≡ (elim fragment [
        | [] ↦ false
        | c ∷ cs ↦
            if leb l.check_chars (unchecked l 0 fs + length (c ∷ cs))
            then degenerate l (concat fs ++ c ∷ cs)
            else false
      ]))
feed_all_judges l fs fragment h =
    let k = feed_all-Watches l fs [] fresh h (fresh-Watches l) in
    (
      k.bounded,
      (feed-Watches l (concat fs) (feed_all l fresh fs) fragment h k).1
          ∙ ap (λ n. if due l n fragment then degenerate l (concat fs ++ fragment) else false)
              (feed_all-unchecked l fs [] fresh h (fresh-Watches l))
          ∙ by_fragment fragment,
    )
  where
    by_fragment :
        (fragment : Text)
        → (if due l (unchecked l 0 fs) fragment
            then degenerate l (concat fs ++ fragment)
            else false)
          ≡ (elim fragment [
            | [] ↦ false
            | c ∷ cs ↦
                if leb l.check_chars (unchecked l 0 fs + length (c ∷ cs))
                then degenerate l (concat fs ++ c ∷ cs)
                else false
          ])
    by_fragment [] = refl
    by_fragment (c ∷ cs) = refl
