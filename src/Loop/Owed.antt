-- ===== src/Loop/Owed.antt =====
-- When a final answer is held, and what becomes of the run.
use nare.Prelude.{
  ℕ, ◌+◌, ◌≤◌, ◌<◌, ◌≡◌, refl, sym, ap, ◌∙◌, ◌↔◌, ◌⊎◌, inl, inr, Bool, true, false, List, [], ◌∷◌,
  ◌++◌, Option, none, some, Text, arith, has, same, length, append-eq-nil, All, add_new,
  Option-cases,
}
use nare.Json.Value.{Value}
use nare.Session.Types.{Session, error}
use nare.Session.Reopen.{append_user_text}
use nare.Corrections.Charge.{
  Correction, codes_of, charge, charge-granted, granted, is_free, recorded,
}
use nare.Corrections.Seen.{charge_refused}
use nare.Reads.Pointer.{fine, >>=-eq-fine}
use nare.Reads.Cited.{Digits}
use nare.Reads.Holds.{Cites}
use nare.Reads.Required.{ReadRequirement, unmet, cited_unmet}
use nare.Reads.Met.{reads_of, Settled, unmet_iff, cited_unmet_iff}
use nare.Loop.Hold.{
  reads_kind, reads_required, add_event, end_unread, ask_reads, after_charge, hold_gaps, if_cited,
  owed_cited, hold_for_reads,
}

-- A charge that no earlier answer is compared with is decided by the budget alone.
charge-uncompared :
    (s : Session) (gaps : List Text) (limit : ℕ) (kind : Text)
    → ((limit ≤ s.schema_corrections) × (charge s gaps limit false kind ≡ (none, s)))
      ⊎ ((c : Correction) × (s.schema_corrections < limit)
          × (charge s gaps limit false kind ≡ (some c, granted true kind (codes_of gaps) s)))
unfolding is_free recorded
charge-uncompared s gaps limit kind = elim (Option-cases (charge s gaps limit false kind).0) [
  | inl refused ↦
      let (kept, spent, _) = charge_refused s gaps limit false kind refused in
      inl (spent, λ i. (refused i, kept i))
  | inr (c, given) ↦
      let (after, _, _, left) = charge-granted s gaps limit false kind c given in
      inr (c, ground arith, λ i. (given i, after i))
]

pub after_charge-held :
    (gaps : List Text) (p : Option Correction × Session) → (after_charge gaps p).0 ≡ true
unfolding after_charge
after_charge-held gaps (none, s) = refl
after_charge-held gaps (some c, s) = refl

hold_gaps-nil :
    (s after : Session) (limit : ℕ) (gaps : List Text)
    → hold_gaps s limit gaps ≡ (false, after)
    → (gaps ≡ []) × (after ≡ s)
unfolding hold_gaps
hold_gaps-nil s after limit [] e = (refl, sym (ap (λ p. p.1) e))
hold_gaps-nil s after limit (g ∷ gs) e =
    absurd (cc (sym (after_charge-held (g ∷ gs) _) ∙ ap (λ p. p.0) e))

-- A held answer either costs one correction of a budget that is not spent, leaves the run's status
-- as it was and the next turn unconstrained; or, with the budget spent, it ends the run as an error
-- for `reads_required`.
pub hold_gaps-spends :
    (s after : Session) (limit : ℕ) (gaps : List Text)
    → hold_gaps s limit gaps ≡ (true, after)
    → ((s.schema_corrections < limit)
        × (after.schema_corrections ≡ s.schema_corrections + 1)
        × (after.status ≡ s.status)
        × (after.schema_retried ≡ false))
      ⊎ ((limit ≤ s.schema_corrections)
          × (after.schema_corrections ≡ s.schema_corrections)
          × (after.status ≡ error)
          × (after.stop_reason ≡ some reads_required)
          × (after.messages ≡ s.messages))
unfolding hold_gaps after_charge end_unread ask_reads granted append_user_text add_event same
hold_gaps-spends s after limit [] e = absurd (cc e)
hold_gaps-spends s after limit (g ∷ gs) e =
    let first = record s { schema_retried = false } in
    elim (charge-uncompared first (g ∷ gs) limit reads_kind) [
      | inl (spent, refused) ↦
          let ended : end_unread (g ∷ gs) first ≡ after =
            ap (λ p. p.1) (sym (ap (after_charge (g ∷ gs)) refused) ∙ e) in
          inr (
            spent,
            sym (ap (λ a. a.schema_corrections) ended),
            sym (ap (λ a. a.status) ended),
            sym (ap (λ a. a.stop_reason) ended),
            sym (ap (λ a. a.messages) ended),
          )
      | inr (c, left, given) ↦
          let asked : ask_reads (g ∷ gs) c (granted true reads_kind (codes_of (g ∷ gs)) first)
              ≡ after =
            ap (λ p. p.1) (sym (ap (after_charge (g ∷ gs)) given) ∙ e) in
          inl (
            left,
            sym (ap (λ a. a.schema_corrections) asked),
            sym (ap (λ a. a.status) asked),
            sym (ap (λ a. a.schema_retried) asked),
          )
    ]

owed_cited_iff :
    (shown : Text → Option Text) (digits : Digits) (s : Session) (r : ReadRequirement)
    (answer : Value) (gaps : List Text)
    → owed_cited shown digits s r answer ≡ fine gaps
    → (gaps ≡ []) ↔ ((t : Text) → Cites digits answer r.cited t → Settled shown s.evidence t)
unfolding owed_cited
owed_cited_iff shown digits s r answer gaps g = by_cited r.cited refl
  where
    by_cited :
        (cited : List Text)
        → r.cited ≡ cited
        → (gaps ≡ []) ↔ ((t : Text) → Cites digits answer r.cited t → Settled shown s.evidence t)
    by_cited [] e =
        let none_owed : [] ≡ gaps = cc (rw e at g) in
        ((λ _ t c. let (p, tokens, m, _, _) = c in absurd (rw e at m)), λ _. sym none_owed)
    by_cited (c ∷ cs) e =
        cited_unmet_iff shown digits s.evidence r answer gaps
          (sym (ap (λ x. if_cited x (cited_unmet shown digits s.evidence r answer)) e) ∙ g)

-- A final answer whose citations could be evaluated is let through exactly when enough distinct files
-- were read, each named path is one of the reads, and every string that the answer holds at a place one
-- of the pointers names lies inside the root and was read; letting it through leaves the session as it
-- was.
pub hold_for_reads-accepts :
    (shown : Text → Option Text) (digits : Digits) (s after : Session) (r : ReadRequirement)
    (limit : ℕ) (answer : Value) (held : Bool)
    → hold_for_reads shown digits s r limit answer ≡ fine (held, after)
    → ((held ≡ false) ↔ (
        (r.count ≤ length (add_new [] (reads_of s.evidence)))
        × All (λ p. has p (reads_of s.evidence) ≡ true) r.paths
        × ((t : Text) → Cites digits answer r.cited t → Settled shown s.evidence t)))
      × (held ≡ false → after ≡ s)
unfolding hold_for_reads hold_gaps
hold_for_reads-accepts shown digits s after r limit answer held e =
    let (cited, owed, met) =
      >>=-eq-fine (owed_cited shown digits s r answer)
        (λ c. fine (hold_gaps s limit (unmet s.evidence r ++ c))) e in
    let both = append-eq-nil (unmet s.evidence r) cited in
    let read = unmet_iff s.evidence r in
    let settled = owed_cited_iff shown digits s r answer cited owed in
    let out : hold_gaps s limit (unmet s.evidence r ++ cited) ≡ (held, after) =
      ok_pair-injective met in
    (
      (
        (λ h.
            let (u, c) = both.0 (hold_gaps-nil s after limit _ (rw h at out)).0 in
            ((read.0 u).0, (read.0 u).1, settled.0 c)),
        λ (enough, named, cites). sym (
            ap (λ p. p.0)
              (sym (ap (hold_gaps s limit) (both.1 (read.1 (enough, named), settled.1 cites)))
                ∙ out)),
      ),
      λ h. (hold_gaps-nil s after limit _ (rw h at out)).1,
    )
  where
    ok_pair-injective : {p q : Bool × Session} → fine p ≡ fine q → p ≡ q
    ok_pair-injective e = cc e
