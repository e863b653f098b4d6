-- ===== src/Tool/Prepared.antt =====
-- The arguments a tool is started with: `run` of `dispatch` (src/nare/tools.py).
use nare.Prelude.{
  ◌≡◌, refl, sym, ap, ◌∙◌, ◌≢◌, ◌⊎◌, inl, inr, Bool, true, false, ◌&&◌, List, [], ◌∷◌, Text, codes,
  same, same_iff, same_refl, has, Bool-cases, if◌then◌else◌,
}
use nare.Json.Value.{Value, str, bool, Fields, end, field}
use nare.Reads.Cited.{get_field}
use nare.Schema.Pairs.{set_field}
use nare.Step.Turn.{is_set}
use nare.Tool.Policy.{Policy, Given, not_given, Host, navigation, evidence_tools, path_tools, bash}
use nare.Tool.Dispatch.{
  is_absent, with_base, with_resolved, resolve_path, with_path, confined, with_shell, with_images,
}

get_field-set_field : (k : Text) (v : Value) (fs : Fields) → get_field k (set_field k v fs) ≡ v ∷ []
unfolding get_field set_field
get_field-set_field k v end = rw same_refl refl
get_field-set_field k v (field j w fs) = elim (Bool-cases (same j k)) [
  | inl e ↦ rw (e, set_field) (rw (e, get_field) refl)
  | inr e ↦ rw (e, set_field) (rw (e, get_field) (get_field-set_field k v fs))
]

not-same : (j k : Text) → j ≢ k → same j k ≡ false
not-same j k ne = elim (Bool-cases (same j k)) [
  | inl e ↦ absurd (ne ((same_iff j k).0 e))
  | inr e ↦ e
]

get_field-set_other :
    (j k : Text) (v : Value) (fs : Fields) → j ≢ k → get_field k (set_field j v fs) ≡ get_field k fs
unfolding get_field set_field
get_field-set_other j k v end ne = rw (not-same j k ne) refl
get_field-set_other j k v (field i w fs) ne = elim (Bool-cases (same i j)) [
  | inl e ↦
      let other : same i k ≡ false = not-same i k (λ x. ne (sym ((same_iff i j).0 e) ∙ x)) in
      rw (e, set_field) (rw (other, get_field) refl)
  | inr e ↦ elim (Bool-cases (same i k)) [
    | inl f ↦ rw (e, set_field) (rw (f, get_field) refl)
    | inr f ↦ rw (e, set_field) (rw (f, get_field) (get_field-set_other j k v fs ne))
  ]
]

pub differ : (j k : Text) → same j k ≡ false → j ≢ k
differ j k f e = absurd (cc (sym f ∙ (same_iff j k).1 e))

-- The keys that nare sets itself.
abbrev pub own_keys : List Text
own_keys =
    codes "path"
    ∷ codes "base"
    ∷ codes "cwd"
    ∷ codes "credentials"
    ∷ codes "confine"
    ∷ codes "image_input"
    ∷ codes "image_model"
    ∷ []

pub not-own : (j k : Text) → has j own_keys ≡ true → has k own_keys ≡ false → j ≢ k
not-own j k own other e = absurd (cc (sym own ∙ ap (λ x. has x own_keys) e ∙ other))

-- A path that is set has passed the policy's root.
abbrev pub PathResolved : Host → Fields → Type 0
PathResolved host args =
    (get_field (codes "path") args ≡ [])
    ⊎ ((v : Value) × (p : Text) × (host.resolve (host.shown v) ≡ Given.given p)
        × (get_field (codes "path") args ≡ str p ∷ []))

module _ (host : Host) (policy : Policy) where
  pub with_base-keeps :
      (name k : Text) (args : Fields)
      → codes "path" ≢ k
      → codes "base" ≢ k
      → get_field k (with_base host policy name args) ≡ get_field k args
  unfolding with_base
  with_base-keeps name k args path base = elim (Bool-cases (has name evidence_tools)) [
    | inr e ↦ rw e refl
    | inl e ↦ elim (Bool-cases (has name navigation && is_absent (get_field (codes "path") args))) [
      | inl f ↦
          rw (e, f)
            (get_field-set_other (codes "base") k _ _ base
              ∙ get_field-set_other (codes "path") k _ _ path)
      | inr f ↦ rw (e, f) (get_field-set_other (codes "base") k _ _ base)
    ]
  ]

  resolve_path-keeps :
      (k : Text) (args after : Fields) (vs : List Value)
      → codes "path" ≢ k
      → resolve_path host policy args vs ≡ Given.given after
      → get_field k after ≡ get_field k args
  resolve_path-keeps k args after [] path e = ap (get_field k) (sym (cc e))
  resolve_path-keeps k args after (v ∷ vs) path e = by_given (host.resolve (host.shown v)) e
    where
      by_given :
          (g : Given Text)
          → with_resolved host policy args g ≡ Given.given after
          → get_field k after ≡ get_field k args
      by_given (not_given why) e = absurd (cc e)
      by_given (Given.given p) e =
          let same_args : set_field (codes "path") (str p) args ≡ after = cc e in
          ap (get_field k) (sym same_args) ∙ get_field-set_other (codes "path") k _ args path

  pub with_path-keeps :
      (name k : Text) (args after : Fields)
      → codes "path" ≢ k
      → with_path host policy name args ≡ Given.given after
      → get_field k after ≡ get_field k args
  unfolding with_path
  with_path-keeps name k args after path e = elim (Bool-cases (has name path_tools)) [
    | inl t ↦ resolve_path-keeps k args after _ path (rw t at e)
    | inr t ↦ ap (get_field k) (sym (cc (rw t at e)))
  ]

  resolve_path-PathResolved :
      (args after : Fields) (vs : List Value)
      → get_field (codes "path") args ≡ vs
      → resolve_path host policy args vs ≡ Given.given after
      → PathResolved host after
  resolve_path-PathResolved args after [] is e =
      inl (ap (get_field (codes "path")) (sym (cc e)) ∙ is)
  resolve_path-PathResolved args after (v ∷ vs) is e = by_given (host.resolve (host.shown v)) refl e
    where
      by_given :
          (g : Given Text)
          → host.resolve (host.shown v) ≡ g
          → with_resolved host policy args g ≡ Given.given after
          → PathResolved host after
      by_given (not_given why) r e = absurd (cc e)
      by_given (Given.given p) r e =
          let same_args : set_field (codes "path") (str p) args ≡ after = cc e in
          inr (
            v,
            p,
            r,
            ap (get_field (codes "path")) (sym same_args)
                ∙ get_field-set_field (codes "path") (str p) args,
          )

  pub with_path-PathResolved :
      (name : Text) (args after : Fields)
      → has name path_tools ≡ true
      → with_path host policy name args ≡ Given.given after
      → PathResolved host after
  unfolding with_path
  with_path-PathResolved name args after t e =
      resolve_path-PathResolved args after _ refl (rw t at e)

  confined-keeps :
      (k : Text) (args after : Fields) (g : Given Value)
      → codes "confine" ≢ k
      → confined host policy args g ≡ Given.given after
      → get_field k after ≡ get_field k args
  confined-keeps k args after (not_given why) ne e = absurd (cc e)
  confined-keeps k args after (Given.given c) ne e =
      let same_args : set_field (codes "confine") c args ≡ after = cc e in
      ap (get_field k) (sym same_args) ∙ get_field-set_other (codes "confine") k c args ne

  confined-sets :
      (args after : Fields) (g : Given Value)
      → host.confinement ≡ g
      → confined host policy args g ≡ Given.given after
      → (c : Value) × (host.confinement ≡ Given.given c)
        × (get_field (codes "confine") after ≡ c ∷ [])
  confined-sets args after (not_given why) is e = absurd (cc e)
  confined-sets args after (Given.given c) is e =
      let same_args : set_field (codes "confine") c args ≡ after = cc e in
      (
        c,
        is,
        ap (get_field (codes "confine")) (sym same_args)
            ∙ get_field-set_field (codes "confine") c args,
      )

  pub with_shell-keeps :
      (name k : Text) (args after : Fields)
      → codes "confine" ≢ k
      → codes "credentials" ≢ k
      → codes "cwd" ≢ k
      → with_shell host policy name args ≡ Given.given after
      → get_field k after ≡ get_field k args
  unfolding with_shell
  with_shell-keeps name k args after confine credentials cwd e =
      elim (Bool-cases (same name bash)) [
        | inr f ↦ ap (get_field k) (sym (cc (rw f at e)))
        | inl f ↦
            confined-keeps k _ after host.confinement confine (rw f at e)
            ∙ get_field-set_other (codes "credentials") k _ _ credentials
            ∙ in_folder (is_set policy.root)
      ]
    where
      in_folder :
          (b : Bool)
          → get_field k (if b then set_field (codes "cwd") (str host.root_path) args else args)
            ≡ get_field k args
      in_folder true = get_field-set_other (codes "cwd") k _ args cwd
      in_folder false = refl

  pub with_shell-sets :
      (name : Text) (args after : Fields)
      → same name bash ≡ true
      → with_shell host policy name args ≡ Given.given after
      → (c : Value) × (host.confinement ≡ Given.given c)
        × (get_field (codes "confine") after ≡ c ∷ [])
  unfolding with_shell
  with_shell-sets name args after shell e =
      confined-sets
        (set_field (codes "credentials") (bool policy.bash_credentials)
          (if is_set policy.root then set_field (codes "cwd") (str host.root_path) args else args))
        after host.confinement refl (rw shell at e)

  pub with_images-keeps :
      (name k : Text) (args : Fields)
      → codes "image_model" ≢ k
      → codes "image_input" ≢ k
      → get_field k (with_images host policy name args) ≡ get_field k args
  unfolding with_images
  with_images-keeps name k args model input = elim (Bool-cases (same name (codes "read"))) [
    | inr f ↦ rw f refl
    | inl f ↦ rw f (
        get_field-set_other (codes "image_model") k _ _ model
        ∙ get_field-set_other (codes "image_input") k _ _ input)
  ]
