-- ===== src/Tool/Started.antt =====
-- What a tool is started with (src/nare/tools.py).
use nare.Prelude.{
  ◌≡◌, refl, sym, ap, ◌∙◌, ◌≢◌, ◌⊎◌, inl, inr, Bool, true, false, List, [], ◌∷◌, none, some, Text,
  codes, same, has, Option-cases,
}
use nare.Json.Value.{Value, Fields}
use nare.Json.Dict.{lookup}
use nare.Session.Types.{Ruled}
use nare.Reads.Cited.{get_field}
use nare.Tool.Policy.{
  ExternalTool, Policy, Given, not_given, Host, path_tools, bash, ToolEnd, gave, tool_raised,
  tool_cancelled,
}
use nare.Tool.Dispatch.{
  with_base, with_images, prepare, run_built_in, run_tool, external_end, built_in_end, then_given,
}
use nare.Tool.Prepared.{
  differ, own_keys, not-own, PathResolved, with_base-keeps, with_path-keeps, with_path-PathResolved,
  with_shell-keeps, with_shell-sets, with_images-keeps,
}

module _ (host : Host) (policy : Policy) where
  -- The arguments `given` of a built-in tool come from the checked ones: only nare's own keys change,
  -- a path has passed the root, and a bash call carries the confinement of this process.
  pub record IsPrepared (name : Text) (args given_args : Fields) : Type 0 where
    pub kept : (k : Text) → has k own_keys ≡ false → get_field k given_args ≡ get_field k args
    pub resolved : has name path_tools ≡ true → PathResolved host given_args
    pub confined :
        same name bash ≡ true
        → (c : Value) × (host.confinement ≡ Given.given c)
          × (get_field (codes "confine") given_args ≡ c ∷ [])

  -- What a tool is started with: an external one with the checked arguments as they are.
  abbrev pub StartedWith : Text → Fields → Fields → Type 0
  StartedWith name args given_args =
      ((tool : ExternalTool) × (lookup name policy.external ≡ some tool) × (given_args ≡ args))
      ⊎ ((lookup name policy.external ≡ none) × IsPrepared name args given_args)

  then_given-given :
      (m : Given Fields) (f : Fields → Given Fields) (after : Fields)
      → then_given m f ≡ Given.given after
      → (a : Fields) × (m ≡ Given.given a) × (f a ≡ Given.given after)
  then_given-given (not_given why) f after e = absurd (cc e)
  then_given-given (Given.given a) f after e = (a, refl, e)

  PathResolved-from :
      (a b : Fields)
      → get_field (codes "path") b ≡ get_field (codes "path") a
      → PathResolved host a
      → PathResolved host b
  PathResolved-from a b e (inl nothing) = inl (e ∙ nothing)
  PathResolved-from a b e (inr (v, p, r, is)) = inr (v, p, r, e ∙ is)

  prepare-IsPrepared :
      (name : Text) (args given_args : Fields)
      → prepare host policy name args ≡ Given.given given_args
      → IsPrepared name args given_args
  unfolding prepare same has
  prepare-IsPrepared name args given_args e =
      let (a, first, rest) = then_given-given _ _ given_args e in
      let (b, second, last) = then_given-given _ _ given_args rest in
      let same_args : with_images host policy name b ≡ given_args = cc last in
      let shown = λ (k : Text) (m : codes "image_model" ≢ k) (i : codes "image_input" ≢ k).
        ap (get_field k) (sym same_args) ∙ with_images-keeps host policy name k b m i in
      record {
        kept = λ k other.
            shown k (not-own _ k refl other) (not-own _ k refl other)
            ∙ with_shell-keeps host policy name k a b (not-own _ k refl other)
                (not-own _ k refl other) (not-own _ k refl other) second
            ∙ with_path-keeps host policy name k (with_base host policy name args) a
                (not-own _ k refl other) first
            ∙ with_base-keeps host policy name k args (not-own _ k refl other)
                (not-own _ k refl other);
        resolved = λ t.
            PathResolved-from a given_args
              (shown (codes "path") (differ _ _ refl) (differ _ _ refl)
                ∙ with_shell-keeps host policy name (codes "path") a b (differ _ _ refl)
                    (differ _ _ refl) (differ _ _ refl) second)
              (with_path-PathResolved host policy name (with_base host policy name args) a t first);
        confined = λ shell.
            let (c, is, set) = with_shell-sets host policy name a b shell second in
            (c, is, shown (codes "confine") (differ _ _ refl) (differ _ _ refl) ∙ set);
      }

  external-started :
      (asked : Bool) (rules : List Ruled) (args given_args : Fields) (o : ToolEnd)
      → (external_end host policy asked rules args o).started ≡ some given_args
      → given_args ≡ args
  external-started asked rules args given_args (gave o) e = sym (cc e)
  external-started asked rules args given_args (tool_raised why) e = sym (cc e)
  external-started asked rules args given_args tool_cancelled e = sym (cc e)

  built_in-started :
      (name : Text) (asked : Bool) (rules : List Ruled) (args given_args : Fields) (o : ToolEnd)
      → (built_in_end host policy name asked rules args o).started ≡ some given_args
      → args ≡ given_args
  built_in-started name asked rules args given_args (gave o) e = cc e
  built_in-started name asked rules args given_args (tool_raised why) e = cc e
  built_in-started name asked rules args given_args tool_cancelled e = cc e

  run_built_in-started :
      (name : Text) (asked : Bool) (rules : List Ruled) (g : Given Fields) (given_args : Fields)
      → (run_built_in host policy name asked rules g).started ≡ some given_args
      → g ≡ Given.given given_args
  run_built_in-started name asked rules (not_given why) given_args e = absurd (cc e)
  run_built_in-started name asked rules (Given.given args) given_args e =
      ap Given.given (built_in-started name asked rules args given_args (host.run name args) e)

  pub run_tool-StartedWith :
      (name : Text) (asked : Bool) (rules : List Ruled) (args given_args : Fields)
      → (run_tool host policy name asked rules args).started ≡ some given_args
      → StartedWith name args given_args
  unfolding run_tool
  run_tool-StartedWith name asked rules args given_args e =
      elim (Option-cases (lookup name policy.external)) [
        | inr (tool, l) ↦ inl (
          tool,
          l,
          external-started asked rules args given_args (tool.call args) (rw (l, run_tool) at e),
        )
        | inl l ↦ inr (
          l,
          prepare-IsPrepared name args given_args
              (run_built_in-started name asked rules _ given_args (rw (l, run_tool) at e)),
        )
      ]
