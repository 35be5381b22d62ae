-- ===== src/Controllers.antt =====
-- src/index/controller_store.rs: the scopes of controllers in scripts and in templates.
pub mod Innermost
use mathlib.Core.Option
use angularjs_lsp.Prelude.{
  ℕ, Bool, true, false, ◌&&◌, ◌||◌, Option, none, some, List, [], ◌∷◌, ◌++◌, map, Eq, ◌==◌, nat_eq,
  list_eq, nat_beq, ltb, leb, if◌then◌else◌, find, retain, flat_map, set_insert, sort_by,
}
use angularjs_lsp.DashMap
use angularjs_lsp.DashMap.{DashMap}
use angularjs_lsp.Text.{Str}
use angularjs_lsp.Model.Html.{ControllerScope, HtmlControllerScope}

pub record ControllerStore (Url : Type 0) : Type 0 where
  pub controller_scopes : DashMap Url (List (ControllerScope Url))
  pub html_controller_scopes : DashMap Url (List (HtmlControllerScope Url))

-- `line >= start && line <= end`
abbrev pub in_lines : ℕ → ℕ → ℕ → Bool
in_lines line start_line end_line = leb start_line line && leb line end_line

module _ {Url : Type 0} where
  unfoldable pub new : ControllerStore Url
  new = record { controller_scopes = []; html_controller_scopes = [] }

  unfoldable pub clear_all : ControllerStore Url → ControllerStore Url
  clear_all s = record { controller_scopes = []; html_controller_scopes = [] }

  abbrev pub covers : ℕ → HtmlControllerScope Url → Bool
  covers line scope = in_lines line scope.start_line scope.end_line

  -- `scope` lies within `best`
  abbrev pub lies_within : HtmlControllerScope Url → HtmlControllerScope Url → Bool
  lies_within scope best = leb best.start_line scope.start_line && leb scope.end_line best.end_line

  -- the best match so far, after a scope that passes the test
  unfoldable pub narrower :
      Option (HtmlControllerScope Url) → HtmlControllerScope Url → Option (HtmlControllerScope Url)
  narrower none scope = some scope
  narrower (some best) scope = if lies_within scope best then some scope else some best

  -- the loop over the scopes; the best match changes at those that pass the scopes that pass `test`
  unfoldable pub innermost :
      (HtmlControllerScope Url → Bool)
      → List (HtmlControllerScope Url)
      → Option (HtmlControllerScope Url)
      → Option (HtmlControllerScope Url)
  unfolding narrower
  innermost test [] best = best
  innermost test (scope ∷ scopes) best =
      innermost test scopes (if test scope then narrower best scope else best)

  -- the comparison of `get_html_controllers_at` is not `Greater`
  abbrev pub outer_first : HtmlControllerScope Url → HtmlControllerScope Url → Bool
  outer_first a b =
      ltb a.start_line b.start_line
      || (nat_beq a.start_line b.start_line && leb b.end_line a.end_line)

  -- `scope_alias == alias`
  abbrev pub has_alias : Str → HtmlControllerScope Url → Bool
  has_alias alias scope = elim scope.alias [ none ↦ false | some a ↦ a == alias ]

  -- the body of the loop of `get_html_alias_mappings`
  add_mappings : ℕ → DashMap Str Str → List (HtmlControllerScope Url) → DashMap Str Str
  add_mappings line mappings [] = mappings
  add_mappings line mappings (scope ∷ scopes) =
      add_mappings line
        (if covers line scope
          then elim scope.alias [
            | none ↦ mappings
            | some alias ↦ DashMap.insert alias scope.controller_name mappings
          ]
          else mappings)
        scopes

  unfoldable pub get_all_controller_scopes : ControllerStore Url → List (ControllerScope Url)
  get_all_controller_scopes s = flat_map (λ entry. entry.1) s.controller_scopes

  unfoldable pub get_all_html_controller_scopes_for_cache :
      ControllerStore Url → List (HtmlControllerScope Url)
  get_all_html_controller_scopes_for_cache s = flat_map (λ entry. entry.1) s.html_controller_scopes

  unfoldable pub html_controller_scope_uris : ControllerStore Url → List Url
  html_controller_scope_uris s = map (λ entry. entry.0) s.html_controller_scopes

  -- the inner loop of `get_html_templates_for_controller`
  add_template : Str → Str → List Str → List (HtmlControllerScope Url) → List Str
  add_template path controller_name templates [] = templates
  add_template path controller_name templates (scope ∷ scopes) =
      add_template path controller_name
        (if scope.controller_name == controller_name then set_insert path templates else templates)
        scopes

  -- the outer loop
  add_templates :
      (Url → Str) → Str → List Str → DashMap Url (List (HtmlControllerScope Url)) → List Str
  unfolding add_template
  add_templates path controller_name templates [] = templates
  add_templates path controller_name templates ((uri, scopes) ∷ rest) =
      add_templates path controller_name (add_template (path uri) controller_name templates scopes)
        rest

  unfoldable pub get_html_templates_for_controller :
      (Url → Str) → ControllerStore Url → Str → List Str
  unfolding add_templates set_insert
  get_html_templates_for_controller path s controller_name =
      add_templates path controller_name [] s.html_controller_scopes

module _ {Url : Type 0} ⦃e : Eq Url⦄ where
  unfoldable pub add_controller_scope :
      ControllerScope Url → ControllerStore Url → ControllerStore Url
  add_controller_scope scope s = record s {
    controller_scopes = DashMap.update scope.uri [] (λ l. l ++ scope ∷ []) s.controller_scopes;
  }

  unfoldable pub get_controller_at : ControllerStore Url → Url → ℕ → Option Str
  get_controller_at s uri line = elim (DashMap.get uri s.controller_scopes) [
    | none ↦ none
    | some scopes ↦
        Option.map (λ scope. scope.name)
          (find (λ scope. in_lines line scope.start_line scope.end_line) scopes)
  ]

  unfoldable pub get_injected_services_at : ControllerStore Url → Url → ℕ → List Str
  get_injected_services_at s uri line = elim (DashMap.get uri s.controller_scopes) [
    | none ↦ []
    | some scopes ↦
        Option.get_or
          (Option.map (λ scope. scope.injected_services)
            (find (λ scope. in_lines line scope.start_line scope.end_line) scopes))
          []
  ]

  unfoldable pub add_html_controller_scope :
      HtmlControllerScope Url → ControllerStore Url → ControllerStore Url
  add_html_controller_scope scope s = record s {
    html_controller_scopes =
        DashMap.update scope.uri [] (λ l. l ++ scope ∷ []) s.html_controller_scopes;
  }

  unfoldable pub get_all_html_controller_scopes :
      ControllerStore Url → Url → List (HtmlControllerScope Url)
  get_all_html_controller_scopes s uri = DashMap.get_or uri [] s.html_controller_scopes

  unfoldable pub get_html_controller_at : ControllerStore Url → Url → ℕ → Option Str
  unfolding innermost
  get_html_controller_at s uri line = elim (DashMap.get uri s.html_controller_scopes) [
    | none ↦ none
    | some scopes ↦
        Option.map (λ scope. scope.controller_name) (innermost (covers line) scopes none)
  ]

  unfoldable pub get_html_controllers_at : ControllerStore Url → Url → ℕ → List Str
  unfolding sort_by
  get_html_controllers_at s uri line =
      let matching_scopes : List (HtmlControllerScope Url) =
        elim (DashMap.get uri s.html_controller_scopes) [
          | none ↦ []
          | some scopes ↦ retain (covers line) scopes
        ] in
      map (λ scope. scope.controller_name) (sort_by outer_first matching_scopes)

  unfoldable pub resolve_controller_by_alias : ControllerStore Url → Url → ℕ → Str → Option Str
  unfolding innermost
  resolve_controller_by_alias s uri line alias = elim (DashMap.get uri s.html_controller_scopes) [
    | none ↦ none
    | some scopes ↦
        Option.map (λ scope. scope.controller_name)
          (innermost (λ scope. covers line scope && has_alias alias scope) scopes none)
  ]

  unfoldable pub get_html_alias_mappings : ControllerStore Url → Url → ℕ → DashMap Str Str
  unfolding add_mappings
  get_html_alias_mappings s uri line = elim (DashMap.get uri s.html_controller_scopes) [
    | none ↦ []
    | some scopes ↦ add_mappings line [] scopes
  ]

  unfoldable pub clear_document : Url → ControllerStore Url → ControllerStore Url
  clear_document uri s = record {
    controller_scopes = DashMap.remove uri s.controller_scopes;
    html_controller_scopes = DashMap.remove uri s.html_controller_scopes;
  }
