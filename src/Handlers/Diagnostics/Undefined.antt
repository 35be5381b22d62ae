-- ===== src/Handlers/Diagnostics/Undefined.antt =====
-- Which references of a template are reported.
use mathlib.Core.Option
use angularjs_lsp.Prelude.{
  ℕ, ◌≡◌, refl, ◌↔◌, inl, inr, Bool, true, false, ◌&&◌, ◌||◌, Option, none, some, List, [], ◌∷◌,
  arith, Eq, if◌then◌else◌, In, any, any-In, any-false, any-none, any_witness, In-filter_map,
  filter_map-In, Bool-cases, Option-cases,
}
use angularjs_lsp.Text.{Str}
use angularjs_lsp.Model.Html.{HtmlScopeReference, scope_reference_span}
use angularjs_lsp.Model.Location.{to_lsp_range}
use angularjs_lsp.Definitions.{has_definition, find_root_scope_definitions_by_property}
use angularjs_lsp.Html.References.{get_html_scope_references}
use angularjs_lsp.Index.{Index, resolve_controllers_for_html, resolve_controller_by_alias}
use angularjs_lsp.Index.Declarations.{find_local_variable_definition, find_form_binding_definition}
use angularjs_lsp.Index.References.{has_ng_model_implicit_def}
use angularjs_lsp.Handlers.Diagnostics.{
  Diagnostic, DiagnosticSeverity, scan_controllers, has_property, has_root_property, plain_message,
  missing_in_scope, alias_message, missing_in_controller, scope_diagnostic, check_scope_references,
  scope_message, undefined_message, alias_and_property, is_dynamic,
}

module _ {Url : Type 0} ⦃e : Eq Url⦄ (path : Url → Str) (s : Index Url) where
  -- what the loop over the controllers finds
  scan_controllers-any :
      (property : Str) (cs : List Str) (b : Bool)
      → scan_controllers path s property cs b ≡ (
        any (λ c. has_definition s.definitions c && has_property path s property c) cs,
        b || any (λ c. has_definition s.definitions c) cs,
      )
  unfolding scan_controllers
  scan_controllers-any property [] b = ground arith
  scan_controllers-any property (c ∷ cs) b =
      ground (
        arith,
        scan_controllers-any property cs (if has_definition s.definitions c then true else b),
      )

  -- Some controller of the list is defined, and none that is defines the property; no root scope and
  -- no `ng-model` does.
  abbrev pub PlainUndefined : Url → ℕ → Str → Type 0
  PlainUndefined uri line property =
      let controllers = resolve_controllers_for_html path s uri line in
      (resolve_controller_by_alias path s uri line property ≡ none)
      × ((c : Str) × In c controllers × (has_definition s.definitions c ≡ true))
      × ((c : Str)
          → In c controllers
          → has_definition s.definitions c ≡ true
          → has_property path s property c ≡ false)
      × (find_root_scope_definitions_by_property s.definitions property ≡ [])
      × ((c : Str) → In c controllers → has_ng_model_implicit_def path s uri c property ≡ false)

  -- The controller of the alias is defined and has no such property; no root scope and no `ng-model`
  -- has.
  abbrev pub AliasUndefined : Url → ℕ → Str → Str → Str → Type 0
  AliasUndefined uri line alias property message =
      (c : Str) × (resolve_controller_by_alias path s uri line alias ≡ some c)
      × (has_definition s.definitions c ≡ true)
      × (has_property path s property c ≡ false)
      × (find_root_scope_definitions_by_property s.definitions property ≡ [])
      × (has_ng_model_implicit_def path s uri c property ≡ false)
      × (message ≡ missing_in_controller path s property c)

  root_free :
      (property : Str)
      → has_root_property path s property ≡ false
      → find_root_scope_definitions_by_property s.definitions property ≡ []
  root_free property h = ground arith

  alias_undefined :
      (uri : Url) (line : ℕ) (alias property message : Str)
      → alias_message path s uri line alias property ≡ some message
      → AliasUndefined uri line alias property message
  alias_undefined uri line alias property message h =
      elim (Option-cases (resolve_controller_by_alias path s uri line alias)) [
        | inl none_found ↦ absurd (ground arith)
        | inr (c, found) ↦
            let defined : has_definition s.definitions c ≡ true = ground arith in
            let lacks : has_property path s property c ≡ false = ground arith in
            let rootless : has_root_property path s property ≡ false = ground arith in
            let unwritten : has_ng_model_implicit_def path s uri c property ≡ false =
              ground arith in
            (c, found, defined, lacks, root_free property rootless, unwritten, ground arith)
      ]

  alias_message-some :
      (uri : Url) (line : ℕ) (alias property message : Str)
      → AliasUndefined uri line alias property message
      → alias_message path s uri line alias property ≡ some message
  alias_message-some uri line alias property message
        (c, found, defined, lacks, root, unwritten, m) =
      ground arith

  plain_undefined :
      (uri : Url) (line : ℕ) (property message : Str)
      → plain_message path s uri line property ≡ some message
      → PlainUndefined uri line property × (message ≡ missing_in_scope path s property)
  plain_undefined uri line property message h =
      let cs = resolve_controllers_for_html path s uri line in
      let scanned = scan_controllers-any property cs false in
      let no_alias : resolve_controller_by_alias path s uri line property ≡ none = ground arith in
      let defined : any (λ c. has_definition s.definitions c) cs ≡ true = ground arith in
      let lacks : any (λ c. has_definition s.definitions c && has_property path s property c) cs
          ≡ false =
        ground arith in
      let rootless : has_root_property path s property ≡ false = ground arith in
      let unwritten : any (λ c. has_ng_model_implicit_def path s uri c property) cs ≡ false =
        ground arith in
      (
        (
          no_alias,
          any_witness (λ c. has_definition s.definitions c) cs defined,
          λ c i d.
              let both =
                any-false (λ c. has_definition s.definitions c && has_property path s property c) cs
                  c lacks i in
              ground arith,
          root_free property rootless,
          λ c i. any-false (λ c. has_ng_model_implicit_def path s uri c property) cs c unwritten i,
        ),
        ground arith,
      )

  plain_message-some :
      (uri : Url) (line : ℕ) (property message : Str)
      → PlainUndefined uri line property
      → message ≡ missing_in_scope path s property
      → plain_message path s uri line property ≡ some message
  plain_message-some uri line property message (no_alias, (c, i, d), lacks, root, unwritten) m =
      let cs = resolve_controllers_for_html path s uri line in
      let scanned = scan_controllers-any property cs false in
      let defined = any-In (λ c. has_definition s.definitions c) cs c i d in
      let none_has =
        any-none (λ c. has_definition s.definitions c && has_property path s property c) cs
          (λ a j. elim (Bool-cases (has_definition s.definitions a)) [
            | inl t ↦ ground (arith, lacks a j t)
            | inr f ↦ ground arith
          ]) in
      let none_writes =
        any-none (λ c. has_ng_model_implicit_def path s uri c property) cs unwritten in
      ground arith

  -- A property is undefined behind its alias, or plainly.
  abbrev pub IsUndefined : Url → ℕ → Option Str → Str → Str → Type 0
  IsUndefined uri line (some alias) property message =
      AliasUndefined uri line alias property message
  IsUndefined uri line none property message =
      PlainUndefined uri line property × (message ≡ missing_in_scope path s property)

  undefined :
      (uri : Url) (line : ℕ) (alias : Option Str) (property message : Str)
      → undefined_message path s uri line alias property ≡ some message
      → IsUndefined uri line alias property message
  undefined uri line (some alias) property message h =
      alias_undefined uri line alias property message h
  undefined uri line none property message h = plain_undefined uri line property message h

  undefined_message-some :
      (uri : Url) (line : ℕ) (alias : Option Str) (property message : Str)
      → IsUndefined uri line alias property message
      → undefined_message path s uri line alias property ≡ some message
  undefined_message-some uri line (some alias) property message h =
      alias_message-some uri line alias property message h
  undefined_message-some uri line none property message (h, m) =
      plain_message-some uri line property message h m

  -- A reference is reported with the message: it is not dynamic, no variable and no form has the
  -- name of its head, and its property is undefined.
  abbrev pub IsReported : Url → ℕ → Str → Str → Type 0
  IsReported uri line property_path message =
      let alias = (alias_and_property property_path).0 in
      let property = (alias_and_property property_path).1 in
      (is_dynamic property_path ≡ false)
      × (find_local_variable_definition path s uri (Option.get_or alias property) line ≡ none)
      × (find_form_binding_definition path s uri (Option.get_or alias property) line ≡ none)
      × IsUndefined uri line alias property message

  reported :
      (uri : Url) (line : ℕ) (property_path message : Str)
      → scope_message path s uri line property_path ≡ some message
      → IsReported uri line property_path message
  reported uri line property_path message h =
      let alias = (alias_and_property property_path).0 in
      let property = (alias_and_property property_path).1 in
      let lemma = undefined uri line alias property message in
      (ground arith, ground arith, ground arith, lemma (ground arith))

  scope_message-some :
      (uri : Url) (line : ℕ) (property_path message : Str)
      → IsReported uri line property_path message
      → scope_message path s uri line property_path ≡ some message
  scope_message-some uri line property_path message (a, b, c, d) =
      let alias = (alias_and_property property_path).0 in
      let property = (alias_and_property property_path).1 in
      let shown = undefined_message-some uri line alias property message d in ground arith

  abbrev pub diagnostic : DiagnosticSeverity → HtmlScopeReference Url → Str → Diagnostic
  diagnostic severity r message = record {
    range = to_lsp_range (scope_reference_span r);
    severity = severity;
    message = message;
    unnecessary = false;
  }

  -- What is reported for the scope references of a template is exactly a diagnostic for each that
  -- is not dynamic, whose head names no variable and no form at its line, and whose property is
  -- undefined: behind an alias, the controller is defined and has no such property; without one,
  -- the path is no alias, some controller at the line is defined and none that is defines the
  -- property; in both cases no root scope and no ng-model defines it.
  pub check_scope_references_iff :
      (severity : DiagnosticSeverity) (uri : Url) (d : Diagnostic)
      → In d (check_scope_references path s severity uri) ↔ (
          (r : HtmlScopeReference Url) × (message : Str) × In r
            (get_html_scope_references s.html uri)
          × IsReported uri r.start_line r.property_path message
          × (d ≡ diagnostic severity r message))
  unfolding check_scope_references
  check_scope_references_iff severity uri d =
      let turn = scope_diagnostic path s severity uri in
      let refs = get_html_scope_references s.html uri in
      (
        λ i.
            let (r, j, shown) = In-filter_map turn d refs i in
            elim (Option-cases (scope_message path s uri r.start_line r.property_path)) [
              | inl silent ↦ absurd (ground arith)
              | inr (m, said) ↦
                  (r, m, j, reported uri r.start_line r.property_path m said, ground arith)
            ],
        λ (r, m, j, told, same). filter_map-In turn r d refs j (
            let said = scope_message-some uri r.start_line r.property_path m told in
            rw (said, same) refl),
      )
