-- ===== src/Handlers/References.antt =====
-- src/handler/references.rs: all places of what stands at a position. `path` is `Url::path`,
-- `as_str` is `Url::as_str`, `to_lowercase` is Rust's on a whole text.
use angularjs_lsp.Prelude.{
  Bool, ◌||◌, ◌&&◌, Option, none, some, List, [], ◌∷◌, ◌++◌, map, Eq, ◌==◌, if◌then◌else◌, leb, any,
  retain, flat_map, or_else, and_then,
}
use angularjs_lsp.Text.{Str}
use angularjs_lsp.Util.{is_html_file}
use angularjs_lsp.Model.Location.{Position, Location, to_lsp_range}
use angularjs_lsp.Model.Symbol.{
  Symbol, SymbolReference, kind_eq, directive, component, ui_router_state,
}
use angularjs_lsp.Model.Html.{
  HtmlLocalVariable, HtmlLocalVariableReference, HtmlFormBinding, HtmlDirectiveReference,
  variable_name_span, variable_reference_span, form_name_span, directive_reference_span,
}
use angularjs_lsp.Definitions.{
  get_definitions, get_references, has_definition, find_root_scope_symbol_name_by_property,
}
use angularjs_lsp.Definitions.Search.{find_symbol_at_position}
use angularjs_lsp.Html.References.{get_html_directive_references}
use angularjs_lsp.Html.Variables.{get_local_variable_references}
use angularjs_lsp.Templates.Views.{get_inherited_local_variable_references}
use angularjs_lsp.Index.{Index, resolve_controllers_for_html}
use angularjs_lsp.Index.References.{get_html_references_for_symbol, get_all_references}
use angularjs_lsp.Index.HtmlPosition
use angularjs_lsp.Index.HtmlPosition.{HtmlResolution, resolve_stored}
use angularjs_lsp.Handlers.Resolve.{scope_name, method_name}

-- the end of each function
abbrev pub unless_empty : {A : Type 0} → List A → Option (List A)
unless_empty [] = none
unless_empty (a ∷ l) = some (a ∷ l)

-- the locations under `if include_declaration`
abbrev pub declarations : {A : Type 0} → Bool → List A → List A
declarations include_declaration l = if include_declaration then l else []

module _ {Url : Type 0} where
  abbrev pub definition_location : Symbol Url → Location Url
  definition_location def = record { uri = def.uri; range = to_lsp_range def.definition_span }

  abbrev pub reference_location : SymbolReference Url → Location Url
  reference_location r = record { uri = r.uri; range = to_lsp_range r.span }

  abbrev pub variable_location : HtmlLocalVariable Url → Location Url
  variable_location v = record { uri = v.uri; range = to_lsp_range (variable_name_span v) }

  abbrev pub variable_reference_location : HtmlLocalVariableReference Url → Location Url
  variable_reference_location r = record {
    uri = r.uri;
    range = to_lsp_range (variable_reference_span r);
  }

  abbrev pub form_location : HtmlFormBinding Url → Location Url
  form_location b = record { uri = b.uri; range = to_lsp_range (form_name_span b) }

  abbrev pub directive_location : HtmlDirectiveReference Url → Location Url
  directive_location r = record { uri = r.uri; range = to_lsp_range (directive_reference_span r) }

  abbrev pub is_directive_kind : Symbol Url → Bool
  is_directive_kind d = d.kind == directive || d.kind == component

  abbrev pub is_state : Symbol Url → Bool
  is_state d = d.kind == ui_router_state

  -- a reference that begins in the scope of the form
  abbrev pub in_form_scope : HtmlFormBinding Url → SymbolReference Url → Bool
  in_form_scope b r =
      leb b.scope_start_line r.span.start_line && leb r.span.start_line b.scope_end_line

  -- a loop over the controllers: the first name that is defined and gives an answer
  unfoldable pub first_defined :
      {A : Type 0} → Index Url → (Str → Option A) → (Str → Str) → List Str → Option A
  first_defined s answer name_of [] = none
  first_defined s answer name_of (controller ∷ controllers) =
      let rest = first_defined s answer name_of controllers in
      if has_definition s.definitions (name_of controller)
      then or_else (answer (name_of controller)) rest
      else rest

  -- `build_for_scope`, and `highlight_for_scope` of the highlights
  abbrev pub scope_chain :
      {A : Type 0} → Index Url → (Str → Option A) → List Str → Str → Bool → Option A
  scope_chain s answer controllers property_path is_alias =
      or_else (first_defined s answer (scope_name property_path) controllers) (
        or_else
          (if is_alias
            then first_defined s answer (method_name property_path) controllers
            else none)
          (and_then (find_root_scope_symbol_name_by_property s.definitions property_path) answer))

module _ {Url : Type 0} ⦃e : Eq Url⦄ (path : Url → Str) (s : Index Url) where
  unfoldable pub collect_state_references : Str → Bool → Option (List (Location Url))
  collect_state_references state_name include_declaration = unless_empty (
      declarations include_declaration
        (map definition_location (retain is_state (get_definitions s.definitions state_name)))
      ++ map reference_location (get_references s.definitions state_name))

  unfoldable pub collect_references : Str → Bool → Option (List (Location Url))
  collect_references symbol_name include_declaration = unless_empty (
      declarations include_declaration
        (map definition_location (get_definitions s.definitions symbol_name))
      ++ map reference_location (get_all_references path s symbol_name))

  unfoldable pub collect_directive_all_references : Str → Bool → Option (List (Location Url))
  collect_directive_all_references directive_name include_declaration = unless_empty (
      declarations include_declaration (
        map definition_location
          (retain is_directive_kind (get_definitions s.definitions directive_name)))
      ++ (map directive_location (get_html_directive_references s.html directive_name)
          ++ map reference_location (get_all_references path s directive_name)))

  unfoldable pub collect_local_variable_references :
      HtmlLocalVariable Url → Bool → Option (List (Location Url))
  collect_local_variable_references v include_declaration = unless_empty (
      declarations include_declaration (variable_location v ∷ [])
      ++ (map variable_reference_location
            (get_local_variable_references s.html v.uri v.name v.scope_start_line v.scope_end_line)
          ++ map variable_reference_location (
              get_inherited_local_variable_references path s.templates v.uri v.name
                s.html.html_local_variable_references)))

  -- the loop over the controllers of a form
  abbrev pub form_references : HtmlFormBinding Url → List Str → List (SymbolReference Url)
  form_references b controllers =
      flat_map
        (λ controller.
          let symbol_name = scope_name b.name controller in
          retain (in_form_scope b) (get_html_references_for_symbol path s symbol_name)
          ++ get_references s.definitions symbol_name)
        controllers

  unfoldable pub collect_form_binding_references :
      HtmlFormBinding Url → Bool → Option (List (Location Url))
  collect_form_binding_references b include_declaration = unless_empty (
      declarations include_declaration (form_location b ∷ [])
      ++ map reference_location
          (form_references b (resolve_controllers_for_html path s b.uri b.scope_start_line)))

  unfoldable pub build_for_scope : List Str → Str → Bool → Bool → Option (List (Location Url))
  unfolding collect_references
  build_for_scope controllers property_path is_alias include_declaration =
      scope_chain s (λ name. collect_references name include_declaration) controllers property_path
        is_alias

  -- the answer for each kind of resolution
  abbrev pub references_of : Bool → HtmlResolution Url → Option (List (Location Url))
  references_of d (HtmlPosition.ui_sref r) = collect_state_references r.state_name d
  references_of d (HtmlPosition.directive r) = collect_directive_all_references r.directive_name d
  references_of d (HtmlPosition.local_var_def v) = collect_local_variable_references v d
  references_of d (HtmlPosition.local_var_ref v) = collect_local_variable_references v d
  references_of d (HtmlPosition.inherited_local_var v) = collect_local_variable_references v d
  references_of d (HtmlPosition.form_binding_def b) = collect_form_binding_references b d
  references_of d (HtmlPosition.inherited_form_binding b) = collect_form_binding_references b d
  references_of d (HtmlPosition.scope controllers property_path is_alias) =
      build_for_scope controllers property_path is_alias d

  unfoldable pub find_references :
      (Str → Str) → Url → Position → Bool → Option (List (Location Url))
  unfolding collect_state_references collect_directive_all_references
      collect_local_variable_references collect_form_binding_references build_for_scope
  find_references to_lowercase uri position include_declaration =
      if is_html_file path to_lowercase uri
      then and_then (resolve_stored path s uri position) (references_of include_declaration)
      else and_then (find_symbol_at_position s.definitions uri position.line position.character)
          (λ symbol_name.
            if any is_directive_kind (get_definitions s.definitions symbol_name)
            then collect_directive_all_references symbol_name include_declaration
            else collect_references symbol_name include_declaration)
