-- ===== src/Handlers/CodeLens.antt =====
-- src/handler/codelens.rs: the links above the lines of a document. `as_str` is `Url::as_str`; the
-- JSON of a place is the record of its URI and its range.
pub mod Targets
use mathlib.Core.Option
use angularjs_lsp.Prelude.{
  ℕ, Bool, true, false, not, Option, none, some, List, [], ◌∷◌, ◌++◌, map, Eq, ◌==◌, nat_eq,
  list_eq, if◌then◌else◌, retain, is_empty, flat_map, filter_map, contains,
}
use angularjs_lsp.Text.{Str, codes, after_last, has_text}
use angularjs_lsp.Util.{is_html_file, is_js_file}
use angularjs_lsp.Model.Location.{Range, Location}
use angularjs_lsp.Model.Symbol.{Symbol, controller, kind_eq}
use angularjs_lsp.Model.Html.{HtmlControllerScope}
use angularjs_lsp.Model.Template.{BindingSource, TemplateBinding, ComponentTemplateUrl, label}
use angularjs_lsp.Definitions.{get_definitions}
use angularjs_lsp.Controllers.{get_all_html_controller_scopes}
use angularjs_lsp.Components.{get_component_binding_for_template, get_component_template_urls}
use angularjs_lsp.Templates.Bindings.{
  get_all_template_binding_sources, get_template_bindings_for_js_file,
}
use angularjs_lsp.Templates.Includes.{
  get_parent_templates_for_child, get_inherited_controllers_for_template,
}
use angularjs_lsp.Templates.Resolution.{get_ng_includes_in_file}
use angularjs_lsp.Index.{Index}
use angularjs_lsp.Index.Declarations.{
  get_document_symbols, get_templates_for_controller, resolve_template_uri,
}
use angularjs_lsp.Handlers.References.{unless_empty}

pub record Command : Type 0 where
  pub title : Str
  pub command : Str
  pub arguments : Option (List (Location Str))

-- the fields of the protocol's `CodeLens` that are filled with more than `None`
pub record CodeLens : Type 0 where
  pub range : Range
  pub command : Command

abbrev pub open_location : Str
open_location = codes "angularjs.openLocation"

abbrev pub opens : Str → List (Location Str) → Command
opens title locations = record {
  title = title;
  command = open_location;
  arguments = some locations;
}

abbrev pub no_command : Str → Command
no_command title = record { title = title; command = []; arguments = none }

-- the command for a list of places, with a note where there is none
unfoldable pub opens_or : Str → Str → List (Location Str) → Command
opens_or title note [] = no_command (title ++ note)
opens_or title note (l ∷ ls) = opens title (l ∷ ls)

-- the empty range at a place
abbrev pub point : ℕ → ℕ → Range
point line character = record {
  start = record { line = line; character = character };
  end_ = record { line = line; character = character };
}

abbrev pub lens : ℕ → Command → CodeLens
lens line command = record { range = point line 0; command = command }

-- the names, with ", " between them
unfoldable pub join_names : List Str → Str
join_names [] = []
join_names (name ∷ []) = name
join_names (name ∷ next ∷ names) = name ++ (codes ", " ++ join_names (next ∷ names))

abbrev pub file_name : Str → Str
file_name path = after_last b'/' path

abbrev pub template_word : List Str → Str
template_word (t ∷ []) = codes "Template: "
template_word _ = codes "Templates: "

module _ {Url : Type 0} (as_str : Url → Str) where
  abbrev pub place : Url → ℕ → ℕ → Location Str
  place uri line character = record { uri = as_str uri; range = point line character }

  -- the JSON of a definition
  abbrev pub definition_place : Symbol Url → Location Str
  definition_place def = place def.uri def.definition_span.start_line def.definition_span.start_col

  abbrev pub create_included_by_lens : (Url → Str) → List (Url × ℕ) → CodeLens
  create_included_by_lens path parents = lens 0 (
      opens (codes "Included by: " ++ join_names (map (λ p. file_name (path p.0)) parents))
        (map (λ p. place p.0 p.1 0) parents))

  abbrev pub create_bound_from_lens : (Url → Str) → BindingSource → Url → ℕ → CodeLens
  create_bound_from_lens path source js_uri js_line = lens 0 (
      opens (codes "Bound from: " ++ (label source ++ (codes " in " ++ file_name (path js_uri))))
        (place js_uri js_line 0 ∷ []))

  abbrev pub create_ng_include_lens : ℕ → Str → Option Url → CodeLens
  create_ng_include_lens line template_path resolved_uri =
      let title = codes "ng-include: " ++ file_name template_path in
      lens line (elim resolved_uri [
        | some uri ↦ opens title (place uri 0 0 ∷ [])
        | none ↦ no_command (title ++ codes " (not found)")
      ])

module _ {Url : Type 0} ⦃e : Eq Url⦄ (path as_str : Url → Str) (resolve : Str → Option Url)
    (s : Index Url) where
  abbrev pub definition_places : Str → List (Location Str)
  definition_places name = map (definition_place as_str) (get_definitions s.definitions name)

  abbrev pub create_controller_lens : Str → ℕ → Str → CodeLens
  create_controller_lens controller_name line source = lens line (
      opens_or (source ++ (codes ": " ++ controller_name)) (codes " (not found)")
        (definition_places controller_name))

  -- `resolve` is `Index::resolve_template_uri`
  abbrev pub create_template_lens : ℕ → List Str → CodeLens
  create_template_lens line templates = lens line (
      opens_or (template_word templates ++ join_names (map file_name templates))
        (codes " (not resolved)")
        (filter_map (λ t. Option.map (λ uri. place as_str uri 0 0) (resolve t)) templates))

  abbrev pub template_place : Str → List (Location Str)
  template_place template_path = elim (resolve template_path) [
    | some uri ↦ place as_str uri 0 0 ∷ []
    | none ↦ []
  ]

  abbrev pub create_binding_lens : TemplateBinding Url → CodeLens
  create_binding_lens binding = lens binding.binding_line (
      opens_or
        (label binding.source
          ++ (codes ": "
              ++ (file_name binding.template_path ++ (codes " -> " ++ binding.controller_name))))
        (codes " (not resolved)")
        (template_place binding.template_path ++ definition_places binding.controller_name))

  abbrev pub component_title : ComponentTemplateUrl Url → Str
  component_title binding =
      codes "Component: "
      ++ (Option.get_or binding.controller_name (codes "(inline)")
          ++ (codes " (as " ++ (binding.controller_as ++ codes ")")))

  abbrev pub create_component_controller_lens : ComponentTemplateUrl Url → CodeLens
  create_component_controller_lens binding = lens 0 (elim binding.controller_name [
    | some controller_name ↦
        opens_or (component_title binding) (codes " (not found)")
          (definition_places controller_name)
    | none ↦
        opens (component_title binding) (place as_str binding.uri binding.line binding.col ∷ [])
  ])

  abbrev pub create_component_template_url_lens : ComponentTemplateUrl Url → CodeLens
  create_component_template_url_lens template_url = lens template_url.line (
      opens_or (codes "Open template: " ++ file_name template_url.template_path)
        (codes " (not found)") (template_place template_url.template_path))

  -- the parents that include the document, at its head
  abbrev pub included_by_lenses : Url → List CodeLens
  included_by_lenses uri =
      let parents =
        retain (λ p. not (has_text (path p.0) (codes "ng-view-virtual-parent")))
          (get_parent_templates_for_child path s.templates uri) in
      if is_empty parents then [] else create_included_by_lens as_str path parents ∷ []

  -- the loop over the bindings, with `seen_files` and `seen_controllers`
  unfoldable pub bound_lenses :
      List Str → List Str → List (Str × BindingSource × Url × ℕ) → List CodeLens
  bound_lenses seen_files seen_controllers [] = []
  bound_lenses seen_files seen_controllers ((controller_name, source, js_uri, js_line) ∷ bindings) =
      let file_key = as_str js_uri in
      let rest =
        bound_lenses (if contains seen_files file_key then seen_files else file_key ∷ seen_files)
          (if contains seen_controllers controller_name
            then seen_controllers
            else controller_name ∷ seen_controllers)
          bindings in
      (if contains seen_files file_key
        then []
        else create_bound_from_lens as_str path source js_uri js_line ∷ [])
      ++ ((if contains seen_controllers controller_name
            then []
            else create_controller_lens controller_name 0 (codes "Binded") ∷ [])
          ++ rest)

  abbrev pub component_lenses : Url → List CodeLens
  component_lenses uri = elim (get_component_binding_for_template path s.components uri) [
    | some binding ↦ create_component_controller_lens binding ∷ []
    | none ↦ []
  ]

  abbrev pub scope_lens : HtmlControllerScope Url → CodeLens
  scope_lens scope =
      create_controller_lens scope.controller_name scope.start_line (codes "ng-controller")

  -- a turn of the loop over the symbols of the document
  abbrev pub template_lenses : Symbol Url → List CodeLens
  template_lenses symbol =
      let templates = get_templates_for_controller path s symbol.name in
      if symbol.kind == controller
      then (if is_empty templates
          then []
          else create_template_lens symbol.name_span.start_line templates ∷ [])
      else []

  abbrev pub symbol_lenses : Url → List CodeLens
  symbol_lenses uri = flat_map template_lenses (get_document_symbols s uri)

  abbrev pub binding_lenses : Url → List CodeLens
  binding_lenses uri = map create_binding_lens (get_template_bindings_for_js_file s.templates uri)

  abbrev pub inherited_lenses : Url → List CodeLens
  inherited_lenses uri =
      map (λ c. create_controller_lens c 0 (codes "Inherited"))
        (get_inherited_controllers_for_template path s.templates uri)

  abbrev pub ng_include_lenses : List (ℕ × Str × Option Url) → List CodeLens
  ng_include_lenses includes = map (λ i. create_ng_include_lens as_str i.0 i.1 i.2) includes

  -- `includes` are the ng-includes of the document
  unfoldable pub html_lenses : List (ℕ × Str × Option Url) → Url → List CodeLens
  unfolding bound_lenses
  html_lenses includes uri =
      included_by_lenses uri
      ++ (bound_lenses [] [] (get_all_template_binding_sources path s.templates uri)
          ++ (component_lenses uri
              ++ (inherited_lenses uri
                  ++ (map scope_lens (get_all_html_controller_scopes s.controllers uri)
                      ++ (ng_include_lenses includes
                          ++ (symbol_lenses uri ++ binding_lenses uri))))))

  unfoldable pub code_lens_for_js : Url → Option (List CodeLens)
  code_lens_for_js uri = unless_empty (
      symbol_lenses uri
      ++ (binding_lenses uri
          ++ map create_component_template_url_lens (get_component_template_urls s.components uri)))

module _ {Url : Type 0} ⦃e : Eq Url⦄ (path as_str scheme authority : Url → Str)
    (parse : Str → Option Url) (s : Index Url) where
  abbrev pub resolve_template : Str → Option Url
  resolve_template template_path = resolve_template_uri path s scheme authority parse template_path

  unfoldable pub code_lens_for_html : Url → Option (List CodeLens)
  unfolding html_lenses
  code_lens_for_html uri = unless_empty (
      html_lenses path as_str resolve_template s
        (get_ng_includes_in_file path scheme authority parse s.templates uri) uri)

  unfoldable pub code_lens : (Str → Str) → Url → Option (List CodeLens)
  unfolding code_lens_for_html code_lens_for_js
  code_lens to_lowercase uri =
      if is_html_file path to_lowercase uri
      then code_lens_for_html uri
      else if is_js_file path uri
      then code_lens_for_js path as_str resolve_template s uri
      else none
