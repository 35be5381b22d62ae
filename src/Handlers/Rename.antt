-- ===== src/Handlers/Rename.antt =====
-- src/handler/rename.rs: the edits of a renaming, by document. `path` is `Url::path`,
-- `to_lowercase` is Rust's on a whole text.
pub mod Edits
use angularjs_lsp.Prelude.{
  ℕ, Bool, true, false, ◌&&◌, Option, none, some, List, [], ◌∷◌, ◌++◌, map, Eq, ◌==◌, if◌then◌else◌,
  leb, nat_beq, find, is_empty, is_some, or_else, and_then,
}
use angularjs_lsp.DashMap
use angularjs_lsp.DashMap.{DashMap}
use angularjs_lsp.Text.{Str, codes, split_once, before_first}
use angularjs_lsp.Util.{is_html_file}
use angularjs_lsp.Model.Span.{Span, contains_line}
use angularjs_lsp.Model.Location.{Position, Range, Location, TextEdit, to_lsp_range}
use angularjs_lsp.Model.Symbol.{Symbol}
use angularjs_lsp.Model.Html.{
  HtmlLocalVariable, HtmlFormBinding, HtmlScopeReference, variable_name_span,
  variable_reference_span, form_name_span, scope_reference_span,
}
use angularjs_lsp.Definitions.{get_definitions}
use angularjs_lsp.Definitions.Search.{find_symbol_at_position}
use angularjs_lsp.Html.References.{find_html_scope_reference_at}
use angularjs_lsp.Html.Variables.{
  find_html_local_variable_definition_at, find_html_local_variable_at, find_html_form_binding_at,
  get_local_variable_references,
}
use angularjs_lsp.Index.{
  Index, resolve_controllers_for_html, resolve_controller_for_html, resolve_controller_by_alias,
}
use angularjs_lsp.Index.Declarations.{find_local_variable_definition, find_form_binding_definition}
use angularjs_lsp.Index.References.{get_all_references}
use angularjs_lsp.Index.HtmlPosition.{referred_variable}
use angularjs_lsp.Handlers.Resolve.{scope_name, method_name, resolved_alias}
use angularjs_lsp.Handlers.References.{
  reference_location, variable_location, variable_reference_location, form_location,
  form_references,
}
use angularjs_lsp.Handlers.Definition.{name_location}

module _ {Url : Type 0} ⦃e : Eq Url⦄ where
  -- `changes.entry(uri).or_default().push(edit)`, for each location in turn
  unfoldable pub push_edits :
      Str → List (Location Url) → DashMap Url (List TextEdit) → DashMap Url (List TextEdit)
  push_edits new_name [] changes = changes
  push_edits new_name (l ∷ ls) changes = push_edits new_name ls (
      DashMap.update l.uri []
        (λ edits. edits ++ record { range = l.range; new_text = new_name } ∷ []) changes)

  -- the end of each function
  abbrev pub workspace_edit : Str → List (Location Url) → Option (DashMap Url (List TextEdit))
  workspace_edit new_name ls =
      let changes = push_edits new_name ls [] in if is_empty changes then none else some changes

-- the two tests of `find_symbol_range_at_position`
abbrev pub in_range : Span → Position → Bool
in_range span position =
    if nat_beq span.start_line span.end_line
    then leb span.start_col position.character && leb position.character span.end_col
    else true

abbrev pub is_at : {Url : Type 0} ⦃e : Eq Url⦄ → Url → Position → Url → Span → Bool
is_at uri position of span = of == uri && contains_line span position.line && in_range span position

module _ {Url : Type 0} ⦃e : Eq Url⦄ (path : Url → Str) (s : Index Url) where
  unfoldable pub collect_edits : Str → Str → Option (DashMap Url (List TextEdit))
  unfolding push_edits
  collect_edits symbol_name new_name = workspace_edit new_name (
      map name_location (get_definitions s.definitions symbol_name)
      ++ map reference_location (get_all_references path s symbol_name))

  unfoldable pub collect_local_variable_edits :
      HtmlLocalVariable Url → Str → Option (DashMap Url (List TextEdit))
  unfolding push_edits
  collect_local_variable_edits v new_name = workspace_edit new_name (
      variable_location v
      ∷ map variable_reference_location
          (get_local_variable_references s.html v.uri v.name v.scope_start_line v.scope_end_line))

  unfoldable pub collect_form_binding_edits :
      Url → HtmlFormBinding Url → Str → Option (DashMap Url (List TextEdit))
  unfolding push_edits
  collect_form_binding_edits uri b new_name = workspace_edit new_name (
      form_location b
      ∷ map reference_location
          (form_references path s b (resolve_controllers_for_html path s uri b.scope_start_line)))

  -- `controller_name`: that of the alias, else that of the line
  abbrev pub controller_name : Url → ℕ → Option Str → Option Str
  controller_name uri line (some controller) = some controller
  controller_name uri line none = resolve_controller_for_html path s uri line

  -- steps 4 and 5
  abbrev pub symbol_name_of : Bool → Str → Str → Str
  symbol_name_of is_alias property_path controller =
      let scope_symbol = scope_name property_path controller in
      let method_symbol = method_name property_path controller in
      if is_empty (get_definitions s.definitions scope_symbol)
      then if is_alias
        then if is_empty (get_definitions s.definitions method_symbol)
          then scope_symbol
          else method_symbol
        else scope_symbol
      else scope_symbol

  unfoldable pub resolve_symbol_name_from_html : Url → Position → Option Str
  resolve_symbol_name_from_html uri position =
      and_then (find_html_scope_reference_at s.html uri position.line position.character)
        (λ html_ref.
          let (resolved_controller, property_path) =
            resolved_alias path s uri position.line html_ref.property_path in
          and_then (controller_name uri position.line resolved_controller) (λ controller.
            some (symbol_name_of (is_some resolved_controller) property_path controller)))

  -- the form or the variable that the head of a reference names
  abbrev pub head_edits :
      Url → Position → Str → HtmlScopeReference Url → Option (Option (DashMap Url (List TextEdit)))
  head_edits uri position new_name html_ref =
      let base_name = before_first b'.' html_ref.property_path in
      elim (find_form_binding_definition path s uri base_name position.line) [
        | some form_binding ↦ some (collect_form_binding_edits uri form_binding new_name)
        | none ↦ elim (find_local_variable_definition path s uri base_name position.line) [
          | some var_def ↦ some (collect_local_variable_edits var_def new_name)
          | none ↦ none
        ]
      ]

  -- the branch of `rename` for templates; the outer `some` is a `return`
  abbrev pub returned_edits : Url → Position → Str → Option (Option (DashMap Url (List TextEdit)))
  returned_edits uri position new_name =
      let line = position.line in
      let col = position.character in
      or_else
        (and_then (find_html_local_variable_definition_at s.html uri line col)
          (λ v. some (collect_local_variable_edits v new_name)))
        (or_else
          (and_then (referred_variable path s uri position)
            (λ v. some (collect_local_variable_edits v new_name)))
          (or_else
            (and_then (find_html_form_binding_at s.html uri line col)
              (λ b. some (collect_form_binding_edits uri b new_name)))
            (and_then (find_html_scope_reference_at s.html uri line col)
              (head_edits uri position new_name))))

  unfoldable pub rename : (Str → Str) → Url → Position → Str → Option (DashMap Url (List TextEdit))
  unfolding collect_edits collect_local_variable_edits collect_form_binding_edits
      resolve_symbol_name_from_html
  rename to_lowercase uri position new_name =
      if is_html_file path to_lowercase uri
      then elim (returned_edits uri position new_name) [
        | some edits ↦ edits
        | none ↦
            and_then (resolve_symbol_name_from_html uri position)
              (λ symbol_name. collect_edits symbol_name new_name)
      ]
      else and_then (find_symbol_at_position s.definitions uri position.line position.character)
          (λ symbol_name. collect_edits symbol_name new_name)

  unfoldable pub find_symbol_range_at_position : Str → Url → Position → Option Range
  unfolding contains_line
  find_symbol_range_at_position symbol_name uri position =
      or_else
        (and_then
          (find (λ def. is_at uri position def.uri def.name_span)
            (get_definitions s.definitions symbol_name))
          (λ def. some (to_lsp_range def.name_span)))
        (and_then
          (find (λ r. is_at uri position r.uri r.span) (get_all_references path s symbol_name))
          (λ r. some (to_lsp_range r.span)))

  -- the last steps of `prepare_rename_from_html`
  abbrev pub reference_range : Url → Position → HtmlScopeReference Url → Range
  reference_range uri position html_ref =
      let base_name = before_first b'.' html_ref.property_path in
      elim (find_form_binding_definition path s uri base_name position.line) [
        | some form_binding ↦ to_lsp_range (form_name_span form_binding)
        | none ↦ elim (find_local_variable_definition path s uri base_name position.line) [
          | some var_def ↦ to_lsp_range (variable_name_span var_def)
          | none ↦ to_lsp_range (scope_reference_span html_ref)
        ]
      ]

  unfoldable pub prepare_rename_from_html : Url → Position → Option Range
  prepare_rename_from_html uri position =
      let line = position.line in
      let col = position.character in
      or_else
        (and_then (find_html_local_variable_definition_at s.html uri line col)
          (λ v. some (to_lsp_range (variable_name_span v))))
        (or_else
          (and_then (find_html_local_variable_at s.html uri line col)
            (λ r. some (to_lsp_range (variable_reference_span r))))
          (or_else
            (and_then (find_html_form_binding_at s.html uri line col)
              (λ b. some (to_lsp_range (form_name_span b))))
            (and_then (find_html_scope_reference_at s.html uri line col)
              (λ r. some (reference_range uri position r)))))

  unfoldable pub prepare_rename : (Str → Str) → Url → Position → Option Range
  unfolding find_symbol_range_at_position prepare_rename_from_html
  prepare_rename to_lowercase uri position =
      if is_html_file path to_lowercase uri
      then prepare_rename_from_html uri position
      else and_then (find_symbol_at_position s.definitions uri position.line position.character)
          (λ symbol_name. find_symbol_range_at_position symbol_name uri position)
