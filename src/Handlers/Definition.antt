-- ===== src/Handlers/Definition.antt =====
-- src/handler/definition.rs: where what stands at a position is defined. `path` is `Url::path`;
-- `to_lowercase`, `is_alphanumeric` and `lines` are Rust's.
pub mod Chain
use angularjs_lsp.Prelude.{
  ℕ, Bool, true, false, Option, none, some, List, [], ◌∷◌, map, Eq, if◌then◌else◌, retain, or_else,
  and_then, Outcome, panics, returns,
}
use angularjs_lsp.Text.{Str}
use angularjs_lsp.Util.{is_html_file}
use angularjs_lsp.Model.Location.{Position, Location, to_lsp_range}
use angularjs_lsp.Model.Symbol.{Symbol}
use angularjs_lsp.Model.Html.{
  HtmlUiSrefReference, HtmlDirectiveReference, HtmlNgModelTarget, ng_model_target_span,
}
use angularjs_lsp.Definitions.{get_definitions, find_root_scope_definitions_by_property}
use angularjs_lsp.Definitions.Search.{find_symbol_at_position}
use angularjs_lsp.Index.{Index}
use angularjs_lsp.Index.References.{find_ng_model_implicit_def_target}
use angularjs_lsp.Index.HtmlPosition
use angularjs_lsp.Index.HtmlPosition.{HtmlResolution, resolve_html_position}
use angularjs_lsp.Handlers.Resolve.{scope_name, method_name}
use angularjs_lsp.Handlers.References.{
  definition_location, variable_location, form_location, is_directive_kind, is_state, unless_empty,
}

pub data GotoDefinitionResponse (Url : Type 0) : Type 0 where
  scalar : Location Url → GotoDefinitionResponse Url
  locations : List (Location Url) → GotoDefinitionResponse Url

module _ {Url : Type 0} where
  abbrev pub definition_locations : List (Symbol Url) → Option (GotoDefinitionResponse Url)
  definition_locations [] = none
  definition_locations (def ∷ defs) = some (locations (map definition_location (def ∷ defs)))

  abbrev pub name_location : Symbol Url → Location Url
  name_location def = record { uri = def.uri; range = to_lsp_range def.name_span }

  abbrev pub name_locations : List (Symbol Url) → Option (GotoDefinitionResponse Url)
  name_locations [] = none
  name_locations (def ∷ defs) = some (locations (map name_location (def ∷ defs)))

  abbrev pub target_location : HtmlNgModelTarget Url → Location Url
  target_location t = record { uri = t.uri; range = to_lsp_range (ng_model_target_span t) }

  -- the loops of steps 1 and 2 of `build_for_scope`
  unfoldable pub first_definitions :
      Index Url → (Str → Str) → List Str → Option (GotoDefinitionResponse Url)
  first_definitions s name_of [] = none
  first_definitions s name_of (controller ∷ controllers) =
      or_else (definition_locations (get_definitions s.definitions (name_of controller)))
        (first_definitions s name_of controllers)

  unfoldable pub build_for_ui_sref :
      Index Url → HtmlUiSrefReference Url → Option (GotoDefinitionResponse Url)
  build_for_ui_sref s ui_sref =
      name_locations (retain is_state (get_definitions s.definitions ui_sref.state_name))

  unfoldable pub build_for_directive :
      Index Url → HtmlDirectiveReference Url → Option (GotoDefinitionResponse Url)
  build_for_directive s directive_ref =
      definition_locations
        (retain is_directive_kind (get_definitions s.definitions directive_ref.directive_name))

module _ {Url : Type 0} ⦃e : Eq Url⦄ (path : Url → Str) (s : Index Url) where
  -- the loop of step 4
  unfoldable pub first_target : Url → Str → List Str → Option (GotoDefinitionResponse Url)
  first_target uri property_path [] = none
  first_target uri property_path (controller ∷ controllers) =
      elim (find_ng_model_implicit_def_target path s uri controller property_path) [
        | some target ↦ some (scalar (target_location target))
        | none ↦ first_target uri property_path controllers
      ]

  unfoldable pub build_for_scope : Url → List Str → Str → Bool → Option (GotoDefinitionResponse Url)
  unfolding first_definitions first_target
  build_for_scope uri controllers property_path is_alias =
      or_else (first_definitions s (scope_name property_path) controllers) (
        or_else
          (if is_alias then first_definitions s (method_name property_path) controllers else none)
          (or_else
            (definition_locations
              (find_root_scope_definitions_by_property s.definitions property_path))
            (first_target uri property_path controllers)))

  abbrev pub definition_of : Url → HtmlResolution Url → Option (GotoDefinitionResponse Url)
  definition_of uri (HtmlPosition.ui_sref r) = build_for_ui_sref s r
  definition_of uri (HtmlPosition.directive r) = build_for_directive s r
  definition_of uri (HtmlPosition.local_var_def v) = some (scalar (variable_location v))
  definition_of uri (HtmlPosition.local_var_ref v) = some (scalar (variable_location v))
  definition_of uri (HtmlPosition.form_binding_def b) = some (scalar (form_location b))
  definition_of uri (HtmlPosition.inherited_form_binding b) = some (scalar (form_location b))
  definition_of uri (HtmlPosition.inherited_local_var v) = some (scalar (variable_location v))
  definition_of uri (HtmlPosition.scope controllers property_path is_alias) =
      build_for_scope uri controllers property_path is_alias

  module _ (to_lowercase : Str → Str) (is_alphanumeric : ℕ → Bool) (lines : Str → List Str) where
    unfoldable pub goto_definition_from_html :
        Url → Position → Option Str → Outcome (Option (GotoDefinitionResponse Url))
    unfolding build_for_ui_sref build_for_directive build_for_scope
    goto_definition_from_html uri position source =
        elim (resolve_html_position path s is_alphanumeric lines uri position source) [
          | panics ↦ panics
          | returns resolution ↦ returns (and_then resolution (definition_of uri))
        ]

    unfoldable pub goto_definition_with_source :
        Url → Position → Option Str → Outcome (Option (GotoDefinitionResponse Url))
    unfolding goto_definition_from_html
    goto_definition_with_source uri position source =
        if is_html_file path to_lowercase uri
        then goto_definition_from_html uri position source
        else returns (
            and_then (find_symbol_at_position s.definitions uri position.line position.character)
              (λ symbol_name. definition_locations (get_definitions s.definitions symbol_name)))

    unfoldable pub goto_definition : Url → Position → Outcome (Option (GotoDefinitionResponse Url))
    unfolding goto_definition_with_source
    goto_definition uri position = goto_definition_with_source uri position none
