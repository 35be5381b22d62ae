-- ===== src/Index.antt =====
-- src/index/mod.rs: the index, which bundles the stores, and src/index/query.rs: the controllers of
-- a line of a template. `path` and `as_str` are `Url::path` and `Url::as_str`.
pub mod Clearing
pub mod Resolution
pub mod SymbolNames
pub mod References
pub mod Declarations
pub mod HtmlPosition
pub mod Models
pub mod Usages
use mathlib.Core.Option
use angularjs_lsp.Prelude.{
  ℕ, Bool, true, false, Option, none, some, List, [], ◌∷◌, ◌++◌, Eq, ◌==◌, nat_eq, list_eq,
  if◌then◌else◌, is_empty, contains,
}
use angularjs_lsp.Text.{Str}
use angularjs_lsp.Definitions
use angularjs_lsp.Controllers
use angularjs_lsp.Templates.State
use angularjs_lsp.Templates.Bindings
use angularjs_lsp.Templates.Includes
use angularjs_lsp.Templates.Removal
use angularjs_lsp.Html
use angularjs_lsp.Exports
use angularjs_lsp.Components
use angularjs_lsp.Interpolate
use angularjs_lsp.Diagnostics

pub record Index (Url : Type 0) : Type 0 where
  pub definitions : Definitions.DefinitionStore Url
  pub controllers : Controllers.ControllerStore Url
  pub templates : State.TemplateStore Url
  pub html : Html.HtmlStore Url
  pub exports : Exports.ExportStore Url
  pub components : Components.ComponentStore Url
  pub interpolate : Interpolate.InterpolateStore Url
  pub diagnostics : Diagnostics.DiagnosticsStore Url

-- `controllers.retain(|c| seen.insert(c.clone()))`
unfoldable pub dedupe : List Str → List Str → List Str
dedupe seen [] = []
dedupe seen (c ∷ cs) =
    let rest = dedupe (if contains seen c then seen else c ∷ seen) cs in
    if contains seen c then rest else c ∷ rest

-- the binding of the template: its controller is pushed unless it is there
abbrev pub with_bound : List Str → Option Str → List Str
with_bound controllers none = controllers
with_bound controllers (some controller) =
    if contains controllers controller then controllers else controllers ++ controller ∷ []

-- the component: its controller is pushed if there is no other
abbrev pub with_component : List Str → Option Str → List Str
with_component controllers none = controllers
with_component controllers (some name) =
    if is_empty controllers then controllers ++ name ∷ [] else controllers

module _ {Url : Type 0} where
  unfoldable pub new : Index Url
  unfolding Definitions.new Controllers.new State.new Html.new Exports.new Components.new
      Interpolate.new Diagnostics.new
  new = record {
    definitions = Definitions.new;
    controllers = Controllers.new;
    templates = State.new;
    html = Html.new;
    exports = Exports.new;
    components = Components.new;
    interpolate = Interpolate.new;
    diagnostics = Diagnostics.new;
  }

  unfoldable pub clear_all : Index Url → Index Url
  clear_all s = record {
    definitions = Definitions.clear_all s.definitions;
    controllers = Controllers.clear_all s.controllers;
    templates = State.clear_all s.templates;
    html = Html.clear_all s.html;
    exports = Exports.clear_all s.exports;
    components = Components.clear_all s.components;
    interpolate = Interpolate.clear_all s.interpolate;
    diagnostics = Diagnostics.clear_all s.diagnostics;
  }

module _ {Url : Type 0} ⦃e : Eq Url⦄ where
  unfoldable pub clear_document : (Url → Str) → (Url → Str) → Url → Index Url → Index Url
  clear_document path as_str uri s = record {
    definitions = Definitions.clear_document uri s.definitions;
    controllers = Controllers.clear_document uri s.controllers;
    templates = Removal.clear_document as_str uri s.templates;
    html = Html.clear_document uri s.html;
    exports = Exports.clear_document path uri s.exports;
    components = Components.clear_document uri s.components;
    interpolate = Interpolate.clear_document uri s.interpolate;
    diagnostics = Diagnostics.clear_document uri s.diagnostics;
  }

  unfoldable pub clear_html_references : Url → Index Url → Index Url
  clear_html_references uri s = record s { html = Html.clear_html_references uri s.html }

module _ {Url : Type 0} ⦃e : Eq Url⦄ (path : Url → Str) where
  unfoldable pub resolve_controller_for_html : Index Url → Url → ℕ → Option Str
  resolve_controller_for_html s uri line =
      elim (Controllers.get_html_controller_at s.controllers uri line) [
        | some controller ↦ some controller
        | none ↦ Bindings.get_controller_for_template path s.templates uri
      ]

  -- inherited by `ng-include`, then those of the document at the line
  abbrev pub local_controllers : Index Url → Url → ℕ → List Str
  local_controllers s uri line =
      Includes.get_inherited_controllers_for_template path s.templates uri
      ++ Controllers.get_html_controllers_at s.controllers uri line

  abbrev pub bound_controllers : Index Url → Url → ℕ → List Str
  bound_controllers s uri line =
      with_bound (local_controllers s uri line)
        (Bindings.get_controller_for_template path s.templates uri)

  -- the controller of the component whose template it is
  unfoldable pub component_controller : Index Url → Url → Option Str
  component_controller s uri =
      elim (Components.get_component_binding_for_template path s.components uri) [
        | none ↦ none
        | some binding ↦ binding.controller_name
      ]

  abbrev pub all_controllers : Index Url → Url → ℕ → List Str
  all_controllers s uri line =
      with_component (bound_controllers s uri line) (component_controller s uri)

  unfoldable pub resolve_controllers_for_html : Index Url → Url → ℕ → List Str
  unfolding dedupe
  resolve_controllers_for_html s uri line = dedupe [] (all_controllers s uri line)

  unfoldable pub resolve_controller_by_alias : Index Url → Url → ℕ → Str → Option Str
  resolve_controller_by_alias s uri line alias =
      elim (Controllers.resolve_controller_by_alias s.controllers uri line alias) [
        | some name ↦ some name
        | none ↦ Components.resolve_component_controller_by_alias path s.components uri alias
      ]
