-- ===== src/Analyzer/Directives.antt =====
-- src/analyzer/html/directives.rs: the attributes whose values are expressions. `to_uppercase` is the
-- case table of Rust.
pub mod Prefixes
use angularjs_lsp.Prelude.{
  ℕ, Bool, true, false, ◌&&◌, ◌||◌, Option, none, some, List, [], ◌∷◌, ◌++◌, nat_eq, list_eq,
  if◌then◌else◌, contains, drop, length,
}
use angularjs_lsp.Text.{Str, codes, starts_with}
use angularjs_lsp.Util.{kebab_to_camel}
use angularjs_lsp.Model.Symbol.{directive, component, component_binding}
use angularjs_lsp.Definitions.{has_definition_of_kind}
use angularjs_lsp.Index.{Index}

abbrev pub ng_directive_set : List Str
ng_directive_set =
    codes "ng-model"
    ∷ codes "data-ng-model"
    ∷ codes "ng-bind"
    ∷ codes "data-ng-bind"
    ∷ codes "ng-bind-html"
    ∷ codes "data-ng-bind-html"
    ∷ codes "ng-value"
    ∷ codes "data-ng-value"
    ∷ codes "ng-init"
    ∷ codes "data-ng-init"
    ∷ codes "ng-if"
    ∷ codes "data-ng-if"
    ∷ codes "ng-show"
    ∷ codes "data-ng-show"
    ∷ codes "ng-hide"
    ∷ codes "data-ng-hide"
    ∷ codes "ng-repeat"
    ∷ codes "data-ng-repeat"
    ∷ codes "ng-switch"
    ∷ codes "data-ng-switch"
    ∷ codes "ng-switch-when"
    ∷ codes "data-ng-switch-when"
    ∷ codes "ng-class"
    ∷ codes "data-ng-class"
    ∷ codes "ng-style"
    ∷ codes "data-ng-style"
    ∷ codes "ng-disabled"
    ∷ codes "data-ng-disabled"
    ∷ codes "ng-checked"
    ∷ codes "data-ng-checked"
    ∷ codes "ng-selected"
    ∷ codes "data-ng-selected"
    ∷ codes "ng-readonly"
    ∷ codes "data-ng-readonly"
    ∷ codes "ng-required"
    ∷ codes "data-ng-required"
    ∷ codes "ng-pattern"
    ∷ codes "data-ng-pattern"
    ∷ codes "ng-minlength"
    ∷ codes "data-ng-minlength"
    ∷ codes "ng-maxlength"
    ∷ codes "data-ng-maxlength"
    ∷ codes "ng-click"
    ∷ codes "data-ng-click"
    ∷ codes "ng-dblclick"
    ∷ codes "data-ng-dblclick"
    ∷ codes "ng-change"
    ∷ codes "data-ng-change"
    ∷ codes "ng-submit"
    ∷ codes "data-ng-submit"
    ∷ codes "ng-blur"
    ∷ codes "data-ng-blur"
    ∷ codes "ng-focus"
    ∷ codes "data-ng-focus"
    ∷ codes "ng-keydown"
    ∷ codes "data-ng-keydown"
    ∷ codes "ng-keyup"
    ∷ codes "data-ng-keyup"
    ∷ codes "ng-keypress"
    ∷ codes "data-ng-keypress"
    ∷ codes "ng-mousedown"
    ∷ codes "data-ng-mousedown"
    ∷ codes "ng-mouseup"
    ∷ codes "data-ng-mouseup"
    ∷ codes "ng-mouseenter"
    ∷ codes "data-ng-mouseenter"
    ∷ codes "ng-mouseleave"
    ∷ codes "data-ng-mouseleave"
    ∷ codes "ng-mousemove"
    ∷ codes "data-ng-mousemove"
    ∷ codes "ng-mouseover"
    ∷ codes "data-ng-mouseover"
    ∷ codes "ng-copy"
    ∷ codes "data-ng-copy"
    ∷ codes "ng-cut"
    ∷ codes "data-ng-cut"
    ∷ codes "ng-paste"
    ∷ codes "data-ng-paste"
    ∷ codes "ng-options"
    ∷ codes "data-ng-options"
    ∷ codes "ng-href"
    ∷ codes "data-ng-href"
    ∷ codes "ng-src"
    ∷ codes "data-ng-src"
    ∷ codes "ng-srcset"
    ∷ codes "data-ng-srcset"
    ∷ codes "ng-messages"
    ∷ codes "data-ng-messages"
    ∷ codes "ng-message"
    ∷ codes "data-ng-message"
    ∷ codes "ng-messages-include"
    ∷ codes "data-ng-messages-include"
    ∷ codes "ngf-select"
    ∷ codes "ngf-drop"
    ∷ codes "ngf-drop-available"
    ∷ codes "ngf-multiple"
    ∷ codes "ngf-keep"
    ∷ codes "ngf-keep-distinct"
    ∷ codes "ngf-accept"
    ∷ codes "ngf-capture"
    ∷ codes "ngf-pattern"
    ∷ codes "ngf-validate"
    ∷ codes "ngf-drag-over-class"
    ∷ codes "ngf-model-options"
    ∷ codes "ngf-resize"
    ∷ codes "ngf-thumbnail"
    ∷ codes "ngf-max-size"
    ∷ codes "ngf-min-size"
    ∷ codes "ngf-max-height"
    ∷ codes "ngf-min-height"
    ∷ codes "ngf-max-width"
    ∷ codes "ngf-min-width"
    ∷ codes "ngf-max-duration"
    ∷ codes "ngf-min-duration"
    ∷ codes "ngf-max-files"
    ∷ codes "ngf-min-files"
    ∷ codes "ngf-change"
    ∷ codes "ngf-fix-orientation"
    ∷ codes "uib-tooltip"
    ∷ codes "uib-tooltip-html"
    ∷ codes "uib-tooltip-template"
    ∷ codes "uib-popover"
    ∷ codes "uib-popover-html"
    ∷ codes "uib-popover-template"
    ∷ codes "uib-modal"
    ∷ codes "uib-typeahead"
    ∷ codes "uib-datepicker"
    ∷ codes "uib-datepicker-popup"
    ∷ codes "uib-timepicker"
    ∷ codes "uib-accordion"
    ∷ codes "uib-accordion-group"
    ∷ codes "uib-collapse"
    ∷ codes "uib-dropdown"
    ∷ codes "uib-dropdown-toggle"
    ∷ codes "uib-pagination"
    ∷ codes "uib-pager"
    ∷ codes "uib-progressbar"
    ∷ codes "uib-rating"
    ∷ codes "uib-tabset"
    ∷ codes "uib-tab"
    ∷ codes "uib-alert"
    ∷ codes "uib-carousel"
    ∷ codes "uib-slide"
    ∷ codes "uib-btn-checkbox"
    ∷ codes "uib-btn-radio"
    ∷ codes "tooltip-placement"
    ∷ codes "tooltip-trigger"
    ∷ codes "tooltip-append-to-body"
    ∷ codes "popover-placement"
    ∷ codes "popover-trigger"
    ∷ codes "popover-append-to-body"
    ∷ []

abbrev pub literal_value_directive_set : List Str
literal_value_directive_set =
    codes "ng-message"
    ∷ codes "data-ng-message"
    ∷ codes "ng-messages-include"
    ∷ codes "data-ng-messages-include"
    ∷ codes "ng-switch-when"
    ∷ codes "data-ng-switch-when"
    ∷ codes "ng-pattern"
    ∷ codes "data-ng-pattern"
    ∷ codes "ng-src"
    ∷ codes "data-ng-src"
    ∷ []

unfoldable pub is_ng_directive : Str → Bool
unfolding contains
is_ng_directive attr_name = contains ng_directive_set attr_name

unfoldable pub is_literal_value_directive : Str → Bool
unfolding contains
is_literal_value_directive attr_name = contains literal_value_directive_set attr_name

-- `strip_prefix("data-").unwrap_or(attr_name)`
abbrev pub strip_data : Str → Str
strip_data attr_name = if starts_with attr_name (codes "data-") then drop 5 attr_name else attr_name

module _ {Url : Type 0} (to_uppercase : ℕ → ℕ) (s : Index Url) where
  -- a binding of the component that the element is
  abbrev pub is_binding_of : Str → Str → Bool
  is_binding_of camel elem =
      let elem_camel = kebab_to_camel to_uppercase elem in
      has_definition_of_kind s.definitions elem_camel component
      && has_definition_of_kind s.definitions (elem_camel ++ (b'.' ∷ camel)) component_binding

  unfoldable pub is_directive_attribute : Str → Option Str → Bool
  unfolding is_ng_directive starts_with kebab_to_camel
  is_directive_attribute attr_name element_name =
      let camel = kebab_to_camel to_uppercase (strip_data attr_name) in
      is_ng_directive attr_name
      || has_definition_of_kind s.definitions camel directive
      || elim element_name [ none ↦ false | some elem ↦ is_binding_of camel elem ]
