-- ===== src/Model/Template.antt =====
-- src/model/template.rs, src/model/inheritance.rs and src/model/export.rs: how templates are
-- bound to controllers and to one another, and what modules export.
use angularjs_lsp.Prelude.{ℕ, Bool, true, false, ◌↔◌, ◌≡◌, Option, List, Eq, arith}
use angularjs_lsp.Text.{Str, codes}
use angularjs_lsp.Model.Html.{InheritedLocalVariable, InheritedFormBinding}

pub data BindingSource : Type 0 where
  ng_controller route_provider state_provider uib_modal md_dialog : BindingSource
  md_bottom_sheet md_toast md_panel ng_dialog : BindingSource

unfoldable pub BindingSource-discrete : Discrete BindingSource
BindingSource-discrete = hlevel

-- the derived `PartialEq`
unfoldable pub source_beq : BindingSource → BindingSource → Bool
source_beq a b = elim (BindingSource-discrete a b) [ yes _ ↦ true | no _ ↦ false ]

pub source_beq_iff : (a b : BindingSource) → (source_beq a b ≡ true) ↔ (a ≡ b)
unfolding source_beq
source_beq_iff a b = ground arith

instance abbrev pub source_eq : Eq BindingSource
source_eq = record { beq = source_beq; beq_iff = source_beq_iff }

abbrev pub label : BindingSource → Str
label ng_controller = codes "ng-controller"
label route_provider = codes "$routeProvider"
label state_provider = codes "$stateProvider"
label uib_modal = codes "$uibModal"
label md_dialog = codes "$mdDialog"
label md_bottom_sheet = codes "$mdBottomSheet"
label md_toast = codes "$mdToast"
label md_panel = codes "$mdPanel"
label ng_dialog = codes "ngDialog"

pub record TemplateBinding (Url : Type 0) : Type 0 where
  pub template_path : Str
  pub controller_name : Str
  pub source : BindingSource
  pub binding_uri : Url
  pub binding_line : ℕ

pub record ComponentTemplateUrl (Url : Type 0) : Type 0 where
  pub uri : Url
  pub template_path : Str
  pub line : ℕ
  pub col : ℕ
  pub controller_name : Option Str
  pub controller_as : Str

pub record NgIncludeBinding (Url : Type 0) : Type 0 where
  pub parent_uri : Url
  pub template_path : Str
  pub resolved_filename : Str
  pub line : ℕ
  pub inherited_controllers : List Str
  pub inherited_local_variables : List (InheritedLocalVariable Url)
  pub inherited_form_bindings : List (InheritedFormBinding Url)

pub record NgViewBinding (Url : Type 0) : Type 0 where
  pub parent_uri : Url
  pub line : ℕ
  pub inherited_controllers : List Str
  pub inherited_local_variables : List (InheritedLocalVariable Url)
  pub inherited_form_bindings : List (InheritedFormBinding Url)

pub record ExportInfo (Url : Type 0) : Type 0 where
  pub uri : Url
  pub component_name : Str
  pub dependencies : List Str
  pub start_line : ℕ
  pub start_col : ℕ
  pub end_line : ℕ
  pub end_col : ℕ
  pub has_scope : Bool
  pub has_root_scope : Bool

pub record ExportedComponentObject (Url : Type 0) : Type 0 where
  pub uri : Url
  pub name : Str
  pub start_line : ℕ
  pub start_col : ℕ
  pub end_line : ℕ
  pub end_col : ℕ
