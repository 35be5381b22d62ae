-- ===== src/Model/Symbol.antt =====
-- src/model/symbol.rs
use angularjs_lsp.Prelude.{◌≡◌, ◌↔◌, Bool, true, false, Option, List, arith, Eq}
use angularjs_lsp.Text.{Str, codes}
use angularjs_lsp.Model.Span.{Span}

pub data SymbolKind : Type 0 where
  angular_module controller service factory directive component provider filter constant value
        method :
      SymbolKind
  scope_property scope_method root_scope_property root_scope_method form_binding : SymbolKind
  exported_component component_binding ui_router_state : SymbolKind

unfoldable pub SymbolKind-discrete : Discrete SymbolKind
SymbolKind-discrete = hlevel

-- the derived `PartialEq`
unfoldable pub kind_beq : SymbolKind → SymbolKind → Bool
kind_beq a b = elim (SymbolKind-discrete a b) [ yes _ ↦ true | no _ ↦ false ]

pub kind_beq_iff : (a b : SymbolKind) → (kind_beq a b ≡ true) ↔ (a ≡ b)
unfolding kind_beq
kind_beq_iff a b = ground arith

instance abbrev pub kind_eq : Eq SymbolKind
kind_eq = record { beq = kind_beq; beq_iff = kind_beq_iff }

-- `as_str`: what a hover shows.
unfoldable pub as_str : SymbolKind → Str
as_str angular_module = codes "module"
as_str controller = codes "controller"
as_str service = codes "service"
as_str factory = codes "factory"
as_str directive = codes "directive"
as_str component = codes "component"
as_str provider = codes "provider"
as_str filter = codes "filter"
as_str constant = codes "constant"
as_str value = codes "value"
as_str method = codes "method"
as_str scope_property = codes "scope property"
as_str scope_method = codes "scope method"
as_str root_scope_property = codes "root scope property"
as_str root_scope_method = codes "root scope method"
as_str form_binding = codes "form binding"
as_str exported_component = codes "exported component"
as_str component_binding = codes "component binding"
as_str ui_router_state = codes "ui-router state"

-- the symbol kinds of the protocol that are used
pub data LspSymbolKind : Type 0 where
  kind_module kind_class kind_function kind_constant kind_variable kind_method kind_property
        kind_event :
      LspSymbolKind

unfoldable pub to_lsp_symbol_kind : SymbolKind → LspSymbolKind
to_lsp_symbol_kind angular_module = kind_module
to_lsp_symbol_kind controller = kind_class
to_lsp_symbol_kind service = kind_class
to_lsp_symbol_kind factory = kind_class
to_lsp_symbol_kind directive = kind_class
to_lsp_symbol_kind component = kind_class
to_lsp_symbol_kind provider = kind_class
to_lsp_symbol_kind filter = kind_function
to_lsp_symbol_kind constant = kind_constant
to_lsp_symbol_kind value = kind_variable
to_lsp_symbol_kind method = kind_method
to_lsp_symbol_kind scope_property = kind_property
to_lsp_symbol_kind scope_method = kind_method
to_lsp_symbol_kind root_scope_property = kind_property
to_lsp_symbol_kind root_scope_method = kind_method
to_lsp_symbol_kind form_binding = kind_variable
to_lsp_symbol_kind exported_component = kind_class
to_lsp_symbol_kind component_binding = kind_property
to_lsp_symbol_kind ui_router_state = kind_event

pub record Symbol (Url : Type 0) : Type 0 where
  pub name : Str
  pub kind : SymbolKind
  pub uri : Url
  pub definition_span : Span
  pub name_span : Span
  pub docs : Option Str
  pub parameters : Option (List Str)

pub record SymbolReference (Url : Type 0) : Type 0 where
  pub name : Str
  pub uri : Url
  pub span : Span
