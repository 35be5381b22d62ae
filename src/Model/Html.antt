-- ===== src/Model/Html.antt =====
-- src/model/html.rs and the scopes of src/model/scope.rs: what the analysis of a template finds.
use angularjs_lsp.Prelude.{ℕ, Bool, ◌&&◌, Option, List, leb}
use angularjs_lsp.Text.{Str}
use angularjs_lsp.Model.Span.{Span}

pub record HtmlScopeReference (Url : Type 0) : Type 0 where
  pub property_path : Str
  pub uri : Url
  pub start_line : ℕ
  pub start_col : ℕ
  pub end_line : ℕ
  pub end_col : ℕ

pub data HtmlLocalVariableSource : Type 0 where
  ng_init ng_repeat_iterator ng_repeat_key_value ng_repeat_special : HtmlLocalVariableSource

pub record HtmlLocalVariable (Url : Type 0) : Type 0 where
  pub name : Str
  pub source : HtmlLocalVariableSource
  pub uri : Url
  pub scope_start_line : ℕ
  pub scope_end_line : ℕ
  pub name_start_line : ℕ
  pub name_start_col : ℕ
  pub name_end_line : ℕ
  pub name_end_col : ℕ

pub record HtmlLocalVariableReference (Url : Type 0) : Type 0 where
  pub variable_name : Str
  pub uri : Url
  pub start_line : ℕ
  pub start_col : ℕ
  pub end_line : ℕ
  pub end_col : ℕ

pub record HtmlFormBinding (Url : Type 0) : Type 0 where
  pub name : Str
  pub uri : Url
  pub scope_start_line : ℕ
  pub scope_end_line : ℕ
  pub name_start_line : ℕ
  pub name_start_col : ℕ
  pub name_end_line : ℕ
  pub name_end_col : ℕ

pub record InheritedLocalVariable (Url : Type 0) : Type 0 where
  pub name : Str
  pub source : HtmlLocalVariableSource
  pub uri : Url
  pub scope_start_line : ℕ
  pub scope_end_line : ℕ
  pub name_start_line : ℕ
  pub name_start_col : ℕ
  pub name_end_line : ℕ
  pub name_end_col : ℕ

pub record InheritedFormBinding (Url : Type 0) : Type 0 where
  pub name : Str
  pub uri : Url
  pub scope_start_line : ℕ
  pub scope_end_line : ℕ
  pub name_start_line : ℕ
  pub name_start_col : ℕ
  pub name_end_line : ℕ
  pub name_end_col : ℕ

pub data DirectiveUsageType : Type 0 where
  element attribute : DirectiveUsageType

pub record HtmlNgModelTarget (Url : Type 0) : Type 0 where
  pub property_path : Str
  pub uri : Url
  pub start_line : ℕ
  pub start_col : ℕ
  pub end_line : ℕ
  pub end_col : ℕ

pub record HtmlDirectiveReference (Url : Type 0) : Type 0 where
  pub directive_name : Str
  pub uri : Url
  pub start_line : ℕ
  pub start_col : ℕ
  pub end_line : ℕ
  pub end_col : ℕ
  pub usage_type : DirectiveUsageType

pub record HtmlUiSrefReference (Url : Type 0) : Type 0 where
  pub state_name : Str
  pub uri : Url
  pub start_line : ℕ
  pub start_col : ℕ
  pub end_line : ℕ
  pub end_col : ℕ

pub record ControllerScope (Url : Type 0) : Type 0 where
  pub name : Str
  pub uri : Url
  pub start_line : ℕ
  pub end_line : ℕ
  pub injected_services : List Str

pub record HtmlControllerScope (Url : Type 0) : Type 0 where
  pub controller_name : Str
  pub alias : Option Str
  pub uri : Url
  pub start_line : ℕ
  pub end_line : ℕ

-- The `span`, `name_span` and `is_in_scope` methods.
module _ {Url : Type 0} where
  abbrev pub scope_reference_span : HtmlScopeReference Url → Span
  scope_reference_span r = record {
    start_line = r.start_line;
    start_col = r.start_col;
    end_line = r.end_line;
    end_col = r.end_col;
  }

  abbrev pub variable_reference_span : HtmlLocalVariableReference Url → Span
  variable_reference_span r = record {
    start_line = r.start_line;
    start_col = r.start_col;
    end_line = r.end_line;
    end_col = r.end_col;
  }

  abbrev pub ng_model_target_span : HtmlNgModelTarget Url → Span
  ng_model_target_span t = record {
    start_line = t.start_line;
    start_col = t.start_col;
    end_line = t.end_line;
    end_col = t.end_col;
  }

  abbrev pub directive_reference_span : HtmlDirectiveReference Url → Span
  directive_reference_span r = record {
    start_line = r.start_line;
    start_col = r.start_col;
    end_line = r.end_line;
    end_col = r.end_col;
  }

  abbrev pub ui_sref_reference_span : HtmlUiSrefReference Url → Span
  ui_sref_reference_span r = record {
    start_line = r.start_line;
    start_col = r.start_col;
    end_line = r.end_line;
    end_col = r.end_col;
  }

  abbrev pub variable_name_span : HtmlLocalVariable Url → Span
  variable_name_span v = record {
    start_line = v.name_start_line;
    start_col = v.name_start_col;
    end_line = v.name_end_line;
    end_col = v.name_end_col;
  }

  abbrev pub form_name_span : HtmlFormBinding Url → Span
  form_name_span b = record {
    start_line = b.name_start_line;
    start_col = b.name_start_col;
    end_line = b.name_end_line;
    end_col = b.name_end_col;
  }

  abbrev pub variable_is_in_scope : HtmlLocalVariable Url → ℕ → Bool
  variable_is_in_scope v line = leb v.scope_start_line line && leb line v.scope_end_line

  abbrev pub form_is_in_scope : HtmlFormBinding Url → ℕ → Bool
  form_is_in_scope b line = leb b.scope_start_line line && leb line b.scope_end_line
