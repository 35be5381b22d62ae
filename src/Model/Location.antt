-- ===== src/Model/Location.antt =====
-- The ranges and places of the protocol that the handlers answer with; src/model/span.rs converts
-- spans to them.
use angularjs_lsp.Prelude.{ℕ}
use angularjs_lsp.Text.{Str}
use angularjs_lsp.Model.Span.{Span}

pub record Position : Type 0 where
  pub line : ℕ
  pub character : ℕ

pub record Range : Type 0 where
  pub start : Position
  pub end_ : Position

abbrev pub to_lsp_range : Span → Range
to_lsp_range s = record {
  start = record { line = s.start_line; character = s.start_col };
  end_ = record { line = s.end_line; character = s.end_col };
}

pub record Location (Url : Type 0) : Type 0 where
  pub uri : Url
  pub range : Range

pub record TextEdit : Type 0 where
  pub range : Range
  pub new_text : Str
