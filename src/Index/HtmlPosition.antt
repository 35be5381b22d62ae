-- ===== src/Index/HtmlPosition.antt =====
-- src/index/html_resolve.rs: what stands at a position of a template. `path` is `Url::path`;
-- `is_alphanumeric` and `lines` are the character table and the line iterator of Rust.
pub mod Identifier
use mathlib.Core.Option
use angularjs_lsp.Prelude.{
  ℕ, zero, suc, ◌-◌, Bool, true, false, not, ◌||◌, Option, none, some, List, [], ◌∷◌, Eq, ◌==◌,
  nat_eq, ltb, leb, if◌then◌else◌, length, get_elem?, take, drop, or_else, Outcome, panics, returns,
}
use angularjs_lsp.Text.{Str, codes, split_once, before_first}
use angularjs_lsp.Text.Widths.{byte_len}
use angularjs_lsp.Model.Html.{
  HtmlUiSrefReference, HtmlDirectiveReference, HtmlLocalVariable, HtmlFormBinding,
  HtmlScopeReference,
}
use angularjs_lsp.Model.Location.{Position}
use angularjs_lsp.Html.References.{
  find_ui_sref_reference_at, find_html_directive_reference_at, find_html_scope_reference_at,
}
use angularjs_lsp.Html.Variables.{
  find_html_local_variable_definition_at, find_html_local_variable_at, find_html_form_binding_at,
}
use angularjs_lsp.Index.{Index, resolve_controllers_for_html, resolve_controller_by_alias}
use angularjs_lsp.Index.Declarations.{find_local_variable_definition, find_form_binding_definition}

pub data HtmlResolution (Url : Type 0) : Type 0 where
  ui_sref : HtmlUiSrefReference Url → HtmlResolution Url
  directive : HtmlDirectiveReference Url → HtmlResolution Url
  local_var_def : HtmlLocalVariable Url → HtmlResolution Url
  local_var_ref : HtmlLocalVariable Url → HtmlResolution Url
  form_binding_def : HtmlFormBinding Url → HtmlResolution Url
  inherited_form_binding : HtmlFormBinding Url → HtmlResolution Url
  inherited_local_var : HtmlLocalVariable Url → HtmlResolution Url
  scope : List Str → Str → Bool → HtmlResolution Url

module _ (is_alphanumeric : ℕ → Bool) where
  abbrev pub is_identifier_char : ℕ → Bool
  is_identifier_char c = is_alphanumeric c || (c == b'_' || c == b'$')

  -- the first loop: from `start` back, `chars[start - 1]` out of range panics
  unfoldable pub scan_back : Str → ℕ → Outcome ℕ
  scan_back chars zero = returns 0
  scan_back chars (suc start) = elim (get_elem? chars start) [
    | none ↦ panics
    | some c ↦ elim (is_identifier_char c) [
      | true ↦ scan_back chars start
      | false ↦ returns (suc start)
    ]
  ]

  -- the second loop, over the characters from `end` on
  unfoldable pub scan_forward : Str → ℕ → ℕ
  scan_forward [] end_ = end_
  scan_forward (c ∷ chars) end_ =
      let rest = scan_forward chars (suc end_) in if is_identifier_char c then rest else end_

  -- `chars[start..end]`, or none where it is empty
  abbrev pub cut : Str → ℕ → ℕ → Option Str
  cut chars start end_ = elim (take (end_ - start) (drop start chars)) [
    | [] ↦ none
    | c ∷ identifier ↦ some (c ∷ identifier)
  ]

  unfoldable pub identifier_in_line : Str → ℕ → Outcome (Option Str)
  unfolding byte_len scan_back scan_forward
  identifier_in_line line col =
      if leb (byte_len line) col then returns none else elim (scan_back line col) [
        | panics ↦ panics
        | returns start ↦ returns (cut line start (scan_forward (drop col line) col))
      ]

  unfoldable pub extract_identifier_at_position :
      (Str → List Str) → Str → Position → Outcome (Option Str)
  unfolding identifier_in_line
  extract_identifier_at_position lines source position =
      elim (get_elem? (lines source) position.line) [
        | none ↦ returns none
        | some line ↦ identifier_in_line line position.character
      ]

module _ {Url : Type 0} ⦃e : Eq Url⦄ (path : Url → Str) (s : Index Url) where
  -- `(controllers, property_path, is_alias)`
  unfoldable pub resolve_scope_target : Url → ℕ → Str → List Str × Str × Bool
  unfolding split_once resolve_controller_by_alias resolve_controllers_for_html
  resolve_scope_target uri line property_path = elim (split_once property_path (codes ".")) [
    | none ↦ (resolve_controllers_for_html path s uri line, property_path, false)
    | some (alias, prop) ↦ elim (resolve_controller_by_alias path s uri line alias) [
      | some controller ↦ (controller ∷ [], prop, true)
      | none ↦ (resolve_controllers_for_html path s uri line, property_path, false)
    ]
  ]

  -- the definition of the variable that is referred to at the position
  abbrev pub referred_variable : Url → Position → Option (HtmlLocalVariable Url)
  referred_variable uri position =
      elim (find_html_local_variable_at s.html uri position.line position.character) [
        | none ↦ none
        | some var_ref ↦
            find_local_variable_definition path s uri var_ref.variable_name position.line
      ]

  -- 4a to 4c: a reference in an expression
  abbrev pub resolve_scope_reference : Url → Position → HtmlScopeReference Url → HtmlResolution Url
  resolve_scope_reference uri position html_ref =
      let base_name = before_first b'.' html_ref.property_path in
      elim (find_form_binding_definition path s uri base_name position.line) [
        | some form_binding ↦ inherited_form_binding form_binding
        | none ↦ elim (find_local_variable_definition path s uri base_name position.line) [
          | some var_def ↦ inherited_local_var var_def
          | none ↦
              let (controllers, property_path, is_alias) =
                resolve_scope_target uri position.line html_ref.property_path in
              scope controllers property_path is_alias
        ]
      ]

  -- steps 0 to 4, which do not read the source
  unfoldable pub resolve_stored : Url → Position → Option (HtmlResolution Url)
  unfolding resolve_scope_target
  resolve_stored uri position =
      let line = position.line in
      let col = position.character in
      or_else (Option.map ui_sref (find_ui_sref_reference_at s.html uri line col)) (
        or_else (Option.map directive (find_html_directive_reference_at s.html uri line col)) (
          or_else
            (Option.map local_var_def (find_html_local_variable_definition_at s.html uri line col))
            (or_else (Option.map local_var_ref (referred_variable uri position)) (
              or_else (Option.map form_binding_def (find_html_form_binding_at s.html uri line col))
                (Option.map (resolve_scope_reference uri position)
                  (find_html_scope_reference_at s.html uri line col))))))

  -- step 5: an identifier of the source
  abbrev pub resolve_identifier : Url → Position → Str → Option (HtmlResolution Url)
  resolve_identifier uri position identifier =
      or_else
        (Option.map inherited_form_binding
          (find_form_binding_definition path s uri (before_first b'.' identifier) position.line))
        (Option.map inherited_local_var
          (find_local_variable_definition path s uri identifier position.line))

  unfoldable pub resolve_html_position :
      (ℕ → Bool)
      → (Str → List Str)
      → Url
      → Position
      → Option Str
      → Outcome (Option (HtmlResolution Url))
  unfolding resolve_stored
  resolve_html_position is_alphanumeric lines uri position source =
      elim (resolve_stored uri position) [
        | some resolution ↦ returns (some resolution)
        | none ↦ elim source [
          | none ↦ returns none
          | some src ↦ elim (extract_identifier_at_position is_alphanumeric lines src position) [
            | panics ↦ panics
            | returns none ↦ returns none
            | returns (some identifier) ↦ returns (resolve_identifier uri position identifier)
          ]
        ]
      ]
