-- ===== src/Handlers/SemanticTokens.antt =====
-- src/handler/semantic_tokens.rs: the semantic tokens of a template, and their encoding by
-- differences. `path` and `to_lowercase` are `Url::path` and the case table of Rust.
pub mod Encoding
use angularjs_lsp.Prelude.{
  ℕ, ◌+◌, ◌-◌, ◌<◌, Bool, true, false, not, ◌&&◌, ◌||◌, Option, none, some, List, [], ◌∷◌, ◌++◌,
  map, Eq, ltb, leb, nat_beq, if◌then◌else◌, retain, sort_by, is_some,
}
use angularjs_lsp.Text.{Str, codes, split_once}
use angularjs_lsp.Util.{is_html_file}
use angularjs_lsp.Model.Span.{add32, sub32}
use angularjs_lsp.Model.Symbol.{
  Symbol, SymbolKind, scope_method, scope_property, root_scope_method, root_scope_property, method,
}
use angularjs_lsp.Model.Html.{
  HtmlScopeReference, HtmlLocalVariable, HtmlLocalVariableReference, HtmlFormBinding,
  HtmlDirectiveReference,
}
use angularjs_lsp.Definitions.{get_definitions}
use angularjs_lsp.Html.References.{get_html_scope_references, get_all_directive_references_for_uri}
use angularjs_lsp.Html.Variables.{
  get_all_local_variables, get_all_local_variable_references_for_uri, get_all_form_bindings,
}
use angularjs_lsp.Index.{Index, resolve_controllers_for_html, resolve_controller_by_alias}

abbrev pub token_type_property : ℕ
token_type_property = 0

abbrev pub token_type_method : ℕ
token_type_method = 1

abbrev pub token_type_variable : ℕ
token_type_variable = 2

abbrev pub token_type_macro : ℕ
token_type_macro = 3

abbrev pub token_mod_readonly : ℕ
token_mod_readonly = 1

abbrev pub token_mod_static : ℕ
token_mod_static = 2

abbrev pub token_mod_declaration : ℕ
token_mod_declaration = 4

pub record RawSemanticToken : Type 0 where
  pub line : ℕ
  pub start_col : ℕ
  pub length : ℕ
  pub token_type : ℕ
  pub token_modifiers : ℕ

-- the token of the protocol
pub record SemanticToken : Type 0 where
  pub delta_line : ℕ
  pub delta_start : ℕ
  pub length : ℕ
  pub token_type : ℕ
  pub token_modifiers_bitset : ℕ

-- what the two loops of `determine_scope_token_type` make of the first symbol of a name
abbrev pub scope_symbol_type : SymbolKind → ℕ × ℕ
scope_symbol_type scope_method = (token_type_method, 0)
scope_symbol_type scope_property = (token_type_property, 0)
scope_symbol_type root_scope_method = (token_type_method, token_mod_static)
scope_symbol_type root_scope_property = (token_type_property, token_mod_static)
scope_symbol_type _ = (token_type_property, 0)

abbrev pub method_symbol_type : SymbolKind → ℕ × ℕ
method_symbol_type scope_method = (token_type_method, 0)
method_symbol_type method = (token_type_method, 0)
method_symbol_type _ = (token_type_property, 0)

-- the order of the tokens: by line, by column, the longer first
abbrev pub comes_first : RawSemanticToken → RawSemanticToken → Bool
comes_first a b =
    ltb a.line b.line
    || (nat_beq a.line b.line
        && (ltb a.start_col b.start_col
            || (nat_beq a.start_col b.start_col && leb b.length a.length)))

-- `prev_line`, `prev_col`, `prev_end_col` and `first`
pub record Previous : Type 0 where
  pub line : ℕ
  pub col : ℕ
  pub end_col : ℕ
  pub first : Bool

-- the two tests that skip a token
abbrev pub is_skipped : Previous → RawSemanticToken → Bool
is_skipped prev token =
    (not prev.first
      && (nat_beq token.line prev.line
          && (nat_beq token.start_col prev.col
              && nat_beq (add32 token.start_col token.length) prev.end_col)))
    || (not prev.first && (nat_beq token.line prev.line && ltb token.start_col prev.end_col))

abbrev pub encode_token : Previous → RawSemanticToken → SemanticToken
encode_token prev token = record {
  delta_line = token.line - prev.line;
  delta_start =
      if nat_beq (token.line - prev.line) 0 then token.start_col - prev.col else token.start_col;
  length = token.length;
  token_type = token.token_type;
  token_modifiers_bitset = token.token_modifiers;
}

abbrev pub after_token : RawSemanticToken → Previous
after_token token = record {
  line = token.line;
  col = token.start_col;
  end_col = add32 token.start_col token.length;
  first = false;
}

-- the loop of `encode_tokens`
unfoldable pub encode_from : Previous → List RawSemanticToken → List SemanticToken
encode_from prev [] = []
encode_from prev (token ∷ tokens) =
    let rest = encode_from (if is_skipped prev token then prev else after_token token) tokens in
    if is_skipped prev token then rest else encode_token prev token ∷ rest

unfoldable pub encode_tokens : List RawSemanticToken → List SemanticToken
unfolding encode_from
encode_tokens raw_tokens =
    encode_from (record { line = 0; col = 0; end_col = 0; first = true })
      (sort_by comes_first (retain (λ t. ltb 0 t.length) raw_tokens))

-- the loops over the controllers: the first name with a definition
unfoldable pub first_definition :
    {Url : Type 0} → Index Url → (Str → Str) → List Str → Option (Symbol Url)
first_definition s symbol_name [] = none
first_definition s symbol_name (controller ∷ controllers) =
    elim (get_definitions s.definitions (symbol_name controller)) [
      | [] ↦ first_definition s symbol_name controllers
      | def ∷ _ ↦ some def
    ]

module _ {Url : Type 0} ⦃e : Eq Url⦄ (path : Url → Str) (s : Index Url) where
  -- `resolved_controller` and `property_path`
  abbrev pub resolved_alias : Url → ℕ → Str → Option Str × Str
  resolved_alias uri line property_path = elim (split_once property_path (codes ".")) [
    | none ↦ (none, property_path)
    | some (alias, prop) ↦ elim (resolve_controller_by_alias path s uri line alias) [
      | some controller ↦ (some controller, prop)
      | none ↦ (none, property_path)
    ]
  ]

  abbrev pub candidates : Url → ℕ → Option Str → List Str
  candidates uri line (some controller) = controller ∷ []
  candidates uri line none = resolve_controllers_for_html path s uri line

  unfoldable pub determine_scope_token_type : Url → HtmlScopeReference Url → ℕ × ℕ
  unfolding split_once resolve_controller_by_alias resolve_controllers_for_html first_definition
  determine_scope_token_type uri scope_ref =
      let (resolved_controller, property_path) =
        resolved_alias uri scope_ref.start_line scope_ref.property_path in
      let controllers = candidates uri scope_ref.start_line resolved_controller in
      elim (first_definition s (λ name. name ++ (codes ".$scope." ++ property_path)) controllers) [
        | some def ↦ scope_symbol_type def.kind
        | none ↦
            if is_some resolved_controller
            then elim (first_definition s (λ name. name ++ (b'.' ∷ property_path)) controllers) [
              | some def ↦ method_symbol_type def.kind
              | none ↦ (token_type_property, 0)
            ]
            else (token_type_property, 0)
      ]

  unfoldable pub scope_reference_token : Url → HtmlScopeReference Url → RawSemanticToken
  unfolding determine_scope_token_type
  scope_reference_token uri scope_ref =
      let (token_type, token_modifiers) = determine_scope_token_type uri scope_ref in
      record {
        line = scope_ref.start_line;
        start_col = scope_ref.start_col;
        length = sub32 scope_ref.end_col scope_ref.start_col;
        token_type = token_type;
        token_modifiers = token_modifiers;
      }

  abbrev pub local_variable_token : HtmlLocalVariable Url → RawSemanticToken
  local_variable_token var = record {
    line = var.name_start_line;
    start_col = var.name_start_col;
    length = sub32 var.name_end_col var.name_start_col;
    token_type = token_type_variable;
    token_modifiers = token_mod_declaration;
  }

  abbrev pub local_variable_reference_token : HtmlLocalVariableReference Url → RawSemanticToken
  local_variable_reference_token var_ref = record {
    line = var_ref.start_line;
    start_col = var_ref.start_col;
    length = sub32 var_ref.end_col var_ref.start_col;
    token_type = token_type_variable;
    token_modifiers = 0;
  }

  abbrev pub form_binding_token : HtmlFormBinding Url → RawSemanticToken
  form_binding_token binding = record {
    line = binding.name_start_line;
    start_col = binding.name_start_col;
    length = sub32 binding.name_end_col binding.name_start_col;
    token_type = token_type_variable;
    token_modifiers = token_mod_readonly + token_mod_declaration;
  }

  abbrev pub directive_reference_token : HtmlDirectiveReference Url → RawSemanticToken
  directive_reference_token directive_ref = record {
    line = directive_ref.start_line;
    start_col = directive_ref.start_col;
    length = sub32 directive_ref.end_col directive_ref.start_col;
    token_type = token_type_macro;
    token_modifiers = 0;
  }

  -- the five `collect_*` functions, in the order of their calls
  unfoldable pub collect_html_tokens : Url → List RawSemanticToken
  unfolding scope_reference_token
  collect_html_tokens uri =
      map (scope_reference_token uri) (get_html_scope_references s.html uri)
      ++ (map local_variable_token (get_all_local_variables s.html uri)
          ++ (map local_variable_reference_token
                (get_all_local_variable_references_for_uri s.html uri)
              ++ (map form_binding_token (get_all_form_bindings s.html uri)
                  ++ map directive_reference_token
                      (get_all_directive_references_for_uri s.html uri))))

  unfoldable pub semantic_tokens_full : (Str → Str) → Url → Option (List SemanticToken)
  unfolding collect_html_tokens encode_tokens
  semantic_tokens_full to_lowercase uri =
      if is_html_file path to_lowercase uri
      then some (encode_tokens (collect_html_tokens uri))
      else none
