-- ===== src/Index/SymbolNames.antt =====
-- src/index/query.rs: the parts of a symbol's name, and of the path of an `ng-model`.
use angularjs_lsp.Prelude.{◌||◌, Option, none, some, if◌then◌else◌, is_empty}
use angularjs_lsp.Text.{Str, codes, split_once, has_text, after_last}

-- "ControllerName.$scope.propertyPath"
unfoldable pub parse_scope_symbol_name : Str → Option (Str × Str)
unfolding split_once
parse_scope_symbol_name symbol_name = split_once symbol_name (codes ".$scope.")

unfoldable pub parse_root_scope_symbol_name : Str → Option (Str × Str)
unfolding split_once
parse_root_scope_symbol_name symbol_name = split_once symbol_name (codes ".$rootScope.")

-- "ControllerName.methodName"
unfoldable pub parse_controller_method_name : Str → Option (Str × Str)
unfolding split_once has_text
parse_controller_method_name symbol_name =
    if has_text symbol_name (codes ".$scope.") || has_text symbol_name (codes ".$rootScope.")
    then none
    else elim (split_once symbol_name (codes ".")) [
      | none ↦ none
      | some (controller_name, method_name) ↦
          if is_empty method_name then none else some (controller_name, method_name)
    ]

unfoldable pub ng_model_target_tail : Str → Str
unfolding after_last
ng_model_target_tail property_path = after_last b'.' property_path

unfoldable pub ng_model_target_alias : Str → Option Str
unfolding split_once
ng_model_target_alias property_path = elim (split_once property_path (codes ".")) [
  | none ↦ none
  | some (alias, rest) ↦ some alias
]
