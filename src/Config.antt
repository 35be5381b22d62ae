-- ===== src/Config.antt =====
-- src/config/ajs_config.rs: the configuration. Reading it is the file system's and `serde_json`'s:
-- `parse` is what deserialization makes of the text of a file.
pub mod PathMatcher
use angularjs_lsp.Prelude.{Bool, true, false, Option, none, some, List, [], ◌∷◌}
use angularjs_lsp.Text.{Str, codes}

pub record DiagnosticsConfig : Type 0 where
  pub enabled : Bool
  pub severity : Str
  pub unused_scope_variables : Bool
  pub di_arity_severity : Str

pub record AjsConfig : Type 0 where
  pub include : List Str
  pub exclude : List Str
  pub cache : Bool
  pub diagnostics : DiagnosticsConfig

abbrev pub default_severity : Str
default_severity = codes "warning"

abbrev pub default_diagnostics : DiagnosticsConfig
default_diagnostics = record {
  enabled = true;
  severity = default_severity;
  unused_scope_variables = true;
  di_arity_severity = default_severity;
}

abbrev pub default_exclude : List Str
default_exclude =
    codes "**/node_modules"
    ∷ codes "**/node_modules/**"
    ∷ codes "**/dist"
    ∷ codes "**/dist/**"
    ∷ codes "**/build"
    ∷ codes "**/build/**"
    ∷ codes "**/.*"
    ∷ codes "**/.*/**"
    ∷ []

abbrev pub default_config : AjsConfig
default_config = record {
  include = [];
  exclude = default_exclude;
  cache = false;
  diagnostics = default_diagnostics;
}

-- the file's text, or none where there is no file or it cannot be read
unfoldable pub load_from_path : (Str → Option AjsConfig) → Option Str → AjsConfig
load_from_path parse none = default_config
load_from_path parse (some content) = elim (parse content) [
  | none ↦ default_config
  | some config ↦ config
]
