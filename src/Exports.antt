-- ===== src/Exports.antt =====
-- src/index/export_store.rs: the exports and imports of modules.
-- `path` is `Url::path`, which the program takes from a library.
pub mod Names
use mathlib.Core.Option
use angularjs_lsp.Prelude.{
  ℕ, Bool, true, false, Option, none, some, List, [], ◌∷◌, ◌++◌, map, Eq, ◌==◌, nat_eq, list_eq,
  if◌then◌else◌,
}
use angularjs_lsp.DashMap
use angularjs_lsp.DashMap.{DashMap}
use angularjs_lsp.Text.{Str, codes, ends_with}
use angularjs_lsp.Model.Template.{ExportInfo, ExportedComponentObject}

pub record ExportStore (Url : Type 0) : Type 0 where
  pub exports : DashMap Str (ExportInfo Url)
  pub exported_component_objects : DashMap Str (ExportedComponentObject Url)
  pub imports : DashMap Url (DashMap Str Str)

abbrev pub js_suffix : Str
js_suffix = codes ".js"

-- `s.trim_end_matches(".js")`: an end of the text that repeats the suffix is taken off
unfoldable pub only_suffixes : Str → Bool
only_suffixes [] = true
only_suffixes (a ∷ []) = false
only_suffixes (a ∷ b ∷ []) = false
only_suffixes (a ∷ b ∷ c ∷ s) =
    let rest = only_suffixes s in if (a ∷ b ∷ c ∷ []) == js_suffix then rest else false

unfoldable pub trim_js : Str → Str
unfolding only_suffixes
trim_js [] = []
trim_js (c ∷ s) = let rest = trim_js s in if only_suffixes (c ∷ s) then [] else c ∷ rest

module _ {Url : Type 0} where
  unfoldable pub new : ExportStore Url
  new = record { exports = []; exported_component_objects = []; imports = [] }

  unfoldable pub clear_all : ExportStore Url → ExportStore Url
  clear_all s = record { exports = []; exported_component_objects = []; imports = [] }

  unfoldable pub add_export : (Url → Str) → ExportInfo Url → ExportStore Url → ExportStore Url
  add_export path info s = record s { exports = DashMap.insert (path info.uri) info s.exports }

  unfoldable pub get_export : (Url → Str) → ExportStore Url → Url → Option (ExportInfo Url)
  get_export path s uri = DashMap.get (path uri) s.exports

  unfoldable pub get_all_exports : ExportStore Url → List (ExportInfo Url)
  get_all_exports s = map (λ entry. entry.1) s.exports

  unfoldable pub add_exported_component_object :
      (Url → Str) → ExportedComponentObject Url → ExportStore Url → ExportStore Url
  add_exported_component_object path obj s = record s {
    exported_component_objects = DashMap.insert (path obj.uri) obj s.exported_component_objects;
  }

  unfoldable pub get_exported_component_object :
      (Url → Str) → ExportStore Url → Url → Option (ExportedComponentObject Url)
  get_exported_component_object path s uri = DashMap.get (path uri) s.exported_component_objects

  unfoldable pub get_all_exported_component_objects :
      ExportStore Url → List (ExportedComponentObject Url)
  get_all_exported_component_objects s = map (λ entry. entry.1) s.exported_component_objects

  -- the inner loop of `get_exported_component_name`
  unfoldable pub find_object : Str → DashMap Str (ExportedComponentObject Url) → Option Str
  unfolding trim_js
  find_object import_path [] = none
  find_object import_path ((obj_path, obj) ∷ objs) =
      let rest = find_object import_path objs in
      if ends_with (trim_js obj_path) (trim_js import_path) then some obj.name else rest

  -- the outer loop
  unfoldable pub find_import :
      Str → DashMap Url (DashMap Str Str) → DashMap Str (ExportedComponentObject Url) → Option Str
  unfolding find_object
  find_import identifier [] objs = none
  find_import identifier ((uri, names) ∷ imports) objs =
      let rest = find_import identifier imports objs in
      elim (DashMap.get identifier names) [
        | none ↦ rest
        | some import_path ↦ elim (find_object import_path objs) [
          | some name ↦ some name
          | none ↦ rest
        ]
      ]

  unfoldable pub get_exported_component_name : ExportStore Url → Str → Option Str
  unfolding find_import
  get_exported_component_name s identifier =
      find_import identifier s.imports s.exported_component_objects

module _ {Url : Type 0} ⦃e : Eq Url⦄ where
  unfoldable pub add_import : Url → Str → Str → ExportStore Url → ExportStore Url
  add_import uri identifier import_path s = record s {
    imports = DashMap.update uri [] (DashMap.insert identifier import_path) s.imports;
  }

  unfoldable pub get_import_path : ExportStore Url → Url → Str → Option Str
  get_import_path s uri identifier = elim (DashMap.get uri s.imports) [
    | none ↦ none
    | some names ↦ DashMap.get identifier names
  ]

  unfoldable pub clear_document : (Url → Str) → Url → ExportStore Url → ExportStore Url
  clear_document path uri s = record {
    exports = DashMap.remove (path uri) s.exports;
    exported_component_objects = DashMap.remove (path uri) s.exported_component_objects;
    imports = DashMap.remove uri s.imports;
  }
