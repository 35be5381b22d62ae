-- ===== src/Handlers/Diagnostics/Unused.antt =====
-- Which scope variables of a script are reported as unused.
use angularjs_lsp.Prelude.{
  ◌≡◌, ◌↔◌, inl, inr, true, false, not, ◌||◌, some, arith, Eq, ◌==◌, In, In-filter_map,
  filter_map-In, Option-cases,
}
use angularjs_lsp.Text.{Str}
use angularjs_lsp.Model.Location.{to_lsp_range}
use angularjs_lsp.Model.Symbol.{Symbol, kind_eq, scope_property, scope_method}
use angularjs_lsp.Definitions.{get_definitions, any_reference, get_scope_definitions_for_js}
use angularjs_lsp.Definitions.Clear.{IsValid}
use angularjs_lsp.Definitions.Reads.{collect_definitions_for_uri_iff}
use angularjs_lsp.Index.{Index}
use angularjs_lsp.Index.References.{is_scope_variable_referenced}
use angularjs_lsp.Handlers.Diagnostics.{
  Diagnostic, DiagnosticSeverity, property_name, is_used, unused_message, unused_diagnostic,
  check_unused_scope_variables,
}

module _ {Url : Type 0} ⦃e : Eq Url⦄ (path : Url → Str) (s : Index Url) where
  -- The symbol is a property or a method of a scope that the document defines, and neither a
  -- template nor another document refers to it.
  abbrev pub IsUnused : Url → Symbol Url → Type 0
  IsUnused uri d =
      In d (get_definitions s.definitions d.name)
      × (d.uri ≡ uri)
      × ((d.kind == scope_property || d.kind == scope_method) ≡ true)
      × (is_scope_variable_referenced path s d.name ≡ false)
      × (any_reference s.definitions d.name (λ r. not (r.uri == uri)) ≡ false)

  -- what is reported of a symbol with a property of that name
  abbrev pub unused : DiagnosticSeverity → Url → Symbol Url → Str → Diagnostic
  unused severity uri d name = record {
    range = to_lsp_range d.name_span;
    severity = severity;
    message = unused_message (any_reference s.definitions d.name (λ r. r.uri == uri)) name;
    unnecessary = true;
  }

  unused_turn :
      (severity : DiagnosticSeverity) (uri : Url) (x : Symbol Url) (d : Diagnostic)
      → unused_diagnostic path s severity uri x ≡ some d
      → (name : Str) × (property_name x.name ≡ some name)
        × (is_used path s uri x.name ≡ false)
        × (d ≡ unused severity uri x name)
  unused_turn severity uri x d h = elim (Option-cases (property_name x.name)) [
    | inl nameless ↦ absurd (ground arith)
    | inr (name, named) ↦ (name, named, ground arith, ground arith)
  ]

  -- From a valid store, what is reported of unused scope variables of a script is exactly a
  -- diagnostic for each scope property or method that the script defines, that no template and no
  -- other document refers to, and whose name has a property part.
  pub check_unused_scope_variables_iff :
      (severity : DiagnosticSeverity) (uri : Url) (d : Diagnostic)
      → IsValid s.definitions
      → In d (check_unused_scope_variables path s severity uri) ↔ (
          (x : Symbol Url) × (name : Str) × IsUnused uri x
          × (property_name x.name ≡ some name)
          × (d ≡ unused severity uri x name))
  unfolding check_unused_scope_variables get_scope_definitions_for_js
  check_unused_scope_variables_iff severity uri d v =
      let test = λ (d : Symbol Url). d.kind == scope_property || d.kind == scope_method in
      let turn = unused_diagnostic path s severity uri in
      let xs = get_scope_definitions_for_js s.definitions uri in
      (
        λ i.
            let (x, j, shown) = In-filter_map turn d xs i in
            let (name, named, free, same) = unused_turn severity uri x d shown in
            let (k, own, kind) = (collect_definitions_for_uri_iff s.definitions uri test x v).0 j in
            (x, name, (k, own, kind, ground arith, ground arith), named, same),
        λ (x, name, (k, own, kind, a, b), named, same).
            filter_map-In turn x d xs
              ((collect_definitions_for_uri_iff s.definitions uri test x v).1 (k, own, kind))
              (rw same (ground arith)),
      )
