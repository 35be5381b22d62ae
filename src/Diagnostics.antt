-- ===== src/Diagnostics.antt =====
-- src/index/diagnostics_store.rs and src/model/diagnostics.rs: what the analysis found wrong.
use angularjs_lsp.Prelude.{ℕ, List, [], ◌∷◌, ◌++◌, Eq}
use angularjs_lsp.DashMap
use angularjs_lsp.DashMap.{DashMap}
use angularjs_lsp.Model.Span.{Span}

pub record DiArityIssue (Url : Type 0) : Type 0 where
  pub uri : Url
  pub di_count : ℕ
  pub param_count : ℕ
  pub span : Span

pub record DiagnosticsStore (Url : Type 0) : Type 0 where
  pub di_arity_issues : DashMap Url (List (DiArityIssue Url))

module _ {Url : Type 0} where
  unfoldable pub new : DiagnosticsStore Url
  new = record { di_arity_issues = [] }

  unfoldable pub clear_all : DiagnosticsStore Url → DiagnosticsStore Url
  clear_all s = record { di_arity_issues = [] }

module _ {Url : Type 0} ⦃e : Eq Url⦄ where
  unfoldable pub add_di_arity_issue : DiArityIssue Url → DiagnosticsStore Url → DiagnosticsStore Url
  add_di_arity_issue issue s = record {
    di_arity_issues = DashMap.update issue.uri [] (λ l. l ++ issue ∷ []) s.di_arity_issues;
  }

  unfoldable pub get_di_arity_issues : DiagnosticsStore Url → Url → List (DiArityIssue Url)
  get_di_arity_issues s uri = DashMap.get_or uri [] s.di_arity_issues

  unfoldable pub clear_document : Url → DiagnosticsStore Url → DiagnosticsStore Url
  clear_document uri s = record { di_arity_issues = DashMap.remove uri s.di_arity_issues }
