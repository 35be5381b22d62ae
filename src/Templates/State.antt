-- ===== src/Templates/State.antt =====
-- src/index/template_store.rs: the state, the keys of the tables, and the queue of templates that
-- are to be analysed again.
use angularjs_lsp.Prelude.{List, [], ◌∷◌, ◌++◌, Eq, ◌==◌, nat_eq, list_eq, not, retain, set_insert}
use angularjs_lsp.DashMap.{DashMap}
use angularjs_lsp.Text.{Str, after_last}
use angularjs_lsp.Model.Template.{TemplateBinding, NgIncludeBinding, NgViewBinding}

pub record TemplateStore (Url : Type 0) : Type 0 where
  pub template_bindings : DashMap Str (TemplateBinding Url)
  pub ng_include_bindings : DashMap Str (NgIncludeBinding Url)
  pub ng_include_by_filename : DashMap Str (List Str)
  pub ng_include_by_path : DashMap Str (List Str)
  pub ng_view_bindings : DashMap Str (NgViewBinding Url)
  pub route_provider_templates : List Str
  pub pending_reanalysis : List Url
  pub analyzed_html_files : List Url

-- `key.rfind('#')`, and the text after it
unfoldable pub extract_template_path_from_key : Str → Str
unfolding after_last
extract_template_path_from_key key = after_last b'#' key

module _ {Url : Type 0} where
  -- `as_str` is `Url::as_str`
  unfoldable pub make_ng_include_key : (Url → Str) → Url → Str → Str
  make_ng_include_key as_str parent_uri template_path = as_str parent_uri ++ b'#' ∷ template_path

  unfoldable pub new : TemplateStore Url
  new = record {
    template_bindings = [];
    ng_include_bindings = [];
    ng_include_by_filename = [];
    ng_include_by_path = [];
    ng_view_bindings = [];
    route_provider_templates = [];
    pending_reanalysis = [];
    analyzed_html_files = [];
  }

  unfoldable pub clear_all : TemplateStore Url → TemplateStore Url
  clear_all s = record {
    template_bindings = [];
    ng_include_bindings = [];
    ng_include_by_filename = [];
    ng_include_by_path = [];
    ng_view_bindings = [];
    route_provider_templates = [];
    pending_reanalysis = [];
    analyzed_html_files = [];
  }

  unfoldable pub take_pending_reanalysis : TemplateStore Url → List Url × TemplateStore Url
  take_pending_reanalysis s = (s.pending_reanalysis, record s { pending_reanalysis = [] })

  unfoldable pub analyzed_html_uris : TemplateStore Url → List Url
  analyzed_html_uris s = s.analyzed_html_files

module _ {Url : Type 0} ⦃e : Eq Url⦄ where
  unfoldable pub remove_from_pending_reanalysis : Url → TemplateStore Url → TemplateStore Url
  remove_from_pending_reanalysis uri s = record s {
    pending_reanalysis = retain (λ u. not (u == uri)) s.pending_reanalysis;
  }

  unfoldable pub add_pending_reanalysis : Url → TemplateStore Url → TemplateStore Url
  add_pending_reanalysis uri s = record s {
    pending_reanalysis = set_insert uri s.pending_reanalysis;
  }

  unfoldable pub mark_html_analyzed : Url → TemplateStore Url → TemplateStore Url
  mark_html_analyzed uri s = record s { analyzed_html_files = set_insert uri s.analyzed_html_files }
