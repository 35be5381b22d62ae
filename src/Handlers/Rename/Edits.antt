-- ===== src/Handlers/Rename/Edits.antt =====
-- The edits of a renaming, read document by document.
use angularjs_lsp.Prelude.{
  ◌≡◌, ◌≢◌, refl, sym, ap, ◌∙◌, inl, inr, Option, none, some, List, [], ◌∷◌, ◌++◌, map, arith, Eq,
  ◌==◌, ==_sound, Bool-cases, if◌then◌else◌, retain, is_empty, In, In-map, In-retain, ==_ne, leb,
  ◌&&◌, nat_eq, list_eq,
}
use mathlib.Core.List.{append_assoc, append-nil}
use angularjs_lsp.DashMap
use angularjs_lsp.DashMap.{DashMap, get_or-insert}
use angularjs_lsp.Text.{Str}
use angularjs_lsp.Model.Location.{Location, TextEdit}
use angularjs_lsp.Model.Html.{HtmlLocalVariable, HtmlLocalVariableReference}
use angularjs_lsp.Definitions.{get_definitions}
use angularjs_lsp.Html.Variables.{get_local_variable_references}
use angularjs_lsp.Index.{Index}
use angularjs_lsp.Index.References.{get_all_references}
use angularjs_lsp.Handlers.References.{
  reference_location, variable_location, variable_reference_location,
}
use angularjs_lsp.Handlers.Definition.{name_location}
use angularjs_lsp.Handlers.Rename.{
  push_edits, workspace_edit, collect_edits, collect_local_variable_edits,
}

module _ {Url : Type 0} ⦃e : Eq Url⦄ where
  abbrev pub edit : Str → Location Url → TextEdit
  edit new_name l = record { range = l.range; new_text = new_name }

  -- the edits for the locations of one document, in their order
  abbrev pub edits_in : Url → Str → List (Location Url) → List TextEdit
  edits_in uri new_name ls = map (edit new_name) (retain (λ l. l.uri == uri) ls)

  get-push_edits :
      (uri : Url) (new_name : Str) (ls : List (Location Url)) (m : DashMap Url (List TextEdit))
      → DashMap.get_or uri [] (push_edits new_name ls m)
        ≡ DashMap.get_or uri [] m ++ edits_in uri new_name ls
  unfolding push_edits
  get-push_edits uri new_name [] m = sym (append-nil (DashMap.get_or uri [] m))
  get-push_edits uri new_name (l ∷ ls) m =
      let old = DashMap.get_or l.uri [] m in
      let new = old ++ edit new_name l ∷ [] in
      get-push_edits uri new_name ls (DashMap.insert l.uri new m)
      ∙ (ap (λ es. es ++ edits_in uri new_name ls) (get_or-insert l.uri uri [] new m)
          ∙ elim (Bool-cases (l.uri == uri)) [
            | inl here ↦
                rw (here, ==_sound l.uri uri here)
                  (append_assoc (DashMap.get_or uri [] m) (edit new_name l ∷ [])
                    (edits_in uri new_name ls))
            | inr elsewhere ↦ rw elsewhere refl
          ])

  -- the edits of a document in an answer
  abbrev pub edits_of : Url → Option (DashMap Url (List TextEdit)) → List TextEdit
  edits_of uri none = []
  edits_of uri (some changes) = DashMap.get_or uri [] changes

  edits_of-workspace_edit :
      (uri : Url) (new_name : Str) (ls : List (Location Url))
      → edits_of uri (workspace_edit new_name ls) ≡ edits_in uri new_name ls
  unfolding DashMap.get
  edits_of-workspace_edit uri new_name ls =
      edits_of-unless (push_edits new_name ls []) ∙ get-push_edits uri new_name ls []
    where
      edits_of-unless :
          (m : DashMap Url (List TextEdit))
          → edits_of uri (if is_empty m then none else some m) ≡ DashMap.get_or uri [] m
      edits_of-unless [] = refl
      edits_of-unless (c ∷ m) = refl

  retain_none :
      (uri : Url) (ls : List (Location Url))
      → ((l : Location Url) → In l ls → l.uri ≢ uri)
      → retain (λ l. l.uri == uri) ls ≡ []
  retain_none uri [] h = refl
  retain_none uri (l ∷ ls) h =
      rw (==_ne l.uri uri (h l (inl refl))) (retain_none uri ls (λ x i. h x (inr i)))

module _ {Url : Type 0} ⦃e : Eq Url⦄ (path : Url → Str) (s : Index Url) where
  -- The edits of a renaming in a document are one for each definition of the symbol in it, over
  -- its name, and then one for each reference in it, in their order.
  pub collect_edits-edits_in :
      (uri : Url) (name new_name : Str)
      → edits_of uri (collect_edits path s name new_name)
        ≡ edits_in uri new_name (
            map name_location (get_definitions s.definitions name)
            ++ map reference_location (get_all_references path s name))
  unfolding collect_edits
  collect_edits-edits_in uri name new_name = edits_of-workspace_edit uri new_name (
      map name_location (get_definitions s.definitions name)
      ++ map reference_location (get_all_references path s name))

  own_reference :
      (v : HtmlLocalVariable Url) (r : HtmlLocalVariableReference Url)
      → In r (get_local_variable_references s.html v.uri v.name v.scope_start_line v.scope_end_line)
      → r.uri ≡ v.uri
  unfolding get_local_variable_references
  own_reference v r i =
      let (j, test) =
        In-retain r
          (λ r.
            r.uri == v.uri
            && leb v.scope_start_line r.start_line
            && leb r.start_line v.scope_end_line)
          (DashMap.get_or v.name [] s.html.html_local_variable_references) i in
      ==_sound r.uri v.uri (ground arith)

  -- The edits of the renaming of a local variable are all in its own document.
  pub collect_local_variable_edits-elsewhere :
      (uri : Url) (v : HtmlLocalVariable Url) (new_name : Str)
      → uri ≢ v.uri
      → edits_of uri (collect_local_variable_edits path s v new_name) ≡ []
  unfolding collect_local_variable_edits
  collect_local_variable_edits-elsewhere uri v new_name ne =
      let refs =
        get_local_variable_references s.html v.uri v.name v.scope_start_line v.scope_end_line in
      edits_of-workspace_edit uri new_name
        (variable_location v ∷ map variable_reference_location refs)
      ∙ ap (map (edit new_name)) (
          retain_none uri (variable_location v ∷ map variable_reference_location refs) (λ l i.
            elim i [
              | inl p ↦ λ q. ne (sym q ∙ ap (λ x. x.uri) p)
              | inr j ↦
                  let (r, k, p) = In-map variable_reference_location l refs j in
                  λ q. ne (sym q ∙ (ap (λ x. x.uri) p ∙ own_reference v r k))
            ]))
