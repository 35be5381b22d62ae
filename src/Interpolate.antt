-- ===== src/Interpolate.antt =====
-- src/index/interpolate_store.rs: the interpolation symbols of the program under edit.
-- `before` is the order of the documents by `Url::cmp`, which the program takes from a library.
pub mod Resolution
use mathlib.Core.Option
use angularjs_lsp.Prelude.{
  ℕ, Bool, true, false, ◌&&◌, not, Option, none, some, List, [], ◌∷◌, map, Eq, if◌then◌else◌,
  is_some, sort_by,
}
use angularjs_lsp.DashMap
use angularjs_lsp.DashMap.{DashMap}
use angularjs_lsp.Text.{Str, codes}

abbrev pub Symbols : Type 0
Symbols = Option Str × Option Str

abbrev pub DetectedEntry : Type 0 → Type 0
DetectedEntry Url = Url × Symbols

pub record InterpolateStore (Url : Type 0) : Type 0 where
  pub js_detected : DashMap Url Symbols

-- one turn of the loop of `resolved`, for one of the two symbols
abbrev pub take_first : Option Str → Option Str → Option Str
take_first found symbol = if not (is_some found) && is_some symbol then symbol else found

abbrev pub default_start : Str
default_start = codes "{{"

abbrev pub default_end : Str
default_end = codes "}}"

module _ {Url : Type 0} where
  unfoldable pub new : InterpolateStore Url
  new = record { js_detected = [] }

  unfoldable pub clear_all : InterpolateStore Url → InterpolateStore Url
  clear_all s = record { js_detected = [] }

  unfoldable pub iter_js_detected_for_cache :
      InterpolateStore Url → List (Url × Option Str × Option Str)
  iter_js_detected_for_cache s = map (λ entry. (entry.0, entry.1.0, entry.1.1)) s.js_detected

  -- the loop of `resolved`, which stops when both symbols are found
  unfoldable pub scan : List (DetectedEntry Url) → Symbols → Symbols
  scan [] found = found
  scan (entry ∷ entries) (start, end_) =
      let start' = take_first start entry.1.0 in
      let end' = take_first end_ entry.1.1 in
      let rest = scan entries (start', end') in
      if is_some start' && is_some end' then (start', end') else rest

  unfoldable pub resolved : (Url → Url → Bool) → InterpolateStore Url → Str × Str
  unfolding scan
  resolved before s =
      let found = scan (sort_by (λ a b. before a.0 b.0) s.js_detected) (none, none) in
      (Option.get_or found.0 default_start, Option.get_or found.1 default_end)

module _ {Url : Type 0} ⦃e : Eq Url⦄ where
  unfoldable pub set_start_symbol : Url → Str → InterpolateStore Url → InterpolateStore Url
  set_start_symbol uri symbol s = record {
    js_detected = DashMap.update uri (none, none) (λ entry. (some symbol, entry.1)) s.js_detected;
  }

  unfoldable pub set_end_symbol : Url → Str → InterpolateStore Url → InterpolateStore Url
  set_end_symbol uri symbol s = record {
    js_detected = DashMap.update uri (none, none) (λ entry. (entry.0, some symbol)) s.js_detected;
  }

  unfoldable pub clear_document : Url → InterpolateStore Url → InterpolateStore Url
  clear_document uri s = record { js_detected = DashMap.remove uri s.js_detected }

  unfoldable pub restore_from_cache :
      Url → Option Str → Option Str → InterpolateStore Url → InterpolateStore Url
  restore_from_cache uri start end_ s =
      if not (is_some start) && not (is_some end_)
      then s
      else record { js_detected = DashMap.insert uri (start, end_) s.js_detected }
