-- ===== src/Tests/Proxy.antt =====
-- Runs and examples for src/ts_proxy and src/config.
use angularjs_lsp.Prelude.{
  ℕ, zero, suc, map, if◌then◌else◌, ◌+◌, ◌≡◌, ◌⊎◌, refl, inl, inr, Bool, ◌&&◌, none, some, Option,
  List, [], ◌∷◌, ◌++◌, arith, leb, any, nat_eq, list_eq, list_beq, ◌==◌,
}
use angularjs_lsp.Text.{Str, codes}
use angularjs_lsp.Config.PathMatcher.{new, SetsMatch, Describes, new-Describes}
use angularjs_lsp.TsProxy.Pending.{
  Event, sent, response, timed_out, start, step, run, receiver, receiver-run,
}
use angularjs_lsp.TsProxy.Transport.{
  Bytes, reading, message, write_message, read_message, read_line, crlf,
}
use angularjs_lsp.TsProxy.Transport.Framing.{read_message-write_message}
use angularjs_lsp.TsProxy.Transport.Endless.{after, Stops, read_message-endless}

-- A pattern is a path, and matches itself.
abbrev path_glob : Str → Str ⊎ Str
path_glob pattern = inr pattern

abbrev all_globs : List Str → Str ⊎ List Str
all_globs globs = inr globs

abbrev same_path : Str → Str → Bool
same_path glob path = glob == path

abbrev in_globs : List Str → Str → Bool
in_globs globs path = any (λ g. same_path g path) globs

abbrev as_is : Str → Str
as_is text = text

abbrev included : List Str
included = codes "app.js" ∷ []

abbrev excluded : List Str
excluded = codes "lib.js" ∷ []

path_globs-SetsMatch : SetsMatch as_is path_glob all_globs in_globs same_path
path_globs-SetsMatch globs set built path = let same : globs ≡ set = ground arith in rw same refl

new-Describes_example :
    Describes as_is path_glob all_globs in_globs same_path included excluded
      (new as_is path_glob all_globs included excluded)
new-Describes_example =
    new-Describes as_is path_glob all_globs in_globs same_path included excluded
      path_globs-SetsMatch

-- A reading of the bytes of ASCII.
abbrev ascii : Bytes → Option Str
ascii s = some s

-- The small letters of ASCII.
abbrev lowered : Str → Str
lowered text = map (λ c. if leb 65 c && leb c 90 then c + 32 else c) text

abbrev as_value : Bytes → Option Bytes
as_value content = some content

-- Two blanks, and a blank line behind them.
abbrev two_lines : Bytes
two_lines = codes "x" ++ (crlf ++ crlf)

-- The stream is at its end, and stays there.
ended : (n : ℕ) → ¬ Stops ascii lowered (after n [])
unfolding after read_line list_beq
ended zero (inl h) = absurd (ground arith)
ended zero (inr (line, h, blank)) = absurd (ground arith)
ended (suc n) h = ended n h

read_message-endless_example : read_message ascii lowered as_value 7 [] ≡ reading
read_message-endless_example = read_message-endless ascii lowered as_value 7 [] ended

read_message-write_message_example :
    read_message ascii lowered as_value 2 (write_message as_is (codes "{}") ++ codes "rest")
    ≡ message (codes "{}") (codes "rest")
read_message-write_message_example =
    read_message-write_message ascii lowered as_is as_value (codes "{}") 0 (codes "rest")
      (λ s h. refl) refl refl (ground arith)

abbrev events : List (Event ℕ)
events = sent 20 ∷ response (some 5) ∷ timed_out 2 ∷ []

receiver-run_example :
    let answered = run (step start (sent 10)) events in
    (receiver (some 1) answered ≡ some 10)
    × (receiver (some 1) (step answered (response (some 1))) ≡ none)
unfolding start
receiver-run_example = receiver-run start 10 events refl (omega arith)
