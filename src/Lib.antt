-- ===== src/Lib.antt =====
-- angularjs-lsp is a language server for AngularJS 1.x. Analysers walk scripts and templates and
-- write what they find into an index of eight stores; the handlers of the protocol read the index and
-- answer from it; a proxy passes other requests on to a TypeScript server. The development models the
-- index with the data model and the names and paths that it is keyed by, the handlers that answer from
-- it, the configuration, the proxy's framing and its waiting requests, and the parts of the analysis
-- of templates that work on texts.
--
-- Parts, and the files that model them:
--   src/model/span.rs: Model/Span and Model/Location; src/model/symbol.rs: Model/Symbol;
--     src/model/html.rs and scope.rs: Model/Html; src/model/template.rs, inheritance.rs and export.rs:
--     Model/Template.
--   src/index/definition_store.rs: Definitions, with the invariant of the store in
--     Definitions/Invariant and Definitions/Clear, additions in Definitions/Additions, the listings in
--     Definitions/Reads, the search by position in Definitions/Search and Definitions/Position, and
--     repeated analysis in Definitions/Reanalysis.
--   src/index/controller_store.rs: Controllers and Controllers/Innermost.
--   src/index/html_store.rs: Html, Html/Variables and Html/References, with proofs in Html/Contents
--     and Html/Scopes.
--   src/index/template_store.rs: Templates/State, Templates/Bindings, Templates/Inheritance,
--     Templates/Includes, Templates/Resolution, Templates/Views and Templates/Removal;
--     Templates/Matching has the tests of paths; Templates/Queue, Templates/Lookup and
--     Templates/Merging have proofs.
--   src/index/component_store.rs: Components; export_store.rs: Exports; interpolate_store.rs:
--     Interpolate; diagnostics_store.rs: Diagnostics.
--   src/index/mod.rs and src/index/query.rs: Index, with the parts of names in Index/SymbolNames, the
--     searches over templates in Index/References and the remaining queries in Index/Declarations;
--     proofs in Index/Clearing, Index/Resolution, Index/Models and Index/Usages.
--   src/index/html_resolve.rs: Index/HtmlPosition, with the identifier under the cursor in
--     Index/HtmlPosition/Identifier.
--   src/handler/semantic_tokens.rs: Handlers/SemanticTokens and its Encoding; document_symbol.rs and
--     workspace_symbol.rs: Handlers/Symbols with Ranges and Search; resolve.rs: Handlers/Resolve with
--     Agreement; references.rs: Handlers/References; document_highlight.rs: Handlers/Highlights with
--     Order and Places; definition.rs: Handlers/Definition with Chain; rename.rs: Handlers/Rename with
--     Edits; diagnostics.rs: Handlers/Diagnostics with Unused and Undefined; codelens.rs:
--     Handlers/CodeLens with Targets.
--   src/config: Config and Config/PathMatcher.
--   src/ts_proxy/transport.rs: TsProxy/Transport with Framing and Endless; src/ts_proxy/mod.rs:
--     TsProxy/Pending.
--   src/analyzer/html/variable_parser.rs: Analyzer/VariableParser with Offsets; directives.rs:
--     Analyzer/Directives with Prefixes; expression.rs: Analyzer/Expression with Spaces and
--     Cuts.
--   src/util.rs: Util, Util/Names, Util/Paths and Util/Walks.
-- Prelude, DashMap and Text are shared; Tests has runs and examples.
--
-- State and operations. A store is a record with the fields of the struct; an operation that takes
-- `&self` and changes it is a function from the store to the store, with the name of the method. A
-- `DashMap` or `HashMap` is an association list in the order of one iteration, a `HashSet` a list
-- without repetition, a `String` or `&str` the list of its code points. A loop that returns early is
-- a search; a loop that fills a vector is a filter or a function by recursion on the list. A handler
-- is a function of the index and of the fields of its parameters that it reads. Where the source
-- indexes or slices and may panic, the result is an Outcome, which panics or returns. A request for
-- the symbol under a cursor that passes no text of the document is resolve_stored. The table of
-- waiting requests changes by the steps of a list of events, in the order in which they happen.
--
-- Parameters. `Url` is a type with an equality test; `Url::path`, `Url::as_str`, the parsing of a URI
-- and the order of URIs come from a library and are arguments, as are Rust's tables of letter cases,
-- letters and digits, the cutting of a text into lines, the reading of UTF-8, the text of a number in
-- a message, the reading and writing of JSON, and globs with their sets.
--
-- Numbers. Positions are `u32`; `range_size` and the lengths and ends of semantic tokens wrap at
-- 2 ^ 32 as a release build does. Lines and columns are only compared elsewhere. A length in a header
-- is read as a `usize` of 64 bits. The id of a request is an `i64`, kept as its 64 bits.
--
-- Fuel. The propagation of inheritance through `ng-include` calls itself on the templates that it
-- changed; it takes the depth of the nesting as fuel and returns none where the nesting is deeper. The
-- reading of headers takes one line for each unit of fuel and tells where the fuel is gone.
--
-- Not modelled: the analysers of scripts and the walks over the trees of a parser library; hover,
-- completion, inlay hints and signature help; the cache and the server itself; the child
-- process of the proxy and the JSON of its requests; the reading of the configuration field by field;
-- concurrent access, since every statement is about whole operations in some order.
pub mod Prelude
pub mod DashMap
pub mod Text
pub mod Handlers
pub mod Analyzer
pub mod TsProxy
pub mod Config
pub mod Model
pub mod Definitions
pub mod Util
pub mod Controllers
pub mod Html
pub mod Components
pub mod Interpolate
pub mod Exports
pub mod Diagnostics
pub mod Templates
pub mod Tests
pub mod Index
