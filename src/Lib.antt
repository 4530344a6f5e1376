-- ===== src/Lib.antt =====
-- A model of mini, an MCP proxy that trims the responses of the tools it serves (README.md).
--
-- Parts and files:
--   Prelude       tests, lists, Go strings as bytes, maps, sorting.
--   Utf8, Json    what the program uses of unicode/utf8 and of encoding/json's strings.
--   Config        internal/config: names (loader.go), hidden tools (permissions.go), exclude
--                 paths (projection_validation.go), response formats (types.go), and
--                 references to variables (env_expand.go) in Env.
--   Registry      the tools an agent sees: internal/registry/aliases.go in Registry/Aliases
--                 (ResolveAliases is resolve_aliases), registry.go in Registry/Tools (AddServer,
--                 RemoveServer, ReplaceServer, Lookup, LookupWithHidden, AllFull).
--   Jq            internal/jq/path.go: FormatPath and CollapseIndex, in Path; filter.go: the loop of
--                 runQuery in Filter.
--   Projection    internal/projection: merge.go in Merge, engine.go in Engine (Apply is apply, the
--                 two slices behind projCtx are a Log that a call returns) and, for its cuts of a
--                 text, in Text, excluded.go in Excluded. StripMarkup of content.go is a parameter.
--   Response      internal/response: the store in Store (recordWrite is record_write; a part under the
--                 mutex is one function, and Store/System has the calls as interleaving steps),
--                 its file names and loadExisting in Files, envelope.go in Envelope.
--   Transport     internal/transport/sse.go: scanSSEMessagesWithLimits in Sse; ssrf.go: SSRFPolicy
--                 and dialSSRFSafe in Ssrf, whose Ranges has the blocked IPv4 addresses as numbers.
--   Server        internal/server/startup_state.go: startupTracker and the report in Startup;
--                 name_locks.go: nameLocks as a step relation of goroutines in NameLocks.
--   Toon          internal/toon: values (value.go), quoting (quote.go in Quote) and numbers
--                 (numbers.go in Numbers, with float64 as a parameter); the choice of tables and their
--                 cells (array.go, keyed.go) in Columns, on fuel that is the nesting of the
--                 values (enough: Columns/Fuel); the writers (encode.go, array.go, keyed.go)
--                 in Encode, which take the text that is in the builder (Encode/Builder), and the
--                 document as lines in Encode/Lines, to which they are compared; fromjson.go over the
--                 list of the tokens of encoding/json in FromJson.
--   Tests         runs at concrete inputs, and each theorem at one.
--
-- A Go string is a list of its bytes. A Go map is an association list in which `insert` keeps a
-- key at most once; a range over a map follows the list, where Go's order is arbitrary. Methods
-- that hold a mutex from start to end are one step. Log output is left out.
--
-- Fuel: the loop of CollapseIndex takes the length of its input, since each round consumes a byte;
-- Jq/Path/Collapse has the lemma that more fuel changes nothing. The reader of brackets in an
-- exclude path takes the length of its text, and the digits of an index take the index. The scan
-- of server-sent events takes the length of the body and one, since a line consumes a byte:
-- Transport/Sse/Ends. FromJSON takes twice the number of tokens and one, since a call consumes
-- a token at least every second time: Toon/FromJson/Fuel.
--
-- Not modelled: I/O (transports, processes, HTTP, files and their formats), the OAuth flows, the
-- command line, and the rest of the server. Code of other libraries is a parameter: the
-- stripping of markup, json.Valid, the lexer of JSON, float64, file creation, random numbers, the
-- parsing of URLs and addresses, the resolver and the dialer, the environment.
mod Prelude
pub mod Utf8
pub mod Json
pub mod Config
pub mod Registry
pub mod Jq
pub mod Toon
pub mod Projection
pub mod Response
pub mod Transport
pub mod Server
mod Tests
