-- ===== src/Lib.antt =====
-- dynamic-config: layered, hot-reloadable configuration for a running program. Sources (files,
-- environment, layers set from code, a remote store) are merged into one tree, later sources
-- over earlier ones; the tree is deserialized and validated, and the result is installed as a
-- new snapshot that readers load without a lock. A remote store keeps its last document and
-- refreshes it, and a watch loop delivers what the store pushes.
--
-- The modules, with the code that each one follows (paths from the repository's root):
--   Prelude           texts as lists of code points, the methods of `str` that the program calls,
--                     integers, results, tests
--   Error             dynamic-config/src/error.rs
--   Reload            dynamic-config/src/reload.rs: reasons, failures, `ConfigStatus`
--   Map               `BTreeMap<String, V>` as its entries in key order
--   Tree              the tree of a configuration, generic in its leaves
--   Figment           the values of the `figment` crate that the code matches on; Provided
--                     what a provider gives, with figment's metadata and errors
--   Value             dynamic-config/src/value.rs: `get`, `merge`, `leaf_paths`,
--                     `overlapping_paths`. WellFormed has the order of keys, Merge and Precedence
--                     what a merge reads, Overlap when two documents do not collide, Disjoint the
--                     trees that share no leaf
--   Layer             dynamic-config/src/layer.rs: values set by dotted path, `set_assignments`,
--                     and `dict`, their nested shape. InsertPath, Expand and Entries have the laws
--   Cell              dynamic-config/src/cell.rs: `ConfigCell`. Install has one install and one
--                     failure, Hooks registration and its guard, History any sequence of
--                     operations, Race installs that overlap
--   Remote            dynamic-config/src/remote/mod.rs and status.rs: the remote slot and its
--                     fence. Ops has what others may do between two locks, Fencing the fence,
--                     Refresh `refresh` and `refresh_async`, Sink remote/sink.rs, Watch
--                     remote/watch.rs, Attempts what a store crate reports failures through,
--                     dynamic-config-store-core/src/attempts.rs
--   Documents         dynamic-config-store-core/src/documents.rs: the keys under a prefix, folded
--                     into one document. Fold has what a fold keeps, Order that the order of the
--                     keys does not matter, Prefix the check of a key
--   Units             dynamic-config/src/units.rs: durations and byte counts as text
--
--   Lifecycle         dynamic-config/src/builder/lifecycle.rs: `install`, `reload_with`, `prepare`,
--                     with the modes of cache.rs; Install has what an init leaves
--   Group             dynamic-config/src/group.rs: a group's reload
--   Aliases           dynamic-config/src/aliases.rs: `add` and its walk (Acyclic), and
--                     loader/aliases_pass.rs: the pass that fills gaps (Pass)
--   Bindings          dynamic-config/src/bindings.rs: keys bound to environment variables by name
--   Credential        dynamic-config-store-core/src/credential.rs: `Cached`, with the
--                     store it asks as a parameter
--   Dotenv            dynamic-config/src/dotenv.rs: `parse`; Provider the nesting of its keys
--   Source            dynamic-config/src/source.rs: formats, sources, `LoadSpec`; Discovery
--                     discovery.rs, the search for files
--   Loader            dynamic-config/src/loader/mod.rs: `LAYERS` and `build`. Outside is what a load
--                     asks of the machine, Sections loader/sections.rs (sections of a document,
--                     profile variants, each kind of source), Environment loader/environment.rs,
--                     Secrets loader/secrets.rs, Layers the `merge_` functions of mod.rs, Resolved
--                     the fold into figment with the pass over the aliases, and
--                     loader/recover.rs. Reading has what figment documents of a merge and a
--                     select, Precedence the order of the layers, Recovery a load from the
--                     cache, Siblings the names of profile variants. Origin is
--                     loader/origin.rs, with Redacted the values and Excerpt the quoted lines that stay
--                     out of an error, and Traced which layer is traced where, from Named (the
--                     names given), Supplied (stores, `.env` files, bindings) and Mounted
--                     (secrets). Questions has
--                     what mod.rs answers below its layers, with the provenance of snapshot.rs
--   Watch             dynamic-config/src/watch/debounce.rs: the loop that collects events and
--                     reloads, and `Watched::from_spec`. Relevance relevance.rs, Quiet the events
--                     that do not matter, Ends when a round ends, Reloads what is reloaded
--   Asynchronous      dynamic-config/src/asynchronous.rs: `Notify`, step by step
--   Explain           dynamic-config/src/explain.rs: contributions, the winner, redaction
--   Check             dynamic-config/src/check.rs: the report
--   Server            dynamic-config-server/src: Auth (auth.rs), Config (config/), Document
--                     (document.rs), Sections (server.rs), Audit (audit.rs), Names, Responses,
--                     Admit and Routes (routes/), Streams (routes/stream.rs and the ceiling in
--                     server.rs). A request is an endpoint with its path segments, since the
--                     router is axum's; a handler gives the audit entries that it records, its
--                     response and the count of open streams
--
-- How the parts meet. `Lifecycle` installs into `Cell`, `Group` commits what `Lifecycle` prepared,
-- and a section of `Server` reads a `Cell` while others install in it; what a bump of
-- `Asynchronous` announces is an install of `Cell`. `Watch` says when a reload starts; what a
-- reload reads is `Loader.Resolved.merged`, which asks `Layer`, `Bindings`, `Dotenv`, `Aliases`
-- and the document that `Remote` holds, and what a recovery reads is `Loader.Resolved.recovered`.
--
-- How code becomes definitions. A method on `&self` takes the state that its lock or its atomics
-- guard and returns the new one; a `Result` is `Prelude.Results.Result`. What the code asks of
-- others is an argument: the clock (`now`, `started`, `ended`), the answer of a remote source
-- (`fetch`), figment's reading of a text (`read`), the formats' `parse` and `render`, what
-- `Value::serialize` gave, what a
-- reload returned, what the loader read, what the cache file holds, whether an address is a
-- loopback one. A load has `Loader.Outside.World` for the file system, the environment, the
-- parsers and the command that decrypts, and `Loader.Resolved.Engine` for figment, whose
-- documented laws are the record `Loader.Reading.Documented`; a merge step is then the list of
-- providers that the code merges, or its error. The channel of the watch is the list of messages
-- to come with the times they arrive, and an optional time at which it closes; a round's handling
-- takes no time beside its waits and its reload. A method that lets its lock go in the middle
-- takes the operations that others run there (`during`, `after`) as lists, so a theorem about it
-- speaks of every interleaving of whole critical sections. `Cell.Race` goes below that: the
-- steps of `store_with` are single atomic operations, and a schedule picks the thread that
-- moves; `Asynchronous` and `Server.Streams.Ceiling` are built the same way.
--
-- Bounds. The counters of `Remote` wrap at 2^64 and its statistics saturate, as the code's do;
-- the theorems on the fence assume fewer than 2^64 installs during one fetch. The generation of
-- a cell is a `u64` that the code adds one to with a plain `+`; it has no end here. `parse_loop`
-- has as fuel the length of the text, which is enough since each round reads a digit at least,
-- and `sleep_loop` one more round than there are slices. The walk
-- of `add` has the number of aliases and three as fuel, and the pass over the aliases one round
-- more than there are aliases; both are proved enough. The watch loop has one round more than
-- there are messages, which is proved enough. A profile variant peels one
-- suffix for each character of a name at most. The ceiling of open streams is a `usize`
-- of 64 bits, and a generation is printed with 20 digits, which a `u64` has at most.
--
-- Not modelled: figment itself, reading and parsing files, the threads of the watcher and the notify crate, decryption, the derive
-- macros, the stores' network clients, TLS, HTTP itself and the bindings for other languages.
-- Every format is taken as compiled in, and a profile's name as figment compares it, in lower
-- case. Of the parts above, `Value::get_as`, `parse`, `render` and the conversions from and to
-- figment, `Layer::bind_clap`, the reads and the `diff` of a snapshot, the hand-over of blocking work in asynchronous.rs, the texts of
-- long error messages and the rendering of an explanation and of the metrics are left out.
mod Prelude
pub mod Error
pub mod Reload
pub mod Units
pub mod Map
pub mod Tree
pub mod Figment
pub mod Value
pub mod Layer
pub mod Cell
pub mod Remote
pub mod Documents
pub mod Credential
pub mod Bindings
pub mod Source
pub mod Loader
pub mod Watch
pub mod Aliases
pub mod Dotenv
pub mod Check
pub mod Lifecycle
pub mod Group
pub mod Asynchronous
pub mod Explain
pub mod Server
