-- ===== src/Lib.antt =====
-- Qri keeps versioned datasets. This library models the part of it that decides what a dataset's
-- history is, what a reference to a dataset means, and who may do what to a dataset.
--
-- The parts and how they interact:
--   * Operation logs (logbook/oplog/log.go; `Oplog`). A log is a tree of append-only sequences of
--     operations, and a journal keeps the trees that one author knows. `Oplog/Op` is `Op`,
--     `Oplog/Log` is `Log` with its fields and caches, `Oplog/Tree` the lookups by id (`Log.Log`)
--     and by names (`HeadRef`) and `AddChild`, `Oplog/Merge` is `Log.Merge`, `Oplog/Journal` is
--     `Journal` with `MergeLog`, `RemoveLog`, `Get`, `SetID`, `Descendants` and `ReplaceAll`.
--   * The logbook (logbook/logbook.go, logbook/types.go; `Logbook`). A book is a journal with the
--     id of its author; user, dataset and branch logs are the three levels of a tree.
--     `Logbook/Model` has the models of operations and plain logs, `Logbook/History` reads a branch
--     back as versions (`branchToVersionInfos`, `latestSavePath`, `addReferencedPaths`,
--     `LogEntries`), `Logbook/Book` has the `Write` operations with the rollback of those for a
--     remote and the log that these read back (`UserDatasetBranchesLog`), the resolution of references and the events that are published
--     (event/dataset.go).
--   * Synchronization (logbook/logsync/logsync.go; `Sync`): a log that is pushed is written to the
--     logbook first, sent, and taken back if that fails; the remote accepts it after its hooks and
--     merges it into its own logbook. The hooks of a remote (remote/remote.go; `Sync/Checks`) ask
--     the access policy before they call what is configured.
--   * References (dsref/ref.go, dsref/version_info.go, dsref/parse.go, dsref/generate.go; `Dsref`):
--     `Ref` and what it prints, the parser with its regular expressions, the checks of names, and
--     the state machine that makes a name of any text. The logbook takes and returns references,
--     and checks names. `Dsref/Resolve` has the resolvers (dsref/resolve.go,
--     dsref/mem_resolver.go), `Dsref/Rev` the parser of revisions (dsref/rev.go).
--   * The event bus (event/event.go; `Event/Bus`) calls the handlers that subscribed to an event. A
--     run of a transform (transform/run/run.go; `Transform/Run`) is a state that its events change:
--     the save handler of lib/datasets.go subscribes it to them.
--   * The dataset cache (dscache/; `Dscache`) finds the newest version of a dataset by name. It
--     follows the changes that the logbook publishes: both use one `DsChange`.
--   * Stores: the older references with their parser and their store in memory (repo/ref,
--     repo/parse.go, repo/mem_refstore.go; `Repo`), profiles (profile/store.go; `Profile`), and the cache of statistics (stats/cache.go;
--     `Stats`).
--   * Filling (base/fill; `Fill`): decoded data is assigned to the fields of a structure by their names,
--     over the types and values that Go's reflection shows. `none` is a panic of reflection. A path of
--     fields, keys and indices is followed to its place (`Fill.Walk`), which is read or set
--     (`Fill.Paths`): a place is its type, its value, and the whole as a function of its value.
--   * Working directories (fsi/status.go; `Fsi`): the components of a directory are compared with those of
--     the stored version.
--   * The registry of profiles (registry/; `Registry`): which profile has which name.
--   * Messages (base/friendly/friendly.go; `Friendly`): the title and the message of a commit, made of
--     the differences of two versions.
--   * Requests: SQL queries that name datasets are rewritten to legal SQL
--     (sql/preprocess/preprocess.go; `Sql`), and a request asks for a page and an ordering
--     (api/util/page.go, api/util/order.go; `Api`).
--   * Access policies (remote/access/access.go; `Access`): rules on resources and actions, which a
--     remote asks before it lets a log be pushed or removed.
--   * `Base` has what all share: lists over native numbers, strings as lists of bytes (of runes
--     where a scanner reads runes), signed integers, decimal numbers, maps as association lists,
--     lists in another order, and results, which are a value, an error or a run-time panic.
--
-- Correspondence. Functions keep their Go names in snake case. A pointer into a tree that Go hands
-- out is the place that a lookup found: what is written through it is `replace_log` or `update_ref`
-- at that place. An operation of a book takes the book and returns its result beside the book,
-- since what was written stays when a later step fails. Loops are structural recursion on the list
-- or tree they walk, and every function is total. Fuel is used in four places: a pass over the
-- tokens of a query takes as much as there are tokens and one more, since each call takes a token;
-- the search for a table name one more than there are aliases, since the names that it tries
-- differ; the purge of the statistics cache one more than there are files, since each round drops
-- one; the ancestors of a log that is shared, one more than there are. What runs out of fuel is a result of its own. An index out of range is a panic of the model.
-- Signed integers are unbounded where sizes, counts and timestamps do not reach 2^63; conversions
-- to a narrower width and the sum of file sizes wrap around. The lookups by id terminate because
-- trees are finite.
--
-- Parameters: `hash` is `Op.Hash` (blake2b and base32 over flatbuffer bytes), `writes` says whether
-- the encrypted write of a journal to the file system succeeds, `decode` is `json.Unmarshal`,
-- `normalize` is the Unicode normalization of generated names, and the current time is an argument.
-- `is_numeric` is `strconv.ParseFloat`; `sort_slice` is `sort.Slice`; `visit` is the order in which
-- Go visits a map; `removes` and `write_fails` are calls of the file system; `set_slot` is what a
-- number in a flatbuffer is after a second value was added, and `beyond` what is read behind the
-- end of a list of one, or that this panics; the record `Go` of `Fill` has the conversions
-- of Go's library, `parse_int` is `strconv.ParseInt`; `verify` in `Registry` is the check of a signature, `sort` that of strings;
-- `compare` in `Fsi` is the comparison of two components, `load` the reading of a version; `pretty` and `decode_or_empty` are the texts of peer ids; `key_store` is the
-- store of keys; `unmarshal`, `verified`, `log_bytes` and `put` are the decoding of a log, the check
-- of its signature, its encoding and the call of the remote; `author` and `decode` in the checks of
-- a remote are the subject of a log's author and the decoding of a peer id, and `message` is the
-- text of an error. The order in which the goroutines of a parallel resolver answer is an argument.
--
-- Not modelled: structures with fields that are not exported, paths into the private fields of a time and into maps of values other than texts
-- and `interface{}`, the flatbuffer encoding of logs, signatures and encryption, the serialized bytes of
-- the dataset cache, and the parts of Qri that are mainly input and output: the HTTP API, the
-- command line, peers, registries, file systems, and the engines that run SQL and transforms.
pub mod Base
pub mod Access
pub mod Oplog
pub mod Dsref
pub mod Logbook
pub mod Event
pub mod Transform
pub mod Sql
pub mod Dscache
pub mod Stats
pub mod Repo
pub mod Api
pub mod Profile
pub mod Sync
pub mod Friendly
pub mod Fill
pub mod Registry
pub mod Fsi
