-- ===== src/Lib.antt =====
-- nix-sandwich: a local substituter for Nix that downloads binary deltas.
--
-- The program answers Nix's requests for store paths. For a path it picks a base: a store path that
-- is there already and has a similar name. A remote part, the differ, downloads both as nars, computes
-- a delta, and the substituter applies the delta to the base. HTTP, JSON, the file system and external
-- programs are parameters.
--
-- The parts of the program and the files that model them (paths from the repository's root):
--   catalog.go        Catalog. Names: findDashes, matchLen. Patterns: the regular expressions, as
--                     lists of pieces, and matchAny. Item and Index: btItem, itemLess, and the btree
--                     behind an interface (a sorted list without duplicates). FindBase: findBase.
--                     Trees: the trees behind their pointers, with Load, Clone and Store. Update:
--                     addBatch, set and update, with the trees and the cache as state.
--                     Start: newCatalog and the loop of start.
--   syschecker.go     SysChecker. Systems: systemFromLibc, systemFromGrub. Presence: localPresence,
--                     listingPresence. Cached: getCached, getSysFromPathDeps, with the cache passed
--                     along. Batch: getSysFromStorePathBatch, getSysFromNarInfo.
--   narexpander.go    NarExpander. Varint and Xz: readVarint, parseXz. Entries: what the reading side
--                     sends as a sequence, and writeEnts. Expand and Collapse: readAndExpand and
--                     readAndCollapse with what they call. Restored: both directions together. Filter:
--                     ExpandNar and CollapseNar on bytes. Actions: what the reading side waits for
--                     and sends. Pipeline: the goroutines of ExpandNar and CollapseNar in steps, with
--                     the channel and the semaphore.
--   algo.go           Algo. Atoi: strconv.Atoi. Pick: getAlgo, pickAlgo. Delta: Create and Expand of
--                     both algorithms, as the arguments of the programs and the order of the errors.
--   differ.go         Differ. Download: downloadNar and downloadNarFromInfo, with the temporary files
--                     as state. Wire: the parts of the answer. Server: the handler.
--   subst.go          Subst. Types: the structs. NarInfos: getNarInfoCommon. Recents: getRecent,
--                     putRecent and the lookup of getNar. Nars: getNarCommon, which reads the parts of
--                     the differ's answer in order and applies the delta; an error carries what the
--                     client had been sent by then. Site.Streamed: errors behind the nar. Site: the
--                     handlers behind serve, with the recents as state and the records that they log;
--                     it uses findBase as a function. Site.Run: one request after the other. Site.Overlap:
--                     requests whose records are written later. Site.Direct: request. Idle: the
--                     listeners, alive and exitOnIdle, with the clock as a number.
--   simulate.go       Simulate: the lines of the files, the requests and the counters.
--   fw.go             the status that a client gets, in Subst.Site; its calls of alive, in Subst.Idle.
--   analytics.go      Analytics. Records: the lines of the log. Tally: the loop of analyzeLog, with the
--                     records that are shared as a store. Report: its counts and sums. Segments:
--                     itoaWithSegments. DiffStats stands in Algo.Stats.
--   config.go         Start. Config: loadConfig, makeDifferUrl of subst.go and the path of the differ.
--   main.go           Start.Main: what runs. cfgToNarExpanderOptions stands in Start.Config, and the
--                     defaults of its options in NarExpander.Options.
--   util.go           ioCopy stands in NarExpander.Entries, panicIfTrue in Start.Main.
--
-- Transfer puts the differ and the substituter together: Setting says what upstream, the filters and
-- the programs must do, Sent is the differ's part, Received the substituter's, Whole the two requests of
-- Nix; Refused is about answers with an error.
--
-- External holds the interfaces of third-party code: the LRU cache with its laws, nixbase32, the
-- struct of a narinfo, the tools of the nar expander, requests over HTTP, temporary files and the runs
-- of xdelta3 and zstd. Prelude holds what all parts share: Go's results (a value, an error or a
-- panic), byte strings, lists, decimal numbers, and the package path. Samples runs the definitions on
-- small inputs.
--
-- Numbers: a Go int, int64 or uint64 is a natural number. Where the source can wrap, the model says so
-- with `% 2 ^ 64` or `% 2 ^ 32`, and a negative number that a size can turn into is one of 2 ^ 63 or
-- more; a setting that may be negative is one of the integers of Algo.Atoi. The loops recurse on lists
-- or on a number they count; `Prelude.Decimal` has fuel of the value and one, and a number has no more
-- digits.
--
-- Not modelled: the locks and semaphores but for that of the nar expander (what they grant is a
-- parameter), singleflight, the pipes between processes (a program that waits for another is not
-- seen), what a filter of the differ has given before it fails, that the requests of simulate.go
-- overlap, the file of the log, the times and ratios of analytics.go, and the parsers of flags and of
-- the environment.
pub mod Prelude
pub mod External
pub mod Catalog
pub mod SysChecker
pub mod NarExpander
pub mod Algo
pub mod Subst
pub mod Analytics
pub mod Differ
pub mod Transfer
pub mod Simulate
pub mod Start
mod Samples
