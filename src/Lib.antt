-- ===== src/Lib.antt =====
-- A verification library for reveldb, an HTTP server that stores key-value pairs in LevelDB.
--
-- The program. `src/server.c` starts event loops (src/evhttpx, a copy of the libevhtp library) that
-- call the handlers of `src/rpc.c` (/rpc/...) and `src/rest.c`. A handler checks its request, finds
-- the database that the request names in a registry (`src/reveldb.c`, a red-black tree keyed by the
-- name), calls LevelDB through the instance of that database (`src/engine/xleveldb.c`) and sends a
-- JSON answer. Iterators, snapshots and write batches stand in registries of the same shape
-- (`src/iter.c`, `src/snapshot.c`, `src/writebatch.c`). Values are edited in growable strings
-- (`src/tstring.c`); numbers are parsed by `src/utility.c`.
--
-- The files.
--   Prelude     numbers, tests, lists, signed integers and C strings (strcmp, strlen).
--   TString     src/tstring.c: `TString` is `struct _tstring_t`, its block a list of bytes. The
--               arithmetic on `unsigned int` wraps at 2 ^ 32. TString/Ops holds an operation for each
--               function of the file but those on Unicode characters, on case and on formats.
--   Registry    the search and insertion loops of src/reveldb.c, src/iter.c, src/snapshot.c and
--               src/writebatch.c, which are the same up to the type of the entry; Adjust is a write
--               through the pointer that a search returns.
--   Utility     src/utility.c: safe_strtoll, safe_strntoll, safe_strtoul, safe_strtol, safe_strtoull
--               and safe_urldecode; and the text that sprintf prints for a `long long`.
--   Engine      LevelDB: `LevelDb` has the calls that the handlers make, `Contract` what its
--               documentation says of reads and writes; Engine/Views has the same for snapshots,
--               iterators and write batches.
--   Rpc         src/rpc.c. Server is the state that the handlers share: the registries, the
--               configuration and a heap of instances, each with the error that calls leave in it
--               (`instance->err`). A handler takes the server to a server and an answer: a status and
--               a body, or a fault (a failed assert, a NULL pointer that is read, a buffer that
--               overflows). Checks are the tests that open the handlers, Reply and Bodies the builders
--               of answers. Store, Update, Counter and Swap have the handlers on one key, Dispatch
--               their table; Many and Mget /rpc/mset, /rpc/mdel, /rpc/mget and /rpc/mseize; Snapshot
--               and Batch the handlers under /rpc/snapshot and /rpc/batch; Cursor and CursorRead those
--               under /rpc/iter; Range /rpc/range and /rpc/remove; Select the handlers that compare
--               every entry, by Distance (`_rpc_levenshtein`) or by a regular expression; Admin the
--               reports on the server and on a database; Database /rpc/new, /rpc/destroy and
--               /rpc/repair, where what LevelDB's calls on files return is an argument.
--   Xconfig     `_xconfig_strip_comment` of src/xconfig.c, the comments of the configuration file,
--               on a list of bytes; the text is shorter than 2 ^ 31 bytes. A write behind the
--               block of the output is a fault.
--
-- Bounds. The loop of `_nearest_power` runs on 32 rounds of fuel, one for each bit. `digits` runs on
-- one round more than the number, which divides by ten in each. The loops over an iterator run on
-- fuel that is an argument of the handlers (/rpc/range, /rpc/remove, /rpc/similar, /rpc/regex and
-- their kin); more fuel than entries is enough. The other loops are structural.
-- A size of 2 ^ 31 bytes and more does not fit the `int32_t` parameters of src/tstring.c, and the
-- theorems on edited values ask for less. `long long` and `long` have 64 bits.
--
-- Not modelled: the HTTP and JSON libraries, LevelDB, the regular expressions, the allocator, the
-- identifiers of uuid_create and the balancing of the trees, which are parameters (`Env`, `CJson`,
-- `LevelDb`, `Text`, `Balancer`) or not looked at; src/rest.c; the rest of src/xconfig.c; logging.
-- A read past the end of a key, as `_rpc_levenshtein` makes it, gives what stands there, which is a
-- parameter; an entry that is freed is taken to keep its contents until the next statement. Where a
-- handler passes the address of an `unsigned int` as `size_t *` to LevelDB, the four bytes that are
-- written behind it are taken to hurt nothing, and the length to fit. A database that did not open
-- has the handle `null_store`, on which LevelDB does not define its calls. Requests are served one
-- behind the other, as one event loop serves them; the threads of several event loops are not
-- modelled. A string argument that points into the string that it is inserted into is not modelled
-- either, nor is an allocation that fails.
pub mod Prelude
pub mod TString
pub mod Registry
pub mod Utility
pub mod Xconfig
pub mod Engine
pub mod Rpc
