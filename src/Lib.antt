-- ===== src/Lib.antt =====
-- The client SDK of TakyonDB (src/sdk/client): the region table of the shared arena, the record
-- layout and its proxies, the check of the log, and the in-memory relational layer with its SQL.
--
-- The relational layer keeps tables of rows by primary key. `RelationalDatabase` holds tables by
-- name, `RelationalTable` holds the rows and the secondary maps, a `where` clause is compiled into
-- checks, and a `Transaction` buffers writes and applies them. The record schema and the region
-- table say where the client finds bytes in an arena that it shares with the engine.
--
-- Prelude, Js: shared helpers, and what the code uses of the language: texts as lists of UTF-16
--   units, `Set` and `Map` as lists in insertion order, `DataView` on a list of bytes, cells of a
--   row as one data type. The numbers are a parameter `JsNumber` with the operations called on
--   them, and `EqLaws` and `OrderLaws` state what is used of `===` and of `<`.
-- Layout: src/sdk/client/layout.ts. `Regions`, `validate_regions`, `read_regions`, `write_regions`.
-- RecordSchema: src/sdk/client/schema.ts. `compile_record` is the constructor of `TakyonSchema`.
-- Relational.Column, .Schema, .Keys, .RowCheck: types.ts, column.ts, schema.ts, utils.ts and
--   codec.ts of src/sdk/client/relational. `compile_schema` is the constructor of
--   `RelationalSchema`, `encode_pk` is `encodePk`, `validate_row` is `validateRow`.
-- Relational.ErrorNames: errors.ts, the class that each `throw` of the modelled code names.
-- Relational.Filter: filter.ts. `matches_where` is `matchesWhere`; LIKE goes through the source
--   text of the regular expression, which is read back and run by a small matcher. `matches_cached` is
--   the same call through the cache of compiled clauses.
-- Relational.Table: table.ts. A method that changes the table returns the new one; `throw` is the
--   constructor `err` of `Result`.
-- Relational.Database, .Transaction: database.ts, persist.ts and transaction.ts. The table that
--   `table` hands out is a reference: a write through it is `with_table`.
-- Relational.Query, .Aggregation, .Join: query.ts, aggregation.ts and join.ts. `all` is
--   `QueryBuilder.all`; `sort` is a stable insertion by the comparison function.
-- Relational.Constraints: constraints.ts, validator.ts and secondary_index.ts.
-- Relational.Mirror: mirror.ts. The native bindings are the parameter `TakyonBindings`, functions on
--   a state of the engine; `IndexLaws` states what is documented of the index, which keeps a key as
--   the bytes of its UTF-8 form. Runs of calls are compared with a map in .Runs.
-- Relational.SecondaryNative: secondary_native.ts, on the same bindings. A number comes as the
--   integer that it is, if it is one.
-- Relational.Sql, .Selection, .Executor: sql.ts and executor.ts. The regular expressions of the
--   parser are patterns of Js.Regex, run by its matcher; `execute_sql` is `executeSql`.
-- Relational.Pushdown: pushdown.ts. The native kernels are a parameter that may be missing or throw.
-- Relational.CatalogRecord: catalog_record.ts, the codec, and in .Store the store of its records in
--   the arena. `Utf8` stands for the platform's encoder and decoder.
-- Proxy: src/sdk/client/proxy.ts. A `Machine` is the mapped memory and what else the engine keeps;
--   the native calls take and leave one. `create_proxy`, `read_property` and `write_property` are
--   `createProxy` and the two traps. `QueueLaws` states what is documented of the calls.
-- Relational.CatalogStore: catalog_store.ts. The file system and JSON are parameters, `FileLaws`
--   states what is documented of the files. The identities of new byte arrays are passed in.
-- Collections: src/sdk/takyon.ts. `insert`, `find`, `update`, `upsert` and `delete` are the methods
--   of `Collection`, `allocate_record_offset` is one of `TakyonDB`. `IndexBindings` are the calls on
--   the index, and `IndexLaws` states what is documented of it.
-- Scrub: src/sdk/client/scrub.ts. CRC-32 is computed, not assumed.
-- Tests: sample data, with natural numbers as the numbers, and each theorem at a concrete input.
--
-- A loop is a structural recursion on the list that the code runs over. Only the walk of `Scrub`
-- takes fuel, the length of the buffer: each step passes at least the header of a record, so more
-- is never needed.
-- Not modelled: the engine in Zig, its C++ bindings and the server, which are other programs;
-- src/sdk/client/addon.ts and the re-exports; benchmarks, examples and scripts. Of proxy.ts and
-- takyon.ts, clients that race on a word of the memory are not modelled: each call runs alone.
pub mod Js
pub mod Layout
pub mod Prelude
pub mod Proxy
pub mod Collections
pub mod RecordSchema
pub mod Scrub
pub mod Relational
pub mod Tests
