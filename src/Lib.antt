-- ===== src/Lib.antt =====
-- A verification library for babar, a typed driver for PostgreSQL.
--
-- The program. A session (crates/core/src/session) owns a task, the driver, which alone reads and writes
-- the socket. The calls of a session put commands into the inbox of the driver, each with a channel for
-- its one reply. The driver takes a command only when none is in flight, writes the messages of that
-- command, and feeds each message of the server to the command in flight until ReadyForQuery answers it.
-- The messages come out of a decoder (crates/core/src/protocol), which cuts them off a buffer of bytes.
-- Beside the driver a session keeps a cache of prepared statements and the types it has resolved. A pool
-- (crates/core/src/pool.rs) keeps sessions that no caller has, and lends them. The migrator
-- (crates/core/src/migration) pairs SQL files, reconciles them with the rows of a state table, and plans
-- what to apply or to roll back.
--
-- The files.
--   Prelude: tests on numbers, lists under native lengths, results with `?`, association lists.
--   Rust: what the program uses of the standard library: integers in big-endian order, UTF-8, decimals.
--   Error: crates/core/src/error.rs, and clone_for_caller of session/driver.rs, in Defs; proved in
--     Fields and Context.
--   Types: the record and the constructors of crates/core/src/types.rs; Known has the built-in types by
--     OID.
--   Protocol: crates/core/src/protocol. Backend is backend.rs, Frontend is frontend.rs, and codec.rs is
--     Reader (the readers of fields), Decode (decode_body, one function for each arm) and Frame
--     (decode). Wire describes what a server sends, as encoders that know nothing of the decoder; Fields
--     and RoundTrip, Framing and Termination prove the decoder against it.
--   Session: Cache is session/cache.rs and session/type_registry.rs, proved in Cache/Handles,
--     Cache/Names and Cache/Lifetime. Driver is session/driver.rs: State has Command, Pending and the
--     state of the loop, Advance has the arms of on_message, one function for each command, and Run has
--     start, on_message, fail_pending and run. Tally counts what is owed to each channel; Replies,
--     Settled and Outcomes are the proofs. Startup is session/startup.rs: the dialogue as a state
--     machine, proved in Guarded, and the reading of messages in Chunks. Stream is session/stream.rs,
--     proved in Rows. Of session/mod.rs, DynamicTypes is resolve_type_oids, proved in Registry with
--     Growth, and RowShape is validate_row_description.
--   Auth: crates/core/src/auth. Bits has the operations on bytes, Scram is scram.rs and Md5 is md5.rs;
--     Server is the server of the RFCs, apart from the client's code; Verifier, Messages and Exchange
--     are the proofs, and StandIn a small instance of the parameters.
--   Migration: crates/core/src/migration. Filename/Grammar and Filename/Accepted prove the names of
--     files. Errors, Checksum, Filename and Model are error.rs, checksum.rs, filename.rs and the data of
--     model.rs; Directives is MigrationScriptMetadata::parse of model.rs. Catalog is from_assets of
--     plan.rs with the assets of source.rs, proved in Catalog/Sorted, Catalog/Origin and Catalog/Built;
--     Plan is the rest of plan.rs, Table is table.rs, Statements and Runner are runner.rs with what
--     mod.rs passes on, proved in Runner/Batches, Runner/Steps and Runner/Traces. Plan/Reconcile says
--     when a history is accepted, Plan/History what the steps of a plan do to the state table, and
--     Plan/Applying and Plan/RollingBack are the theorems on the two planners.
--   Pool: crates/core/src/pool.rs. Config has the configuration, the errors that break a connection and
--     the age of an idle session; Tasks has the state behind the lock and one function, advance_task,
--     for what a task does between two places where it waits; System runs any number of tasks in any
--     order. Proved in Slots, Sessions and Closing, by the induction of Invariants.
--   Transaction: crates/core/src/transaction.rs with the scopes of pool.rs, for a closure that is a tree
--     of calls and savepoints. Proved in Scopes and Endings, with the lemmas of Nesting.
--   Codec: crates/core/src/codec. Interface is the traits with the laws of a codec; Primitive, Integers
--     and Scalars are primitive.rs, Nullable and Tuple nullable.rs and tuple.rs. Lawful proves the laws.
--     BitString is the value of bits.rs.
--   Copy: crates/core/src/copy.rs, proved against the format of Reader in RoundTrip.
--   Query: Fragment is crates/core/src/query/fragment.rs; Pieces and Numbered prove its placeholders.
--   The files Tests apply the theorems to concrete inputs.
--
-- The reading of the code. A byte and an unsigned integer is a native number, with the wrap-around of
-- its width written out where the code can reach it; a signed integer is a ℤ. A String and a path is the
-- list of its bytes. An error carries what its message is made of. A HashMap is an association list
-- without repeated keys. The driver runs on a list of events: a caller sends a command, the loop takes
-- one, a message arrives, the socket fails or ends, all senders are gone; the results of writing and
-- flushing are part of an event. The pool runs on a list of events: a task starts, time passes, or a
-- task goes on with an answer, or is dropped. A duration is a number of nanoseconds. A reply is a pair
-- in a list, by the number of its channel.
--
-- Fuel. The decoder's loops over the fields of an error and the names of SASL mechanisms take the length
-- of what is left as fuel, and each turn takes a byte at least; no buffer uses it up. A number of 64
-- bits is printed with twenty digits of fuel, as 10 ^ 20 is above 2 ^ 64. Trimming a line takes its
-- length as fuel, and each turn takes a byte at least.
--
-- Parameters. The encoder of the postgres-protocol crate is a function that says which messages it
-- refuses, and with which error. The hash of a query text and the SHA-256 digest of a script are
-- functions, as are the digests and Base64 of the authentication, with their documented behaviour as the
-- hypothesis IsCrypto. To the migration runner, the server is a function of the statements sent so far,
-- as it is to a transaction, where what becomes of a statement may also be that it never reaches the
-- driver, and to the resolution of types, where it is a function of the queries asked so far. The
-- standard library's reader of floating-point seconds is a function, as is that of floating-point
-- columns.
--
-- Not modelled: sockets, TLS and telemetry; the other calls of session/mod.rs and prepared.rs; the
-- codecs of bit strings, arrays, ranges and other composite values, and those over types of other
-- crates; reading directories; the macros. Of frontend.rs, what each message carries is modelled and its
-- bytes, which another crate writes, are not.
pub mod Prelude
pub mod Query
pub mod Rust
pub mod Error
pub mod Types
pub mod Protocol
pub mod Session
pub mod Migration
pub mod Auth
pub mod Codec
pub mod Copy
pub mod Pool
pub mod Transaction
