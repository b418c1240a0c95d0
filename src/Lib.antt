-- ===== src/Lib.antt =====
-- A model of ardb, a server that speaks the protocol of Redis and keeps its data in an ordered
-- key-value store, and the theorems about it.
--
-- The parts and how they interact. Every datum of a key or a value is a `Data`. A `KeyObject` and a
-- `ValueObject` are written into a `Buffer` and read from one; the engines keep the encoded keys in the
-- order of `compare_keys`, which decodes them again. An engine that can merge stores operations in place
-- of values, which are joined and applied later. A client's request goes through `Call`, which refuses
-- it, queues it in the client's transaction, or hands it to a handler; EXEC calls the queued ones. A
-- write marks the clients that watch its key, and is appended to the replication log. PUBLISH writes a
-- message to the contexts that the tables of subscribers have.
--
--   Prelude         what the files share: library names, lists, bits, integers over the native numbers
--   Buffer          src/common/buffer/buffer.hpp, class Buffer: the block, its length and the two
--                   indices. `Buffer.Readable` is its abstract view, the queue of the unread bytes.
--   ByteIo          readers and writers as the `Encode` and `Decode` methods are, and what it means that
--                   one parses or writes given bytes (`Parses`, `Writes`)
--   BufferHelper    src/common/buffer/buffer_helper.cpp: varints and the zigzag code (`Varint`), the
--                   16-bit fixed integer (`Fixed`)
--   StringHelper    string2ll and ll2string of src/common/util/string_helper.cpp, digits10 of
--                   src/common/util/math_helper.cpp
--   Data, StreamId  src/types.hpp and src/types.cpp
--   KeyType, KeyObject, MetaObject, ValueObject
--                   src/db/codec.hpp and src/db/codec.cpp
--   RangeSpec       ZLexRangeSpec of src/db/codec.hpp and src/db/codec.cpp
--   Comparator      compare_keys of src/db/engine.cpp
--   Merge           src/command/merge.cpp, with the handlers of src/command/t_string.cpp,
--                   src/command/t_hash.cpp and src/command/keys.cpp
--   Tree            the ordered sets and maps of the code (`TreeSet`, `TreeMap`), as ordered lists
--   Context         src/context.hpp: the contexts of the clients, and the server's tables
--   Transaction     src/command/transaction.cpp: MULTI, EXEC, DISCARD, WATCH and UNWATCH, and the marks
--                   that a write leaves
--   PubSub          src/command/pubsub.cpp
--   Command         src/db/db.hpp and src/db/db.cpp: the table of commands and the guards of `Ardb::Call`
--   Call            src/db/db.cpp: `Ardb::Call` and `Ardb::DoCall`, the lookup of commands, the part of
--                   `Ardb::FreeClient` on watched keys and subscriptions
--   Swal            src/repl/swal.c: the replication log, a ring file with a ring in memory
--   Examples, ServerExamples, SwalExamples, RangeExamples
--                   each theorem at a concrete input
--
-- How the code is written here. A function of the model has the name of the code's function in snake
-- case. A byte is a number below 256, a w-bit integer its bit pattern below 2 ^ w, with the wrap-around
-- written out; a comparison's `int` is an integer. A method takes the object and gives it back. A reader
-- gives `none` where the code returns false; where the code aborts, the result is `none` as well. A
-- double is its bit pattern; what the code does with doubles is the record `Data.Float`, an argument.
-- Copies of strings share nothing, so a borrowed string (`cstr`) and an owned one (`sds`) differ in the
-- tag only; that the bytes of a borrowed one live long enough is not modelled. Allocation succeeds.
--
-- The server is a store of contexts by their addresses, the tables of watched keys and of subscribers,
-- which hold such addresses, the list of what was written to clients, and the data. EXEC's local context
-- is one at the address `transc_ctx`, an argument. A request is a call and the `ClearState` after it
-- (src/network.cpp). Sets and maps are ordered as `operator<` orders their
-- elements. The handlers of the commands on data are a record of functions, an argument; they get the name
-- space and the flags of the context and give them back, and what they do to watched keys is the list of
-- keys that they touch. `stringmatchlen` is an argument as well. What the
-- locks enclose is one step.
--
-- Bounds and fuel. `grow_capacity` runs on fuel, the capacity asked for, which suffices
-- since every round at least adds one. A buffer is asked for at most 2 ^ 63 bytes, so that its doubling
-- does not wrap around (`grow_size_t` has the wrap-around); the offset and the length that `wrap` gets are
-- below 2 ^ 31. The varint loops run over the ten or five bytes of their arrays,
-- `decimal_loop` over twenty digits, the most that 64 bits have. The loops of `swal_append` run on fuel,
-- the number of bytes, which suffices since each round writes one at least. `AdvanceReadIndex` takes an
-- `int`, so that the codecs are modelled for strings below 2 ^ 31 bytes. The host is little-endian.
--
-- Not modelled: the storage engines and other third-party libraries, the network, threads and what locks
-- do beyond making a step one, the commands on data beyond their merge handlers, blocked keys, monitors,
-- statistics, the change of `authenticated` by AUTH, the replication of masters and slaves, Lua scripts.
-- Of the ranges only `ZLexRangeSpec` is modelled.
-- The handlers of SETRANGE, SETBIT and PFADD are an argument of `merge_operation`. Of the replication log
-- the opening, syncing and closing of files are left out; a `write` to its file writes all that it is
-- given, and its offsets stay below 2 ^ 64.
pub mod Prelude
pub mod Buffer
pub mod ByteIo
pub mod BufferHelper
pub mod StringHelper
pub mod Data
pub mod StreamId
pub mod KeyType
pub mod KeyObject
pub mod MetaObject
pub mod ValueObject
pub mod Comparator
pub mod Merge
pub mod Examples
pub mod Tree
pub mod Context
pub mod Transaction
pub mod PubSub
pub mod Command
pub mod Call
pub mod ServerExamples
pub mod RangeSpec
pub mod RangeExamples
pub mod Swal
pub mod SwalExamples
