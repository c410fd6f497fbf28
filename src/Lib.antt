-- ===== src/Lib.antt =====
-- The JULEA storage framework: a model of the client library's core and the theorems about it.
--
-- A client of JULEA collects operations in a batch. Executing the batch groups neighbouring
-- operations and hands each group to the function of its kind. A write or read of a distributed
-- object asks the object's distribution how the byte range is spread over the object servers, and
-- for each piece talks to one server: it builds a message, sends it on a pooled connection, and
-- reads the reply. The semantics of a batch say when its operations take effect, and travel to the
-- servers in the header of each message but those for the database.
--
-- The files and the code they model:
--   Common            numbers, machine words, lists, division, and ranges of a memory
--   Bson              the calls of libbson, as an interface
--   Distribution      lib/core/jdistribution.c: Scheme and Piece (the contract of a distribution),
--                     RoundRobin, SingleServer and Weighted (lib/core/distribution/), Dispatch (the
--                     vtable), Serialize (documents), Loop (the callers' loop over a range)
--   DistributedObject lib/object/jdistributed-object.c: the handle, and the loops of write_exec and
--                     read_exec
--   Semantics         lib/core/jsemantics.c: settings, templates; Parse is new_from_string
--   Message           lib/core/jmessage.c: the buffer; Bytes (integers and texts), Reserve
--                     (add_operation), Wire (semantics as bits), Stream (read and write),
--                     Operations (messages built operation by operation), Iteration (what the two
--                     iterators over the servers' replies share)
--   Batch             lib/core/jbatch.c: Runs (the grouping), OneByOne (its effect),
--                     Session (deferred execution)
--   List              lib/core/jlist.c, jlist-iterator.c: the linked list on a heap of elements; Chain
--                     (cells linked in the heap), Laws, Delete, Actions
--   ConnectionPool    lib/core/jconnection-pool.c: one server's pool under interleaved threads; Bound
--                     (the counter), Ownership (who has a connection)
--   Cache             lib/core/jcache.c: buffers up to a size
--   MemoryChunk       lib/core/jmemory-chunk.c: a block handed out from its start
--   Statistics        lib/core/jstatistics.c: the counters of a server's thread; Tool and
--                     Report are tools/statistics.c, which adds up those of all servers
--   Uri               what lib/object/jobject-uri.c and lib/kv/jkv-uri.c share; Object/Uri and Kv/Uri
--                     are the two
--   KvBackend, ObjectBackend  include/core/jbackend.h: what a backend offers, as interfaces
--   Kv                lib/kv/jkv.c, jkv-iterator.c: the key-value client. Requests (its messages),
--                     Remote and Get (put, delete and get through the server), Iterator,
--                     Stored (a session with a backend that stores what it is given)
--   Object            lib/object/jobject.c: the object client. Chunks (a write in operations),
--                     Requests, Arrival, Remote, Reply and Unopened (writes through the server),
--                     Read (Loop: the server's replies; Replies: what the client makes of
--                     them), Names (create, delete, flush, status), Iterator (jobject-iterator.c)
--   Server            server/loop.c, jd_handle_message: Kv and KvIteration (key-value requests),
--                     Object (writes), ObjectRead, ObjectNames (create, delete and flush),
--                     ObjectStatus, ObjectIteration, Statistics, Database (calls of the
--                     database), Answers (what a reply holds)
--   BackendOperation  lib/core/jbackend-operation.c: the parameters of a database call in a message;
--                     Sending, Receiving (from_message_static) and Taking (from_message)
--   Database          lib/db/jdb-internal.c: calls of the database through a server. Requests,
--                     Replies, Alone and Together (what the server does without and with batch
--                     atomicity), Remote, Operations (what is added to a batch)
--
-- State is passed explicitly: an operation `j_x_op(x, ...)` is a function `op` from the record for
-- `JX` to the new record and the result. A fault (a failed assertion, a division by zero, a read of
-- memory that is not there) is `none`. Machine words wrap where the code's do: `u32`, `u64`.
--
-- In ConnectionPool the state is stepped by a relation: each atomic access of a thread is a step.
--
-- Loops are structural, but for the one over `j_distribution_distribute`, which runs on a number of
-- rounds: `length + 1` rounds are enough for a range of `length` bytes, as every round but the last
-- takes at least one byte. The loops over the elements of a linked list run on
-- rounds too, and one more round than there are elements is enough.
--
-- Parameters stand for what is not in the repository: libbson (Bson, and `valid` for
-- `bson_init_static`), the streams of GIO
-- (Message/Stream), the allocator's memory, random numbers, `pow(10, floor(log10(n)))` of libm
-- (Message), `g_snprintf` of an index (Distribution), and `g_strsplit` and `g_ascii_strtoull` of GLib
-- (Uri, Object/Uri, Kv/Uri). What an exec function does to the servers is a parameter of Batch, and
-- so is the operation cache. The servers' object backends are a function
-- from places to bytes, where a distributed object is modelled. Where a client or the server calls a
-- backend, the backend is a record of functions on its own state, of which nothing is assumed but in
-- Kv/Stored, where it is one that stores: a theorem says that the server calls its backend as the
-- client would have called its own.
--
-- The exec functions of Kv and Object take the operations of one call as a list, and their results
-- are values where the code writes through pointers. A request that is sent is related to the one
-- that the server handles by `Arrived` (Message/Stream/Arrival), which the stream theorems establish.
--
-- Not modelled: tracing, freeing of memory, the background threads of a batch, the configuration,
-- the credentials and the loading of backends, collections and items, the rest of the
-- database layer (schemas, entries, selectors and iterators as documents, the local branch
-- of the calls, SQL), the HDF5 layers, the backends with the unwrap functions of jbackend-operation.c,
-- the server's answer to a ping and its threads, the iterators on a backend of the client's own, the
-- command line tools but the one named above, FUSE, and the benchmarks.
pub mod Common
pub mod Bson
pub mod Semantics
pub mod Message
pub mod Distribution
pub mod DistributedObject
pub mod Batch
pub mod ConnectionPool
pub mod Cache
pub mod MemoryChunk
pub mod KvBackend
pub mod Server
pub mod Kv
pub mod Statistics
pub mod ObjectBackend
pub mod Uri
pub mod Object
pub mod BackendOperation
pub mod Database
pub mod List
