-- ===== src/Lib.antt =====
-- desync: content-defined chunking, the casync formats for archives and index files, and the stores
-- of chunks.
--
-- A blob is cut into chunks at boundaries that depend on its content (chunker.go). A chunk is named
-- by its digest (chunk.go) and kept in a store (store.go), in a storage format that converters make.
-- An index (index.go) lists the chunks of a blob; it is written and read with the elements of the
-- casync format (format.go, const.go) over little-endian numbers (reader.go, writer.go). Stores are
-- put together from other stores: storerouter.go, cache.go, failover.go; chunkstorage.go stores every
-- chunk once.
--
-- The modules:
--   Common    names and lemmas that all share; `Outcome` is what a call gives: a result, an error, a
--             panic, or the end of the fuel.
--   Stream    reader.go and writer.go. `Reader` is a function on the bytes still to be read.
--   Format    `FormatDecoder` (Decoder, with the cases of `Next` in Bodies), `FormatEncoder`
--             (Encoder), the element types (Elements), const.go (Constants), and the file modes of
--             filesystem.go (Mode). WellFormed says which elements a file holds.
--   Index     `IndexFromReader`, `WriteTo` and `Length` of index.go.
--   Chunk     chunk.go, coverter.go and nullchunk.go.
--   Store     `StoreRouter` (Router), `Cache` and `RepairableCache` (Cache), `FailoverGroup`
--             (Failover) and `ChunkStorage` (Storage), over the interfaces of store.go (Defs): a
--             store is a record of functions on the state of everything behind it.
--   Chunker   chunker.go: the operations on 32-bit words and the constants of `NewChunker` (Words),
--             the tables (Table), `Hash` (Hash), the reader (Source), `Chunker` (Defs), `Advance`;
--             and the loop of `ChunkStream` of index.go (Loop).
--   Parallel  make.go: the workers (Defs) and the steps that they and the main routine take (System).
--             Invariant says which worker goes on with the index; Sync, Local, Work, Neighbour,
--             Leaving and Assembling are about the steps, Reachable about every run. Zeroes, Accurate,
--             Skipping and Sound are about the bytes of the chunks; Whole and Progress conclude, and
--             Schedule runs the steps in a given order.
--   ReadSeeker
--             readseeker.go: opening an index and seeking in it (Defs), and reading (Reading).
--             Position and Moves are about seeking, Ranges and Contents about the bytes read.
--   Protocol  protocol.go (Defs) and the server of protocolserver.go (Server): a session is the bytes
--             still to be read and those written. Messages and Rounds are about one message and one
--             round of the server, Session about the two sides together.
--   Dedup     dedupqueue.go: a relation of steps of any number of callers (Defs), what holds in every
--             state they reach (Invariant, Steps), and what follows (Flight).
--   Files     open files: a size and a function from positions to bytes.
--   Sparse    sparse-file.go: the loader (Defs), the range of chunks (Range), what loading does
--             (Load, Read) and what a failed load leaves (Failure).
--   Verify    verifyindex.go.
--   Copy      copy.go.
--   Assemble  `writeChunk` of assemble.go.
--   Seeds     seed.go, fileseed.go, nullseed.go (Defs), sequencer.go (Sequencer) and selfseed.go
--             (SelfSeed), and writing a segment of a file into the target (Writing). `Seed` is
--             what the sequencer asks of a seed, and `IsFaithful` in Matches what it relies on.
--   Tests     the theorems at concrete inputs.
--
-- Numbers are natural numbers; uint64 and uint32 values wrap where the code computes with them. A
-- stream of bytes is a list. The digest, the compression and the floating point of
-- `discriminatorFromAvg` are parameters; where a theorem needs it, decompression undoes compression,
-- and a digest has 32 bytes. `Source` is what the calls of `Read` will give; an error comes without
-- data.
--
-- Fuel: the plan of an index and the batches of verifyindex.go have no more rounds than there are
-- chunks; `add` of selfseed.go takes an entry out of its map in each round; the loop of the server
-- takes a message off the stream in each round, of at least 16 bytes; the loop over a chunk table has
-- more rounds than there are bytes left, and a round takes at least eight; the loop of `ChunkStream`
-- needs more rounds than there are bytes in the stream, since a round takes at least one; the loop of
-- `Read` of readseeker.go copies at least one byte in a round, or ends.
--
-- Where a context is cancelled, the loops of `ChunkStream`, `Copy` and `VerifyIndex` end without an
-- error; at which of their rounds that is seen is a parameter (`cancelled`). All other contexts are
-- not cancelled. The chunker computes with 64-bit sizes and compares with them as int; most theorems
-- about it are for a largest size of which ten times is below 2 ^ 63, so that nothing wraps.
--
-- Not modelled: goroutines and locks, except in Dedup and Parallel, so each object is used by one
-- caller at a
-- time; that the slice of `Next` shares the buffer; error messages; makeGoodbyeBST of format.go;
-- the other queues (writededupqueue.go, swapstore.go), the workers of
-- assemble.go, `WriteInto` of nullseed.go, `Validate` of sequencer.go, the state file of
-- sparse-file.go, archives of directories (archive.go, tar.go,
-- untar.go) and chop.go, which would stand on the modules here; and remote stores, file
-- systems, mounts, progress bars and the command line, which are input and output.
pub mod Common
pub mod Stream
pub mod Format
pub mod Index
pub mod Parallel
pub mod Assemble
pub mod Chunk
pub mod Store
pub mod Chunker
pub mod ReadSeeker
pub mod Copy
pub mod Dedup
pub mod Files
pub mod Protocol
pub mod Seeds
pub mod Sparse
pub mod Verify
pub mod Tests
