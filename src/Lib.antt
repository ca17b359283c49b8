-- ===== src/Lib.antt =====
-- tyrdbs: a database of sorted slices on disk, and the pieces it is made of.
--
-- A write goes into a slice: `slice_writer` fills nodes of 8128 bytes through `node_writer`,
-- compresses each and remembers where it went as a packed `location`. A read loads nodes again and
-- searches them by `node::lower_bound`. Time series are kept by the gorilla writer and reader, on
-- streams of bits. The coroutine engine below schedules through ring queues.
--
-- The modules, and the code they model:
--
-- Prelude: the names that the modules share, lists over native numbers, bit operations, 64-bit
--   words, and memory as bytes by address.
-- Location: tyrtech/tyrdbs/location.cpp and location.h, the word that holds the offset, the size
--   and the kind of a node (`Location.Fields`).
-- BitStream: tyrtech/common/bit_writer.h and bit_reader.h. `write` and `read` of fields of up to 64
--   bits. The sink and the source, template parameters of the classes, are lists of 64-bit
--   words. The bits behind a writer and before a reader are lists of Booleans in `Write` and
--   `Read`; `RoundTrip` joins the two.
-- Gorilla: tyrtech/tyrdbs/gorilla_writer.h and gorilla_reader.h, above BitStream. The parts of a
--   sample, its delta of deltas (`Delta`) and its value (`Value`, `Nibbles`), are encodings that
--   the reader inverts (`Codec`); `Step` is one sample and `RoundTrip` a series.
-- RingQueue: tyrtech/common/ring_queue.h, refined to the list of the items (`Refine`).
-- Keys: the order of keys, `std::string_view::compare`.
-- Node: tyrtech/tyrdbs/node.cpp and node.h, the layout of a node, its accessors, and its search
--   (`Search`). Pointers into the data of a node are the addresses in it.
-- NodeWriter: tyrtech/tyrdbs/node_writer.cpp and node_writer.h. `Layout` says where an item stands
--   in a node, `Written` and `Adding` what `add` does, `RoundTrip` what becomes of a page.
-- BufferedWriter: tyrtech/common/buffered_writer.h, the bytes behind a writer (`Bytes`) and their
--   alignment (`Padding`). The sink, a template parameter, takes all that it is given, and is the list
--   of those bytes.
-- BufferedReader: tyrtech/common/buffered_reader.h, the bytes ahead of a reader (`Bytes`). The source,
--   a template parameter, is the list of the pieces that its reads give.
-- SliceWriter: tyrtech/tyrdbs/slice_writer.cpp and slice_writer.h. `SliceWriter` itself is `check`,
--   with the last key and flag that `add` remembers for it (`Order`); `Store` is `store`, a node
--   at the end of the file; `Index` is `index_writer`, the levels of the index; `Entries` is the
--   loop of `add`, `add` of an iterator, and `flush`. The file is the list of its bytes.
-- Iterator: tyrtech/tyrdbs/iterator.h, what an iterator stands on.
-- Slice: tyrtech/tyrdbs/slice.cpp and slice.h, `commit`, and `cache::load` of cache.cpp: the reader of
--   the bytes that `SliceWriter` has made. `Load` is one node, `Chain` nodes that were stored one
--   after the other, `Read` what an iterator meets along them, `RoundTrip` both. On the side of
--   the writer, `Kept` is a node that takes items, `Indexing` and `Flushing` the index, `Writing`
--   the invariant of the writer, `Splitting` a value over several leaves, `Accepting` the entries
--   and `Committed` the flush. `Header` is the last page. `WriteRead` joins the two sides, and
--   `Endless` is about values that are too long.
-- Ushard: tyrtech/tyrdbs/ushard.cpp, of which `Merge` is the iterator over several slices: the order
--   of its elements (`Order`), the newest record of a key (`Newest`), what a `next` passes over
--   (`Skip`), and the whole loop, without bounds (`Collect`, `Correct`) and with (`Range`).
--
-- Assertions of the code are on by default, and a call that fails one is not described by the
-- theorems. Hypotheses of theorems are: the timestamps of a series do not descend, the key of an
-- item is not empty and the index of an entry is below 2 ^ 48 (`add`), a file begins with a leaf
-- (`store`), a greatest key has at most the 1024 bytes of its buffer, a queue that is popped is
-- not empty, the fields of a location fit. The model answers `none` where these fail: the size of
-- a page in `cache::load`, the root in `commit`, the sizes in the constructor of a slice, the
-- empty piece in `buffered_reader::load`. Left out are the flags of committed and flushed files,
-- and the assertion that a key of the index is not empty.
--
-- Counters and offsets keep their width, with the wrap-around written out: also the size of a
-- file, which has 32 bits though a file can have 2 ^ 37 bytes, in the locations of `store` and in
-- the constructor of a slice, and the doubling of a ring queue. The counts in the header are cut
-- to their fields when they are written. Not wrapped are the indices of the ring queue, which the
-- size of the vector bounds, and the offsets in the buffers. A write to a file past its limit of
-- 2 ^ 37 bytes throws; in the model the flag `limit_reached` of the file turns the result of
-- `add` and `flush` into that error. That the disk is full is not modelled.
--
-- Fuel: the loops of `bit_writer::write` and `bit_reader::read` have a round for each bit of the
-- field, which is enough since each round takes at least one. The halving in `lower_bound` takes
-- the number of keys as its fuel and is `none` when it runs out, which it does not since every
-- round brings the two ends closer (`Node.Search`). The scan that follows is by recursion on the
-- distance of the ends. The loops of `buffered_writer::write` and `buffered_reader::read` have a
-- round for each byte, which is enough since a round takes at least one. The loop of
-- `slice_writer::add` has twice the length of the value and two rounds, and the flush of the
-- index two more than it has levels; `Slice.Splitting` and `Slice.Flushing` have the proofs that
-- this is enough. `load_next` has the length of the file, since the nodes lie one behind the
-- other, and `ushard_iterator::next` the number of parts left. The loops over `next`,
-- `read_parts` and `collect`, get their fuel from the theorems. The descent of `find_node_for`
-- has a fuel that the caller chooses.
--
-- Parameters: LZ4 compression and decompression are functions, of which the theorems assume what
-- LZ4 documents for a sink of the size of its bound: it compresses every node, into no more bytes than
-- the sink has, and decompression gives the node back. The checksum, of crc32c, is a function whose
-- values have 32 bits. `std::sort` and `std::lower_bound` are written as insertion into, and linear
-- search in, a vector that the comparison partitions.
--
-- Not modelled: the tiers of a ushard, collections, the table of the cache and its policy, the files
-- on disk, messages. Coroutine switches, io_uring, sockets, logging and the command line are left
-- out as they are calls of the system; the vendored libraries are not part of the program.
pub mod Prelude
pub mod Location
pub mod BitStream
pub mod Gorilla
pub mod RingQueue
pub mod Keys
pub mod Node
pub mod NodeWriter
pub mod SliceWriter
pub mod BufferedWriter
pub mod BufferedReader
pub mod Iterator
pub mod Ushard
pub mod Slice
