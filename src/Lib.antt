-- ===== src/Lib.antt =====
-- fsfuse: a FUSE file system over fs2 indexnodes, in C. This library models the parts of the program
-- listed below and proves what makes them correct.
--
-- A call that may go wrong is a Run: `ok` with its value, `fault` for undefined behaviour (an access
-- outside an allocation or to a cell never written, a signed overflow, an unset variable) and for a
-- failed assert, `out_of_fuel` where a loop has used up the fuel of the model. Numbers are natural
-- numbers; a signed int is a ℤ with pos_part and neg_part. Where C cuts a value to a narrower type
-- the model does. Sizes of memory in size_t do not wrap, since they count cells that are allocated.
--
-- The parts, each with its file here and in the repository:
--
-- - Base: tests, lists, integers, byte strings, error codes and the rules for runs.
-- - BinaryHeap (src/binary_heap.c, src/kvp.c): a heap is its allocation, its use and a memory of
--   cells that may never have been written. new, ensure_space, parent, left_child, right_child,
--   move_up, binary_heap_add, move_down, binary_heap_trypop and binary_heap_delete have the names
--   of the source. The loops take the number of entries as fuel, since each round moves to a parent
--   or a child. Theorems assume fewer than 2^29 entries, for the positions are converted to int.
--   Order holds the heap order and the contents, Up and Down the loops, Queue the theorems.
-- - Downloader (src/downloader/downloader.c): the queue of chunks is a BinaryHeap keyed by the
--   start cut to int. Other threads act while chunk_get_next waits: a list of Wake says what
--   arrives and whether the wait ends by a signal, by its time limit or by another error, which the
--   theorems exclude. buf_consumer takes curl's blocks; its fuel is the number of chunks that wait
--   or may arrive, since each round takes one. Pending holds the invariant, Next the wait, Stream
--   the blocks, Drain the shutdown, Thread the thread with the fetches as rounds of blocks. Which
--   alternative is chosen and the range header are not modelled.
-- - Versions (compare_dotted_version of src/utils.c, check_version of src/indexnodes/indexnode.c):
--   strtol is written out for base 0. The fuel is the length of both texts and one, since each
--   round drops a byte. Order and Accepts hold the theorems.
-- - Locks (src/locks.c): a call is a step, made under the mutex; a call that waits has no result
--   yet. Exclusion holds the reachable states, Readers the read lock without a writer.
-- - StringBuffer (src/string_buffer.c): the allocation behind a buffer is its capacity and cells
--   that may never have been written. Strings taken over stand on the heap of Base.Heap, where free
--   faults on what is not allocated. What vsnprintf formats is an argument. Chars holds the copies,
--   Contents the text that a buffer holds.
-- - Uri (src/uri.c): each member is an address on that heap. One function stands for the seven
--   setters, which differ in the member only, and one for the getters. Owned, Delete and Faults
--   hold the theorems.
-- - Listing (src/ref_count.c, src/nativefs/listing.c, src/nativefs/listing_list.c): listings that
--   are allocated, by address, with their reference counts; arrays of addresses. Counts compares
--   the counts of two stores, Fill describes arrays that are filled from the front.
-- - PeerStats (src/peerstats.c): random() and the lists of the configuration are arguments.
--   Filling, Split and Choice hold the theorems.
-- - FuseMethods (src/nativefs/inode_map.c, src/fuse_methods/open.c, opendir.c, release.c,
--   getattr.c, forget.c and read.c beside it): the inode map with the listings that it leads to.
--   read is modelled up to the call that queues its range in a Downloader, and from chunk_done,
--   which the downloader calls, on. releasedir.c is here too. Counts has the lemmas on references,
--   and InodeMap, Open, References, Read and Done hold the theorems.
-- - Direntries (src/nativefs/direntry.c): the links of a direntry stand beside its listing, at the
--   same address. The fuel is for the directories on the way up, and for the children. What an
--   indexnode answers, and the addresses that malloc has, are arguments; of a direntry's own
--   indexnode only is known whether it is set. Above holds the paths, Siblings the search by name
--   and the lists of siblings, Children the listing of directories and the start.
-- - Directories (src/fuse_methods/readdir.c, lookup.c and access.c beside it, listing_li2stat of
--   src/nativefs/listing.c): the format of an entry is a parameter that stands for libfuse, which
--   asks for as much room as an entry takes. Listed holds the entries, Readdir the answer, Lookup
--   what lookup answers.
-- - Fetcher (src/fetcher.c): the codes of fetches and the URLs. Url and Codes hold the theorems.
-- - Parser (src/parser/parser_xml.c and parser_filelist.c beside it): the events of libxml2 are
--   arguments. Events has the states over one event, Attributes what the attributes of an anchor
--   say, FileList the documents.
-- - Stats (src/parser/parser_stats.c, src/fuse_methods/statfs.c): Report holds what the parser
--   reports of a page, Statfs the sum over the indexnodes; what each reports is an argument of
--   statfs.
-- - Settings (src/config, and the command line of src/fsfuse.c): layers of settings by their
--   symbols. The items and defaults, which the build generates, what libxml2 reads and what
--   getopt_long gives are arguments. Layers holds the stack, Options the options, CommandLine the
--   whole of the settings. The two parses of the command line have option strings of their own, so
--   each has its own list of options.
-- - Listener (the event loop of src/indexnodes/indexnodes_listener_thread.c, over Advert and
--   Indexnodes): what select and recvfrom give is an argument. Loop holds the invariant.
-- - Http (src/http.c): what the calls of the socket give is an argument. The fuel of sock_send_buf
--   is what the theorem finds for a socket that makes progress. Fields, Send and Slurp hold the
--   theorems.
-- - Advert (src/indexnodes/indexnodes_listener_thread.c, the parsing of packets): a pointer into
--   the packet is the text from it on, or none once it is behind the NUL. Fields holds the theorem.
-- - Indexnodes (src/indexnodes/indexnodes_list.c, src/indexnodes/indexnodes.c): the list of
--   indexnodes with the times they were seen. The clock and the timeout are arguments; the protocol
--   string of an advert stands on the heap, the other strings are texts. Reference counts are not
--   modelled here. Unique, Get and Protocol hold the theorems. Threads has indexnodes_get as the
--   steps of two threads under the lock of Locks, over lists that are allocated and deleted, and
--   Threads.Race its theorems.
-- - Headers (header_cb_wrapper of src/fetcher.c, header_cb of src/indexnodes/proto_indexnode.c): a
--   header line is its bytes; the wrapper has a context of its own type. Ignored holds the theorem.
-- - Paths (fsfuse_dirname, fsfuse_basename and path_combine of src/utils.c): a copy out of a string
--   is checked against its bytes and its NUL. Combine holds the theorems.
--
-- Not modelled: the options that the fetcher sets on curl's handle, the text of a request in http.c,
-- most of the protocol of an indexnode (src/indexnodes/proto_indexnode.c and the iterator beside it),
-- alarms, traces, the calls that mount, and scrap, which the program no longer builds.
mod Base
pub mod BinaryHeap
pub mod Downloader
pub mod Locks
pub mod Versions
pub mod StringBuffer
pub mod Uri
pub mod Listing
pub mod PeerStats
pub mod FuseMethods
pub mod Advert
pub mod Direntries
pub mod Directories
pub mod Indexnodes
pub mod Listener
pub mod Fetcher
pub mod Headers
pub mod Http
pub mod Parser
pub mod Stats
pub mod Settings
pub mod Paths
