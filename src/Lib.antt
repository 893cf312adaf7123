-- ===== src/Lib.antt =====
-- libcutils: the data structures of a C utility library, modelled from its sources.
--
-- The program is a set of containers over an allocator, and services that are built on them. Modelled
-- are the byte ring (libdata_structure/ring_buffer), the vector (libdata_structure/vector), the stack in
-- one block (libdata_structure/array_stack), the attribute blob (libblob), which keeps the starts of its
-- open tables on such a stack, the chained hash map (libdata_structure/hash_map), the linked list and the
-- map over a red-black tree (libdata_structure/link_list, rbtree_map), the allocator with size classes
-- (liballoc/ctr_alloc), the threads' queues (libconcurrent), the state machine over its timers
-- (libstate_machine), the reader of arguments (libargs), the
-- analyzer of messages that are described field by field (libproto_analyzer), and the requests of a
-- message bus and its daemon (libbus). Paths below are those under src/ and
-- src/include/ of the repository.
--
-- Base holds what the parts share: tests on numbers, lists cut by native numbers, blocks of memory
-- with memcpy (Base.Memory), words and their bytes in either order (Base.Words), and the chain of steps
-- that may fault (Base.Monad). A block of memory is the list of its cells; load and store stand for
-- memcpy and give none for an access outside the block. Each operation is a function from the state to
-- the new state beside the C result, so a result of none is undefined behaviour of the C code, or a
-- failed assert, and a theorem that an operation equals some value says that it does not fault.
-- uint32_t and uint16_t arithmetic wraps as written (add32, sub32, % 2 ^ 16).
--
-- RingBuffer is src/libdata_structure/ring_buffer/ring_buffer.c: set, init, is_full, is_null, write and
-- read are rbuf_set and the others of those names. RingBuffer.Contents has the bytes held and the
-- invariant; Space the room left; Write and Accept are about rbuf_write, Read about rbuf_read, Faults
-- about the states in which a read goes wrong.
--
-- Vector is src/libdata_structure/vector/vector.c with vector.h: a cell is one element of step bytes, and
-- the offsets in bytes (position times step) are taken to fit. The copy loops and vector_for_each run on
-- fuel: as many rounds as there are elements, which Vector.Copy and Vector.Iterate show to be enough; the
-- callback of vector_for_each may change the vector, whose end is read again in each round.
-- Insert is about vector_insert and vector_delete, Append about push, pop and set, Bounds about the
-- positions that the code does not test for.
--
-- ArrayStack is src/libdata_structure/array_stack/array_stack.c.
--
-- Blob is src/libblob/blob.c: Encode has the layout of an attribute, Append is about blob_add, Read about
-- the accessors, Table about blob_add_table_end. An address is an offset into the blob's block, and the
-- loop of blob_parse_to_attr runs on fuel.
--
-- HashMap is src/libdata_structure/hash_map/hash_list.c with hash_list.h and map_pair.h. The kernel's
-- hlist is an interface (HashMap.Chain): what the macros do to the nodes of a chain. Keys has the default
-- hash and comparison and the pair, Layout is about make_pair, Order has the walk and the invariant,
-- Insert and Search are about the operations. The loop of hash_map_destroy runs on fuel.
--
-- Alloc is src/liballoc/ctr_alloc with allocator_ctr_alloc.h: slabs and pools are addresses, their headers
-- two functions from addresses, and the kernel's list an interface (Alloc.Chain). Slabs has the records and
-- the lists of slabs; Classes is about slab_get_slab_index, Pools about the pool that
-- mempool_alloc_slab_list takes, Carve about the slab it cuts, Setup about __init, Reuse about __free and
-- the __alloc after it.
--
-- LinkList is src/libdata_structure/link_list/link_list.c with link_list.h: nodes are addresses, the
-- kernel's ring of list heads an interface (LinkList.Circle), and a list stands for the nodes from
-- `begin` to the head (LinkList.Order). Insert, Delete, Queue and Walk are about the operations;
-- the loops run on fuel, and one round more than there are nodes is enough (Walk).
--
-- RbtreeMap is src/libdata_structure/rbtree_map/rbtree_map.c: Tree has the shape of a tree and the
-- interface for the kernel's rbtree.c, which links, colours, erases and walks; Keys the comparison, of
-- keys that are blocks of at least key_size bytes; Order lists in the order of the keys, Descend the two
-- loops down the tree, Insert what a search finds, Update rbtree_map_insert_data, and Delete
-- rbtree_map_delete and the loop of rbtree_map_destroy.
--
-- Concurrent is src/libconcurrent/concurrent.c. Other threads ask the master to add and delete events by
-- a message in a queue and a byte in a pipe (Concurrent.antt, Requests, Order), over an interface for
-- libevent (Events); Loop makes of that the event loop that the state machine takes as its interface. The
-- messages that the slaves take are in Slaves, Pipes, Served and Dispatch, where the threads take turns as
-- steps of a relation; a write to a pipe may fail. The push of a request and the write of its byte are
-- separate steps in Order; the master's message to a slave and its byte are one step in Dispatch.
--
-- StateMachine is src/libstate_machine/state_machine.c with the timers of src/libconcurrent/tmr_user.c,
-- over the vector of Vector and the interface StateMachine.Loop. Timed says which timers may run, Change
-- is about state_machine_change_state_force, and Reach about changes of state and the master thread's
-- steps in any order.
--
-- CmdArgs is src/libargs/cmd_args.c: the table of commands and args_parse_args, whose loop runs on fuel; one
-- round more than there are arguments is enough (CmdArgs.Calls).
--
-- Analyzer is src/libproto_analyzer/protocol_analyzer.c with protocol_format_set.c: a message is its bytes,
-- a field is found by its place in the list. Codec has the writing and reading of one value, Format the
-- records and the set of formats, Analyzer.antt the table of names over HashMap, the layout, and generation
-- and parsing. Chunks and BitFields are about values in bits, ByteFields about values in bytes. Frame and
-- ByteFrame say that other fields keep their bits, Fields that for one field, Layout for fields in a row,
-- Rounds for the loops and Message for a whole message. KeyBlocks, KeyChains and Keys are about the table
-- of names, Registry about the set of formats. The loops over bits run on fuel, and one round more than
-- there are bits is enough (BitFields).
--
-- Bus is src/libbus: Bus.antt the client's requests and answers (bus.c), Bus.Daemon the daemon (busd.c), over
-- Blob, HashMap and the stack of open tables; Attrs reads attributes. Blobs says what a blob keeps when it
-- grows, Resend is about a second request, Objects about the registration of an object. The loops over
-- attributes run on fuel: an attribute of length 0 makes the code's loops endless.
--
-- Not modelled: locks (each call runs alone, but for the turns in Concurrent), logging, and the release of memory. The allocator's answer
-- is an argument of the operations that ask it, none for a null pointer. The host is little-endian.
-- libevent, cJSON, iniparser, the wireless tools and the kernel's lists and trees are copies of other
-- projects.
pub mod Base
pub mod RingBuffer
pub mod Vector
pub mod ArrayStack
pub mod Blob
pub mod HashMap
pub mod Alloc
pub mod LinkList
pub mod RbtreeMap
pub mod Concurrent
pub mod StateMachine
pub mod CmdArgs
pub mod Analyzer
pub mod Bus
