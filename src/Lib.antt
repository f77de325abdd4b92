-- ===== src/Lib.antt =====
-- Profit reads, writes and traverses models in the Open Flight format. This is a model of its core in
-- C, with the theorems that make that code correct. Paths are from the repository's root.
--
-- The parts and how they interact. Everything a model is made of reaches the program through the
-- buffered files of src/util/bfile.c: the loader asks for bytes and big-endian numbers, the file
-- refills its buffer from the stream, and a writer flushes it there. Lists of any length, such as the
-- children of a node and the stack of a traversal, are the growing arrays of src/util/array.c. The
-- memory of a node comes from the pools of src/util/mempool.c, where a model has one. A traversal of
-- src/model.c visits the nodes of a model: it asks the registry of src/nodeinfo.c for the handlers of a
-- node, calls the client, and raises and lowers the state of src/state.c with the level.
--
--   Prelude          the library's names, Boolean tests on numbers, lists by position, words, Option
--   Array            src/util/array.c: `struct _array` is the record Array, and prf_array_x is x.
--                    Its lemmas stand in Elems, Append, Insert, Remove and Find.
--   Bfile            src/util/bfile.c: `bfile_t` is the record Bfile, a call is a Cmd, that is a
--                    function from the file to a Run. bf_x is x. The numbers stand in Get, Put and
--                    Float, the look-ahead in Peek; Reading and Writing have the invariants of a file
--                    that is read or written, and Sessions joins a writer with a reader.
--   Mempool          src/util/mempool.c: the table of pools is a list, and a pool a list of blocks with
--                    the addresses that malloc gave. Fit has the allocation from the blocks of a pool,
--                    Table the operations on the table.
--   State            src/state.c: a new state, its levels and the matrix stack of prf_state_push and
--                    prf_state_pop. Copy is prf_state_copy and prf_state_clone.
--   Traverse         src/model.c: prf_model_traverse_io_ is traverse_io, its loop traverse_loop, and
--                    prf_model_traverse_io is model_traverse_io; the
--                    three parallel arrays of its stack are one list of Frames. The registry of
--                    src/nodeinfo.c is a list of NodeInfo. Walk is the recursive walk that the loop
--                    stands for, Refine joins them, Collect has the order of the
--                    visits, Fold what visits collect, with Visitor and Order for callbacks, Handled for
--                    the handlers of record types and Same for callbacks that do the same, and Registry
--                    is prf_nodeinfo_set.
--   Record           src/nodes: the load and save functions of the record types, prf_x_load_f and
--                    prf_x_save_f, have one shape, which is load_f and save_f; a Layout has what each
--                    type adds, and stands in Layouts under the name of the type. Save and Load say
--                    which bytes a record has, RoundTrip joins them.
--   Loader           src/model.c: Levels is the stack of prf_model_load_with_callback, insert_node a round
--                    of its loop behind the reading of a record. File has the reading, and with it
--                    prf_model_load as load_model, and prf_model_save as save_model.
--   Handlers         src/nodes: the functions prf_x_entry_f and prf_x_exit_f are x_entry and x_exit, on
--                    the rest of a state, the record Context. Init is prf_nodeinfo_init, with x_init
--                    for prf_x_init and the table of Defaults; Follow says what each handler does, and
--                    Registry, with Absent, finds it. Counters, on Counts and Kept, has the counters of push and pop records, Lookup
--                    the look-ups of src/state.c, Found what they find, Faults the handlers that assert
--                    something or read data, Visits the nodes that a callback sees, and Colors and Opaque
--                    the colours.
--   Palette          src/model.c: prf_model_add_vertex is add_vertex in Store, with prf_vertextras_init;
--                    prf_model_vertex_palette_lookup is lookup in Fill, with src/vertex.c and the
--                    functions prf_x_fill_vertex. Memory and Kept say where a vertex stands, Look and
--                    RoundTrip that it is found; Clone and Same are prf_vertex_palette_clone_f, and
--                    Iterate is the walk over the indices.
--
-- Faults and fuel. A failed assertion and an access outside of an allocation end a call of an array or
-- a pool with `none`, one of a file or a traversal with `fault`; a handler of a record type that fails
-- an assertion, or follows a NULL, sets the mark `faulted` of its context instead. The loops of a file
-- run on fuel, which is one round for each byte that is wanted, and two rounds for each in the bulk operations, where a
-- round that refills or flushes comes before one that copies: the C library moves a byte at least in
-- each call. A traversal has a round for each node, and one to end. The theorems state that a call ends
-- without running out of fuel. The loop of a material palette has a round for each 184 bytes, which is
-- what a round moves, and one to end. The loader has a round for each four bytes of the file, which is the
-- least that a record takes, and one to end.
--
-- Numbers are natural numbers below 2^w with the wrap-around written out; a signed number is its
-- pattern. The C library's `fread` and `fwrite` are the parameter Stdio, which says how many bytes a
-- call moves, with their documented behaviour in IsStdio. Allocations succeed.
--
-- Handlers and callbacks of a traversal are functions of the state, which they change as they like;
-- they do not change the tree, the registry or the callback. Nodes are values there, and whether two
-- pointers are the same is a parameter. Of the functions that a record type registers, the registry of
-- a traversal has entry_f, exit_f and traverse_f; those that load and save stand in Record.
--
-- The memory of a vertex palette is a list of bytes. How the machine represents a number in bytes is the
-- parameter Host, with what C promises in IsHost.
--
-- A model that is loaded has no memory pool (mempool_id is 0): PRF_NODE_MEMPOOLED is set on no node.
--
-- Not modelled: the progress callback of a file and its name, the messages, and bf_hex_dump, which
-- prints; the depth-first traversal, the clone, the destruction and the optimisation of a model in
-- src/model.c; the inverse matrix of src/state.c, which is arithmetic on floats; the loading and saving
-- of the vertex and the color palette, and the functions that make nodes in src/nodes; start and stop
-- of the library. Memory is there when it is asked for.
pub mod Prelude
pub mod Array
pub mod Bfile
pub mod Mempool
pub mod Record
pub mod Loader
pub mod State
pub mod Traverse
pub mod Palette
pub mod Handlers
