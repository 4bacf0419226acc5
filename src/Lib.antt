-- ===== src/Lib.antt =====
-- Verification of the programs under python/, and of one under from-ai/. Each program stands alone;
-- a module here is named for the one it is about, and models its state as a record and each of its
-- functions as one definition of the same name in snake case. A call that may raise is a `Result` of
-- the exception or the value; a method that changes its object returns the object changed.
--
-- KvStore: python/persist_kv_store.py. KvStore/Codec is KvCodec over lists of bytes, with UTF-8 in
--   KvStore/Codec/Utf8 and the 8-byte little-endian lengths of struct's "Q" in KvStore/Codec/Word;
--   KvStore/Store is TimedValue and KvStore. The store hands the codec the last value of each key.
--   A stream is the list of its bytes and takes every write whole, as BytesIO does.
-- VersionedGraph: python/versioned_graph.py. VersionedGraph/Search is the search in the versions of
--   an edge, VersionedGraph/Graph the graph with its changes and has_edge, VersionedGraph/Edges the
--   iterator over the edges of a node and common_connections. A history of changes is the abstract
--   view: VersionedGraph/Graph/History says what the last change of an edge is. VersionedGraph/Bfs is
--   bfs, over those iterators; a set is the list of its entries.
-- Fancy: python/segment-tree-2.py. Fancy/Tree is Segment with the functions on trees, Fancy/Sequence
--   the class; Fancy/Refines compares it with a plain list, and Fancy/Print is printTree. Values are
--   naturals and so is the index asked for, as in the problem the class solves.
-- Calculator: python/calculator.py. Calculator/Tokens is gen_tokens, as a step that takes a token off
--   the text; Calculator/Stack the class, its stack kept top first; Calculator/Expression the
--   expressions, their texts and values. Digits are the ASCII ones.
-- PathCd: python/path_cd.py. PathCd/FilePath is the class Path but for resolve_links, which is in
--   PathCd/Links; PathCd/Route is the relation of its replacements.
-- LazyArray: python/lazy-array.py, the class with the functions it is given as total functions.
-- BookMyShow: python/segment-tree.py. BookMyShow/Tree is Segment with the functions on trees,
--   BookMyShow/Booking the class; BookMyShow/Rows has the plain view, the seats left in each row,
--   BookMyShow/Shows the trees that show it, BookMyShow/Gather, BookMyShow/Allowed and
--   BookMyShow/Scatter the searches, and BookMyShow/Refines compares the class with the plain view.
--   BookMyShow/Print is printTree. Rows are naturals: a negative maxRow, which the assertion of gather
--   refuses, is not modelled.
-- Bedrock: from-ai/minecraft/bedrock_list_non_natural.py. Bedrock/Natural has the two sets of names,
--   Bedrock/Replace bytes.decode with errors="replace", Bedrock/Nbt is NBTReader and parse_nbt,
--   Bedrock/Words the indices that decode_subchunk_blocks unpacks and Bedrock/Subchunk the rest of it,
--   Bedrock/Scan is decode_entity and the loop of scan_world, Bedrock/Report ordinal and the lines of
--   print_summary, Bedrock/Lock open_db_readonly, Bedrock/Program the rest of scan_world and the entry
--   point, which put these together. A generator is the list of what it yields, a float its bits.
--   LevelDB is a parameter: the database is the list of its keys and values, and opening it a function
--   on the LOCK file. Python's equality of the keys of block_counts is a parameter, and so are the
--   formats of numbers. What was printed before an exception that ends the scan is left out,
--   and the RecursionError of deep nesting, which parse_nbt turns into None. Bedrock/Scan/Tally counts
--   the names of a list, Bedrock/Report/Ranks says what a summary shows of them.
-- MinSql: python/min_sql.py. MinSql/Value is Value and its comparisons, MinSql/Value/Order the order of
--   keys, MinSql/Table the class Table, MinSql/Query the class Query, MinSql/Query/Kept the rows that a
--   query asks for. The operator of a condition, which the code evaluates as a text, is one of the six
--   comparisons; a condition with another text is not modelled. The name of a table is left out.
-- GroupCommit: python/group_commit.py. GroupCommit/Steps has the steps of the threads that call commit
--   and the states they reach, GroupCommit/Safety what holds in all of them. A section under queue_lock
--   is one step; the functions the class is given are parameters, and commit_func returns. Each thread
--   calls commit once.
-- Grafana: python/extract_expressions_from_grafana_dashboard_json.py. Grafana/Target is
--   add_global_variable and process_target, Grafana/Replaced what process_target answers,
--   Grafana/Defaults what add_global_variable adds. Grafana/Extract is
--   extract_expression_from_grafana_dashboard_json with the JSON as an argument, its lines and the
--   exception that ends them. A target is a dict of texts; str.lower is a parameter.
-- TypeVar: python/type_var.py. TypeVar/Types is Type with its equality and the loop of get_return_type
--   that binds the type variables, TypeVar/Text the texts and the hash; hash and str.isupper are
--   parameters. TypeVar/Return is the loop that replaces the variables of the output type, on the tree
--   below `root` and the places in it, and get_return_type with the function as it leaves it. The
--   output is a tree: no tuple object stands in it twice. TypeVar/Return/Places is about replacements,
--   TypeVar/Return/Fills and TypeVar/Return/Children about those a queue stands for, TypeVar/Least about
--   arguments that fit the parameters.
-- Ninjias: python/ninjias.py with python/doubly_linked_list.py. Ninjias/Links is DoubleLinks, the fields
--   of all nodes by their addresses, and ninjas_bruteforce; Ninjias/Ring what remove leaves of a ring,
--   Ninjias/Build the ring that is built, Ninjias/Circle the circle as a list, Ninjias/Bruteforce the
--   two functions together. The node of number i has the address i.
-- TopK: python/min_heap.py. TopK/Heap is MinHeap and TopK, TopK/Refines relates a TopK to the ascending
--   list of all its entries, TopK/Refines/Least has that its list is the front of that one, TopK/History
--   runs of changes. TopK/Movies/Index is Movie and HctIndex, TopK/Movies/System MovieRentingSystem,
--   TopK/Movies/Stock the copies it stands for, TopK/Movies/Serve runs of requests. A heap of heapq is
--   the ascending list of its entries. The movies of a system are fixed, so they are an argument; an
--   index carries what the assertion of HctIndex checks.
-- SortedArrays: python/median-2-sorted-arrays.py. SortedArrays/Counts counts in sorted lists,
--   SortedArrays/Cuts has what a cut leaves of a rank, SortedArrays/Ranks that find_rank gives an entry
--   of its rank. print is left out; a median that is no integer is a half, not a float.
-- StreamMedian: python/stream_median.py. StreamMedian/Moves has what the two heaps hold,
--   StreamMedian/Balance that the calls keep it, StreamMedian/Correct their median, in the terms of
--   SortedArrays/Cuts and SortedArrays/Ranks.
-- Common: what the others share: lists over native numbers, integers, dicts as association lists in
--   insertion order, sorting, bisect_right, and results.
--
-- Fuel: the binary search in VersionedGraph/Search has one round for each version and one more, the
-- iterator one for each key left and one more, the calculator and process_target one for each
-- character and one more, the loops in TypeVar one for each name and tuple in the parameters, or in
-- the output, and one more, the segment trees the size of the segment, the NBT reader one depth,
-- and one field of each dict, for each byte and one more. Running out is an exception of its own,
-- which a theorem on what is returned tells from a value. find_rank has one round for each entry
-- and one more, the loops of addNum one for each entry of their heap and one more. resolve_links,
-- ninjias and ninjas_bruteforce take their fuel as an argument.
--
-- Not modelled: the programs of the repository that no module is named for, among them the ones in
-- C++ and Go; tests, logs, processes and the network. Python's integers have no bound, and
-- neither have those here.
pub mod Common
pub mod KvStore
pub mod VersionedGraph
pub mod Fancy
pub mod Calculator
pub mod PathCd
pub mod LazyArray
pub mod BookMyShow
pub mod Bedrock
pub mod MinSql
pub mod GroupCommit
pub mod Grafana
pub mod TypeVar
pub mod Ninjias
pub mod TopK
pub mod SortedArrays
pub mod StreamMedian
