-- ===== src/Lib.antt =====
-- Verification of libspl, a library of containers, text conversions and thread tools in C++.
--
-- The program's parts and the files that model them (paths from the repository's root):
--
-- * Range (include/range.h) keeps a set of points as disjoint intervals in a std::map keyed by their
--   starts. Range/Map.antt has the map as a sorted list with a cursor (the entries before it are kept
--   in reverse), and lower_bound, --it and insertion on it; the C++ standard leaves --begin()
--   undefined, so what it does is an argument. Range/Ops.antt has insert, both contains, operator| and
--   operator- with their loops. Points says what a range stands for; Absorb and Insert are about
--   insert, Contains about both tests, Rounds and Difference about the loop of operator-. That loop runs on fuel: each
--   round consumes an interval or cuts one, so twice the number of intervals and one is enough.
-- * ListBase and its node (include/core/linked_list.h) are the list under Deque and List.
--   LinkedList/Store.antt has memory as a function from addresses to nodes, and commands that
--   change it, throw or are undefined; reading through nullptr or a freed node is undefined. Nodes has
--   the node's member functions, Base the iterators and operations. A reference to a node pointer is a
--   Slot (the list's head or a node's next), so the aliasing of prevNext and _head is in the model.
--   The allocator gives the addresses. Segments says which cells a list in memory holds, Links and
--   Unlinks are about the two pointer updates, Methods/* about each operation: the list it leaves, what
--   it frees, and the memory outside of the list. clear runs on _size, which counts its nodes.
--   Queue is Deque (include/deque.h) for one thread, over that list.
-- * parallel::Deque (include/deque.h, with Semaphore of include/thread.h) puts a semaphore and a mutex
--   around that list. Deque/Threads.antt has one step function for the points where a call may stand
--   and a relation for any number of threads that step in any order; a base operation is a read of the
--   list and a later write of it, so that only the mutex keeps operations apart. The list itself is a
--   sequence there, which the theorems of LinkedList justify. The semaphore starts at the size modulo
--   2^32 and counts up to SEM_VALUE_MAX, which is an argument. Steps and Invariant are
--   about one step, Progress and Sequential about whole interleavings.
-- * StringConversions (include/string_conversions.h, src/string_conversions.cpp) parses and prints
--   integers in bases 2 to 36. Strings/Tables has the digit tables, Unsigned, Signed and Print the
--   overloads with their wrap-around at 2^w, Overloads compares them, Numerals says what a text
--   denotes, RoundTrip/* the printers against the parsers and their limits.
-- * Base64 (src/base64.cpp) encodes and decodes bytes. Base64/Codec.antt has both with their tables;
--   the bound inputLength - 2 wraps around at 2^64. Encode compares with base64 by groups of three
--   bytes, Padding and RoundTrip decode what was encoded, Bounds says what decode writes.
-- * JSON (src/json.cpp, include/json.h): Json/Text.antt has the strings, Booleans and tokens of the
--   format, Json/Codes the table entries for one character, Json/RoundTrip encoding and decoding.
-- * The hash functions (include/hash.h) are HashTable/Hash.antt; the open-addressing table
--   (include/core/hash_table.h) is HashTable/Controller, Table and Wholes.antt, and on it stand
--   HashSet (include/hash_set.h) in Sets.antt and HashMap (include/hash_map.h) in Maps.antt, for one
--   thread. A slot without a constructed node has no storage, and comparing it is undefined. Growth is
--   about the controller's loops (their fuel is the number they grow to or shrink from), Probes and
--   Reach about one probe (its fuel is the number of slots, which it cannot exceed since it stops at
--   its range's end). Nodes says what a well-formed table is: each key stands once, in the range of its
--   hash. Placing, Replacing and Releasing are about the change of one slot, Rehash about a resize,
--   Locate about the search for a slot. Lookups, Updates, MapErasure and Filling are about the map,
--   SetUpdates, Membership and Erasure about the set. Node and key type, hash and equality are
--   arguments; IsKeys is what is asked of them. The restart of _findOrGetFreeIndex after a resize
--   is on fuel, and no amount is enough for every hash: Room says when it returns, by the resizes that
--   make room, and Fits when a sequence of puts does.
--   A slot keeps the hash of the node that was erased from it, and a put of a key of that hash compares
--   with the destroyed node; NoStale excludes this.
-- * Heap (include/heap.h) is an array with its growth and the standard library's heap calls, which
--   are arguments. PriorityHeap/Ops.antt has its members, Capacity the room that it keeps (the loop of
--   _allocate runs on fuel: each round grows the array, so the size and one is enough), Contents what
--   push and pop do when the calls do what the C++ standard says (IsHeapCalls), Sorting sequences of
--   them. Sorted has such calls.
-- * ArgumentParser (include/argument_parser.h, src/argument_parser.cpp) stands on HashMap:
--   Arguments/Parser.antt has it, Commands a command line as a sequence of commands, Interpret what parse does with it. The loop
--   of parse runs on fuel: each round takes a text, so their number and one is enough. The map is on fuel for its resizes, too. The actions are
--   the client's, so they are arguments.
-- * ThreadPool (include/thread_pool.h): ThreadPool/Worker.antt has the worker's loop as one step
--   function for the points where a thread may stand, over Heap for the deferred tasks; Client has run,
--   resume and the writes of terminate, and a relation for workers and clients that step in any order.
--   Memory is a log of addresses. Weights and Ownership say what one step moves, Threads what holds after any
--   steps, Choice which task a worker takes. Queue and set are sequences there; what a task does, the
--   clock and the allocator are inputs. A context keeps the worker that ran its task first, into which
--   it returns; a task that stops on another worker is undefined.
-- * SynchronizationCondition (include/sync_condition.h) is a counter that threads wait for:
--   SyncCondition/Threads.antt has one step function for its calls and a relation for threads that step
--   in any order, Wakeup is about those that sleep.
-- * The serializers (include/serialization.h): Serialization/Output, Region, Input and InputRegion have
--   the two streams and the two random-access ones. What _write, _read, _writeAt and _readAt of a
--   derived class do is an argument; IsSink, IsSource, IsStore and IsReader are what their comments
--   promise. The buffer is the list of its bytes up to the cursor. _put and _get run on fuel: each
--   round moves a byte at least, so one more than their number is enough. Written, Puts and Sequences
--   say what is written, Locks what lock holds back, Devices and Positions are about regions, Gets and
--   InputPositions about reading, RoundTrip about both.
--
-- Common/* has what they share: tests on numbers, lists over the native numbers, and how a call ends
-- (a value, an exception, or undefined behaviour).
--
-- Numbers are natural; a machine integer of w bits has its reduction modulo 2^w written out, and a
-- size that counts objects in memory does not overflow. Out of scope are input and output (File,
-- Socket, TCPSocket), processes and signals (CallStack), and what templates decide at
-- compile time (traits, TypeInfo, Factory), since their content is calls of the system or the compiler.
pub mod Arguments
pub mod Base64
pub mod Common
pub mod Deque
pub mod HashTable
pub mod Json
pub mod LinkedList
pub mod PriorityHeap
pub mod Range
pub mod Serialization
pub mod Strings
pub mod SyncCondition
pub mod ThreadPool
