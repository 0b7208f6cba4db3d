-- ===== src/Lib.antt =====
-- Verification library for Sketch: the containers, the debug heap, the strings, the trace, the
-- command line, the errors and the dates of the base library, as definitions that follow the C++
-- code, and theorems about them.
--
-- The program. include/SkBase holds header-only containers and value types, which src/SkBase backs
-- with code for Windows and for the NT kernel; include/SkUser and src/SkUser add what a user-mode
-- program needs. The containers build on an allocator that may refuse memory, so their operations
-- report success. The command line is split into strings that a Vector holds, and an error's text
-- is built by a small formatter, which the log uses for every error of a chain.
--
-- Which file models which part:
--   Base: lists, tests, integers and storage cells that the others share.
--   Circular: include/SkBase/CircularBuffer.hxx. A pointer is its offset in the storage, a slot
--     holds `none` where no object lives. Circular/Window reads the elements off the slots,
--     Circular/Deque is the bounded queue that Circular/Run shows the pushes and pops to implement,
--     Circular/Edit has insert, erase and rerase in the middle, Circular/Ends the reads.
--   Vector: include/SkBase/Vector.hxx. `alloc` is the allocator's answer to a request; the theorems
--     want it to refuse blocks of 2^61 elements and more, which no address space has. Moving,
--     constructing and destroying are writes to the slots in the order of the code. `no_dtor` is
--     __::no_dtor of the element type, and `moved` what a move leaves behind. An assignment to a
--     destroyed object in erase(first, last) is a fault, `none`. Vector/Loops says
--     what each loop leaves in a slot, Vector/Blank what _insert_blank_space does.
--   IntrusiveList: include/SkBase/IntrusiveList.hxx. The memory is two functions from a node's
--     address to its links; IntrusiveList/Chain has the chains of links, IntrusiveList/Refine the
--     operations against the list of addresses.
--   Queue: include/SkBase/Queue.hxx, as one thread runs it: an exchange succeeds where the word is as
--     expected. `hash` is the hash of a counter; Queue/Fifo is the list of pointers that Queue/Run
--     shows the queue to implement.
--   HashMap: include/SkBase/HashMap_details.hxx. A node is known by its address; the links, hashes and
--     elements are functions of it, and the buckets a function of their index. KeyPolicy is what the
--     client gives: the key in an element, hasher and key_equal, with the laws of a hash table.
--     HashMap/Chain and HashMap/Holds say which lists of nodes a table holds, HashMap/Find and
--     HashMap/EraseKey compare it with a finite map, HashMap/Walk is iteration, HashMap/Clear
--     clearing, HashMap/Rehash the move to a larger table, HashMap/Lost what buckets lose.
--   Heap: include/SkBase/Heap.Debug.hxx. A block is known by the address of its header; Heap/Counts lets
--     any number of clients allocate, free and write in any order, Heap/Dump is about the dumps.
--   Rundown: include/SkBase/Rundown.hxx. A thread makes one access to `m_ptr` at a time, and
--     Rundown/Steps lets any number of threads take turns in any order.
--   RefCount: include/SkBase/RefCount.hxx and include/SkBase/IRefCounted.hxx. An object is known by
--     its address; RefCount/Pointers compares its counter with the pointers that there are.
--   Strings: include/SkBase/String.hxx and include/SkBase/SharedData.hxx. A string is the address of
--     its data, and the static empty data stands at 0. Strings/Capacity has the growth, Strings/Store
--     the operations on shared data, Strings/Held their counters, Strings/Append what strings see of
--     each other, Strings/Text trimming (`_iswspace` is the parameter `is_space`) and comparison.
--   Trace: src/SkBase/Trace.cxx and include/SkBase/Trace.hxx. The writer's thread pops a record or
--     gives the one it holds to the sinks, one access at a time; `flush` is whether the loop of flush
--     ends now, the queue is the list of Queue/Fifo, and `written` what the sinks are given.
--     Trace/Lifetime counts users over any calls, Trace/Delivery follows a record.
--   Unicode: _fromUtf16 and _Utf16ToUtf8Len of include/SkBase/Utf8String.hxx, _fromUtf8 and
--     _Utf8ToUtf16Len of include/SkBase/String.hxx; `none` is a read behind the given length.
--   CommandLine: src/SkUser/CommandLine.cxx and include/SkUser/CommandLine.hxx. `iswspace` is the
--     parameter `space`.
--   Error: src/SkBase/Error.cxx and include/SkBase/Error.hxx. The C library's printing of numbers is
--     the parameter `Printer`.
--   Date: include/SkBase/Date.hxx. TimeSpan: include/SkBase/TimeSpan.hxx and the file time of
--     include/SkBase/Time.hxx.
--
-- Bounds and fuel. Numbers are exact, and a wrap is written out where the code has one: the growth
-- of a Vector and of a string in size_t, the 16-bit words of a SYSTEMTIME, the 32-bit halves of a FILETIME. A loop
-- that ends at a pointer runs on fuel: one round more than the capacity in Circular/Edit, than the
-- size in IntrusiveList, than the bucket or the table in HashMap, than the capacity or the size in
-- Queue, than the length of the text in CommandLine and Error. The theorems there show that it is
-- enough, except in HashMap for bucket_size, equal_range and the loops of rehash, of which there are
-- no theorems. The other loops are by recursion on their count.
--
-- Not modelled: what a move leaves in a slot that is overwritten or destroyed right after it,
-- failing allocation in CommandLine, Error and Unicode, the overflow of int64_t in a time span,
-- iterators as objects, copy and swap of containers, several threads at one Queue and the wrap of
-- its counters, the wait block behind a RundownGuard, which the theorems show not to be reached,
-- the move and swap of counting pointers, hash tables of equal keys, the hash and the formatting of
-- strings, the heap below the debug heap and its break into a debugger, the event that wakes the
-- writer's thread of the trace, the text of its formatter, and what only calls the operating system.
pub mod Base
pub mod Circular
pub mod Vector
pub mod IntrusiveList
pub mod Queue
pub mod HashMap
pub mod Heap
pub mod Rundown
pub mod RefCount
pub mod Strings
pub mod Trace
pub mod Unicode
pub mod CommandLine
pub mod Error
pub mod Date
pub mod TimeSpan
