-- ===== src/Lib.antt =====
-- tiny_utils: the C and C++ parts of a collection of small utilities.
--
-- The parts of the source do not call each other. What the files share is in Base: Boolean tests,
-- lists over the native numbers, signed integers, sums over threads, and `Outcome`, the result of
-- code that may read out of bounds or fail an assertion. The pool before C++11 uses the interface
-- of a pthread lock that Lock declares.
--
--   Base            Boolean tests, lists, integers, and results that can be faults
--   RwLock          cpp_utils/rwlock.cpp, class ReadWriteLock
--     Threads         threads that call it, and the step relation
--     Exclusion       what holds in every reachable state; Grants: when a call gets the lock
--     Unlock          what `unlock` does to the counts and whom it wakes
--     Wakes           who is woken, and how a thread that waits gets the lock
--   LockFreeQueue   cpp_utils/lockfree_queue.cpp, class LockFreeQueue
--     Chain           the linked list on the heap
--     Threads         producer and consumer, an access at a time; children: the invariant
--     Sequential      whole calls against a list of values
--     Destroyed       the destructor
--     Leaks           whose every address in use is, and what is left behind the destructor
--     Program         the program: one thread that enqueues and one that dequeues, in loops
--   Cstr            c_utils/cstr.c and c_utils/cstr.h
--     Capacity        round_up_power_2, round_down_power_2, cal_fit_cap
--     Memory          the struct, its macros, cstr_is_valid
--     Block           memcpy, memmove and memset on bytes; the allocator as an interface
--     Create          cstr_new_str, cstr_new_size, cstr_new
--     Assign          cstr_assign, cstr_sub_cstr, cstr_append, cstr_copy and their variants
--                     for C strings
--     Stored          what these leave, given an allocator that does not fail
--     Trim            cstr_trim, cstr_trim_hdr, cstr_trim_tail, and the bytes they cut off
--     Query           cstr_compare, cstr_count_char, cstr_find_char, cstr_is_hex and the like
--     Edit            cstr_insert, cstr_tolower, cstr_toupper, cstr_reverse, cstr_clear
--     Program         a sequence of edits against the same edits on the text
--     Shared          cstr_append on a store of strings, which may be one and the same
--     Search          what a search is to find; sunday_search_first and cstr_find_first,
--                     kmp_search_first, boyer_moore_search_first, cstr_count_str
--   NumBase         cpp_utils/num_base_x.cpp: Add over base-36 numerals
--   Utf8            c_utils/utf8_substr.cpp: utf8_to_charset and utf8_substr
--   ObjectPool      cpp_utils/object_pool.cpp, class ObjectPool
--     Bags            lists of objects without their order, as multisets
--     Conserved       clients that borrow and give back, and where the objects are
--     Program         the program: threads that borrow two objects each
--   Observer        cpp_utils/observer.cpp, class BaseSubject
--     Registered      which observers a subject has, and whom it notifies
--     Destroyed       the destructor
--   TokenFrequencyCtrl  cpp_utils/token_frequency_control.cpp, class TokenFrequencyCtrl
--     Bounded         how many calls succeed in a run
--   Singleton       cpp_utils/singleton.cpp, class Singleton
--     Threads         threads that call Instance, an access at a time
--     Fits            what the place of a thread says of what is shared
--     Unique          how many objects are made, and what a constructor that throws does
--     Finish          how a call comes to its end
--     Once            the version on pthread_once, and both versions in single calls
--   Lock            cpp_utils/lock.cpp: the C++11 ZSpinLock
--     Tries           when try_lock gets the lock
--     Api             what a lock is to its users, as an interface
--     Classes         ZMutexLock, and the classes on pthread, on interfaces of what is below them
--     Filled          these classes fill the interface; Samples has concrete locks
--     Counter         the program: threads that count under a lock, on any ZLock
--   Clocker         c_utils/clocker.h: CReadWriteLocker
--     Scopes          the scoped locks, in any number of threads; Exclusion: who has the lock
--   AnsiColor       c_utils/ansi_color.cpp: the constants and macros
--     Terminal        a terminal that reads escape sequences; Shown: what it shows
--   Timer           cpp_utils/timer.cpp, class Timer, and how its units belong together
--   TimeUtils       c_utils/timeutils.cpp, on an interface of the C library
--
-- Correspondence. A function or a method has its name in the source, in snake case; a loop is a
-- function of its own beside the one it stands in. A C++ object is a record, which a method takes
-- and returns. `read_lock` and `write_lock` are cut at the condition waits: `read_lock` runs to the
-- first wait, `read_wake` runs from the end of a wait to the next wait or the return. Under the
-- mutex these parts are atomic. `enqueue` and `dequeue` are the sequences of their accesses to
-- memory, and each access is a step, so producer and consumer interleave between any two of them.
--
-- Fuel. `double_until` and `halve_until` get 32 rounds, one for each bit of a word; `scan`
-- gets one round more than the string has bytes, since a shift is at least 1; `charset_loop`
-- and `substr_loop` get one round more than the input has bytes, since a character is at
-- least one byte. `swap_loop` gets one round for each byte, twice what it needs; `table_loop`
-- and `kmp_loop` get two rounds for each byte of the pattern or the string, since a round
-- that does not move on in the text shortens what is matched; `bm_scan` and `count_str_loop`
-- get one round more than the string has bytes, since each round moves on by at least 1. For
-- `destroy_loop` the theorem asks for two rounds more than values have gone in, and for `spin`
-- for one round. `digits` gets one round more than its number. The theorems on these functions give
-- the result, so the fuel is enough.
--
-- Assumptions. pthread calls are arguments: each returns 0 or not, and a wait may end at any
-- time with either result. Memory is sequentially consistent. Two strings that a function
-- takes are different objects, but in Cstr.Shared. `strcmp` is the one of the standard library. A byte is a
-- number; a `char` that indexes a table is below 128. Positions and lengths that the source
-- keeps in `int` stay below 2^31. An allocation of the queue gives an address not in use;
-- those of the strings go through an interface, and may fail. No call of the reader-writer
-- lock runs while it is destroyed, since `destroy` takes no mutex, and no thread in a timed call is
-- cancelled, since those push no handler. In the program of the pool nothing uses the queue during the
-- push of a deleter, which takes no mutex. Where the size of the queue or the arithmetic of the token
-- bucket leaves the range of an `int`, it wraps. The constructor of a singleton's class is one step,
-- which makes an object at a given address or throws; pthread_once is an interface. Arrays on the stack
-- hold anything before they are written. The readings of the clock are arguments.
--
-- The locks under ZMutexLock, ZSpinLock and CReadWriteLocker are interfaces that say what their
-- documentation says; a lock call that waits gives no result. The programs of lock.cpp,
-- lockfree_queue.cpp and object_pool.cpp have their numbers of threads and rounds as parameters.
-- The zone of the time of day keeps its offset. Names of the branches that do not compile are taken
-- as what they mean: `clear` in the spin lock.
--
-- Not modelled: printing and sleeping, the other demonstrations in `main`, cstr_show, which
-- prints, the class ObjectPool before C++11, which does not compile, the declarations of cstr.h
-- without a definition, the macros that choose a compiler version or an allocator, the marker class NonCopyable, and the Python, shell and CMake files.
pub mod Base
pub mod RwLock
pub mod LockFreeQueue
pub mod Cstr
pub mod NumBase
pub mod Utf8
pub mod ObjectPool
pub mod Observer
pub mod TokenFrequencyCtrl
pub mod Singleton
pub mod Lock
pub mod Clocker
pub mod AnsiColor
pub mod Timer
pub mod TimeUtils
