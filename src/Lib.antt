-- ===== src/Lib.antt =====
-- GNU Common C++ (ucommon): a C++ library of portable system classes. This library models the
-- parts of corelib/ that compute, and proves what they promise.
--
-- The parts and their files:
--   Numbers    corelib/numbers.cpp: Number and ZNumber, numbers kept as text in a field of a buffer
--              that the caller owns. The buffer is a list of chars that the operations are given
--              and give back; `number_set` and `get` are Number::set and Number::get.
--   Date       corelib/datetime.cpp, class Date: a day number, set from numbers or from text
--              (Date::set is `set_date` and `set_text`), read by way of the text that Date::put
--              writes with ZNumber and that the accessors read with Number.
--   Time       corelib/datetime.cpp, class Time: the seconds of the day.
--   DateTime   corelib/datetime.cpp: DateTime, a Date and a Time, with DateTimeString and
--              DateNumber, which keep their text up to date.
--   IsoTime    corelib/datetime.cpp, class isotime: a date or a time read char by char over the text
--              that shows the old one; `feed` hands it the chars of a text.
--   Sync       corelib/condition.cpp: Semaphore, Barrier, ConditionalAccess and ConditionalLock,
--              which remembers how often each thread shares. A stretch of code that holds the
--              mutex is one function. A function that waits is two: up to the wait, and from the
--              wake-up on. Threads are a step relation over these functions.
--   Unicode    corelib/unicode.cpp, the functions of utf8: Unicode.antt reads, writes and measures
--              one code, Unicode/Strings.antt goes over strings. `offset_back`
--              is `offset` at a negative position.
--   Linked     corelib/linked.cpp. Linked.antt has the heap and LinkedObject, Linked/Ordered.antt
--              OrderedIndex and OrderedObject, Linked/Double.antt DLinkedObject, Linked/Named.antt
--              NamedObject and Linked/Named/Table.antt its functions on a table of lists. The heap
--              is the fields of all objects by their addresses, so that lists share objects as the
--              code lets them; a read or a write through null or of a deleted object has no
--              result. What a function is given by address (`LinkedObject **root`, an OrderedIndex)
--              it is given and gives back. `enlistTail` is `enlist_tail`, `NamedObject::remove` of
--              a table is `remove_from`, and the constructor on an OrderedIndex is `construct`.
--   Refs       corelib/typeref.cpp, class TypeRef: references that count. An object is a number; a use of
--              an object that was deallocated has no result. `set` of an object is
--              `set_object`; `set` from another reference and `assign` are `set_ref`, whose references
--              go by their numbers, as both may be the same.
--   Arrays     corelib/arrayref.cpp, ArrayRef: an array of counted references, used as an array, a stack, a
--              queue, or a queue that keeps its last object. A function that waits is one turn of its
--              loop. The functions of Array are `slot` (get), `remove`, `assign`, `count` and
--              `release_all` (dealloc); ArrayRef's assign is `assign_at` and its clear `clear_array`.
--   Maps       corelib/mapref.cpp, MapRef: lists of entries with a key and a value. `create`, `append`,
--              `remove` and `dealloc` are those of Map, `add`, `update` and `append_value` those of
--              MapRef, and `rewind`, `next`, `eol` and `top` those of Instance; `walk` is the loop over
--              them. What the pool gives for a new entry is an argument.
--   Memory     corelib/memory.cpp, class memalloc: `alloc` is _alloc. A block is the page that it is in,
--              its offset and its size; what malloc gives is an argument.
--   Hex        corelib/string.cpp: String::hex, hexcount and hex2bin, whose writes to `bin` are the
--              list that it gives beside its result; Hex/Formats.antt has hexsize, hexdump and hexpack,
--              which go by a format.
--   Base64     corelib/string.cpp: String::b64encode, b64size, b64count and b64decode. What is written
--              to a buffer is a list that is given beside the result.
--   Crc        corelib/string.cpp: String::crc16 and crc24.
--   Tokenizer  commoncpp/tokenizer.cpp, StringTokenizer: `advance` and `value` are the ++ and the * of its
--              iterator, `tokens` is the loop over them that its header documents.
--   Common     the vocabulary the parts share: Boolean tests, lists of numbers, and the integers of
--              C, whose division goes toward 0.
-- The slots of Arrays hold references of Refs, and the entries of Maps do, which are linked as in Linked. The lists of Named are those of Linked, and its constructor takes the index of Ordered, as Double
-- does. DateTime and IsoTime use Date and Time, which use Numbers.
--
-- Integers: a `long` is an integer without bounds, as no bound is reached in the ranges the
-- theorems speak of. The `int` that Date::put cuts its doubles to has 32 bits, and a number that it
-- does not hold gives no result. What strtol gives for a number is the largest `long` at most. An
-- `unsigned` of condition.cpp wraps round at 2 ^ 32, the counts of contexts too. Reads past the
-- end of a buffer give the terminator, and writes past it are lost; the theorems ask for the room
-- that the code needs.
--
-- Fuel: the loops of Number::set and ZNumber::set divide `max` by ten until it is 0. They get the
-- width of the field as fuel, and `max` has that many digits. A width below one, at which the loop
-- `while(--exp)` of the code does not end, is `none`; the constructor excludes it. The loops over
-- UTF-8 strings get the length of the string, and each round takes a byte at least: all but `udup` end
-- at a byte that begins no code, where `udup` goes on for ever, which is `stuck`.
-- The loops over linked objects get a fuel as an argument, as objects may be linked in a circle, where
-- the code does not end; over a list more fuel than it has objects is enough. The loops over the lists
-- of a table go by their number. The loop over the tokens of a text gets a fuel too, of which its chars and
-- two are enough.
--
-- Not modelled: the asserts, which a release leaves out, and the calls of the operating system and of
-- the C library. The current time is an argument of what asks for it, and what is handed to mktime is
-- a result. The mutex and the condition of POSIX appear as what they guarantee: one thread at a time,
-- and a waiting thread that may wake at any time. Of linked.cpp NamedTree is left out, and `sort`, which
-- calls qsort; of memory.cpp the classes over memalloc; of typeref.cpp and mapref.h the class templates;
-- of string.cpp all but the functions named above. The other files of corelib/ and of commoncpp/ are not
-- covered: most of them wrap threads, sockets, files and OpenSSL.
pub mod Common
pub mod Numbers
pub mod Date
pub mod Time
pub mod DateTime
pub mod Hex
pub mod Base64
pub mod Crc
pub mod Tokenizer
pub mod IsoTime
pub mod Linked
pub mod Memory
pub mod Refs
pub mod Arrays
pub mod Maps
pub mod Sync
pub mod Unicode
