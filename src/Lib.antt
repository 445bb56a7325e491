-- ===== src/Lib.antt =====
-- The runtime library of Kaya BASIC: what a translated program calls. The translator itself is in the
-- repository as a binary only, so that the library is the program's code here.
--
-- The parts and the files that model them:
--   Strings/Slice      Left, Mid, Right, Delete, Insert, … of lib/System.cpp
--   Strings/Search     InStr, InStrAny, InStrRev, InStrRevAny of lib/System.cpp
--   Strings/Replace    Replace of lib/System.cpp, which is a loop over InStr, Left and Mid
--   Strings/Split      Split, SplitAny and Join of lib/System.cpp, which fill and read an array:
--                      Split/Rounds is the loop, for Split and for SplitAny (Split/Any)
--   Strings/Trim, Pad, Case, Count
--                      the trimming, padding and case functions, Tally and Rgb of lib/System.cpp
--   Strings/Operators  the operators *, /, >> and << of a string and a number in lib/core/core.h
--   Variant            variant of lib/core/core.h and lib/core/core.cpp, the type of InStr's first
--                      argument: a position or, with the last argument left out, the text to find
--   Array              array<T> of lib/core/core.h: Array/Redim its invariant, Array/Index its
--                      indexing, Array/Checked its sizes and offsets in the range of an int
--                      (Checked/Redims with four dimensions, Checked/Matrix with two),
--                      Array/Cells what a cell reads after a write,
--                      Array/Items appending, removing and arithmetic, where
--                      removing has no defined result
--   Collection         collection<T> of lib/core/core.h, a list reached by an index;
--                      Collection/Itself is << and >> of a collection with itself
--   Files              OpenFiles, FileOpen, FileClose, FileGetObject, FreeFile, Eof and FileLen of
--                      lib/System.cpp, and Files/Programs the programs that open and close
--   Dirs               Dir and CloseDir of lib/System.cpp, the levels of open directories
--   Debug              dbg_func, dbg_line, dbg_endfunc, dbg_callstack, … of lib/core/core.cpp, with
--                      Debug/Refine for the stack of frames behind the two vectors of a thread
--   Objects            ref<T>, object and the list of classes of lib/core/core.h, and CreateObject of
--                      lib/System.cpp: Objects/Counted is the invariant of the counts, Objects/Scopes
--                      the programs that declare, copy, assign and leave variables, with
--                      Objects/Scopes/Laws for what holds of them
--   Objects/Terminating
--                      release with a Terminate that the program has written
--   Objects/Graph      objects with references to others, addref, release and the assignment of a
--                      reference in lib/core/core.h: Graph/Counts and Graph/Cascade are the invariant
--                      of the counts through a release, Graph/Edits, Graph/Writes and Graph/Makes
--                      through the other operations, Graph/Ranked objects without a cycle, and
--                      Graph/Programs the programs that make, load and store
--   Array/Rows         the constructor of an array from nested lists, and the operators that change an
--                      array in place; Array/Fill and Array/Parts are the loops that fill an array
--   Dictionary         dictionary<T> of lib/core/core.h, with Dictionary/Refine for the finite map
--                      behind it
--   Startup            main and OnInit, abort_with_error and term_func of lib/core/stc.cpp, stcQT.cpp,
--                      stw.cpp and stwQT.cpp
--   Console            Print and Input of lib/core/core.cpp; Console/Scan is what scanf and getline do
--   Format, Clock      Format, and Date, FullDate, Time and Hex of lib/System.cpp
--   Terminal           kbhit, InStat and InKey of lib/System.cpp
--   Patterns           ReplaceEx, SearchEx, SearchAllEx and Like of lib/System.cpp
--   Paths              IsDIR, FileExists, ChDir, Kill, Environ, … of lib/System.cpp
--   Maths              Abs, Fix, Frac, Round, Rnd, Timer, Sleep, … of lib/System.cpp; Maths/Rounding
--                      is Round on both sides of 0
--   Libraries          loadlib, unloadlibs, getlibhandle and getprocaddr of lib/core/core.cpp
--   Basics             NewLine, RunAs, IIf, Val, Str, … of lib/System.cpp, and the joining of a string
--                      and a number and operator-> of lib/core/core.h
--   Conversions        conv, Defer, and the pair between variant and ref<T> of lib/core/core.h
--   Memory             MemCpy, MemCmp, MemoryCreate, MemoryFree, … of lib/System.cpp; Memory/Blocks is
--                      the invariant of the blocks
--   Sinks              CEventSink and COM_EVENTS_CONNECT of lib/core/comsink.h
--   Glue               lib/core/wx.h, lib/core/QT.h and include/wxThreadEx.h
--   Base, Cpp          shared helpers; the integers, std::string and doubles the code stands on
--   Examples           runs at concrete inputs
--
-- A string is a list of bytes. A call returns an Outcome: a value, what it throws, or undefined
-- behaviour. Where the code changes an object, the function returns the changed one. An int or a Long
-- is an integer, and to_size, to_long and to_int write out the conversions with their wrap-around:
-- size_t and Long have 64 bits, int and Integer have 32.
--
-- The loops of Replace and Split run on fuel, as many rounds as the text is long and one more: each
-- round passes over a byte of the text at least. A release in Objects/Graph runs on as many steps as
-- the objects have fields, and one more, for each step deletes the object whose fields it adds, or
-- adds none. VarPtr_STRING reads at most as many bytes as it is told. A release with a Terminate that
-- hands on other objects needs two rounds of fuel, and with one that hands on its own object no fuel
-- is enough. The other loops are recursions on a list or on the number of rounds left.
--
-- The parts meet where the library calls itself: Replace calls InStr, Left and Mid; Split, Join,
-- SearchAllEx and the entry points work on an array; InStr takes a variant; an entry point shows the
-- call stack of Debug when the program throws.
--
-- Floating point is a parameter: the record Floats of Cpp/Floats, with the hypotheses that whole
-- numbers up to 2 ^ 53 are exact and that 1 prints as "1", and the record Reals of Maths, of which
-- Maths/Rounding relies on exactness below 2 ^ 52. So are the translated program (Startup), regular
-- expressions (Patterns), the operating system (Paths), the loader of libraries (Libraries) and the
-- place of a new entry in the order of an unordered_map (Dictionary), of which the only hypothesis is
-- that the entries are permuted, malloc and realloc (Memory), of which it is relied on that a block is
-- clear of the others, the COM object (Sinks), and the functions of the toolkits (Glue).
--
-- Not modelled: overflow of a signed int in a reference count, which has no defined result, and in
-- the overloads of redim and of the access to an array with one and with three dimensions. Those of
-- two and four dimensions, << and the constructor from rows compute in the range of an int, and an
-- overflow is an undefined result; the exact results, size, bounds and offset4 of Array, are what
-- they are compared to. Terminate is taken as the empty one of object but in Objects/Terminating,
-- and an object of Objects/Graph is taken as deleted from the moment at which its destructor
-- begins. lib/core/comobject.h and comutil.h are adapted from other projects, and so are the
-- libraries under include.
pub mod Base
pub mod Cpp
pub mod Variant
pub mod Strings
pub mod Array
pub mod Collection
pub mod Files
pub mod Dirs
pub mod Debug
pub mod Objects
pub mod Startup
pub mod Format
pub mod Dictionary
pub mod Terminal
pub mod Patterns
pub mod Paths
pub mod Maths
pub mod Libraries
pub mod Basics
pub mod Memory
pub mod Sinks
pub mod Conversions
pub mod Glue
pub mod Clock
pub mod Console
pub mod Examples
