-- ===== src/Lib.antt =====
-- A verification library of Lone, a freestanding Lisp for the Linux kernel.
--
-- The program has a runtime of its own instead of a C library (bytes, bits, memory, UTF-8, hashes,
-- system calls), and on it the interpreter: tagged words, a heap of 64-byte values with a bitmap of
-- the live ones, the values, a reader, a stack machine, a garbage collector, a printer and the
-- intrinsic modules. The heap finds room with the bitmap search, the values store the index of a
-- heap value in a tagged word, and the tables hash byte strings with the hash functions.
--
-- Which file models what:
-- Prelude: shared names; Tests (Boolean tests), Lists, Binary (the laws of | and &), Order,
--   Integers.
-- Unicode: source/lone/unicode.c. decode, encode and validate are the functions
--   lone_unicode_utf8_*; continue_with is the decoder's loop and decode_sequence what follows its
--   choice of a length. Masks, RoundTrip, Sound and Validation hold the proofs.
-- Bytes: source/lone/types.c. A pointer into a buffer is the list of the bytes from there on; a
--   write returns the new buffer.
-- Hash/Fnv1a and Hash/SipHash: source/lone/hash/fnv_1a.c and source/lone/hash/siphash.c, as state
--   passing; fill, words_loop and keep are the loops of lone_hash_siphash_update.
-- Bits: source/lone/bits.c. scan is lone_bits_scan with its three loops; the compiler's builtins
--   for leading zeros and for swapping bytes are written out from their documented meaning.
-- Memory: source/lone/memory/functions.c (compare, is_equal, is_zero, string length) and the bounds
--   test of source/lone/memory/array.c.
-- Value: source/lone/lisp/types.c with the constants of include/lone/lisp/types.h and
--   include/lone/lisp/definitions.h; Value/Integer is source/lone/lisp/value/integer.c.
-- Heap: source/lone/lisp/heap.c. retry is the loop of lone_lisp_heap_allocate_value from its label
--   on, and occupy what follows a successful search.
-- Pairs: source/lone/lisp/value/list.c.
-- Equivalence: the bytes of a value and lone_lisp_is_equivalent of source/lone/lisp/types.c, with
--   lone_bytes_is_equal; where the bytes of a value lie in memory is a parameter (address).
-- Stack: source/lone/lisp/machine/stack.c with the tests of source/lone/stack.c. A stack's mapping
--   is the list of the words it has room for; unwind_from is the loop that looks for a delimiter.
-- Utilities: source/lone/utilities.c.
-- Table: source/lone/lisp/value/table.c. Table itself is the hash storage with its searches,
--   resize, assignment, look-up and deletion (probe, rehash and shift_back are their loops);
--   Table/Object the tables that are hashed or shaped, with their prototypes and iteration. Cycle
--   is the arithmetic of the ring of slots; Probe, Search, Insert, Shift, Delete and Rehash keep
--   the invariant IsStorage; Contents is the ordered list of keys and values that a client sees,
--   which Refinement and Assignment relate to the operations. Keys is what a table asks of
--   lone_lisp_hash_of, which exits on a value that has no hash, and of lone_lisp_is_equal, with the
--   laws of both that the look-up needs. Hashing is source/lone/lisp/hash.c, which fills Keys for
--   inline values and interned symbols; structural equality on the heap stays a parameter.
-- Collector: source/lone/lisp/garbage_collector.c, the mark phase and the sweep. A heap value is
--   the union that the collector reads, and references lists the words that it is marked through;
--   the known roots, the frames of the machine's stack and the words of the native stack with the
--   saved registers are lists of words, and the address of the heap's values is a number. Marking
--   holds the recursion, Reachability tells what it is meant to reach by the fields of the values
--   alone, and References that the code goes through these; Native and Scanned hold the scan of the
--   native stack.
-- Vectors: source/lone/lisp/value/vector.c, on the vector that a heap value holds; Contents and
--   Push relate it to the list of its values.
-- Datum: the values as trees, without their places in the heap, for the reader and the printer;
--   Keys is an abstract table of trees, the list of its entries, which stands for the contents of
--   Table/Object.
-- Reader: source/lone/lisp/reader.c over bytes in memory; Quoted has the loops over the content of
--   text and byte literals, Lexer the tokens, and Parser the recursive descent. Measure, Buffer,
--   Contents, Atoms, Progress and Parser/Termination hold the proofs.
-- Printer: source/lone/lisp/printer.c. print_from has a flag for the rest of a list behind its
--   first, which is how lone_lisp_print_list calls itself. Printer/RoundTrip relates it to the
--   reader.
--
-- Conventions. Words are natural numbers with the wrap-around written out; a signed long is an
-- integer or the word of its two's complement. linux_exit(-1) is none. A long has 64 bits and the
-- machine is little-endian, as on the two supported architectures. Memory obtained from the kernel
-- starts at a page and is zero; whether the kernel grants it is a parameter (map, remap), and so is
-- the allocator (memory).
--
-- Fuel. The loop of the validator has one round for each byte, and a theorem says that it returns.
-- The retry loop of the heap takes its number of rounds as an argument, and two are proved enough.
-- The walk of list_is_proper takes a number of steps, since a list on the heap may be cyclic, and
-- so does the look-up through the prototypes, for which one more than there are is proved enough.
-- The search and the backward shift of a table have as many rounds as there are slots, which the
-- theorems show to be enough where a slot is free. The recursion of the mark phase has its depth as
-- an argument, for which more than the number of bits of the bitmap is proved enough. The iteration
-- over a table takes a bound on its rounds, for which more than the entries is proved enough, and
-- the loop that grows a stack for a block of frames takes a number of rounds. The calls and the
-- loops of the parser have twice as many rounds as bytes and three more, the loop over the content
-- of a literal as many as bytes, and a theorem says that no input makes them run out. The loop that
-- writes digits has the room of its buffer. The hash of a list takes a number of rounds for its
-- depth. Every other loop is structural, on a list of bytes or on a count that the source computes.
--
-- Not modelled: the reader over a file descriptor, the machine, the compaction of the heap, the
-- allocator, text, bytes and symbol values, the hash and the structural equality of values, and the
-- modules with their primitives; of tables, the creation from a shape and the look-up by bytes; of
-- lists, flatten, destructure and the conversion to a vector; of memory, move and set. System
-- calls, process start-up, ELF, the embedding tool and the test programs are input and output with
-- the kernel, or tools, and are left out.
pub mod Prelude
pub mod Bytes
pub mod Unicode
pub mod Hash
pub mod Bits
pub mod Memory
pub mod Value
pub mod Heap
pub mod Pairs
pub mod Equivalence
pub mod Stack
pub mod Table
pub mod Utilities
pub mod Collector
pub mod Datum
pub mod Reader
pub mod Printer
pub mod Vectors
