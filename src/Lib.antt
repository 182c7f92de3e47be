-- ===== src/Lib.antt =====
-- Archive::Tar::Builder, a streaming tar archiver: a model of the C library under src/, and what it
-- does. A walk over directories (src/b_find.c) finds the members. A member goes through the library like
-- this: the patterns decide whether its path is left out (src/match_engine.c, which reads them with
-- src/match_line_reader.c and asks src/match_path.c), and b_builder_write_file() of src/b_builder.c
-- writes it, the callback of the walk: the path is split into components (src/b_path.c, which uses
-- stacks and strings), the header is encoded into a block of 512 bytes (src/b_header.c), and blocks are
-- taken from a buffer that is flushed to a file descriptor (src/b_buffer.c, src/b_file.c).
--
-- Files:
--   Prelude     Booleans, lists, 64-bit words and C strings over the native numbers
--   Stack       src/b_stack.c; Stack/Refine and Stack/Order against lists
--   Text        src/b_string.c; Text/Refine against lists of bytes
--   Util        src/b_util.c; Util/Texts and Util/Join: joined texts
--   FilePath    src/b_path.c; FilePath/Clean: components, and clean paths
--   PathMatch   src/match_path.c: Class is pm_list(), Loop is pm() and lafe_pathmatch(); Fuel: it
--               ends; Safe: patterns without a bracket; Literal and Literals: patterns of ordinary
--               bytes; Render: classes
--   Matching    src/match_engine.c; Verdict and Unmatched for every matcher; Lafe fills the
--               interface with lafe_pathmatch()
--   Buffer      src/b_buffer.c; Flush: the loop over write(2); Stream and Room: the buffer as
--               a stream, and the blocks in it; Splice: what flushing leaves alone
--   PathBlocks  b_file_write_path_blocks() of src/b_file.c
--   Header      src/b_header.c and src/b_header.h: Number and Layout are the fields and the block,
--               Encode the encoding; Digits, Fields, Readback and Checksum read it back; Sized: its 512 bytes
--   Errors      src/b_error.c; Status: runs of its operations
--   Member      path_split() and header_for_file() of src/b_builder.c; Parts: the two parts of a path;
--               Fits: from the name to the block and back
--   Pax         the pax headers of src/b_header.c and src/b_file.c; Length: the length that counts
--               itself; Blocks: the records as they are sent
--   Contents    b_file_write_contents() of src/b_file.c: Chunk is a round, Padding the sizes, Stream
--               the file on a stream, Short a file that ends too early
--   Builder     the builder of src/b_builder.c: Options its accessors, Long and Write are
--               b_builder_write_file(); Stream, LongNames and Sends: what it sends
--   Find        src/b_find.c: the items, and in Loop the stack of directories; Walk: the recursion
--               over a tree; Enters, Carries and Ends: the loop carries it out; Order: the calls
--   LineReader  src/match_line_reader.c; Splits: the lines of a text; Reads, Found, Rounds and Whole:
--               the reader gives them; Patterns: pattern files
--   Archive     b_find() with b_builder_write_file() as its callback: a whole tree
--   Tests       theorems at concrete inputs, and runs
--
-- State is passed on: an operation that changes a structure returns the new one, with what the source
-- returns. A pointer that may be NULL is an Option. What the system answers (malloc(), write(2),
-- fstat(2), readlink(2), read(2), the contents of a directory or a file) is an argument. A list of
-- bytes stands for the memory behind a pointer; a pointer that walks through a text is what is left of
-- the text. The arithmetic of size_t is modulo 2^64 where it can wrap; where a bound keeps it from
-- wrapping, the theorem has the bound as a condition (2^61 slots of a stack, 2^62 bytes of a buffer).
--
-- Fuel: the loop of pm() drops at least a byte of the pattern in a round, so that a round for each byte
-- and one for the end are enough (PathMatch/Fuel). The loops over an index have the number of
-- rounds to go as an argument; the loop over write(2) goes over the answers.
-- The walk of b_find() has an argument for the rounds of its loop, and a tree's entries and directories
-- are enough (Find/Ends); a call of the line reader has a round for each byte that is left and three
-- more (LineReader/Whole); b_file_write_contents() has one for each byte and one more.
--
-- Not modelled: the release of memory, and failed allocations where an operation is said to grant
-- them; what splice(2) has sent is in the model of b_file_write_contents(), but its theorems are for
-- descriptors that take no splice; and the Perl side (src/Builder.xs, lib, t) but for the
-- callback that it passes to b_find().
pub mod Prelude
pub mod Stack
pub mod Text
pub mod Util
pub mod FilePath
pub mod PathMatch
pub mod Matching
pub mod Buffer
pub mod PathBlocks
pub mod Contents
pub mod Header
pub mod Pax
pub mod Errors
pub mod Member
pub mod Builder
pub mod Find
pub mod Archive
pub mod LineReader
pub mod Tests
