-- ===== src/Lib.antt =====
-- A model of the linker, the symbol lister, the assembler and the runner of nvptx-tools, and what makes
-- them correct.
--
-- nvptx-tools is a set of stand-ins for binutils on PTX text. Its linker, nvptx-ld.cc, reads
-- object files that are PTX with marker lines ("// BEGIN GLOBAL FUNCTION DEF: f"), scans them for
-- DEFs, and then links files as long as symbols are unresolved: the text of a linked file is
-- appended to the output, its DEFs become included, its DECLs are enqueued as unresolved. An input
-- file on the command line is forced in by a special symbol "*inputfile 0 name" that is enqueued
-- for it; an archive member is linked only when a DEF of it is needed. Its lister, nvptx-nm.cc, reads
-- the same marker lines, of global and of local symbols, merges the types of the markers of a symbol,
-- and prints the symbols sorted. Its assembler, nvptx-as.cc, cuts PTX text into tokens, checks the
-- preamble, parses the tokens into statements of declarations, of variables and of functions, and
-- writes them again, each variable behind those that its initializer names; then it has the output
-- verified by a library or by `ptxas`, if there is one. Its runner, nvptx-run.cc, gives the parts of a
-- linked program to the CUDA driver and launches it.
--
-- Base           C strings (strcmp, strncmp, strchr) and lists over the native numbers.
-- Hashtab        libiberty/hashtab.c as the tools call it: a parameter, with the laws of a table
--                under strcmp; Hashtab.Assoc is an instance that the tests run.
--                Hashtab.Traversal is `htab_traverse_noresize`, a parameter with the law that its
--                entries are those of the table; Hashtab.Count is `htab_elements`, a parameter too.
-- Libc           `strtol`, the C integers that it reads, and `%d`.
-- Result         The results of the tools: a value, or the error on the way to `error_out`;
--                Result.Ensures states what holds on success and on each error.
-- Options        The loop around `getopt_long`, whose results are its input.
-- Ld.Symbol      nvptx-ld.cc: `symbol_hash_entry`, `symbol_hash_lookup`, `enqueue_as_unresolved`,
--                `dequeue_unresolved`, `define_intrinsics`. A function's write to `*e` is a `put`
--                of the changed entry. `e->pprev != NULL` is the flag `queued`; the intrusive list
--                `unresolved` is the list of its keys. A file is `intrinsic` or `object i`, the
--                i-th `file_hash_new`. Symbol.Valid has the well-formedness of table and queue.
-- Ld.Marker      What one round of the loop of `process_refs_defs` reads at `ptx`.
-- Ld.Process     `process_refs_defs` in its two modes. Process.Listing separates reading from
--                handling; Process.Link and Process.File say what linking a marker and a file do;
--                Process.Ends is about the result in either mode.
-- Ld.Scan        `main`: the scan of the input files and of the members of an archive.
-- Ld.Resolve     `main`: the loop under the label `resolve`. Resolve.Round and Resolve.Queue are
--                about the `for` loop, Resolve.Linking about the files of `to_add`,
--                Resolve.Invariant about what holds between rounds, Resolve.Loop about the loop.
-- Ld.Special     `cdtor`, `handle_special_purpose_functions`, and what `main` does behind the
--                resolve loop: the second resolve run. `std::sort` is an insertion sort.
-- Ld.Archive     nvptx-ld.cc: `class archive`. The stream stands at `off` between the calls, so an
--                archive is its text and `off`. Archive.Bounds is about offsets and the end of the
--                loop over the members, Archive.Image about archives that `ar` writes.
-- Ld.Main        nvptx-ld.cc: `path_resolve`, the options, the search for libraries, the loop over
--                them, and `main` end to end. `std::list::sort` is an insertion sort.
-- Nm.Symbol      nvptx-nm.cc: `symbol_hash_entry`, `symbol_hash_lookup`, and what a marker makes of the
--                type of its symbol: the chain of tests of `process_refs_defs`. The type '\0' is `none`.
-- Nm.Marker      What one round of the loop of `process_refs_defs` reads at `ptx`.
-- Nm.Process     `process_refs_defs`, and the loop of `main` over the NUL-separated parts of a file, with
--                a global table for all and a local table for each. Process.Fold separates reading from
--                handling; Process.Types and Process.Ends are about a part, Process.Parts about a file.
-- Nm.Display     The sorting predicates, `qsort`, the print of a symbol, `display_rel_file`. `strcoll` is
--                a parameter: Display.Collation states what is relied on of it, Display.Before what the predicates mean.
--                `print_value` has the format that `get_print_format` makes for a width and radix 16.
-- Nm.Main        `main`: the options and the loop over the files. A run is what it prints and the error
--                that ended it.
-- As.Token       nvptx-as.cc: `tokenize` and `write_token`. A token holds its text in place of `ptr` and
--                `len`, which has 16 bits; `in_comment` is kept between tokens as the code keeps it.
--                Token.Fuel and Token.Stuck are about the end of the loop, Token.Ended about the last token, Token.Strings
--                about strings.
-- As.Preamble    nvptx-as.cc: `verify_preamble`.
-- As.Statement   nvptx-as.cc: `Stmt`, `alloc_stmt`, `rev_stmts` and `write_stmts`. A list of statements is a
--                list, with `append_stmt` in front.
-- As.Order       nvptx-as.cc: `symbol_order_deps`, and the loop of `process` over the symbols. A symbol is
--                its place in `symbols`, the flags are functions, and the dependences a parameter.
-- Nm.Agreement   The marker lines that the lister and the linker both read.
-- Ld.Correct     The linker's promises, from `define_intrinsics` to the end of the resolve loop.
-- Run            nvptx-run.cc: Run.Switch has the options, Run.Parts the loop of `compile_file` over the
--                parts of the program, which is less than `INT_MAX` bytes, Run.Stack the default stack size. `strtol` in base 0 is a
--                parameter, and the driver is not modelled.
--
-- A string is the list of its bytes, which end where the buffer's NUL stands. Errors are values of
-- `Result.Error`, one for each way to `error_out`, and one for a failed `assert`; a text on
-- stderr, verbose or not, is not modelled. The file system is a function from names to contents,
-- `exists` says of which names `access` succeeds, and `writes` of each file whether its `fwrite` does.
-- `ar_size` is read by `atol` as the code does it, up to the first byte that is no digit: the array is
-- not terminated, but `ar_fmag`, which follows it, is no digit.
--
-- Fuel. The loop of `process_refs_defs` gets the length of the text and one more, since a round
-- consumes a byte; the resolve loop gets the number of objects and one more, since a round that is
-- not the last links an object that was not linked; `%zu` gets the number and one more, since each
-- digit makes the number smaller; the loop over the members of an archive gets the length of the file
-- and one more, since a member takes its header; the loop over the parts of a file gets the length of the
-- file and one more, since a part takes its NUL. The loop of `tokenize` gets the length of the text and
-- one more, since a token takes a byte; where it runs out, the loop stands at a NUL in a block comment that is
-- not closed, and the code does not end. `symbol_order_deps` gets the number of symbols
-- and one more, since each call that goes on makes one more symbol pending. The loops of `parse_insn`,
-- `parse_init` and over the file get the number of tokens and one more, since each round takes one; the loop
-- over the parts of a program gets the length of the file, since a part or its NUL has a byte.
--
-- The theorems on scan and resolve are about files whose markers name no symbol that begins with
-- '*', the names that the linker keeps for itself.
--
-- The calls of NVRTC, nvJitLink and the pex library, `access` and `stat` are parameters of the assembler's
-- `main`, each with what it returns. A number in an architecture fits into `int`.
--
-- Not modelled: the message texts, `usage` and the version; `getopt_long` itself; a read error behind a
-- successful open; the removal of the output file on the way to an error; the calls of the CUDA driver in nvptx-run.cc, with the
-- copy of the arguments to the device; the interface files,
-- which forward calls to shared libraries; libiberty, a copy of GNU's.
pub mod Base
pub mod Hashtab
pub mod Libc
pub mod Result
pub mod Options
pub mod Ld
pub mod Nm
pub mod As
pub mod Run
mod Tests
