-- ===== src/Lib.antt =====
-- The mylamina toolchain: the compiler of lm programs, the binary file and the virtual machine.
--
-- A source text goes through the lexer (compiler/lexer.cpp), the parser (compiler/parser.cpp) and
-- the code generator (compiler/generator), which appends instructions and constants. A program is
-- run at once, and also written to a binary file that the loader (runtime/loader.cpp) reads for
-- the virtual core (runtime/vm.cpp).
--
-- Files and sources:
--   Base: texts as lists of bytes, maps keyed by texts, little-endian bytes, 64-bit integers.
--   Opcode: include/opcode.hpp; Opcode/Codes has the byte of each opcode.
--   Emit: compiler/generator/emit.cpp, one function per emitter; Emit/Decode and Emit/Peephole.
--   Value: runtime/value/value.cpp, the union as its eight bytes; Value/Laws.
--   Vm: runtime/vm.cpp, runtime/vmcall.cpp and runtime/frame/frame.hpp: `execute` is the switch of
--     `VirtualCore::run` and `run` is its loop; Vm/State has the members of the machine and Vm/Steps
--     one function for each body of the switch; Vm/Straight, Vm/Effects, Vm/Calls and Vm/Locals;
--     Vm/Blind and Vm/Trimmed compare two programs.
--   Alloc: the class Allocator of compiler/generator/generator.cpp; Alloc/Laws.
--   Scope: CompilingFrame and find_var of compiler/generator/generator.hpp; Scope/Laws.
--   Ast: compiler/ast.hpp, one data type for all nodes.
--   Generator: compiler/generator/generator.cpp. State has the members of the class Generator and
--     the computations on them, where `none` is a crash of the compiler; Expr, Call and Stmt have the
--     gen_ functions on the computations for the parts, Tree has sub_gen. Arith is
--     about the code of integer expressions and of declarations with them: Arith has their values,
--     with Arith/Meaning for what the texts of the operators stand for, apart from the table of
--     opcodes and from the machine, and Arith/Variables for the variables; Keeps about the
--     instructions that every function leaves (their shape is in Emit/Shape). Listing has print_ops
--     and print_vars; Listing/Targets. Use has gen_use and compile of compiler/common.hpp, the
--     compilation of another file, which the other modules take as an argument.
--   Loader: write_binary_file of compiler/generator/generator.cpp and runtime/loader.cpp, on the bytes
--     of the file; Loader/RoundTrip, and Loader/Trim on emitted instructions.
--   Lexer: compiler/lexer.cpp; Lexer/Next has `next` and `tokenize`; Lexer/Literals, Lexer/Progress;
--     Lexer/Report has the message of `error`, Lexer/Report/Silent when it is empty.
--   Parser: compiler/parser.hpp and parser.cpp. State has the members of the class Parser, its moves
--     and its errors; Types, Expr and Stmt have the parse_ functions. Grammar and Forms say which
--     tokens an expression and a statement are written with and which tree they stand for. Reads
--     is about runs that only move; Marks, Ranks, Ends, Fronts and Entry about the tokens that
--     begin and end a form; Climb, Operand and Arguments about expressions, Branch, Compound,
--     Choices and Params about the kinds of statements. RoundTrip, Statements and Program join
--     these. Stuck, Safe (with SafeExpr and SafeStmt) and Caught are about errors.
--   Driver: tools/lm/common/file_run.cpp, `file_run` and `binary_run` over a map of files;
--     Driver/Saved is about the file that is saved and Driver/Kept about the other files, with
--     Driver/Stem about the path of the saved one.
--   Foreign: runtime/libloader.cpp and the foreign calls of runtime/vmcall.cpp; Foreign/Laws.
--   Repl: tools/lm/common/repl.cpp, one round of the loop of `run_repl`, which joins the lexer, the
--     parser, the generator and the machine; Repl/Session on a line and Repl/Lines on several.
--   Tests: concrete inputs.
--
-- Undefined behaviour of C++ (an index out of range, signed overflow, a division by zero, a null
-- string) is a value of its own: `fault` in the machine, `none` in the generator, in the comparisons
-- and the text of a value and in `next` and `error` of the lexer, `undefined` in the parser,
-- `crashes` in the interactive loop and the file runner. `tokenize` rejects a text with an unknown
-- token without the message: where a caret of the message is written outside its string, which
-- is undefined, it is rejected like the others. Fuel: `run` takes a number of
-- passes, and theorems about it give one that is enough; `load` takes a number of instructions;
-- `tokenize` takes a pass for each character; the loops and the recursion of the parser take a
-- number of rounds, and theorems say for which it is enough.
--
-- Parameters: the C++ library on doubles, number texts and hashes (`Libc`), `fgets` and the foreign
-- functions of runtime/libloader.cpp (`Host`; dlopen, dlsym, paths and dyncall in their own model,
-- `Platform`), the compilation of another file for `use`, where the constants lie in memory
-- (`Memory`), the order in which an unordered map is walked, and the longest string (`max_size`).
--
-- Not modelled: the texts of the generator's errors, which print_error prints; main of
-- tools/lm/main.cpp, which asks the system for paths and calls file_run or run_repl; the prompt and
-- the console; runtime/object, which the machine does not use and where nothing is ever inserted.
-- The machine takes the calls of foreign functions from its `Host`, apart from their model.
pub mod Base
pub mod Opcode
pub mod Emit
pub mod Value
pub mod Vm
pub mod Alloc
pub mod Scope
pub mod Lexer
pub mod Loader
pub mod Ast
pub mod Parser
pub mod Repl
pub mod Driver
pub mod Foreign
pub mod Generator
pub mod Tests
