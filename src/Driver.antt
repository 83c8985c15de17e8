-- ===== src/Driver.antt =====
-- tools/lm/common/file_run.cpp: a file is run, or compiled, saved and run. The files are their
-- bytes by their paths, and a path that is written can be written. Where the constants lie in
-- memory is the argument `memory`; other files are compiled by the argument `c`. `rounds` and
-- `passes` bound the parser and the machine, `reads` the loader.
pub mod Saved
pub mod Kept
mod Stem
use mylamina.Base.{
  ℕ, Bool, true, false, ◌||◌, ◌==◌, ltb, List, [], ◌∷◌, ◌++◌, Option, none, some, if◌then◌else◌,
  Text, lookup, insert, take, of_le, length,
}
use mylamina.Opcode.{Op, halt, new_op}
use mylamina.Loader.{Loaded, loaded, bad_format, still_loading, load, write_binary, lmx_magic}
use mylamina.Lexer.Next.{Tokens, tokenize}
use mylamina.Ast.{Node, is_null}
use mylamina.Parser.State.{
  ParserState, Parsing, parsed, thrown, stopped, undefined, no_fuel, new_parser,
}
use mylamina.Parser.Stmt.{parse_program}
use mylamina.Generator.State.{Generator, Gen, new_generator}
use mylamina.Generator.Call.{module_part}
use mylamina.Generator.Tree.{gen}
use mylamina.Vm.{run}
use mylamina.Vm.State.{VirtualCore, Host, Outcome, initial_core}
use mylamina.Repl.{Memory}

abbrev pub Files : Type 0
Files = List (Text × List ℕ)

-- `return -1` or `exit(-1)` before a program runs, what `run` came to, a crash before
-- the machine runs, or no end.
pub data Status : Type 0 where
  rejected : Status
  ran : Outcome → Status
  crashes endless : Status

abbrev pub Answer : Type 0
Answer = Status × Files

-- `const std::string& path` of `write_binary_file`, cut at the last dot, with `.lmc`.
unfoldable pub output_path : Text → Text
output_path path = module_part path ++ (b'.' ∷ b'l' ∷ b'm' ∷ b'c' ∷ [])

-- `VirtualCore vm`, `set_program` and `set_constant`.
unfoldable pub new_core : Memory → (ℕ → List ℕ) → List Op → List ℕ → VirtualCore
new_core memory text_at ops pool =
    let s = initial_core (memory pool text_at).1 in
    record s { program = ops; const_pool_top = (memory pool text_at).0 }

unfoldable pub status_of : Option Outcome → Status
status_of none = endless
status_of (some r) = ran r

-- `vm.run()` on a program and its constants.
unfoldable pub run_program : Host → Memory → (ℕ → List ℕ) → ℕ → List Op → List ℕ → Status
unfolding status_of
run_program host memory text_at passes ops pool =
    status_of (run host passes (new_core memory text_at ops pool))

unfoldable pub run_loaded : Host → Memory → (ℕ → List ℕ) → ℕ → Loaded → Status
run_loaded host memory text_at passes (loaded ops pool) =
    run_program host memory text_at passes ops pool
run_loaded host memory text_at passes bad_format = rejected
run_loaded host memory text_at passes still_loading = endless

-- `binary_run`
unfoldable pub binary_run : Host → Memory → (ℕ → List ℕ) → ℕ → ℕ → List ℕ → Status
unfolding run_loaded
binary_run host memory text_at reads passes bytes =
    run_loaded host memory text_at passes (load reads bytes)

-- What `src` holds: a file of fewer than four bytes has failed the read of `magic`, so that
-- `seekg` does not go back to its beginning.
unfoldable pub source_of : List ℕ → Text
source_of bytes = if ltb (length bytes) 4 then [] else bytes

module _ (host : Host) (c : Text → Gen ℕ) (memory : Memory) (text_at : ℕ → List ℕ) where
  -- `write_binary_file(file_name)` and the run of the program.
  unfoldable pub save_and_run : ℕ → Text → Files → List Op → List ℕ → Option (List ℕ) → Answer
  save_and_run passes name files ops pool none = (crashes, files)
  save_and_run passes name files ops pool (some bytes) =
      (run_program host memory text_at passes ops pool, insert (output_path name) bytes files)

  -- `generator.gen(node)` has come to its end; then `ops.emplace_back(HALT)`.
  unfoldable pub generated_file : ℕ → Text → Files → Option (ℕ × Generator) → Answer
  unfolding save_and_run
  generated_file passes name files none = (crashes, files)
  generated_file passes name files (some (r, g)) =
      let ops = g.emitter.ops ++ (new_op halt ∷ []) in
      if g.node_has_error
      then (rejected, files)
      else save_and_run passes name files ops g.constant_pool (write_binary ops g.constant_pool)

  -- `parser.parse_program()` has come to its end.
  unfoldable pub parsed_file : ℕ → Text → Files → Parsing Node → Answer
  unfolding generated_file
  parsed_file passes name files (parsed n t) =
      if is_null n || t.has_err
      then (rejected, files)
      else generated_file passes name files (gen c n new_generator)
  parsed_file passes name files (thrown e t) = (crashes, files)
  parsed_file passes name files stopped = (crashes, files)
  parsed_file passes name files undefined = (crashes, files)
  parsed_file passes name files no_fuel = (endless, files)

  unfoldable pub parse_file : ℕ → ℕ → Text → Files → Option ParserState → Answer
  unfolding parsed_file
  parse_file rounds passes name files none = (crashes, files)
  parse_file rounds passes name files (some s) =
      parsed_file passes name files (parse_program rounds s)

  -- `lexer.tokenize(src)` has come to its end.
  unfoldable pub lexed_file : ℕ → ℕ → Text → Files → Tokens × Bool → Answer
  unfolding parse_file
  lexed_file rounds passes name files (Tokens.done ts p, true) = (rejected, files)
  lexed_file rounds passes name files (Tokens.done ts p, false) =
      parse_file rounds passes name files (new_parser false false ts)
  lexed_file rounds passes name files (Tokens.out_of_bounds, bad) = (crashes, files)
  lexed_file rounds passes name files (Tokens.out_of_fuel, bad) = (endless, files)

  -- The file has been opened.
  unfoldable pub opened_file : ℕ → ℕ → ℕ → Text → Files → Option (List ℕ) → Answer
  unfolding lexed_file
  opened_file rounds passes reads name files none = (rejected, files)
  opened_file rounds passes reads name files (some bytes) =
      if of_le (take 4 bytes) == lmx_magic
      then (binary_run host memory text_at reads passes bytes, files)
      else lexed_file rounds passes name files (tokenize (source_of bytes) 1)

  unfoldable pub file_run : ℕ → ℕ → ℕ → Text → Files → Answer
  unfolding opened_file
  file_run rounds passes reads name files =
      opened_file rounds passes reads name files (lookup name files)
