-- ===== src/Driver/Saved.antt =====
-- tools/lm/common/file_run.cpp: what `file_run` saves, and what it makes of that later.
use mylamina.Base.{
  ℕ, suc, ◌+◌, ◌≡◌, refl, Bool, true, false, ◌==◌, List, [], ◌∷◌, ◌++◌, map, Option, none, some,
  if◌then◌else◌, sym, ap, ◌∙◌, Text, lookup, insert, lookup-insert_self, take, of_le, le_bytes,
  length, All, >>=-eq-some, ◌||◌,
}
use mathlib.Core.Path.{subst}
use mathlib.Core.Option.{some-injective}
use mylamina.Opcode.{Op, halt, new_op}
use mylamina.Opcode.Codes.{byte_of}
use mylamina.Emit.Shape.{IsEmitted, Emitted}
use mylamina.Loader.{get_ops, ops_bytes, Loaded, write_binary, lmx_magic, lmx_version}
use mylamina.Loader.Trim.{trimmed, load-trimmed_double}
use mylamina.Lexer.Next.{Tokens, tokenize}
use mylamina.Ast.{Node, is_null}
use mylamina.Parser.State.{
  ParserState, Parsing, parsed, thrown, stopped, undefined, no_fuel, new_parser,
}
use mylamina.Parser.Stmt.{parse_program}
use mylamina.Generator.State.{Generator, Gen, new_generator}
use mylamina.Generator.Tree.{gen}
use mylamina.Generator.Keeps.{KeepsAll}
use mylamina.Generator.Keeps.Program.{IsProgram, gen-IsProgram}
use mylamina.Vm.State.{Host, Outcome}
use mylamina.Repl.{Memory}
use mylamina.Driver.{
  Files, Status, rejected, ran, crashes, endless, Answer, output_path, run_program, run_loaded,
  binary_run, save_and_run, generated_file, parsed_file, parse_file, lexed_file, opened_file,
  file_run, source_of,
}

no_code : Emitted new_generator.emitter.ops
unfolding new_generator
no_code = record { each = tt }

module _ (host : Host) (c : Text → Gen ℕ) (memory : Memory) (text_at : ℕ → List ℕ) where
  -- The file at `path` is run as the instructions that were compiled, one HALT, and the constants with
  -- the byte of a HALT in front of them.
  abbrev pub RunsAgain : Text → Files → List Op → List ℕ → Type 0
  RunsAgain path files os pool =
      (rounds passes more : ℕ)
      → file_run host c memory text_at rounds passes (suc (length os + more)) path files ≡ (
        run_program host memory text_at passes (map trimmed (os ++ (new_op halt ∷ [])))
            (byte_of halt ∷ pool),
        files,
      )

  module _ (passes : ℕ) (name : Text) (files : Files) where
    abbrev Saved : Status → Files → Type 0
    Saved (ran o) fs =
        (os : List Op) × (pool : List ℕ) × All IsEmitted os
        × (run_program host memory text_at passes ((os ++ (new_op halt ∷ [])) ++ (new_op halt ∷ []))
              pool
            ≡ ran o)
        × RunsAgain (output_path name) fs os pool
    Saved rejected fs = Unit
    Saved crashes fs = Unit
    Saved endless fs = Unit

    abbrev SavedBy : Answer → Type 0
    SavedBy (s, fs) = Saved s fs

  -- A file that begins as `write_binary` begins it goes to the loader.
  magic_first :
      (ops : List Op) (pool bytes : List ℕ)
      → write_binary ops pool ≡ some bytes
      → (of_le (take 4 bytes) == lmx_magic) ≡ true
  unfolding write_binary le_bytes of_le
  magic_first ops pool bytes e =
      let (all, g, w) =
        >>=-eq-some (get_ops ops)
          (λ all.
            some (le_bytes 4 lmx_magic ++ (le_bytes 4 lmx_version ++ (ops_bytes all ++ pool))))
          e in
      subst (λ (b : List ℕ). (of_le (take 4 b) == lmx_magic) ≡ true) (some-injective _ bytes w) refl

  runs_again :
      (path : Text) (files : Files) (os : List Op) (pool : List ℕ) (bytes : List ℕ)
      → All IsEmitted os
      → write_binary ((os ++ (new_op halt ∷ [])) ++ (new_op halt ∷ [])) pool ≡ some bytes
      → RunsAgain path (insert path bytes files) os pool
  unfolding file_run opened_file binary_run run_loaded
  runs_again path files os pool bytes h w rounds passes more =
      let (file, w', l) = load-trimmed_double os pool more h in
      let e : file ≡ bytes = some-injective file bytes (sym w' ∙ w) in
      rw (lookup-insert_self path bytes files, magic_first _ pool bytes w)
        (rw e at (
          ap {B = Answer}
            (λ (x : Loaded). (run_loaded host memory text_at passes x, insert path bytes files)) l))

  module _ (k : (path : Text) → KeepsAll (c path)) (passes : ℕ) (name : Text) (files : Files) where
    SavedBy-if :
        (b : Bool) (x : Answer)
        → SavedBy passes name files x
        → SavedBy passes name files (if b then (rejected, files) else x)
    SavedBy-if true x h = tt
    SavedBy-if false x h = h

    Saved-insert :
        (os : List Op) (pool bytes : List ℕ) (st : Status)
        → All IsEmitted os
        → write_binary ((os ++ (new_op halt ∷ [])) ++ (new_op halt ∷ [])) pool ≡ some bytes
        → run_program host memory text_at passes
            ((os ++ (new_op halt ∷ [])) ++ (new_op halt ∷ []))
            pool
          ≡ st
        → Saved passes name files st (insert (output_path name) bytes files)
    Saved-insert os pool bytes (ran o) h w e =
        (os, pool, h, e, runs_again (output_path name) files os pool bytes h w)
    Saved-insert os pool bytes rejected h w e = tt
    Saved-insert os pool bytes crashes h w e = tt
    Saved-insert os pool bytes endless h w e = tt

    save_and_run-Saved :
        (os : List Op) (pool : List ℕ) (w : Option (List ℕ))
        → All IsEmitted os
        → write_binary ((os ++ (new_op halt ∷ [])) ++ (new_op halt ∷ [])) pool ≡ w
        → SavedBy passes name files (
            save_and_run host c memory text_at passes name files
              ((os ++ (new_op halt ∷ [])) ++ (new_op halt ∷ []))
              pool
              w)
    unfolding save_and_run
    save_and_run-Saved os pool none h e = tt
    save_and_run-Saved os pool (some bytes) h e = Saved-insert os pool bytes _ h e refl

    program-Saved :
        (ops : List Op) (pool : List ℕ)
        → IsProgram ops
        → (let all = ops ++ (new_op halt ∷ []) in
            SavedBy passes name files (
              save_and_run host c memory text_at passes name files all pool
                (write_binary all pool)))
    program-Saved ops pool p =
        subst
          (λ (l : List Op).
            let all = l ++ (new_op halt ∷ []) in
            SavedBy passes name files (
              save_and_run host c memory text_at passes name files all pool
                (write_binary all pool)))
          (sym p.ends) (save_and_run-Saved p.body pool _ p.each refl)

    generated-Saved :
        (x : Option (ℕ × Generator))
        → ((r : ℕ) (g : Generator) → x ≡ some (r, g) → IsProgram g.emitter.ops)
        → SavedBy passes name files (generated_file host c memory text_at passes name files x)
    unfolding generated_file
    generated-Saved none h = tt
    generated-Saved (some (r, g)) h =
        SavedBy-if g.node_has_error _ (program-Saved g.emitter.ops g.constant_pool (h r g refl))

    parsed-Saved :
        (x : Parsing Node)
        → SavedBy passes name files (parsed_file host c memory text_at passes name files x)
    unfolding parsed_file
    parsed-Saved (parsed n t) = SavedBy-if (is_null n || t.has_err) _ (
        generated-Saved (gen c n new_generator)
          (λ r g e. gen-IsProgram c n new_generator k no_code e))
    parsed-Saved (thrown e t) = tt
    parsed-Saved stopped = tt
    parsed-Saved undefined = tt
    parsed-Saved no_fuel = tt

    parse-Saved :
        (rounds : ℕ) (s : Option ParserState)
        → SavedBy passes name files (parse_file host c memory text_at rounds passes name files s)
    unfolding parse_file
    parse-Saved rounds none = tt
    parse-Saved rounds (some s) = parsed-Saved (parse_program rounds s)

    lexed-Saved :
        (rounds : ℕ) (x : Tokens × Bool)
        → SavedBy passes name files (lexed_file host c memory text_at rounds passes name files x)
    unfolding lexed_file
    lexed-Saved rounds (Tokens.done ts p, true) = tt
    lexed-Saved rounds (Tokens.done ts p, false) = parse-Saved rounds (new_parser false false ts)
    lexed-Saved rounds (Tokens.out_of_bounds, bad) = tt
    lexed-Saved rounds (Tokens.out_of_fuel, bad) = tt

    -- For compilation of other files that keeps a program of emitted instructions one: if the file does
    -- not begin with the magic number of a compiled program and `file_run` comes to the end of a
    -- machine's run, the program of this run is emitted instructions with two HALTs behind them, and
    -- the path with `.lmc` then names a file which `file_run` runs as these instructions, with 0 in the
    -- operand bytes that a file does not keep, one HALT, and the constants with the byte of the other
    -- HALT in front.
    pub file_run-saves :
        (rounds reads : ℕ) (bytes : List ℕ) {o : Outcome} {fs : Files}
        → lookup name files ≡ some bytes
        → (of_le (take 4 bytes) == lmx_magic) ≡ false
        → file_run host c memory text_at rounds passes reads name files ≡ (ran o, fs)
        → (os : List Op) × (pool : List ℕ) × All IsEmitted os
          × (run_program host memory text_at passes
                ((os ++ (new_op halt ∷ [])) ++ (new_op halt ∷ []))
                pool
              ≡ ran o)
          × RunsAgain (output_path name) fs os pool
    unfolding file_run opened_file
    file_run-saves rounds reads bytes l m e =
        subst (SavedBy passes name files) (rw (l, m) refl ∙ e)
          (lexed-Saved rounds (tokenize (source_of bytes) 1))
