-- ===== src/Driver/Kept.antt =====
-- tools/lm/common/file_run.cpp: the files that `file_run` leaves as they were.
use mylamina.Base.{
  ℕ, ◌≡◌, ◌≢◌, refl, Bool, true, false, ◌==◌, List, Option, none, some, if◌then◌else◌, Text,
  text_eq, lookup, ◌++◌, [], ◌∷◌, lookup-insert_ne, take, of_le, ◌||◌,
}
use mylamina.Opcode.{Op}
use mylamina.Loader.{lmx_magic}
use mylamina.Lexer.Next.{Tokens, tokenize}
use mylamina.Ast.{Node, is_null}
use mylamina.Parser.State.{
  ParserState, Parsing, parsed, thrown, stopped, undefined, no_fuel, new_parser,
}
use mylamina.Parser.Stmt.{parse_program}
use mylamina.Generator.State.{Generator, Gen, new_generator}
use mylamina.Generator.Tree.{gen}
use mylamina.Vm.State.{Host, Outcome}
use mylamina.Generator.Call.{module_part}
use mylamina.Driver.Stem.{IsStem, module_part-IsStem}
use mylamina.Repl.{Memory}
use mylamina.Driver.{
  Files, Status, rejected, crashes, endless, Answer, output_path, status_of, run_program,
  save_and_run, generated_file, parsed_file, parse_file, lexed_file, opened_file, file_run,
  source_of,
}

-- The other files are as they were, and all of them after a rejection, or a crash before a program
-- has been saved.
pub record IsTidy (name : Text) (files : Files) (a : Answer) : Type 0 where
  pub stem : Text
  pub is_stem : IsStem name stem
  pub others :
      (m : Text)
      → text_eq (stem ++ (b'.' ∷ b'l' ∷ b'm' ∷ b'c' ∷ [])) m ≡ false
      → lookup m a.1 ≡ lookup m files
  pub rejects : a.0 ≡ rejected → a.1 ≡ files
  pub fails : a.0 ≡ crashes → a.1 ≡ files

untouched : (name : Text) (files : Files) (s : Status) → IsTidy name files (s, files)
untouched name files s = record {
  stem = module_part name;
  is_stem = module_part-IsStem name;
  others = λ m h. refl;
  rejects = λ h. refl;
  fails = λ h. refl;
}

IsTidy-if :
    (name : Text) (files : Files) (b : Bool) (x y : Answer)
    → IsTidy name files x
    → IsTidy name files y
    → IsTidy name files (if b then x else y)
IsTidy-if name files true x y h k = h
IsTidy-if name files false x y h k = k

-- A run is neither rejected nor a crash.
status_of-ends : (r : Option Outcome) → (status_of r ≢ rejected) × (status_of r ≢ crashes)
unfolding status_of
status_of-ends none = (λ e. cc, λ e. cc)
status_of-ends (some r) = (λ e. cc, λ e. cc)

module _ (host : Host) (c : Text → Gen ℕ) (memory : Memory) (text_at : ℕ → List ℕ) where
  module _ (passes : ℕ) (name : Text) (files : Files) where
    save_and_run-IsTidy :
        (ops : List Op) (pool : List ℕ) (w : Option (List ℕ))
        → IsTidy name files (save_and_run host c memory text_at passes name files ops pool w)
    unfolding save_and_run run_program output_path
    save_and_run-IsTidy ops pool none = untouched name files crashes
    save_and_run-IsTidy ops pool (some bytes) = record {
      stem = module_part name;
      is_stem = module_part-IsStem name;
      others = λ m h. lookup-insert_ne (output_path name) m bytes files h;
      rejects = λ h. absurd ((status_of-ends _).0 h);
      fails = λ h. absurd ((status_of-ends _).1 h);
    }

    generated-IsTidy :
        (x : Option (ℕ × Generator))
        → IsTidy name files (generated_file host c memory text_at passes name files x)
    unfolding generated_file
    generated-IsTidy none = untouched name files crashes
    generated-IsTidy (some (r, g)) =
        IsTidy-if name files g.node_has_error _ _ (untouched name files rejected)
          (save_and_run-IsTidy _ g.constant_pool _)

    parsed-IsTidy :
        (x : Parsing Node)
        → IsTidy name files (parsed_file host c memory text_at passes name files x)
    unfolding parsed_file
    parsed-IsTidy (parsed n t) =
        IsTidy-if name files (is_null n || t.has_err) _ _ (untouched name files rejected)
          (generated-IsTidy (gen c n new_generator))
    parsed-IsTidy (thrown e t) = untouched name files crashes
    parsed-IsTidy stopped = untouched name files crashes
    parsed-IsTidy undefined = untouched name files crashes
    parsed-IsTidy no_fuel = untouched name files endless

    parse-IsTidy :
        (rounds : ℕ) (s : Option ParserState)
        → IsTidy name files (parse_file host c memory text_at rounds passes name files s)
    unfolding parse_file
    parse-IsTidy rounds none = untouched name files crashes
    parse-IsTidy rounds (some s) = parsed-IsTidy (parse_program rounds s)

    lexed-IsTidy :
        (rounds : ℕ) (x : Tokens × Bool)
        → IsTidy name files (lexed_file host c memory text_at rounds passes name files x)
    unfolding lexed_file
    lexed-IsTidy rounds (Tokens.done ts p, true) = untouched name files rejected
    lexed-IsTidy rounds (Tokens.done ts p, false) = parse-IsTidy rounds (new_parser false false ts)
    lexed-IsTidy rounds (Tokens.out_of_bounds, bad) = untouched name files crashes
    lexed-IsTidy rounds (Tokens.out_of_fuel, bad) = untouched name files endless

    opened-IsTidy :
        (rounds reads : ℕ) (x : Option (List ℕ))
        → IsTidy name files (opened_file host c memory text_at rounds passes reads name files x)
    unfolding opened_file
    opened-IsTidy rounds reads none = untouched name files rejected
    opened-IsTidy rounds reads (some bytes) =
        IsTidy-if name files (of_le (take 4 bytes) == lmx_magic) _ _ (untouched name files _)
          (lexed-IsTidy rounds (tokenize (source_of bytes) 1))

    -- Whatever a file holds, `file_run` leaves every file as it was but that of the path's stem with `.lmc`,
    -- where the stem is what stands before the last dot of the path, or the whole of a path
    -- without a dot. Where it rejects the file, or where the lexer, the parser, the generator or the
    -- writer crashes, it leaves that one too. (The machine runs behind the save.)
    pub file_run-IsTidy :
        (rounds reads : ℕ)
        → IsTidy name files (file_run host c memory text_at rounds passes reads name files)
    unfolding file_run
    file_run-IsTidy rounds reads = opened-IsTidy rounds reads (lookup name files)
