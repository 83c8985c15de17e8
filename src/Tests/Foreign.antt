-- ===== src/Tests/Foreign.antt =====
-- Messages, listings and foreign functions at concrete inputs.
use mylamina.Base.{
  ◌^◌, ℕ, ◌-◌, ◌≡◌, ◌≢◌, ◌↔◌, refl, false, List, [], ◌∷◌, ◌++◌, some, length, get_elem?, arith,
  dec_text,
}
use mylamina.Lexer.{Token, unknown, identifier}
use mylamina.Lexer.Next.{has_unknown}
use mylamina.Lexer.Report.{error}
use mylamina.Lexer.Report.Silent.{error-has_unknown}
use mylamina.Opcode.{new_op, halt}
use mylamina.Emit.{Emitter, reg, emit_jmp, emit_if_true, emit_if_false, emit_fcall}
use mylamina.Generator.Listing.{comma, newline}
use mylamina.Generator.Listing.Targets.{
  Lists, print_program-targets, jmp_text, if_true_text, if_false_text, fcall_text,
}
use mylamina.Vm.State.{VirtualCore, initial_core, reg_count_index_max}
use mylamina.Foreign.{CBasicTypes, Platform, DynLib, Arg, args_from, arg_of, set_func, find}
use mylamina.Foreign.Laws.{registered, find-set_func, args_from-registers}

-- x and @, on line 2
abbrev bad_tokens : List Token
bad_tokens =
    record { type = identifier; text = b'x' ∷ []; line = 2; col = 1 }
    ∷ record { type = unknown; text = b'@' ∷ []; line = 2; col = 2 }
    ∷ []

error-has_unknown_example :
    (error (2 ^ 62) (λ m. m) (b'x' ∷ b'@' ∷ []) (b'f' ∷ []) bad_tokens 1 ≡ some [])
    ↔ (has_unknown bad_tokens ≡ false)
error-has_unknown_example =
    error-has_unknown (2 ^ 62) (λ m. m) (b'x' ∷ b'@' ∷ []) (b'f' ∷ []) bad_tokens 1 (λ m. refl)

abbrev one_halt : Emitter
one_halt = record { ops = new_op halt ∷ []; ret_type = reg }

print_program-targets_example :
    Lists one_halt.ops (emit_jmp 4919 one_halt).ops jmp_text newline 4919
    × Lists one_halt.ops
        (emit_if_true 7 4919 one_halt).ops
        (if_true_text ++ comma (dec_text 7) [])
        newline
        4919
    × Lists one_halt.ops
        (emit_if_false 7 4919 one_halt).ops
        (if_false_text ++ comma (dec_text 7) [])
        newline
        4919
    × Lists one_halt.ops
        (emit_fcall 4919 7 one_halt).ops
        fcall_text
        (comma [] (dec_text 7 ++ newline))
        4919
print_program-targets_example = print_program-targets one_halt 7 4919 (omega arith) (omega arith)

-- Every library and every symbol is there, and a call returns the function's address.
abbrev plain_platform : Platform
plain_platform = record {
  prefix = b'l' ∷ b'i' ∷ b'b' ∷ [];
  suffix = b'.' ∷ b's' ∷ b'o' ∷ [];
  parent_path = λ t. [];
  filename = λ t. t;
  join = λ a b. a ++ b;
  dlopen = λ t. some 8192;
  dlsym = λ h t. some 12288;
  bytes_at = λ a n. [];
  f64_of_f32 = λ n. n;
  call_with = λ t size args f mem. (f, mem);
}

abbrev maths : DynLib
maths = record {
  name = b'm' ∷ [];
  handle = 8192;
  funcs = (4096, registered 100 [] CBasicTypes.void) ∷ [];
}

abbrev two_types : List CBasicTypes
two_types = CBasicTypes.long_long ∷ CBasicTypes.bool ∷ []

find-set_func_example :
    (lib' : DynLib) × (set_func plain_platform 4100 (b's' ∷ []) two_types CBasicTypes.int maths
      ≡ some lib')
    × (find 4100 lib' ≡ some (registered 12288 two_types CBasicTypes.int))
    × ((m : ℕ) → m ≢ 4100 → find m lib' ≡ find m maths)
    × ((args' : List CBasicTypes) (ret' : CBasicTypes)
        → set_func plain_platform 4100 (b's' ∷ []) args' ret' lib' ≡ some lib')
unfolding find
find-set_func_example =
    find-set_func plain_platform 4100 12288 (b's' ∷ []) two_types CBasicTypes.int maths refl refl

abbrev still_core : VirtualCore
still_core = initial_core (λ a. [])

args_from-registers_example :
    (as' : List Arg) × (r : ℕ) × (args_from reg_count_index_max two_types still_core
      ≡ some (as', r))
    × (length as' ≡ length two_types)
    × ((i : ℕ) (t : CBasicTypes)
        → get_elem? two_types i ≡ some t
        → get_elem? as' i ≡ some (arg_of t (still_core.regs (reg_count_index_max - i))))
args_from-registers_example = args_from-registers two_types still_core (omega arith)
