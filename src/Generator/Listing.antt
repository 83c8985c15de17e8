-- ===== src/Generator/Listing.antt =====
-- compiler/generator/generator.cpp and generator.hpp: `print_ops` and `print_vars`, as the bytes that
-- they print.
pub mod Targets
use mylamina.Base.{
  ℕ, zero, suc, ◌+◌, ◌-◌, ◌^◌, Bool, List, [], ◌∷◌, ◌++◌, if◌then◌else◌, Text, ltb, dec_text,
  hex_text,
}
use mylamina.Scope.{Locals, CompilingFrame}
use mylamina.Opcode.{
  Op, Opcode, mov_ri, mov_rm, mov_rr, mov_rc, mov_mi, mov_mm, mov_mr, mov_mc, add, sub, mul, div,
  mod_op, pow, halt, fcall, fret, debug_log, jmp, cmp_ge, cmp_lt, cmp_le, cmp_gt, cmp_eq, cmp_ne,
  if_true, if_false, func_create, func_end, local_get, local_set, and_op, or_op, vmc, dec, invalid,
  operand, read_imm,
}

-- `%lld`
abbrev signed_text : ℕ → Text
signed_text n = if ltb n (2 ^ 63) then dec_text n else b'-' ∷ dec_text (2 ^ 64 - n)

-- `%u` and `%d` of an operand byte.
abbrev pub byte_text : Op → ℕ → Text
byte_text o i = dec_text (operand o i)

abbrev pub comma : Text → Text → Text
comma a b = a ++ (b',' ∷ b' ' ∷ b)

abbrev pub newline : Text
newline = b'\n' ∷ []

abbrev pub prefix_0x : Text
prefix_0x = b'0' ∷ b'x' ∷ []

-- `0x%llx` of the immediate at `i`.
abbrev target_text : Op → ℕ → Text
target_text o i = prefix_0x ++ hex_text (read_imm 8 o i)

-- `0x%llu`
abbrev address_text : Op → ℕ → Text
address_text o i = prefix_0x ++ dec_text (read_imm 8 o i)

abbrev two_regs : Text → Op → Text
two_regs name o = name ++ comma (byte_text o 0) (byte_text o 1 ++ newline)

abbrev three_regs : Text → Op → Text
three_regs name o = name ++ comma (byte_text o 0) (comma (byte_text o 1) (byte_text o 2 ++ newline))

-- `[%u, 0x%x]`
abbrev local_text : Op → ℕ → ℕ → Text
local_text o frame idx =
    b'[' ∷ comma (byte_text o frame) (prefix_0x ++ (hex_text (read_imm 2 o idx) ++ (b']' ∷ [])))

-- What one turn of the `switch` prints. The cases of MOV_MI, MOV_MM, MOV_MR and MOV_MC fall through
-- to that of ADD.
unfoldable pub op_text : Opcode → Op → Text
op_text mov_ri o =
    (b'M' ∷ b'O' ∷ b'V' ∷ b'R' ∷ b'I' ∷ b':' ∷ b' ' ∷ [])
    ++ comma (byte_text o 0) (signed_text (read_imm 8 o 1) ++ newline)
op_text mov_rm o =
    (b'M' ∷ b'O' ∷ b'V' ∷ b'R' ∷ b'M' ∷ b':' ∷ b' ' ∷ [])
    ++ comma (byte_text o 0) (address_text o 1 ++ newline)
op_text mov_rr o = two_regs (b'M' ∷ b'O' ∷ b'V' ∷ b'R' ∷ b'R' ∷ b':' ∷ b' ' ∷ []) o
op_text mov_rc o =
    (b'M' ∷ b'O' ∷ b'V' ∷ b'R' ∷ b'C' ∷ b':' ∷ b' ' ∷ [])
    ++ comma (byte_text o 0) (address_text o 1 ++ newline)
op_text mov_mi o = three_regs (b'A' ∷ b'D' ∷ b'D' ∷ b':' ∷ b' ' ∷ []) o
op_text mov_mm o = three_regs (b'A' ∷ b'D' ∷ b'D' ∷ b':' ∷ b' ' ∷ []) o
op_text mov_mr o = three_regs (b'A' ∷ b'D' ∷ b'D' ∷ b':' ∷ b' ' ∷ []) o
op_text mov_mc o = three_regs (b'A' ∷ b'D' ∷ b'D' ∷ b':' ∷ b' ' ∷ []) o
op_text add o = three_regs (b'A' ∷ b'D' ∷ b'D' ∷ b':' ∷ b' ' ∷ []) o
op_text sub o = three_regs (b'S' ∷ b'U' ∷ b'B' ∷ b':' ∷ b' ' ∷ []) o
op_text mul o = three_regs (b'M' ∷ b'U' ∷ b'L' ∷ b':' ∷ b' ' ∷ []) o
op_text div o = three_regs (b'D' ∷ b'I' ∷ b'V' ∷ b':' ∷ b' ' ∷ []) o
op_text mod_op o = three_regs (b'M' ∷ b'O' ∷ b'D' ∷ b':' ∷ b' ' ∷ []) o
op_text pow o = three_regs (b'P' ∷ b'O' ∷ b'W' ∷ b':' ∷ b' ' ∷ []) o
op_text cmp_ge o = three_regs (b'C' ∷ b'M' ∷ b'P' ∷ b'_' ∷ b'G' ∷ b'E' ∷ b':' ∷ b' ' ∷ []) o
op_text cmp_lt o = three_regs (b'C' ∷ b'M' ∷ b'P' ∷ b'_' ∷ b'L' ∷ b'T' ∷ b':' ∷ b' ' ∷ []) o
op_text cmp_le o = three_regs (b'C' ∷ b'M' ∷ b'P' ∷ b'_' ∷ b'L' ∷ b'E' ∷ b':' ∷ b' ' ∷ []) o
op_text cmp_gt o = three_regs (b'C' ∷ b'M' ∷ b'P' ∷ b'_' ∷ b'G' ∷ b'T' ∷ b':' ∷ b' ' ∷ []) o
op_text cmp_eq o = three_regs (b'C' ∷ b'M' ∷ b'P' ∷ b'_' ∷ b'E' ∷ b'Q' ∷ b':' ∷ b' ' ∷ []) o
op_text cmp_ne o = three_regs (b'C' ∷ b'M' ∷ b'P' ∷ b'_' ∷ b'N' ∷ b'E' ∷ b':' ∷ b' ' ∷ []) o
op_text fcall o =
    (b'F' ∷ b'C' ∷ b'A' ∷ b'L' ∷ b'L' ∷ b':' ∷ b' ' ∷ [])
    ++ comma (target_text o 0) (byte_text o 8 ++ newline)
op_text fret o = b'F' ∷ b'R' ∷ b'E' ∷ b'T' ∷ b'\n' ∷ []
op_text halt o = b'H' ∷ b'A' ∷ b'L' ∷ b'T' ∷ b'\n' ∷ []
op_text debug_log o = b'D' ∷ b'E' ∷ b'B' ∷ b'U' ∷ b'G' ∷ b'_' ∷ b'L' ∷ b'O' ∷ b'G' ∷ b'\n' ∷ []
op_text jmp o = (b'J' ∷ b'M' ∷ b'P' ∷ b':' ∷ b' ' ∷ []) ++ (target_text o 0 ++ newline)
op_text if_true o =
    (b'I' ∷ b'F' ∷ b'_' ∷ b'T' ∷ b'R' ∷ b'U' ∷ b'E' ∷ b':' ∷ b' ' ∷ [])
    ++ comma (byte_text o 0) (target_text o 1 ++ newline)
op_text if_false o =
    (b'I' ∷ b'F' ∷ b'_' ∷ b'F' ∷ b'A' ∷ b'L' ∷ b'S' ∷ b'E' ∷ b':' ∷ b' ' ∷ [])
    ++ comma (byte_text o 0) (target_text o 1 ++ newline)
op_text local_get o =
    (b'L' ∷ b'O' ∷ b'C' ∷ b'A' ∷ b'L' ∷ b'_' ∷ b'G' ∷ b'E' ∷ b'T' ∷ b':' ∷ b' ' ∷ [])
    ++ comma (byte_text o 0) (local_text o 1 2 ++ newline)
op_text local_set o =
    (b'L' ∷ b'O' ∷ b'C' ∷ b'A' ∷ b'L' ∷ b'_' ∷ b'S' ∷ b'E' ∷ b'T' ∷ b':' ∷ b' ' ∷ [])
    ++ comma (local_text o 0 1) (byte_text o 3 ++ newline)
op_text func_create o =
    b'F' ∷ b'U' ∷ b'N' ∷ b'C' ∷ b'_' ∷ b'C' ∷ b'R' ∷ b'E' ∷ b'A' ∷ b'T' ∷ b'E' ∷ b'\n' ∷ []
op_text func_end o = b'F' ∷ b'U' ∷ b'N' ∷ b'C' ∷ b'_' ∷ b'E' ∷ b'N' ∷ b'D' ∷ b'\n' ∷ b'\n' ∷ []
op_text and_op o = two_regs (b'A' ∷ b'N' ∷ b'D' ∷ b':' ∷ b' ' ∷ []) o
op_text or_op o = two_regs (b'O' ∷ b'R' ∷ b':' ∷ b' ' ∷ []) o
op_text vmc o = (b'V' ∷ b'M' ∷ b'C' ∷ b':' ∷ b' ' ∷ []) ++ (dec_text (read_imm 2 o 0) ++ newline)
op_text dec o = (b'D' ∷ b'E' ∷ b'C' ∷ b':' ∷ b' ' ∷ []) ++ (byte_text o 0 ++ newline)
op_text (invalid b) o = []

-- `[0x%zx]\t`
abbrev pub index_text : ℕ → Text
index_text i = b'[' ∷ (prefix_0x ++ (hex_text i ++ (b']' ∷ b'\t' ∷ [])))

unfoldable pub print_ops : ℕ → List Op → Text
print_ops i [] = []
print_ops i (o ∷ os) = index_text i ++ (op_text o.op o ++ print_ops (i + 1) os)

-- `Generator::print_ops()`
unfoldable pub print_program : List Op → Text
print_program = print_ops 0

-- `Generator::print_vars()`: the frames from the outermost on. The order in which the map of a frame
-- is walked is the argument `order`.
unfoldable pub var_line : Text × (Bool × ℕ) → Text
var_line (n, (is_mut, addr)) =
    n
    ++ ((b' ' ∷ b'a' ∷ b't' ∷ b' ' ∷ b'a' ∷ b'd' ∷ b'd' ∷ b'r' ∷ b'e' ∷ b's' ∷ b's' ∷ b':' ∷ b' '
          ∷ [])
        ++ (dec_text addr
            ++ ((b' ' ∷ b'm' ∷ b'u' ∷ b't' ∷ b'a' ∷ b'b' ∷ b'l' ∷ b'e' ∷ b':' ∷ b' ' ∷ [])
                ++ ((if is_mut
                      then (b't' ∷ b'r' ∷ b'u' ∷ b'e' ∷ [])
                      else (b'f' ∷ b'a' ∷ b'l' ∷ b's' ∷ b'e' ∷ []))
                    ++ newline))))

unfoldable pub var_lines : Locals → Text
var_lines [] = []
var_lines (v ∷ vs) = var_line v ++ var_lines vs

unfoldable pub print_vars : (Locals → Locals) → List CompilingFrame → Text
print_vars order [] = []
print_vars order (f ∷ fs) = print_vars order fs ++ var_lines (order f.locals)
