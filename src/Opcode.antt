-- ===== src/Opcode.antt =====
-- include/opcode.hpp: the opcodes, the length of their operands and the instruction record.
-- `enum class Opcode : uint8_t` can hold any byte, so `invalid b` stands for a byte `b` that no
-- enumerator has; only the loader of binary files makes one.
pub mod Codes
use mylamina.Base.{ℕ, ◌+◌, List, [], ◌∷◌, ◌++◌, get_or, take, drop, replicate, set, length}
use mylamina.Base.{of_le}

pub data Opcode : Type 0 where
  mov_ri mov_rm mov_rr mov_rc : Opcode
  mov_mi mov_mm mov_mr mov_mc : Opcode
  add sub mul div mod_op pow : Opcode
  halt fcall fret debug_log jmp : Opcode
  cmp_ge cmp_lt cmp_le cmp_gt cmp_eq cmp_ne : Opcode
  if_true if_false : Opcode
  func_create func_end : Opcode
  local_get local_set : Opcode
  and_op or_op vmc dec : Opcode
  invalid : ℕ → Opcode

-- `opcode_len`: how many operand bytes a binary file holds.
unfoldable pub opcode_len : Opcode → ℕ
opcode_len mov_ri = 9
opcode_len mov_rc = 9
opcode_len if_true = 9
opcode_len if_false = 9
opcode_len mov_rm = 3
opcode_len mov_mr = 3
opcode_len cmp_eq = 3
opcode_len cmp_ge = 3
opcode_len cmp_gt = 3
opcode_len cmp_le = 3
opcode_len cmp_lt = 3
opcode_len cmp_ne = 3
opcode_len and_op = 3
opcode_len or_op = 3
opcode_len mov_rr = 2
opcode_len vmc = 2
opcode_len mov_mc = 10
opcode_len mov_mi = 10
opcode_len mov_mm = 4
opcode_len add = 4
opcode_len sub = 4
opcode_len mul = 4
opcode_len div = 4
opcode_len mod_op = 4
opcode_len pow = 4
opcode_len local_get = 4
opcode_len local_set = 4
opcode_len halt = 0
opcode_len fret = 0
opcode_len func_end = 0
opcode_len func_create = 0
opcode_len fcall = 9
opcode_len dec = 1
opcode_len jmp = 8
opcode_len debug_log = 9
opcode_len (invalid b) = 0

-- `struct Op`: the operands are 12 bytes.
pub record Op : Type 0 where
  pub op : Opcode
  pub operands : List ℕ

-- `explicit Op(const Opcode op)`: all operand bytes are 0.
unfoldable pub new_op : Opcode → Op
new_op o = record { op = o; operands = replicate 12 0 }

-- `operands[i]`
abbrev pub operand : Op → ℕ → ℕ
operand o i = get_or o.operands i 0

-- `o.operands[i] = b`
abbrev pub set_operand : Op → ℕ → ℕ → Op
set_operand o i b = record o { operands = set o.operands i b }

-- `memcpy(o.operands + offset, bytes, length bytes)`
abbrev pub copy_operands : Op → ℕ → List ℕ → Op
copy_operands o offset bytes = record o {
  operands = take offset o.operands ++ (bytes ++ drop (offset + length bytes) o.operands);
}

-- `*reinterpret_cast<const uint64_t*>(operands + offset)` and the 16-bit read.
abbrev pub read_imm : ℕ → Op → ℕ → ℕ
read_imm width o offset = of_le (take width (drop offset o.operands))
