-- ===== src/Loader.antt =====
-- The binary file of a program: `Generator::get_ops` and `write_binary_file` of
-- compiler/generator/generator.cpp, and `BinaryLoader` of runtime/loader.cpp. A file is its bytes.
pub mod RoundTrip
pub mod Trim
use mylamina.Base.{ℕ, zero, suc, ◌+◌, Bool, true, false, ◌&&◌, List, [], ◌∷◌, ◌++◌, Option, none}
use mylamina.Base.{some, ◌==◌, if◌then◌else◌, take, drop, get_last?, le_bytes, of_le, ◌>>=◌}
use mylamina.Opcode.{Op, Opcode, halt, opcode_len, new_op, copy_operands}
use mylamina.Opcode.Codes.{byte_of, of_byte}

-- `LMX_MAGIC_NUM` and `LMX_VERSION` of include/lmx_export.hpp.
abbrev pub lmx_magic : ℕ
lmx_magic = 0x4d4c5451

abbrev pub lmx_version : ℕ
lmx_version = 1

abbrev pub is_halt : Opcode → Bool
is_halt halt = true
is_halt _ = false

-- `get_ops`; `back()` of an empty program is undefined.
unfoldable pub get_ops : List Op → Option (List Op)
get_ops ops = do
  last ← get_last? ops
  some (if is_halt last.op then ops else ops ++ (new_op halt ∷ []))

-- One instruction in the file: the opcode and `opcode_len` bytes of its operands.
abbrev pub op_bytes : Op → List ℕ
op_bytes o = byte_of o.op ∷ take (opcode_len o.op) o.operands

unfoldable pub ops_bytes : List Op → List ℕ
ops_bytes [] = []
ops_bytes (o ∷ os) = op_bytes o ++ ops_bytes os

-- `write_binary_file`
unfoldable pub write_binary : List Op → List ℕ → Option (List ℕ)
write_binary ops pool = do
  all ← get_ops ops
  some (le_bytes 4 lmx_magic ++ (le_bytes 4 lmx_version ++ (ops_bytes all ++ pool)))

-- `check_head`, on the first eight bytes.
unfoldable pub check_head : List ℕ → Bool
check_head file = of_le (take 4 file) == lmx_magic && of_le (take 4 (drop 4 file)) == lmx_version

-- One round of the loop of `load`: `file.get()` at the end of the file is -1, which is the byte 255.
unfoldable pub load_op : List ℕ → Op × List ℕ
load_op [] = (new_op (of_byte 255), [])
load_op (b ∷ bs) =
    let n = opcode_len (of_byte b) in (copy_operands (new_op (of_byte b)) 0 (take n bs), drop n bs)

abbrev pub cons_op : Op → List Op × List ℕ → List Op × List ℕ
cons_op o (os, data') = (o ∷ os, data')

-- `ops.push_back(op); if (op.op == Opcode::HALT) break;`
abbrev pub after_op : (List ℕ → Option (List Op × List ℕ)) → Op × List ℕ → Option (List Op × List ℕ)
after_op more (o, rest) =
    let others = more rest in
    if is_halt o.op then some (o ∷ [], rest) else (do r ← others; some (cons_op o r))

-- The loop up to the first HALT; `none` when the fuel is used up.
unfoldable pub load_ops : ℕ → List ℕ → Option (List Op × List ℕ)
load_ops zero file = none
load_ops (suc fuel) file = after_op (load_ops fuel) (load_op file)

-- `load`: the program, and the rest of the file as the constants. `exit(-1)` for a bad header.
pub data Loaded : Type 0 where
  loaded : List Op → List ℕ → Loaded
  bad_format : Loaded
  still_loading : Loaded

unfoldable pub found : Option (List Op × List ℕ) → Loaded
found none = still_loading
found (some (ops, data')) = loaded ops data'

unfoldable pub load : ℕ → List ℕ → Loaded
unfolding found
load fuel file = if check_head file then found (load_ops fuel (drop 8 file)) else bad_format
