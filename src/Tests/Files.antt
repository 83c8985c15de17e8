-- ===== src/Tests/Files.antt =====
-- Files at concrete programs.
use mylamina.Base.{ℕ, suc, ◌+◌, ◌≡◌, refl, List, [], ◌∷◌, ◌++◌, some, length, All, le_bytes}
use mylamina.Opcode.{Op, add, mul, halt, new_op, opcode_len, set_operand}
use mylamina.Opcode.Codes.{byte_of}
use mylamina.Loader.{
  lmx_magic, lmx_version, op_bytes, ops_bytes, write_binary, load_op, load, loaded, still_loading,
}
use mylamina.Loader.RoundTrip.{
  IsWritable, NoHalt, load_op-op_bytes, load-write_binary, load-double_halt, load-NoHalt,
}

abbrev sum_op : Op
sum_op = set_operand (set_operand (new_op add) 0 3) 1 7

abbrev product_op : Op
product_op = set_operand (new_op mul) 2 5

sum_op-IsWritable : IsWritable sum_op
unfolding new_op opcode_len
sum_op-IsWritable = record { enumerator = tt; full = refl; padded = refl }

product_op-IsWritable : IsWritable product_op
unfolding new_op opcode_len
product_op-IsWritable = record { enumerator = tt; full = refl; padded = refl }

abbrev two_ops : List Op
two_ops = sum_op ∷ product_op ∷ []

two_ops-IsWritable : All IsWritable two_ops
two_ops-IsWritable = (sum_op-IsWritable, (product_op-IsWritable, tt))

two_ops-NoHalt : NoHalt two_ops
unfolding new_op
two_ops-NoHalt = (refl, (refl, tt))

load_op-op_bytes_example : load_op (op_bytes sum_op ++ (1 ∷ [])) ≡ (sum_op, 1 ∷ [])
load_op-op_bytes_example = load_op-op_bytes sum_op (1 ∷ []) sum_op-IsWritable

load-write_binary_example :
    (file : List ℕ) × (write_binary (two_ops ++ (new_op halt ∷ [])) (65 ∷ 0 ∷ []) ≡ some file)
    × (load (suc (length two_ops + 0)) file ≡ loaded (two_ops ++ (new_op halt ∷ [])) (65 ∷ 0 ∷ []))
load-write_binary_example =
    load-write_binary two_ops (65 ∷ 0 ∷ []) two_ops-IsWritable two_ops-NoHalt 0

load-double_halt_example :
    (file : List ℕ) × (write_binary (two_ops ++ (new_op halt ∷ new_op halt ∷ [])) (65 ∷ 0 ∷ [])
      ≡ some file)
    × (load (suc (length two_ops + 0)) file
        ≡ loaded (two_ops ++ (new_op halt ∷ [])) (byte_of halt ∷ 65 ∷ 0 ∷ []))
load-double_halt_example =
    load-double_halt two_ops (65 ∷ 0 ∷ []) two_ops-IsWritable two_ops-NoHalt 0

load-NoHalt_example :
    load 9 (le_bytes 4 lmx_magic ++ (le_bytes 4 lmx_version ++ ops_bytes two_ops)) ≡ still_loading
load-NoHalt_example = load-NoHalt two_ops 9 two_ops-IsWritable two_ops-NoHalt
