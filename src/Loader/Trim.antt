-- ===== src/Loader/Trim.antt =====
-- What a binary file keeps of an instruction.
use mylamina.Base.{
  ℕ, suc, ◌+◌, ◌≤◌, ◌≡◌, refl, List, [], ◌∷◌, ◌++◌, map, some, arith, sym, ◌∙◌, ap, length, take,
  drop, replicate, All, length-take, take-append_length, get_last?-concat,
}
use mathlib.Core.List.{map-append}
use mylamina.Base.{le_bytes}
use mylamina.Opcode.{Op, Opcode, mov_ri, halt, opcode_len, new_op}
use mylamina.Opcode.Codes.{byte_of}
use mylamina.Base.{append_assoc}
use mylamina.Loader.{get_ops, ops_bytes, write_binary, lmx_magic, lmx_version, load, loaded}
use mylamina.Loader.RoundTrip.{
  IsWritable, NoHalt, load-write_binary, load-double_halt, ops_bytes-append,
}
use mylamina.Emit.Shape.{IsEmitted}

-- The instruction with 0 in the operand bytes that a file does not keep.
abbrev pub trimmed : Op → Op
trimmed o = record o {
  operands = take (opcode_len o.op) o.operands ++ drop (opcode_len o.op) (replicate 12 0);
}

opcode_len_le : (c : Opcode) → opcode_len c ≤ 12
unfolding opcode_len
opcode_len_le mov_ri = omega arith
opcode_len_le _ = omega arith

kept :
    (o : Op)
    → IsEmitted o
    → take (opcode_len o.op) (trimmed o).operands ≡ take (opcode_len o.op) o.operands
kept o h =
    let n = opcode_len o.op in
    let X : List ℕ = take n o.operands in
    let e : length X ≡ n = length-take o.operands n (omega (arith, opcode_len_le o.op, h.full)) in
    ap (λ (k : ℕ). take k (X ++ drop n (replicate 12 0))) (sym e)
    ∙ take-append_length X (drop n (replicate 12 0))

trimmed-IsWritable : (o : Op) → IsEmitted o → IsWritable (trimmed o)
trimmed-IsWritable o h = record {
  enumerator = h.enumerator;
  full =
      ap length (kept o h)
      ∙ length-take o.operands (opcode_len o.op) (omega (arith, opcode_len_le o.op, h.full));
  padded = rw (kept o h) refl;
}

trimmed-ops_bytes : (os : List Op) → All IsEmitted os → ops_bytes (map trimmed os) ≡ ops_bytes os
unfolding ops_bytes
trimmed-ops_bytes [] h = refl
trimmed-ops_bytes (o ∷ os) (h, hs) = rw (kept o h, trimmed-ops_bytes os hs) refl

trimmed-length : (os : List Op) → length (map trimmed os) ≡ length os
trimmed-length [] = refl
trimmed-length (o ∷ os) = ap suc (trimmed-length os)

trimmed-NoHalt : (os : List Op) → All IsEmitted os → NoHalt (map trimmed os)
trimmed-NoHalt [] h = tt
trimmed-NoHalt (o ∷ os) (h, hs) = (h.goes_on, trimmed-NoHalt os hs)

trimmed-All : (os : List Op) → All IsEmitted os → All IsWritable (map trimmed os)
trimmed-All [] h = tt
trimmed-All (o ∷ os) (h, hs) = (trimmed-IsWritable o h, trimmed-All os hs)

pub trimmed_halt :
    (os : List Op) → map trimmed (os ++ (new_op halt ∷ [])) ≡ map trimmed os ++ (new_op halt ∷ [])
unfolding new_op opcode_len
trimmed_halt os = map-append trimmed os (new_op halt ∷ [])

write_ended :
    (os : List Op) (pool : List ℕ)
    → write_binary (os ++ (new_op halt ∷ [])) pool
      ≡ some (
          le_bytes 4 lmx_magic
          ++ (le_bytes 4 lmx_version ++ (ops_bytes (os ++ (new_op halt ∷ [])) ++ pool)))
unfolding write_binary get_ops new_op
write_ended os pool = rw (get_last?-concat os (new_op halt)) refl

same_bytes :
    (os : List Op)
    → All IsEmitted os
    → ops_bytes (map trimmed os ++ (new_op halt ∷ [])) ≡ ops_bytes (os ++ (new_op halt ∷ []))
same_bytes os h =
    ops_bytes-append (map trimmed os) (new_op halt ∷ [])
    ∙ ap (λ (l : List ℕ). l ++ ops_bytes (new_op halt ∷ [])) (trimmed-ops_bytes os h)
    ∙ sym (ops_bytes-append os (new_op halt ∷ []))

-- The file depends on the bytes of the instructions alone.
same_file :
    (a b : List Op) (pool : List ℕ)
    → ops_bytes a ≡ ops_bytes b
    → write_binary (a ++ (new_op halt ∷ [])) pool ≡ write_binary (b ++ (new_op halt ∷ [])) pool
same_file a b pool e =
    write_ended a pool
    ∙ ap (λ (l : List ℕ). some (le_bytes 4 lmx_magic ++ (le_bytes 4 lmx_version ++ (l ++ pool))))
        (ops_bytes-append a (new_op halt ∷ [])
          ∙ ap (λ (l : List ℕ). l ++ ops_bytes (new_op halt ∷ [])) e
          ∙ sym (ops_bytes-append b (new_op halt ∷ [])))
    ∙ sym (write_ended b pool)

-- Emitted instructions with a HALT behind them: the loader reads each as the file keeps it.
pub load-trimmed :
    (os : List Op) (pool : List ℕ) (fuel : ℕ)
    → All IsEmitted os
    → (file : List ℕ) × (write_binary (os ++ (new_op halt ∷ [])) pool ≡ some file)
      × (load (suc (length os + fuel)) file ≡ loaded (map trimmed (os ++ (new_op halt ∷ []))) pool)
load-trimmed os pool fuel h =
    let (file, w, l) =
      load-write_binary (map trimmed os) pool (trimmed-All os h) (trimmed-NoHalt os h) fuel in
    (
      file,
      sym (same_file (map trimmed os) os pool (trimmed-ops_bytes os h)) ∙ w,
      ap (λ (k : ℕ). load (suc (k + fuel)) file) (sym (trimmed-length os))
          ∙ l
          ∙ ap (λ (p : List Op). loaded p pool) (sym (trimmed_halt os)),
    )

-- Emitted instructions with two HALTs behind them: the loader reads each instruction as the file
-- keeps it, one HALT, and the byte of the other HALT in front of the constants.
pub load-trimmed_double :
    (os : List Op) (pool : List ℕ) (fuel : ℕ)
    → All IsEmitted os
    → (file : List ℕ) × (write_binary ((os ++ (new_op halt ∷ [])) ++ (new_op halt ∷ [])) pool
        ≡ some file)
      × (load (suc (length os + fuel)) file
          ≡ loaded (map trimmed (os ++ (new_op halt ∷ []))) (byte_of halt ∷ pool))
load-trimmed_double os pool fuel h =
    let ts = map trimmed os in
    let (file, w, l) = load-double_halt ts pool (trimmed-All os h) (trimmed-NoHalt os h) fuel in
    (
      file,
      sym (same_file (ts ++ (new_op halt ∷ [])) (os ++ (new_op halt ∷ [])) pool (same_bytes os h))
          ∙ ap (λ (p : List Op). write_binary p pool)
              (append_assoc ts (new_op halt ∷ []) (new_op halt ∷ []))
          ∙ w,
      ap (λ (k : ℕ). load (suc (k + fuel)) file) (sym (trimmed-length os))
          ∙ l
          ∙ ap (λ (p : List Op). loaded p (byte_of halt ∷ pool)) (sym (trimmed_halt os)),
    )
