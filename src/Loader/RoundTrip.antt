-- ===== src/Loader/RoundTrip.antt =====
-- write_binary_file and BinaryLoader on each other's files, by where the HALTs of the program are.
use mylamina.Base.{ℕ, zero, suc, ◌+◌, ◌≡◌, refl, true, false, List, [], ◌∷◌, ◌++◌}
use mylamina.Base.{Option, none, some, arith, sym, ◌∙◌, ap, length, take, drop, replicate, All}
use mylamina.Base.{append_assoc, take-append_length, drop-append_length, ◌>>=◌}
use mylamina.Base.{get_last?-concat, le_bytes, of_le}
use Prim.Native.Nat.add
use mylamina.Opcode.{Op, halt, opcode_len, new_op}
use mylamina.Opcode.Codes.{byte_of, of_byte, IsEnumerator, of_byte-byte_of}
use mylamina.Loader.{
  lmx_magic, lmx_version, is_halt, get_ops, op_bytes, ops_bytes, write_binary, check_head, load_op,
  cons_op, after_op, load_ops, load, loaded, still_loading, found,
}

-- The operands behind the bytes that a file keeps are 0.
pub record IsWritable (o : Op) : Type 0 where
  pub enumerator : IsEnumerator o.op
  pub full : length (take (opcode_len o.op) o.operands) ≡ opcode_len o.op
  pub padded :
      o.operands ≡ take (opcode_len o.op) o.operands ++ drop (opcode_len o.op) (replicate 12 0)

-- An instruction with an enumerator, whose operands behind the bytes that a file keeps are 0, is read
-- from its bytes, and what follows them is left.
pub load_op-op_bytes :
    (o : Op) (rest : List ℕ) → IsWritable o → load_op (op_bytes o ++ rest) ≡ (o, rest)
unfolding load_op new_op
load_op-op_bytes o rest w =
    let n = opcode_len o.op in
    let X : List ℕ = take n o.operands in
    let front : take n (X ++ rest) ≡ X =
      ap (λ (k : ℕ). take k (X ++ rest)) (sym w.full) ∙ take-append_length X rest in
    let back : drop n (X ++ rest) ≡ rest =
      ap (λ (k : ℕ). drop k (X ++ rest)) (sym w.full) ∙ drop-append_length X rest in
    let pad : X ++ drop (0 + length X) (replicate 12 0) ≡ o.operands =
      ap (λ (k : ℕ). X ++ drop k (replicate 12 0)) (omega (arith, w.full)) ∙ sym w.padded in
    rw (of_byte-byte_of o.op w.enumerator, front, back, pad) refl

abbrev pub NoHalt : List Op → Type 0
NoHalt os = All (λ o. is_halt o.op ≡ false) os

load_ops_step :
    (fuel : ℕ) (o : Op) (rest : List ℕ)
    → IsWritable o
    → is_halt o.op ≡ false
    → load_ops (suc fuel) (op_bytes o ++ rest) ≡ (load_ops fuel rest >>= λ r. some (cons_op o r))
unfolding load_ops
load_ops_step fuel o rest w h =
    ap (after_op (load_ops fuel)) (load_op-op_bytes o rest w) ∙ rw h refl

load_ops_halt :
    (fuel : ℕ) (o : Op) (rest : List ℕ)
    → IsWritable o
    → is_halt o.op ≡ true
    → load_ops (suc fuel) (op_bytes o ++ rest) ≡ some (o ∷ [], rest)
unfolding load_ops
load_ops_halt fuel o rest w h =
    ap (after_op (load_ops fuel)) (load_op-op_bytes o rest w) ∙ rw h refl

-- A program without HALT, then one, then anything.
load_ops-ops_bytes :
    (os : List Op) (h : Op) (rest : List ℕ) (fuel : ℕ)
    → All IsWritable os
    → NoHalt os
    → IsWritable h
    → is_halt h.op ≡ true
    → load_ops (suc (length os + fuel)) (ops_bytes os ++ (op_bytes h ++ rest))
      ≡ some (os ++ (h ∷ []), rest)
unfolding ops_bytes
load_ops-ops_bytes [] h rest fuel w n wh hh = load_ops_halt (0 + fuel) h rest wh hh
load_ops-ops_bytes (o ∷ os) h rest fuel (w, ws) (n, ns) wh hh =
    ap (load_ops (suc (suc (length os) + fuel)))
      (append_assoc (op_bytes o) (ops_bytes os) (op_bytes h ++ rest))
    ∙ load_ops_step (suc (length os) + fuel) o (ops_bytes os ++ (op_bytes h ++ rest)) w n
    ∙ rw add.suc (
        ap (λ (q : Option (List Op × List ℕ)). q >>= λ r. some (cons_op o r))
          (load_ops-ops_bytes os h rest fuel ws ns wh hh))

pub ops_bytes-append : (a b : List Op) → ops_bytes (a ++ b) ≡ ops_bytes a ++ ops_bytes b
unfolding ops_bytes
ops_bytes-append [] b = refl
ops_bytes-append (o ∷ os) b =
    ap (λ l. op_bytes o ++ l) (ops_bytes-append os b)
    ∙ sym (append_assoc (op_bytes o) (ops_bytes os) (ops_bytes b))

-- The header that `write_binary` writes is the one that `check_head` wants.
header : List ℕ
header = le_bytes 4 lmx_magic ++ le_bytes 4 lmx_version

header_lem :
    (body : List ℕ)
    → (check_head (le_bytes 4 lmx_magic ++ (le_bytes 4 lmx_version ++ body)) ≡ true)
      × (drop 8 (le_bytes 4 lmx_magic ++ (le_bytes 4 lmx_version ++ body)) ≡ body)
unfolding check_head le_bytes of_le
header_lem body = (refl, refl)

load_body :
    (fuel : ℕ) (body : List ℕ)
    → load fuel (le_bytes 4 lmx_magic ++ (le_bytes 4 lmx_version ++ body))
      ≡ found (load_ops fuel body)
unfolding load
load_body fuel body = let (h, d) = header_lem body in rw (h, d) refl

abbrev file_of : List Op → List ℕ → List ℕ
file_of ops pool = le_bytes 4 lmx_magic ++ (le_bytes 4 lmx_version ++ (ops_bytes ops ++ pool))

module _ (os : List Op) (pool : List ℕ) (ws : All IsWritable os) (ns : NoHalt os) where
  IsWritable-halt : IsWritable (new_op halt)
  unfolding new_op opcode_len
  IsWritable-halt = record { enumerator = tt; full = refl; padded = refl }

  load_file :
      (rest : List ℕ) (fuel : ℕ)
      → load (suc (length os + fuel)) (
          le_bytes 4 lmx_magic
          ++ (le_bytes 4 lmx_version ++ (ops_bytes os ++ (op_bytes (new_op halt) ++ rest))))
        ≡ loaded (os ++ (new_op halt ∷ [])) rest
  unfolding found new_op
  load_file rest fuel =
      load_body (suc (length os + fuel)) (ops_bytes os ++ (op_bytes (new_op halt) ++ rest))
      ∙ ap found (load_ops-ops_bytes os (new_op halt) rest fuel ws ns IsWritable-halt refl)

  write_ended :
      write_binary (os ++ (new_op halt ∷ [])) pool ≡ some (file_of (os ++ (new_op halt ∷ [])) pool)
  unfolding write_binary get_ops new_op
  write_ended = rw (get_last?-concat os (new_op halt)) refl

  bytes_ended :
      ops_bytes (os ++ (new_op halt ∷ [])) ++ pool
      ≡ ops_bytes os ++ (op_bytes (new_op halt) ++ pool)
  unfolding ops_bytes new_op opcode_len
  bytes_ended =
      ap (λ (l : List ℕ). l ++ pool) (ops_bytes-append os (new_op halt ∷ []))
      ∙ append_assoc (ops_bytes os) (op_bytes (new_op halt) ++ []) pool

  -- A program of writable instructions, none of them a HALT, with a HALT behind them: the file that is
  -- written for it exists, and a loader with a pass for each instruction and any number more
  -- reads the program and the constants from it.
  pub load-write_binary :
      (fuel : ℕ)
      → (file : List ℕ) × (write_binary (os ++ (new_op halt ∷ [])) pool ≡ some file)
        × (load (suc (length os + fuel)) file ≡ loaded (os ++ (new_op halt ∷ [])) pool)
  load-write_binary fuel = (
    file_of (os ++ (new_op halt ∷ [])) pool,
    write_ended,
    ap
          (λ (b : List ℕ).
            load (suc (length os + fuel)) (le_bytes 4 lmx_magic ++ (le_bytes 4 lmx_version ++ b)))
          bytes_ended
        ∙ load_file pool fuel,
  )

  write_double :
      write_binary (os ++ (new_op halt ∷ new_op halt ∷ [])) pool
      ≡ some (file_of (os ++ (new_op halt ∷ new_op halt ∷ [])) pool)
  unfolding write_binary get_ops new_op
  write_double =
      rw
        (
          sym (append_assoc os (new_op halt ∷ []) (new_op halt ∷ [])),
          get_last?-concat (os ++ (new_op halt ∷ [])) (new_op halt),
        )
        refl

  bytes_double :
      ops_bytes (os ++ (new_op halt ∷ new_op halt ∷ [])) ++ pool
      ≡ ops_bytes os ++ (op_bytes (new_op halt) ++ (byte_of halt ∷ pool))
  unfolding ops_bytes new_op opcode_len
  bytes_double =
      ap (λ (l : List ℕ). l ++ pool) (ops_bytes-append os (new_op halt ∷ new_op halt ∷ []))
      ∙ append_assoc (ops_bytes os) (op_bytes (new_op halt) ++ (op_bytes (new_op halt) ++ [])) pool

  -- A program of writable instructions, none of them a HALT, with two HALTs behind them: the file that
  -- is written for it exists, and the loader reads the program with one HALT, and the byte of the
  -- second HALT as the first of the constants.
  pub load-double_halt :
      (fuel : ℕ)
      → (file : List ℕ) × (write_binary (os ++ (new_op halt ∷ new_op halt ∷ [])) pool ≡ some file)
        × (load (suc (length os + fuel)) file
            ≡ loaded (os ++ (new_op halt ∷ [])) (byte_of halt ∷ pool))
  load-double_halt fuel = (
    file_of (os ++ (new_op halt ∷ new_op halt ∷ [])) pool,
    write_double,
    ap
          (λ (b : List ℕ).
            load (suc (length os + fuel)) (le_bytes 4 lmx_magic ++ (le_bytes 4 lmx_version ++ b)))
          bytes_double
        ∙ load_file (byte_of halt ∷ pool) fuel,
  )

-- A file without a HALT: at its end the loop goes on with the byte 255.
load_ops-NoHalt :
    (fuel : ℕ) (os : List Op) → All IsWritable os → NoHalt os → load_ops fuel (ops_bytes os) ≡ none
unfolding load_ops ops_bytes load_op new_op opcode_len of_byte
load_ops-NoHalt zero os ws ns = refl
load_ops-NoHalt (suc fuel) [] ws ns = rw (load_ops-NoHalt fuel [] ws ns) refl
load_ops-NoHalt (suc fuel) (o ∷ os) (w, ws) (n, ns) =
    load_ops_step fuel o (ops_bytes os) w n ∙ rw (load_ops-NoHalt fuel os ws ns) refl

-- A correct header with writable instructions behind it, none of them a HALT, and nothing else: the
-- loader has not come to an end after any number of passes.
pub load-NoHalt :
    (os : List Op) (fuel : ℕ)
    → All IsWritable os
    → NoHalt os
    → load fuel (le_bytes 4 lmx_magic ++ (le_bytes 4 lmx_version ++ ops_bytes os)) ≡ still_loading
unfolding found
load-NoHalt os fuel ws ns = load_body fuel (ops_bytes os) ∙ ap found (load_ops-NoHalt fuel os ws ns)
