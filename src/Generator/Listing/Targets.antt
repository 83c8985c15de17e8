-- ===== src/Generator/Listing/Targets.antt =====
-- compiler/generator/generator.cpp, `print_ops`: the targets that a listing shows.
use mylamina.Base.{
  ℕ, ◌+◌, ◌^◌, ◌<◌, ◌≡◌, List, [], ◌∷◌, ◌++◌, Text, length, hex_text, hex_value, dec_text,
  hex_value-hex_digits, arith, sym, ◌∙◌, ap, append_assoc, append-nil, le_bytes,
}
use mylamina.Opcode.{Op, if_true, if_false, new_op}
use mylamina.Emit.{
  Emitter, op_jmp, op_if, op_fcall, emit_jmp, emit_if_true, emit_if_false, emit_fcall,
}
use mylamina.Emit.Decode.{decode_jmp, decode_if, decode_fcall}
use mylamina.Generator.Listing.{
  op_text, print_ops, print_program, newline, prefix_0x, index_text, comma,
}

print_ops-append :
    (i : ℕ) (a b : List Op) → print_ops i (a ++ b) ≡ print_ops i a ++ print_ops (i + length a) b
unfolding print_ops
print_ops-append i [] b = ap (λ (j : ℕ). print_ops j b) (omega arith)
print_ops-append i (o ∷ a) b =
    let rest = print_ops-append (i + 1) a b in
    let at : i + 1 + length a ≡ i + length (o ∷ a) = omega arith in
    let t = op_text o.op o in
    let P = print_ops (i + 1) a in
    let R = print_ops (i + length (o ∷ a)) b in
    ap (λ (l : Text). index_text i ++ (t ++ l)) (rest ∙ ap (λ (j : ℕ). P ++ print_ops j b) at)
    ∙ ap (λ (l : Text). index_text i ++ l) (sym (append_assoc t P R))
    ∙ sym (append_assoc (index_text i) (t ++ P) R)

-- The program `after` is listed as `before` and one line more: its index in hexadecimal, a text with
-- the operands in front, the number `n` in hexadecimal, and a text behind.
abbrev pub Lists : List Op → List Op → Text → Text → ℕ → Type 0
Lists before after front back n =
    (a : Text) × (t : Text) × (print_program after
      ≡ print_program before
        ++ (b'[' ∷ (prefix_0x ++ (a ++ (b']' ∷ b'\t' ∷ (front ++ (prefix_0x ++ (t ++ back))))))))
    × (hex_value a 0 ≡ length before)
    × (hex_value t 0 ≡ n)

one_line :
    (i : ℕ) (o : Op) (l : Text)
    → op_text o.op o ≡ l
    → print_ops i (o ∷ []) ≡ b'[' ∷ (prefix_0x ++ (hex_text i ++ (b']' ∷ b'\t' ∷ l)))
unfolding print_ops
one_line i o l e =
    ap (λ (k : Text). index_text i ++ k) (append-nil (op_text o.op o) ∙ e)
    ∙ ap (λ (k : Text). b'[' ∷ (prefix_0x ++ k)) (append_assoc (hex_text i) (b']' ∷ b'\t' ∷ []) l)

appended-Lists :
    (ops : List Op) (o : Op) (front back : Text) (n : ℕ)
    → length ops < 2 ^ 64
    → n < 2 ^ 64
    → op_text o.op o ≡ front ++ (prefix_0x ++ (hex_text n ++ back))
    → Lists ops (ops ++ (o ∷ [])) front back n
unfolding print_program
appended-Lists ops o front back n h k e = (
  hex_text (length ops),
  hex_text n,
  print_ops-append 0 ops (o ∷ [])
      ∙ ap (λ (l : Text). print_ops 0 ops ++ l)
          (ap (λ (j : ℕ). print_ops j (o ∷ [])) (omega arith)
            ∙ one_line (length ops) o (front ++ (prefix_0x ++ (hex_text n ++ back))) e),
  hex_value-hex_digits 16 (length ops) (omega (arith, h)),
  hex_value-hex_digits 16 n (omega (arith, k)),
)

abbrev pub jmp_text : Text
jmp_text = b'J' ∷ b'M' ∷ b'P' ∷ b':' ∷ b' ' ∷ []

abbrev pub if_true_text : Text
if_true_text = b'I' ∷ b'F' ∷ b'_' ∷ b'T' ∷ b'R' ∷ b'U' ∷ b'E' ∷ b':' ∷ b' ' ∷ []

abbrev pub if_false_text : Text
if_false_text = b'I' ∷ b'F' ∷ b'_' ∷ b'F' ∷ b'A' ∷ b'L' ∷ b'S' ∷ b'E' ∷ b':' ∷ b' ' ∷ []

abbrev pub fcall_text : Text
fcall_text = b'F' ∷ b'C' ∷ b'A' ∷ b'L' ∷ b'L' ∷ b':' ∷ b' ' ∷ []

-- For a program and a target that fit 64 bits: the listing of the program behind `emit_jmp`,
-- `emit_if_true`, `emit_if_false` and `emit_fcall` is the listing in front and one line more, which
-- names the index of the instruction and its target in hexadecimal, and the other operand in
-- decimal.
pub print_program-targets :
    (e : Emitter) (r idx : ℕ)
    → length e.ops < 2 ^ 64
    → idx < 2 ^ 64
    → Lists e.ops (emit_jmp idx e).ops jmp_text newline idx
      × Lists e.ops (emit_if_true r idx e).ops (if_true_text ++ comma (dec_text r) []) newline idx
      × Lists e.ops (emit_if_false r idx e).ops (if_false_text ++ comma (dec_text r) []) newline idx
      × Lists e.ops (emit_fcall idx r e).ops fcall_text (comma [] (dec_text r ++ newline)) idx
unfolding emit_jmp emit_if_true emit_if_false emit_fcall op_text new_op le_bytes
print_program-targets e r idx h k =
    let rest : Text = prefix_0x ++ (hex_text idx ++ newline) in
    let two = sym (append_assoc (dec_text r) (b',' ∷ b' ' ∷ []) rest) in
    (
      appended-Lists e.ops (op_jmp idx) jmp_text newline idx h k
          (ap (λ (v : ℕ). jmp_text ++ (prefix_0x ++ (hex_text v ++ newline))) (decode_jmp idx k)),
      appended-Lists e.ops (op_if if_true r idx) (if_true_text ++ comma (dec_text r) []) newline idx
          h k
          (ap (λ (v : ℕ). if_true_text ++ comma (dec_text r) (prefix_0x ++ (hex_text v ++ newline)))
              (decode_if if_true r idx k).1
            ∙ ap (λ (l : Text). if_true_text ++ l) two),
      appended-Lists e.ops (op_if if_false r idx) (if_false_text ++ comma (dec_text r) []) newline
          idx h k
          (ap
              (λ (v : ℕ).
                if_false_text ++ comma (dec_text r) (prefix_0x ++ (hex_text v ++ newline)))
              (decode_if if_false r idx k).1
            ∙ ap (λ (l : Text). if_false_text ++ l) two),
      appended-Lists e.ops (op_fcall idx r) fcall_text (comma [] (dec_text r ++ newline)) idx h k (
          ap
            (λ (v : ℕ).
              fcall_text ++ (prefix_0x ++ (hex_text v ++ comma [] (dec_text r ++ newline))))
            (decode_fcall idx r k).0),
    )
