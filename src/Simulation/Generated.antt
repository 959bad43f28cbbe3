-- ===== src/Simulation/Generated.antt =====
-- vm/ast.cpp: `drive` of an expression without calls adds the bytes of the expression.
use marius.Base.{
  Bool, ℕ, ◌%◌, ◌^◌, ◌<◌, ◌&&◌, ◌≡◌, subst, true, false, List, [], ◌∷◌, arith, ltb, if◌then◌else◌,
}
use marius.Base.Int.{pos, negsuc, ltb_ℤ, to_unsigned}
use marius.Ast.{Meta, Node, null, just}
use marius.Instruction.{Opcode, opcode}
use marius.Codegen.State.{M, Analysis, instr}
use marius.Codegen.Values.{drive_number, drive_nil, drive_true, drive_false, drive_not, le_bytes}
use marius.Codegen.Control.{drive_seq, drive_if_cond, drive_unless, drive_and}
use marius.Codegen.Drive.{drive}
use marius.Simulation.Fragment.{IsPure, bytes, encode}
use marius.Simulation.Emits.{Emits, Emits-then, mark-Emits, instr-Emits, guard-Emits, arms-Emits}

Emits-choice :
    (b : Bool) {m k : M (Unit {0})} {c d : List ℕ}
    → Emits m c
    → Emits k d
    → Emits (if b then m else k) (if b then c else d)
Emits-choice true e e' = e
Emits-choice false e e' = e'

drive_number-Emits :
    (m : Meta) (n t : ℕ)
    → n < 2 ^ 31
    → Emits (drive_number m (pos n) t) (bytes (Node.number m (pos n)) t)
unfolding drive_number bytes
drive_number-Emits m n t h =
    let small : ltb n 128 ≡ ltb_ℤ (pos n) (pos 128) && ltb_ℤ (negsuc 126) (pos n) = ground arith in
    let byte : n % 2 ^ 8 % 2 ^ 8 ≡ n % 2 ^ 8 = omega arith in
    let word : n % 2 ^ 32 ≡ n = omega arith in
    let first : Emits (instr Opcode.movi8 (t ∷ to_unsigned 8 (pos n) ∷ []))
        (encode Opcode.movi8 (t ∷ n ∷ [])) =
      subst
        (λ (k : ℕ).
          Emits (instr Opcode.movi8 (t ∷ to_unsigned 8 (pos n) ∷ []))
            (opcode Opcode.movi8 % 2 ^ 8 ∷ t % 2 ^ 8 ∷ k ∷ []))
        byte (instr-Emits Opcode.movi8 (t ∷ to_unsigned 8 (pos n) ∷ [])) in
    let second : Emits (instr Opcode.movi32 (t ∷ le_bytes (to_unsigned 32 (pos n))))
        (encode Opcode.movi32 (t ∷ le_bytes n)) =
      subst
        (λ (k : ℕ).
          Emits (instr Opcode.movi32 (t ∷ le_bytes (to_unsigned 32 (pos n))))
            (encode Opcode.movi32 (t ∷ le_bytes k)))
        word (instr-Emits Opcode.movi32 (t ∷ le_bytes (to_unsigned 32 (pos n)))) in
    mark-Emits m (
      subst
        (λ (b : Bool).
          Emits
            (if b
              then instr Opcode.movi8 (t ∷ to_unsigned 8 (pos n) ∷ [])
              else instr Opcode.movi32 (t ∷ le_bytes (to_unsigned 32 (pos n))))
            (if ltb n 128
              then encode Opcode.movi8 (t ∷ n ∷ [])
              else encode Opcode.movi32 (t ∷ le_bytes n)))
        small (Emits-choice (ltb n 128) first second))

module _ (an : Analysis) where
  pub drive-Emits : (n : Node) (t : ℕ) → IsPure n → Emits (drive an n t) (bytes n t)
  unfolding drive bytes drive_nil drive_true drive_false drive_not drive_and drive_unless
      drive_if_cond drive_seq
  drive-Emits (Node.nil m) t h = mark-Emits m (instr-Emits Opcode.movn (t ∷ []))
  drive-Emits (Node.true m) t h = mark-Emits m (instr-Emits Opcode.movt (t ∷ []))
  drive-Emits (Node.false m) t h = mark-Emits m (instr-Emits Opcode.movf (t ∷ []))
  drive-Emits (Node.number m (pos n)) t h = drive_number-Emits m n t h
  drive-Emits (Node.not m a) t h =
      mark-Emits m (Emits-then (drive-Emits a t h) (instr-Emits Opcode.not (t ∷ t ∷ [])))
  drive-Emits (Node.and m a b) t h =
      mark-Emits m
        (Emits-then (drive-Emits a t h.0) (guard-Emits Opcode.jmpif (t ∷ []) (drive-Emits b t h.1)))
  drive-Emits (Node.unless m a b) t h =
      mark-Emits m
        (Emits-then (drive-Emits a t h.0) (guard-Emits Opcode.jmpit (t ∷ []) (drive-Emits b t h.1)))
  drive-Emits (Node.if_cond m a b null) t h =
      mark-Emits m
        (Emits-then (drive-Emits a t h.0) (guard-Emits Opcode.jmpif (t ∷ []) (drive-Emits b t h.1)))
  drive-Emits (Node.if_cond m a b (just e)) t h = mark-Emits m (
      Emits-then (drive-Emits a t h.0)
        (arms-Emits Opcode.jmpif (t ∷ []) Opcode.jmpf (drive-Emits b t h.1) (drive-Emits e t h.2)))
  drive-Emits (Node.seq m a b) t h = Emits-then (drive-Emits a t h.0) (drive-Emits b t h.1)
  drive-Emits _ t h = absurd h
