-- ===== src/Instruction/Stream.antt =====
-- Byte code as a list of whole instructions: the reader that the disassembler's loop and the
-- optimiser share, and the layout of a buffer by its instructions.
use marius.Base.{
  ℕ, zero, suc, ◌+◌, ◌-◌, ◌<◌, ◌≤◌, ◌≡◌, refl, ap, ◌∙◌, subst, ◌⊎◌, inl, inr, arith, Option, none,
  some, List, [], ◌∷◌, ◌++◌, length, set, drop, length-append, length-set, append_assoc, set-append,
  leb, true, false,
}
use mathlib.Core.Option
use marius.Instruction.{Opcode, opcode, to_opcode, insn_len, to_opcode-opcode}

-- `code` is the instructions `ops`, each with as many operand bytes as its length says.
pub data Fits : List Opcode → List ℕ → Type 0 where
  done : Fits [] []
  more :
      {op : Opcode} {ops : List Opcode} {code : List ℕ} (operands rest : List ℕ)
      → length operands + 1 ≡ insn_len op
      → Fits ops rest
      → code ≡ opcode op ∷ (operands ++ rest)
      → Fits (op ∷ ops) code

-- Position i of such code is an operand, and not an opcode.
abbrev pub IsOperand : List Opcode → ℕ → Type 0
IsOperand [] i = ⊥
IsOperand (op ∷ ops) i =
    ((0 < i) × (i < insn_len op)) ⊎ ((insn_len op ≤ i) × IsOperand ops (i - insn_len op))

pub Fits-append :
    {ops ops' : List Opcode} {c c' : List ℕ}
    → Fits ops c
    → Fits ops' c'
    → Fits (ops ++ ops') (c ++ c')
Fits-append done g = g
Fits-append {ops = op ∷ ops} {c' = c'} (more xs r n f e) g =
    more xs (r ++ c') n (Fits-append f g)
      (rw e (ap (λ (t : List ℕ). opcode op ∷ t) (append_assoc xs r c')))

set-append_left {ℓ} :
    {A : Type ℓ} (xs ys : List A) (i : ℕ) (v : A)
    → i < length xs
    → set (xs ++ ys) i v ≡ set xs i v ++ ys
set-append_left [] ys i v h = elim h [ ]
set-append_left (x ∷ xs) ys zero v h = refl
set-append_left (x ∷ xs) ys (suc i) v h = ap (◌∷◌ x) (set-append_left xs ys i v (omega arith))

pub IsOperand-append :
    (ops ops' : List Opcode) (i : ℕ) → IsOperand ops i → IsOperand (ops ++ ops') i
IsOperand-append [] ops' i h = absurd h
IsOperand-append (op ∷ ops) ops' i (inl h) = inl h
IsOperand-append (op ∷ ops) ops' i (inr h) =
    inr (h.0, IsOperand-append ops ops' (i - insn_len op) h.1)

pub IsOperand-after :
    {ops : List Opcode} {c : List ℕ} (ops' : List Opcode) (i j : ℕ)
    → Fits ops c
    → j ≡ length c + i
    → IsOperand ops' i
    → IsOperand (ops ++ ops') j
IsOperand-after ops' i j done e h = let e' : j ≡ i = omega arith in rw e' h
IsOperand-after {ops = op ∷ ops} {c = c} ops' i j (more xs r n f e') e h =
    let size : length c ≡ suc (length xs + length r) = ap length e' ∙ ap suc (length-append xs r) in
    inr (omega arith, IsOperand-after ops' i (j - insn_len op) f (omega arith) h)

-- An operand can be overwritten: the instructions stay the same.
pub Fits-set :
    {ops : List Opcode} {c : List ℕ} (i v : ℕ) → Fits ops c → IsOperand ops i → Fits ops (set c i v)
Fits-set i v done h = absurd h
Fits-set zero v (more xs r n f e) (inl h) = absurd (omega arith)
Fits-set {ops = op ∷ ops} (suc i) v (more xs r n f e) (inl h) =
    more (set xs i v) r (ap (λ (k : ℕ). k + 1) (length-set xs i v) ∙ n) f
      (rw e (ap (λ (t : List ℕ). opcode op ∷ t) (set-append_left xs r i v (omega arith))))
Fits-set zero v (more xs r n f e) (inr h) = absurd (omega arith)
Fits-set {ops = op ∷ ops} (suc i) v (more xs r n f e) (inr h) =
    more xs (set r (suc i - insn_len op) v) n (Fits-set (suc i - insn_len op) v f h.1) (
      rw e (
        ap (λ (t : List ℕ). opcode op ∷ t)
          (set-append xs r i (suc i - insn_len op) v (omega arith))))

-- The reader: `for(ip = 0; ip < size;) ip += len(code[ip])`, with the opcodes that it meets. It
-- fails on a byte that is no opcode and on an instruction that the buffer cuts short.
unfoldable pub read : ℕ → List ℕ → Option (List Opcode)
read fuel [] = some []
read zero (b ∷ bs) = none
read (suc fuel) (b ∷ bs) = elim (to_opcode b) [
  | none ↦ none
  | some op ↦ elim (leb (insn_len op) (suc (length bs))) [
    | true ↦ Option.map (◌∷◌ op) (read fuel (drop (insn_len op - 1) bs))
    | false ↦ none
  ]
]

pub drop-append {ℓ} : {A : Type ℓ} (xs ys : List A) (n : ℕ) → length xs ≡ n → drop n (xs ++ ys) ≡ ys
drop-append [] ys zero e = refl
drop-append [] ys (suc n) e = absurd (omega arith)
drop-append (x ∷ xs) ys zero e = absurd (omega arith)
drop-append (x ∷ xs) ys (suc n) e = drop-append xs ys n (omega arith)

pub read-Fits :
    {ops : List Opcode} {c : List ℕ} (fuel : ℕ)
    → Fits ops c
    → length c ≤ fuel
    → read fuel c ≡ some ops
unfolding read
read-Fits fuel done h = refl
read-Fits {ops = op ∷ ops} {c = c} zero (more xs r n f e) h =
    absurd (omega (arith, subst (λ d. length d ≤ 0) e h))
read-Fits {ops = op ∷ ops} {c = c} (suc k) (more xs r n f e) h =
    let bound : length xs + length r ≤ k =
      omega (arith, subst (λ d. length d ≤ suc k) e h, length-append xs r) in
    let fits : leb (insn_len op) (suc (length (xs ++ r))) ≡ true =
      ground (arith, length-append xs r) in
    rw
      (
        e,
        read,
        to_opcode-opcode,
        fits,
        drop-append xs r (insn_len op - 1) (omega arith),
        read-Fits k f (omega arith),
      )
      refl
