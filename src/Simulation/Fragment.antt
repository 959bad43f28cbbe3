-- ===== src/Simulation/Fragment.antt =====
-- vm/ast.cpp: the expressions that this part is about, what they mean, and the bytes that they
-- become.
use marius.Base.{ℕ, ◌+◌, ◌%◌, ◌^◌, ◌<◌, List, [], ◌∷◌, ◌++◌, ltb, if◌then◌else◌, length}
use marius.Base.Int.{pos}
use marius.Ast.{Node, OptNode, null, just}
use marius.Instruction.{Opcode, opcode}
use marius.Codegen.Values.{le_bytes}
use marius.Machine.Interface.{Host}

-- Constants, numbers that are not negative, `not`, `and`, conditionals and sequences.
abbrev mutual
  pub IsPure : Node → Type 0
  IsPure (Node.nil m) = Unit
  IsPure (Node.true m) = Unit
  IsPure (Node.false m) = Unit
  IsPure (Node.number m (pos n)) = n < 2 ^ 31
  IsPure (Node.not m a) = IsPure a
  IsPure (Node.and m a b) = IsPure a × IsPure b
  IsPure (Node.unless m a b) = IsPure a × IsPure b
  IsPure (Node.if_cond m a b e) = IsPure a × IsPure b × IsPureOpt e
  IsPure (Node.seq m a b) = IsPure a × IsPure b
  IsPure _ = ⊥

  pub IsPureOpt : OptNode → Type 0
  IsPureOpt null = Unit
  IsPureOpt (just n) = IsPure n

-- What such an expression is, over the host's values: a conditional without the arm that is chosen
-- has the value of its condition.
module _ {V W : Type 0} (host : Host V W) where
  unfoldable mutual
    pub evaluate : Node → V
    evaluate (Node.true m) = host.true_
    evaluate (Node.false m) = host.false_
    evaluate (Node.number m n) = host.integer n
    evaluate (Node.not m a) = if host.true_condition (evaluate a) then host.false_ else host.true_
    evaluate (Node.and m a b) = if host.true_condition (evaluate a) then evaluate b else evaluate a
    evaluate (Node.unless m a b) =
        if host.true_condition (evaluate a) then evaluate a else evaluate b
    evaluate (Node.if_cond m a b e) =
        if host.true_condition (evaluate a) then evaluate b else evaluate_else e (evaluate a)
    evaluate (Node.seq m a b) = evaluate b
    evaluate _ = host.nil

    pub evaluate_else : OptNode → V → V
    evaluate_else null v = v
    evaluate_else (just n) v = evaluate n

abbrev pub to_bytes : List ℕ → List ℕ
to_bytes [] = []
to_bytes (b ∷ bs) = (b % 2 ^ 8) ∷ to_bytes bs

-- An instruction, and one whose last operand is the distance over the code behind it.
abbrev pub encode : Opcode → List ℕ → List ℕ
encode op operands = to_bytes (opcode op ∷ operands)

abbrev pub guard : Opcode → List ℕ → ℕ → List ℕ → List ℕ
guard op operands distance code = encode op operands ++ ((distance % 2 ^ 8) ∷ code)

-- The bytes of an expression with its value in register t.
unfoldable mutual
  pub bytes : Node → ℕ → List ℕ
  bytes (Node.nil m) t = encode Opcode.movn (t ∷ [])
  bytes (Node.true m) t = encode Opcode.movt (t ∷ [])
  bytes (Node.false m) t = encode Opcode.movf (t ∷ [])
  bytes (Node.number m (pos n)) t =
      if ltb n 128 then encode Opcode.movi8 (t ∷ n ∷ []) else encode Opcode.movi32 (t ∷ le_bytes n)
  bytes (Node.not m a) t = bytes a t ++ encode Opcode.not (t ∷ t ∷ [])
  bytes (Node.and m a b) t =
      bytes a t ++ guard Opcode.jmpif (t ∷ []) (length (bytes b t)) (bytes b t)
  bytes (Node.unless m a b) t =
      bytes a t ++ guard Opcode.jmpit (t ∷ []) (length (bytes b t)) (bytes b t)
  bytes (Node.if_cond m a b e) t = bytes a t ++ arms e (bytes b t) t
  bytes (Node.seq m a b) t = bytes a t ++ bytes b t
  bytes _ t = []

  -- The arms of a conditional; behind the first one a jump over the second.
  pub arms : OptNode → List ℕ → ℕ → List ℕ
  arms null b t = guard Opcode.jmpif (t ∷ []) (length b) b
  arms (just e) b t =
      guard Opcode.jmpif (t ∷ []) (length b + 2)
        (b ++ guard Opcode.jmpf [] (length (bytes e t)) (bytes e t))
