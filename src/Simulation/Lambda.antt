-- ===== src/Simulation/Lambda.antt =====
-- vm/ast.cpp, vm/vm.cpp: the code of a lambda without parameters, and of any other body that is such
-- an expression, returns the value of the expression.
use marius.Base.{
  ℕ, ◌+◌, ◌%◌, ◌^◌, ◌<◌, ◌≡◌, refl, ap, ◌∙◌, Bool, Option, none, some, List, [], ◌∷◌, ◌++◌, length,
  arith, length-append,
}
use marius.Base.Int.{pos}
use marius.Ast.{Meta, Node, null, just, scope, no_more, Bytes, ArgMap}
use marius.Instruction.{Opcode, opcode}
use marius.Codegen.State.{State, new_state, Analysis}
use marius.Codegen.Defs.{to_code, drive_body, drive_scope, drive_arguments}
use marius.Codegen.Drive.{driven_scope}
use marius.Objects.Closure.{Store}
use marius.Machine.{Registers, Frame, returns, Call, execute, step, run_code, new_call, enter}
use marius.Machine.Interface.{Host, value}
use marius.Simulation.Fragment.{IsPure, evaluate, bytes, encode, guard}
use marius.Simulation.Emits.{Emits, Emits-then, instr-Emits}
use marius.Simulation.Generated.{drive-Emits}
use marius.Simulation.Runs.{Runs-run, step-at, operand-at, Continues, Continues-then}
use marius.Simulation.Correct.{
  nil-Continues, true-Continues, false-Continues, not-Continues, number-Continues,
  guard_if-Continues, guard_unless-Continues, arms-Continues,
}

module _ {V W : Type 0} (host : Host V W) (call : Call) (t : ℕ) (small : t < 2 ^ 8) where
  bytes-Continues :
      (n : Node) (u : V)
      → IsPure n
      → length (bytes n t) < 2 ^ 8
      → Continues host call t u (bytes n t) (evaluate host n)
  unfolding bytes evaluate
  bytes-Continues (Node.nil m) u h lt = nil-Continues host call t small u
  bytes-Continues (Node.true m) u h lt = true-Continues host call t small u
  bytes-Continues (Node.false m) u h lt = false-Continues host call t small u
  bytes-Continues (Node.number m (pos n)) u h lt = number-Continues host call t small m u n h
  bytes-Continues (Node.not m a) u h lt =
      let sizes = length-append (bytes a t) (encode Opcode.not (t ∷ t ∷ [])) in
      Continues-then host call (bytes-Continues a u h (omega arith))
        (not-Continues host call t small (evaluate host a))
  bytes-Continues (Node.and m a b) u h lt =
      let code : List ℕ = guard Opcode.jmpif (t ∷ []) (length (bytes b t)) (bytes b t) in
      let sizes = length-append (bytes a t) code in
      Continues-then host call (bytes-Continues a u h.0 (omega arith)) (
        guard_if-Continues host call t small (evaluate host a) (evaluate host b) (bytes b t)
          (omega arith) (bytes-Continues b (evaluate host a) h.1 (omega arith)))
  bytes-Continues (Node.unless m a b) u h lt =
      let code : List ℕ = guard Opcode.jmpit (t ∷ []) (length (bytes b t)) (bytes b t) in
      let sizes = length-append (bytes a t) code in
      Continues-then host call (bytes-Continues a u h.0 (omega arith)) (
        guard_unless-Continues host call t small (evaluate host a) (evaluate host b) (bytes b t)
          (omega arith) (bytes-Continues b (evaluate host a) h.1 (omega arith)))
  bytes-Continues (Node.if_cond m a b null) u h lt =
      let code : List ℕ = guard Opcode.jmpif (t ∷ []) (length (bytes b t)) (bytes b t) in
      let sizes = length-append (bytes a t) code in
      Continues-then host call (bytes-Continues a u h.0 (omega arith)) (
        guard_if-Continues host call t small (evaluate host a) (evaluate host b) (bytes b t)
          (omega arith) (bytes-Continues b (evaluate host a) h.1 (omega arith)))
  bytes-Continues (Node.if_cond m a b (just e)) u h lt =
      let second : List ℕ = guard Opcode.jmpf [] (length (bytes e t)) (bytes e t) in
      let code : List ℕ =
        guard Opcode.jmpif (t ∷ []) (length (bytes b t) + 2) (bytes b t ++ second) in
      let sizes = length-append (bytes a t) code in
      let sizes' = length-append (bytes b t) second in
      Continues-then host call (bytes-Continues a u h.0 (omega arith)) (
        arms-Continues host call t small (evaluate host a) (evaluate host b) (evaluate host e)
          (bytes b t) (bytes e t) (omega arith) (omega arith)
          (bytes-Continues b (evaluate host a) h.1 (omega arith))
          (bytes-Continues e (evaluate host a) h.2 (omega arith)))
  bytes-Continues (Node.seq m a b) u h lt =
      let sizes = length-append (bytes a t) (bytes b t) in
      Continues-then host call (bytes-Continues a u h.0 (omega arith))
        (bytes-Continues b (evaluate host a) h.1 (omega arith))
  bytes-Continues _ u h lt = absurd h

  ret-returns :
      (v : V) (pre : List ℕ) (f : Frame V W)
      → call.info.instructions ≡ pre ++ encode Opcode.ret (t ∷ [])
      → f.ip ≡ length pre
      → f.fp (pos t) ≡ v
      → step host call f ≡ returns (value v) f
  unfolding execute
  ret-returns v pre f e at' h =
      let register : t % 2 ^ 8 ≡ t = omega arith in
      let o =
        operand-at host call pre (t % 2 ^ 8 ∷ []) (opcode Opcode.ret % 2 ^ 8) f.ip 0 e at'
        ∙ register in
      step-at host call Opcode.ret pre (t % 2 ^ 8 ∷ []) f e at'
      ∙ ap (λ (r : ℕ). returns (value (f.fp (pos r))) f) o
      ∙ ap (λ (w : V). returns (value w) f) h

module _ (an : Analysis) (m : Meta) (n : Node) where
  body-Emits :
      (t : ℕ)
      → IsPure n
      → Emits
          (drive_body an (driven_scope an (scope m none no_more n)) t)
          (bytes n t ++ encode Opcode.ret (t ∷ []))
  unfolding drive_body drive_scope drive_arguments driven_scope
  body-Emits t h = Emits-then (drive-Emits an n t h) (instr-Emits Opcode.ret (t ∷ []))

module _ {V W : Type 0} (host : Host V W) where
  -- The code that `drive_body` leaves for a body without parameters whose body is a pure expression
  -- is generated, and a call of it returns the value of the expression. The first free register, the
  -- number of the scope's locals, and the length of the code are below 256.
  pub run_code-drive_body :
      (an : Analysis) (m : Meta) (n : Node) (file name : Bytes) (lambda ret : Bool) (args : ArgMap)
      (t req cov arg_count : ℕ) (parent : Option ℕ) (fp : Registers V) (closures : Store V)
      (world : W)
      → IsPure n
      → t < 2 ^ 8
      → length (bytes n t) < 2 ^ 8
      → (s : State) × (drive_body an
            (driven_scope an (scope m none no_more n))
            t
            (new_state file lambda)
          ≡ some (tt, s))
        × ((fuel : ℕ) × (f : Frame V W) × (run_code host fuel
                (to_code name args req cov ret s)
                parent
                arg_count
                fp
                closures
                world
              ≡ some (value (evaluate host n), f)))
  unfolding run_code to_code
  run_code-drive_body an m n file name lambda ret args t req cov arg_count parent fp closures world
        h small short =
      let (s, ran, at') = (body-Emits an m n t h).run (new_state file lambda) in
      let c = to_code name args req cov ret s in
      let call = new_call c arg_count closures in
      let f = enter host.nil c parent fp closures world in
      let a =
        (bytes-Continues host call t small n (fp (pos t)) h short).run []
          (encode Opcode.ret (t ∷ [])) f at' refl refl in
      let last = record f { ip = 0 + length (bytes n t); fp = a.fp } in
      let (fuel, ends) = Runs-run host call (value (evaluate host n)) a.runs (
        ret-returns host call t small (evaluate host n) (bytes n t) last at' (omega arith)
          a.holds) in
      (s, ran, (fuel, last, ends))
