-- ===== src/Simulation/Tests.antt =====
-- A lambda generated and run, on a machine whose values are its constants and integers.
use marius.Base.{ℕ, ◌<◌, ◌^◌, ◌≡◌, refl, Bool, true, false, none, some, [], length, arith, codes}
use marius.Base.Int.{ℤ, pos}
use marius.Ast.{Meta, Node, just, scope, no_more}
use marius.Codegen.State.{State, new_state, Analysis}
use marius.Codegen.Defs.{to_code, drive_body}
use marius.Codegen.Drive.{driven_scope}
use marius.Machine.{Registers, Frame, run_code}
use marius.Machine.Interface.{Host, value, unwind, long_return}
use marius.Simulation.Fragment.{bytes, evaluate}
use marius.Simulation.Lambda.{run_code-drive_body}

data Value : Type 0 where
  nil yes no other : Value
  number : ℤ → Value

abbrev holds : Value → Bool
holds nil = false
holds no = false
holds _ = true

abbrev host : Host Value (Unit {0})
host = record {
  nil = nil;
  true_ = yes;
  false_ = no;
  integer = number;
  string = λ s. other;
  true_condition = holds;
  as_string = λ v. none;
  run_method = λ fp recv name argc kw closures w. (unwind other, fp, closures, w);
  attribute = λ v name w. nil;
  set_attribute = λ v name x w. w;
  method = λ c clos w. (other, w);
  wrap = λ v w. (v, w);
  long_return = λ v w. long_return 0 v;
  tuple = λ vs w. (other, w);
  list = λ vs w. (other, w);
}

abbrev at_line : ℕ → Meta
at_line l = record { id = 0; line = l }

-- not (true and 300) with the arms nil and 5
abbrev expression : Node
expression =
    Node.if_cond (at_line 1)
      (Node.not (at_line 1)
        (Node.and (at_line 1) (Node.true (at_line 1)) (Node.number (at_line 2) (pos 300))))
      (Node.nil (at_line 3)) (just (Node.number (at_line 4) (pos 5)))

abbrev analysis : Analysis
analysis = record {
  heap = [];
  lm = [];
  scope_locals = λ i. [];
  closed_locals = λ i. [];
  self_sends = λ i. [];
}

abbrev registers : Registers Value
registers k = other

meaning : evaluate host expression ≡ number (pos 5)
unfolding evaluate
meaning = refl

short : length (bytes expression 0) < 2 ^ 8
unfolding bytes
short = omega arith

run_code-drive_body_example :
    (s : State) × (drive_body analysis
        (driven_scope analysis (scope (at_line 1) none no_more expression))
        0
        (new_state (codes "f") true)
      ≡ some (tt, s))
    × ((fuel : ℕ) × (f : Frame Value (Unit {0})) × (run_code host fuel
            (to_code (codes "g") [] 0 0 false s)
            none
            0
            registers
            []
            tt
          ≡ some (value (evaluate host expression), f)))
run_code-drive_body_example =
    run_code-drive_body host analysis (at_line 1) expression (codes "f") (codes "g") true false [] 0
      0 0 0 none registers [] tt ((tt, omega arith), tt, omega arith) (omega arith) short
