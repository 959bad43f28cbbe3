-- ===== src/Tracking/Tests.antt =====
-- Scope tracking on small programs.
use marius.Base.{ℕ, ◌≡◌, refl, Option, none, some, List, [], ◌∷◌, codes, get_elem?}
use marius.Base.Int.{ℤ, pos}
use marius.Ast.{Bytes, ArgMap, Meta, Node, Scope, scope, no_more, argument, null}
use marius.Local.{
  Local, LocalType, map_get, map_add, set_reg, reg_p, needs_reg_p, make_arg, make_closure,
  make_closure_access, set_extra, make_global,
}
use marius.Codegen.State.{Analysis}
use mathlib.Core.Option.{some-injective}
use marius.Tracking
use marius.Tracking.{Tracker, new_tracker}
use marius.Tracking.Ready.{ScopeIsReady, Arg, Below, OtherRegister}
use marius.Tracking.Registers.{leave_scope-OtherRegister}
use marius.Local.{new_local}
use marius.Base.{ap, ◌∙◌, subst, arith, true, false}
use marius.Tracking.Names.{find, insert, assign}
use marius.Tracking.Visit.{calculate_locals, accept}

abbrev at : ℕ → Meta
at id = record { id = id; line = 1 }

abbrev program : Node → Scope
program body = scope (at 0) (some 1) no_more body

abbrev known_globals : ArgMap
known_globals = (codes "Importer", 3) ∷ []

abbrev one : Node
one = Node.number (at 2) (pos 1)

abbrev local_of : ℕ → Option Analysis → Option Local
local_of id none = none
local_of id (some an) = elim (map_get an.lm id) [ none ↦ none | some p ↦ get_elem? an.heap p ]

abbrev type_of : Option Local → Option (LocalType × ℤ)
type_of none = none
type_of (some l) = some (l.type, l.idx)

abbrev locals_of : ℕ → Option Analysis → List (Bytes × ℤ)
locals_of id none = []
locals_of id (some an) = an.scope_locals id

running : Unit {0}
unfolding map_get map_add set_reg reg_p needs_reg_p make_arg make_closure make_closure_access
    set_extra make_global find insert assign Tracking.add Tracking.add_new Tracking.insert_new
    Tracking.change Tracking.find_outer Tracking.access Tracking.access_all Tracking.own_variable
    Tracking.visit_assign Tracking.find_scoped Tracking.visit_named Tracking.visit_import
    Tracking.enter_scope Tracking.leave_scope Tracking.place_locals calculate_locals accept
running = tt

-- { |a| x = 1; { a } }: `a` is closed over, so the scope has one local, and its register is 1, the
-- first that the lambda's code takes for itself.
lambda_with_argument :
    locals_of 10 (
      calculate_locals known_globals (
        program (
          Node.lambda (at 3) (
            scope (at 10) none (argument (at 11) (codes "a") null 0 null no_more) (
              Node.seq (at 4) (Node.assign (at 12) (codes "x") one) (
                Node.lambda
                  (at 5)
                  (scope (at 20) none no_more (Node.named (at 21) (codes "a")))))))))
    ≡ (codes "x", pos 1) ∷ []
unfolding running
lambda_with_argument = refl

-- x = 1; { x += 1 }: the operator assignment gets a register of its own in the inner scope.
operator_assignment :
    type_of (
      local_of 12 (
        calculate_locals known_globals (
          program (
            Node.seq (at 4) (Node.assign (at 11) (codes "x") one) (
              Node.lambda (at 5) (
                scope
                  (at 20)
                  none
                  no_more
                  (Node.assign_op (at 12) (codes "x") (codes "+") one)))))))
    ≡ some (LocalType.reg, pos 0)
unfolding running
operator_assignment = refl

-- x = 1; import z; import z: the second import is left without a register of its own, and writes to
-- that of x.
second_import :
    type_of (
      local_of 14 (
        calculate_locals known_globals (
          program (
            Node.seq (at 4) (Node.assign (at 11) (codes "x") one) (
              Node.seq
                (at 4)
                (Node.import (at 13) (codes "z") (codes "z"))
                (Node.import (at 14) (codes "z") (codes "z")))))))
    ≡ some (LocalType.reg, pos 0)
unfolding running
second_import = refl

first_import :
    type_of (
      local_of 13 (
        calculate_locals known_globals (
          program (
            Node.seq (at 4) (Node.assign (at 11) (codes "x") one) (
              Node.seq
                (at 4)
                (Node.import (at 13) (codes "z") (codes "z"))
                (Node.import (at 14) (codes "z") (codes "z")))))))
    ≡ some (LocalType.reg, pos 1)
unfolding running
first_import = refl

-- A scope with the argument `a` and the variable `x`.
abbrev inner : Tracker
inner = record new_tracker {
  heap = record new_local { type = LocalType.argument; set_idx = true } ∷ new_local ∷ [];
  scope = (codes "a", 0) ∷ (codes "x", 1) ∷ [];
  stack = [] ∷ [];
}

inner-ScopeIsReady : ScopeIsReady inner.heap 1 inner.scope
unfolding reg_p needs_reg_p
inner-ScopeIsReady = (
  ((record new_local { type = LocalType.argument; set_idx = true }, refl, tt), λ i a. below i a),
  ((λ e. cc), tt),
  ((λ i a b. variable_lem i b), tt),
  (((new_local, refl, refl), λ i a. absurd (variable_lem i a)), tt, tt, tt),
)
  where
    variable_lem : (i : ℤ) → Arg inner.heap 1 i → ⊥
    variable_lem i (l, here, is_reg, placed, e) =
        let same : new_local ≡ l = some-injective new_local l here in
        let wrong : needs_reg_p new_local ≡ false = ap needs_reg_p same ∙ placed in cc

    below : (i : ℤ) → Arg inner.heap 0 i → Below 1 i
    below i (l, here, is_reg, placed, e) =
        let same =
          some-injective (record new_local { type = LocalType.argument; set_idx = true }) l here in
        let at' : pos 0 ≡ i = ap (λ (x : Local). x.idx) same ∙ e in
        subst (Below 1) at' (omega arith)

found_a : find (codes "a") inner.scope ≡ some 0
unfolding find
found_a = refl

found_x : find (codes "x") inner.scope ≡ some 1
unfolding find
found_x = refl

leave_scope-OtherRegister_example :
    (after : Tracker) × (Tracking.leave_scope 0 1 inner ≡ some after) × OtherRegister after.heap 0 1
leave_scope-OtherRegister_example =
    leave_scope-OtherRegister 0 1 inner [] [] (codes "a") (codes "x") 0 1 refl inner-ScopeIsReady
      found_a found_x (λ e. cc)
