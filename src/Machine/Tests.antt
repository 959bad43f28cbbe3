-- ===== src/Machine/Tests.antt =====
-- Runs of the machine.
use marius.Base.{ℕ, ◌≡◌, refl, Option, some, List, [], ◌∷◌, codes, arith, zero, suc}
use marius.Ast.{Bytes}
use marius.Objects.LTuple.{LTuple, find, find_from}
use marius.Machine.Keywords.{reorg_args, gather, copy_back, source, reorg_args-chosen, InRange}

-- A call with `b` and `a`, in this order, of a method with the parameters `a` and `b`.
abbrev keywords : LTuple (Option Bytes)
keywords = record { elems = some (codes "b") ∷ some (codes "a") ∷ []; size = 2 }

abbrev parameters : List (Option Bytes)
parameters = some (codes "a") ∷ some (codes "b") ∷ []

abbrev registers : ℕ → ℕ
registers zero = 20
registers (suc k) = 10

swapped : reorg_args keywords parameters registers 0 ≡ 10
unfolding reorg_args gather copy_back source find find_from
swapped = refl

keywords-InRange : InRange keywords 2
unfolding find find_from
keywords-InRange name k h = ground arith

reorg_args-chosen_example : reorg_args keywords parameters registers 1 ≡ 20
unfolding find find_from
reorg_args-chosen_example =
    reorg_args-chosen keywords parameters registers 1 (some (codes "b")) keywords-InRange
      (omega arith) refl
