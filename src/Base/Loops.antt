-- ===== src/Base/Loops.antt =====
-- Loops of the source whose body may return, as `for(i = ...; i < ...; i++)` in vm/class.cpp.
use mathlib.Core.Option.{Option, none, some}
use mathlib.Core.Path.{◌≡◌, refl, sym, ap, ◌∙◌}
use mathlib.Core.Logic.{inl, inr}
use Prim.Native.Nat.{ℕ, zero, suc, ◌+◌, ◌≤◌, ◌<◌}
use native.Mathlib.Omega.{arith}
use marius.Base.Tests.{◌==◌, ==_iff, Option-cases, Bool-cases}

module _ {B : Type 0} where
  -- What a turn of the loops leads to: the program ends, the loop returns, or it goes on.
  abbrev pub go_on : Option (Option B) → Option (Option B) → Option (Option B)
  go_on none rest = none
  go_on (some (some b)) rest = some (some b)
  go_on (some none) rest = rest

  -- `for(i = ...; i < ...; i++)`, k turns from i on, with a return from the body.
  unfoldable pub loop : (ℕ → Option (Option B)) → ℕ → ℕ → Option (Option B)
  loop body zero i = some none
  loop body (suc k) i = go_on (body i) (loop body k (suc i))

  abbrev pub Answer : (ℕ → Option (Option B)) → ℕ → ℕ → Option B → Type 0
  Answer body k i none = (j : ℕ) → i ≤ j → j < i + k → body j ≡ some none
  Answer body k i (some b) = (j : ℕ) × (i ≤ j) × (j < i + k) × (body j ≡ some (some b))

  Answer-suc :
      (body : ℕ → Option (Option B)) (k i : ℕ) (o : Option B)
      → body i ≡ some none
      → Answer body k (suc i) o
      → Answer body (suc k) i o
  Answer-suc body k i none here a = λ j le lt. elim (Bool-cases (i == j)) [
    | inl so ↦ ap body (sym ((==_iff i j).0 so)) ∙ here
    | inr ne ↦ a j (ground arith) (omega arith)
  ]
  Answer-suc body k i (some b) here (j, le, lt, e) = (j, omega arith, omega arith, e)

  -- A loop whose turns do not end the program gives what the first turn that returns gives, if one
  -- does.
  pub loop-Answer :
      (body : ℕ → Option (Option B)) (k i : ℕ)
      → ((j : ℕ) → i ≤ j → j < i + k → (o : Option B) × (body j ≡ some o))
      → (o : Option B) × (loop body k i ≡ some o) × Answer body k i o
  unfolding loop
  loop-Answer body zero i runs = (none, refl, λ j le lt. absurd (omega arith))
  loop-Answer body (suc k) i runs =
      let (o, e) = runs i (omega arith) (omega arith) in
      elim (Option-cases o) [
        | inl fine ↦
            let now = e ∙ ap some fine in
            let (o', e', a) =
              loop-Answer body k (suc i) (λ j le lt. runs j (omega arith) (omega arith)) in
            (
              o',
              ap (λ (x : Option (Option B)). go_on x (loop body k (suc i))) now ∙ e',
              Answer-suc body k i o' now a,
            )
        | inr bad ↦
            let now = e ∙ ap some bad.1 in
            (
              some bad.0,
              ap (λ (x : Option (Option B)). go_on x (loop body k (suc i))) now,
              (i, omega arith, omega arith, now),
            )
      ]
