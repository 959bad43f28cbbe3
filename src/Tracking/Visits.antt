-- ===== src/Tracking/Visits.antt =====
-- vm/scope_tracker.cpp: the visits of the nodes that have a variable.
use mathlib.Core.Option.{some-injective}
use marius.Base.{
  ℕ, suc, ◌<◌, ◌≡◌, ◌≢◌, inl, inr, refl, ap, sym, ◌∙◌, subst, Bool, false, some, List, [], ◌∷◌,
  ◌++◌, Option-cases, get_elem?, set, length, length-append, arith, get_elem?-append, get_elem?-set,
  get_elem?-some_lt,
}
use marius.Ast.{Bytes}
use marius.Local.{Local, LocalType, Heap, new_local, make_closure, make_closure_access, make_global}
use marius.Codegen.State.{Analysis}
use marius.Codegen.Layout.Locals.{NodeFits}
use marius.Tracking.{
  Tracker, LocalScope, access, access_all, own_variable, visit_assign, find_outer, add, add_new,
  insert_new, change,
}
use marius.Tracking.Names.{find}
use marius.Tracking.Sound.{
  IsSound, Sits, StackSits, StackSits-HeapGrows, IsPlaceable, IsOwned, IsSound-NodeFits, find-Sits,
}
use marius.Tracking.Steps.{
  Passes, Run, Ensures, Passes-trans, Passes-weaken, Passes-refl, Nothing, append-Passes,
  set-Passes, map-Passes, insert-Passes,
}

-- A local that is no access asks for no owner.
pub free_IsOwned : (h : Heap) (l : Local) → l.type ≢ LocalType.closure_access → IsOwned h l
free_IsOwned h l other is = absurd (other is)

pub get_elem?-new {ℓ} :
    {A : Type ℓ} (xs : List A) (x : A) → get_elem? (xs ++ x ∷ []) (length xs) ≡ some x
get_elem?-new xs x = get_elem?-append xs (x ∷ []) (length xs) 0 (omega arith)

pub find_outer-Sits :
    (h : Heap) (name : Bytes) (d : ℕ) (scs : List LocalScope) (o : ℕ × ℕ)
    → StackSits h scs
    → find_outer name d scs ≡ some o
    → Sits h o.0
unfolding find_outer
find_outer-Sits h name d [] o ts e = cc
find_outer-Sits h name d (sc ∷ scs) o ts e = elim (Option-cases (find name sc)) [
  | inr here ↦
      let same : (here.0, d) ≡ o =
        some-injective (here.0, d) o (sym (rw (here.1, find_outer) refl) ∙ e) in
      subst (Sits h) (ap (λ (x : ℕ × ℕ). x.0) same) (find-Sits h name sc here.0 ts.0 here.1)
  | inl out ↦ find_outer-Sits h name (suc d) scs o ts.1 (sym (rw (out, find_outer) refl) ∙ e)
]

pub global_IsOwned : (h : Heap) (r d : ℕ) → IsOwned h (make_global r d new_local)
unfolding make_global
global_IsOwned h r d is = cc

module _ (imports : ℕ → Bool) where
  -- The node's local where the visit gives it one.
  abbrev pub Fits : ℕ → Analysis → Type 0
  Fits id an = NodeFits ⊥ an id

  module _ {s : Tracker} (good : IsSound imports s) (id : ℕ) (plain : imports id ≡ false) where
    pub add-Passes : (p : ℕ) → p < length s.heap → Passes imports (Fits id) s (add id p s)
    unfolding add
    add-Passes p lt =
        map-Passes imports good id p lt (λ k. cc) (λ f g there. IsSound-NodeFits g id there)

    pub add_new-Passes :
        (l : Local) → IsOwned s.heap l → Passes imports (Fits id) s (add_new id l s)
    unfolding add_new
    add_new-Passes l own =
        let first = append-Passes imports good l own in
        let small : length s.heap < length (s.heap ++ l ∷ []) =
          omega (arith, length-append s.heap (l ∷ [])) in
        Passes-weaken imports (λ an c. c.1)
          (Passes-trans imports first (
            map-Passes imports first.sound id (length s.heap) small (λ k. cc)
              (λ f g there. IsSound-NodeFits g id there)))

    pub insert_new-Passes :
        (name : Bytes) (l : Local)
        → IsPlaceable l
        → l.type ≢ LocalType.closure_access
        → Passes imports (Fits id) s (insert_new id name l s)
    unfolding insert_new add_new
    insert_new-Passes name l ok other =
        let first = add_new-Passes l (free_IsOwned s.heap l other) in
        Passes-weaken imports (λ an c. c.0)
          (Passes-trans imports first (
            insert-Passes imports first.sound name (length s.heap) (l, get_elem?-new s.heap l, ok)))

  make_closure-IsOwner :
      (h : Heap) (p d : ℕ) (l : Local)
      → get_elem? h p ≡ some l
      → IsOwned (set h p (make_closure l)) (make_closure_access p d new_local)
  unfolding make_closure make_closure_access
  make_closure-IsOwner h p d l here is = (
    p,
    refl,
    (make_closure l, get_elem?-set h p p l (make_closure l) here ∙ ground arith, λ e. cc),
  )

  pub access-Run :
      {s : Tracker} (id p d : ℕ)
      → IsSound imports s
      → imports id ≡ false
      → Sits s.heap p
      → Run imports (Fits id) s (access id p d s)
  unfolding access change make_closure
  access-Run {s} id p d good plain (l, here, ok) =
      let first = set-Passes imports good p l (make_closure l) here refl refl in
      let t = record s { heap = set s.heap p (make_closure l) } in
      record {
        after = add_new id (make_closure_access p d new_local) t;
        ran = rw (here, access) refl;
        passes =
            Passes-weaken imports (λ an c. c.1)
              (Passes-trans imports first (
                add_new-Passes first.sound id plain (make_closure_access p d new_local)
                  (make_closure-IsOwner s.heap p d l here)));
      }

  access_all-Run :
      (s : Tracker) (id : ℕ) (name : Bytes) (d : ℕ) (scs : List LocalScope)
      → IsSound imports s
      → imports id ≡ false
      → StackSits s.heap scs
      → Run imports (Nothing imports) s (access_all id name d scs s)
  unfolding access_all
  access_all-Run s id name d [] good plain ts = record {
    after = s;
    ran = refl;
    passes = Passes-refl imports good;
  }
  access_all-Run s id name d (sc ∷ scs) good plain ts = elim (Option-cases (find name sc)) [
    | inl out ↦
        let rest = access_all-Run s id name (suc d) scs good plain ts.1 in
        record { after = rest.after; ran = rw (out, access_all) rest.ran; passes = rest.passes }
    | inr here ↦
        let first =
          access-Run id here.0 d good plain (find-Sits s.heap name sc here.0 ts.0 here.1) in
        let rest =
          access_all-Run first.after id name (suc d) scs first.passes.sound plain
            (StackSits-HeapGrows scs first.passes.heap ts.1) in
        record {
          after = rest.after;
          ran = rw (here.1, access_all, first.ran) rest.ran;
          passes =
              Passes-weaken imports (λ an c. tt) (Passes-trans imports first.passes rest.passes);
        }
  ]

  module _ (id : ℕ) (plain : imports id ≡ false) (name : Bytes) where
    pub own_variable-Ensures : Ensures imports (Fits id) (own_variable id name)
    unfolding own_variable
    own_variable-Ensures s good k = elim (Option-cases (find name s.scope)) [
      | inr here ↦
          let (l, at', ok) = find-Sits s.heap name s.scope here.0 good.scope here.1 in
          record {
            after = add id here.0 s;
            ran = rw (here.1, own_variable) refl;
            passes = add-Passes good id plain here.0 (get_elem?-some_lt s.heap here.0 l at');
          }
      | inl out ↦
          let first = access_all-Run s id name 0 s.stack good plain good.stack in
          record {
            after = insert_new id name new_local first.after;
            ran = rw (out, own_variable, first.ran) refl;
            passes =
                Passes-weaken imports (λ an c. c.1)
                  (Passes-trans imports first.passes
                    (insert_new-Passes first.passes.sound id plain name new_local refl (λ e. cc)));
          }
    ]

    pub visit_assign-Ensures : Ensures imports (Fits id) (visit_assign id name)
    unfolding visit_assign
    visit_assign-Ensures s good k = elim (Option-cases (find name s.scope)) [
      | inr here ↦
          let (l, at', ok) = find-Sits s.heap name s.scope here.0 good.scope here.1 in
          record {
            after = add id here.0 s;
            ran = rw (here.1, visit_assign) refl;
            passes = add-Passes good id plain here.0 (get_elem?-some_lt s.heap here.0 l at');
          }
      | inl out ↦ elim (Option-cases (find_outer name 1 s.stack)) [
        | inr o ↦
            let first =
              access-Run id o.0.0 o.0.1 good plain
                (find_outer-Sits s.heap name 1 s.stack o.0 good.stack o.1) in
            record {
              after = first.after;
              ran = rw (out, o.1, visit_assign) first.ran;
              passes = first.passes;
            }
        | inl nowhere ↦ record {
          after = insert_new id name new_local s;
          ran = rw (out, nowhere, visit_assign) refl;
          passes = insert_new-Passes good id plain name new_local refl (λ e. cc);
        }
      ]
    ]
