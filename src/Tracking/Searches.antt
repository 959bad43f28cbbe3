-- ===== src/Tracking/Searches.antt =====
-- vm/scope_tracker.cpp: `find_scoped` and the visits that call it.
use marius.Base.{
  ℕ, suc, ◌≡◌, ◌≢◌, inl, inr, refl, ap, sym, ◌∙◌, Bool, true, false, Option, none, some, List, [],
  ◌∷◌, Bool-cases, Option-cases, length, arith, codes, get_elem?-some_lt,
}
use marius.Ast.{Bytes, ArgMap, Node, Special}
use marius.Local.{new_local, make_global}
use marius.Codegen.State.{Analysis}
use marius.Codegen.Layout.Locals.{NodeFits}
use marius.Codegen.Layout.Tree.{MayFit}
use marius.Tracking.{
  Tracker, LocalScope, find_outer, find_scoped, visit_named, visit_send, add, add_new, access,
  is_self, add_send, self_less_p,
}
use marius.Tracking.Names.{find}
use marius.Tracking.Sound.{IsSound, IsSound-MayFit, find-Sits}
use marius.Tracking.Steps.{Passes-written, Knows, Passes, Ensures, Passes-weaken, Passes-refl}
use marius.Tracking.Visits.{add-Passes, add_new-Passes, access-Run, find_outer-Sits, global_IsOwned}

find_outer-Knows :
    (d : ℕ) (scs : List LocalScope) → Knows scs → find_outer (codes "self") d scs ≢ none
unfolding find_outer
find_outer-Knows d [] k e = k
find_outer-Knows d (sc ∷ scs) k e = elim (Option-cases (find (codes "self") sc)) [
  | inr here ↦ ground (arith, here.1)
  | inl out ↦ elim k [
    | inl here ↦ here out
    | inr further ↦ find_outer-Knows (suc d) scs further (sym (rw (out, find_outer) refl) ∙ e)
  ]
]

find_scoped_self :
    (globals : ArgMap) (id : ℕ) (s t : Tracker)
    → Knows (s.scope ∷ s.stack)
    → find_scoped globals id (codes "self") s ≢ some (false, t)
unfolding find_scoped access
find_scoped_self globals id s t k e = elim (Option-cases (find (codes "self") s.scope)) [
  | inr here ↦ ground (arith, here.1)
  | inl out ↦ elim (Option-cases (find_outer (codes "self") 1 s.stack)) [
    | inr o ↦ ground (arith, o.1)
    | inl nowhere ↦ elim k [
      | inl here ↦ here out
      | inr further ↦ find_outer-Knows 1 s.stack further nowhere
    ]
  ]
]

module _ (imports : ℕ → Bool) where
  Passes-may :
      {C : Analysis → Type 0} {s t : Tracker} (id : ℕ)
      → Passes imports C s t
      → Passes imports (λ an. MayFit ⊥ an id) s t
  Passes-may id p = record {
    sound = p.sound;
    stack = p.stack;
    self = p.self;
    heap = p.heap;
    extends = p.extends;
    covers = λ f good ext. IsSound-MayFit good id;
  }

  module _ (globals : ArgMap) (id : ℕ) (plain : imports id ≡ false) where
    -- `find_scoped` gives the node a local exactly where it answers so.
    pub record Searched (s : Tracker) (r : Option (Bool × Tracker)) : Type 0 where
      pub answered : Bool
      pub after : Tracker
      pub ran : r ≡ some (answered, after)
      pub passes : Passes imports (λ an. answered ≡ true → NodeFits ⊥ an id) s after
      pub idle : answered ≡ false → after ≡ s

    pub find_scoped-Searched :
        (name : Bytes) (s : Tracker)
        → IsSound imports s
        → Searched s (find_scoped globals id name s)
    unfolding find_scoped
    find_scoped-Searched name s good = elim (Option-cases (find name s.scope)) [
      | inr here ↦
          let (l, at', ok) = find-Sits s.heap name s.scope here.0 good.scope here.1 in
          record {
            answered = true;
            after = add id here.0 s;
            ran = rw (here.1, find_scoped) refl;
            passes =
                Passes-weaken imports (λ an c e. c)
                  (add-Passes imports good id plain here.0 (get_elem?-some_lt s.heap here.0 l at'));
            idle = λ e. cc;
          }
      | inl out ↦ elim (Option-cases (find_outer name 1 s.stack)) [
        | inr o ↦
            let first =
              access-Run imports id o.0.0 o.0.1 good plain
                (find_outer-Sits s.heap name 1 s.stack o.0 good.stack o.1) in
            record {
              answered = true;
              after = first.after;
              ran = rw (out, o.1, find_scoped, first.ran) refl;
              passes = Passes-weaken imports (λ an c e. c) first.passes;
              idle = λ e. cc;
            }
        | inl nowhere ↦ elim (Option-cases (find name globals)) [
          | inr g ↦
              let l = make_global g.0 (length s.stack) new_local in
              record {
                answered = true;
                after = add_new id l s;
                ran = rw (out, nowhere, g.1, find_scoped) refl;
                passes =
                    Passes-weaken imports (λ an c e. c)
                      (add_new-Passes imports good id plain l
                        (global_IsOwned s.heap g.0 (length s.stack)));
                idle = λ e. cc;
              }
          | inl unknown ↦ record {
            answered = false;
            after = s;
            ran = rw (out, nowhere, unknown, find_scoped) refl;
            passes = Passes-weaken imports (λ an c e. cc) (Passes-refl imports good);
            idle = λ e. refl;
          }
        ]
      ]
    ]

    pub visit_named-Ensures :
        (name : Bytes) → Ensures imports (λ an. MayFit ⊥ an id) (visit_named globals id name)
    unfolding visit_named
    visit_named-Ensures name s good k =
        let r = find_scoped-Searched name s good in
        record {
          after = r.after;
          ran = rw (r.ran, visit_named) refl;
          passes = Passes-may id r.passes;
        }

    -- `self` is always found.
    pub visit_self-Ensures :
        Ensures imports (λ an. NodeFits ⊥ an id) (visit_named globals id (codes "self"))
    unfolding visit_named
    visit_self-Ensures s good k =
        let r = find_scoped-Searched (codes "self") s good in
        record {
          after = r.after;
          ran = rw (r.ran, visit_named) refl;
          passes = elim (Bool-cases r.answered) [
            | inl yes' ↦ Passes-weaken imports (λ an c. c yes') r.passes
            | inr no' ↦ absurd (
                find_scoped_self globals id s r.after k
                  (r.ran ∙ ap (λ (b : Bool). some (b, r.after)) no'))
          ];
        }

    add_send-Passes :
        {C : Analysis → Type 0} {s t : Tracker} (name : Bytes) (to_self : Bool) (ts : List ℕ)
        → Passes imports C s t
        → Passes imports C s (add_send name to_self ts t)
    add_send-Passes name true (t ∷ ts) p = Passes-written imports p
    add_send-Passes name true [] p = p
    add_send-Passes name false ts p = p

    pub visit_send-Ensures :
        (name : Bytes) (spec : Special) (recv : Node)
        → Ensures imports (λ an. MayFit ⊥ an id) (visit_send globals id name spec recv)
    unfolding visit_send
    visit_send-Ensures name spec recv s good k = elim (Bool-cases (self_less_p spec)) [
      | inr other ↦ record {
        after = add_send name (is_self recv) s.traits s;
        ran = rw (other, visit_send) refl;
        passes =
            Passes-may id (add_send-Passes name (is_self recv) s.traits (Passes-refl imports good));
      }
      | inl less ↦
          let r = find_scoped-Searched name s good in
          elim (Bool-cases r.answered) [
            | inl found ↦ record {
              after = r.after;
              ran = rw (less, visit_send, r.ran, found) refl;
              passes = Passes-may id r.passes;
            }
            | inr nowhere ↦ record {
              after = add_send name (is_self recv) r.after.traits r.after;
              ran = rw (less, visit_send, r.ran, nowhere) refl;
              passes = Passes-may id (add_send-Passes name (is_self recv) r.after.traits r.passes);
            }
          ]
    ]
