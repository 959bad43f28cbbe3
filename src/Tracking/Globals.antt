-- ===== src/Tracking/Globals.antt =====
-- vm/scope_tracker.cpp: the visits of the nodes behind which a global stands: imports, traits and
-- dictionaries.
use marius.Base.{
  inr, inl, ℕ, suc, ◌<◌, ◌≡◌, ◌≢◌, refl, Bool, true, false, none, [], ◌∷◌, ◌++◌, length,
  length-append, arith, codes, Option-cases,
}
use marius.Ast.{Bytes, ArgMap}
use marius.Local.{Local, new_local, set_extra, make_global}
use marius.Codegen.Layout.Locals.{NodeFits, ImportFits}
use marius.Tracking.{
  Tracker, visit_import, visit_dictionary, visit_trait, insert_new, add_new, pop_trait,
}
use marius.Tracking.Names.{find}
use marius.Tracking.Visit.{push_trait}
use marius.Tracking.Sound.{IsSound, IsSound-ImportFits}
use marius.Tracking.Steps.{
  Passes-written, Nothing, Passes-refl, Passes, Ensures, Passes-trans, Passes-weaken, append-Passes,
  map-Passes, insert-Passes,
}
use marius.Tracking.Visits.{add_new-Passes, global_IsOwned, get_elem?-new, free_IsOwned}

-- A name that is a global.
abbrev pub IsGlobal : ArgMap → Bytes → Type 0
IsGlobal globals name = find name globals ≢ none

module _ (imports : ℕ → Bool) (globals : ArgMap) where
  set_extra-Passes :
      {s : Tracker} (id : ℕ) (name : Bytes) (e : ℕ)
      → IsSound imports s
      → imports id ≡ true
      → e < length s.heap
      → Passes imports (λ an. ImportFits ⊥ an id) s (insert_new id name (set_extra e new_local) s)
  unfolding insert_new add_new set_extra
  set_extra-Passes {s} id name e good import lt =
      let l : Local = set_extra e new_local in
      let h = s.heap ++ l ∷ [] in
      let here = get_elem?-new s.heap l in
      let size : length h ≡ suc (length s.heap) = omega (arith, length-append s.heap (l ∷ [])) in
      let first = append-Passes imports good l (free_IsOwned s.heap l (λ x. cc)) in
      let second =
        map-Passes imports first.sound {C = λ an. ImportFits ⊥ an id} id (length s.heap)
          (omega arith) (λ k. (l, e, here, refl, omega arith))
          (λ f g there. IsSound-ImportFits g id import there) in
      Passes-weaken imports (λ an c. c.0.1)
        (Passes-trans imports (Passes-trans imports first second)
          (insert-Passes imports second.sound name (length s.heap) (l, here, refl)))

  pub visit_import-Ensures :
      (id : ℕ) (name of : Bytes)
      → imports id ≡ true
      → IsGlobal globals of
      → Ensures imports (λ an. ImportFits ⊥ an id) (visit_import globals id name of)
  unfolding visit_import
  visit_import-Ensures id name of import known s good k = elim (Option-cases (find of globals)) [
    | inl unknown ↦ absurd (known unknown)
    | inr r ↦
        let l : Local = make_global r.0 (length s.stack) new_local in
        let first = append-Passes imports good l (global_IsOwned s.heap r.0 (length s.stack)) in
        let g = record s { heap = s.heap ++ l ∷ [] } in
        record {
          after = insert_new id name (set_extra (length s.heap) new_local) g;
          ran = rw (r.1, visit_import) refl;
          passes =
              Passes-weaken imports (λ an c. c.1)
                (Passes-trans imports first (
                  set_extra-Passes id name (length s.heap) first.sound import
                    (omega (arith, length-append s.heap (l ∷ [])))));
        }
  ]

  pub visit_dictionary-Ensures :
      (id : ℕ)
      → imports id ≡ false
      → IsGlobal globals (codes "Dictionary")
      → Ensures imports (λ an. NodeFits ⊥ an id) (visit_dictionary globals id)
  unfolding visit_dictionary
  visit_dictionary-Ensures id plain known s good k =
      elim (Option-cases (find (codes "Dictionary") globals)) [
        | inl unknown ↦ absurd (known unknown)
        | inr r ↦
            let l : Local = make_global r.0 (length s.stack) new_local in
            record {
              after = add_new id l s;
              ran = rw (r.1, visit_dictionary) refl;
              passes =
                  add_new-Passes imports good id plain l
                    (global_IsOwned s.heap r.0 (length s.stack));
            }
      ]

  pub push_trait-Ensures : (id : ℕ) → Ensures imports (Nothing imports) (push_trait id)
  push_trait-Ensures id s good k = record {
    after = record s { traits = id ∷ s.traits };
    ran = refl;
    passes = Passes-written imports (Passes-refl imports good);
  }

  pub visit_trait-Ensures :
      (id : ℕ) (name : Bytes)
      → imports id ≡ true
      → IsGlobal globals (codes "Trait")
      → Ensures imports (λ an. ImportFits ⊥ an id) (visit_trait globals id name)
  unfolding visit_trait
  visit_trait-Ensures id name import known s good k =
      let first = visit_import-Ensures id name (codes "Trait") import known s good k in
      record {
        after = record first.after { traits = pop_trait first.after.traits };
        ran = rw (visit_trait, first.ran) refl;
        passes = Passes-written imports first.passes;
      }
