-- ===== src/Classes/Traits.antt =====
-- vm/class.cpp: `Class::uses_trait`, which gives a class the methods of a trait that it lacks.
use marius.Base.{
  get_elem?-some_lt, ℕ, zero, suc, ◌<◌, ◌≡◌, refl, ap, sym, ◌∙◌, Bool, true, false, Option, none,
  some, [], ◌∷◌, ◌==◌, ==_iff, get_elem?, get_elem?-set, if◌then◌else◌, Bool-cases, Option-cases,
  inl, inr, arith, subst, set,
}
use mathlib.Core.List.{flatten}
use mathlib.Core.Option.{or_else, some-injective}
use marius.Ast.{Bytes}
use marius.Objects.List
use marius.Table
use marius.Table.{Table}
use marius.Table.Bucket.{Chain, equal, equal_eq, find_in}
use marius.Table.Laws.{IsValid, add-IsValid}
use marius.Table.Listing.{find-flatten}
use marius.Table.Iteration.{visit-flatten, visit, new_iterator}
use marius.Classes.{Class, Heap, lookup, add_native_method, IsOrdered}
use marius.Classes.Lookup.{lookup-Finds, lookup-add_native_method}

module _ {M : Type 0} (hash : Bytes → ℕ) where
  -- `instance_method_p`, and the addition where it is false, for each entry; the fuel is for the
  -- lookups.
  unfoldable pub add_missing : ℕ → Heap M → ℕ → Chain M → Option (Heap M)
  add_missing fuel h c [] = some h
  add_missing fuel h c (e ∷ es) =
      let with_it = add_missing fuel (add_native_method hash h c e.0 e.1) c es in
      let without = add_missing fuel h c es in
      elim (lookup hash fuel h c e.0) [
        | none ↦ none
        | some r ↦ elim r [ none ↦ with_it | some m ↦ without ]
      ]

  abbrev pub push_trait : ℕ → ℕ → Option (Heap M) → Option (Heap M)
  push_trait c trait none = none
  push_trait c trait (some h) = elim (get_elem? h c) [
    | none ↦ none
    | some cls ↦ some (set h c (record cls { traits = List.push cls.traits trait }))
  ]

  -- The whole of it, for a trait with the methods `t`; `past` is what stands behind the buckets of its
  -- table.
  unfoldable pub uses_trait : ℕ → Chain M → Heap M → ℕ → ℕ → Table M → Option (Heap M)
  unfolding add_missing
  uses_trait fuel past h c trait t =
      push_trait c trait (add_missing fuel h c (visit past t (suc t.size) new_iterator))

  -- A class as the lemmas below need it.
  record Ready (h : Heap M) (c fuel : ℕ) : Type 0 where
    ordered : IsOrdered h
    cls : Class M
    here : get_elem? h c ≡ some cls
    valid : IsValid hash cls.method_table
    enough : c < fuel

  IsOrdered-set :
      (h : Heap M) (c : ℕ) (cls k : Class M)
      → IsOrdered h
      → get_elem? h c ≡ some cls
      → k.superclass ≡ cls.superclass
      → IsOrdered (set h c k)
  IsOrdered-set h c cls k ordered here same d p cls' at' up =
      let after = sym (get_elem?-set h c d cls k here) ∙ at' in
      let by = λ (b : Bool) (e : (c == d) ≡ b).
        subst (λ (x : Bool). (if x then some k else get_elem? h d) ≡ some cls') e after in
      elim (Bool-cases (c == d)) [
        | inl e ↦
            let up' : cls.superclass ≡ some p =
              sym same
              ∙ ap (λ (x : Class M). x.superclass) (some-injective k cls' (by true e))
              ∙ up in
            subst (λ (n : ℕ). p < n) ((==_iff c d).0 e) (ordered c p cls here up')
        | inr ne ↦ ordered d p cls' (by false ne) up
      ]

  Ready-add :
      (h : Heap M) (c fuel : ℕ) (name : Bytes) (m : M)
      → Ready h c fuel
      → Ready (add_native_method hash h c name m) c fuel
  unfolding add_native_method
  Ready-add h c fuel name m r =
      let cls = r.cls in
      let k = record cls { method_table = Table.add hash name m cls.method_table } in
      let added : set h c k ≡ add_native_method hash h c name m =
        rw (r.here, add_native_method) refl in
      let self : (c == c) ≡ true = ground arith in
      subst (λ (g : Heap M). Ready g c fuel) added
        record {
          ordered = IsOrdered-set h c cls k r.ordered r.here refl;
          cls = k;
          here = get_elem?-set h c c cls k r.here ∙ rw self refl;
          valid = add-IsValid hash name m cls.method_table r.valid;
          enough = r.enough;
        }

  -- The heap after `add_missing`, and what lookups of the class find in it.
  record Completed (fuel : ℕ) (h : Heap M) (c : ℕ) (es : Chain M) : Type 0 where
    after : Heap M
    added : add_missing fuel h c es ≡ some after
    ready : Ready after c fuel
    answers :
        (q : Bytes) (r : Option M)
        → lookup hash fuel h c q ≡ some r
        → lookup hash fuel after c q ≡ some (or_else r (find_in q es))

  add_missing-Completed :
      (fuel : ℕ) (h : Heap M) (c : ℕ) (es : Chain M) → Ready h c fuel → Completed fuel h c es
  unfolding add_missing find_in or_else
  add_missing-Completed fuel h c [] r = record {
    after = h;
    added = refl;
    ready = r;
    answers = λ q o found. found ∙ ap some (or_else-none o);
  }
    where
      or_else-none : (o : Option M) → o ≡ or_else o none
      or_else-none none = refl
      or_else-none (some m) = refl
  add_missing-Completed fuel h c (e ∷ es) r =
      let (o, ran, _) =
        lookup-Finds hash h c fuel e.0 r.ordered (get_elem?-some_lt h c r.cls r.here) r.enough in
      elim (Option-cases o) [
        | inl lacks ↦
            let g = add_native_method hash h c e.0 e.1 in
            let rest = add_missing-Completed fuel g c es (Ready-add h c fuel e.0 e.1 r) in
            record {
              after = rest.after;
              added = rw (ran, lacks, add_missing) rest.added;
              ready = rest.ready;
              answers = λ q r' found.
                  let add =
                    lookup-add_native_method hash h c fuel q e.0 e.1 r.cls r.ordered r.here r.valid
                      r.enough in
                  elim (Bool-cases (equal e.0 q)) [
                    | inl so ↦
                        let empty : r' ≡ none = some-injective r' none (
                          sym found
                          ∙ ap (lookup hash fuel h c) (sym (equal_eq e.0 q so))
                          ∙ ran
                          ∙ ap some lacks) in
                        let now : lookup hash fuel g c q ≡ some (some e.1) = add ∙ rw so refl in
                        rw (so, empty) (rest.answers q (some e.1) now)
                    | inr ne ↦
                        let now : lookup hash fuel g c q ≡ some r' = add ∙ rw ne found in
                        rw ne (rest.answers q r' now)
                  ];
            }
        | inr has ↦
            let rest = add_missing-Completed fuel h c es r in
            record {
              after = rest.after;
              added = rw (ran, has.1, add_missing) rest.added;
              ready = rest.ready;
              answers = λ q r' found. elim (Bool-cases (equal e.0 q)) [
                | inl so ↦
                    let own : r' ≡ some has.0 = some-injective r' (some has.0) (
                      sym found
                      ∙ ap (lookup hash fuel h c) (sym (equal_eq e.0 q so))
                      ∙ ran
                      ∙ ap some has.1) in
                    rw (so, own)
                      (subst
                        (λ (x : Option M).
                          lookup hash fuel rest.after c q ≡ some (or_else x (find_in q es)))
                        own (rest.answers q r' found))
                | inr ne ↦ rw ne (rest.answers q r' found)
              ];
            }
      ]

  -- The list of traits is no part of a lookup.
  lookup-set_traits :
      (h : Heap M) (c : ℕ) (cls : Class M) (ts : List.LinkedList ℕ) (fuel d : ℕ) (q : Bytes)
      → get_elem? h c ≡ some cls
      → lookup hash fuel (set h c (record cls { traits = ts })) d q ≡ lookup hash fuel h d q
  unfolding lookup
  lookup-set_traits h c cls ts zero d q e = refl
  lookup-set_traits h c cls ts (suc fuel) d q e =
      let k = record cls { traits = ts } in
      let after = get_elem?-set h c d cls k e in
      let up = λ (p : ℕ). lookup-set_traits h c cls ts fuel p q e in
      elim (Bool-cases (c == d)) [
        | inl so ↦
            let here : get_elem? (set h c k) d ≡ some k = after ∙ rw so refl in
            let before : get_elem? h d ≡ some cls =
              ap (get_elem? h) (sym ((==_iff c d).0 so)) ∙ e in
            elim (Option-cases (Table.find hash q cls.method_table)) [
              | inr f ↦ rw (here, before, f.1, lookup) refl
              | inl f ↦ elim (Option-cases cls.superclass) [
                | inl top ↦ rw (here, before, f, top, lookup) refl
                | inr p ↦ rw (here, before, f, p.1, lookup) (up p.0)
              ]
            ]
        | inr ne ↦
            let same : get_elem? (set h c k) d ≡ get_elem? h d = after ∙ rw ne refl in
            elim (Option-cases (get_elem? h d)) [
              | inl gone ↦ rw (same, gone, lookup) refl
              | inr at' ↦ elim (Option-cases (Table.find hash q at'.0.method_table)) [
                | inr f ↦ rw (same, at'.1, f.1, lookup) refl
                | inl f ↦ elim (Option-cases at'.0.superclass) [
                  | inl top ↦ rw (same, at'.1, f, top, lookup) refl
                  | inr p ↦ rw (same, at'.1, f, p.1, lookup) (up p.0)
                ]
              ]
            ]
      ]

  -- A class that uses a trait answers to each name as before or, where it had no answer, with the
  -- trait's method. The heap is ordered, both tables are valid, and a null pointer stands behind the
  -- trait's buckets.
  pub uses_trait-lookup :
      (fuel : ℕ) (past : Chain M) (h : Heap M) (c trait : ℕ) (t : Table M) (cls : Class M)
      (q : Bytes)
      → IsOrdered h
      → get_elem? h c ≡ some cls
      → IsValid hash cls.method_table
      → IsValid hash t
      → past ≡ []
      → c < fuel
      → (after : Heap M) × (uses_trait fuel past h c trait t ≡ some after)
        × ((r : Option M) × (lookup hash fuel h c q ≡ some r)
            × (lookup hash fuel after c q ≡ some (or_else r (Table.find hash q t))))
  unfolding uses_trait
  uses_trait-lookup fuel past h c trait t cls q ordered here valid valid' null enough =
      let start : Ready h c fuel = record {
        ordered = ordered;
        cls = cls;
        here = here;
        valid = valid;
        enough = enough;
      } in
      let entries = visit-flatten past t hash (suc t.size) null valid' (omega arith) in
      let done = add_missing-Completed fuel h c (flatten t.entries) start in
      let k = done.ready.cls in
      let ts = List.push k.traits trait in
      let (r, ran, _) =
        lookup-Finds hash h c fuel q ordered (get_elem?-some_lt h c cls here) enough in
      let pushed : push_trait c trait (some done.after)
          ≡ some (set done.after c (record k { traits = ts })) =
        rw (done.ready.here, push_trait) refl in
      (
        set done.after c (record k { traits = ts }),
        ap (λ (es : Chain M). push_trait c trait (add_missing fuel h c es)) entries
            ∙ ap (push_trait c trait) done.added
            ∙ pushed,
        (
          r,
          ran,
          lookup-set_traits done.after c k ts fuel c q done.ready.here
              ∙ done.answers q r ran
              ∙ ap (λ (o : Option M). some (or_else r o)) (sym (find-flatten hash q t valid')),
        ),
      )
