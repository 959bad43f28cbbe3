-- ===== src/Classes/Lookup.antt =====
-- vm/class.cpp: what lookups find.
use marius.Base.{
  ℕ, zero, suc, ◌<◌, ◌≡◌, refl, ap, ◌∙◌, true, false, Option, none, some, ◌==◌, length, get_elem?,
  get_elem?-lt, get_elem?-set, if◌then◌else◌, Bool-cases, Option-cases, inl, inr, arith, set,
}
use marius.Ast.{Bytes}
use marius.Table
use marius.Table.{Table}
use marius.Table.Bucket.{equal}
use marius.Table.Laws.{IsValid, find-add}
use marius.Classes.{Class, Heap, lookup, add_native_method, IsOrdered}

module _ {M : Type 0} (hash : Bytes → ℕ) where
  -- The class c has the method m for the name, or has none and its superclass has it, by itself or
  -- in the same way.
  pub data Finds (h : Heap M) (name : Bytes) (r : Option M) : ℕ → Type 0 where
    own :
        {c : ℕ} {cls : Class M} {m : M}
        → get_elem? h c ≡ some cls
        → Table.find hash name cls.method_table ≡ some m
        → r ≡ some m
        → Finds h name r c
    inherits :
        {c p : ℕ} {cls : Class M}
        → get_elem? h c ≡ some cls
        → Table.find hash name cls.method_table ≡ none
        → cls.superclass ≡ some p
        → Finds h name r p
        → Finds h name r c
    misses :
        {c : ℕ} {cls : Class M}
        → get_elem? h c ≡ some cls
        → Table.find hash name cls.method_table ≡ none
        → cls.superclass ≡ none
        → r ≡ none
        → Finds h name r c

  -- On an ordered heap a lookup from a class of the heap ends, with fuel for each class up to it, and
  -- gives the method of the first class with one, or null if there is none.
  pub lookup-Finds :
      (h : Heap M) (c fuel : ℕ) (name : Bytes)
      → IsOrdered h
      → c < length h
      → c < fuel
      → (r : Option M) × (lookup hash fuel h c name ≡ some r) × Finds h name r c
  unfolding lookup
  lookup-Finds h c zero name ordered small lt = absurd (omega arith)
  lookup-Finds h c (suc fuel) name ordered small lt =
      let e = get_elem?-lt h c small in
      elim (Option-cases (Table.find hash name e.0.method_table)) [
        | inr f ↦ (some f.0, rw (e.1, f.1, lookup) refl, own e.1 f.1 refl)
        | inl f ↦ elim (Option-cases e.0.superclass) [
          | inl top ↦ (none, rw (e.1, f, top, lookup) refl, misses e.1 f top refl)
          | inr up ↦
              let below = ordered c up.0 e.0 e.1 up.1 in
              let (r, ran, found) =
                lookup-Finds h up.0 fuel name ordered (omega arith) (omega arith) in
              (r, rw (e.1, f, up.1, lookup) ran, inherits e.1 f up.1 found)
        ]
      ]

  -- A change of the class c is not seen from a class in front of it.
  lookup-set :
      (h : Heap M) (c p fuel : ℕ) (q : Bytes) (cls k : Class M)
      → IsOrdered h
      → get_elem? h c ≡ some cls
      → p < c
      → lookup hash fuel (set h c k) p q ≡ lookup hash fuel h p q
  unfolding lookup
  lookup-set h c p zero q cls k ordered e lt = refl
  lookup-set h c p (suc fuel) q cls k ordered e lt =
      let away : (c == p) ≡ false = ground arith in
      let same : get_elem? (set h c k) p ≡ get_elem? h p =
        get_elem?-set h c p cls k e ∙ rw away refl in
      elim (Option-cases (get_elem? h p)) [
        | inl gone ↦ rw (same, gone, lookup) refl
        | inr at' ↦ elim (Option-cases (Table.find hash q at'.0.method_table)) [
          | inr f ↦ rw (same, at'.1, f.1, lookup) refl
          | inl f ↦ elim (Option-cases at'.0.superclass) [
            | inl top ↦ rw (same, at'.1, f, top, lookup) refl
            | inr up ↦
                let below = ordered p up.0 at'.0 at'.1 up.1 in
                rw (same, at'.1, f, up.1, lookup)
                  (lookup-set h c up.0 fuel q cls k ordered e (omega arith))
          ]
        ]
      ]

  -- A method that is added to a class answers there to its name, and to every other name the class
  -- answers as before.
  pub lookup-add_native_method :
      (h : Heap M) (c fuel : ℕ) (q name : Bytes) (m : M) (cls : Class M)
      → IsOrdered h
      → get_elem? h c ≡ some cls
      → IsValid hash cls.method_table
      → c < fuel
      → lookup hash fuel (add_native_method hash h c name m) c q
        ≡ (if equal name q then some (some m) else lookup hash fuel h c q)
  unfolding lookup add_native_method
  lookup-add_native_method h c zero q name m cls ordered e valid lt = absurd (omega arith)
  lookup-add_native_method h c (suc fuel) q name m cls ordered e valid lt =
      let k = record cls { method_table = Table.add hash name m cls.method_table } in
      let self : (c == c) ≡ true = ground arith in
      let here : get_elem? (set h c k) c ≡ some k = get_elem?-set h c c cls k e ∙ rw self refl in
      let written = find-add hash q name m cls.method_table valid in
      let added : add_native_method hash h c name m ≡ set h c k = rw (e, add_native_method) refl in
      ap (λ (g : Heap M). lookup hash (suc fuel) g c q) added
      ∙ elim (Bool-cases (equal name q))
          as (λ x.
            lookup hash (suc fuel) (set h c k) c q
            ≡ (if equal name q then some (some m) else lookup hash (suc fuel) h c q)) [
              | inl so ↦
                  let found : Table.find hash q k.method_table ≡ some m = written ∙ rw so refl in
                  rw (here, found, so, lookup) refl
              | inr else' ↦
                  let found : Table.find hash q k.method_table
                      ≡ Table.find hash q cls.method_table =
                    written ∙ rw else' refl in
                  elim (Option-cases (Table.find hash q cls.method_table)) [
                    | inr f ↦ rw (here, found, else', e, f.1, lookup) refl
                    | inl f ↦ elim (Option-cases cls.superclass) [
                      | inl top ↦ rw (here, found, else', e, f, top, lookup) refl
                      | inr up ↦
                          let below = ordered c up.0 cls e up.1 in
                          rw (here, found, else', e, f, up.1, lookup)
                            (lookup-set h c up.0 fuel q cls k ordered e below)
                    ]
                  ]
            ]
