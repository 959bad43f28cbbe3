-- ===== src/Classes/Required.antt =====
-- vm/class.cpp: `Class::check_traits`, which finds a method that a trait of a class sends to itself
-- and that the class lacks.
use mathlib.Core.Option.{some-injective}
use marius.Base.{
  ℕ, ◌<◌, ◌≡◌, refl, ap, sym, ◌∙◌, Option, none, some, length, get_elem?, get_elem?-some_lt,
  Option-cases, inl, inr, arith, subst,
}
use marius.Base.Int.{pos}
use marius.Ast.{Bytes}
use marius.Objects.List
use marius.Objects.List.{LinkedList}
use marius.Objects.Tuple
use marius.Objects.Tuple.{Tuple}
use marius.Base.Loops.{loop, loop-Answer, Answer}
use marius.Classes.{Class, Heap, lookup, IsOrdered}
use marius.Classes.Lookup.{lookup-Finds}

-- Name q is at place j of the names that trait i of the class sends to itself.
pub record Sends (sends_of : ℕ → Option (Tuple (Option Bytes))) (nil : ℕ) (ts : LinkedList ℕ)
    (q : Bytes) : Type 0 where
  pub i : ℕ
  pub j : ℕ
  pub s : Tuple (Option Bytes)
  pub trait_lt : i < ts.size
  pub is_trait : sends_of (List.get nil ts (pos i)) ≡ some s
  pub name_lt : j < s.size
  pub is_name : Tuple.get none s j ≡ some q

-- The traits of a class are traits, and the names that they send are strings.
abbrev pub AreTraits : (ℕ → Option (Tuple (Option Bytes))) → ℕ → LinkedList ℕ → Type 0
AreTraits sends_of nil ts =
    (i : ℕ)
    → i < ts.size
    → (s : Tuple (Option Bytes)) × (sends_of (List.get nil ts (pos i)) ≡ some s)
      × ((j : ℕ) → j < s.size → (q : Bytes) × (Tuple.get none s j ≡ some q))

module _ {M : Type 0} (hash : Bytes → ℕ) (fuel : ℕ) where
  -- `as_string`, and the test of the inner loop. The answer is the name in the TraitError.
  unfoldable pub require : Heap M → ℕ → Option Bytes → Option (Option Bytes)
  require h c none = none
  require h c (some name) = elim (lookup hash fuel h c name) [
    | none ↦ none
    | some r ↦ elim r [ none ↦ some (some name) | some m ↦ some none ]
  ]

  -- The inner loop.
  unfoldable pub check_sends : Heap M → ℕ → Tuple (Option Bytes) → Option (Option Bytes)
  unfolding loop require
  check_sends h c s = loop (λ j. require h c (Tuple.get none s j)) s.size 0

  -- `as_trait`, and the inner loop over the names of the trait.
  abbrev pub check_trait : Heap M → ℕ → Option (Tuple (Option Bytes)) → Option (Option Bytes)
  check_trait h c none = none
  check_trait h c (some s) = check_sends h c s

  -- The whole of it: the name of a missing method, or none for `OOP::nil()`. `sends_of` gives the
  -- names of a value that is a trait, and `nil` is the value of that name.
  unfoldable pub check_traits :
      (ℕ → Option (Tuple (Option Bytes))) → ℕ → Heap M → ℕ → Option (Option Bytes)
  unfolding loop
  check_traits sends_of nil h c = elim (get_elem? h c) [
    | none ↦ none
    | some cls ↦
        loop (λ i. check_trait h c (sends_of (List.get nil cls.traits (pos i)))) cls.traits.size 0
  ]

  -- No name is missing, or the one given is.
  abbrev pub Verdict :
      (ℕ → Option (Tuple (Option Bytes))) → ℕ → Heap M → ℕ → LinkedList ℕ → Option Bytes → Type 0
  Verdict sends_of nil h c ts none =
      (q : Bytes) → Sends sends_of nil ts q → (m : M) × (lookup hash fuel h c q ≡ some (some m))
  Verdict sends_of nil h c ts (some q) =
      Sends sends_of nil ts q × (lookup hash fuel h c q ≡ some none)

  -- The answer for one name, of a heap on which lookups end.
  abbrev Asked : Heap M → ℕ → Bytes → Option Bytes → Type 0
  Asked h c q none = (m : M) × (lookup hash fuel h c q ≡ some (some m))
  Asked h c q (some q') = (q' ≡ q) × (lookup hash fuel h c q ≡ some none)

  require-Asked :
      (h : Heap M) (c : ℕ) (q : Bytes)
      → IsOrdered h
      → c < length h
      → c < fuel
      → (o : Option Bytes) × (require h c (some q) ≡ some o) × Asked h c q o
  unfolding require
  require-Asked h c q ordered small enough =
      let (r, ran, _) = lookup-Finds hash h c fuel q ordered small enough in
      elim (Option-cases r) [
        | inl lacks ↦ (some q, rw (ran, lacks, require) refl, (refl, ran ∙ ap some lacks))
        | inr has ↦ (none, rw (ran, has.1, require) refl, (has.0, ran ∙ ap some has.1))
      ]

  Asked-unique :
      (h : Heap M) (c : ℕ) (q : Bytes) (o o' : Option Bytes)
      → Asked h c q o
      → require h c (some q) ≡ some o
      → require h c (some q) ≡ some o'
      → Asked h c q o'
  Asked-unique h c q o o' a e e' = subst (Asked h c q) (some-injective o o' (sym e ∙ e')) a

  abbrev SendsAsked : Heap M → ℕ → Tuple (Option Bytes) → Option Bytes → Type 0
  SendsAsked h c s none =
      (j : ℕ) (q : Bytes) → j < s.size → Tuple.get none s j ≡ some q → Asked h c q none
  SendsAsked h c s (some q) =
      (j : ℕ) × (j < s.size) × (Tuple.get none s j ≡ some q) × (lookup hash fuel h c q ≡ some none)

  check_sends-SendsAsked :
      (h : Heap M) (c : ℕ) (s : Tuple (Option Bytes))
      → IsOrdered h
      → c < length h
      → c < fuel
      → ((j : ℕ) → j < s.size → (q : Bytes) × (Tuple.get none s j ≡ some q))
      → (o : Option Bytes) × (check_sends h c s ≡ some o) × SendsAsked h c s o
  unfolding check_sends
  check_sends-SendsAsked h c s ordered small enough names =
      let body = λ (j : ℕ). require h c (Tuple.get none s j) in
      let (o, ran, answer) = loop-Answer body s.size 0 (λ j le lt.
        let (q, e) = names j (omega arith) in
        let (o, r, _) = require-Asked h c q ordered small enough in (o, ap (require h c) e ∙ r)) in
      (o, ran, of_answer o answer)
    where
      of_answer :
          (o : Option Bytes)
          → Answer (λ (j : ℕ). require h c (Tuple.get none s j)) s.size 0 o
          → SendsAsked h c s o
      of_answer none a = λ j q lt e.
          let (o, r, asked) = require-Asked h c q ordered small enough in
          Asked-unique h c q o none asked r
            (ap (require h c) (sym e) ∙ a j (omega arith) (omega arith))
      of_answer (some q) (j, le, lt, a) =
          let (q', e) = names j (omega arith) in
          let (o, r, asked) = require-Asked h c q' ordered small enough in
          let (same, gone) =
            Asked-unique h c q' o (some q) asked r (ap (require h c) (sym e) ∙ a) in
          (j, omega arith, e ∙ ap some (sym same), ap (lookup hash fuel h c) same ∙ gone)

  -- On a heap where every class is made after its superclass, the check of a class whose traits are
  -- traits that send names ends, with more fuel than the position of the class. If it finds no
  -- fault, the class has a method for each name that a trait sends; else the name that it gives is
  -- one that a trait sends, and the class has no method for it.
  pub check_traits-Verdict :
      (sends_of : ℕ → Option (Tuple (Option Bytes))) (nil : ℕ) (h : Heap M) (c : ℕ) (cls : Class M)
      → IsOrdered h
      → get_elem? h c ≡ some cls
      → c < fuel
      → AreTraits sends_of nil cls.traits
      → (o : Option Bytes) × (check_traits sends_of nil h c ≡ some o)
        × Verdict sends_of nil h c cls.traits o
  unfolding check_traits
  check_traits-Verdict sends_of nil h c cls ordered here enough traits =
      let small = get_elem?-some_lt h c cls here in
      let body = λ (i : ℕ). check_trait h c (sends_of (List.get nil cls.traits (pos i))) in
      let (o, ran, answer) = loop-Answer body cls.traits.size 0 (λ i le lt.
        let (s, e, names) = traits i (omega arith) in
        let (o, r, _) = check_sends-SendsAsked h c s ordered small enough names in
        (o, ap (check_trait h c) e ∙ r)) in
      (o, rw (here, check_traits) ran, of_answer o answer)
    where
      found :
          (s : Tuple (Option Bytes)) (o o' : Option Bytes)
          → SendsAsked h c s o
          → check_sends h c s ≡ some o
          → check_sends h c s ≡ some o'
          → SendsAsked h c s o'
      found s o o' a e e' = subst (SendsAsked h c s) (some-injective o o' (sym e ∙ e')) a

      of_answer :
          (o : Option Bytes)
          → Answer
              (λ (i : ℕ). check_trait h c (sends_of (List.get nil cls.traits (pos i))))
              cls.traits.size
              0
              o
          → Verdict sends_of nil h c cls.traits o
      of_answer none a = λ q sends.
          let (s, e, names) = traits sends.i sends.trait_lt in
          let (o, r, asked) =
            check_sends-SendsAsked h c s ordered (get_elem?-some_lt h c cls here) enough names in
          let all = found s o none asked r (
            ap (check_trait h c) (sym e)
            ∙ a sends.i (omega arith) (let l = sends.trait_lt in omega arith)) in
          let same = some-injective sends.s s (sym sends.is_trait ∙ e) in
          all sends.j q (subst (λ (t : Tuple (Option Bytes)). sends.j < t.size) same sends.name_lt)
            (ap (λ (t : Tuple (Option Bytes)). Tuple.get none t sends.j) (sym same) ∙ sends.is_name)
      of_answer (some q) (i, le, lt, a) =
          let (s, e, names) = traits i (omega arith) in
          let (o, r, asked) =
            check_sends-SendsAsked h c s ordered (get_elem?-some_lt h c cls here) enough names in
          let (j, small, is_name, gone) =
            found s o (some q) asked r (ap (check_trait h c) (sym e) ∙ a) in
          (
            record {
              i = i;
              j = j;
              s = s;
              trait_lt = omega arith;
              is_trait = e;
              name_lt = small;
              is_name = is_name;
            },
            gone,
          )
