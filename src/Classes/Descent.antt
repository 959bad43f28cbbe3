-- ===== src/Classes/Descent.antt =====
-- vm/class.cpp: `class_tequal` decides whether a class is an ancestor.
use marius.Base.{
  get_elem?-lt, ℕ, zero, suc, ◌<◌, ◌≡◌, ◌↔◌, refl, ap, sym, ◌∙◌, Bool, true, false, Option, none,
  some, ◌==◌, ==_iff, length, get_elem?, Bool-cases, Option-cases, inl, inr, arith, subst,
}
use mathlib.Core.Option.{some-injective, none-ne-some}
use marius.Classes.{Class, Heap, descends, IsOrdered}

-- `chk` is the class c or above it.
pub data Ancestor {M : Type 0} (h : Heap M) (chk : ℕ) : ℕ → Type 0 where
  here : Ancestor h chk chk
  above :
      {c p : ℕ} {cls : Class M}
      → get_elem? h c ≡ some cls
      → cls.superclass ≡ some p
      → Ancestor h chk p
      → Ancestor h chk c

-- The answer of the walk from c: true exactly if `chk` is c or above it.
pub record Answers {M : Type 0} (h : Heap M) (chk c : ℕ) (answer : Option Bool) : Type 0 where
  pub result : Bool
  pub answered : answer ≡ some result
  pub correct : (result ≡ true) ↔ Ancestor h chk c

Ancestor-top :
    {M : Type 0} (h : Heap M) (chk c : ℕ) (cls : Class M)
    → get_elem? h c ≡ some cls
    → cls.superclass ≡ none
    → Ancestor h chk c
    → c ≡ chk
Ancestor-top h chk c cls e top here = refl
Ancestor-top h chk c cls e top (above {p = p'} {cls = cls'} e' up a) =
    let same : cls ≡ cls' = some-injective cls cls' (sym e ∙ e') in
    absurd (none-ne-some p' (sym top ∙ ap (λ (k : Class _). k.superclass) same ∙ up))

Ancestor-up :
    {M : Type 0} (h : Heap M) (chk c p : ℕ) (cls : Class M)
    → get_elem? h c ≡ some cls
    → cls.superclass ≡ some p
    → (c == chk) ≡ false
    → Ancestor h chk c
    → Ancestor h chk p
Ancestor-up h chk c p cls e up ne here = absurd (ground (arith, ==_iff c c))
Ancestor-up h chk c p cls e up ne (above {p = p'} {cls = cls'} e' up' a) =
    let same : cls ≡ cls' = some-injective cls cls' (sym e ∙ e') in
    let to : p' ≡ p =
      some-injective p' p (sym up' ∙ ap (λ (k : Class _). k.superclass) (sym same) ∙ up) in
    subst (Ancestor h chk) to a

-- On an ordered heap the walk from a class of the heap ends, with fuel for each class up to it.
pub descends-Answers :
    {M : Type 0} (h : Heap M) (chk c fuel : ℕ)
    → IsOrdered h
    → c < length h
    → c < fuel
    → Answers h chk c (descends fuel h (some c) chk)
unfolding descends
descends-Answers h chk c zero ordered small lt = absurd (omega arith)
descends-Answers h chk c (suc fuel) ordered small lt = elim (Bool-cases (c == chk)) [
  | inl e ↦ record {
    result = true;
    answered = rw e refl;
    correct = (λ _. subst (λ (k : ℕ). Ancestor h k c) ((==_iff c chk).0 e) here, λ _. refl);
  }
  | inr ne ↦
      let e = get_elem?-lt h c small in
      elim (Option-cases e.0.superclass) [
        | inl top ↦ record {
          result = false;
          answered = rw (ne, e.1, top) refl;
          correct = (
            λ no. absurd (ground arith),
            λ a. absurd (ground (arith, ==_iff c chk, Ancestor-top h chk c e.0 e.1 top a)),
          );
        }
        | inr up ↦
            let below = ordered c up.0 e.0 e.1 up.1 in
            let rest = descends-Answers h chk up.0 fuel ordered (omega arith) (omega arith) in
            record {
              result = rest.result;
              answered = rw (ne, e.1, up.1) rest.answered;
              correct = (
                λ so. above e.1 up.1 (rest.correct.0 so),
                λ a. rest.correct.1 (Ancestor-up h chk c up.0 e.0 e.1 up.1 ne a),
              );
            }
      ]
]
