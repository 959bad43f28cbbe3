-- ===== src/Objects/LTuple.antt =====
-- vm/ltuple.hpp: the tuples of a code. A failed `check` is `none`.
use marius.Base.{
  inr, inl, Bool-cases, ℕ, zero, suc, ◌+◌, ◌<◌, ◌≡◌, refl, Bool, true, false, Option, none, some,
  List, [], ◌∷◌, ltb, if◌then◌else◌, length, get_elem?, take, arith,
}

pub record LTuple {ℓ} (A : Type ℓ) : Type ℓ where
  pub elems : List A
  pub size : ℕ

module _ {ℓ} {A : Type ℓ} where
  -- `LTuple::LTuple`
  unfoldable pub new_ltuple : List A → LTuple A
  new_ltuple vec = record { elems = vec; size = length vec }

  unfoldable pub at : LTuple A → ℕ → Option A
  at t i = if ltb i t.size then get_elem? t.elems i else none

  -- The loop of `LTuple::find` over the first `size_` elements, with the comparison as an argument.
  unfoldable pub find_from : (A → A → Bool) → List A → ℕ → A → Option ℕ
  find_from compare [] i x = none
  find_from compare (e ∷ es) i x = if compare e x then some i else find_from compare es (suc i) x

  unfoldable pub find : (A → A → Bool) → LTuple A → A → Option ℕ
  unfolding find_from
  find compare t x = find_from compare (take t.size t.elems) 0 x

  -- Position k is the first whose element equals x.
  pub record IsFirst (compare : A → A → Bool) (es : List A) (x : A) (k : ℕ) : Type ℓ where
    pub found : A
    pub here : get_elem? es k ≡ some found
    pub equal : compare found x ≡ true
    pub before : (m : ℕ) (e : A) → m < k → get_elem? es m ≡ some e → compare e x ≡ false

  abbrev pub Answer : (A → A → Bool) → List A → A → ℕ → Option ℕ → Type ℓ
  Answer compare es x i none = (m : ℕ) (e : A) → get_elem? es m ≡ some e → compare e x ≡ false
  Answer compare es x i (some k) = (j : ℕ) × (k ≡ i + j) × IsFirst compare es x j

  Answer-cons :
      (compare : A → A → Bool) (e : A) (es : List A) (x : A) (i : ℕ) (o : Option ℕ)
      → compare e x ≡ false
      → Answer compare es x (suc i) o
      → Answer compare (e ∷ es) x i o
  Answer-cons compare e es x i none c h = miss
    where
      miss : (m : ℕ) (d : A) → get_elem? (e ∷ es) m ≡ some d → compare d x ≡ false
      miss zero d k = ground arith
      miss (suc m) d k = h m d k
  Answer-cons compare e es x i (some k) c (j, at', first) = (
    suc j,
    omega arith,
    record { found = first.found; here = first.here; equal = first.equal; before = miss },
  )
    where
      miss : (m : ℕ) (d : A) → m < suc j → get_elem? (e ∷ es) m ≡ some d → compare d x ≡ false
      miss zero d lt k = ground arith
      miss (suc m) d lt k = first.before m d (omega arith) k

  find_from-Answer :
      (compare : A → A → Bool) (es : List A) (i : ℕ) (x : A)
      → Answer compare es x i (find_from compare es i x)
  unfolding find_from
  find_from-Answer compare [] i x = λ m e h. ground arith
  find_from-Answer compare (e ∷ es) i x = elim (Bool-cases (compare e x)) [
    | inl c ↦ rw c (
      0,
      omega arith,
      record { found = e; here = refl; equal = c; before = λ m d lt h. absurd (omega arith) },
    )
    | inr c ↦ rw c (
        Answer-cons compare e es x i (find_from compare es (suc i) x) c
          (find_from-Answer compare es (suc i) x))
  ]

  -- `LTuple::find` gives the first position, among the elements that the tuple's size counts, whose
  -- element equals x; without an answer none of these elements equals it.
  pub find-Answer :
      (compare : A → A → Bool) (t : LTuple A) (x : A)
      → Answer compare (take t.size t.elems) x 0 (find compare t x)
  unfolding find
  find-Answer compare t x = find_from-Answer compare (take t.size t.elems) 0 x
