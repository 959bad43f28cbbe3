-- ===== src/Objects/Closure.antt =====
-- vm/closure.hpp: the environments of closed-over variables. A closure is its frames, from its own
-- to its outermost; they are shared by pointers, so they stand in a store. A failed `check` ends the
-- program, which is `none`.
use marius.Base.{
  get_elem?-set_lt, Bool-cases, Option-cases, inl, inr, ==_iff, ◌==◌, sym, ◌∙◌, ap, ltb→lt,
  get_elem?-set, ◌&&◌, ℕ, zero, suc, ◌<◌, ◌≡◌, refl, Bool, Option, none, some, List, ltb,
  if◌then◌else◌, length, get_elem?, arith, set, replicate,
}

-- The fields of one `Closure`; `parent` is its position in the store.
pub record Closure {ℓ} (A : Type ℓ) : Type ℓ where
  pub parent : Option ℕ
  pub size : ℕ
  pub values : List A
  pub return_to : Bool

abbrev pub Store {ℓ} : Type ℓ → Type ℓ
Store A = List (Closure A)

module _ {ℓ} {A : Type ℓ} where
  -- `Closure::Closure`
  unfoldable pub new_closure : A → ℕ → Option ℕ → Bool → Closure A
  new_closure nil size parent return_to = record {
    parent = parent;
    size = size;
    values = replicate size nil;
    return_to = return_to;
  }

  unfoldable pub get : Closure A → ℕ → Option A
  get c i = if ltb i c.size then get_elem? c.values i else none

  abbrev pub parent_of : Option (Closure A) → Option ℕ
  parent_of none = none
  parent_of (some c) = c.parent

  -- The walk of `dep` steps to the parents; null where the chain is too short.
  unfoldable pub ancestor : Store A → ℕ → ℕ → Option ℕ
  ancestor s p zero = some p
  ancestor s p (suc dep) = elim (parent_of (get_elem? s p)) [
    | none ↦ none
    | some q ↦ ancestor s q dep
  ]

  -- The result is `none` where the program ends.
  abbrev pub get_from : ℕ → Option (Closure A) → Option A
  get_from i none = none
  get_from i (some c) = get c i

  unfoldable pub get_at_depth : A → Store A → ℕ → ℕ → ℕ → Option A
  get_at_depth nil s p dep i = elim (ancestor s p dep) [
    | none ↦ some nil
    | some q ↦ get_from i (get_elem? s q)
  ]

  -- `Closure::set`
  unfoldable pub set_value : Closure A → ℕ → A → Option (Closure A)
  set_value c i v = if ltb i c.size then some (record c { values = set c.values i v }) else none

  abbrev pub set_in : Store A → ℕ → Option (Closure A) → Option (Store A)
  set_in s q none = none
  set_in s q (some c) = some (set s q c)

  abbrev pub set_from : ℕ → A → Option (Closure A) → Option (Closure A)
  set_from i v none = none
  set_from i v (some c) = set_value c i v

  unfoldable pub set_at_depth : Store A → ℕ → ℕ → ℕ → A → Option (Store A)
  set_at_depth s p dep i v = elim (ancestor s p dep) [
    | none ↦ some s
    | some q ↦ set_in s q (set_from i v (get_elem? s q))
  ]

  -- A closure holds as many values as its size says.
  abbrev pub IsSized : Store A → Type ℓ
  IsSized s = (q : ℕ) (c : Closure A) → get_elem? s q ≡ some c → c.size ≡ length c.values

  -- A write keeps the parents.
  parent-set :
      (s : Store A) (q : ℕ) (c d : Closure A) (p : ℕ)
      → get_elem? s q ≡ some c
      → c.parent ≡ d.parent
      → parent_of (get_elem? (set s q d) p) ≡ parent_of (get_elem? s p)
  parent-set s q c d p h same = elim (Bool-cases (q == p)) [
    | inl e ↦
        let here : get_elem? s p ≡ some c = ap (get_elem? s) (sym ((==_iff q p).0 e)) ∙ h in
        rw (get_elem?-set s q p c d h, here, e) (sym same)
    | inr e ↦ rw (get_elem?-set s q p c d h, e) refl
  ]

  ancestor-set :
      (s : Store A) (q : ℕ) (c d : Closure A) (p dep : ℕ)
      → get_elem? s q ≡ some c
      → c.parent ≡ d.parent
      → ancestor (set s q d) p dep ≡ ancestor s p dep
  unfolding ancestor
  ancestor-set s q c d p zero h same = refl
  ancestor-set s q c d p (suc dep) h same =
      let kept = parent-set s q c d p h same in
      elim (Option-cases (parent_of (get_elem? s p))) [
        | inl e ↦ ground (arith, kept, e)
        | inr e ↦ ground (arith, kept, e.1, ancestor-set s q c d e.0 dep h same)
      ]

  -- A write that does not end the program, at the closure that the walk arrives at.
  pub record Written (s s' : Store A) (q i : ℕ) (v : A) : Type ℓ where
    pub closure : Closure A
    pub here : get_elem? s q ≡ some closure
    pub room : i < closure.size
    pub after : s' ≡ set s q (record closure { values = set closure.values i v })

  set_in-Written :
      (s s' : Store A) (q i : ℕ) (v : A)
      → set_in s q (set_from i v (get_elem? s q)) ≡ some s'
      → Written s s' q i v
  unfolding set_value
  set_in-Written s s' q i v h = elim (Option-cases (get_elem? s q)) [
    | inl e ↦ absurd (ground arith)
    | inr e ↦ elim (Bool-cases (ltb i e.0.size)) [
      | inl lt ↦ record {
        closure = e.0;
        here = e.1;
        room = ltb→lt i e.0.size lt;
        after = ground arith;
      }
      | inr ge ↦ absurd (ground arith)
    ]
  ]

  get_from-set :
      (s : Store A) (q i : ℕ) (v : A) (c : Closure A) (r j : ℕ)
      → get_elem? s q ≡ some c
      → c.size ≡ length c.values
      → i < c.size
      → get_from j (get_elem? (set s q (record c { values = set c.values i v })) r)
        ≡ (if (q == r) && (i == j) then some v else get_from j (get_elem? s r))
  unfolding get
  get_from-set s q i v c r j h sized lt =
      let after = get_elem?-set s q r c (record c { values = set c.values i v }) h in
      elim (Bool-cases (q == r)) [
        | inl e ↦
            let here : get_elem? s r ≡ some c = ap (get_elem? s) (sym ((==_iff q r).0 e)) ∙ h in
            rw (after, here, e)
              (ground (arith, get_elem?-set_lt c.values i j v (omega arith), ==_iff i j))
        | inr e ↦ rw (after, e) refl
      ]

  -- A variable that a write through one chain of closures changes is seen by every chain that
  -- arrives at the same closure: it holds the value written, and every other variable what it held.
  pub get_at_depth-set_at_depth :
      (nil v : A) (s s' : Store A) (p dep i q p' dep' j r : ℕ)
      → IsSized s
      → ancestor s p dep ≡ some q
      → ancestor s p' dep' ≡ some r
      → set_at_depth s p dep i v ≡ some s'
      → get_at_depth nil s' p' dep' j
        ≡ (if (q == r) && (i == j) then some v else get_at_depth nil s p' dep' j)
  unfolding get_at_depth set_at_depth
  get_at_depth-set_at_depth nil v s s' p dep i q p' dep' j r sized to_q to_r ran =
      let w = set_in-Written s s' q i v (ground (arith, to_q, ran)) in
      let c = w.closure in
      let d = record c { values = set c.values i v } in
      let route : ancestor s' p' dep' ≡ some r =
        ap (λ (u : Store A). ancestor u p' dep') w.after
        ∙ ancestor-set s q c d p' dep' w.here refl
        ∙ to_r in
      let read =
        ap (λ (u : Store A). get_from j (get_elem? u r)) w.after
        ∙ get_from-set s q i v c r j w.here (sized q c w.here) w.room in
      ground (arith, route, to_r, read)
