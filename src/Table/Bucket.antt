-- ===== src/Table/Bucket.antt =====
-- vm/bindings.cpp, vm/method_table.cpp: the entries of one bucket.
use marius.Base.{
  sym, ◌∙◌, Bool-cases, inl, inr, ℕ, suc, ◌≡◌, refl, ap, Bool, true, false, ◌&&◌, Option, none,
  some, List, [], ◌∷◌, ◌==◌, arith, if◌then◌else◌, length, ==_iff,
}
use marius.Ast.{Bytes}

-- `String::equal`
abbrev pub equal : Bytes → Bytes → Bool
equal [] [] = true
equal [] (b ∷ bs) = false
equal (a ∷ as') [] = false
equal (a ∷ as') (b ∷ bs) = (a == b) && equal as' bs

abbrev pub Chain {ℓ} : Type ℓ → Type ℓ
Chain V = List (Bytes × V)

-- A chain after a write, and whether an entry was made for it.
pub record Put {ℓ} (V : Type ℓ) : Type ℓ where
  pub chain : Chain V
  pub grown : Bool

module _ {ℓ} {V : Type ℓ} where
  unfoldable pub find_in : Bytes → Chain V → Option V
  find_in name [] = none
  find_in name (e ∷ c) = if equal e.0 name then some e.1 else find_in name c

  -- The loop of `set` and of `add`: the value of an equal key is replaced, or an entry is appended.
  unfoldable pub put : Bytes → V → Chain V → Put V
  put name val [] = record { chain = (name, val) ∷ []; grown = true }
  put name val (e ∷ c) =
      let rest = put name val c in
      if equal e.0 name
      then record { chain = (e.0, val) ∷ c; grown = false }
      else record { chain = e ∷ rest.chain; grown = rest.grown }

pub equal_eq : (a b : Bytes) → equal a b ≡ true → a ≡ b
equal_eq [] [] h = refl
equal_eq [] (b ∷ bs) h = grind arith
equal_eq (a ∷ as') [] h = grind arith
equal_eq (a ∷ as') (b ∷ bs) h = ground (arith, equal_eq as' bs, ==_iff a b)

pub equal_refl : (a : Bytes) → equal a a ≡ true
equal_refl [] = refl
equal_refl (a ∷ as') = ground (arith, equal_refl as')

pub equal_sym : (a b : Bytes) → equal a b ≡ equal b a
equal_sym [] [] = refl
equal_sym [] (b ∷ bs) = refl
equal_sym (a ∷ as') [] = refl
equal_sym (a ∷ as') (b ∷ bs) = ground (arith, equal_sym as' bs)

module _ {ℓ} {V : Type ℓ} where
  pub find_in-put :
      (q name : Bytes) (val : V) (c : Chain V)
      → find_in q (put name val c).chain ≡ (if equal name q then some val else find_in q c)
  unfolding find_in put
  find_in-put q name val [] = refl
  find_in-put q name val (e ∷ c) =
      let by_key : equal e.0 name ≡ true → equal e.0 q ≡ equal name q =
        λ h. ap (λ (k : Bytes). equal k q) (equal_eq e.0 name h) in
      elim (Bool-cases (equal e.0 name)) [
        | inl h ↦
            let same = by_key h in
            elim (Bool-cases (equal e.0 q)) [
              | inl k ↦ let k' : equal name q ≡ true = cc in rw (h, k, k') refl
              | inr k ↦ let k' : equal name q ≡ false = cc in rw (h, k, k') refl
            ]
        | inr h ↦
            let rest = find_in-put q name val c in
            elim (Bool-cases (equal name q)) [
              | inl k ↦
                  let k' : equal e.0 q ≡ false =
                    ap (λ (n : Bytes). equal e.0 n) (sym (equal_eq name q k)) ∙ h in
                  rw (h, k, k', rest, k) refl
              | inr k ↦ rw (h, rest, k) refl
            ]
      ]

  pub length-put :
      (name : Bytes) (val : V) (c : Chain V)
      → length (put name val c).chain
        ≡ (if (put name val c).grown then suc (length c) else length c)
  unfolding put
  length-put name val [] = refl
  length-put name val (e ∷ c) = ground (arith, length-put name val c)

  -- Every key of the chain has the home i.
  abbrev pub Home : (Bytes → ℕ) → ℕ → Chain V → Type 0
  Home home i [] = Unit
  Home home i (e ∷ c) = (home e.0 ≡ i) × Home home i c

  pub Home-put :
      (home : Bytes → ℕ) (i : ℕ) (name : Bytes) (val : V) (c : Chain V)
      → home name ≡ i
      → Home home i c
      → Home home i (put name val c).chain
  unfolding put
  Home-put home i name val [] h hs = (h, tt)
  Home-put home i name val (e ∷ c) h hs = elim (Bool-cases (equal e.0 name)) [
    | inl k ↦ rw k hs
    | inr k ↦ rw k (hs.0, Home-put home i name val c h hs.1)
  ]
