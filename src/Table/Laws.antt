-- ===== src/Table/Laws.antt =====
-- vm/bindings.cpp, vm/method_table.cpp: what the tables promise. A table is a map from names to
-- values, `size_` counts its entries, and `keys` and `values` list them.
use marius.Base.{
  subst, ℕ, zero, suc, ◌+◌, ◌%◌, ◌<◌, ◌≡◌, refl, ap, sym, ◌∙◌, Bool, true, false, some, List, [],
  ◌∷◌, Bool-cases, inl, inr, arith, length, get_or, set, if◌then◌else◌, length-set, ==_iff, ◌==◌,
  get_or-set_self, get_or-set_ne,
}
use marius.Ast.{Bytes}
use marius.Table.{Table, new_bindings, find, add}
use marius.Table.Bucket.{Chain, put, equal, equal_eq, find_in-put, length-put, Home, Home-put}

grown-size :
    (g : Bool) {n n' m : ℕ} (l l' : ℕ)
    → n ≡ n'
    → l' ≡ (if g then suc l else l)
    → m + l ≡ n' + l'
    → (if g then suc n else n) ≡ m
grown-size true l l' e e' h = omega arith
grown-size false l l' e e' h = omega arith

module _ {ℓ} {V : Type ℓ} where
  abbrev pub count : List (Chain V) → ℕ
  count [] = 0
  count (c ∷ cs) = length c + count cs

  abbrev pub Homes : (Bytes → ℕ) → ℕ → List (Chain V) → Type 0
  Homes home i [] = Unit
  Homes home i (c ∷ cs) = Home home i c × Homes home (suc i) cs

  -- The buckets are `capa_` many, each key is in the bucket of its hash, and `size_` counts the
  -- entries.
  pub record IsValid (hash : Bytes → ℕ) (t : Table V) : Type ℓ where
    pub room : 0 < t.capa
    pub buckets : length t.entries ≡ t.capa
    pub homes : Homes (λ k. hash k % t.capa) 0 t.entries
    pub counted : t.size ≡ count t.entries

  count-set :
      (cs : List (Chain V)) (i : ℕ) (c : Chain V)
      → i < length cs
      → count (set cs i c) + length (get_or cs i []) ≡ count cs + length c
  count-set [] i c h = absurd (omega arith)
  count-set (d ∷ cs) zero c h = omega arith
  count-set (d ∷ cs) (suc i) c h = omega (arith, count-set cs i c (omega arith))

  Home-get_or :
      (home : Bytes → ℕ) (cs : List (Chain V)) (i j k : ℕ)
      → k ≡ i + j
      → Homes home j cs
      → Home home k (get_or cs i [])
  Home-get_or home [] i j k e h = tt
  Home-get_or home (c ∷ cs) zero j k e h =
      let e' : k ≡ j = omega arith in subst (λ (n : ℕ). Home home n c) (sym e') h.0
  Home-get_or home (c ∷ cs) (suc i) j k e h = Home-get_or home cs i (suc j) k (omega arith) h.1

  Homes-set :
      (home : Bytes → ℕ) (cs : List (Chain V)) (i j k : ℕ) (c : Chain V)
      → k ≡ i + j
      → Home home k c
      → Homes home j cs
      → Homes home j (set cs i c)
  Homes-set home [] i j k c e h hs = tt
  Homes-set home (d ∷ cs) zero j k c e h hs =
      let e' : k ≡ j = omega arith in (subst (λ (n : ℕ). Home home n c) e' h, hs.1)
  Homes-set home (d ∷ cs) (suc i) j k c e h hs =
      (hs.0, Homes-set home cs i (suc j) k c (omega arith) h hs.1)

  home-lt :
      (hash : Bytes → ℕ) (k : Bytes) (t : Table V)
      → IsValid hash t
      → hash k % t.capa < length t.entries
  home-lt hash k t h = let room = h.room in let buckets = h.buckets in omega arith

  -- What a lookup finds after a write: the value written under its name, and under every other
  -- name what was there.
  pub find-add :
      (hash : Bytes → ℕ) (q name : Bytes) (val : V) (t : Table V)
      → IsValid hash t
      → find hash q (add hash name val t) ≡ (if equal name q then some val else find hash q t)
  unfolding find add
  find-add hash q name val t h =
      let i : ℕ = hash name % t.capa in
      let j : ℕ = hash q % t.capa in
      let bucket = get_or t.entries i [] in
      let new = (put name val bucket).chain in
      let lt : i < length t.entries = home-lt hash name t h in
      elim (Bool-cases (i == j)) [
        | inl e ↦
            let e' : i ≡ j = (==_iff i j).0 e in
            let written = get_or-set_self t.entries i new [] lt in
            rw (sym e', written) (find_in-put q name val bucket)
        | inr e ↦
            let far = get_or-set_ne t.entries i j new [] (λ k. ground (arith, ==_iff i j)) in
            elim (Bool-cases (equal name q)) [
              | inl k ↦
                  let same : i ≡ j = ap (λ (n : Bytes). hash n % t.capa) (equal_eq name q k) in
                  absurd (ground (arith, ==_iff i j))
              | inr k ↦ rw (far, k) refl
            ]
      ]

  pub add-IsValid :
      (hash : Bytes → ℕ) (name : Bytes) (val : V) (t : Table V)
      → IsValid hash t
      → IsValid hash (add hash name val t)
  unfolding add
  add-IsValid hash name val t h =
      let i : ℕ = hash name % t.capa in
      let home : Bytes → ℕ = λ k. hash k % t.capa in
      let bucket = get_or t.entries i [] in
      record {
        room = h.room;
        buckets = length-set t.entries i (put name val bucket).chain ∙ h.buckets;
        homes =
            Homes-set home t.entries i 0 i (put name val bucket).chain (omega arith)
              (Home-put home i name val bucket refl
                (Home-get_or home t.entries i 0 i (omega arith) h.homes))
              h.homes;
        counted =
            grown-size (put name val bucket).grown (length bucket)
              (length (put name val bucket).chain) h.counted (length-put name val bucket)
              (count-set t.entries i (put name val bucket).chain (home-lt hash name t h));
      }

  -- A new table of attributes is one.
  pub new_bindings-IsValid : (hash : Bytes → ℕ) → IsValid hash (new_bindings {V = V})
  unfolding new_bindings
  new_bindings-IsValid hash = record {
    room = omega arith;
    buckets = refl;
    homes = (tt, (tt, (tt, (tt, (tt, (tt, (tt, (tt, tt))))))));
    counted = refl;
  }
