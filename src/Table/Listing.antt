-- ===== src/Table/Listing.antt =====
-- vm/bindings.cpp, vm/method_table.cpp: the tuples that `keys`, `values` and `methods` make.
use marius.Base.{
  Option-cases, ◌≢◌, ℕ, zero, suc, ◌+◌, ◌%◌, ◌<◌, ◌≡◌, refl, ap, sym, ◌∙◌, none, some, List, [],
  ◌∷◌, ◌++◌, Bool-cases, inl, inr, arith, length, get_or, replicate, map, append_assoc, set-append,
  length-append, length-replicate, lt→ltb,
}
use mathlib.Core.List.{flatten, zip, zip_with}
use marius.Ast.{Bytes}
use marius.Table.{Table, find, keys, values, fill, fill_chain}
use marius.Table.Bucket.{Chain, find_in, equal, equal_eq, Home}
use marius.Table.Laws.{Homes, count, IsValid}
use marius.Objects.Tuple.{Tuple, new_tuple}
use marius.Objects.Tuple

module _ {ℓ ℓ'} {V : Type ℓ} {A : Type ℓ'} (f : Bytes × V → A) where
  abbrev filled : List A → List A → ℕ → Tuple A
  filled xs ys n = record { data_ = xs ++ ys; size = n }

  fill_chain-fills :
      (c : Chain V) (xs ys : List A) (i n : ℕ)
      → i ≡ length xs
      → length ys ≡ length c
      → length xs + length ys ≡ n
      → (fill_chain f c (i, filled xs ys n)).1 ≡ filled xs (map f c) n
  unfolding fill_chain Tuple.set
  fill_chain-fills [] xs [] i n at' e h = refl
  fill_chain-fills [] xs (y ∷ ys) i n at' e h = absurd (omega arith)
  fill_chain-fills (b ∷ c) xs [] i n at' e h = absurd (omega arith)
  fill_chain-fills (b ∷ c) xs (y ∷ ys) i n at' e h =
      let here = set-append xs (y ∷ ys) i 0 (f b) (omega arith) in
      let longer = length-append xs (f b ∷ []) in
      let step : Tuple.set (filled xs (y ∷ ys) n) i (f b) ≡ filled (xs ++ f b ∷ []) ys n =
        rw (lt→ltb i n (omega arith), here, append_assoc xs (f b ∷ []) ys) refl in
      let rest =
        fill_chain-fills c (xs ++ f b ∷ []) ys (suc i) n (omega arith) (omega arith)
          (omega arith) in
      ap (λ (u : Tuple A). (fill_chain f c (suc i, u)).1) step
      ∙ (rest
          ∙ ap (λ (l : List A). record { data_ = l; size = n })
              (append_assoc xs (f b ∷ []) (map f c)))

  fill_chain-append :
      (c d : Chain V) (out : ℕ × Tuple A)
      → fill_chain f (c ++ d) out ≡ fill_chain f d (fill_chain f c out)
  unfolding fill_chain
  fill_chain-append [] d out = refl
  fill_chain-append (b ∷ c) d (i, t) = fill_chain-append c d (suc i, Tuple.set t i (f b))

  fill-flatten :
      (cs : List (Chain V)) (out : ℕ × Tuple A) → fill f cs out ≡ fill_chain f (flatten cs) out
  unfolding fill flatten fill_chain
  fill-flatten [] out = refl
  fill-flatten (c ∷ cs) out =
      fill-flatten cs (fill_chain f c out) ∙ sym (fill_chain-append c (flatten cs) out)

module _ {ℓ} {V : Type ℓ} where
  pub length-flatten : (cs : List (Chain V)) → length (flatten cs) ≡ count cs
  unfolding flatten
  length-flatten [] = refl
  length-flatten (c ∷ cs) = omega (arith, length-append c (flatten cs), length-flatten cs)

  find_in-append :
      (q : Bytes) (c d : Chain V) → find_in q c ≡ none → find_in q (c ++ d) ≡ find_in q d
  unfolding find_in
  find_in-append q [] d h = refl
  find_in-append q (e ∷ c) d h = ground (arith, find_in-append q c d)

  find_in-away :
      (home : Bytes → ℕ) (q : Bytes) (i : ℕ) (c : Chain V)
      → Home home i c
      → home q ≢ i
      → find_in q c ≡ none
  unfolding find_in
  find_in-away home q i [] h ne = refl
  find_in-away home q i (e ∷ c) h ne = elim (Bool-cases (equal e.0 q)) [
    | inl k ↦ absurd (ne (sym (ap home (equal_eq e.0 q k)) ∙ h.0))
    | inr k ↦ rw k (find_in-away home q i c h.1 ne)
  ]

  find_in-append_some :
      (q : Bytes) (c d : Chain V) (v : V) → find_in q c ≡ some v → find_in q (c ++ d) ≡ some v
  unfolding find_in
  find_in-append_some q (e ∷ c) d v h = ground (arith, find_in-append_some q c d v)
  find_in-append_some q [] d v h = ground arith

  flatten_away :
      (home : Bytes → ℕ) (q : Bytes) (cs : List (Chain V)) (i : ℕ)
      → home q < i
      → Homes home i cs
      → find_in q (flatten cs) ≡ none
  unfolding flatten find_in
  flatten_away home q [] i lt h = refl
  flatten_away home q (c ∷ cs) i lt h =
      find_in-append q c (flatten cs) (find_in-away home q i c h.0 (λ e. omega arith))
      ∙ flatten_away home q cs (suc i) (omega arith) h.1

  -- A key is found in the bucket of its hash or nowhere.
  find_in-flatten :
      (home : Bytes → ℕ) (q : Bytes) (cs : List (Chain V)) (i j : ℕ)
      → home q ≡ i + j
      → Homes home j cs
      → find_in q (get_or cs i []) ≡ find_in q (flatten cs)
  unfolding flatten find_in
  find_in-flatten home q [] i j e h = refl
  find_in-flatten home q (c ∷ cs) zero j e h = elim (Option-cases (find_in q c)) [
    | inl k ↦
        k
        ∙ sym (find_in-append q c (flatten cs) k ∙ flatten_away home q cs (suc j) (omega arith) h.1)
    | inr k ↦ k.1 ∙ sym (find_in-append_some q c (flatten cs) k.0 k.1)
  ]
  find_in-flatten home q (c ∷ cs) (suc i) j e h =
      find_in-flatten home q cs i (suc j) (omega arith) h.1
      ∙ sym (find_in-append q c (flatten cs) (find_in-away home q j c h.0 (λ e'. omega arith)))

  map-zip : (c : Chain V) → zip (map (λ e. e.0) c) (map (λ e. e.1) c) ≡ c
  unfolding zip zip_with
  map-zip [] = refl
  map-zip (e ∷ c) = ap (◌∷◌ e) (map-zip c)

  -- The tuple of the entries' parts, by the order of the buckets.
  listed {ℓ'} :
      {A : Type ℓ'} (f : Bytes × V → A) (nil : A) (hash : Bytes → ℕ) (t : Table V)
      → IsValid hash t
      → (fill f t.entries (0, new_tuple nil t.size)).1
        ≡ record { data_ = map f (flatten t.entries); size = t.size }
  unfolding new_tuple
  listed {A = A} f nil hash t h =
      ap (λ (p : ℕ × Tuple A). p.1) (fill-flatten f t.entries (0, new_tuple nil t.size))
      ∙ fill_chain-fills f (flatten t.entries) [] (replicate t.size nil) 0 t.size refl
          (length-replicate t.size nil ∙ h.counted ∙ sym (length-flatten t.entries))
          (omega (arith, length-replicate t.size nil))

  pub find-flatten :
      (hash : Bytes → ℕ) (q : Bytes) (t : Table V)
      → IsValid hash t
      → find hash q t ≡ find_in q (flatten t.entries)
  unfolding find
  find-flatten hash q t h =
      let home : Bytes → ℕ = λ k. hash k % t.capa in
      find_in-flatten home q t.entries (home q) 0 (omega arith) h.homes

  -- `keys` and `values` list the table: a search for a name among them finds what the table does.
  pub find-keys :
      (hash : Bytes → ℕ) (q empty : Bytes) (nil : V) (t : Table V)
      → IsValid hash t
      → find hash q t ≡ find_in q (zip (keys empty t).data_ (values nil t).data_)
  unfolding find keys values
  find-keys hash q empty nil t h =
      let ks = ap (λ (u : Tuple Bytes). u.data_) (listed (λ e. e.0) empty hash t h) in
      let vs = ap (λ (u : Tuple V). u.data_) (listed (λ e. e.1) nil hash t h) in
      let home : Bytes → ℕ = λ k. hash k % t.capa in
      find_in-flatten home q t.entries (home q) 0 (omega arith) h.homes
      ∙ ap (find_in q) (sym (map-zip (flatten t.entries)))
      ∙ ap (λ (xs : List Bytes). find_in q (zip xs (map (λ e. e.1) (flatten t.entries)))) (sym ks)
      ∙ ap (λ (ys : List V). find_in q (zip (keys empty t).data_ ys)) (sym vs)
