-- ===== src/Table.antt =====
-- vm/bindings.cpp, vm/method_table.cpp: the chained hash tables of attributes and of methods. The
-- hash of a name, MurmurHash3 of its bytes, is a parameter.
pub mod Bucket
mod Tests
pub mod Laws
pub mod Listing
pub mod Iteration
use marius.Base.{
  ℕ, suc, ◌+◌, ◌%◌, Bool, true, false, Option, none, some, List, [], ◌∷◌, get_or, set, replicate,
  if◌then◌else◌,
}
use marius.Ast.{Bytes}
use marius.Table.Bucket.{Chain, Put, find_in, put}
use marius.Objects.Tuple.{Tuple, new_tuple}
use marius.Objects.Tuple

-- The fields of `Bindings` and of `MethodTable`: the buckets, `capa_` and `size_`.
pub record Table {ℓ} (V : Type ℓ) : Type ℓ where
  pub entries : List (Chain V)
  pub capa : ℕ
  pub size : ℕ

module _ {ℓ} {V : Type ℓ} where
  -- `Bindings::Bindings`: every bucket is cleared.
  unfoldable pub new_bindings : Table V
  new_bindings = record { entries = replicate 8 []; capa = 8; size = 0 }

  -- `keys` and `values`: a tuple of `size_` slots, filled in the order of the buckets.
  unfoldable pub fill_chain {ℓ'} :
      {A : Type ℓ'} → (Bytes × V → A) → Chain V → ℕ × Tuple A → ℕ × Tuple A
  fill_chain f [] out = out
  fill_chain f (e ∷ c) (i, tup) = fill_chain f c (suc i, Tuple.set tup i (f e))

  unfoldable pub fill {ℓ'} :
      {A : Type ℓ'} → (Bytes × V → A) → List (Chain V) → ℕ × Tuple A → ℕ × Tuple A
  fill f [] out = out
  fill f (c ∷ cs) out = fill f cs (fill_chain f c out)

  unfoldable pub keys : Bytes → Table V → Tuple Bytes
  unfolding fill
  keys nil t = (fill (λ e. e.0) t.entries (0, new_tuple nil t.size)).1

  unfoldable pub values : V → Table V → Tuple V
  unfolding fill
  values nil t = (fill (λ e. e.1) t.entries (0, new_tuple nil t.size)).1

module _ {ℓ} {V : Type ℓ} (hash : Bytes → ℕ) where
  -- `Bindings::find`, `MethodTable::lookup`
  unfoldable pub find : Bytes → Table V → Option V
  unfolding find_in
  find name t = find_in name (get_or t.entries (hash name % t.capa) [])

  -- `Bindings::set`, `MethodTable::add`
  unfoldable pub add : Bytes → V → Table V → Table V
  unfolding put
  add name val t =
      let i : ℕ = hash name % t.capa in
      let r = put name val (get_or t.entries i []) in
      record t { entries = set t.entries i r.chain; size = if r.grown then suc t.size else t.size }
