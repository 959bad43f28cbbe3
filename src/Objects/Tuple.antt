-- ===== src/Objects/Tuple.antt =====
-- vm/tuple.cpp: tuples. A slot that was never written holds nil. `data_` is the memory from the first
-- slot on: `size` slots, and what is known of the memory behind them.
use marius.Base.{
  length, ==_iff, ◌≤◌, ◌≡◌, ◌==◌, ◌&&◌, Bool-cases, inl, inr, get_or-set_lt, arith, ltb→lt, ℕ, List,
  ltb, if◌then◌else◌, get_or, replicate, set as set_at,
}

pub record Tuple {ℓ} (A : Type ℓ) : Type ℓ where
  pub data_ : List A
  pub size : ℕ

module _ {ℓ} {A : Type ℓ} where
  -- `Tuple::Tuple`
  unfoldable pub new_tuple : A → ℕ → Tuple A
  new_tuple nil n = record { data_ = replicate n nil; size = n }

  -- `Tuple::set`: a write out of range is dropped.
  unfoldable pub set : Tuple A → ℕ → A → Tuple A
  set t i v = if ltb i t.size then record t { data_ = set_at t.data_ i v } else t

  -- `Tuple::get`
  unfoldable pub get : A → Tuple A → ℕ → A
  get nil t i = if ltb i t.size then get_or t.data_ i nil else nil

  -- After a write to a tuple, behind whose slots other memory may stand: in that memory and in the slots
  -- just the slot written has changed, and nothing where the position is out of range; a read gives
  -- what the slot holds, and nil out of range.
  pub get-set :
      (nil v : A) (t : Tuple A) (i j : ℕ)
      → t.size ≤ length t.data_
      → (get_or (set t i v).data_ j nil
          ≡ (if (i == j) && ltb i t.size then v else get_or t.data_ j nil))
        × (get nil (set t i v) j
            ≡ (if ltb j t.size then (if i == j then v else get_or t.data_ j nil) else nil))
  unfolding get set
  get-set nil v t i j sized = elim (Bool-cases (ltb i t.size)) [
    | inl lt ↦
        let small = ltb→lt i t.size lt in
        let written = get_or-set_lt t.data_ i j v nil (omega arith) in
        (ground (arith, written), ground (arith, written))
    | inr ge ↦ (ground arith, ground (arith, ==_iff i j))
  ]
