-- ===== src/Machine/Keywords.antt =====
-- vm/vm.cpp: `VM::reorg_args`, which brings keyword arguments to the places of the parameters. The
-- registers of the callee are a function of their number.
use mathlib.Core.Option.{some-injective}
use marius.Base.{
  ◌≢◌, ℕ, zero, suc, ◌+◌, ◌≤◌, ◌<◌, ◌≡◌, refl, ap, sym, ◌∙◌, Bool, false, Option, none, some, List,
  [], ◌∷◌, ◌==◌, ==_iff, length, get_elem?, if◌then◌else◌, Option-cases, inl, inr, arith,
}
use marius.Ast.{Bytes}
use marius.Table.Bucket.{equal}
use marius.Objects.LTuple.{LTuple, find}

-- `STupleCompare::compare`: names that are not null, and equal.
abbrev pub names_equal : Option Bytes → Option Bytes → Bool
names_equal (some a) (some b) = equal a b
names_equal _ _ = false

module _ (keywords : LTuple (Option Bytes)) where
  -- Where the value of parameter i comes from.
  abbrev pub source_of : Option ℕ → ℕ → ℕ
  source_of none i = i
  source_of (some k) i = k

  unfoldable pub source : Bytes → ℕ → ℕ
  source name i = source_of (find names_equal keywords (some name)) i

  -- No keyword stands behind the parameters.
  abbrev pub InRange : ℕ → Type 0
  InRange n = (name : Bytes) (k : ℕ) → find names_equal keywords (some name) ≡ some k → k < n

  source-lt : (n i : ℕ) (name : Bytes) → InRange n → i < n → source name i < n
  unfolding source
  source-lt n i name within lt = elim (Option-cases (find names_equal keywords (some name))) [
    | inl e ↦ rw e lt
    | inr e ↦ rw e.1 (within name e.0 e.1)
  ]

module _ {V : Type 0} (keywords : LTuple (Option Bytes)) where
  abbrev pub assign : (ℕ → V) → ℕ → V → ℕ → V
  assign fp r v k = if r == k then v else fp k

  -- The first loop, over the parameters from i on: `temp` begins behind the n parameters, and a
  -- parameter without a name leaves its place there as it is.
  unfoldable pub gather : List (Option Bytes) → ℕ → ℕ → (ℕ → V) → ℕ → V
  unfolding source
  gather [] i n fp = fp
  gather (none ∷ names) i n fp = gather names (suc i) n fp
  gather (some name ∷ names) i n fp =
      gather names (suc i) n (assign fp (n + i) (fp (source keywords name i)))

  -- The second loop: `fp[i] = temp[i]`, k times from i on.
  unfoldable pub copy_back : ℕ → ℕ → ℕ → (ℕ → V) → ℕ → V
  copy_back zero i n fp = fp
  copy_back (suc k) i n fp = copy_back k (suc i) n (assign fp i (fp (n + i)))

  unfoldable pub reorg_args : List (Option Bytes) → (ℕ → V) → ℕ → V
  unfolding gather copy_back
  reorg_args args fp = let n = length args in copy_back n 0 n (gather args 0 n fp)

  -- The register at the place of a keyword, or without a keyword register i.
  abbrev place : (ℕ → V) → ℕ → Option ℕ → V
  place fp i none = fp i
  place fp i (some k) = fp k

  -- What parameter i is to get: the argument at the first place among the keywords where its name
  -- stands, or the argument at its own place. A parameter without a name gets what stands behind the
  -- parameters.
  abbrev pub chosen : (ℕ → V) → ℕ → ℕ → Option Bytes → V
  chosen fp n i none = fp (n + i)
  chosen fp n i (some name) = place fp i (find names_equal keywords (some name))

  source-chosen :
      (fp : ℕ → V) (n i : ℕ) (name : Bytes)
      → fp (source keywords name i) ≡ chosen fp n i (some name)
  unfolding source
  source-chosen fp n i name = place-source (find names_equal keywords (some name))
    where
      place-source : (o : Option ℕ) → fp (source_of keywords o i) ≡ place fp i o
      place-source none = refl
      place-source (some k) = refl

  gather-before :
      (names : List (Option Bytes)) (i n : ℕ) (fp : ℕ → V) (k : ℕ)
      → k < n + i
      → gather names i n fp k ≡ fp k
  unfolding gather
  gather-before [] i n fp k lt = refl
  gather-before (none ∷ names) i n fp k lt = gather-before names (suc i) n fp k (omega arith)
  gather-before (some name ∷ names) i n fp k lt =
      gather-before names (suc i) n (assign fp (n + i) (fp (source keywords name i))) k
        (omega arith)
      ∙ ground arith

  assign-eq : (fp : ℕ → V) (r k : ℕ) (v : V) → r ≡ k → assign fp r v k ≡ v
  assign-eq fp r k v e = ground (arith, ==_iff r k)

  assign-ne : (fp : ℕ → V) (r k : ℕ) (v : V) → r ≢ k → assign fp r v k ≡ fp k
  assign-ne fp r k v ne = ground (arith, ==_iff r k)

  chosen-assign :
      (fp : ℕ → V) (n i j : ℕ) (v : V) (o : Option Bytes)
      → InRange keywords n
      → j < n
      → i < j
      → chosen (assign fp (n + i) v) n j o ≡ chosen fp n j o
  chosen-assign fp n i j v none within small lt = assign-ne fp (n + i) (n + j) v (λ e. omega arith)
  chosen-assign fp n i j v (some name) within small lt =
      let below = source-lt keywords n j name within small in
      sym (source-chosen (assign fp (n + i) v) n j name)
      ∙ assign-ne fp (n + i) (source keywords name j) v (λ e. omega arith)
      ∙ source-chosen fp n j name

  gather-chosen :
      (names : List (Option Bytes)) (i n j at' : ℕ) (fp : ℕ → V) (o : Option Bytes)
      → InRange keywords n
      → at' < n
      → i + length names ≤ n
      → at' ≡ i + j
      → get_elem? names j ≡ some o
      → gather names i n fp (n + at') ≡ chosen fp n at' o
  unfolding gather
  gather-chosen [] i n j at' fp o within small le e h = absurd (ground arith)
  gather-chosen (none ∷ names) i n zero at' fp o within small le e h =
      gather-before names (suc i) n fp (n + at') (omega arith)
      ∙ ap (chosen fp n at') (some-injective none o h)
  gather-chosen (none ∷ names) i n (suc j) at' fp o within small le e h =
      gather-chosen names (suc i) n j at' fp o within small (omega arith) (omega arith) h
  gather-chosen (some name ∷ names) i n zero at' fp o within small le e h =
      let v = fp (source keywords name i) in
      let same : i ≡ at' = omega arith in
      gather-before names (suc i) n (assign fp (n + i) v) (n + at') (omega arith)
      ∙ assign-eq fp (n + i) (n + at') v (omega arith)
      ∙ ap (λ (k : ℕ). fp (source keywords name k)) same
      ∙ source-chosen fp n at' name
      ∙ ap (chosen fp n at') (some-injective (some name) o h)
  gather-chosen (some name ∷ names) i n (suc j) at' fp o within small le e h =
      let v = fp (source keywords name i) in
      gather-chosen names (suc i) n j at' (assign fp (n + i) v) o within small (omega arith)
        (omega arith) h
      ∙ chosen-assign fp n i at' v o within small (omega arith)

  copy_back-before : (k i n : ℕ) (fp : ℕ → V) (j : ℕ) → j < i → copy_back k i n fp j ≡ fp j
  unfolding copy_back
  copy_back-before zero i n fp j lt = refl
  copy_back-before (suc k) i n fp j lt =
      copy_back-before k (suc i) n (assign fp i (fp (n + i))) j (omega arith)
      ∙ assign-ne fp i j (fp (n + i)) (λ e. omega arith)

  copy_back-at :
      (k i n : ℕ) (fp : ℕ → V) (j d : ℕ)
      → i + k ≤ n
      → j ≡ i + d
      → d < k
      → copy_back k i n fp j ≡ fp (n + j)
  unfolding copy_back
  copy_back-at zero i n fp j d le e lt = absurd (omega arith)
  copy_back-at (suc k) i n fp j zero le e lt =
      let same : i ≡ j = omega arith in
      copy_back-before k (suc i) n (assign fp i (fp (n + i))) j (omega arith)
      ∙ assign-eq fp i j (fp (n + i)) same
      ∙ ap (λ (m : ℕ). fp (n + m)) same
  copy_back-at (suc k) i n fp j (suc d) le e lt =
      copy_back-at k (suc i) n (assign fp i (fp (n + i))) j d (omega arith) (omega arith)
        (omega arith)
      ∙ assign-ne fp i (n + j) (fp (n + i)) (λ e'. omega arith)

  -- Where no keyword stands behind the parameters, each parameter gets the argument at the place where
  -- LTuple::find finds its name among the keywords, or where it does not, the argument at its own
  -- place; a parameter without a name gets what stood behind the parameters.
  pub reorg_args-chosen :
      (args : List (Option Bytes)) (fp : ℕ → V) (i : ℕ) (name : Option Bytes)
      → InRange keywords (length args)
      → i < length args
      → get_elem? args i ≡ some name
      → reorg_args args fp i ≡ chosen fp (length args) i name
  unfolding reorg_args
  reorg_args-chosen args fp i name within lt h =
      let n = length args in
      copy_back-at n 0 n (gather args 0 n fp) i i (omega arith) (omega arith) lt
      ∙ gather-chosen args 0 n i i fp name within lt (omega arith) (omega arith) h
