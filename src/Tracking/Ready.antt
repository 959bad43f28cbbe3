-- ===== src/Tracking/Ready.antt =====
-- vm/scope_tracker.cpp: a scope whose names have locals of their own, and registers that differ.
use marius.Base.{
  ℕ, ◌≤◌, ◌<◌, ◌≡◌, ◌≢◌, ◌⊎◌, inl, inr, sym, ◌∙◌, subst, true, false, some, [], ◌∷◌, ==_iff,
  get_elem?, set, arith, get_elem?-set,
}
use marius.Base.Int.{ℤ, pos, negsuc}
use marius.Local.{Local, Heap, reg_p, needs_reg_p}
use marius.Tracking.{LocalScope}
use marius.Tracking.Sound.{IsPlaceable}

-- The local at p is an argument in register i: it has its register from the start.
abbrev pub Arg : Heap → ℕ → ℤ → Type 0
Arg h p i =
    (l : Local) × (get_elem? h p ≡ some l)
    × (reg_p l ≡ true)
    × (needs_reg_p l ≡ false)
    × (l.idx ≡ i)

-- Register i is that of one of n arguments, or of `self`.
abbrev pub Below : ℕ → ℤ → Type 0
Below n (pos k) = k < n
Below n (negsuc k) = Unit

abbrev pub IsReady : Heap → ℕ → ℕ → Type 0
IsReady h n p =
    ((l : Local) × (get_elem? h p ≡ some l) × IsPlaceable l) × ((i : ℤ) → Arg h p i → Below n i)

abbrev pub NotIn : ℕ → LocalScope → Type 0
NotIn p [] = Unit
NotIn p (e ∷ sc) = (p ≢ e.1) × NotIn p sc

abbrev pub OtherArgs : Heap → ℕ → LocalScope → Type 0
OtherArgs h p [] = Unit
OtherArgs h p (e ∷ sc) = ((i : ℤ) → Arg h p i → Arg h e.1 i → ⊥) × OtherArgs h p sc

-- The names of a scope have locals of their own, of which those of its n arguments have different
-- registers below n.
abbrev pub ScopeIsReady : Heap → ℕ → LocalScope → Type 0
ScopeIsReady h n [] = Unit
ScopeIsReady h n (e ∷ sc) =
    IsReady h n e.1 × NotIn e.1 sc × OtherArgs h e.1 sc × ScopeIsReady h n sc

-- The local at p lives in register i.
abbrev pub InRegister : Heap → ℕ → ℤ → Type 0
InRegister h p i = (l : Local) × (get_elem? h p ≡ some l) × (reg_p l ≡ true) × (l.idx ≡ i)

-- From h to h': a local that is in a register then is an argument in its own, or was given one from
-- `regs` on.
abbrev pub Placed : Heap → Heap → ℕ → ℕ → Type 0
Placed h h' regs p = (i : ℤ) → InRegister h' p i → Arg h p i ⊎ ((r : ℕ) × (i ≡ pos r) × (regs ≤ r))

abbrev pub AllPlaced : Heap → Heap → ℕ → LocalScope → Type 0
AllPlaced h h' regs [] = Unit
AllPlaced h h' regs (e ∷ sc) = Placed h h' regs e.1 × AllPlaced h h' regs sc

abbrev pub OtherRegister : Heap → ℕ → ℕ → Type 0
OtherRegister h p q = (i : ℤ) → InRegister h p i → InRegister h q i → ⊥

abbrev pub OtherRegisters : Heap → ℕ → LocalScope → Type 0
OtherRegisters h p [] = Unit
OtherRegisters h p (e ∷ sc) = OtherRegister h p e.1 × OtherRegisters h p sc

abbrev pub AllDiffer : Heap → LocalScope → Type 0
AllDiffer h [] = Unit
AllDiffer h (e ∷ sc) = OtherRegisters h e.1 sc × AllDiffer h sc

-- Two heaps with the same locals in a scope.
abbrev pub SameIn : Heap → Heap → LocalScope → Type 0
SameIn h h' [] = Unit
SameIn h h' (e ∷ sc) = (get_elem? h e.1 ≡ get_elem? h' e.1) × SameIn h h' sc

pub SameIn-set :
    (h : Heap) (p : ℕ) (l l' : Local) (sc : LocalScope)
    → get_elem? h p ≡ some l
    → NotIn p sc
    → SameIn (set h p l') h sc
SameIn-set h p l l' [] here out = tt
SameIn-set h p l l' (e ∷ sc) here out = (
  get_elem?-set h p e.1 l l' here ∙ ground (arith, ==_iff p e.1, out.0),
  SameIn-set h p l l' sc here out.1,
)

module _ (h h' : Heap) where
  Arg-same : (p : ℕ) (i : ℤ) → get_elem? h p ≡ get_elem? h' p → Arg h p i → Arg h' p i
  Arg-same p i e a = (a.0, sym e ∙ a.1, a.2, a.3, a.4)

  OtherArgs-same :
      (p : ℕ) (sc : LocalScope)
      → get_elem? h p ≡ get_elem? h' p
      → SameIn h h' sc
      → OtherArgs h' p sc
      → OtherArgs h p sc
  OtherArgs-same p [] e same o = tt
  OtherArgs-same p (x ∷ sc) e same o = (
    λ i a b. o.0 i (Arg-same p i e a) (Arg-same x.1 i same.0 b),
    OtherArgs-same p sc e same.1 o.1,
  )

  pub ScopeIsReady-same :
      (n : ℕ) (sc : LocalScope) → SameIn h h' sc → ScopeIsReady h' n sc → ScopeIsReady h n sc
  ScopeIsReady-same n [] same r = tt
  ScopeIsReady-same n (x ∷ sc) same r =
      let (ready, out, others, rest) = r in
      let (there, below) = ready in
      (
        ((there.0, same.0 ∙ there.1, there.2), λ i a. below i (Arg-same x.1 i same.0 a)),
        out,
        OtherArgs-same x.1 sc same.0 same.1 others,
        ScopeIsReady-same n sc same.1 rest,
      )

  pub AllPlaced-same :
      (after : Heap) (regs regs' : ℕ) (sc : LocalScope)
      → SameIn h h' sc
      → regs' ≤ regs
      → AllPlaced h after regs sc
      → AllPlaced h' after regs' sc
  AllPlaced-same after regs regs' [] same le a = tt
  AllPlaced-same after regs regs' (x ∷ sc) same le a = (
    λ i in'. elim (a.0 i in') [
      | inl arg ↦ inl (Arg-same x.1 i same.0 arg)
      | inr given ↦ inr (given.0, given.1, (let g = given.2 in omega arith))
    ],
    AllPlaced-same after regs regs' sc same.1 le a.1,
  )

-- A local in register i differs from those that are arguments in other registers, or placed later.
pub OtherRegisters-later :
    (h h' : Heap) (p n regs : ℕ) (sc : LocalScope)
    → ((i : ℤ) → InRegister h' p i → Arg h p i ⊎ ((r : ℕ) × (i ≡ pos r) × (n ≤ r) × (r < regs)))
    → ((i : ℤ) → Arg h p i → Below n i)
    → n ≤ regs
    → OtherArgs h p sc
    → ScopeIsReady h n sc
    → AllPlaced h h' regs sc
    → OtherRegisters h' p sc
OtherRegisters-later h h' p n regs [] own below le others ready placed = tt
OtherRegisters-later h h' p n regs (x ∷ sc) own below le others ready placed =
    let (mine, out, rest_others, rest) = ready in
    (
      λ i a b. elim (own i a) [
        | inl arg ↦ elim (placed.0 i b) [
          | inl arg' ↦ others.0 i arg arg'
          | inr given ↦
              not-Below n given.0 (let g = given.2 in omega arith)
                (subst (Below n) given.1 (below i arg))
        ]
        | inr given ↦ elim (placed.0 i b) [
          | inl arg' ↦ not-Below n given.0 given.2 (subst (Below n) given.1 (mine.1 i arg'))
          | inr given' ↦
              let same : given.0 ≡ given'.0 =
                pos-injective given.0 given'.0 (sym given.1 ∙ given'.1) in
              let a' = given.3 in let b' = given'.2 in absurd (omega arith)
        ]
      ],
      OtherRegisters-later h h' p n regs sc own below le others.1 rest placed.1,
    )
  where
    not-Below : (n k : ℕ) → n ≤ k → Below n (pos k) → ⊥
    not-Below n k le lt = omega arith

    pos-injective : (a b : ℕ) → pos a ≡ pos b → a ≡ b
    pos-injective a b e = cc
