-- ===== src/Tracking/Sound.antt =====
-- vm/scope_tracker.cpp: what a tracker's locals keep to. `imports` tells the identities of the nodes
-- whose local has a global behind it: imports and traits.
use Prim.Native.Nat.{Ordering}
use mathlib.Core.Option.{some-injective}
use marius.Base.{
  ℕ, suc, ◌-◌, ◌≤◌, ◌<◌, ◌≡◌, ◌≢◌, ◌⊎◌, inl, inr, refl, ap, sym, ◌∙◌, subst, Bool, true, false,
  none, some, List, [], ◌∷◌, ◌++◌, ◌==◌, ==_iff, Bool-cases, Option-cases, if◌then◌else◌, get_elem?,
  set, length, length-append, length-set, arith, get_elem?-append_left, get_elem?-snoc_new,
  get_elem?-set, get_elem?-lt,
}
use marius.Ast.{Bytes}
use marius.Local.{Local, LocalType, Heap, LocalMap, map_get, map_add, idx}
use marius.Codegen.Layout.Locals.{PointerFits, NodeFits, ImportFits}
use marius.Codegen.Layout.Tree.{MayFit}
use marius.Tracking.{Tracker, LocalScope, analysis}
use marius.Tracking.Names.{find, insert, string_compare}

-- A local that a scope may hold: `set_reg` does not fail at its end.
abbrev pub PlaceableType : LocalType → Bool → Type 0
PlaceableType LocalType.reg set_idx = set_idx ≡ false
PlaceableType LocalType.argument set_idx = Unit
PlaceableType LocalType.closure_own set_idx = set_idx ≡ false
PlaceableType LocalType.closure_access set_idx = ⊥
PlaceableType LocalType.closure_global set_idx = ⊥

abbrev pub IsPlaceable : Local → Type 0
IsPlaceable l = PlaceableType l.type l.set_idx

abbrev pub Sits : Heap → ℕ → Type 0
Sits h p = (l : Local) × (get_elem? h p ≡ some l) × IsPlaceable l

-- A local that `idx` can be asked of, if its owners are no accesses themselves.
abbrev pub IsOwner : Heap → ℕ → Type 0
IsOwner h q = (o : Local) × (get_elem? h q ≡ some o) × (o.type ≢ LocalType.closure_access)

abbrev pub IsOwned : Heap → Local → Type 0
IsOwned h l = l.type ≡ LocalType.closure_access → (q : ℕ) × (l.owned ≡ some q) × IsOwner h q

abbrev pub ScopeSits : Heap → LocalScope → Type 0
ScopeSits h [] = Unit
ScopeSits h (e ∷ sc) = Sits h e.1 × ScopeSits h sc

abbrev pub StackSits : Heap → List LocalScope → Type 0
StackSits h [] = Unit
StackSits h (sc ∷ scs) = ScopeSits h sc × StackSits h scs

-- A local with a global behind it.
abbrev pub HasExtra : Heap → ℕ → Type 0
HasExtra h p =
    (l : Local) × (e : ℕ) × (get_elem? h p ≡ some l) × (l.extra ≡ some e) × (e < length h)

pub record IsSound (imports : ℕ → Bool) (s : Tracker) : Type 0 where
  pub owned : (p : ℕ) (l : Local) → get_elem? s.heap p ≡ some l → IsOwned s.heap l
  pub mapped : (id p : ℕ) → map_get s.lm id ≡ some p → p < length s.heap
  pub imported : (id p : ℕ) → imports id ≡ true → map_get s.lm id ≡ some p → HasExtra s.heap p
  pub scope : ScopeSits s.heap s.scope
  pub stack : StackSits s.heap s.stack

-- A heap in which what was there is still of use.
pub record HeapGrows (h h' : Heap) : Type 0 where
  pub longer : length h ≤ length h'
  pub sits : (p : ℕ) → Sits h p → Sits h' p
  pub owner : (p : ℕ) → IsOwner h p → IsOwner h' p
  pub extra : (p : ℕ) → HasExtra h p → HasExtra h' p

pub HeapGrows-refl : {h : Heap} → HeapGrows h h
HeapGrows-refl = record {
  longer = omega arith;
  sits = λ p t. t;
  owner = λ p t. t;
  extra = λ p t. t;
}

pub HeapGrows-trans : {h h' h'' : Heap} → HeapGrows h h' → HeapGrows h' h'' → HeapGrows h h''
HeapGrows-trans g k = record {
  longer = let a = g.longer in let b = k.longer in omega arith;
  sits = λ p t. k.sits p (g.sits p t);
  owner = λ p t. k.owner p (g.owner p t);
  extra = λ p t. k.extra p (g.extra p t);
}

pub ScopeSits-HeapGrows :
    {h h' : Heap} (sc : LocalScope) → HeapGrows h h' → ScopeSits h sc → ScopeSits h' sc
ScopeSits-HeapGrows [] g t = tt
ScopeSits-HeapGrows (e ∷ sc) g t = (g.sits e.1 t.0, ScopeSits-HeapGrows sc g t.1)

pub StackSits-HeapGrows :
    {h h' : Heap} (scs : List LocalScope) → HeapGrows h h' → StackSits h scs → StackSits h' scs
StackSits-HeapGrows [] g t = tt
StackSits-HeapGrows (sc ∷ scs) g t = (ScopeSits-HeapGrows sc g t.0, StackSits-HeapGrows scs g t.1)

pub IsOwned-HeapGrows : {h h' : Heap} (l : Local) → HeapGrows h h' → IsOwned h l → IsOwned h' l
IsOwned-HeapGrows l g o is = let (q, e, at') = o is in (q, e, g.owner q at')

pub HeapGrows-append : (h : Heap) (l : Local) → HeapGrows h (h ++ l ∷ [])
HeapGrows-append h l = record {
  longer = omega (arith, length-append h (l ∷ []));
  sits = λ p t. (t.0, get_elem?-append_left h (l ∷ []) p t.0 t.1, t.2);
  owner = λ p t. (t.0, get_elem?-append_left h (l ∷ []) p t.0 t.1, t.2);
  extra = λ p t. (
    t.0,
    t.1,
    get_elem?-append_left h (l ∷ []) p t.0 t.2,
    t.3,
    (let lt = t.4 in omega (arith, length-append h (l ∷ []))),
  );
}

IsPlaceable-not_access : (l : Local) → IsPlaceable l → l.type ≢ LocalType.closure_access
IsPlaceable-not_access l ok e = subst (λ (t : LocalType). PlaceableType t l.set_idx) e ok

-- A local that is changed to another that a scope may hold.
pub HeapGrows-set :
    (h : Heap) (p : ℕ) (l l' : Local)
    → get_elem? h p ≡ some l
    → IsPlaceable l'
    → l'.extra ≡ l.extra
    → HeapGrows h (set h p l')
HeapGrows-set h p l l' here ok same =
    let at' = λ (q : ℕ). get_elem?-set h p q l l' here in
    record {
      longer = omega (arith, length-set h p l');
      sits = λ q t. elim (Bool-cases (p == q)) [
        | inl e ↦ (l', at' q ∙ rw e refl, ok)
        | inr ne ↦ (t.0, at' q ∙ rw ne t.1, t.2)
      ];
      owner = λ q t. elim (Bool-cases (p == q)) [
        | inl e ↦ (l', at' q ∙ rw e refl, IsPlaceable-not_access l' ok)
        | inr ne ↦ (t.0, at' q ∙ rw ne t.1, t.2)
      ];
      extra = λ q t.
          let small : t.1 < length (set h p l') =
            let lt = t.4 in omega (arith, length-set h p l') in
          elim (Bool-cases (p == q)) [
            | inl e ↦
                let one : l ≡ t.0 =
                  some-injective l t.0 (sym here ∙ ap (get_elem? h) ((==_iff p q).0 e) ∙ t.2) in
                (l', t.1, at' q ∙ rw e refl, same ∙ ap (λ (x : Local). x.extra) one ∙ t.3, small)
            | inr ne ↦ (t.0, t.1, at' q ∙ rw ne t.2, t.3, small)
          ];
    }

pub map_get-map_add :
    (m : LocalMap) (id p j : ℕ)
    → map_get (map_add m id p) j ≡ (if id == j then some p else map_get m j)
unfolding map_get map_add
map_get-map_add [] id p j = refl
map_get-map_add ((k, v) ∷ m) id p j =
    ground (arith, map_get-map_add m id p j, ==_iff k id, ==_iff k j, ==_iff id j)

pub Ordering-cases : (o : Ordering) → (o ≡ Ordering.lt) ⊎ ((o ≡ Ordering.eq) ⊎ (o ≡ Ordering.gt))
Ordering-cases Ordering.lt = inl refl
Ordering-cases Ordering.eq = inr (inl refl)
Ordering-cases Ordering.gt = inr (inr refl)

LocalType-cases : (t : LocalType) → (t ≡ LocalType.closure_access) ⊎ (t ≢ LocalType.closure_access)
LocalType-cases LocalType.closure_access = inl refl
LocalType-cases LocalType.reg = inr (λ e. cc)
LocalType-cases LocalType.argument = inr (λ e. cc)
LocalType-cases LocalType.closure_own = inr (λ e. cc)
LocalType-cases LocalType.closure_global = inr (λ e. cc)

idx-ne-none :
    (h : Heap) (p : ℕ) (l : Local) (k : ℕ)
    → get_elem? h p ≡ some l
    → IsOwned h l
    → idx (suc (suc k)) h p ≢ none
unfolding idx
idx-ne-none h p l k here own e = elim (LocalType-cases l.type) [
  | inl is ↦ let (q, o, (x, at', other)) = own is in ground arith
  | inr other ↦ ground arith
]

insert-ScopeSits :
    (h : Heap) (name : Bytes) (p : ℕ) (sc : LocalScope)
    → Sits h p
    → ScopeSits h sc
    → ScopeSits h (insert name p sc)
unfolding insert
insert-ScopeSits h name p [] t ts = (t, tt)
insert-ScopeSits h name p (e ∷ sc) t ts = elim (Ordering-cases (string_compare name e.0)) [
  | inl lt ↦ rw (lt, insert) (t, ts)
  | inr (inl eq) ↦ rw (eq, insert) ts
  | inr (inr gt) ↦ rw (gt, insert) (ts.0, insert-ScopeSits h name p sc t ts.1)
]

pub find-Sits :
    (h : Heap) (name : Bytes) (sc : LocalScope) (p : ℕ)
    → ScopeSits h sc
    → find name sc ≡ some p
    → Sits h p
unfolding find
find-Sits h name [] p ts e = cc
find-Sits h name (x ∷ sc) p ts e = elim (Ordering-cases (string_compare name x.0)) [
  | inl lt ↦ find-Sits h name sc p ts.1 (sym (rw (lt, find) refl) ∙ e)
  | inr (inl eq) ↦ subst (Sits h) (some-injective x.1 p (sym (rw (eq, find) refl) ∙ e)) ts.0
  | inr (inr gt) ↦ find-Sits h name sc p ts.1 (sym (rw (gt, find) refl) ∙ e)
]

module _ {imports : ℕ → Bool} {s : Tracker} (good : IsSound imports s) where
  IsSound-heap :
      (h : Heap)
      → HeapGrows s.heap h
      → ((p : ℕ) (l : Local) → get_elem? h p ≡ some l → IsOwned h l)
      → IsSound imports (record s { heap = h })
  IsSound-heap h g owned = record {
    owned = owned;
    mapped = λ id p e. let lt = good.mapped id p e in let le = g.longer in omega arith;
    imported = λ id p k e. g.extra p (good.imported id p k e);
    scope = ScopeSits-HeapGrows s.scope g good.scope;
    stack = StackSits-HeapGrows s.stack g good.stack;
  }

  pub IsSound-append :
      (l : Local) → IsOwned s.heap l → IsSound imports (record s { heap = s.heap ++ l ∷ [] })
  IsSound-append l own =
      let g = HeapGrows-append s.heap l in
      IsSound-heap (s.heap ++ l ∷ []) g λ p l' e. elim (Option-cases (get_elem? s.heap p)) [
        | inr old ↦
            let same : old.0 ≡ l' =
              some-injective old.0 l'
                (sym (get_elem?-append_left s.heap (l ∷ []) p old.0 old.1) ∙ e) in
            IsOwned-HeapGrows l' g (good.owned p l' (old.1 ∙ ap some same))
        | inl out ↦
            let same = get_elem?-snoc_new s.heap l p l' out e in
            subst (IsOwned (s.heap ++ l ∷ [])) same (IsOwned-HeapGrows l g own)
      ]

  pub IsSound-set :
      (p : ℕ) (l l' : Local)
      → get_elem? s.heap p ≡ some l
      → IsPlaceable l'
      → l'.extra ≡ l.extra
      → IsSound imports (record s { heap = set s.heap p l' })
  IsSound-set p l l' here ok same =
      let g = HeapGrows-set s.heap p l l' here ok same in
      let at' = λ (q : ℕ). get_elem?-set s.heap p q l l' here in
      IsSound-heap (set s.heap p l') g λ q m e. elim (Bool-cases (p == q)) [
        | inl so ↦
            let one : l' ≡ m = some-injective l' m (sym (at' q ∙ rw so refl) ∙ e) in
            λ is. absurd (IsPlaceable-not_access l' ok (ap (λ (x : Local). x.type) one ∙ is))
        | inr ne ↦
            let old : get_elem? s.heap q ≡ some m = sym (at' q ∙ rw ne refl) ∙ e in
            IsOwned-HeapGrows m g (good.owned q m old)
      ]

  -- A node's local is added to the map.
  pub IsSound-map :
      (id p : ℕ)
      → p < length s.heap
      → (imports id ≡ true → HasExtra s.heap p)
      → IsSound imports (record s { lm = map_add s.lm id p })
  IsSound-map id p lt extra = record {
    owned = good.owned;
    mapped = λ j q e. elim (Bool-cases (id == j)) [
      | inl so ↦
          let same : p ≡ q =
            some-injective p q (sym (map_get-map_add s.lm id p j ∙ rw so refl) ∙ e) in
          subst (λ (x : ℕ). x < length s.heap) same lt
      | inr ne ↦ good.mapped j q (sym (map_get-map_add s.lm id p j ∙ rw ne refl) ∙ e)
    ];
    imported = λ j q k e. elim (Bool-cases (id == j)) [
      | inl so ↦
          let same : p ≡ q =
            some-injective p q (sym (map_get-map_add s.lm id p j ∙ rw so refl) ∙ e) in
          subst (HasExtra s.heap) same (extra (ap imports ((==_iff id j).0 so) ∙ k))
      | inr ne ↦ good.imported j q k (sym (map_get-map_add s.lm id p j ∙ rw ne refl) ∙ e)
    ];
    scope = good.scope;
    stack = good.stack;
  }

  pub IsSound-insert :
      (name : Bytes) (p : ℕ)
      → Sits s.heap p
      → IsSound imports (record s { scope = insert name p s.scope })
  IsSound-insert name p sits = record {
    owned = good.owned;
    mapped = good.mapped;
    imported = good.imported;
    scope = insert-ScopeSits s.heap name p s.scope sits good.scope;
    stack = good.stack;
  }

  -- `idx` comes to an answer at each local.
  pub IsSound-idx : (p : ℕ) → p < length s.heap → idx (suc (length s.heap)) s.heap p ≢ none
  IsSound-idx p lt =
      let (l, here) = get_elem?-lt s.heap p lt in
      let size : suc (length s.heap) ≡ suc (suc (length s.heap - 1)) = omega arith in
      rw size (idx-ne-none s.heap p l (length s.heap - 1) here (good.owned p l here))

  pub IsSound-PointerFits : (p : ℕ) → p < length s.heap → PointerFits ⊥ (analysis s) p
  IsSound-PointerFits p lt = record {
    there = λ e. let (l, here) = get_elem?-lt s.heap p lt in cc;
    indexed = IsSound-idx p lt;
  }

  pub IsSound-MayFit : (id : ℕ) → MayFit ⊥ (analysis s) id
  IsSound-MayFit id p e = IsSound-PointerFits p (good.mapped id p e)

  pub IsSound-NodeFits : (id : ℕ) → map_get s.lm id ≢ none → NodeFits ⊥ (analysis s) id
  IsSound-NodeFits id there = record { mapped = there; pointer = IsSound-MayFit id }

  pub IsSound-ImportFits :
      (id : ℕ) → imports id ≡ true → map_get s.lm id ≢ none → ImportFits ⊥ (analysis s) id
  IsSound-ImportFits id k there = record {
    node = IsSound-NodeFits id there;
    extra = λ p e.
        let (l, x, here, is, lt) = good.imported id p k e in
        record {
          there = λ n. cc;
          set = λ l' at' n. let same = some-injective l l' (sym here ∙ at') in cc;
          fits = λ l' x' at' is'.
              let same = some-injective l l' (sym here ∙ at') in
              let same' : x ≡ x' =
                some-injective x x' (sym is ∙ ap (λ (y : Local). y.extra) same ∙ is') in
              subst (PointerFits ⊥ (analysis s)) same' (IsSound-PointerFits x lt);
        };
  }
