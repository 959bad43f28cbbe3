-- ===== src/Tracking/Steps.antt =====
-- vm/scope_tracker.cpp: each visit keeps a tracker sound, leaves the enclosing scopes as they are, and
-- gives its node what the code generator asks for.
use marius.Base.{
  ℕ, ◌<◌, ◌≡◌, ◌≢◌, ◌⊎◌, inl, inr, refl, sym, ◌∙◌, subst, Bool, true, Option, none, some, List, [],
  ◌∷◌, ◌++◌, get_elem?, set, length, arith, codes,
}
use marius.Base.Int.{ℤ}
use marius.Ast.{Bytes, ArgMap}
use marius.Local.{Local, LocalMap, map_get, map_add}
use marius.Codegen.State.{Analysis}
use marius.Tracking.{Tracker, Step, LocalScope, bind, ◌>>◌, skip, analysis}
use marius.Tracking.Names.{find, insert, find-insert_mono}
use marius.Tracking.Sound.{
  IsSound, HeapGrows, HeapGrows-append, HeapGrows-set, HeapGrows-refl, HeapGrows-trans, Sits,
  IsPlaceable, IsOwned, HasExtra, IsSound-append, IsSound-set, IsSound-map, IsSound-insert,
  map_get-map_add,
}

-- `self` has a local in one of the scopes.
abbrev pub Knows : List LocalScope → Type 0
Knows [] = ⊥
Knows (sc ∷ scs) = (find (codes "self") sc ≢ none) ⊎ Knows scs

-- Every node with a local keeps one.
abbrev pub Extends : LocalMap → LocalMap → Type 0
Extends m m' = (id : ℕ) → map_get m id ≢ none → map_get m' id ≢ none

map_get-map_add_self : (m : LocalMap) (id p : ℕ) → map_get (map_add m id p) id ≢ none
map_get-map_add_self m id p e = ground (arith, map_get-map_add m id p id)

Extends-map_add : (m : LocalMap) (id p : ℕ) → Extends m (map_add m id p)
Extends-map_add m id p j there e = there (ground (arith, map_get-map_add m id p j))

module _ (imports : ℕ → Bool) where
  -- From `s` to `after`; C is what the analysis gives then and whatever is visited later.
  pub record Passes (C : Analysis → Type 0) (s after : Tracker) : Type 0 where
    pub sound : IsSound imports after
    pub stack : after.stack ≡ s.stack
    pub self : find (codes "self") s.scope ≢ none → find (codes "self") after.scope ≢ none
    pub heap : HeapGrows s.heap after.heap
    pub extends : Extends s.lm after.lm
    pub covers : (f : Tracker) → IsSound imports f → Extends after.lm f.lm → C (analysis f)

  pub record Run (C : Analysis → Type 0) (s : Tracker) (r : Option Tracker) : Type 0 where
    pub after : Tracker
    pub ran : r ≡ some after
    pub passes : Passes C s after

  abbrev pub Ensures : (Analysis → Type 0) → Step → Type 0
  Ensures C m = (s : Tracker) → IsSound imports s → Knows (s.scope ∷ s.stack) → Run C s (m s)

  pub Passes-trans :
      {A B : Analysis → Type 0} {s t u : Tracker}
      → Passes A s t
      → Passes B t u
      → Passes (λ an. A an × B an) s u
  Passes-trans p q = record {
    sound = q.sound;
    stack = q.stack ∙ p.stack;
    self = λ k. q.self (p.self k);
    heap = HeapGrows-trans p.heap q.heap;
    extends = λ id there. q.extends id (p.extends id there);
    covers = λ f good ext.
        (p.covers f good (λ id there. ext id (q.extends id there)), q.covers f good ext);
  }

  pub Passes-weaken :
      {A B : Analysis → Type 0} {s t : Tracker}
      → ((an : Analysis) → A an → B an)
      → Passes A s t
      → Passes B s t
  Passes-weaken w p = record {
    sound = p.sound;
    stack = p.stack;
    self = p.self;
    heap = p.heap;
    extends = p.extends;
    covers = λ f good ext. w (analysis f) (p.covers f good ext);
  }

  pub Ensures-weaken :
      {A B : Analysis → Type 0} {m : Step}
      → ((an : Analysis) → A an → B an)
      → Ensures A m
      → Ensures B m
  Ensures-weaken w m s good k =
      let r = m s good k in
      record { after = r.after; ran = r.ran; passes = Passes-weaken w r.passes }

  abbrev pub Nothing : Analysis → Type 0
  Nothing an = Unit

  pub Passes-refl : {s : Tracker} → IsSound imports s → Passes Nothing s s
  Passes-refl good = record {
    sound = good;
    stack = refl;
    self = λ k. k;
    heap = HeapGrows-refl;
    extends = λ id there. there;
    covers = λ f g ext. tt;
  }

  -- The stack of traits, and what is written to the nodes, are no part of a tracker's soundness.
  pub Passes-written :
      {C : Analysis → Type 0} {s t : Tracker} {traits : List ℕ}
      {scope_locals : ℕ → List (Bytes × ℤ)} {closed_locals : ℕ → ArgMap}
      {self_sends : ℕ → List Bytes}
      → Passes C s t
      → Passes C s (record t {
        traits = traits;
        scope_locals = scope_locals;
        closed_locals = closed_locals;
        self_sends = self_sends;
      })
  Passes-written p = record {
    sound = record {
      owned = p.sound.owned;
      mapped = p.sound.mapped;
      imported = p.sound.imported;
      scope = p.sound.scope;
      stack = p.sound.stack;
    };
    stack = p.stack;
    self = p.self;
    heap = p.heap;
    extends = p.extends;
    covers = p.covers;
  }

  pub skip-Ensures : Ensures Nothing skip
  skip-Ensures s good k = record { after = s; ran = refl; passes = Passes-refl good }

  pub Knows-Passes :
      {C : Analysis → Type 0} {s t : Tracker}
      → Passes C s t
      → Knows (s.scope ∷ s.stack)
      → Knows (t.scope ∷ t.stack)
  Knows-Passes p (inl here) = inl (p.self here)
  Knows-Passes p (inr out) = inr (subst Knows (sym p.stack) out)

  pub >>-Run :
      {A B : Analysis → Type 0} {s : Tracker} {r : Option Tracker} {n : Step}
      → Knows (s.scope ∷ s.stack)
      → Run A s r
      → Ensures B n
      → Run (λ an. A an × B an) s (bind r n)
  >>-Run k a n =
      let b = n a.after a.passes.sound (Knows-Passes a.passes k) in
      record { after = b.after; ran = rw a.ran b.ran; passes = Passes-trans a.passes b.passes }

  pub >>-Ensures :
      {A B : Analysis → Type 0} {m n : Step}
      → Ensures A m
      → Ensures B n
      → Ensures (λ an. A an × B an) (m >> n)
  >>-Ensures m n s good k = >>-Run k (m s good k) n

  module _ {s : Tracker} (good : IsSound imports s) where
    pub append-Passes :
        (l : Local) → IsOwned s.heap l → Passes Nothing s (record s { heap = s.heap ++ l ∷ [] })
    append-Passes l own = record {
      sound = IsSound-append good l own;
      stack = refl;
      self = λ k. k;
      heap = HeapGrows-append s.heap l;
      extends = λ id there. there;
      covers = λ f g ext. tt;
    }

    pub set-Passes :
        (p : ℕ) (l l' : Local)
        → get_elem? s.heap p ≡ some l
        → IsPlaceable l'
        → l'.extra ≡ l.extra
        → Passes Nothing s (record s { heap = set s.heap p l' })
    set-Passes p l l' here ok same = record {
      sound = IsSound-set good p l l' here ok same;
      stack = refl;
      self = λ k. k;
      heap = HeapGrows-set s.heap p l l' here ok same;
      extends = λ id there. there;
      covers = λ f g ext. tt;
    }

    pub map-Passes :
        {C : Analysis → Type 0} (id p : ℕ)
        → p < length s.heap
        → (imports id ≡ true → HasExtra s.heap p)
        → ((f : Tracker) → IsSound imports f → map_get f.lm id ≢ none → C (analysis f))
        → Passes C s (record s { lm = map_add s.lm id p })
    map-Passes id p lt extra cover = record {
      sound = IsSound-map good id p lt extra;
      stack = refl;
      self = λ k. k;
      heap = HeapGrows-refl;
      extends = Extends-map_add s.lm id p;
      covers = λ f g ext. cover f g (ext id (map_get-map_add_self s.lm id p));
    }

    pub insert-Passes :
        (name : Bytes) (p : ℕ)
        → Sits s.heap p
        → Passes Nothing s (record s { scope = insert name p s.scope })
    insert-Passes name p sits = record {
      sound = IsSound-insert good name p sits;
      stack = refl;
      self = λ k. find-insert_mono name (codes "self") p s.scope k;
      heap = HeapGrows-refl;
      extends = λ id there. there;
      covers = λ f g ext. tt;
    }
