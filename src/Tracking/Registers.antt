-- ===== src/Tracking/Registers.antt =====
-- vm/scope_tracker.cpp: the registers that `visit(Scope*)` gives to the locals of a scope.
use mathlib.Core.Option.{some-injective}
use marius.Base.{
  ℕ, suc, ◌≤◌, ◌≡◌, ◌≢◌, ◌⊎◌, inl, inr, refl, ap, sym, ◌∙◌, subst, true, false, Option, some, List,
  [], ◌∷◌, ==_iff, get_elem?, set, arith, Bool-cases, get_elem?-set,
}
use marius.Base.Int.{ℤ, pos}
use marius.Ast.{Bytes}
use marius.Local.{Local, Heap, reg_p, needs_reg_p}
use marius.Tracking.{Tracker, LocalScope, place_locals, leave_scope, change, update}
use marius.Tracking.Names.{find, assign, string_compare}
use marius.Tracking.Sound.{Ordering-cases}
use marius.Tracking.Scopes.{set_reg-placeable, set_reg-needed}
use marius.Tracking.Ready.{
  Arg, NotIn, ScopeIsReady, InRegister, AllPlaced, OtherRegister, OtherRegisters, AllDiffer,
  SameIn-set, ScopeIsReady-same, AllPlaced-same, OtherRegisters-later,
}

record Placing (s : Tracker) (sc : LocalScope) (regs : ℕ) (r : Option Tracker) : Type 0 where
  after : Tracker
  ran : r ≡ some after
  stacked : after.stack ≡ s.stack
  frame : (p : ℕ) → NotIn p sc → get_elem? after.heap p ≡ get_elem? s.heap p
  placed : AllPlaced s.heap after.heap regs sc
  differ : AllDiffer after.heap sc

-- The register in which a known local lives.
InRegister-idx :
    (h : Heap) (p : ℕ) (l : Local) (i : ℤ) → get_elem? h p ≡ some l → InRegister h p i → i ≡ l.idx
InRegister-idx h p l i here (m, at', is_reg, e) =
    sym e ∙ ap (λ (x : Local). x.idx) (some-injective m l (sym at' ∙ here))

InRegister-reg_p :
    (h : Heap) (p : ℕ) (l : Local) (i : ℤ)
    → get_elem? h p ≡ some l
    → reg_p l ≡ false
    → InRegister h p i
    → ⊥
InRegister-reg_p h p l i here other (m, at', is_reg, e) =
    let same = some-injective m l (sym at' ∙ here) in
    let wrong : reg_p l ≡ true = ap reg_p (sym same) ∙ is_reg in cc

module _ (n : ℕ) where
  place_locals-Placing :
      (s : Tracker) (id : ℕ) (sc : LocalScope) (regs closed : ℕ)
      → n ≤ regs
      → ScopeIsReady s.heap n sc
      → Placing s sc regs (place_locals id sc regs closed s)
  unfolding place_locals change reg_p
  place_locals-Placing s id [] regs closed le ready = record {
    after = s;
    ran = refl;
    stacked = refl;
    frame = λ p out. refl;
    placed = tt;
    differ = tt;
  }
  place_locals-Placing s id ((name, p) ∷ sc) regs closed le
        (((l, here, ok), below), out, others, ready) =
      elim (Bool-cases (reg_p l)) [
        | inl is_reg ↦ elim (Bool-cases (needs_reg_p l)) [
          | inl needed ↦
              let l' : Local = record l { idx = pos regs } in
              let same = SameIn-set s.heap p l l' sc here out in
              let h = set s.heap p l' in
              let t = record s {
                heap = h;
                scope_locals =
                    update s.scope_locals id (assign name (pos regs) (s.scope_locals id));
              } in
              let ready' = ScopeIsReady-same h s.heap n sc same ready in
              let rest = place_locals-Placing t id sc (suc regs) closed (omega arith) ready' in
              let there : get_elem? rest.after.heap p ≡ some l' =
                rest.frame p out ∙ get_elem?-set s.heap p p l l' here ∙ ground arith in
              let own = λ (i : ℤ) (in' : InRegister rest.after.heap p i).
                InRegister-idx rest.after.heap p l' i there in' in
              record {
                after = rest.after;
                ran =
                    rw (here, place_locals, is_reg, needed, set_reg-needed (pos regs) l needed)
                      rest.ran;
                stacked = rest.stacked;
                frame = λ q away.
                    rest.frame q away.1
                    ∙ get_elem?-set s.heap p q l l' here
                    ∙ ground (arith, ==_iff p q, away.0);
                placed = (
                  λ i in'. inr (regs, own i in', omega arith),
                  AllPlaced-same h s.heap rest.after.heap (suc regs) regs sc same (omega arith)
                      rest.placed,
                );
                differ = (
                  OtherRegisters-later s.heap rest.after.heap p n (suc regs) sc
                      (λ i in'. inr (regs, own i in', le, omega arith)) below (omega arith) others
                      ready
                      (AllPlaced-same h s.heap rest.after.heap (suc regs) (suc regs) sc same
                        (omega arith) rest.placed),
                  rest.differ,
                );
              }
          | inr placed ↦
              let t = record s {
                scope_locals = update s.scope_locals id (assign name l.idx (s.scope_locals id));
              } in
              let rest = place_locals-Placing t id sc regs closed le ready in
              let there = rest.frame p out ∙ here in
              let own = λ (i : ℤ) (in' : InRegister rest.after.heap p i).
                let arg : Arg s.heap p i =
                  (l, here, is_reg, placed, sym (InRegister-idx rest.after.heap p l i there in')) in
                arg in
              record {
                after = rest.after;
                ran = rw (here, place_locals, is_reg, placed) rest.ran;
                stacked = rest.stacked;
                frame = λ q away. rest.frame q away.1;
                placed = (λ i in'. inl (own i in'), rest.placed);
                differ = (
                  OtherRegisters-later s.heap rest.after.heap p n regs sc (λ i in'. inl (own i in'))
                      below le others ready rest.placed,
                  rest.differ,
                );
              }
        ]
        | inr other ↦
            let l' : Local = record l { idx = pos closed } in
            let same = SameIn-set s.heap p l l' sc here out in
            let h = set s.heap p l' in
            let t = record s {
              heap = h;
              closed_locals = update s.closed_locals id (assign name closed (s.closed_locals id));
            } in
            let ready' = ScopeIsReady-same h s.heap n sc same ready in
            let rest = place_locals-Placing t id sc regs (suc closed) le ready' in
            let there : get_elem? rest.after.heap p ≡ some l' =
              rest.frame p out ∙ get_elem?-set s.heap p p l l' here ∙ ground arith in
            let none' = λ (i : ℤ) (in' : InRegister rest.after.heap p i).
              InRegister-reg_p rest.after.heap p l' i there other in' in
            let placed =
              AllPlaced-same h s.heap rest.after.heap regs regs sc same (omega arith) rest.placed in
            record {
              after = rest.after;
              ran =
                  rw (here, place_locals, other, set_reg-placeable (pos closed) l ok other)
                    rest.ran;
              stacked = rest.stacked;
              frame = λ q away.
                  rest.frame q away.1
                  ∙ get_elem?-set s.heap p q l l' here
                  ∙ ground (arith, ==_iff p q, away.0);
              placed = (λ i in'. absurd (none' i in'), placed);
              differ = (
                OtherRegisters-later s.heap rest.after.heap p n regs sc
                    (λ i in'. absurd (none' i in')) below le others ready placed,
                rest.differ,
              );
            }
      ]

OtherRegister-sym : (h : Heap) (p q : ℕ) → OtherRegister h p q → OtherRegister h q p
OtherRegister-sym h p q o i a b = o i b a

-- What a name finds is the first entry, or one behind it.
find-cases :
    (name : Bytes) (e : Bytes × ℕ) (sc : LocalScope) (p : ℕ)
    → find name (e ∷ sc) ≡ some p
    → (e.1 ≡ p) ⊎ (find name sc ≡ some p)
unfolding find
find-cases name e sc p h = elim (Ordering-cases (string_compare name e.0)) [
  | inl lt ↦ inr (sym (rw (lt, find) refl) ∙ h)
  | inr (inl eq) ↦ inl (some-injective e.1 p (sym (rw (eq, find) refl) ∙ h))
  | inr (inr gt) ↦ inr (sym (rw (gt, find) refl) ∙ h)
]

OtherRegisters-find :
    (h : Heap) (p q : ℕ) (name : Bytes) (sc : LocalScope)
    → OtherRegisters h p sc
    → find name sc ≡ some q
    → OtherRegister h p q
unfolding find
OtherRegisters-find h p q name [] o e = cc
OtherRegisters-find h p q name (x ∷ sc) o e = elim (find-cases name x sc q e) [
  | inl here ↦ subst (OtherRegister h p) here o.0
  | inr further ↦ OtherRegisters-find h p q name sc o.1 further
]

AllDiffer-find :
    (h : Heap) (p q : ℕ) (a b : Bytes) (sc : LocalScope)
    → AllDiffer h sc
    → find a sc ≡ some p
    → find b sc ≡ some q
    → p ≢ q
    → OtherRegister h p q
unfolding find
AllDiffer-find h p q a b [] d e f ne = cc
AllDiffer-find h p q a b (x ∷ sc) d e f ne = elim (find-cases a x sc p e) [
  | inl here ↦ elim (find-cases b x sc q f) [
    | inl here' ↦ absurd (ne (sym here ∙ here'))
    | inr further' ↦
        subst (λ (y : ℕ). OtherRegister h y q) here (OtherRegisters-find h x.1 q b sc d.0 further')
  ]
  | inr further ↦ elim (find-cases b x sc q f) [
    | inl here' ↦ OtherRegister-sym h q p (
        subst (λ (y : ℕ). OtherRegister h y p) here' (OtherRegisters-find h x.1 p a sc d.0 further))
    | inr further' ↦ AllDiffer-find h p q a b sc d.1 further further' ne
  ]
]

-- At the end of a scope in which each name has a local of its own, and the n arguments have different
-- registers below n, no assert fails, and the locals of two names that live in registers live in
-- different ones.
pub leave_scope-OtherRegister :
    (id n : ℕ) (s : Tracker) (outer : LocalScope) (stack : List LocalScope) (a b : Bytes) (p q : ℕ)
    → s.stack ≡ outer ∷ stack
    → ScopeIsReady s.heap n s.scope
    → find a s.scope ≡ some p
    → find b s.scope ≡ some q
    → p ≢ q
    → (after : Tracker) × (leave_scope id n s ≡ some after) × OtherRegister after.heap p q
unfolding leave_scope
leave_scope-OtherRegister id n s outer stack a b p q nested ready e f ne =
    let r = place_locals-Placing n s id s.scope n 0 (omega arith) ready in
    (
      record r.after { scope = outer; stack = stack },
      rw (r.ran, r.stacked, nested) refl,
      AllDiffer-find r.after.heap p q a b s.scope r.differ e f ne,
    )
