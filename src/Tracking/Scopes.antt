-- ===== src/Tracking/Scopes.antt =====
-- vm/scope_tracker.cpp: a scope, from `before_visit` to `visit`.
use marius.Base.{
  ℕ, suc, ◌≡◌, inl, inr, refl, sym, subst, Bool, true, false, Option, none, some, List, [], ◌∷◌,
  set, length, arith, codes, Bool-cases,
}
use marius.Base.Int.{ℤ, pos, negsuc}
use marius.Ast.{Arguments, no_more, argument}
use marius.Local.{Local, new_local, make_arg, reg_p, needs_reg_p, set_reg}
use marius.Codegen.State.{Analysis}
use marius.Codegen.Layout.Locals.{NodeFits}
use marius.Codegen.Layout.Defs.{SelfFits}
use marius.Tracking.{
  Tracker, Step, LocalScope, ◌>>◌, enter_scope, enter_arguments, enter_self, place_locals,
  leave_scope, insert_new, change, assign, update,
}
use marius.Tracking.Names.{find-insert_self, assign}
use marius.Tracking.Sound.{IsSound, IsPlaceable, ScopeSits, StackSits, ScopeSits-HeapGrows}
use marius.Tracking.Steps.{
  Knows, Knows-Passes, Passes, Run, Ensures, Passes-trans, Passes-weaken, Passes-refl,
  Passes-written, Nothing, set-Passes,
}
use marius.Tracking.Visits.{insert_new-Passes}

pub set_reg-placeable :
    (r : ℤ) (l : Local)
    → IsPlaceable l
    → reg_p l ≡ false
    → set_reg r l ≡ some (record l { idx = r })
unfolding set_reg reg_p
set_reg-placeable r l ok other = ground arith

pub set_reg-needed :
    (r : ℤ) (l : Local) → needs_reg_p l ≡ true → set_reg r l ≡ some (record l { idx = r })
unfolding set_reg needs_reg_p
set_reg-needed r l needed = ground arith

module _ (imports : ℕ → Bool) where
  -- At the end of a scope no assert fails.
  place_locals-Run :
      (s : Tracker) (id : ℕ) (sc : LocalScope) (regs closed : ℕ)
      → IsSound imports s
      → ScopeSits s.heap sc
      → Run imports (Nothing imports) s (place_locals id sc regs closed s)
  unfolding place_locals change
  place_locals-Run s id [] regs closed good ts = record {
    after = s;
    ran = refl;
    passes = Passes-refl imports good;
  }
  place_locals-Run s id ((name, p) ∷ sc) regs closed good ((l, here, ok), ts) =
      elim (Bool-cases (reg_p l)) [
        | inl is_reg ↦ elim (Bool-cases (needs_reg_p l)) [
          | inl needed ↦
              let first = set-Passes imports good p l (record l { idx = pos regs }) here ok refl in
              let one = Passes-written imports first in
              let rest =
                place_locals-Run
                  (record s {
                    heap = set s.heap p (record l { idx = pos regs });
                    scope_locals =
                        update s.scope_locals id (assign name (pos regs) (s.scope_locals id));
                  })
                  id sc (suc regs) closed one.sound (ScopeSits-HeapGrows sc one.heap ts) in
              record {
                after = rest.after;
                ran =
                    rw (here, place_locals, is_reg, needed, set_reg-needed (pos regs) l needed)
                      rest.ran;
                passes = Passes-weaken imports (λ an c. tt) (Passes-trans imports one rest.passes);
              }
          | inr placed ↦
              let one = Passes-written imports (Passes-refl imports good) in
              let rest =
                place_locals-Run
                  (record s {
                    scope_locals = update s.scope_locals id (assign name l.idx (s.scope_locals id));
                  })
                  id sc regs closed one.sound ts in
              record {
                after = rest.after;
                ran = rw (here, place_locals, is_reg, placed) rest.ran;
                passes = Passes-weaken imports (λ an c. tt) (Passes-trans imports one rest.passes);
              }
        ]
        | inr other ↦
            let first = set-Passes imports good p l (record l { idx = pos closed }) here ok refl in
            let one = Passes-written imports first in
            let rest =
              place_locals-Run
                (record s {
                  heap = set s.heap p (record l { idx = pos closed });
                  closed_locals =
                      update s.closed_locals id (assign name closed (s.closed_locals id));
                })
                id sc regs (suc closed) one.sound (ScopeSits-HeapGrows sc one.heap ts) in
            record {
              after = rest.after;
              ran =
                  rw (here, place_locals, other, set_reg-placeable (pos closed) l ok other)
                    rest.ran;
              passes = Passes-weaken imports (λ an c. tt) (Passes-trans imports one rest.passes);
            }
      ]

  abbrev pub ArgumentsPlain : Arguments → Type 0
  ArgumentsPlain no_more = Unit
  ArgumentsPlain (argument m name c position o rest) = (imports m.id ≡ false) × ArgumentsPlain rest

  abbrev pub SelfPlain : Option ℕ → Type 0
  SelfPlain none = Unit
  SelfPlain (some id) = imports id ≡ false

  abbrev pub ArgumentsFit : Arguments → Analysis → Type 0
  ArgumentsFit no_more an = Unit
  ArgumentsFit (argument m name c position o rest) an = NodeFits ⊥ an m.id × ArgumentsFit rest an

  enter_arguments-Passes :
      (as' : Arguments) (s : Tracker)
      → ArgumentsPlain as'
      → IsSound imports s
      → Passes imports (ArgumentsFit as') s (enter_arguments as' s)
  unfolding enter_arguments make_arg
  enter_arguments-Passes no_more s plain good = Passes-refl imports good
  enter_arguments-Passes (argument m name c position o rest) s plain good =
      let one =
        insert_new-Passes imports good m.id plain.0 name (make_arg (pos position) new_local) tt
          (λ e. cc) in
      Passes-trans imports one (
        enter_arguments-Passes rest (insert_new m.id name (make_arg (pos position) new_local) s)
          plain.1 one.sound)

  enter_self-Passes :
      (self : Option ℕ) (s : Tracker)
      → SelfPlain self
      → IsSound imports s
      → Passes imports (λ an. SelfFits ⊥ an self) s (enter_self self s)
  unfolding make_arg
  enter_self-Passes none s plain good = Passes-refl imports good
  enter_self-Passes (some id) s plain good =
      insert_new-Passes imports good id plain (codes "self") (make_arg (negsuc 0) new_local) tt
        (λ e. cc)

  enter_self-Knows :
      (self : Option ℕ) (s : Tracker) (scs : List LocalScope)
      → (self ≡ none → Knows scs)
      → Knows ((enter_self self s).scope ∷ scs)
  unfolding insert_new
  enter_self-Knows none s scs k = inr (k refl)
  enter_self-Knows (some id) s scs k = inl (find-insert_self (codes "self") (length s.heap) s.scope)

  -- A scope whose casts and body keep the tracker sound, and that has a `self` or stands where one is
  -- known, is visited without a failed assert, and the enclosing scopes are as they were.
  pub scope-Run :
      {A B : Analysis → Type 0} {casts body : Step} (id args : ℕ) (self : Option ℕ)
      (as' : Arguments) (s : Tracker)
      → SelfPlain self
      → ArgumentsPlain as'
      → Ensures imports A casts
      → Ensures imports B body
      → IsSound imports s
      → (self ≡ none → Knows (s.scope ∷ s.stack))
      → Run imports
          (λ an. (ArgumentsFit as' an × SelfFits ⊥ an self) × (A an × B an))
          s
          (((λ t. some (enter_scope self as' t)) >> casts >> body >> leave_scope id args) s)
  unfolding enter_scope leave_scope
  scope-Run {A} {B} {casts} {body} id args self as' s plain plain' casts' body' good k =
      let inner = record s { scope = []; stack = s.scope ∷ s.stack } in
      let sound : IsSound imports inner = record {
        owned = good.owned;
        mapped = good.mapped;
        imported = good.imported;
        scope = tt;
        stack = (good.scope, good.stack);
      } in
      let one = enter_arguments-Passes as' inner plain' sound in
      let entered = enter_arguments as' inner in
      let two = Passes-trans imports one (enter_self-Passes self entered plain one.sound) in
      let knows =
        subst (λ (scs : List LocalScope). Knows ((enter_self self entered).scope ∷ scs))
          (sym two.stack) (enter_self-Knows self entered (s.scope ∷ s.stack) k) in
      let c = casts' (enter_self self entered) two.sound knows in
      let b = body' c.after c.passes.sound (Knows-Passes imports c.passes knows) in
      let visited = Passes-trans imports two (Passes-trans imports c.passes b.passes) in
      let placed =
        place_locals-Run b.after id b.after.scope args 0 visited.sound visited.sound.scope in
      let whole = Passes-trans imports visited placed.passes in
      let stack : placed.after.stack ≡ s.scope ∷ s.stack = whole.stack in
      let sits = subst (StackSits placed.after.heap) stack whole.sound.stack in
      record {
        after = record placed.after { scope = s.scope; stack = s.stack };
        ran = rw (c.ran, b.ran, placed.ran, stack) refl;
        passes = record {
          sound = record {
            owned = whole.sound.owned;
            mapped = whole.sound.mapped;
            imported = whole.sound.imported;
            scope = sits.0;
            stack = sits.1;
          };
          stack = refl;
          self = λ there. there;
          heap = whole.heap;
          extends = whole.extends;
          covers = λ f g ext. (whole.covers f g ext).0;
        };
      }
