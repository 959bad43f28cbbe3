-- ===== src/Codegen/Layout/Defs.antt =====
-- vm/ast.cpp: scopes and the nodes with code of their own keep the layout, and the code that they
-- add to the table is laid out too.
use marius.Base.{ℕ, refl, Bool, Option, none, some, List, [], ◌∷◌, ◌+◌}
use marius.Base.Int.{ℤ, pos, negsuc}
use marius.Ast.{Bytes, ArgMap, Meta}
use marius.Instruction.{insn_len}
use marius.Local.{reg_p}
use marius.Codegen.State.{local_at, Analysis, State, new_state, movr, M, ◌>>=◌}
use marius.Codegen.Values.{Drive}
use marius.Codegen.Defs
use marius.Codegen.Defs.{DrivenArg, DrivenScope}
use marius.Instruction.Stream.{done}
use marius.Codegen.Layout.Rules.{
  Keeps-label_here, Keeps-if, Keeps-need, Keeps-code_index, Keeps, Keeps-pure, Keeps-then,
  Keeps-bind, IsLaidOut, After, goes, stops, CodeFits, keeps,
}
use marius.Codegen.Layout.Control.{OptKeeps}
use marius.Codegen.Layout.Values.{DriveKeeps}
use marius.Codegen.Layout.Locals.{
  NodeFits, ImportFits, local_of-Keeps, local_of_extra-Keeps, set_local-Keeps, get_extra-Keeps,
}

abbrev pub ArgsKeep : Type 0 → Analysis → List DrivenArg → Type 0
ArgsKeep Stop an [] = Unit
ArgsKeep Stop an (a ∷ as') =
    NodeFits Stop an a.meta.id
    × OptKeeps Stop a.cast
    × OptKeeps Stop a.opt_value
    × ArgsKeep Stop an as'

abbrev pub SelfFits : Type 0 → Analysis → Option ℕ → Type 0
SelfFits Stop an none = Unit
SelfFits Stop an (some id) = NodeFits Stop an id

pub record ScopeKeeps (Stop : Type 0) (an : Analysis) (sc : DrivenScope) : Type 0 where
  pub self : SelfFits Stop an sc.self
  pub args : ArgsKeep Stop an sc.args
  pub body : DriveKeeps Stop sc.body

-- A state that is laid out from the start makes a code that is.
pub to_code-CodeFits :
    (name : Bytes) (as' : ArgMap) (req cov : ℕ) (ret : Bool) (s : State)
    → IsLaidOut [] [] s
    → CodeFits (Defs.to_code name as' req cov ret s)
unfolding Defs.to_code
to_code-CodeFits name as' req cov ret s v = ((v.ops, rw (v.split) v.fits), v.nested)

pub new_state-IsLaidOut : (file : Bytes) (lambda : Bool) → IsLaidOut [] [] (new_state file lambda)
new_state-IsLaidOut file lambda = record {
  ops = [];
  code = [];
  split = refl;
  fits = done;
  operands = tt;
  nested = tt;
}

sub_state_run :
    {A B : Type 0} {Stop : Type 0} (base holes : List ℕ) (s : State) (k : A × State → M B)
    {r : Option (A × State)}
    → After Stop (IsLaidOut [] []) r
    → ((p : A × State) → IsLaidOut [] [] p.1 → After Stop (IsLaidOut base holes) (k p s))
    → After Stop (IsLaidOut base holes) (
        ◌>>=◌ {A = A × State}
          (λ s₀. elim r [ none ↦ none | some (a, sub) ↦ some ((a, sub), s₀) ])
          k
          s)
sub_state_run base holes s k (stops h) g = stops h
sub_state_run base holes s k (goes v) g = g _ v

-- What follows on a `subS` may use that it is laid out.
sub_state-Keeps :
    {A B : Type 0} {Stop : Type 0} {holes : List ℕ} (lambda : Bool) (m : M A) {k : A × State → M B}
    → Keeps Stop [] m
    → ((p : A × State) → IsLaidOut [] [] p.1 → Keeps Stop holes (k p))
    → Keeps Stop holes (Defs.sub_state lambda m >>= k)
unfolding Defs.sub_state
sub_state-Keeps {holes = holes} lambda m {k = k} h g = record {
  run = λ base s v.
      sub_state_run base holes s k (h.run [] _ (new_state-IsLaidOut s.file lambda))
        (λ p w. (g p w).run base s v);
}

movr-Keeps : {Stop : Type 0} (to from : ℕ) (holes : List ℕ) → Keeps Stop holes (movr to from)
unfolding movr insn_len
movr-Keeps to from holes = search keeps

load_name-Keeps :
    {Stop : Type 0} (name : Bytes) (j : ℕ) (holes : List ℕ)
    → Keeps Stop holes (Defs.load_name name j)
unfolding Defs.load_name insn_len
load_name-Keeps name j holes = search keeps

outer_label-Keeps :
    {Stop : Type 0} (o : Option Drive) (holes : List ℕ) → Keeps Stop holes (Defs.outer_label o)
outer_label-Keeps none holes = Keeps-pure tt
outer_label-Keeps (some o) holes = Keeps-label_here

outer_labels-Keeps :
    {Stop : Type 0} (as' : List DrivenArg) (holes : List ℕ)
    → Keeps Stop holes (Defs.outer_labels as')
unfolding Defs.outer_labels
outer_labels-Keeps [] holes = Keeps-pure tt
outer_labels-Keeps (a ∷ as') holes =
    Keeps-then (outer_label-Keeps a.opt_value holes) (outer_labels-Keeps as' holes)

drive_default-Keeps :
    {Stop : Type 0} (first position : ℕ) (o : Option Drive) (holes : List ℕ)
    → OptKeeps Stop o
    → Keeps Stop holes (Defs.drive_default first position o)
unfolding insn_len
drive_default-Keeps first position none holes h = Keeps-pure 1
drive_default-Keeps first position (some o) holes h = search (keeps, h, movr-Keeps)

drive_arg_cast-Keeps :
    {Stop : Type 0} (first position : ℕ) (o : Option Drive) (holes : List ℕ)
    → OptKeeps Stop o
    → Keeps Stop holes (Defs.drive_arg_cast first position o)
unfolding insn_len
drive_arg_cast-Keeps first position none holes h = Keeps-pure tt
drive_arg_cast-Keeps first position (some n) holes h = search (keeps, h)

drive_prologue-Keeps :
    {Stop : Type 0} (an : Analysis) (first : ℕ) (as' : List DrivenArg) (holes : List ℕ)
    → ArgsKeep Stop an as'
    → Keeps Stop holes (Defs.drive_prologue first as')
unfolding Defs.drive_prologue
drive_prologue-Keeps an first [] holes h = Keeps-pure 0
drive_prologue-Keeps an first (a ∷ as') holes h =
    Keeps-bind (drive_default-Keeps first a.position a.opt_value holes h.2) λ required.
      Keeps-then (drive_arg_cast-Keeps first a.position a.cast holes h.1) (
        Keeps-bind (drive_prologue-Keeps an first as' holes h.3)
          λ more. Keeps-pure (required + more))

load_scope_name-Keeps :
    {Stop : Type 0} (scope : Option Bytes) (next : ℕ) (holes : List ℕ)
    → Keeps Stop holes (Defs.load_scope_name scope next)
unfolding insn_len
load_scope_name-Keeps none next holes = Keeps-pure next
load_scope_name-Keeps (some scope) next holes = search keeps

load_names-Keeps :
    {Stop : Type 0} (names : List Bytes) (j : ℕ) (holes : List ℕ)
    → Keeps Stop holes (Defs.load_names names j)
unfolding Defs.load_names
load_names-Keeps [] j holes = Keeps-pure tt
load_names-Keeps (name ∷ names) j holes =
    Keeps-then (load_name-Keeps name j holes) (load_names-Keeps names (j + 1) holes)

module _ {Stop : Type 0} (an : Analysis) where
  drive_argument-Keeps :
      (id : ℕ) (position : ℤ) (holes : List ℕ)
      → NodeFits Stop an id
      → Keeps Stop holes (Defs.drive_argument an id position)
  unfolding Defs.drive_argument local_at
  drive_argument-Keeps id position holes f = local_of-Keeps an _ f λ p q.
      Keeps-need _ q.there
        λ l _. Keeps-if (reg_p l) (Keeps-pure tt) (set_local-Keeps an p _ holes q)

  drive_arguments-Keeps :
      (as' : List DrivenArg) (holes : List ℕ)
      → ArgsKeep Stop an as'
      → Keeps Stop holes (Defs.drive_arguments an as')
  unfolding Defs.drive_arguments
  drive_arguments-Keeps [] holes h = Keeps-pure tt
  drive_arguments-Keeps (a ∷ as') holes h =
      Keeps-then (drive_argument-Keeps a.meta.id (pos a.position) holes h.0)
        (drive_arguments-Keeps as' holes h.3)

  drive_self_argument-Keeps :
      (self : Option ℕ) (holes : List ℕ)
      → SelfFits Stop an self
      → Keeps Stop holes (Defs.drive_self_argument an self)
  drive_self_argument-Keeps none holes h = Keeps-pure tt
  drive_self_argument-Keeps (some id) holes h = drive_argument-Keeps id (negsuc 0) holes h

  pub drive_scope-Keeps :
      (sc : DrivenScope) → ScopeKeeps Stop an sc → DriveKeeps Stop (Defs.drive_scope an sc)
  unfolding Defs.drive_scope
  drive_scope-Keeps sc h t holes =
      Keeps-then (drive_self_argument-Keeps sc.self holes h.self)
        (Keeps-then (drive_arguments-Keeps sc.args holes h.args) (h.body t holes))

  drive_body-Keeps :
      (sc : DrivenScope) → ScopeKeeps Stop an sc → DriveKeeps Stop (Defs.drive_body an sc)
  unfolding Defs.drive_body insn_len
  drive_body-Keeps sc h t holes = search (keeps, drive_scope-Keeps sc h)

  drive_method-Keeps :
      (first : ℕ) (sc : DrivenScope) (holes : List ℕ)
      → ScopeKeeps Stop an sc
      → Keeps Stop holes (Defs.drive_method an first sc)
  unfolding Defs.drive_method
  drive_method-Keeps first sc holes h =
      Keeps-bind (drive_prologue-Keeps an first sc.args holes h.args)
        λ req. Keeps-then (drive_body-Keeps sc h first holes) (Keeps-pure req)

  -- The code that a method, a lambda, or a body adds to the table.
  pub drive_def-Keeps :
      (m : Meta) (scope : Option Bytes) (name : Bytes) (body : DrivenScope) (as' : ArgMap)
      → ScopeKeeps Stop an body
      → DriveKeeps Stop (Defs.drive_def an m scope name body as')
  unfolding Defs.drive_def insn_len
  drive_def-Keeps m scope name body as' h t holes =
      search
        (
          keeps, load_scope_name-Keeps, sub_state-Keeps, drive_method-Keeps, Keeps-code_index,
          to_code-CodeFits, outer_labels-Keeps, h,
        )
        depth 20

  ruleset bodies = (keeps, sub_state-Keeps, drive_body-Keeps, Keeps-code_index, to_code-CodeFits)

  pub drive_lambda-Keeps :
      (m : Meta) (body : DrivenScope)
      → ScopeKeeps Stop an body
      → DriveKeeps Stop (Defs.drive_lambda an m body)
  unfolding Defs.drive_lambda insn_len
  drive_lambda-Keeps m body h t holes = search (bodies, h) depth 16

  drive_run_body-Keeps :
      (body : DrivenScope) → ScopeKeeps Stop an body → DriveKeeps Stop (Defs.drive_run_body an body)
  unfolding Defs.drive_run_body insn_len
  drive_run_body-Keeps body h t holes = search (bodies, h) depth 16

  pub drive_class-Keeps :
      (m : Meta) (name : Bytes) (super : Drive) (body : DrivenScope)
      → NodeFits Stop an body.meta.id
      → DriveKeeps Stop super
      → ScopeKeeps Stop an body
      → DriveKeeps Stop (Defs.drive_class an m name super body)
  unfolding Defs.drive_class insn_len
  drive_class-Keeps m name super body f hs h t holes =
      search (keeps, hs, local_of-Keeps, set_local-Keeps, drive_run_body-Keeps body h) depth 20

  pub drive_trait-Keeps :
      (m : Meta) (name : Bytes) (body : DrivenScope)
      → ImportFits Stop an m.id
      → ScopeKeeps Stop an body
      → DriveKeeps Stop (Defs.drive_trait an m name body)
  unfolding Defs.drive_trait insn_len
  drive_trait-Keeps m name body f h t holes =
      search
        (
          keeps,
          local_of_extra-Keeps,
          get_extra-Keeps,
          set_local-Keeps,
          load_names-Keeps,
          drive_run_body-Keeps body h,
        )
        depth 24 fits 5000
