-- ===== src/Codegen/Layout/Locals.antt =====
-- vm/ast.cpp: the nodes that find their variable's local keep the layout. They end the program where
-- there is none, so each lemma asks that what the node needs is there, or that it may stop.
use marius.Base.{
  arith, ℕ, zero, suc, ◌≡◌, ◌≢◌, refl, false, Option, none, some, List, length, get_elem?,
}
use marius.Base.Int.{ℤ, negsuc}
use marius.Ast.{Bytes, Meta}
use marius.Instruction.{insn_len}
use marius.Local.{Local, idx, depth, reg_p, map_get}
use marius.Codegen.State
use marius.Codegen.State.{M, ◌>>=◌, Analysis}
use marius.Codegen.Values
use marius.Codegen.Values.{Drive}
use marius.Codegen.Layout.Rules.{Keeps, Keeps-need, Keeps-instr, Keeps-branch, keeps}
use marius.Codegen.Layout.Values.{DriveKeeps}

-- A local that `idx` can be asked of.
pub record PointerFits (Stop : Type 0) (an : Analysis) (p : ℕ) : Type 0 where
  pub there : get_elem? an.heap p ≡ none → Stop
  pub indexed : idx (suc (length an.heap)) an.heap p ≡ none → Stop

-- A local whose `extra` is such a local.
pub record ExtraFits (Stop : Type 0) (an : Analysis) (p : ℕ) : Type 0 where
  pub there : get_elem? an.heap p ≡ none → Stop
  pub set : (l : Local) → get_elem? an.heap p ≡ some l → l.extra ≡ none → Stop
  pub fits :
      (l : Local) (e : ℕ) → get_elem? an.heap p ≡ some l → l.extra ≡ some e → PointerFits Stop an e

-- A node with a local.
pub record NodeFits (Stop : Type 0) (an : Analysis) (id : ℕ) : Type 0 where
  pub mapped : map_get an.lm id ≡ none → Stop
  pub pointer : (p : ℕ) → map_get an.lm id ≡ some p → PointerFits Stop an p

-- A node with a local and the global behind it.
pub record ImportFits (Stop : Type 0) (an : Analysis) (id : ℕ) : Type 0 where
  pub node : NodeFits Stop an id
  pub extra : (p : ℕ) → map_get an.lm id ≡ some p → ExtraFits Stop an p

load_register-Keeps :
    {Stop : Type 0} (i : ℤ) (t : ℕ) (holes : List ℕ) → Keeps Stop holes (State.load_register i t)
unfolding State.load_register insn_len
load_register-Keeps (negsuc zero) t holes = search keeps
load_register-Keeps _ t holes = search keeps

depth-ne-none : (l : Local) → reg_p l ≡ false → depth l ≢ none
unfolding reg_p depth
depth-ne-none l = ground arith

module _ {Stop : Type 0} (an : Analysis) where
  pub set_local-Keeps :
      (p t : ℕ) (holes : List ℕ) → PointerFits Stop an p → Keeps Stop holes (State.set_local an p t)
  unfolding State.set_local State.local_at State.local_idx insn_len
  set_local-Keeps p t holes f = Keeps-need _ f.there λ l _. Keeps-need _ f.indexed λ i _.
      Keeps-branch (reg_p l) (λ r. Keeps-instr _ _ refl)
        λ r. Keeps-need _ (λ d. absurd (depth-ne-none l r d)) (λ d _. Keeps-instr _ _ refl)

  -- `get_local` keeps the layout of its branches: MOVR, SELF, or LVAR.
  pub get_local-Keeps :
      (p t : ℕ) (holes : List ℕ) → PointerFits Stop an p → Keeps Stop holes (State.get_local an p t)
  unfolding State.get_local State.local_at State.local_idx insn_len
  get_local-Keeps p t holes f = Keeps-need _ f.there λ l _. Keeps-need _ f.indexed λ i _.
      Keeps-branch (reg_p l) (λ r. load_register-Keeps i t holes)
        λ r. Keeps-need _ (λ d. absurd (depth-ne-none l r d)) (λ d _. Keeps-instr _ _ refl)

  pub get_extra-Keeps :
      (p t : ℕ) (holes : List ℕ) → ExtraFits Stop an p → Keeps Stop holes (Values.get_extra an p t)
  unfolding Values.get_extra State.local_at
  get_extra-Keeps p t holes f =
      Keeps-need _ f.there
        λ l here. Keeps-need _ (f.set l here) λ e is. get_local-Keeps e t holes (f.fits l e here is)

  pub local_of-Keeps :
      {B : Type 0} {holes : List ℕ} (m : Meta) {k : ℕ → M B}
      → NodeFits Stop an m.id
      → ((p : ℕ) → PointerFits Stop an p → Keeps Stop holes (k p))
      → Keeps Stop holes (State.local_of an m >>= k)
  unfolding State.local_of
  local_of-Keeps m f g = Keeps-need _ f.mapped λ p e. g p (f.pointer p e)

  pub local_of_extra-Keeps :
      {B : Type 0} {holes : List ℕ} (m : Meta) {k : ℕ → M B}
      → ImportFits Stop an m.id
      → ((p : ℕ) → PointerFits Stop an p → ExtraFits Stop an p → Keeps Stop holes (k p))
      → Keeps Stop holes (State.local_of an m >>= k)
  unfolding State.local_of
  local_of_extra-Keeps m f g =
      Keeps-need _ f.node.mapped λ p e. g p (f.node.pointer p e) (f.extra p e)

  pub ruleset locals = (keeps, local_of-Keeps, get_local-Keeps, set_local-Keeps)

  module _ (m : Meta) where
    drive_variable-Keeps :
        (l : Option ℕ) (name : Bytes)
        → ((p : ℕ) → l ≡ some p → PointerFits Stop an p)
        → DriveKeeps Stop (Values.drive_variable an l name)
    unfolding insn_len
    drive_variable-Keeps (some l) name h t holes = get_local-Keeps l t holes (h l refl)
    drive_variable-Keeps none name h t holes = search keeps

    pub drive_named-Keeps :
        (name : Bytes)
        → ((p : ℕ) → map_get an.lm m.id ≡ some p → PointerFits Stop an p)
        → DriveKeeps Stop (Values.drive_named an m name)
    unfolding Values.drive_named
    drive_named-Keeps name h t holes =
        search (keeps, drive_variable-Keeps (map_get an.lm m.id) name h)

    module _ (f : NodeFits Stop an m.id) where
      pub drive_self-Keeps : DriveKeeps Stop (Values.drive_self an m)
      unfolding Values.drive_self
      drive_self-Keeps t holes = search locals

      module _ (value : Drive) (v : DriveKeeps Stop value) where
        pub drive_assign-Keeps : DriveKeeps Stop (Values.drive_assign an m value)
        unfolding Values.drive_assign
        drive_assign-Keeps t holes = search (locals, v)

        pub drive_assign_op-Keeps :
            (op : Bytes) → DriveKeeps Stop (Values.drive_assign_op an m op value)
        unfolding Values.drive_assign_op insn_len
        drive_assign_op-Keeps op t holes = search (locals, v) depth 12

    module _ (f : ImportFits Stop an m.id) where
      pub drive_import-Keeps : (path : Bytes) → DriveKeeps Stop (Values.drive_import an m path)
      unfolding Values.drive_import insn_len
      drive_import-Keeps path t holes =
          search (keeps, local_of_extra-Keeps, get_extra-Keeps, set_local-Keeps) depth 20

      pub drive_import_one-Keeps :
          (path elem : Bytes) → DriveKeeps Stop (Values.drive_import_one an m path elem)
      unfolding Values.drive_import_one insn_len
      drive_import_one-Keeps path elem t holes =
          search (keeps, local_of_extra-Keeps, get_extra-Keeps, set_local-Keeps) depth 24 fits 5000
