-- ===== src/Codegen/Layout/Sends.antt =====
-- vm/ast.cpp: calls and collections keep the layout.
use marius.Local.{map_get}
use marius.Base.{refl, arith, ◌≡◌, ℕ, Option, none, some, List, [], ◌∷◌}
use marius.Ast.{Bytes, ArgMap, Meta, Special}
use marius.Instruction.{insn_len}
use marius.Codegen.State.{Analysis}
use marius.Codegen.Values.{Drive}
use marius.Codegen.Sends
use marius.Codegen.Sends.{Driven, no_args, some_args, markov_local}
use marius.Codegen.Layout.Rules.{Keeps, Keeps-pure, Keeps-then, keeps}
use marius.Codegen.Layout.Values.{DriveKeeps}
use marius.Codegen.Layout.Locals.{PointerFits, NodeFits, local_of-Keeps, get_local-Keeps}

abbrev pub DrivenKeeps : Type 0 → Driven → Type 0
DrivenKeeps Stop no_args = Unit
DrivenKeeps Stop (some_args drive n kw) = DriveKeeps Stop drive

module _ {Stop : Type 0} where
  positional-Keeps : (as' : Driven) → DrivenKeeps Stop as' → DriveKeeps Stop (Sends.positional as')
  positional-Keeps no_args h t holes = Keeps-pure tt
  positional-Keeps (some_args drive n kw) h t holes = h t holes

  send_insn-Keeps :
      (kw : ArgMap) (t name n : ℕ) (holes : List ℕ) → Keeps Stop holes (Sends.send_insn kw t name n)
  unfolding Sends.send_insn insn_len
  send_insn-Keeps [] t name n holes = search keeps
  send_insn-Keeps (k ∷ kw) t name n holes = search keeps

  pub drive_send_indirect-Keeps :
      (name recv : Drive) (as' : Driven)
      → DriveKeeps Stop name
      → DriveKeeps Stop recv
      → DrivenKeeps Stop as'
      → DriveKeeps Stop (Sends.drive_send_indirect name recv as')
  unfolding Sends.drive_send_indirect insn_len
  drive_send_indirect-Keeps name recv as' hn hr ha t holes =
      search (keeps, hn, hr, positional-Keeps as' ha)

  pub drive_cast-Keeps :
      (m : Meta) (value type : Drive)
      → DriveKeeps Stop value
      → DriveKeeps Stop type
      → DriveKeeps Stop (Sends.drive_cast m value type)
  unfolding Sends.drive_cast insn_len
  drive_cast-Keeps m value type hv ht t holes = search (keeps, hv, ht) depth 12

  module _ (m : Meta) (as' : Driven) (ha : DrivenKeeps Stop as') where
    pub drive_tuple-Keeps : DriveKeeps Stop (Sends.drive_tuple m as')
    unfolding Sends.drive_tuple insn_len
    drive_tuple-Keeps t holes = search (keeps, positional-Keeps as' ha)

    pub drive_list-Keeps : DriveKeeps Stop (Sends.drive_list m as')
    unfolding Sends.drive_list insn_len
    drive_list-Keeps t holes = search (keeps, positional-Keeps as' ha)

  drive_cascade_send-Keeps : (name : Bytes) → DriveKeeps Stop (Sends.drive_cascade_send name)
  unfolding Sends.drive_cascade_send insn_len
  drive_cascade_send-Keeps name t holes = search keeps

  drive_messages-Keeps : (messages : List Bytes) → DriveKeeps Stop (Sends.drive_messages messages)
  unfolding Sends.drive_messages
  drive_messages-Keeps [] t holes = Keeps-pure tt
  drive_messages-Keeps (name ∷ names) t holes =
      Keeps-then (drive_cascade_send-Keeps name t holes) (drive_messages-Keeps names t holes)

  pub drive_cascade-Keeps :
      (m : Meta) (recv : Drive) (messages : List Bytes)
      → DriveKeeps Stop recv
      → DriveKeeps Stop (Sends.drive_cascade m recv messages)
  unfolding Sends.drive_cascade insn_len
  drive_cascade-Keeps m recv messages hr t holes = search (keeps, hr, drive_messages-Keeps messages)

markov_local-some :
    (an : Analysis) (m : Meta) (spec : Special) (p : ℕ)
    → markov_local an m spec ≡ some p
    → map_get an.lm m.id ≡ some p
markov_local-some an m spec p e = ground arith

module _ {Stop : Type 0} (an : Analysis) (m : Meta) where
  drive_apply-Keeps :
      (l : ℕ) (as' : Driven)
      → PointerFits Stop an l
      → DrivenKeeps Stop as'
      → DriveKeeps Stop (Sends.drive_apply an m l as')
  unfolding Sends.drive_apply
  drive_apply-Keeps l as' f ha t holes =
      search (keeps, get_local-Keeps, positional-Keeps as' ha, send_insn-Keeps) depth 12

  module _ (name : Bytes) (recv : Drive) (as' : Driven) (spec : Special) where
    drive_call-Keeps :
        DriveKeeps Stop recv
        → DrivenKeeps Stop as'
        → DriveKeeps Stop (Sends.drive_call an m name recv as' spec)
    unfolding Sends.drive_call
    drive_call-Keeps hr ha t holes =
        search (keeps, hr, positional-Keeps as' ha, send_insn-Keeps) depth 12

    pub drive_send-Keeps :
        ((p : ℕ) → map_get an.lm m.id ≡ some p → PointerFits Stop an p)
        → DriveKeeps Stop recv
        → DrivenKeeps Stop as'
        → DriveKeeps Stop (Sends.drive_send an m name recv as' spec)
    unfolding Sends.drive_send
    drive_send-Keeps f hr ha t holes =
        go (markov_local an m spec) (λ p e. f p (markov_local-some an m spec p e))
      where
        go :
            (l : Option ℕ)
            → ((p : ℕ) → l ≡ some p → PointerFits Stop an p)
            → Keeps Stop holes (elim l [
              | some p ↦ Sends.drive_apply an m p as' t
              | none ↦ Sends.drive_call an m name recv as' spec t
            ])
        go (some p) h = drive_apply-Keeps p as' (h p refl) ha t holes
        go none h = drive_call-Keeps hr ha t holes

  pub drive_dictionary-Keeps :
      (values : Drive) (n : ℕ) (kw : ArgMap)
      → NodeFits Stop an m.id
      → DriveKeeps Stop values
      → DriveKeeps Stop (Sends.drive_dictionary an m values n kw)
  unfolding Sends.drive_dictionary insn_len
  drive_dictionary-Keeps values n kw f hv t holes =
      search (keeps, hv, local_of-Keeps, get_local-Keeps) depth 12
