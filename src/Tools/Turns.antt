-- ===== src/Tools/Turns.antt =====
-- Approvals across turns: the ids of tools.py, `_approval_id_for`, against the approvals that a
-- context carries over from an earlier turn.
use voyagent.Prelude.{
  ◌≡◌, refl, ◌≢◌, sym, ◌∙◌, Bool, true, false, none, some, [], ◌∷◌, ◌++◌, length, =?_iff, ◌=?◌,
  if_elim,
}
use voyagent.Prelude.Text.{Text, codes, text_key, append_left_cancel, append_inj}
use voyagent.Prelude.Dict.{Dict, lookup}
use voyagent.Tools.{
  Tool, Context, State, Externals, approval_needed, approval_id_for, role_denied, is_gated, gate,
  check_role, invoke_tool,
}

-- Ids of the same turn length agree only for one turn.
pub approval_id_for_inj :
    (t u a b : Text) → length t ≡ length u → approval_id_for t a ≡ approval_id_for u b → t ≡ u
unfolding approval_id_for
approval_id_for_inj t u a b h e =
    (append_inj t u (codes "-" ++ a) (codes "-" ++ b)
      (append_left_cancel (codes "ap-") (t ++ (codes "-" ++ a)) (u ++ (codes "-" ++ b)) e) h).0

-- Every approval of the map was asked for in the turn `old`.
abbrev pub FromTurn : Text → Dict Text Bool → Type 0
FromTurn old [] = Unit
FromTurn old ((key, _) ∷ d) = ((tool : Text) × (key ≡ approval_id_for old tool)) × FromTurn old d

lookup-FromTurn :
    (old new name : Text) (d : Dict Text Bool)
    → length old ≡ length new
    → old ≢ new
    → FromTurn old d
    → lookup (approval_id_for new name) d ≡ none
lookup-FromTurn old new name [] h n f = refl
lookup-FromTurn old new name ((key, granted) ∷ d) h n ((tool, e), f) =
    if_elim (key =? approval_id_for new name) (λ r. r ≡ none)
      (λ same. absurd (
        n (
          approval_id_for_inj old new tool name h
            (sym e ∙ (=?_iff key (approval_id_for new name)).0 same))))
      (λ other. lookup-FromTurn old new name d h n f)

module _ {W J : Type 0} (env : Externals W J) (registry : Dict Text (Tool W J)) where
  -- A gated call whose context carries only approvals from an earlier turn, with another turn id of
  -- the same length, is never run, even if a human has granted all of them: its approval is asked
  -- for again, under a new id, and nothing changes.
  pub invoke_tool-FromTurn :
      (old name : Text) (t : Tool W J) (input : J) (ctx : Context) (s : State W J)
      → lookup name registry ≡ some t
      → env.input_error t.spec.input_schema input ≡ none
      → role_denied t.spec ctx.actor_role ≡ false
      → is_gated t.spec ≡ true
      → length old ≡ length ctx.turn_id
      → old ≢ ctx.turn_id
      → FromTurn old ctx.approvals
      → ((invoke_tool env registry name input ctx s).0 ≡ s)
        × ((invoke_tool env registry name input ctx s).1.kind ≡ approval_needed)
        × ((invoke_tool env registry name input ctx s).1.approval_id
            ≡ some (approval_id_for ctx.turn_id name))
  unfolding invoke_tool check_role gate
  invoke_tool-FromTurn old name t input ctx s f v r g h n a =
      let e = lookup-FromTurn old ctx.turn_id name ctx.approvals h n a in
      rw (f, invoke_tool, v, r, g, e) (refl, refl, refl)
