-- ===== src/Tools/Gate.antt =====
-- What the gate lets through: `invoke_tool` of tools.py, steps 1 to 3.
use voyagent.Prelude.{
  ◌≡◌, refl, ap, ◌∙◌, ◌⊎◌, inl, inr, true, false, none, some, if_elim, Option-elim,
}
use voyagent.Prelude.Text.{Text, text_key}
use voyagent.Prelude.Dict.{Dict, lookup}
use voyagent.Tools.{
  Tool, Context, State, Externals, Outcome, AuditEvent, rejected, error, approval_needed,
  permission_denied, unknown_tool, invalid_input, approval_denied, approval_id_for, role_denied,
  is_gated, rejected_audit, write_audit, execute, gate, check_role, invoke_tool,
}

module _ {W J : Type 0} (env : Externals W J) (registry : Dict Text (Tool W J)) where
  -- Everything that must hold before a handler runs.
  pub record Permitted (name : Text) (input : J) (ctx : Context) (t : Tool W J) : Type 0 where
    pub found : lookup name registry ≡ some t
    pub valid : env.input_error t.spec.input_schema input ≡ none
    pub role : role_denied t.spec ctx.actor_role ≡ false
    pub approved :
        is_gated t.spec ≡ true → lookup (approval_id_for ctx.turn_id name) ctx.approvals ≡ some true

  -- Why a call is turned away, what it leaves, and what it answers: the first of the tests that fails
  -- decides. Only the log may change, by one rejected row.
  pub data Refused (name : Text) (input : J) (ctx : Context) (s : State W J)
      : State W J → Outcome J → Type 0 where
    unknown :
        (r : Outcome J)
        → lookup name registry ≡ none
        → r.kind ≡ error
        → r.error_message ≡ some (unknown_tool name)
        → Refused name input ctx s s r
    invalid :
        (t : Tool W J) (message : Text) (r : Outcome J)
        → lookup name registry ≡ some t
        → env.input_error t.spec.input_schema input ≡ some message
        → r.kind ≡ error
        → r.error_message ≡ some (invalid_input name message)
        → Refused name input ctx s s r
    forbidden :
        (t : Tool W J) (e : AuditEvent J) (r : Outcome J)
        → lookup name registry ≡ some t
        → env.input_error t.spec.input_schema input ≡ none
        → role_denied t.spec ctx.actor_role ≡ true
        → e.status ≡ rejected
        → r.kind ≡ permission_denied
        → r.audit_id ≡ some e.id
        → Refused name input ctx s (write_audit e s) r
    unanswered :
        (t : Tool W J) (r : Outcome J)
        → lookup name registry ≡ some t
        → env.input_error t.spec.input_schema input ≡ none
        → role_denied t.spec ctx.actor_role ≡ false
        → is_gated t.spec ≡ true
        → lookup (approval_id_for ctx.turn_id name) ctx.approvals ≡ none
        → r.kind ≡ approval_needed
        → r.approval_id ≡ some (approval_id_for ctx.turn_id name)
        → Refused name input ctx s s r
    denied :
        (t : Tool W J) (e : AuditEvent J) (r : Outcome J)
        → lookup name registry ≡ some t
        → env.input_error t.spec.input_schema input ≡ none
        → role_denied t.spec ctx.actor_role ≡ false
        → is_gated t.spec ≡ true
        → lookup (approval_id_for ctx.turn_id name) ctx.approvals ≡ some false
        → e.status ≡ rejected
        → r.kind ≡ error
        → r.error_message ≡ some (approval_denied name)
        → r.audit_id ≡ some e.id
        → Refused name input ctx s (write_audit e s) r

  -- Either all conditions hold and the call is `execute`, or it is turned away.
  abbrev Gated : Text → J → Context → State W J → State W J × Outcome J → Type 0
  Gated name input ctx s r =
      ((t : Tool W J) × Permitted name input ctx t × (r ≡ execute env name t input ctx s))
      ⊎ (((t : Tool W J) → ¬ Permitted name input ctx t) × Refused name input ctx s r.0 r.1)

  gate_cases :
      (name : Text) (t : Tool W J) (input : J) (ctx : Context) (s : State W J)
      → lookup name registry ≡ some t
      → env.input_error t.spec.input_schema input ≡ none
      → role_denied t.spec ctx.actor_role ≡ false
      → Gated name input ctx s (gate env name t input ctx s)
  unfolding gate rejected_audit
  gate_cases name t input ctx s f v r =
      let only : (u : Tool W J) → lookup name registry ≡ some u → t ≡ u = λ u e. cc in
      if_elim (is_gated t.spec) (Gated name input ctx s)
        (λ gated.
          Option-elim (lookup (approval_id_for ctx.turn_id name) ctx.approvals)
            (Gated name input ctx s)
            (λ missing. inr (
              λ u p.
                  (let p' : Permitted name input ctx t = rw (← only u p.found) at p in
                    let e = p'.approved gated in cc),
              unanswered t _ f v r gated missing refl refl,
            ))
            (λ granted known.
              if_elim granted (Gated name input ctx s)
                (λ yes. inl (
                  t,
                  record { found = f; valid = v; role = r; approved = λ g. known ∙ ap some yes },
                  refl,
                ))
                (λ no. inr (
                  λ u p.
                      (let p' : Permitted name input ctx t = rw (← only u p.found) at p in
                        let e = p'.approved gated in cc),
                  denied t _ _ f v r gated (known ∙ ap some no) refl refl refl refl,
                ))))
        (λ free. inl (t, record { found = f; valid = v; role = r; approved = λ g. cc }, refl))

  -- The handler of a tool runs exactly when the tool is registered, its input is valid, the role of
  -- the actor may approve it, and, if it has side effects and wants approval, the approval of this
  -- tool in this turn was granted, whatever input it was asked for with; the call then is `execute`.
  -- In all other cases the first test that fails decides the outcome: an error for a tool that is
  -- not registered, an invalid input or a denied approval, `permission_denied` for the role,
  -- `approval_needed` with the approval's id where nobody has answered. The handler's world and the
  -- context are then untouched, and the log gains one rejected row for the role and for a denial,
  -- else nothing.
  pub invoke_tool_gate :
      (name : Text) (input : J) (ctx : Context) (s : State W J)
      → ((t : Tool W J) × Permitted name input ctx t
          × (invoke_tool env registry name input ctx s ≡ execute env name t input ctx s))
        ⊎ (((t : Tool W J) → ¬ Permitted name input ctx t)
            × Refused name input ctx s
                (invoke_tool env registry name input ctx s).0
                (invoke_tool env registry name input ctx s).1)
  unfolding invoke_tool check_role rejected_audit
  invoke_tool_gate name input ctx s =
      Option-elim (lookup name registry) (Gated name input ctx s)
        (λ missing. inr (λ u p. (let e = p.found in cc), unknown _ missing refl refl))
        (λ t f.
          let only : (u : Tool W J) → lookup name registry ≡ some u → t ≡ u = λ u e. cc in
          Option-elim (env.input_error t.spec.input_schema input) (Gated name input ctx s)
            (λ v.
              if_elim (role_denied t.spec ctx.actor_role) (Gated name input ctx s)
                (λ no. inr (
                  λ u p.
                      (let p' : Permitted name input ctx t = rw (← only u p.found) at p in
                        let e = p'.role in cc),
                  forbidden t _ _ f v no refl refl refl,
                ))
                (λ yes. gate_cases name t input ctx s f v yes))
            (λ message bad. inr (
              λ u p.
                  (let p' : Permitted name input ctx t = rw (← only u p.found) at p in
                    let e = p'.valid in cc),
              invalid t message _ f bad refl refl,
            )))
