-- ===== src/Tools/Tests.antt =====
-- Calls of two tools, with handlers that count their runs and JSON values that are numbers.
use mathlib.Core.Bool.{false≢true}
use voyagent.Prelude.{
  ℕ, ◌+◌, ◌≡◌, refl, sym, ap, ◌⊎◌, Bool, true, false, none, some, [], ◌∷◌, ◌==◌, if◌then◌else◌,
}
use voyagent.Prelude.Text.{Text, codes, eq_text, text_key}
use voyagent.Prelude.Dict.{Dict}
use voyagent.Tools.{
  Tool, Context, human, State, Externals, returned, approval_needed, register_tool, approval_id_for,
  role_denied, is_gated, judge, attempt_once, run_attempts, settle, execute, gate, check_role,
  invoke_tool,
}
use voyagent.Tools.Gate.{Permitted, Refused, invoke_tool_gate}
use voyagent.Tools.Trail.{Trail}
use voyagent.Tools.Turns.{invoke_tool-FromTurn}
use voyagent.Tools.Output.{Executed, execute_attempts}

-- Inputs above 99 are invalid; an output must not be 0.
abbrev env : Externals ℕ ℕ
env = record {
  input_error = λ schema x. if x == 100 then some (codes "too large") else none;
  output_error = λ schema x. if x == 0 then some (codes "zero") else none;
  approval_summaries = [];
  brief = λ x. codes "x";
  reading = λ w. record { id = w ∷ []; now = w };
  is_dict = λ x. true;
  empty_dict = 0;
  jsonable = λ x. x;
}

-- It gives 0 first, and 7 once it is told that 0 was rejected.
abbrev issue_ticket : Tool ℕ ℕ
issue_ticket = record {
  spec = record {
    name = codes "issue_ticket";
    input_schema = 0;
    output_schema = some 0;
    side_effect = true;
    approval_required = true;
    approval_roles = codes "agency_admin" ∷ [];
  };
  handler =
      λ input ctx hint w. elim hint [ none ↦ (w + 1, returned 0) | some m ↦ (w + 1, returned 7) ];
}

abbrev registry : Dict Text (Tool ℕ ℕ)
registry = (codes "issue_ticket", issue_ticket) ∷ []

abbrev context : Text → Text → Dict Text Bool → Context
context turn role approvals = record {
  tenant_id = codes "t";
  actor_id = codes "a";
  actor_kind = human;
  session_id = codes "s";
  turn_id = turn;
  actor_role = role;
  approvals = approvals;
}

abbrev begin : State ℕ ℕ
begin = record { world = 10; audits = []; last_output_error = none }

abbrev approved : Context
approved = context (codes "t-1") (codes "agency_admin") ((codes "ap-t-1-issue_ticket", true) ∷ [])

-- The next turn, with the approval that was granted in the turn before.
abbrev next_turn : Context
next_turn = context (codes "t-2") (codes "agency_admin") ((codes "ap-t-1-issue_ticket", true) ∷ [])

registers_once : register_tool issue_ticket registry ≡ none
unfolding register_tool
registers_once = refl

run_approved :
    let r = invoke_tool env registry (codes "issue_ticket") 1 approved begin in
    (r.0.world ≡ 12) × (r.1.output ≡ some 7) × (r.0.last_output_error ≡ some (codes "zero"))
unfolding invoke_tool check_role role_denied gate is_gated approval_id_for execute run_attempts
    attempt_once judge settle
run_approved = (refl, refl, refl)

invoke_tool_gate_example :
    ((t : Tool ℕ ℕ) × Permitted env registry (codes "issue_ticket") 1 approved t
      × (invoke_tool env registry (codes "issue_ticket") 1 approved begin
          ≡ execute env (codes "issue_ticket") t 1 approved begin))
    ⊎ (((t : Tool ℕ ℕ) → ¬ Permitted env registry (codes "issue_ticket") 1 approved t)
        × Refused env registry
            (codes "issue_ticket")
            1
            approved
            begin
            (invoke_tool env registry (codes "issue_ticket") 1 approved begin).0
            (invoke_tool env registry (codes "issue_ticket") 1 approved begin).1)
invoke_tool_gate_example = invoke_tool_gate env registry (codes "issue_ticket") 1 approved begin

invoke_tool-FromTurn_example :
    let r = invoke_tool env registry (codes "issue_ticket") 1 next_turn begin in
    (r.0 ≡ begin)
    × (r.1.kind ≡ approval_needed)
    × (r.1.approval_id ≡ some (approval_id_for (codes "t-2") (codes "issue_ticket")))
unfolding role_denied is_gated approval_id_for
invoke_tool-FromTurn_example =
    invoke_tool-FromTurn env registry (codes "t-1") (codes "issue_ticket") issue_ticket 1 next_turn
      begin refl refl refl refl refl
      (λ e. (let h : true ≡ false = ap (eq_text (codes "t-1")) e in false≢true (sym h)))
      ((codes "issue_ticket", refl), tt)

execute_attempts_example :
    Executed env
      (codes "issue_ticket")
      issue_ticket
      1
      approved
      begin
      (execute env (codes "issue_ticket") issue_ticket 1 approved begin)
execute_attempts_example = execute_attempts env (codes "issue_ticket") issue_ticket 1 approved begin
