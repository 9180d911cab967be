-- ===== src/Auth/InviteEnds.antt =====
-- The life of an invite in services/api/src/voyagent_api/auth_inhouse/service.py.
use mathlib.Core.Bool.{false≢true}
use voyagent.Prelude.{
  ◌≡◌, ◌≢◌, refl, sym, ◌∙◌, true, ◌&&◌, Option, none, some, List, [], ◌∷◌, if_elim, Option-elim,
  All, All-map, Always, All-Always, is_some, arith,
}
use voyagent.Prelude.Text.{Text, eq_text}
use voyagent.Prelude.Dict.{none≢some}
use voyagent.Prelude.Tables.{find_where}
use voyagent.Auth.Types.{
  InviteStatusEnum, pending, InviteRow, Db, Env, invite_already_exists, ok, error,
}
use voyagent.Auth.Repository.{find_pending_for_email, insert_invite, new_invite, collides}
use voyagent.Auth.Service.{Call}
use voyagent.Auth.Invites.{create_invite}
use voyagent.Auth.Requests.{Request, serve_all}
use voyagent.Auth.Kept.{Invariant, IsClosed, Admits}
use voyagent.Auth.History.{serve_all-Holds}

-- The invite with an id has a status, if it is there.
abbrev pub HasStatus : Text → InviteStatusEnum → InviteRow → Type 0
HasStatus id status r = r.id ≡ id → r.status ≡ status

abbrev Ended : Text → InviteStatusEnum → Invariant
Ended id status = record {
  OfRefresh = Always;
  OfInvite = HasStatus id status;
  OfVerification = Always;
  OfReset = Always;
}

Ended-IsClosed :
    (id : Text) (status : InviteStatusEnum) → status ≢ pending → IsClosed (Ended id status)
Ended-IsClosed id status done = record {
  revoking = λ env r p. tt;
  closing = λ env found r q e i p. (
    λ same. absurd (done (sym (q (sym i ∙ same)) ∙ e)),
    λ same. absurd (done (sym (q (sym i ∙ same)) ∙ e)),
  );
  taking_verification = λ token tokens h. tt;
  taking_reset = λ token tokens h. tt;
}

Ended-Admits :
    (id : Text) (status : InviteStatusEnum) (env : Env)
    → env.new_invite_id ≢ id
    → Admits (Ended id status) env
Ended-Admits id status env new = record {
  minting = λ user_id. tt;
  inviting = λ tenant_id invited_by email role same. absurd (new same);
  putting_verification = λ user_id exp tokens h. tt;
  putting_reset = λ user_id exp tokens h. tt;
}

-- An invite that is accepted, revoked or expired keeps that status for ever: under any sequence of
-- requests that draw no second invite with its id.
pub serve_all-Ended :
    (id : Text) (status : InviteStatusEnum) (requests : List (Env × Request)) (db : Db)
    → status ≢ pending
    → All (λ s. s.0.new_invite_id ≢ id) requests
    → All (HasStatus id status) db.invites
    → All (HasStatus id status) (serve_all requests db).invites
serve_all-Ended id status requests db done news h =
    (serve_all-Holds (Ended id status) (Ended-IsClosed id status done) requests db
      (All-map (λ s n. Ended-Admits id status s.0 n) requests news)
      (All-Always db.refresh_tokens, (h, (tt, tt)))).1.0

-- No invite is created for an address of a tenant that has one already, whatever the status of that
-- one: also not after it was revoked, was accepted or has expired.
pub create_invite-occupied :
    (env : Env) (tenant_id invited_by email role : Text) (db : Db) (r : InviteRow)
    → find_where
        (λ i.
          eq_text i.tenant_id tenant_id
          && eq_text (env.lower i.email) (env.lower (env.lower email)))
        db.invites
      ≡ some r
    → create_invite env tenant_id invited_by email role db ≡ (error invite_already_exists, db)
unfolding create_invite insert_invite
create_invite-occupied env tenant_id invited_by email role db r there =
    Option-elim (find_pending_for_email env tenant_id email db)
      (λ (c : Call (InviteRow × Text)). c ≡ (error invite_already_exists, db))
      (λ none_open.
        if_elim (is_some (find_where (collides env row) db.invites))
          (λ (o : Option Db).
            (elim o as (λ _. Call (InviteRow × Text)) [
              | none ↦ (error invite_already_exists, db)
              | some db' ↦ (ok (row, env.new_token), db')
            ])
            ≡ (error invite_already_exists, db))
          (λ taken. refl) (λ free. absurd (false≢true (sym free ∙ occupied db.invites there))))
      (λ existing found. refl)
  where
    row : InviteRow
    row = new_invite env tenant_id invited_by email role (env.sha256 env.new_token)

    occupied :
        (rows : List InviteRow)
        → find_where
            (λ i.
              eq_text i.tenant_id tenant_id
              && eq_text (env.lower i.email) (env.lower (env.lower email)))
            rows
          ≡ some r
        → is_some (find_where (collides env row) rows) ≡ true
    occupied [] e = absurd (none≢some r e)
    occupied (i ∷ rows) e = ground (arith, occupied rows)
