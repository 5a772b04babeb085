-- ===== src/Tests/Sessions/Runs.antt =====
-- Runs of logins, refreshes and logouts.
use launlog_api.Prelude.{true, false, none, some, ◌∷◌, ◌≡◌, refl}
use launlog_api.Prelude.Text.{codes, is_space, trim_space}
use launlog_api.Effect.{
  ok, err, unauthorized, pure, asks, lift, ◌>>=◌, raise_if, query, query_one, insert_one, exec,
  or_no_rows, or_error, transaction,
}
use launlog_api.Sessions.{decoded}
use launlog_api.Sessions.Tokens.{new_access_token, parse_access_token, subject_id, parse_int64}
use launlog_api.Sessions.Login.{login, identity}
use launlog_api.Sessions.Issue.{
  issue_body, authorization, new_refresh_token, response, create_session, client_user_agent,
  audit_session,
}
use launlog_api.Query.Sessions as Sql
use launlog_api.Sessions.Refresh.{refresh, refresh_body, rotate}
use launlog_api.Sessions.Logout.{logout, logout_body}
use launlog_api.Sessions.Authenticate.{
  authenticate, principal_of, session_query, split_fields, fields,
}
use launlog_api.Tests.{healthy}
use launlog_api.Tests.Sessions.{
  owner_user, library, lifetimes, client, home, with_random, token, signed_in, refreshed, answer,
  bearer, twice, logged_out,
}

pub login_runs :
    login library lifetimes client
      (decoded (record { email = codes " a@b.c"; password = codes "pw" }))
      (with_random (codes "r"))
      home
    ≡ (ok (answer (codes "r") 1), signed_in)
unfolding login issue_body authorization new_refresh_token response create_session client_user_agent
    audit_session pure asks lift ◌>>=◌ raise_if query query_one insert_one exec or_no_rows or_error
    transaction new_access_token Sql.get_user_for_login Sql.list_user_outlet_ids
    Sql.list_user_outlets Sql.list_user_permission_codes Sql.create_session_family
    Sql.create_refresh_token Sql.insert_audit_log trim_space is_space
login_runs = refl

pub login_issues :
    transaction
      (issue_body library lifetimes client (identity owner_user))
      (with_random (codes "r"))
      home
    ≡ (ok (answer (codes "r") 1), signed_in)
unfolding issue_body authorization new_refresh_token response create_session client_user_agent
    audit_session pure asks lift ◌>>=◌ raise_if query query_one insert_one exec or_no_rows or_error
    transaction new_access_token Sql.list_user_outlet_ids Sql.list_user_outlets
    Sql.list_user_permission_codes Sql.create_session_family Sql.create_refresh_token
    Sql.insert_audit_log
login_issues = refl

pub refresh_presents :
    transaction
      (refresh_body library lifetimes client (token 1 1 (codes "r") none) (0 ∷ codes "r"))
      (with_random (codes "s"))
      signed_in
    ≡ (ok (some (answer (codes "s") 2)), refreshed)
unfolding refresh_body rotate authorization new_refresh_token response client_user_agent
    audit_session pure asks lift ◌>>=◌ raise_if query query_one insert_one exec or_no_rows or_error
    transaction new_access_token Sql.token_of_hash Sql.lock_session_family Sql.get_active_user
    Sql.list_user_outlet_ids Sql.list_user_outlets Sql.list_user_permission_codes
    Sql.revoke_refresh_token Sql.create_refresh_token Sql.insert_audit_log
refresh_presents = refl

pub refresh_runs :
    refresh library lifetimes client (decoded (codes "r")) (with_random (codes "s")) signed_in
    ≡ (ok (answer (codes "s") 2), refreshed)
unfolding refresh refresh_body rotate authorization new_refresh_token response client_user_agent
    audit_session pure asks lift ◌>>=◌ raise_if query query_one insert_one exec or_no_rows or_error
    transaction new_access_token Sql.token_of_hash Sql.lock_session_family Sql.get_active_user
    Sql.list_user_outlet_ids Sql.list_user_outlets Sql.list_user_permission_codes
    Sql.revoke_refresh_token Sql.create_refresh_token Sql.insert_audit_log
refresh_runs = refl

pub logout_runs :
    logout library client (bearer 1) (decoded (codes "r")) healthy twice ≡ (ok tt, logged_out)
unfolding logout logout_body client_user_agent audit_session pure lift ◌>>=◌ raise_if query
    query_one insert_one exec or_error transaction Sql.token_of_hash Sql.lock_session_family
    Sql.get_refresh_token_by_id Sql.revoke_session_family Sql.insert_audit_log
logout_runs = refl

pub other_authenticates :
    authenticate library false (codes "Bearer aa") healthy logged_out ≡ (ok (bearer 2), logged_out)
unfolding authenticate principal_of session_query split_fields fields is_space subject_id
    parse_int64 parse_access_token pure asks lift ◌>>=◌ raise_if query query_one or_error
    Sql.get_active_refresh_session Sql.get_active_user Sql.list_user_outlet_ids
    Sql.list_user_permission_codes
other_authenticates = refl

pub logged_out_refused :
    authenticate library true (codes "Bearer a") healthy logged_out ≡ (err unauthorized, logged_out)
unfolding authenticate principal_of session_query split_fields fields is_space subject_id
    parse_int64 parse_access_token pure asks lift ◌>>=◌ raise_if query query_one or_error
    Sql.get_logout_session Sql.get_active_user Sql.list_user_outlet_ids
    Sql.list_user_permission_codes
logged_out_refused = refl
