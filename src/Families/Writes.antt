-- ===== src/Families/Writes.antt =====
-- What the transactions of logins, refreshes and logouts write when they succeed.
use launlog_api.Prelude.{ℕ, ◌+◌, true, false, some, List, ◌≡◌, refl, ap, find?, eq_text, arith}
use launlog_api.Prelude.Text.{Text}
use launlog_api.Store.{Db, SessionFamily, RefreshToken, Role}
use launlog_api.Effect.{Env, or_error, query_one, unauthorized, lock_session_family}
use launlog_api.Effect.Hoare.{
  Ensures, Reads, Ensures-pure, Ensures-or_error, Ensures-query_one, Ensures-bind, Ensures-if,
  Ensures-exec, after_read, after_asks, after_query, after_lift, after_raise_if, after_insert_one,
  after_exec,
}
use launlog_api.Query.Creation.{is_absent}
use launlog_api.Query.Sessions.{is_family, is_token}
use launlog_api.Query.Sessions as Sql
use launlog_api.Sessions.{Library, Lifetimes, Client, Principal, TenantIdentity}
use launlog_api.Sessions.Issue.{
  authorization, new_refresh_token, response, create_session, audit_session, issue_body,
}
use launlog_api.Sessions.Refresh.{contain, rotate, refresh_body}
use launlog_api.Sessions.Logout.{logout_body}
use launlog_api.Families.{tables_of, opened, rotated}
use launlog_api.Families.Outcomes.{Opens, Locked, Presented, Ends, Refreshes}

module _ (lib : Library) (ttl : Lifetimes) (env : Env) where
  authorization-Reads :
      (db : Db) (b u : ℕ) (role : Role) → Reads env (authorization lib b u role) db (λ _. Unit)
  unfolding authorization
  authorization-Reads db b u role =
      after_query _ _ _ (after_raise_if _ _ _ λ _. after_query _ _ _ (Ensures-pure _ (refl, tt)))

  new_refresh_token-Reads :
      (db : Db)
      → Reads env
          (new_refresh_token lib)
          db
          λ p. (env.random ≡ some p.0) × (p.1 ≡ lib.hash_refresh_token p.0)
  unfolding new_refresh_token
  new_refresh_token-Reads db =
      after_asks _ _ (after_lift _ _ λ raw h. Ensures-pure _ (refl, (ground arith, refl)))

  response-Reads :
      (db : Db) (u : TenantIdentity) (sid : ℕ) (refresh : Text) (expiry : ℕ) (outs : List ℕ)
      (perms : List Text)
      → Reads env
          (response lib ttl u sid refresh expiry outs perms)
          db
          λ r. r.refresh_token ≡ refresh
  unfolding response
  response-Reads db u sid refresh expiry outs perms =
      after_query _ _ _ (after_asks _ _ (after_lift _ _ λ access _. Ensures-pure _ (refl, refl)))

  -- `Create` opens a family.
  create_session-Opens :
      (u : TenantIdentity) (outs : List ℕ) (perms : List Text) (db : Db)
      → Ensures env (create_session lib ttl u outs perms) db (λ p d. Opens lib u env db p.0 d)
  unfolding create_session Sql.create_session_family Sql.create_refresh_token
  create_session-Opens u outs perms db = after_insert_one _ _ _ (
      after_read _ _ (new_refresh_token-Reads _) λ token is_token. after_asks _ _ (
        after_insert_one _ _ _ (
          after_read _ _ (response-Reads _ _ _ _ _ _ _) λ r answers. Ensures-pure _ (record {
            raw = token.0;
            expires_at = env.clock + ttl.refresh_ttl;
            issued = record { generated = is_token.0; answers = answers };
            leaves =
                ap
                  (λ hash.
                    opened u.business_id u.id hash (env.clock + ttl.refresh_ttl) (tables_of db))
                  is_token.1;
          }))))

  pub issue_body-Opens :
      (c : Client) (u : TenantIdentity) (db : Db)
      → Ensures env (issue_body lib ttl c u) db (Opens lib u env db)
  unfolding issue_body audit_session Sql.insert_audit_log
  issue_body-Opens c u db =
      after_read _ _ (Ensures-or_error _ _ (authorization-Reads db _ _ _)) λ granted _.
        Ensures-bind _ _ (create_session-Opens u granted.0 granted.1 db) λ p d o. after_exec _ _ _ (
          Ensures-pure _ (record {
            raw = o.raw;
            expires_at = o.expires_at;
            issued = o.issued;
            leaves = o.leaves;
          }))

  pub rotate-Rotates :
      (c : Client) (hash : Text) (family : SessionFamily) (session : RefreshToken) (db : Db)
      → Presented db hash family session
      → is_absent session.revoked_at ≡ true
      → Ensures env (rotate lib ttl c family session) db (Refreshes lib ttl hash env db)
  unfolding rotate audit_session Sql.create_refresh_token Sql.revoke_refresh_token
      Sql.insert_audit_log
  rotate-Rotates c hash family session db presented live = after_asks _ _ (
      after_raise_if _ _ _ λ unexpired.
        after_read _ _ {S = λ _. Unit}
          (Ensures-or_error _ _ (Ensures-query_one _ _ λ u _. (refl, tt)))
          λ u _. after_read _ _ (Ensures-or_error _ _ (authorization-Reads db _ _ _)) λ granted _.
            after_read _ _ (new_refresh_token-Reads db) λ token is_token. after_insert_one _ _ _ (
              after_read _ _ (response-Reads _ _ _ _ _ _ _) λ r answers. after_insert_one _ _ _ (
                after_raise_if _ _ _ λ one. after_exec _ _ _ (
                  Ensures-pure _ (record {
                    family = family;
                    session = session;
                    presented = presented;
                    live = live;
                    unexpired = unexpired;
                    b = u.business_id;
                    u = u.id;
                    raw = token.0;
                    issued = record { generated = is_token.0; answers = answers };
                    leaves =
                        ap
                          (λ hash.
                            rotated session u.business_id u.id family.id hash
                              (env.clock + ttl.refresh_ttl) env.now (tables_of db))
                          is_token.1;
                  })))))

  contain-Contains :
      (c : Client) (hash : Text) (family : SessionFamily) (session : RefreshToken) (db : Db)
      → Presented db hash family session
      → is_absent session.revoked_at ≡ false
      → Ensures env (contain c family) db (Refreshes lib ttl hash env db)
  unfolding contain audit_session Sql.revoke_session_family Sql.insert_audit_log
  contain-Contains c hash family session db presented consumed = after_exec _ _ _ (
      after_exec _ _ _ (
        Ensures-pure _ (record {
          family = family;
          session = session;
          presented = presented;
          consumed = consumed;
          leaves = refl;
        })))

  lock_family-Locked :
      (i b u : ℕ) (db : Db)
      → Reads env
          (or_error unauthorized (query_one lock_session_family (Sql.lock_session_family i b u)))
          db
          (λ family. find? (is_family i b u) db.session_families ≡ some family)
  unfolding Sql.lock_session_family
  lock_family-Locked i b u db =
      Ensures-or_error _ _ (Ensures-query_one _ _ λ family found. (refl, found))

  -- Whatever was looked up before it, the transaction of a refresh goes by the rows it locks.
  pub refresh_body-Refreshes :
      (c : Client) (lookup : RefreshToken) (hash : Text) (db : Db)
      → Ensures env (refresh_body lib ttl c lookup hash) db (Refreshes lib ttl hash env db)
  unfolding refresh_body Sql.token_of_hash
  refresh_body-Refreshes c lookup hash db =
      after_read _ _ (lock_family-Locked _ _ _ db) λ family found. after_raise_if _ _ _ λ unrevoked.
        after_read _ _ {S = λ t. find? (λ x. eq_text x.token_hash hash) db.refresh_tokens ≡ some t}
          (Ensures-or_error _ _ (Ensures-query_one _ _ λ t found. (refl, found)))
          λ session is_session. after_raise_if _ _ _ λ same.
            let presented : Presented db hash family session = record {
              locked = record {
                i = lookup.family_id;
                b = lookup.business_id;
                u = lookup.user_id;
                found = found;
                unrevoked = ground arith;
              };
              found = is_session;
              is_of = ground arith;
            } in
            Ensures-if (is_absent session.revoked_at) _ _
              (λ live. rotate-Rotates c hash family session db presented live)
              (λ consumed. contain-Contains c hash family session db presented consumed)

  pub logout_body-Ends :
      (c : Client) (p : Principal) (lookup : RefreshToken) (db : Db)
      → Ensures env (logout_body c p lookup) db (λ _ d. Ends p env db d)
  unfolding logout_body audit_session Sql.get_refresh_token_by_id Sql.revoke_session_family
      Sql.insert_audit_log
  logout_body-Ends c p lookup db = after_read _ _ (lock_family-Locked _ _ _ db) λ family found.
      after_raise_if _ _ _ λ unrevoked.
        after_read _ _
          {S = λ t.
            find? (is_token p.session_id p.business_id p.user_id) db.refresh_tokens ≡ some t}
          (Ensures-or_error _ _ (Ensures-query_one _ _ λ bearer bears. (refl, bears)))
          λ bearer bears. after_raise_if _ _ _ λ same.
            let locked : Locked db family = record {
              i = lookup.family_id;
              b = p.business_id;
              u = p.user_id;
              found = found;
              unrevoked = ground arith;
            } in
            after_exec _ _ _ (
              Ensures-exec _ _ (record {
                family = family;
                bearer = bearer;
                bears = bears;
                is_of = ground arith;
                locked = locked;
                leaves = refl;
              }))
