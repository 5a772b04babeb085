-- ===== src/Sessions/Authenticate/Complete.antt =====
-- A token that the program issues is one that it accepts.
use launlog_api.Prelude.{
  ℕ, ◌^◌, ◌<◌, ◌≤◌, false, ◌&&◌, not, some, ◌++◌, ◌≡◌, refl, ap, ◌∙◌, All, ltb, ◌==◌, length,
  eq_text_refl, arith,
}
use launlog_api.Prelude.Text.{Text, codes, is_space, is_empty}
use launlog_api.Store.{Db, User, RefreshToken, role_text, is_staff}
use launlog_api.Effect.{Env, ok}
use launlog_api.Effect.Run.{
  IsHealthy, run_bind, run_query, run_query_one, run_raise_if, run_or_error, run_asks, run_lift,
  query_one_ok, run_pure,
}
use launlog_api.Query.Sessions as Sql
use launlog_api.Sessions.{AccessClaims, Library, Principal}
use launlog_api.Sessions.Refresh.{or_unauthorized}
use launlog_api.Sessions.Tokens.{
  issuer, new_access_token, access_claims, parse_access_token, checked_claims,
}
use launlog_api.Sessions.Tokens.Subject.{subject_id-digits, subject-is_empty}
use launlog_api.Sessions.Authenticate.{authenticate, principal_of, session_query}
use launlog_api.Sessions.Authenticate.Fields.{fields-bearer}

-- What the JWT package documents: a signed text has no spaces and is not empty, and is read back as
-- the claims that it signs, before they expire, if their issuer and audience are the expected one.
pub record IsSigning (lib : Library) : Type 0 where
  pub nonempty :
      (claims : AccessClaims) (raw : Text) → lib.sign claims ≡ some raw → is_empty raw ≡ false
  pub spaceless :
      (claims : AccessClaims) (raw : Text)
      → lib.sign claims ≡ some raw
      → All (λ r. is_space r ≡ false) raw
  pub reads_back :
      (claims : AccessClaims) (raw : Text) (now : ℕ)
      → lib.sign claims ≡ some raw
      → claims.issuer ≡ issuer
      → claims.audience ≡ issuer
      → now < claims.expires_at
      → lib.parse_with_claims now raw ≡ some claims

-- The principal of a user, as the tables have it.
abbrev pub principal_for : Library → User → ℕ → Db → Principal
principal_for lib u sid db = record {
  user_id = u.id;
  business_id = u.business_id;
  session_id = sid;
  email = u.email;
  full_name = u.full_name;
  role = u.role;
  outlet_ids = Sql.list_user_outlet_ids u.business_id u.id db;
  permissions = Sql.list_user_permission_codes lib.precedes u.business_id u.id db;
}

-- The tables back the session `sid` of the user.
pub record Backed (u : User) (sid : ℕ) (env : Env) (db : Db) : Type 0 where
  pub session : RefreshToken
  pub id_positive : 1 ≤ u.id
  pub id_in_range : u.id < 2 ^ 63
  pub business_positive : 1 ≤ u.business_id
  pub session_positive : 1 ≤ sid
  pub current : Sql.get_active_refresh_session env.now sid u.business_id u.id db ≡ some session
  pub active : Sql.get_active_user u.id u.business_id db ≡ some u
  pub staffed :
      is_staff u.role && length (Sql.list_user_outlet_ids u.business_id u.id db) == 0 ≡ false

module _ (lib : Library) (ttl : ℕ) (u : User) (sid issued_at : ℕ) (env : Env) (db : Db)
    (healthy : IsHealthy env) (k : Backed u sid env db) where
  abbrev claims : AccessClaims
  claims =
      access_claims lib ttl u.id u.business_id sid u.role
        (Sql.list_user_outlet_ids u.business_id u.id db) issued_at

  principal_of_backed : principal_of lib false claims env db ≡ (ok (principal_for lib u sid db), db)
  unfolding principal_of session_query
  principal_of_backed =
      run_lift _ _
        (ap or_unauthorized (subject_id-digits claims u.id refl k.id_positive k.id_in_range))
      ∙ (run_bind _ _ (run_asks _ _ ∙ query_one_ok _ _ healthy k.current)
          ∙ (run_query_one _ _ _ healthy k.active
              ∙ (run_raise_if _ _ _ (ap not (eq_text_refl (role_text u.role)))
                  ∙ (run_query _ _ _ healthy
                      ∙ (run_raise_if _ _ _ (ap not (eq_text_refl claims.outlet_ids))
                          ∙ (run_raise_if _ _ _ k.staffed
                              ∙ (run_query _ _ _ healthy ∙ run_pure _ env db)))))))

  module _ (signing : IsSigning lib) (raw : Text)
      (issued : (new_access_token lib ttl u.id u.business_id sid u.role
          (Sql.list_user_outlet_ids u.business_id u.id db)
          issued_at).0
        ≡ some raw)
      (unexpired : env.clock < claims.expires_at) where
    signed : lib.sign claims ≡ some raw
    unfolding new_access_token
    signed = issued

    accepted : parse_access_token lib env.clock raw ≡ some claims
    unfolding parse_access_token
    accepted =
        let has_business : ltb u.business_id 1 ≡ false =
          let h = k.business_positive in ground (arith, h) in
        let has_session : ltb sid 1 ≡ false = let h = k.session_positive in ground (arith, h) in
        ap checked_claims (signing.reads_back claims raw env.clock signed refl refl unexpired)
        ∙ rw (has_business, has_session, subject-is_empty u.id) refl

    -- A token that the program issued for a user, with the outlets that are assigned, lets requests
    -- through until it expires, as long as the tables back its session and no call of the database
    -- fails: the principal is the user, and the tables stay as they are.
    pub issued_authenticates :
        authenticate lib false (codes "Bearer " ++ raw) env db
        ≡ (ok (principal_for lib u sid db), db)
    unfolding authenticate
    issued_authenticates =
        run_lift _ _ (
          ap or_unauthorized (
            fields-bearer raw (signing.nonempty claims raw signed)
              (signing.spaceless claims raw signed)))
        ∙ (run_asks _ _
            ∙ (run_lift _ _ (ap or_unauthorized accepted) ∙ run_or_error _ _ principal_of_backed))
