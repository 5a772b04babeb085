-- ===== src/Sessions/Authenticate/Sound.antt =====
-- What a principal says of the tables.
use launlog_api.Prelude.{
  ℕ, Bool, true, false, ◌&&◌, Option, none, some, ◌≡◌, refl, ap, find?, find?-true, eq_text-eq, ltb,
  length, ◌==◌, arith,
}
use launlog_api.Prelude.Text.{Text}
use launlog_api.Store.{Db, User, RefreshToken, role_text, is_staff}
use launlog_api.Effect.{Env, ok}
use launlog_api.Effect.Hoare.{
  Reads, Ensures-ok, Ensures-pure, Ensures-query_one, Ensures-or_error, Ensures-weaken, after_lift,
  after_asks, after_read, after_query, after_query_one, after_raise_if,
}
use launlog_api.Query.Creation.{is_absent}
use launlog_api.Query.Sessions.{has_open_family, is_token}
use launlog_api.Query.Sessions as Sql
use launlog_api.Sessions.{AccessClaims, Library, Principal}
use launlog_api.Sessions.Refresh.{or_unauthorized}
use launlog_api.Sessions.Tokens.{parse_access_token, subject_id}
use launlog_api.Sessions.Authenticate.{authenticate, principal_of, session_query, bearer_of, fields}

-- The session that claims name: not expired, of a family that is not revoked, and, but for a logout,
-- not consumed.
pub record Current (for_logout : Bool) (i b u : ℕ) (env : Env) (db : Db) (t : RefreshToken)
    : Type 0 where
  pub key : RefreshToken → Bool
  pub found : find? key db.refresh_tokens ≡ some t
  pub names : is_token i b u t ≡ true
  pub unexpired : ltb env.now t.expires_at ≡ true
  pub of_open : has_open_family db t ≡ true
  pub live : for_logout ≡ false → is_absent t.revoked_at ≡ true

-- The principal is what the tables have of the user of a current session, and the claims that
-- brought it agree with them.
pub record Backs (lib : Library) (for_logout : Bool) (claims : AccessClaims) (env : Env) (db : Db)
    (p : Principal) : Type 0 where
  pub session : RefreshToken
  pub user : User
  pub subject : subject_id claims ≡ some p.user_id
  pub same_business : claims.business_id ≡ p.business_id
  pub same_session : claims.session_id ≡ p.session_id
  pub current : Current for_logout p.session_id p.business_id p.user_id env db session
  pub active : Sql.get_active_user p.user_id p.business_id db ≡ some user
  pub same_role : p.role ≡ user.role
  pub same_email : p.email ≡ user.email
  pub role_claimed : role_text user.role ≡ claims.role
  pub outlets : p.outlet_ids ≡ Sql.list_user_outlet_ids p.business_id p.user_id db
  pub outlets_claimed : p.outlet_ids ≡ claims.outlet_ids
  pub staffed : is_staff p.role && length p.outlet_ids == 0 ≡ false
  pub permissions :
      p.permissions ≡ Sql.list_user_permission_codes lib.precedes p.business_id p.user_id db

-- The header carries a token of claims that back the principal.
pub record Authentic (lib : Library) (for_logout : Bool) (header : Text) (env : Env) (db : Db)
    (p : Principal) : Type 0 where
  pub raw : Text
  pub claims : AccessClaims
  pub bearer : bearer_of (fields header) ≡ some raw
  pub accepts : parse_access_token lib env.clock raw ≡ some claims
  pub backs : Backs lib for_logout claims env db p

or_unauthorized-some {ℓ} :
    {A : Type ℓ} (o : Option A) (a : A) → or_unauthorized o ≡ ok a → o ≡ some a
or_unauthorized-some none a h = cc
or_unauthorized-some (some x) a h = ap some (cc)

module _ (env : Env) (db : Db) where
  session_query-Current :
      (for_logout : Bool) (i b u : ℕ)
      → Reads env (session_query for_logout i b u) db (Current for_logout i b u env db)
  unfolding session_query Sql.get_logout_session Sql.get_active_refresh_session
  session_query-Current true i b u = after_asks _ _ (
      Ensures-query_one _ _ λ t found.
        let hit = find?-true _ db.refresh_tokens found in
        (
          refl,
          record {
            key = _;
            found = found;
            names = ground arith;
            unexpired = ground arith;
            of_open = ground arith;
            live = λ h. cc;
          },
        ))
  session_query-Current false i b u = after_asks _ _ (
      Ensures-query_one _ _ λ t found.
        let hit = find?-true _ db.refresh_tokens found in
        (
          refl,
          record {
            key = _;
            found = found;
            names = ground arith;
            unexpired = ground arith;
            of_open = ground arith;
            live = λ h. ground arith;
          },
        ))

  principal_of-Backs :
      (lib : Library) (for_logout : Bool) (claims : AccessClaims)
      → Reads env (principal_of lib for_logout claims) db (Backs lib for_logout claims env db)
  unfolding principal_of
  principal_of-Backs lib for_logout claims = after_lift _ _ λ uid is_uid.
      after_read _ _ (session_query-Current for_logout _ _ _) λ session current.
        after_query_one _ _ _ λ user active. after_raise_if _ _ _ λ same_role. after_query _ _ _ (
          after_raise_if _ _ _ λ same_outlets. after_raise_if _ _ _ λ staffed. after_query _ _ _ (
            Ensures-pure _ (
              refl,
              record {
                session = session;
                user = user;
                subject = or_unauthorized-some _ uid is_uid;
                same_business = refl;
                same_session = refl;
                current = current;
                active = active;
                same_role = refl;
                same_email = refl;
                role_claimed = eq_text-eq _ _ (ground (arith, same_role));
                outlets = refl;
                outlets_claimed = eq_text-eq _ _ (ground (arith, same_outlets));
                staffed = staffed;
                permissions = refl;
              },
            )))

-- A request that is let through carries a token that the program accepts, and its principal is what
-- the tables have: an active user of an active business with the claimed role, the outlets that
-- are assigned now, which are those claimed, and not none for staff, and the permissions granted
-- now. Its session is not expired, of a family that is not revoked, and, unless the request is a
-- logout, not consumed. The tables stay as they are.
pub authenticate_sound :
    (lib : Library) (for_logout : Bool) (header : Text) (env : Env) (db d : Db) (p : Principal)
    → authenticate lib for_logout header env db ≡ (ok p, d)
    → (d ≡ db) × Authentic lib for_logout header env db p
unfolding authenticate
authenticate_sound lib for_logout header env db d p h =
    Ensures-ok {Q = λ p d. (d ≡ db) × Authentic lib for_logout header env db p}
      (after_lift _ _ λ raw is_raw. after_asks _ _ (
        after_lift _ _ λ claims is_claims.
          Ensures-weaken _ (Ensures-or_error _ _ (principal_of-Backs env db lib for_logout claims))
            λ p d b. (
              b.0,
              record {
                raw = raw;
                claims = claims;
                bearer = or_unauthorized-some _ raw is_raw;
                accepts = or_unauthorized-some _ claims is_claims;
                backs = b.1;
              },
            )))
      h
