-- ===== src/Families/Handlers.antt =====
-- What the handlers of logins and refreshes do to families.
use launlog_api.Query.Sessions as Sql
use launlog_api.Sessions.{LoginRequest}
use launlog_api.Sessions.Login.{login, identity, max_bcrypt_password_bytes}
use launlog_api.Families.Opened.{accepted_fresh, accepted-opened, accepted-opened_new}
use launlog_api.Families.Outcomes.{Opens}
use launlog_api.Families.Writes.{issue_body-Opens}
use launlog_api.Prelude.{ltb, false, true, leb, none, arith, ℕ}
use launlog_api.Prelude.Text.{byte_len, trim_space}
use launlog_api.Effect.Hoare.{Ensures-weaken}
use launlog_api.Store.{User, RefreshToken}
use launlog_api.Prelude.{
  ℕ, ◌+◌, Option, none, some, ◌≡◌, ◌∙◌, refl, sym, ap, subst, find?-true, eq_text-eq,
}
use launlog_api.Prelude.Text.{Text}
use launlog_api.Store.{Db}
use launlog_api.Effect.{Env, ok}
use launlog_api.Effect.Hoare.{
  Ensures-ok, Ensures-transaction, Ensures-bind, Ensures-or_no_rows, Ensures-query_one, after_read,
  after_ok, after_raise_if, Ensures-lift,
}
use launlog_api.Sessions.{Library, Lifetimes, Client, decoded, SessionResponse}
use launlog_api.Sessions.Refresh.{refresh, or_unauthorized}
use launlog_api.Families.{Tables, tables_of, IsLineage, accepted}
use launlog_api.Families.Rotated.{accepted_live, accepted-rotated, accepted-rotated_self}
use launlog_api.Families.Outcomes.{Rotates, Refreshes}
use launlog_api.Families.Writes.{refresh_body-Refreshes}
use launlog_api.Families.Steps.{Rotates-is_open, Rotates-leaves}
use launlog_api.Families.Spec.{view_of, SameBut}

module _ (lib : Library) (ttl : Lifetimes) (c : Client) (raw : Text) (env : Env) (db : Db) where
  -- A refresh that answers has replaced a token.
  pub refresh-Rotates :
      {r : SessionResponse} {d : Db}
      → refresh lib ttl c (decoded raw) env db ≡ (ok r, d)
      → Rotates lib ttl (lib.hash_refresh_token raw) env db r d
  unfolding refresh
  refresh-Rotates h =
      Ensures-ok {Q = λ r d. Rotates lib ttl (lib.hash_refresh_token raw) env db r d}
        (after_ok _ _ (
          after_raise_if _ _ _ λ _.
            after_read _ _ {S = λ _. Unit}
              (Ensures-or_no_rows _ _ (Ensures-query_one _ _ λ t _. (refl, tt)))
              λ lookup _.
                Ensures-bind _ _ {R = Refreshes lib ttl (lib.hash_refresh_token raw) env db}
                  (Ensures-transaction _ (refresh_body-Refreshes lib ttl env c lookup _ db))
                  λ answer d did. Ensures-lift _ λ r is. rotated_answer answer r d is did))
        h
    where
      rotated_answer :
          (answer : Option SessionResponse) (r : SessionResponse) (d : Db)
          → or_unauthorized answer ≡ ok r
          → Refreshes lib ttl (lib.hash_refresh_token raw) env db answer d
          → Rotates lib ttl (lib.hash_refresh_token raw) env db r d
      rotated_answer none r d is did = cc
      rotated_answer (some a) r d is did =
          subst (λ r. Rotates lib ttl (lib.hash_refresh_token raw) env db r d) (cc) did

  -- On tables that form a lineage, a refresh that answers finds a token that is not expired, whose family accepts the digest of the
  -- text presented. After it, the family accepts that of a newly generated text, which is the
  -- answer's, and the other families accept what they did.
  pub refresh_rotates :
      {r : SessionResponse} {d : Db}
      → IsLineage (tables_of db)
      → refresh lib ttl c (decoded raw) env db ≡ (ok r, d)
      → (t : RefreshToken) × (Sql.token_of_hash (lib.hash_refresh_token raw) db ≡ some t)
        × (leb t.expires_at env.clock ≡ false)
        × (view_of db t.family_id ≡ some (lib.hash_refresh_token raw))
        × (view_of d t.family_id ≡ some (lib.hash_refresh_token r.refresh_token))
        × (env.random ≡ some r.refresh_token)
        × SameBut t.family_id (view_of db) (view_of d)
  unfolding Sql.token_of_hash
  refresh_rotates {r} {d} l h =
      let o = refresh-Rotates h in
      let s = o.session in
      let s_open = Rotates-is_open lib ttl o in
      let leaves = Rotates-leaves lib ttl o in
      let hash = lib.hash_refresh_token o.raw in
      let expires_at = env.clock + ttl.refresh_ttl in
      (
        s,
        o.presented.found,
        o.unexpired,
        accepted_live (tables_of db) l _ s o.presented.found o.live s_open
            ∙ ap some
                (eq_text-eq s.token_hash _ (find?-true _ db.refresh_tokens o.presented.found)),
        ap (λ (x : Tables). accepted x s.family_id) leaves
            ∙ (accepted-rotated_self (tables_of db) l _ s o.presented.found o.live o.b o.u hash
                  expires_at env.now s_open
                ∙ ap (λ t. some (lib.hash_refresh_token t)) (sym o.issued.answers)),
        o.issued.generated ∙ ap some (sym o.issued.answers),
        λ g apart.
            ap (λ (x : Tables). accepted x g) leaves
            ∙ accepted-rotated (tables_of db) l _ s o.presented.found o.live o.b o.u hash expires_at
                env.now g apart,
      )

-- What a login that answers has checked and opened.
pub record LogsIn (lib : Library) (req : LoginRequest) (env : Env) (db : Db) (r : SessionResponse)
    (d : Db) : Type 0 where
  pub user : User
  pub found : Sql.get_user_for_login lib.lower (trim_space req.email) db ≡ some user
  pub active : user.is_active ≡ true
  pub short : ltb max_bcrypt_password_bytes (byte_len req.password) ≡ false
  pub matches : lib.matches_hash user.password_hash req.password ≡ true
  pub opens : Opens lib (identity user) env db r d

module _ (lib : Library) (ttl : Lifetimes) (c : Client) (req : LoginRequest) (env : Env)
    (db : Db) where
  login-LogsIn :
      {r : SessionResponse} {d : Db}
      → login lib ttl c (decoded req) env db ≡ (ok r, d)
      → LogsIn lib req env db r d
  unfolding login
  login-LogsIn h =
      Ensures-ok {Q = LogsIn lib req env db}
        (after_ok _ _ (
          after_raise_if _ _ _ λ _.
            after_read _ _
              {S = λ u. Sql.get_user_for_login lib.lower (trim_space req.email) db ≡ some u}
              (Ensures-or_no_rows _ _ (Ensures-query_one _ _ λ u found. (refl, found)))
              λ user found. after_raise_if _ _ _ λ short. after_raise_if _ _ _ λ verified.
                Ensures-transaction _ (
                  Ensures-weaken _ (issue_body-Opens lib ttl env c (identity user) db) λ r d o.
                    record {
                      user = user;
                      found = found;
                      active = ground (arith, verified);
                      short = short;
                      matches = ground (arith, verified);
                      opens = o;
                    })))
        h

  -- On tables that form a lineage, a login that answers names an active user, of an active business, by email, with a password of at
  -- most 72 bytes that matches the user's hash. It opens a family that accepted nothing before it and
  -- accepts the digest of the newly generated text of the answer after it; the other families accept
  -- what they did.
  pub login_opens :
      {r : SessionResponse} {d : Db}
      → IsLineage (tables_of db)
      → login lib ttl c (decoded req) env db ≡ (ok r, d)
      → LogsIn lib req env db r d
        × (env.random ≡ some r.refresh_token)
        × (f : ℕ) × (view_of db f ≡ none)
        × (view_of d f ≡ some (lib.hash_refresh_token r.refresh_token))
        × SameBut f (view_of db) (view_of d)
  login_opens {r} {d} l h =
      let i = login-LogsIn h in
      let o = i.opens in
      let hash = lib.hash_refresh_token o.raw in
      (
        i,
        o.issued.generated ∙ ap some (sym o.issued.answers),
        db.next_family_id,
        accepted_fresh (tables_of db) l,
        ap (λ (x : Tables). accepted x db.next_family_id) o.leaves
            ∙ (accepted-opened_new (tables_of db) l i.user.business_id i.user.id hash o.expires_at
                ∙ ap (λ t. some (lib.hash_refresh_token t)) (sym o.issued.answers)),
        λ g apart.
            ap (λ (x : Tables). accepted x g) o.leaves
            ∙ accepted-opened (tables_of db) l i.user.business_id i.user.id hash o.expires_at g
                apart,
      )
