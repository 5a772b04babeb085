-- ===== src/Families/Outcomes.antt =====
-- What the transactions of logins, refreshes and logouts have found and written when they succeed.
use launlog_api.Prelude.{ℕ, ◌+◌, true, false, Option, none, some, ◌≡◌, leb, find?, eq_text}
use launlog_api.Prelude.Text.{Text}
use launlog_api.Store.{Db, SessionFamily, RefreshToken}
use launlog_api.Effect.{Env}
use launlog_api.Query.Creation.{is_absent}
use launlog_api.Query.Sessions.{is_family, is_token}
use launlog_api.Sessions.{Library, Lifetimes, Principal, TenantIdentity, SessionResponse}
use launlog_api.Families.{tables_of, opened, rotated, closed}

-- The answer carries the text whose digest the tables keep.
pub record Issued (env : Env) (raw : Text) (r : SessionResponse) : Type 0 where
  pub generated : env.random ≡ some raw
  pub answers : r.refresh_token ≡ raw

-- A login opened a family.
pub record Opens (lib : Library) (u : TenantIdentity) (env : Env) (db : Db) (r : SessionResponse)
    (d : Db) : Type 0 where
  pub raw : Text
  pub expires_at : ℕ
  pub issued : Issued env raw r
  pub leaves :
      tables_of d ≡ opened u.business_id u.id (lib.hash_refresh_token raw) expires_at (tables_of db)

-- The locked family that a transaction goes on with.
pub record Locked (db : Db) (family : SessionFamily) : Type 0 where
  pub i : ℕ
  pub b : ℕ
  pub u : ℕ
  pub found : find? (is_family i b u) db.session_families ≡ some family
  pub unrevoked : is_absent family.revoked_at ≡ true

-- The token that a digest names, of the locked family.
pub record Presented (db : Db) (hash : Text) (family : SessionFamily) (t : RefreshToken)
    : Type 0 where
  pub locked : Locked db family
  pub found : find? (λ x. eq_text x.token_hash hash) db.refresh_tokens ≡ some t
  pub is_of : t.family_id ≡ family.id

-- A refresh replaced a token that was neither consumed nor expired.
pub record Rotates (lib : Library) (ttl : Lifetimes) (hash : Text) (env : Env) (db : Db)
    (r : SessionResponse) (d : Db) : Type 0 where
  pub family : SessionFamily
  pub session : RefreshToken
  pub presented : Presented db hash family session
  pub live : is_absent session.revoked_at ≡ true
  pub unexpired : leb session.expires_at env.clock ≡ false
  pub b : ℕ
  pub u : ℕ
  pub raw : Text
  pub issued : Issued env raw r
  pub leaves :
      tables_of d
      ≡ rotated session b u family.id
          (lib.hash_refresh_token raw)
          (env.clock + ttl.refresh_ttl)
          env.now
          (tables_of db)

-- A replayed token revoked its family.
pub record Contains (hash : Text) (env : Env) (db : Db) (d : Db) : Type 0 where
  pub family : SessionFamily
  pub session : RefreshToken
  pub presented : Presented db hash family session
  pub consumed : is_absent session.revoked_at ≡ false
  pub leaves : tables_of d ≡ closed family env.now (tables_of db)

-- A logout revoked the family of the session of its sender.
pub record Ends (p : Principal) (env : Env) (db : Db) (d : Db) : Type 0 where
  pub family : SessionFamily
  pub bearer : RefreshToken
  pub bears : find? (is_token p.session_id p.business_id p.user_id) db.refresh_tokens ≡ some bearer
  pub is_of : bearer.family_id ≡ family.id
  pub locked : Locked db family
  pub leaves : tables_of d ≡ closed family env.now (tables_of db)

abbrev pub Refreshes : Library → Lifetimes → Text → Env → Db → Option SessionResponse → Db → Type 0
Refreshes lib ttl hash env db none d = Contains hash env db d
Refreshes lib ttl hash env db (some r) d = Rotates lib ttl hash env db r d
