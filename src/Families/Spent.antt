-- ===== src/Families/Spent.antt =====
-- A refresh token is good for one refresh.
use mathlib.Core.Option.{some-injective}
use launlog_api.Prelude.{
  ℕ, ◌++◌, [], ◌∷◌, Bool, true, false, some, ◌≡◌, ◌∙◌, refl, sym, ap, subst, find?, find?-append,
  find?-update, map_option, touched, eq_text, Bool-cases, inl, inr,
}
use launlog_api.Prelude.Text.{Text}
use launlog_api.Store.{Db, RefreshToken}
use launlog_api.Effect.{Env, ok}
use launlog_api.Query.Creation.{is_absent}
use launlog_api.Query.Sessions.{revoked_token}
use launlog_api.Sessions.{Library, Lifetimes, Client, decoded, SessionResponse}
use launlog_api.Sessions.Refresh.{refresh}
use launlog_api.Families.{Tables, tables_of, rotated, consumes}
use launlog_api.Families.Outcomes.{Rotates}
use launlog_api.Families.Rotated.{consumes_self}
use launlog_api.Families.Steps.{
  Reaches, begins, then, Change, unchanged, opening, rotating, closing, Step-Change,
}
use launlog_api.Families.Handlers.{refresh-Rotates}

abbrev has_hash : Text → RefreshToken → Bool
has_hash hash t = eq_text t.token_hash hash

-- The row that a digest names is consumed.
pub record IsSpent (hash : Text) (s : Tables) : Type 0 where
  pub token : RefreshToken
  pub found : find? (has_hash hash) s.tokens ≡ some token
  pub consumed : is_absent token.revoked_at ≡ false

module _ (hash : Text) (s : Tables) (t : RefreshToken)
    (found : find? (has_hash hash) s.tokens ≡ some t) where
  found-added : (row : RefreshToken) → find? (has_hash hash) (s.tokens ++ row ∷ []) ≡ some t
  found-added row = find?-append (has_hash hash) s.tokens _ ∙ rw found refl

  found-rotated :
      (session : RefreshToken) (b u f : ℕ) (new : Text) (expires_at now : ℕ)
      → find? (has_hash hash) (rotated session b u f new expires_at now s).tokens
        ≡ some (touched (consumes session) (revoked_token now) t)
  found-rotated session b u f new expires_at now =
      find?-update (has_hash hash) (consumes session) (revoked_token now) (λ x. refl) _
      ∙ ap (map_option (touched (consumes session) (revoked_token now))) (found-added _)

  IsSpent-rotated :
      (session : RefreshToken) (b u f : ℕ) (new : Text) (expires_at now : ℕ)
      → is_absent (touched (consumes session) (revoked_token now) t).revoked_at ≡ false
      → IsSpent hash (rotated session b u f new expires_at now s)
  IsSpent-rotated session b u f new expires_at now h = record {
    token = _;
    found = found-rotated session b u f new expires_at now;
    consumed = h;
  }

-- A consumed row stays so.
touched_consumed :
    (test : RefreshToken → Bool) (now : ℕ) (t : RefreshToken)
    → is_absent t.revoked_at ≡ false
    → is_absent (touched test (revoked_token now) t).revoked_at ≡ false
touched_consumed test now t h = elim (Bool-cases (test t)) [
  | inl hit ↦ rw hit refl
  | inr miss ↦ rw miss h
]

touched_self :
    (t : RefreshToken) (now : ℕ)
    → is_absent t.revoked_at ≡ true
    → is_absent (touched (consumes t) (revoked_token now) t).revoked_at ≡ false
touched_self t now h = rw (consumes_self t h) refl

Change-IsSpent : (hash : Text) (s s' : Tables) → IsSpent hash s → Change s s' → IsSpent hash s'
Change-IsSpent hash s s' p (unchanged e) = subst (IsSpent hash) (sym e) p
Change-IsSpent hash s s' p (opening b u new x e) =
    subst (IsSpent hash) (sym e)
      (record { token = _; found = found-added hash s p.token p.found _; consumed = p.consumed })
Change-IsSpent hash s s' p (rotating key session b u new x now _ _ _ e) =
    subst (IsSpent hash) (sym e) (
      IsSpent-rotated hash s p.token p.found session b u session.family_id new x now
        (touched_consumed (consumes session) now p.token p.consumed))
Change-IsSpent hash s s' p (closing key family now _ e) =
    subst (IsSpent hash) (sym e)
      (record { token = p.token; found = p.found; consumed = p.consumed })

module _ (lib : Library) (ttl : Lifetimes) where
  Reaches-IsSpent :
      (hash : Text) (db d : Db)
      → IsSpent hash (tables_of db)
      → Reaches lib ttl db d
      → IsSpent hash (tables_of d)
  Reaches-IsSpent hash db d p begins = p
  Reaches-IsSpent hash db d p (then c _ r step) =
      Change-IsSpent hash _ _ (Reaches-IsSpent hash db c p r) (Step-Change lib ttl step)

  Rotates-IsSpent :
      (hash : Text) (env : Env) (db d : Db) (r : SessionResponse)
      → Rotates lib ttl hash env db r d
      → IsSpent hash (tables_of d)
  Rotates-IsSpent hash env db d r o = subst (IsSpent hash) (sym o.leaves) (
      IsSpent-rotated hash (tables_of db) o.session o.presented.found o.session o.b o.u o.family.id
        _ _ env.now (touched_self o.session env.now o.live))

  IsSpent-Rotates :
      (hash : Text) (env : Env) (db d : Db) (r : SessionResponse)
      → IsSpent hash (tables_of db)
      → ¬ Rotates lib ttl hash env db r d
  IsSpent-Rotates hash env db d r p o =
      let same : p.token ≡ o.session = some-injective _ _ (sym p.found ∙ o.presented.found) in
      let clash =
        sym o.live ∙ (sym (ap (λ (t : RefreshToken). is_absent t.revoked_at) same) ∙ p.consumed) in
      cc

  -- A text that a refresh has answered to is never answered again: whatever transactions come after
  -- it, no refresh with the same text succeeds.
  pub refresh_single_use :
      (c c' : Client) (raw : Text) (env env' : Env) (db d e x : Db) (r r' : SessionResponse)
      → refresh lib ttl c (decoded raw) env db ≡ (ok r, d)
      → Reaches lib ttl d e
      → ¬ (refresh lib ttl c' (decoded raw) env' e ≡ (ok r', x))
  refresh_single_use c c' raw env env' db d e x r r' h reaches again =
      let hash = lib.hash_refresh_token raw in
      IsSpent-Rotates hash env' e x r'
        (Reaches-IsSpent hash d e
          (Rotates-IsSpent hash env db d r (refresh-Rotates lib ttl c raw env db h)) reaches)
        (refresh-Rotates lib ttl c' raw env' e again)
