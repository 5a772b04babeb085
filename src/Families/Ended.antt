-- ===== src/Families/Ended.antt =====
-- A session that was logged out.
use launlog_api.Prelude.{
  ℕ, ◌<◌, Bool, true, ◌≡◌, ◌≢◌, ◌∙◌, refl, sym, ap, subst, find?-true, exists-find?, exists-found,
  All, All-append, All-update, All-weaken, All-find?, Distinct-found, arith,
}
use launlog_api.Prelude.Text.{Text}
use launlog_api.Store.{Db, RefreshToken}
use launlog_api.Effect.{Env, ok}
use launlog_api.Effect.Hoare.{
  Ensures-ok, Ensures-transaction, Ensures-or_error, Ensures-query_one, after_lift, after_read,
  after_raise_if,
}
use launlog_api.Query.Sessions.{revoked_token, has_open_family}
use launlog_api.Sessions.{Library, Lifetimes, Client, Body, Principal}
use launlog_api.Sessions.Logout.{logout}
use launlog_api.Sessions.Authenticate.{authenticate}
use launlog_api.Sessions.Authenticate.Sound.{Current, authenticate_sound}
use launlog_api.Families.{Tables, tables_of, IsLineage, consumes, is_open, is_open_family}
use launlog_api.Families.Outcomes.{Ends}
use launlog_api.Families.Writes.{logout_body-Ends}
use launlog_api.Families.Closed.{is_open-closed}
use launlog_api.Families.Steps.{
  Reaches, begins, then, Change, unchanged, opening, rotating, closing, Step-Change, IsEnded,
  Change-IsEnded,
}

-- The session `i` was issued, in the family `f`.
pub record IsIn (f i : ℕ) (s : Tables) : Type 0 where
  pub below : i < s.next_token
  pub in_family : All (λ t. t.id ≡ i → t.family_id ≡ f) s.tokens

-- The session `i` was issued, in a family that is revoked.
pub record IsOver (f i : ℕ) (s : Tables) : Type 0 where
  pub is_in : IsIn f i s
  pub ended : IsEnded f s

Change-IsIn : (f i : ℕ) (s s' : Tables) → IsIn f i s → Change s s' → IsIn f i s'
Change-IsIn f i s s' h (unchanged e) = subst (IsIn f i) (sym e) h
Change-IsIn f i s s' h (opening b u hash x e) = subst (IsIn f i) (sym e) (record {
  below = omega (arith, h.below);
  in_family =
      All-append _ s.tokens _ h.in_family (λ same. absurd (omega (arith, same, h.below)), tt);
})
Change-IsIn f i s s' h (rotating key session b u hash x now _ _ _ e) =
    subst (IsIn f i) (sym e) (record {
      below = omega (arith, h.below);
      in_family =
          All-update (λ t. t.id ≡ i → t.family_id ≡ f) (consumes session) (revoked_token now)
            (λ t keep. keep) _
            (All-append _ s.tokens _ h.in_family
              (λ same. absurd (omega (arith, same, h.below)), tt));
    })
Change-IsIn f i s s' h (closing key family now _ e) =
    subst (IsIn f i) (sym e) (record { below = h.below; in_family = h.in_family })

module _ (lib : Library) (ttl : Lifetimes) where
  Reaches-IsOver :
      (f i : ℕ) (db d : Db)
      → IsOver f i (tables_of db)
      → Reaches lib ttl db d
      → IsOver f i (tables_of d)
  Reaches-IsOver f i db d h begins = h
  Reaches-IsOver f i db d h (then c _ r step) =
      let before = Reaches-IsOver f i db c h r in
      let change = Step-Change lib ttl step in
      record {
        is_in = Change-IsIn f i _ _ before.is_in change;
        ended = Change-IsEnded f _ _ before.ended change;
      }

has_open_family-is_open :
    (db : Db) (t : RefreshToken)
    → has_open_family db t ≡ true
    → is_open (tables_of db) t.family_id ≡ true
has_open_family-is_open db t h =
    let (x, found) = exists-find? _ db.session_families h in
    let hit = find?-true _ db.session_families found in
    exists-found (is_open_family t.family_id) _ db.session_families found (ground arith)

-- A session of a revoked family authenticates nobody.
IsOver-Current :
    (f i b u : ℕ) (for_logout : Bool) (env : Env) (db : Db) (t : RefreshToken)
    → IsOver f i (tables_of db)
    → ¬ Current for_logout i b u env db t
IsOver-Current f i b u for_logout env db t h current =
    let names = current.names in
    let of =
      All-find? (λ t. t.id ≡ i → t.family_id ≡ f) current.key db.refresh_tokens h.is_in.in_family
        current.found (ground arith) in
    let is_open =
      subst (λ g. is_open (tables_of db) g ≡ true) of
        (has_open_family-is_open db t current.of_open) in
    let revoked = h.ended.revoked in cc

module _ (lib : Library) (ttl : Lifetimes) (c : Client) (p : Principal) (body : Body Text)
    (env : Env) (db : Db) where
  logout-Ends : {d : Db} → logout lib c p body env db ≡ (ok tt, d) → Ends p env db d
  unfolding logout
  logout-Ends h =
      Ensures-ok {Q = λ _ d. Ends p env db d}
        (after_lift _ _ λ raw _. after_raise_if _ _ _ λ _.
          after_read _ _ {S = λ _. Unit}
            (Ensures-or_error _ _ (Ensures-query_one _ _ λ t _. (refl, tt)))
            λ lookup _.
              after_raise_if _ _ _
                λ _. Ensures-transaction _ (logout_body-Ends lib ttl env c p lookup db))
        h

  Ends-IsOver :
      {d : Db}
      → IsLineage (tables_of db)
      → Ends p env db d
      → (f : ℕ) × IsOver f p.session_id (tables_of d)
  Ends-IsOver {d} l o =
      let names = find?-true _ db.refresh_tokens o.bears in
      let same : o.bearer.id ≡ p.session_id = ground (arith, names) in
      let low =
        All-find? (λ t. t.id < db.next_token_id) _ db.refresh_tokens l.tokens_below o.bears in
      (
        o.family.id,
        subst (IsOver o.family.id p.session_id) (sym o.leaves) (record {
          is_in = record {
            below = omega (arith, low, same);
            in_family =
                All-weaken
                  (λ t only e.
                    ap (λ (x : RefreshToken). x.family_id) (only (e ∙ sym same)) ∙ o.is_of)
                  db.refresh_tokens
                  (Distinct-found (λ t. t.id) _ db.refresh_tokens l.distinct_tokens o.bears);
          };
          ended = record {
            below =
                All-find? (λ x. x.id < db.next_family_id) _ db.session_families l.families_below
                  o.locked.found;
            revoked = is_open-closed (tables_of db) l _ o.family o.locked.found env.now;
          };
        }),
      )

  -- On tables that form a lineage, after a logout and any sequence of transactions after it, no request that is let through, be it
  -- a logout, is of the session that logged out.
  pub logout_final :
      {d : Db} (e x : Db) (for_logout : Bool) (header : Text) (env' : Env) (q : Principal)
      → IsLineage (tables_of db)
      → logout lib c p body env db ≡ (ok tt, d)
      → Reaches lib ttl d e
      → authenticate lib for_logout header env' e ≡ (ok q, x)
      → q.session_id ≢ p.session_id
  logout_final {d} e x for_logout header env' q l h reaches through same =
      let (f, over) = Ends-IsOver l (logout-Ends h) in
      let after = Reaches-IsOver lib ttl f p.session_id d e over reaches in
      let (_, a) = authenticate_sound lib for_logout header env' e x q through in
      IsOver-Current f q.session_id q.business_id q.user_id for_logout env' e a.backs.session
        (subst (λ i. IsOver f i (tables_of e)) (sym same) after) a.backs.current
