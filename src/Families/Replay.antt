-- ===== src/Families/Replay.antt =====
-- The replay of a consumed token.
use launlog_api.Prelude.{
  true, false, ◌||◌, not, none, some, ◌≡◌, ◌∙◌, refl, sym, ap, find?-true, arith, ◌==◌,
  if◌then◌else◌,
}
use launlog_api.Prelude.Text.{Text, is_empty}
use launlog_api.Store.{Db, SessionFamily, RefreshToken}
use launlog_api.Effect.{Env, err, ok, unauthorized, lift}
use launlog_api.Effect.Run.{
  IsHealthy, run_bind, run_ok, run_raise_if, run_or_no_rows, run_or_error, query_one_ok,
  run_transaction, exec_ok, run_pure,
}
use launlog_api.Query.Creation.{is_absent}
use launlog_api.Query.Sessions as Sql
use launlog_api.Sessions.{Library, Lifetimes, Client, decoded}
use launlog_api.Sessions.Issue.{audit_session}
use launlog_api.Sessions.Refresh.{refresh, refresh_body, contain, rotate}
use launlog_api.Families.{Tables, tables_of, IsLineage, closed, accepted}
use launlog_api.Families.Closed.{accepted-closed, accepted-closed_other}
use launlog_api.Families.Spec.{view_of, SameBut}

-- A consumed token of a family that is not revoked.
pub record Consumed (hash : Text) (db : Db) (t : RefreshToken) (family : SessionFamily)
    : Type 0 where
  pub found : Sql.token_of_hash hash db ≡ some t
  pub consumed : is_absent t.revoked_at ≡ false
  pub locked : Sql.lock_session_family t.family_id t.business_id t.user_id db ≡ some family
  pub unrevoked : is_absent family.revoked_at ≡ true

module _ (lib : Library) (ttl : Lifetimes) (c : Client) (env : Env) (db : Db)
    (healthy : IsHealthy env) where
  contain_ok :
      (family : SessionFamily)
      → (d : Db) × (contain c family env db ≡ (ok none, d))
        × (tables_of d ≡ closed family env.now (tables_of db))
  unfolding contain audit_session Sql.insert_audit_log Sql.revoke_session_family
  contain_ok family = (
    _,
    run_bind _ _ (exec_ok _ _ healthy) ∙ (run_bind _ _ (exec_ok _ _ healthy) ∙ run_pure none env _),
    refl,
  )

  module _ (hash : Text) (t : RefreshToken) (family : SessionFamily)
      (k : Consumed hash db t family) where
    same_family : t.family_id ≡ family.id
    unfolding Sql.lock_session_family
    same_family = let hit = find?-true _ db.session_families k.locked in ground (arith, hit)

    is_own : not (t.family_id == family.id) || not (t.user_id == family.user_id) ≡ false
    unfolding Sql.lock_session_family
    is_own = let hit = find?-true _ db.session_families k.locked in ground (arith, hit)

    refresh_body_contains :
        {d : Db}
        → contain c family env db ≡ (ok none, d)
        → refresh_body lib ttl c t hash env db ≡ (ok none, d)
    unfolding refresh_body
    refresh_body_contains h =
        run_bind _ _ (run_or_error _ _ (query_one_ok _ _ healthy k.locked))
        ∙ (run_raise_if _ _ _ (ap not k.unrevoked)
            ∙ (run_bind _ _ (run_or_error _ _ (query_one_ok _ _ healthy k.found))
                ∙ (run_raise_if _ _ _ is_own
                    ∙ (ap (λ b. (if b then rotate lib ttl c family t else contain c family) env db)
                          k.consumed
                        ∙ h))))

  -- On tables that form a lineage, when no call of the database fails, a nonempty text whose token is consumed, in a family that is not
  -- revoked, is refused, and the family is revoked: it accepts nothing after that. The other
  -- families accept what they did.
  pub refresh_replayed :
      (raw : Text) (t : RefreshToken) (family : SessionFamily)
      → IsLineage (tables_of db)
      → is_empty raw ≡ false
      → Consumed (lib.hash_refresh_token raw) db t family
      → (d : Db) × (refresh lib ttl c (decoded raw) env db ≡ (err unauthorized, d))
        × (view_of d t.family_id ≡ none)
        × SameBut t.family_id (view_of db) (view_of d)
  unfolding refresh lift Sql.lock_session_family
  refresh_replayed raw t family l nonempty k =
      let hash = lib.hash_refresh_token raw in
      let (d, ran, leaves) = contain_ok family in
      let same = same_family hash t family k in
      (
        d,
        run_ok _ _
            ∙ (run_raise_if _ _ _ nonempty
                ∙ (run_bind _ _ (run_or_no_rows _ _ (query_one_ok _ _ healthy k.found))
                    ∙ run_bind _ _
                        (run_transaction _ healthy (refresh_body_contains hash t family k ran)))),
        ap (λ (s : Tables). accepted s t.family_id) leaves
            ∙ (ap (accepted (closed family env.now (tables_of db))) same
                ∙ accepted-closed (tables_of db) l _ family k.locked env.now),
        λ g apart.
            ap (λ (s : Tables). accepted s g) leaves
            ∙ accepted-closed_other (tables_of db) family env.now g (λ e. apart (e ∙ sym same)),
      )
