-- ===== src/Families/Rotated.antt =====
-- A refresh: the token that takes the place of the one before it.
use launlog_api.Prelude.{
  ℕ, ◌<◌, ◌≤◌, Bool, true, false, some, [], ◌∷◌, ◌++◌, ◌≡◌, ◌≢◌, refl, ap, ◌∙◌, arith, All-append,
  All-update, All-weaken, All-find?, Distinct-added, Distinct-update, Distinct-found, select,
  select-append, select-added, select-update, select-update_last, select-found, update,
  update-append, find?, length, ◌==◌, ==_refl, Bool-cases, inl, inr,
}
use launlog_api.Prelude.Text.{Text}
use launlog_api.Store.{RefreshToken}
use launlog_api.Query.Creation.{is_absent}
use launlog_api.Query.Sessions.{revoked_token}
use launlog_api.Families.{
  Tables, IsLineage, rotated, token_row, consumes, is_live_of, live_tokens, is_open, accepted,
}

pub consumes_self : (t : RefreshToken) → is_absent t.revoked_at ≡ true → consumes t t ≡ true
consumes_self t h = ground arith

-- A token of another family has another id.
untouched_token :
    (session t : RefreshToken) (g : ℕ)
    → g ≢ session.family_id
    → (t.id ≡ session.id → t ≡ session)
    → is_live_of g t ≡ true
    → consumes session t ≡ false
untouched_token session t g apart only alive = elim (Bool-cases (consumes session t)) [
  | inl hit ↦
      let same : t ≡ session = only (ground arith) in
      let of : t.family_id ≡ session.family_id = ap (λ (x : RefreshToken). x.family_id) same in
      absurd (apart (ground (arith, of)))
  | inr miss ↦ miss
]

module _ (s : Tables) (lineage : IsLineage s) (key : RefreshToken → Bool) (session : RefreshToken)
    (found : find? key s.tokens ≡ some session) (live : is_absent session.revoked_at ≡ true) where
  is_live_self : is_live_of session.family_id session ≡ true
  is_live_self = ground arith

  live_tokens_one : live_tokens s session.family_id ≡ session ∷ []
  live_tokens_one =
      select-found (is_live_of session.family_id) key s.tokens found is_live_self
        (lineage.one_live session.family_id)

  -- An open family accepts the digest of its token that is not consumed.
  pub accepted_live :
      is_open s session.family_id ≡ true → accepted s session.family_id ≡ some session.token_hash
  accepted_live h = rw (h, live_tokens_one) refl

  module _ (b u : ℕ) (hash : Text) (expires_at now : ℕ) where
    abbrev row : RefreshToken
    row = token_row s.next_token b u session.family_id hash expires_at

    abbrev after : Tables
    after = rotated session b u session.family_id hash expires_at now s

    row_untouched : consumes session row ≡ false
    row_untouched =
        let low = All-find? (λ t. t.id < s.next_token) key s.tokens lineage.tokens_below found in
        ground arith

    tokens-rotated :
        after.tokens ≡ update (consumes session) (revoked_token now) s.tokens ++ row ∷ []
    tokens-rotated =
        update-append (consumes session) (revoked_token now) s.tokens (row ∷ [])
        ∙ rw row_untouched refl

    live_tokens-rotated : (g : ℕ) → g ≢ session.family_id → live_tokens after g ≡ live_tokens s g
    live_tokens-rotated g apart =
        ap (select (is_live_of g)) tokens-rotated
        ∙ (select-added (is_live_of g) _ row (ground arith)
            ∙ select-update (is_live_of g) (consumes session) (revoked_token now)
                (λ t. ground arith) s.tokens
                (All-weaken (λ t only alive. untouched_token session t g apart only alive) s.tokens
                  (Distinct-found (λ t. t.id) key s.tokens lineage.distinct_tokens found)))

    live_tokens-rotated_self : live_tokens after session.family_id ≡ row ∷ []
    live_tokens-rotated_self =
        ap (select (is_live_of session.family_id)) tokens-rotated
        ∙ (select-append (is_live_of session.family_id) _ (row ∷ [])
            ∙ rw
                (
                  select-update_last (is_live_of session.family_id) (consumes session)
                      (revoked_token now) (λ t. ground arith) key s.tokens found is_live_self
                      (consumes_self session live) (lineage.one_live session.family_id),
                  ==_refl session.family_id,
                )
                refl)

    pub accepted-rotated : (g : ℕ) → g ≢ session.family_id → accepted after g ≡ accepted s g
    accepted-rotated g apart = rw (live_tokens-rotated g apart) refl

    pub accepted-rotated_self :
        is_open s session.family_id ≡ true → accepted after session.family_id ≡ some hash
    accepted-rotated_self h = rw (h, live_tokens-rotated_self) refl

    one_live-rotated : (g : ℕ) → length (live_tokens after g) ≤ 1
    one_live-rotated g = elim (Bool-cases (g == session.family_id)) [
      | inl new ↦
          let same : g ≡ session.family_id = ground arith in
          rw (same, live_tokens-rotated_self) (omega arith)
      | inr old ↦ rw (live_tokens-rotated g (λ h. ground (arith, h))) (lineage.one_live g)
    ]

    pub IsLineage-rotated : IsLineage after
    IsLineage-rotated = record {
      families_below = lineage.families_below;
      tokens_below =
          All-update (λ t. t.id < after.next_token) (consumes session) (revoked_token now)
            (λ t low. low) _
            (All-append _ s.tokens _
              (All-weaken (λ t low. omega arith) s.tokens lineage.tokens_below) (omega arith, tt));
      lineage_below =
          All-update (λ t. t.family_id < s.next_family) (consumes session) (revoked_token now)
            (λ t low. low) _
            (All-append _ s.tokens _ lineage.lineage_below (
              All-find? (λ t. t.family_id < s.next_family) key s.tokens lineage.lineage_below found,
              tt,
            ));
      distinct_families = lineage.distinct_families;
      distinct_tokens =
          Distinct-update (λ t. t.id) (consumes session) (revoked_token now) (λ t. refl) _
            (Distinct-added _ s.tokens _ lineage.tokens_below lineage.distinct_tokens);
      one_live = one_live-rotated;
    }
