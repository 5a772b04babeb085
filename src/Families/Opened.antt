-- ===== src/Families/Opened.antt =====
-- A login: the family that it opens.
use launlog_api.Prelude.{
  ℕ, ◌≤◌, true, false, none, some, [], ◌∷◌, ◌≡◌, ◌≢◌, refl, ◌∙◌, arith, All-append, All-weaken,
  Distinct-added, exists-append, exists-none, select-append, select-none, length, ◌==◌, ==_refl,
  Bool-cases, inl, inr, select-added, exists-added,
}
use launlog_api.Prelude.Text.{Text}
use launlog_api.Families.{
  Tables, IsLineage, opened, token_row, live_tokens, is_live_of, is_open_family, is_open, accepted,
}

pub is_open-opened :
    (s : Tables) (b u : ℕ) (hash : Text) (expires_at g : ℕ)
    → g ≢ s.next_family
    → is_open (opened b u hash expires_at s) g ≡ is_open s g
is_open-opened s b u hash expires_at g apart =
    exists-added (is_open_family g) s.families _ (ground arith)

module _ (s : Tables) (lineage : IsLineage s) where
  -- A family that was not opened has no rows.
  live_tokens_fresh : live_tokens s s.next_family ≡ []
  live_tokens_fresh =
      select-none (is_live_of s.next_family) s.tokens
        (All-weaken (λ t low. ground arith) s.tokens lineage.lineage_below)

  is_open_fresh : is_open s s.next_family ≡ false
  is_open_fresh =
      exists-none (is_open_family s.next_family) s.families
        (All-weaken (λ f low. ground arith) s.families lineage.families_below)

  pub accepted_fresh : accepted s s.next_family ≡ none
  accepted_fresh = rw is_open_fresh refl

  module _ (b u : ℕ) (hash : Text) (expires_at : ℕ) where
    live_tokens-opened :
        (g : ℕ) → g ≢ s.next_family → live_tokens (opened b u hash expires_at s) g ≡ live_tokens s g
    live_tokens-opened g apart = select-added (is_live_of g) s.tokens _ (ground arith)

    live_tokens-opened_new :
        live_tokens (opened b u hash expires_at s) s.next_family
        ≡ token_row s.next_token b u s.next_family hash expires_at ∷ []
    live_tokens-opened_new =
        select-append (is_live_of s.next_family) s.tokens _
        ∙ rw (live_tokens_fresh, ==_refl s.next_family) refl

    is_open-opened_new : is_open (opened b u hash expires_at s) s.next_family ≡ true
    is_open-opened_new =
        exists-append (is_open_family s.next_family) s.families _
        ∙ rw (is_open_fresh, ==_refl s.next_family) refl

    pub accepted-opened :
        (g : ℕ) → g ≢ s.next_family → accepted (opened b u hash expires_at s) g ≡ accepted s g
    accepted-opened g apart =
        rw (is_open-opened s b u hash expires_at g apart, live_tokens-opened g apart) refl

    pub accepted-opened_new : accepted (opened b u hash expires_at s) s.next_family ≡ some hash
    accepted-opened_new = rw (is_open-opened_new, live_tokens-opened_new) refl

    one_live-opened : (g : ℕ) → length (live_tokens (opened b u hash expires_at s) g) ≤ 1
    one_live-opened g = elim (Bool-cases (g == s.next_family)) [
      | inl new ↦
          let same : g ≡ s.next_family = ground arith in
          rw (same, live_tokens-opened_new) (omega arith)
      | inr old ↦ rw (live_tokens-opened g (λ h. ground (arith, h))) (lineage.one_live g)
    ]

    pub IsLineage-opened : IsLineage (opened b u hash expires_at s)
    IsLineage-opened = record {
      families_below =
          All-append _ s.families _
            (All-weaken (λ f low. omega arith) s.families lineage.families_below) (omega arith, tt);
      tokens_below =
          All-append _ s.tokens _ (All-weaken (λ t low. omega arith) s.tokens lineage.tokens_below)
            (omega arith, tt);
      lineage_below =
          All-append _ s.tokens _ (All-weaken (λ t low. omega arith) s.tokens lineage.lineage_below)
            (omega arith, tt);
      distinct_families =
          Distinct-added _ s.families _ lineage.families_below lineage.distinct_families;
      distinct_tokens = Distinct-added _ s.tokens _ lineage.tokens_below lineage.distinct_tokens;
      one_live = one_live-opened;
    }
