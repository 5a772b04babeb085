-- ===== src/Families/Closed.antt =====
-- A logout, or a replayed token: the family that it revokes.
use launlog_api.Prelude.{
  ℕ, Bool, true, false, none, some, List, [], ◌∷◌, ◌≡◌, ◌≢◌, refl, ap, arith, All, All-update,
  All-weaken, Distinct-update, Distinct-found, exists-update, exists-update_same,
  exists-update_none, find?,
}
use launlog_api.Store.{SessionFamily}
use launlog_api.Query.Creation.{is_absent}
use launlog_api.Query.Sessions.{revoked_family}
use launlog_api.Families.{Tables, IsLineage, closed, ends_family, is_open_family, is_open, accepted}

ends_self :
    (family f : SessionFamily)
    → f ≡ family
    → is_absent f.revoked_at ≡ true
    → ends_family family f ≡ true
ends_self family f same h = ground (arith, ap (λ (x : SessionFamily). x.id) same)

module _ (s : Tables) (lineage : IsLineage s) (key : SessionFamily → Bool) (family : SessionFamily)
    (found : find? key s.families ≡ some family) (now : ℕ) where
  pub is_open-closed : is_open (closed family now s) family.id ≡ false
  is_open-closed =
      exists-update (is_open_family family.id) (ends_family family) (revoked_family now)
        (λ f. ground arith) s.families
        (All-weaken (λ f only is_open. ends_self family f (only (ground arith)) (ground arith))
          s.families (Distinct-found (λ f. f.id) key s.families lineage.distinct_families found))

  pub accepted-closed : accepted (closed family now s) family.id ≡ none
  accepted-closed = rw is_open-closed refl

module _ (s : Tables) (family : SessionFamily) (now : ℕ) where
  is_open-closed_other : (g : ℕ) → g ≢ family.id → is_open (closed family now s) g ≡ is_open s g
  is_open-closed_other g apart =
      exists-update_same (is_open_family g) (ends_family family) (revoked_family now)
        (λ f. ground arith) s.families (each s.families)
    where
      each :
          (fs : List SessionFamily)
          → All (λ f. is_open_family g f ≡ true → ends_family family f ≡ false) fs
      each [] = tt
      each (f ∷ fs) = (λ h. ground arith, each fs)

  pub accepted-closed_other :
      (g : ℕ) → g ≢ family.id → accepted (closed family now s) g ≡ accepted s g
  accepted-closed_other g apart = rw (is_open-closed_other g apart) refl

  pub is_open-closed_none : (g : ℕ) → is_open s g ≡ false → is_open (closed family now s) g ≡ false
  is_open-closed_none g h =
      exists-update_none (is_open_family g) (ends_family family) (revoked_family now)
        (λ f. ground arith) s.families h

  pub IsLineage-closed : IsLineage s → IsLineage (closed family now s)
  IsLineage-closed lineage = record {
    families_below = All-update _ _ _ (λ f low. low) s.families lineage.families_below;
    tokens_below = lineage.tokens_below;
    lineage_below = lineage.lineage_below;
    distinct_families = Distinct-update _ _ _ (λ f. refl) s.families lineage.distinct_families;
    distinct_tokens = lineage.distinct_tokens;
    one_live = lineage.one_live;
  }
