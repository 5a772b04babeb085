-- ===== src/Tests/Sessions/Witnesses.antt =====
-- Sessions at work.
use mathlib.Core.Option.{some-injective}
use launlog_api.Prelude.{
  subst, ℕ, ◌<◌, Bool, true, false, Option, none, some, [], ◌∷◌, ◌≡◌, ◌≢◌, refl, sym, ap,
  eq_text-eq, if◌then◌else◌, ltb, leb, arith, All,
}
use launlog_api.Prelude.Text.{Text, codes, is_space, is_empty}
use launlog_api.Prelude.Digits.{digits, digits_onto}
use launlog_api.Store.{Db, RefreshToken}
use launlog_api.Effect.{ok, err, unauthorized}
use launlog_api.Sessions.{AccessClaims, decoded}
use launlog_api.Sessions.Tokens.{new_access_token}
use launlog_api.Sessions.Login.{identity}
use launlog_api.Query.Sessions as Sql
use launlog_api.Sessions.Refresh.{refresh}
use launlog_api.Sessions.Authenticate.{authenticate}
use launlog_api.Sessions.Authenticate.Sound.{Authentic, authenticate_sound}
use launlog_api.Sessions.Authenticate.Complete.{IsSigning, Backed, issued_authenticates}
use launlog_api.Families.Steps.{Reaches, begins, then, issues, presents, Reaches-IsLineage}
use launlog_api.Families.Handlers.{refresh_rotates, LogsIn, login_opens}
use launlog_api.Families.Spent.{refresh_single_use}
use launlog_api.Families.Ended.{logout_final}
use launlog_api.Families.Replay.{Consumed, refresh_replayed}
use launlog_api.Families.{tables_of, IsLineage}
use launlog_api.Families.Spec.{view_of, SameBut}
use launlog_api.Tests.{healthy, healthy-IsHealthy}
use launlog_api.Tests.Sessions.{
  owner_user, demo, is_demo, library, signing_library, lifetimes, client, home, with_random, family,
  token, signed_in, refreshed, answer, bearer, twice, logged_out,
}
use launlog_api.Tests.Sessions.Runs.{
  login_runs, login_issues, refresh_presents, refresh_runs, logout_runs, other_authenticates,
}

is_demo-eq : (c : AccessClaims) → is_demo c ≡ true → c ≡ demo
is_demo-eq c h =
    let a : c.business_id ≡ 1 = ground (arith, h) in
    let b : c.role ≡ demo.role = eq_text-eq _ _ (ground (arith, h)) in
    let d : c.outlet_ids ≡ [] = eq_text-eq _ _ (ground (arith, h)) in
    let e : c.session_id ≡ 1 = ground (arith, h) in
    let f : c.issuer ≡ demo.issuer = eq_text-eq _ _ (ground (arith, h)) in
    let g : c.subject ≡ demo.subject = eq_text-eq _ _ (ground (arith, h)) in
    let i : c.audience ≡ demo.audience = eq_text-eq _ _ (ground (arith, h)) in
    let j : c.issued_at ≡ 60 = ground (arith, h) in
    let k : c.expires_at ≡ 160 = ground (arith, h) in cc

signed_in-IsLineage : IsLineage (tables_of signed_in)
signed_in-IsLineage = record {
  families_below = (omega arith, tt);
  tokens_below = (omega arith, tt);
  lineage_below = (omega arith, tt);
  distinct_families = (tt, tt);
  distinct_tokens = (tt, tt);
  one_live = λ f. ground arith;
}

refreshed-IsLineage : IsLineage (tables_of refreshed)
refreshed-IsLineage = record {
  families_below = (omega arith, tt);
  tokens_below = (omega arith, (omega arith, tt));
  lineage_below = (omega arith, (omega arith, tt));
  distinct_families = (tt, tt);
  distinct_tokens = ((λ e. omega (arith, e), tt), (tt, tt));
  one_live = λ f. ground arith;
}

twice-IsLineage : IsLineage (tables_of twice)
twice-IsLineage = record {
  families_below = (omega arith, (omega arith, tt));
  tokens_below = (omega arith, (omega arith, tt));
  lineage_below = (omega arith, (omega arith, tt));
  distinct_families = ((λ e. omega (arith, e), tt), (tt, tt));
  distinct_tokens = ((λ e. omega (arith, e), tt), (tt, tt));
  one_live = λ f. ground arith;
}

home-IsLineage : IsLineage (tables_of home)
home-IsLineage = record {
  families_below = tt;
  tokens_below = tt;
  lineage_below = tt;
  distinct_families = tt;
  distinct_tokens = tt;
  one_live = λ f. omega arith;
}

home-Reaches : Reaches library lifetimes home refreshed
home-Reaches =
    (then) signed_in refreshed
      ((then) home signed_in begins (issues client (identity owner_user) _ _ login_issues))
      (presents client (token 1 1 (codes "r") none) _ _ _ refresh_presents)

Reaches-IsLineage_example : IsLineage (tables_of refreshed)
Reaches-IsLineage_example =
    Reaches-IsLineage library lifetimes home refreshed home-IsLineage home-Reaches

refresh_rotates_example :
    (t : RefreshToken) × (Sql.token_of_hash (0 ∷ codes "r") signed_in ≡ some t)
    × (leb t.expires_at 60 ≡ false)
    × (view_of signed_in t.family_id ≡ some (0 ∷ codes "r"))
    × (view_of refreshed t.family_id ≡ some (0 ∷ codes "s"))
    × (◌≡◌ {A = Option Text} (some (codes "s")) (some (codes "s")))
    × SameBut t.family_id (view_of signed_in) (view_of refreshed)
refresh_rotates_example =
    refresh_rotates library lifetimes client (codes "r") (with_random (codes "s")) signed_in
      signed_in-IsLineage refresh_runs

refresh_single_use_example : ¬ (
    refresh library lifetimes client (decoded (codes "r")) healthy refreshed
    ≡ (ok (answer (codes "s") 2), refreshed))
refresh_single_use_example =
    refresh_single_use library lifetimes client client (codes "r") (with_random (codes "s")) healthy
      signed_in refreshed refreshed refreshed (answer (codes "s") 2) (answer (codes "s") 2)
      refresh_runs begins

replayed-Consumed :
    Consumed (0 ∷ codes "r") refreshed (token 1 1 (codes "r") (some 60)) (family 1 none)
unfolding Sql.token_of_hash Sql.lock_session_family
replayed-Consumed = record { found = refl; consumed = refl; locked = refl; unrevoked = refl }

refresh_replayed_example :
    (d : Db) × (refresh library lifetimes client (decoded (codes "r")) healthy refreshed
      ≡ (err unauthorized, d))
    × (view_of d 1 ≡ none)
    × SameBut 1 (view_of refreshed) (view_of d)
refresh_replayed_example =
    refresh_replayed library lifetimes client healthy refreshed healthy-IsHealthy (codes "r")
      (token 1 1 (codes "r") (some 60)) (family 1 none) refreshed-IsLineage refl replayed-Consumed

logout_final_example : ◌≢◌ {A = ℕ} 2 1
logout_final_example =
    logout_final library lifetimes client (bearer 1) (decoded (codes "r")) healthy twice logged_out
      logged_out false (codes "Bearer aa") healthy (bearer 2) twice-IsLineage logout_runs begins
      other_authenticates

authenticate_sound_example :
    (logged_out ≡ logged_out)
    × Authentic library false (codes "Bearer aa") healthy logged_out (bearer 2)
authenticate_sound_example =
    authenticate_sound library false (codes "Bearer aa") healthy logged_out logged_out (bearer 2)
      other_authenticates

signed_is_demo :
    (b : Bool) (raw : Text)
    → (if b then some (codes "t") else none) ≡ some raw
    → (b ≡ true) × (raw ≡ codes "t")
signed_is_demo true raw h = (refl, sym (some-injective _ _ h))
signed_is_demo false raw h = cc

signing_library-IsSigning : IsSigning signing_library
unfolding is_space
signing_library-IsSigning = record {
  nonempty = λ claims raw h. ap is_empty (signed_is_demo _ raw h).1;
  spaceless = λ claims raw h.
      subst (All (λ r. is_space r ≡ false)) (sym (signed_is_demo _ raw h).1) (refl, tt);
  reads_back = λ claims raw now h _ _ before.
      let same = is_demo-eq claims (signed_is_demo _ raw h).0 in
      let low : now < 160 = subst (λ (c : AccessClaims). now < c.expires_at) same before in
      let early : ltb now 160 ≡ true = ground (arith, low) in rw early (ap some (sym same));
}

owner_user-Backed : Backed owner_user 1 healthy signed_in
unfolding Sql.get_active_refresh_session Sql.get_active_user Sql.list_user_outlet_ids
owner_user-Backed = record {
  session = token 1 1 (codes "r") none;
  id_positive = omega arith;
  id_in_range = omega arith;
  business_positive = omega arith;
  session_positive = omega arith;
  current = refl;
  active = refl;
  staffed = refl;
}

issued_authenticates_example :
    authenticate signing_library false (codes "Bearer t") healthy signed_in
    ≡ (ok (bearer 1), signed_in)
unfolding Sql.list_user_outlet_ids Sql.list_user_permission_codes new_access_token digits
    digits_onto
issued_authenticates_example =
    issued_authenticates signing_library 100 owner_user 1 60 healthy signed_in healthy-IsHealthy
      owner_user-Backed signing_library-IsSigning (codes "t") refl (omega arith)

login_opens_example :
    LogsIn library
      (record { email = codes " a@b.c"; password = codes "pw" })
      (with_random (codes "r"))
      home
      (answer (codes "r") 1)
      signed_in
    × (◌≡◌ {A = Option Text} (some (codes "r")) (some (codes "r")))
    × (f : ℕ) × (view_of home f ≡ none)
    × (view_of signed_in f ≡ some (0 ∷ codes "r"))
    × SameBut f (view_of home) (view_of signed_in)
login_opens_example =
    login_opens library lifetimes client (record { email = codes " a@b.c"; password = codes "pw" })
      (with_random (codes "r")) home home-IsLineage login_runs
