-- ===== src/Families/Steps.antt =====
-- Any sequence of the transactions of logins, refreshes and logouts.
use launlog_api.Prelude.{
  ℕ, ◌+◌, ◌<◌, Bool, true, false, Option, none, some, ◌≡◌, ◌⊎◌, inl, inr, ◌∙◌, sym, ap, subst,
  find?, exists-found, arith, ==_refl,
}
use launlog_api.Prelude.Text.{Text}
use launlog_api.Store.{Db, SessionFamily, RefreshToken}
use launlog_api.Effect.{M, Env, Result, ok, err, transaction, transaction_atomic}
use launlog_api.Effect.Hoare.{Ensures, Ensures-ok, Ensures-transaction}
use launlog_api.Query.Creation.{is_absent}
use launlog_api.Sessions.{Library, Lifetimes, Client, Principal, TenantIdentity, SessionResponse}
use launlog_api.Sessions.Issue.{issue_body}
use launlog_api.Sessions.Refresh.{refresh_body}
use launlog_api.Sessions.Logout.{logout_body}
use launlog_api.Families.{
  Tables, tables_of, IsLineage, opened, rotated, closed, is_open, is_open_family,
}
use launlog_api.Families.Outcomes.{Locked, Opens, Rotates, Refreshes}
use launlog_api.Families.Writes.{issue_body-Opens, refresh_body-Refreshes, logout_body-Ends}
use launlog_api.Families.Opened.{IsLineage-opened, is_open-opened}
use launlog_api.Families.Rotated.{IsLineage-rotated}
use launlog_api.Families.Closed.{IsLineage-closed, is_open-closed_none}

-- A transaction of the sessions, whatever was looked up before it, whatever it finds, and whatever
-- it answers.
pub data Step (lib : Library) (ttl : Lifetimes) (db d : Db) : Type 0 where
  issues :
      (c : Client) (u : TenantIdentity) (env : Env) (r : Result SessionResponse)
      → transaction (issue_body lib ttl c u) env db ≡ (r, d)
      → Step lib ttl db d
  presents :
      (c : Client) (lookup : RefreshToken) (hash : Text) (env : Env)
      (r : Result (Option SessionResponse))
      → transaction (refresh_body lib ttl c lookup hash) env db ≡ (r, d)
      → Step lib ttl db d
  ends :
      (c : Client) (p : Principal) (lookup : RefreshToken) (env : Env) (r : Result (Unit {0}))
      → transaction (logout_body c p lookup) env db ≡ (r, d)
      → Step lib ttl db d

pub data Reaches (lib : Library) (ttl : Lifetimes) (db : Db) : Db → Type 0 where
  begins : Reaches lib ttl db db
  then : (c d : Db) → Reaches lib ttl db c → Step lib ttl c d → Reaches lib ttl db d

-- What a transaction does to the tables of sessions.
pub data Change (s s' : Tables) : Type 0 where
  unchanged : s' ≡ s → Change s s'
  opening :
      (b u : ℕ) (hash : Text) (expires_at : ℕ) → s' ≡ opened b u hash expires_at s → Change s s'
  rotating :
      (key : RefreshToken → Bool) (session : RefreshToken) (b u : ℕ) (hash : Text)
      (expires_at now : ℕ)
      → find? key s.tokens ≡ some session
      → is_absent session.revoked_at ≡ true
      → is_open s session.family_id ≡ true
      → s' ≡ rotated session b u session.family_id hash expires_at now s
      → Change s s'
  closing :
      (key : SessionFamily → Bool) (family : SessionFamily) (now : ℕ)
      → find? key s.families ≡ some family
      → s' ≡ closed family now s
      → Change s s'

-- A locked family that is not revoked is open.
pub Locked-is_open :
    {db : Db} {family : SessionFamily} → Locked db family → is_open (tables_of db) family.id ≡ true
Locked-is_open {db} {family} l =
    exists-found (is_open_family family.id) _ db.session_families l.found
      (ground (arith, l.unrevoked, ==_refl family.id))

-- A transaction that changes the tables has returned.
settled {ℓ} :
    {A : Type ℓ} (m : M A) (env : Env) (db d : Db) (r : Result A) {Q : A → Db → Type 0}
    → Ensures env m db Q
    → transaction m env db ≡ (r, d)
    → (d ≡ db) ⊎ ((a : A) × Q a d)
settled m env db d (ok a) h e = inr (a, Ensures-ok (Ensures-transaction m h) e)
settled m env db d (err e) h run = inl (transaction_atomic m env db run)

module _ (lib : Library) (ttl : Lifetimes) where
  Opens-Change :
      {u : TenantIdentity} {env : Env} {db d : Db} {r : SessionResponse}
      → Opens lib u env db r d
      → Change (tables_of db) (tables_of d)
  Opens-Change {u} o = opening u.business_id u.id _ o.expires_at o.leaves

  module _ {hash : Text} {env : Env} {db d : Db} {r : SessionResponse}
      (o : Rotates lib ttl hash env db r d) where
    pub Rotates-is_open : is_open (tables_of db) o.session.family_id ≡ true
    Rotates-is_open =
        subst (λ f. is_open (tables_of db) f ≡ true) (sym o.presented.is_of)
          (Locked-is_open o.presented.locked)

    pub Rotates-leaves :
        tables_of d
        ≡ rotated o.session o.b o.u o.session.family_id
            (lib.hash_refresh_token o.raw)
            (env.clock + ttl.refresh_ttl)
            env.now
            (tables_of db)
    Rotates-leaves =
        subst
          (λ f.
            tables_of d
            ≡ rotated o.session o.b o.u f (lib.hash_refresh_token o.raw)
                (env.clock + ttl.refresh_ttl) env.now (tables_of db))
          (sym o.presented.is_of) o.leaves

    Rotates-Change : Change (tables_of db) (tables_of d)
    Rotates-Change =
        rotating _ o.session o.b o.u _ _ env.now o.presented.found o.live Rotates-is_open
          Rotates-leaves

  Refreshes-Change :
      (hash : Text) (env : Env) (db d : Db) (r : Option SessionResponse)
      → Refreshes lib ttl hash env db r d
      → Change (tables_of db) (tables_of d)
  Refreshes-Change hash env db d (some r) o = Rotates-Change o
  Refreshes-Change hash env db d none o = closing _ o.family _ o.presented.locked.found o.leaves

  pub Step-Change : {db d : Db} → Step lib ttl db d → Change (tables_of db) (tables_of d)
  Step-Change {db} {d} (issues c u env r run) =
      elim (settled _ env db d r (issue_body-Opens lib ttl env c u db) run) [
        | inl same ↦ unchanged (ap tables_of same)
        | inr (a, o) ↦ Opens-Change o
      ]
  Step-Change {db} {d} (presents c lookup hash env r run) =
      elim (settled _ env db d r (refresh_body-Refreshes lib ttl env c lookup hash db) run) [
        | inl same ↦ unchanged (ap tables_of same)
        | inr (a, o) ↦ Refreshes-Change hash env db d a o
      ]
  Step-Change {db} {d} (ends c p lookup env r run) =
      elim (settled _ env db d r (logout_body-Ends lib ttl env c p lookup db) run) [
        | inl same ↦ unchanged (ap tables_of same)
        | inr (a, o) ↦ closing _ o.family _ o.locked.found o.leaves
      ]

pub Change-IsLineage : (s s' : Tables) → IsLineage s → Change s s' → IsLineage s'
Change-IsLineage s s' l (unchanged e) = subst IsLineage (sym e) l
Change-IsLineage s s' l (opening b u hash x e) =
    subst IsLineage (sym e) (IsLineage-opened s l b u hash x)
Change-IsLineage s s' l (rotating key session b u hash x now found live _ e) =
    subst IsLineage (sym e) (IsLineage-rotated s l key session found live b u hash x now)
Change-IsLineage s s' l (closing key family now found e) =
    subst IsLineage (sym e) (IsLineage-closed s family now l)

-- A family that was opened, and is revoked.
pub record IsEnded (f : ℕ) (s : Tables) : Type 0 where
  pub below : f < s.next_family
  pub revoked : is_open s f ≡ false

pub Change-IsEnded : (f : ℕ) (s s' : Tables) → IsEnded f s → Change s s' → IsEnded f s'
Change-IsEnded f s s' h (unchanged e) = subst (IsEnded f) (sym e) h
Change-IsEnded f s s' h (opening b u hash x e) = subst (IsEnded f) (sym e) (record {
  below = omega (arith, h.below);
  revoked = is_open-opened s b u hash x f (λ e. omega (arith, e, h.below)) ∙ h.revoked;
})
Change-IsEnded f s s' h (rotating key session b u hash x now found live _ e) =
    subst (IsEnded f) (sym e) (record { below = h.below; revoked = h.revoked })
Change-IsEnded f s s' h (closing key family now found e) =
    subst (IsEnded f) (sym e)
      (record { below = h.below; revoked = is_open-closed_none s family now f h.revoked })

module _ (lib : Library) (ttl : Lifetimes) where
  -- From tables that form a lineage, any sequence of transactions leads to tables that do.
  pub Reaches-IsLineage :
      (db d : Db) → IsLineage (tables_of db) → Reaches lib ttl db d → IsLineage (tables_of d)
  Reaches-IsLineage db d l begins = l
  Reaches-IsLineage db d l (then c _ r step) =
      Change-IsLineage _ _ (Reaches-IsLineage db c l r) (Step-Change lib ttl step)

  pub Reaches-IsEnded :
      (f : ℕ) (db d : Db)
      → IsEnded f (tables_of db)
      → Reaches lib ttl db d
      → IsEnded f (tables_of d)
  Reaches-IsEnded f db d h begins = h
  Reaches-IsEnded f db d h (then c _ r step) =
      Change-IsEnded f _ _ (Reaches-IsEnded f db c h r) (Step-Change lib ttl step)
