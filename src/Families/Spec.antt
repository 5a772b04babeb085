-- ===== src/Families/Spec.antt =====
-- What tenants see of the sessions: each family accepts the digest of one text, or nothing. The
-- transactions refine the steps of this view.
use launlog_api.Prelude.{ℕ, Option, none, some, ◌≡◌, ◌≢◌, sym, ap, subst}
use launlog_api.Prelude.Text.{Text}
use launlog_api.Store.{Db}
use launlog_api.Families.{Tables, tables_of, IsLineage, accepted, is_open}
use launlog_api.Families.Opened.{accepted_fresh, accepted-opened, accepted-opened_new}
use launlog_api.Families.Rotated.{accepted_live, accepted-rotated, accepted-rotated_self}
use launlog_api.Families.Closed.{accepted-closed, accepted-closed_other}
use launlog_api.Families.Steps.{Change, unchanged, opening, rotating, closing}

abbrev pub View : Type 0
View = ℕ → Option Text

abbrev pub SameBut : ℕ → View → View → Type 0
SameBut f v w = (g : ℕ) → g ≢ f → w g ≡ v g

-- One step of the sessions: nothing, a new family, the replacement of the one digest that a family
-- accepts, or the end of a family.
pub data SpecStep (v w : View) : Type 0 where
  idle : ((g : ℕ) → w g ≡ v g) → SpecStep v w
  opens : (f : ℕ) (hash : Text) → v f ≡ none → w f ≡ some hash → SameBut f v w → SpecStep v w
  rotates :
      (f : ℕ) (old new : Text) → v f ≡ some old → w f ≡ some new → SameBut f v w → SpecStep v w
  closes : (f : ℕ) → w f ≡ none → SameBut f v w → SpecStep v w

pub data SpecReaches (v : View) : View → Type 0 where
  starts : SpecReaches v v
  goes : (w x : View) → SpecReaches v w → SpecStep w x → SpecReaches v x

abbrev pub view_of : Db → View
view_of db = accepted (tables_of db)

pub Change-SpecStep :
    (s s' : Tables) → IsLineage s → Change s s' → SpecStep (accepted s) (accepted s')
Change-SpecStep s s' l (unchanged e) = idle (λ g. ap (λ (s : Tables). accepted s g) e)
Change-SpecStep s s' l (opening b u hash x e) =
    subst (λ (s' : Tables). SpecStep (accepted s) (accepted s')) (sym e)
      (opens s.next_family hash (accepted_fresh s l) (accepted-opened_new s l b u hash x)
        (accepted-opened s l b u hash x))
Change-SpecStep s s' l (rotating key session b u hash x now found live is_open e) =
    subst (λ (s' : Tables). SpecStep (accepted s) (accepted s')) (sym e)
      (rotates session.family_id session.token_hash hash
        (accepted_live s l key session found live is_open)
        (accepted-rotated_self s l key session found live b u hash x now is_open)
        (accepted-rotated s l key session found live b u hash x now))
Change-SpecStep s s' l (closing key family now found e) =
    subst (λ (s' : Tables). SpecStep (accepted s) (accepted s')) (sym e)
      (closes family.id (accepted-closed s l key family found now)
        (accepted-closed_other s family now))
