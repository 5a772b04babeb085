-- ===== src/Sessions/Authenticate/Fields.antt =====
-- The header of a bearer token.
use launlog_api.Prelude.{false, some, [], ◌∷◌, ◌++◌, ◌≡◌, refl, All}
use launlog_api.Prelude.Text.{Text, codes, is_space, is_empty}
use launlog_api.Sessions.Authenticate.{split_fields, fields, bearer_of}

-- A text without spaces is one field.
split_fields-word : (w : Text) → All (λ r. is_space r ≡ false) w → split_fields w ≡ (w, [])
unfolding split_fields
split_fields-word [] h = refl
split_fields-word (r ∷ rs) (hr, h) = rw (hr, split_fields-word rs h) refl

pub fields-bearer :
    (w : Text)
    → is_empty w ≡ false
    → All (λ r. is_space r ≡ false) w
    → bearer_of (fields (codes "Bearer " ++ w)) ≡ some w
unfolding fields split_fields is_space
fields-bearer [] nonempty h = cc
fields-bearer (r ∷ rs) nonempty h = rw (split_fields-word (r ∷ rs) h) refl
