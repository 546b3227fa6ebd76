-- ===== src/Targets/Resolution.antt =====
-- Where a connection URL comes from.
use sqlgate.Prelude.{◌≡◌, ◌⊎◌, false, some, [], ◌∷◌, ◌++◌, arith}
use sqlgate.Text.{Text, codes, is_empty, trim, to_uppercase}
use sqlgate.Host.{Host}
use sqlgate.Targets.{first_url, resolve_target_url}

-- A URL is what is left of the value of a variable without the space around it, and not empty.
pub record IsConfigured (host : Host) (url name : Text) : Type 0 where
  pub value : Text
  pub set : host.var name ≡ some value
  pub trimmed : url ≡ trim value
  pub nonempty : is_empty url ≡ false

first_of_two :
    (host : Host) (a b url : Text)
    → first_url host (a ∷ b ∷ []) ≡ some url
    → IsConfigured host url a ⊎ IsConfigured host url b
unfolding first_url
first_of_two host a b url h = ground arith

-- A target's URL is the trimmed value of TARGET_<DB>_<ROLE>, by the database's name in upper case or
-- as it is, and never blank.
pub resolve_target_url-IsConfigured :
    (host : Host) (db role url : Text)
    → resolve_target_url host db role ≡ some url
    → IsConfigured host url
        (codes "TARGET_" ++ (to_uppercase host.tables db ++ (codes "_" ++ role)))
      ⊎ IsConfigured host url (codes "TARGET_" ++ (db ++ (codes "_" ++ role)))
unfolding resolve_target_url
resolve_target_url-IsConfigured host db role url h = first_of_two host _ _ url h
