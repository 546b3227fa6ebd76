-- ===== src/Map/Laws.antt =====
-- Looking up after an insertion.
use sqlgate.Prelude.{◌≡◌, refl, some, [], ◌∷◌, arith, if◌then◌else◌}
use sqlgate.Text.{Text, text_eq}
use sqlgate.Text.Equality.{text_eq_iff}
use sqlgate.Map.{Map, get, insert}

pub get-insert :
    (k j v : Text) (m : Map) → get j (insert k v m) ≡ (if text_eq k j then some v else get j m)
unfolding get insert
get-insert k j v [] = refl
get-insert k j v ((i, w) ∷ m) =
    ground (arith, text_eq_iff k j, text_eq_iff i k, text_eq_iff i j, get-insert k j v m)
