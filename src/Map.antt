-- ===== src/Map.antt =====
-- `HashMap<String, String>` as an association list. The program never iterates over one.
pub mod Laws
use sqlgate.Prelude.{Bool, true, false, Option, none, some, List, [], ◌∷◌, if◌then◌else◌}
use sqlgate.Text.{Text, text_eq}

abbrev pub Map : Type 0
Map = List (Text × Text)

unfoldable pub get : Text → Map → Option Text
unfolding text_eq
get k [] = none
get k ((j, v) ∷ m) = if text_eq j k then some v else get k m

unfoldable pub insert : Text → Text → Map → Map
unfolding text_eq
insert k v [] = (k, v) ∷ []
insert k v ((j, w) ∷ m) = if text_eq j k then (k, v) ∷ m else (j, w) ∷ insert k v m

abbrev pub or_default : Text → Option Text → Text
or_default d none = d
or_default d (some v) = v

abbrev pub contains_key : Text → Map → Bool
contains_key k m = elim (get k m) [ none ↦ false | some _ ↦ true ]
