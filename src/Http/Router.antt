-- ===== src/Http/Router.antt =====
-- src/http/router.rs
pub mod Matching
use sqlgate.Prelude.{
  ℕ, Bool, true, false, not, ◌&&◌, ◌||◌, Option, none, some, List, [], ◌∷◌, ◌++◌, ◌==◌,
  if◌then◌else◌, length, any, retain,
}
use sqlgate.Text.{
  Text, CaseTables, codes, is_empty, text_eq, split, strip_prefix, starts_with, ends_with,
  to_uppercase,
}
use sqlgate.Map.{Map, insert}

pub data Method : Type 0 where
  get post put delete : Method

abbrev pub same_method : Method → Method → Bool
same_method get get = true
same_method post post = true
same_method put put = true
same_method delete delete = true
same_method _ _ = false

pub record Route {ℓ} (H : Type ℓ) : Type ℓ where
  pub method : Method
  pub pattern : Text
  pub handler : H

abbrev pub Router {ℓ} : Type ℓ → Type ℓ
Router H = List (Route H)

-- Whether a segment stands twice, the check of `add` on the segments that begin with a colon.
unfoldable pub has_duplicate : List Text → Bool
unfolding text_eq
has_duplicate [] = false
has_duplicate (s ∷ ss) = any (text_eq s) ss || has_duplicate ss

-- `none` is the panic on a name that stands twice.
unfoldable pub add {ℓ} : {H : Type ℓ} → Router H → Method → Text → H → Option (Router H)
unfolding has_duplicate split starts_with
add router m pattern h =
    if has_duplicate (retain (λ s. starts_with s (codes ":")) (split b'/' pattern))
    then none
    else some (router ++ record { method = m; pattern = pattern; handler = h } ∷ [])

unfoldable pub parse_method : CaseTables → Text → Option Method
unfolding to_uppercase text_eq
parse_method tables method =
    let m = to_uppercase tables method in
    if text_eq m (codes "GET")
    then some get
    else if text_eq m (codes "POST")
    then some post
    else if text_eq m (codes "PUT")
    then some put
    else if text_eq m (codes "DELETE")
    then some delete
    else none

abbrev pub segments : Text → List Text
segments path = retain (λ s. not (is_empty s)) (split b'/' path)

-- The loop over the zipped segments.
unfoldable pub match_segments : List Text → List Text → Map → Option Map
unfolding strip_prefix insert text_eq
match_segments [] parts params = some params
match_segments (p ∷ ps) [] params = some params
match_segments (p ∷ ps) (a ∷ parts) params = elim (strip_prefix p (codes ":")) [
  | some name ↦ match_segments ps parts (insert name a params)
  | none ↦ if text_eq p a then match_segments ps parts params else none
]

unfoldable pub same_bool : Bool → Bool → Bool
same_bool true b = b
same_bool false b = not b

unfoldable pub match_path : (pattern path : Text) → Option Map
unfolding match_segments split ends_with same_bool
match_path pattern path =
    if same_bool (ends_with pattern b'/') (ends_with path b'/')
    then (if length (segments pattern) == length (segments path)
        then match_segments (segments pattern) (segments path) []
        else none)
    else none

-- The loop over the routes.
unfoldable pub first_match {ℓ} : {H : Type ℓ} → Method → Text → Router H → Option (H × Map)
unfolding match_path
first_match m path [] = none
first_match m path (r ∷ rs) =
    let rest = first_match m path rs in
    if same_method r.method m
    then elim (match_path r.pattern path) [ none ↦ rest | some params ↦ some (r.handler, params) ]
    else rest

unfoldable pub route {ℓ} :
    {H : Type ℓ} → CaseTables → Router H → (method path : Text) → Option (H × Map)
unfolding parse_method first_match
route tables router method path = elim (parse_method tables method) [
  | none ↦ none
  | some m ↦ first_match m path router
]
