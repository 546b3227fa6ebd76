-- ===== src/Http/Router/Matching.antt =====
-- The route that a request takes.
use sqlgate.Prelude.{
  ◌≡◌, refl, Option, none, some, [], ◌∷◌, ◌++◌, arith, ap, inl, inr, Option-cases, All,
  if◌then◌else◌,
}
use sqlgate.Text.{Text}
use sqlgate.Map.{Map}
use sqlgate.Http.Router.{Method, same_method, Route, Router, match_path, first_match}

module _ {H : Type 0} (m : Method) (path : Text) where
  -- Whether a route fits, and with which parameters.
  abbrev pub fits : Route H → Option Map
  fits r = if same_method r.method m then match_path r.pattern path else none

  -- The earliest route that fits.
  pub record IsFirst (router : Router H) (h : H) (params : Map) : Type 0 where
    pub earlier : Router H
    pub taken : Route H
    pub later : Router H
    pub split : router ≡ earlier ++ taken ∷ later
    pub handler : taken.handler ≡ h
    pub parameters : fits taken ≡ some params
    pub passed : All (λ r. fits r ≡ none) earlier

  after : Option Map → Option (H × Map) → Route H → Option (H × Map)
  after none rest r = rest
  after (some params) rest r = some (r.handler, params)

  first_match-cons :
      (r : Route H) (rs : Router H)
      → first_match m path (r ∷ rs) ≡ after (fits r) (first_match m path rs) r
  unfolding first_match after
  first_match-cons r rs = ground arith

  later-IsFirst :
      (r : Route H) (rs : Router H) (h : H) (params : Map)
      → fits r ≡ none
      → IsFirst rs h params
      → IsFirst (r ∷ rs) h params
  later-IsFirst r rs h params misses f = record {
    earlier = r ∷ f.earlier;
    taken = f.taken;
    later = f.later;
    split = ap (λ xs. r ∷ xs) f.split;
    handler = f.handler;
    parameters = f.parameters;
    passed = (misses, f.passed);
  }

  first_match-empty : first_match {H = H} m path [] ≡ none
  unfolding first_match
  first_match-empty = refl

  -- When a route is found, it is the earliest that has the method and whose pattern matches.
  pub first_match-IsFirst :
      (router : Router H) (h : H) (params : Map)
      → first_match m path router ≡ some (h, params)
      → IsFirst router h params
  unfolding after
  first_match-IsFirst [] h params e = ground (arith, first_match-empty)
  first_match-IsFirst (r ∷ rs) h params e = elim (Option-cases (fits r)) [
    | inl misses ↦
        later-IsFirst r rs h params misses
          (first_match-IsFirst rs h params (ground (arith, first_match-cons r rs)))
    | inr (p, hit) ↦ record {
      earlier = [];
      taken = r;
      later = rs;
      split = refl;
      handler = ground (arith, first_match-cons r rs);
      parameters = ground (arith, first_match-cons r rs);
      passed = tt;
    }
  ]

  -- When no route is found, none has the method and a pattern that matches.
  pub first_match-none :
      (router : Router H) → first_match m path router ≡ none → All (λ r. fits r ≡ none) router
  unfolding after
  first_match-none [] e = tt
  first_match-none (r ∷ rs) e = elim (Option-cases (fits r)) [
    | inl misses ↦ (misses, first_match-none rs (ground (arith, first_match-cons r rs)))
    | inr (p, hit) ↦ absurd (ground (arith, first_match-cons r rs))
  ]
