-- ===== src/Db/Requests/Listing.antt =====
-- What a listing shows.
use mathlib.Core.List.{Perm, perm_middle}
use mathlib.Core.List.Perm
use sqlgate.Prelude.{
  ℕ, zero, suc, ◌≤◌, ◌≡◌, ◌⊎◌, ◌↔◌, refl, ap, Bool, true, not, Option, none, some, List, [], ◌∷◌,
  ◌++◌, arith, Bool-cases, inl, inr, length, take, drop, retain, All, ltb, ok,
}
use sqlgate.Text.{Text}
use sqlgate.Text.Equality.{text_eq_iff}
use sqlgate.Db.{Request, status_text, DbResult, Server, World, fine, call}
use sqlgate.Db.Requests.{
  insert_by_latest, sort_latest, matches_filter, select_requests, list_requests,
}

module _ {ℓ} (P : Request → Type ℓ) where
  All-insert_by_latest :
      (r : Request) (rows : List Request) → P r → All P rows → All P (insert_by_latest r rows)
  unfolding insert_by_latest
  All-insert_by_latest r [] p h = (p, tt)
  All-insert_by_latest r (x ∷ xs) p (q, h) = ground (arith, All-insert_by_latest r xs p h)

  All-sort_latest : (rows : List Request) → All P rows → All P (sort_latest rows)
  unfolding sort_latest
  All-sort_latest [] h = tt
  All-sort_latest (r ∷ rs) (p, h) = All-insert_by_latest r (sort_latest rs) p (All-sort_latest rs h)

-- Rows from the latest to the earliest.
abbrev pub IsLatestFirst : List Request → Type 0
IsLatestFirst [] = Unit
IsLatestFirst (r ∷ rs) = All (λ x. x.created_at ≤ r.created_at) rs × IsLatestFirst rs

module _ (r : Request) where
  at_most :
      (x : Request) (xs : List Request)
      → x.created_at ≤ r.created_at
      → All (λ y. y.created_at ≤ x.created_at) xs
      → All (λ y. y.created_at ≤ r.created_at) xs
  at_most x [] p h = tt
  at_most x (y ∷ ys) p (q, h) = (omega arith, at_most x ys p h)

  insert_by_latest-IsLatestFirst :
      (rows : List Request) → IsLatestFirst rows → IsLatestFirst (insert_by_latest r rows)
  unfolding insert_by_latest
  insert_by_latest-IsLatestFirst [] h = (tt, tt)
  insert_by_latest-IsLatestFirst (x ∷ xs) (p, h) =
      elim (Bool-cases (ltb r.created_at x.created_at)) [
        | inl earlier ↦
            rw (insert_by_latest, earlier)
              (
                All-insert_by_latest (λ y. y.created_at ≤ x.created_at) r xs (ground arith) p,
                insert_by_latest-IsLatestFirst xs h,
              )
        | inr not_earlier ↦
            rw (insert_by_latest, not_earlier)
              ((ground arith, at_most x xs (ground arith) p), (p, h))
      ]

sort_latest-IsLatestFirst : (rows : List Request) → IsLatestFirst (sort_latest rows)
unfolding sort_latest
sort_latest-IsLatestFirst [] = tt
sort_latest-IsLatestFirst (r ∷ rs) =
    insert_by_latest-IsLatestFirst r (sort_latest rs) (sort_latest-IsLatestFirst rs)

insert_by_latest-perm :
    (r : Request) (rows : List Request) → Perm (insert_by_latest r rows) (r ∷ rows)
unfolding insert_by_latest
insert_by_latest-perm r [] = Perm.rfl
insert_by_latest-perm r (x ∷ xs) = elim (Bool-cases (ltb r.created_at x.created_at)) [
  | inl earlier ↦
      rw (insert_by_latest, earlier)
        (Perm.trans (Perm.cons x (insert_by_latest-perm r xs)) (Perm.swap r x xs))
  | inr not_earlier ↦ rw (insert_by_latest, not_earlier) Perm.rfl
]

sort_latest-perm : (rows : List Request) → Perm (sort_latest rows) rows
unfolding sort_latest
sort_latest-perm [] = Perm.rfl
sort_latest-perm (r ∷ rs) =
    Perm.trans (insert_by_latest-perm r (sort_latest rs)) (Perm.cons r (sort_latest-perm rs))

module _ (p : Request → Bool) where
  retain-perm : (rows : List Request) → Perm (retain p rows ++ retain (λ r. not (p r)) rows) rows
  retain-perm [] = Perm.rfl
  retain-perm (r ∷ rs) = elim (Bool-cases (p r)) [
    | inl kept ↦ rw kept (Perm.cons r (retain-perm rs))
    | inr dropped ↦ rw dropped (
        Perm.trans (perm_middle (retain p rs) (retain (λ x. not (p x)) rs))
          (Perm.cons r (retain-perm rs)))
  ]

-- Whether a row is asked for.
abbrev pub Matches : Option Text → Request → Type 0
Matches none r = Unit
Matches (some status) r = status_text r.status ≡ status

matches_filter_iff :
    (filter : Option Text) (r : Request) → (matches_filter filter r ≡ true) ↔ Matches filter r
unfolding matches_filter
matches_filter_iff none r = (λ _. tt, λ _. refl)
matches_filter_iff (some status) r = text_eq_iff (status_text r.status) status

module _ (filter : Option Text) where
  retain-Matches :
      (rows : List Request) → All (Matches filter) (retain (matches_filter filter) rows)
  retain-Matches [] = tt
  retain-Matches (r ∷ rs) = elim (Bool-cases (matches_filter filter r)) [
    | inl hit ↦ rw hit ((matches_filter_iff filter r).0 hit, retain-Matches rs)
    | inr miss ↦ rw miss (retain-Matches rs)
  ]

  retain-not-Matches :
      (rows : List Request)
      → All (λ r. ¬ Matches filter r) (retain (λ r. not (matches_filter filter r)) rows)
  retain-not-Matches [] = tt
  retain-not-Matches (r ∷ rs) = elim (Bool-cases (matches_filter filter r)) [
    | inl hit ↦ rw hit (retain-not-Matches rs)
    | inr miss ↦
        rw miss (λ asked. cc (miss, (matches_filter_iff filter r).1 asked), retain-not-Matches rs)
  ]

-- A part of `n` rows, or of fewer where nothing is left behind it.
abbrev pub IsFull : ℕ → List Request → List Request → Type 0
IsFull n part rest = (length part ≡ n) ⊎ ((length part ≤ n) × (rest ≡ []))

take-IsFull : (n : ℕ) (rows : List Request) → IsFull n (take n rows) (drop n rows)
take-IsFull zero rows = inl refl
take-IsFull (suc n) [] = inr (omega arith, refl)
take-IsFull (suc n) (r ∷ rs) = elim (take-IsFull n rs) [
  | inl full ↦ inl (omega (arith, full))
  | inr (short, done) ↦ inr (omega (arith, short), done)
]

take-drop : (n : ℕ) (rows : List Request) → rows ≡ take n rows ++ drop n rows
take-drop zero rows = refl
take-drop (suc n) [] = refl
take-drop (suc n) (r ∷ rs) = ap (λ l. r ∷ l) (take-drop n rs)

-- What the caller of a listing is promised: the rows that are asked for stand from the latest to the
-- earliest in `whole`, of which the answer is a window.
pub record IsListing (filter : Option Text) (limit offset : ℕ) (rows : List Request)
    (answer : DbResult (List Request)) : Type 0 where
  pub listed : List Request
  pub answered : answer ≡ ok listed
  pub whole : List Request
  pub others : List Request
  pub all_of_them : Perm (whole ++ others) rows
  pub asked : All (Matches filter) whole
  pub not_asked : All (λ r. ¬ Matches filter r) others
  pub latest_first : IsLatestFirst whole
  pub before : List Request
  pub after : List Request
  pub parts : whole ≡ before ++ (listed ++ after)
  pub skipped : IsFull offset before (listed ++ after)
  pub limited : IsFull limit listed after

select_requests-IsListing :
    (filter : Option Text) (limit offset : ℕ) (rows : List Request)
    → IsListing filter limit offset rows (ok (select_requests filter limit offset rows))
unfolding select_requests
select_requests-IsListing filter limit offset rows =
    let kept = retain (matches_filter filter) rows in
    let others = retain (λ r. not (matches_filter filter r)) rows in
    let whole = sort_latest kept in
    let listed = take limit (drop offset whole) in
    let after = drop limit (drop offset whole) in
    let left : drop offset whole ≡ listed ++ after = take-drop limit (drop offset whole) in
    record {
      listed = listed;
      answered = refl;
      whole = whole;
      others = others;
      all_of_them =
          Perm.trans (Perm.append_right others (sort_latest-perm kept))
            (retain-perm (matches_filter filter) rows);
      asked = All-sort_latest (Matches filter) kept (retain-Matches filter rows);
      not_asked = retain-not-Matches filter rows;
      latest_first = sort_latest-IsLatestFirst kept;
      before = take offset whole;
      after = after;
      parts = rw left at (take-drop offset whole);
      skipped = rw left at (take-IsFull offset whole);
      limited = take-IsFull limit (drop offset whole);
    }

-- When the call meets no fault, the answer is a window on the rows that are asked for, all those in the
-- table, from the latest to the earliest: it begins behind `offset` of them and has `limit` of them,
-- or the rest where there are fewer.
pub list_requests-IsListing :
    (server : Server) (filter : Option Text) (limit offset : ℕ) (w : World)
    → server.fault w.calls ≡ fine
    → IsListing filter limit offset w.db.requests (list_requests server filter limit offset w).0
unfolding list_requests call
list_requests-IsListing server filter limit offset w h =
    rw (h, list_requests, call) (select_requests-IsListing filter limit offset w.db.requests)
