-- ===== src/Db/Requests/Lookup.antt =====
-- Looking a request up by its identifier, after each change of the table.
use sqlgate.Prelude.{
  ◌≡◌, refl, false, ◌||◌, some, none, List, [], ◌∷◌, ◌++◌, arith, ◌==◌, any, ok, if◌then◌else◌,
}
use sqlgate.Text.{Text, text_eq}
use sqlgate.Db.Approvals.{expires_now, expire_rows}
use sqlgate.Db.{Uuid, Time, Status, expired, Approval, Request, Server, Db, World, find, submitted}
use sqlgate.Db.Calls.{call-ok}
use sqlgate.Db.Requests.{set_status, insert_request, insert_request_sql}

-- `find` gives a row with the identifier that was asked for.
pub id-find : (i : Uuid) (rows : List Request) (r : Request) → find i rows ≡ some r → r.id ≡ i
unfolding find
id-find i [] r h = cc
id-find i (x ∷ xs) r h = ground (arith, id-find i xs r)

-- A row at the end is found unless an earlier one has its identifier.
pub find-append :
    (i : Uuid) (rows more : List Request)
    → find i (rows ++ more) ≡ elim (find i rows) [ none ↦ find i more | some r ↦ some r ]
unfolding find
find-append i [] more = refl
find-append i (x ∷ xs) more = ground (arith, find-append i xs more)

pub find_free :
    (i : Uuid) (hash : Text) (rows : List Request)
    → any (λ r. r.id == i || text_eq r.query_hash hash) rows ≡ false
    → find i rows ≡ none
unfolding find
find_free i hash [] h = refl
find_free i hash (x ∷ xs) h = ground (arith, find_free i hash xs)

-- Setting a status changes the row of that identifier, in its status and its time of change.
abbrev pub with_status : Status → Time → Request → Request
with_status s now r = record r { status = s; updated_at = now }

pub find-set_status :
    (s : Status) (now : Time) (i j : Uuid) (rows : List Request)
    → find j (set_status s now i rows) ≡ elim (find j rows) [
      | none ↦ none
      | some r ↦ if r.id == i then some (with_status s now r) else some r
    ]
unfolding find set_status
find-set_status s now i j [] = refl
find-set_status s now i j (x ∷ xs) = ground (arith, find-set_status s now i j xs)

-- The row that a submission stores.
abbrev pub submitted_row : (text hash kind database topology email : Text) → Time → Uuid → Request
submitted_row text hash kind database topology email now i = record {
  id = i;
  query_text = text;
  query_hash = hash;
  target_kind = kind;
  target_db = database;
  target_topology = topology;
  requester_email = email;
  status = submitted;
  created_at = now;
  updated_at = now;
}

module _ (server : Server) (text hash kind database topology email : Text) where
  find-insert_request_sql :
      (now : Time) (new i : Uuid) (d : Db)
      → (insert_request_sql server text hash kind database topology email now new d).0 ≡ ok i
      → find i
          (insert_request_sql server text hash kind database topology email now new d).1.requests
        ≡ some (submitted_row text hash kind database topology email now i)
  unfolding insert_request_sql find
  find-insert_request_sql now new i d h = ground (
    arith,
    find_free new hash d.requests,
    find-append new d.requests (submitted_row text hash kind database topology email now new ∷ []),
  )

  -- If an insertion answers with an identifier, the row found under it in the new tables has the
  -- fields that were given, the status submitted and the time of the insertion.
  pub find-insert_request :
      (w : World) (i : Uuid)
      → (insert_request server text hash kind database topology email w).0 ≡ ok i
      → find i (insert_request server text hash kind database topology email w).1.db.requests
        ≡ some (submitted_row text hash kind database topology email (server.now w.calls) i)
  unfolding insert_request
  find-insert_request w i h =
      let (stored, answered) =
        call-ok server (insert_request_sql server text hash kind database topology email) w i h in
      rw stored
        (find-insert_request_sql (server.now w.calls) (server.new_id w.calls) i w.db answered)

-- Expiry changes the rows that it applies to, in their status and their time of change.
pub find-expire_rows :
    (now : Time) (approvals : List Approval) (j : Uuid) (rows : List Request)
    → find j (expire_rows now approvals rows) ≡ elim (find j rows) [
      | none ↦ none
      | some r ↦ if expires_now now approvals r then some (with_status expired now r) else some r
    ]
unfolding find expire_rows
find-expire_rows now approvals j [] = refl
find-expire_rows now approvals j (x ∷ xs) = ground (arith, find-expire_rows now approvals j xs)
