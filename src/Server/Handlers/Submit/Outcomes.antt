-- ===== src/Server/Handlers/Submit/Outcomes.antt =====
-- What a submission comes to.
use sqlgate.Prelude.{◌≡◌, refl, Bool, true, ◌||◌, some, List, [], ◌∷◌, arith, any, err, ◌==◌}
use sqlgate.Text.{Text, codes, text_eq}
use sqlgate.Db.{World, Request, fine, call, set_db, Uuid, query, unique_violation}
use sqlgate.Db.Requests.{is_kind, is_topology, insert_request, insert_request_sql}
use sqlgate.Host.{Host}
use sqlgate.Execute.Hash.{query_hash}
use sqlgate.Templates.{submit_error}
use sqlgate.Server.Handlers.Submit.{Submission, insert_failure, on_inserted, persist_submission}

-- Whether a stored request has a hash.
abbrev pub has_hash : Text → List Request → Bool
has_hash hash rows = any (λ r. text_eq r.query_hash hash) rows

taken_of_hash :
    (host : Host) (i : Uuid) (hash : Text) (rows : List Request)
    → has_hash hash rows ≡ true
    → any (λ r. r.id == i || text_eq r.query_hash hash) rows ≡ true
taken_of_hash host i hash [] h = cc
taken_of_hash host i hash (r ∷ rs) h = ground (arith, taken_of_hash host i hash rs)

module _ (host : Host) (s : Submission) (email : Text) (w : World) where
  insert_duplicate :
      has_hash (query_hash host s.query_text) w.db.requests ≡ true
      → is_kind s.target_kind ≡ true
      → is_topology s.target_topology ≡ true
      → host.server.fault w.calls ≡ fine
      → insert_request host.server s.query_text
          (query_hash host s.query_text)
          s.target_kind
          s.target_db
          s.target_topology
          email
          w
        ≡ (
          err (query (some unique_violation) (host.server.message unique_violation)),
          set_db w w.db,
        )
  unfolding insert_request insert_request_sql call
  insert_duplicate taken kind topology reached =
      rw
        (
          insert_request,
          insert_request_sql,
          call,
          reached,
          kind,
          topology,
          taken_of_hash host (host.server.new_id w.calls) (query_hash host s.query_text)
              w.db.requests taken,
        )
        refl

  -- When the insertion meets no fault, a submission of an admitted kind and topology whose hash is
  -- stored already is refused: the answer says so, the tables are what they were, and that call was
  -- the only one.
  pub persist_submission-duplicate :
      has_hash (query_hash host s.query_text) w.db.requests ≡ true
      → is_kind s.target_kind ≡ true
      → is_topology s.target_topology ≡ true
      → host.server.fault w.calls ≡ fine
      → persist_submission host s email w
        ≡ (submit_error (codes "This exact query has already been submitted"), set_db w w.db)
  unfolding persist_submission on_inserted insert_failure text_eq
  persist_submission-duplicate taken kind topology reached =
      rw
        (
          persist_submission,
          insert_duplicate taken kind topology reached,
          on_inserted,
          insert_failure,
        )
        refl
