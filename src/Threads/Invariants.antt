-- ===== src/Threads/Invariants.antt =====
-- What holds however threads take turns.
use sqlgate.Prelude.{
  ◌≡◌, sym, ◌∙◌, ap, ◌⊎◌, inl, inr, some, List, [], ◌∷◌, ◌++◌, All, All-append, All-map, ◌==◌,
}
use sqlgate.Text.{Text}
use sqlgate.Db.{Uuid, expired, Request, Approval, Sent, Db, World, find}
use sqlgate.Db.Requests.Lookup.{find-append, find-set_status, find-expire_rows}
use sqlgate.Db.Approvals.{expires_now}
use sqlgate.Host.{Host}
use sqlgate.Workflow.{IsSubmission}
use sqlgate.Workflow.Decisions.{IsForeign, FourEyes}
use sqlgate.Workflow.Origin.{
  AllGenuine, IsGenuine-of_same, Source, Source-self, restamped, appended,
}
use sqlgate.Threads.History.{
  History, extend, before, IsCleared, Event, stay, submit, move, expire, decide, run, show, log,
  send, Follows, start, grow,
}
use sqlgate.Threads.History.Kept.{Keeps, Event-Keeps, Follows-Keeps}
use sqlgate.Threads.Server.{Move, run_server, fresh}
use sqlgate.Threads.Server.Safety.{run_server-Follows}

-- The four-eyes rule.
IsForeign-Keeps :
    (rows rows' : List Request) (a : Approval)
    → Keeps rows rows'
    → IsForeign rows a
    → IsForeign rows' a
IsForeign-Keeps rows rows' a keeps (r, found, other) =
    let kept = keeps a.request_id r found in
    (kept.row, kept.found, λ e. other (e ∙ sym kept.alike.requester_email))

along : {A : Type 0} (P : A → Type 0) {xs ys : List A} → xs ≡ ys → All P xs → All P ys
along P e p = rw⁻¹ e p

module _ (host : Host) where
  approvals-Event :
      (h : History) (v : World)
      → Event host h v
      → (v.db.approvals ≡ h.now.db.approvals)
        ⊎ ((a : Approval) × (v.db.approvals ≡ h.now.db.approvals ++ a ∷ [])
            × IsForeign h.now.db.requests a)
  approvals-Event h v (decide a d e s) =
      inr (a, ap (λ d. d.approvals) e, (d.request, d.found, d.other))
  approvals-Event h v (stay e s) = inl (ap (λ d. d.approvals) e)
  approvals-Event h v (submit r c e s) = inl (ap (λ d. d.approvals) e)
  approvals-Event h v (move i s now by c e k) = inl (ap (λ d. d.approvals) e)
  approvals-Event h v (expire now e s) = inl (ap (λ d. d.approvals) e)
  approvals-Event h v (run x e s) = inl (ap (λ d. d.approvals) e)
  approvals-Event h v (show p e s) = inl (ap (λ d. d.approvals) e)
  approvals-Event h v (log x e s) = inl (ap (λ d. d.approvals) e)
  approvals-Event h v (send url st c e s) = inl (ap (λ d. d.approvals) e)

  Event-FourEyes : (h : History) (v : World) → Event host h v → FourEyes h.now → FourEyes v
  Event-FourEyes h v event h4 =
      let keeps = Event-Keeps host h v event in
      let moved =
        All-map (IsForeign h.now.db.requests) (IsForeign v.db.requests) h.now.db.approvals
          (λ a. IsForeign-Keeps h.now.db.requests v.db.requests a keeps) h4 in
      elim (approvals-Event h v event) [
        | inl same ↦ rw same moved
        | inr (a, more, foreign) ↦ rw more (
            All-append (IsForeign v.db.requests) h.now.db.approvals (a ∷ []) moved
              (IsForeign-Keeps h.now.db.requests v.db.requests a keeps foreign, tt))
      ]

  Follows-FourEyes : {h g : History} → Follows host h g → FourEyes h.now → FourEyes g.now
  Follows-FourEyes start p = p
  Follows-FourEyes (grow {g} {v} f e) p = Event-FourEyes g v e (Follows-FourEyes f p)

  -- What was sent to a target.
  abbrev pub AllCleared : History → Type 0
  AllCleared h = All (λ (s : Sent). IsCleared host s.url s.statement h) h.now.sent

  IsCleared-Event :
      (h : History) (v : World) (url statement : Text)
      → Event host h v
      → IsCleared host url statement h
      → IsCleared host url statement (extend h v)
  IsCleared-Event h v url statement event c =
      let kept = Event-Keeps host h v event c.request.id c.request c.found in
      let alike = kept.alike in
      record {
        request = kept.row;
        found = ap (λ i. find i v.db.requests) (sym alike.id) ∙ kept.found;
        approval = before (rw⁻¹ alike.id c.approval);
        verified = rw⁻¹ (alike.query_text, alike.query_hash) c.verified;
        resolved = rw⁻¹ alike.target_db c.resolved;
        text = c.text ∙ alike.query_text;
      }

  sent-Event :
      (h : History) (v : World)
      → Event host h v
      → (v.sent ≡ h.now.sent)
        ⊎ ((x : Sent) × (v.sent ≡ x ∷ h.now.sent) × IsCleared host x.url x.statement h)
  sent-Event h v (send url st c e s) = inr (_, s, c)
  sent-Event h v (stay e s) = inl s
  sent-Event h v (submit r c e s) = inl s
  sent-Event h v (move i st now by c e s) = inl s
  sent-Event h v (expire now e s) = inl s
  sent-Event h v (decide a d e s) = inl s
  sent-Event h v (run x e s) = inl s
  sent-Event h v (show p e s) = inl s
  sent-Event h v (log x e s) = inl s

  Event-AllCleared :
      (h : History) (v : World) → Event host h v → AllCleared h → AllCleared (extend h v)
  Event-AllCleared h v event p =
      let moved =
        All-map (λ (s : Sent). IsCleared host s.url s.statement h)
          (λ (s : Sent). IsCleared host s.url s.statement (extend h v)) h.now.sent
          (λ s. IsCleared-Event h v s.url s.statement event) p in
      elim (sent-Event h v event) [
        | inl same ↦ along (λ s. IsCleared host s.url s.statement (extend h v)) (sym same) moved
        | inr (x, more, cleared) ↦
            along (λ s. IsCleared host s.url s.statement (extend h v)) (sym more)
              (IsCleared-Event h v x.url x.statement event cleared, moved)
      ]

  Follows-AllCleared : {h g : History} → Follows host h g → AllCleared h → AllCleared g
  Follows-AllCleared start p = p
  Follows-AllCleared (grow {g} {v} f e) p = Event-AllCleared g v e (Follows-AllCleared f p)

  -- Where the stored requests come from.
  found_along :
      (v : World) (d : Db) (i : Uuid) (x : Request)
      → v.db ≡ d
      → find i v.db.requests ≡ some x
      → find i d.requests ≡ some x
  found_along v d i x e found = ap (λ t. find i t.requests) (sym e) ∙ found

  Event-Source :
      (h : History) (v : World)
      → Event host h v
      → (i : Uuid) (x : Request) → find i v.db.requests ≡ some x
      → Source h.now.db.requests i x ⊎ IsSubmission host x h.now.db
  Event-Source h v (submit r c e s) i x found =
      elim (appended (find i h.now.db.requests) r i x
        (sym (find-append i h.now.db.requests (r ∷ [])) ∙ found_along v _ i x e found)) [
          | inl old ↦ inl (Source-self h.now.db.requests i x old)
          | inr new ↦ inr (rw new at c)
        ]
  Event-Source h v (move j s now by c e _) i x found = inl (
      restamped (find i h.now.db.requests) (λ y. y.id == j) s now x
        (sym (find-set_status s now j i h.now.db.requests) ∙ found_along v _ i x e found))
  Event-Source h v (expire now e s) i x found = inl (
      restamped (find i h.now.db.requests) (expires_now now h.now.db.approvals) expired now x (
        sym (find-expire_rows now h.now.db.approvals i h.now.db.requests)
        ∙ found_along v _ i x e found))
  Event-Source h v (stay e s) i x found = inl (Source-self _ i x (found_along v _ i x e found))
  Event-Source h v (decide a d e s) i x found =
      inl (Source-self _ i x (found_along v _ i x e found))
  Event-Source h v (run y e s) i x found = inl (Source-self _ i x (found_along v _ i x e found))
  Event-Source h v (show p e s) i x found = inl (Source-self _ i x (found_along v _ i x e found))
  Event-Source h v (log y e s) i x found = inl (Source-self _ i x (found_along v _ i x e found))
  Event-Source h v (send url st c e s) i x found =
      inl (Source-self _ i x (found_along v _ i x e found))

  Follows-AllGenuine :
      {h g : History} → Follows host h g → AllGenuine host h.now → AllGenuine host g.now
  Follows-AllGenuine start p = p
  Follows-AllGenuine (grow {g} {v} f e) p = λ i x found. elim (Event-Source g v e i x found) [
    | inl (r, earlier, alike) ↦
        IsGenuine-of_same host r x alike (Follows-AllGenuine f p i r earlier)
    | inr new ↦ record { hash = new.hash; kind = new.kind; topology = new.topology }
  ]

  -- However the threads of the connections take turns: if nothing was sent before, then every
  -- statement that was sent for execution is the text of a stored request that was approved at some
  -- time, whose stored hash was verified, and went to the execute URL of its target.
  pub run_server-AllCleared :
      (w : World) (ms : List Move) → w.sent ≡ [] → AllCleared (run_server host ms (fresh w)).history
  run_server-AllCleared w ms nothing =
      Follows-AllCleared (run_server-Follows host w ms) (rw nothing tt)

  -- However the threads take turns: if no stored decision is by the requester of its request, then
  -- none is later, and the request of each decision is stored.
  pub run_server-FourEyes :
      (w : World) (ms : List Move)
      → FourEyes w
      → FourEyes (run_server host ms (fresh w)).history.now
  run_server-FourEyes w ms p = Follows-FourEyes (run_server-Follows host w ms) p

  -- However the threads take turns: each request that is stored at first stays stored, with all its
  -- fields but the status and the time of change.
  pub run_server-Keeps :
      (w : World) (ms : List Move)
      → Keeps w.db.requests (run_server host ms (fresh w)).history.now.db.requests
  run_server-Keeps w ms = Follows-Keeps host (run_server-Follows host w ms)

  -- However the threads take turns: if every stored request has the hash of its text and an admitted
  -- kind and topology, then so it is later.
  pub run_server-AllGenuine :
      (w : World) (ms : List Move)
      → AllGenuine host w
      → AllGenuine host (run_server host ms (fresh w)).history.now
  run_server-AllGenuine w ms p = Follows-AllGenuine (run_server-Follows host w ms) p
