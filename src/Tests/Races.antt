-- ===== src/Tests/Races.antt =====
-- The theorems on races.
use sqlgate.Prelude.{◌≡◌, refl, [], ◌∷◌}
use sqlgate.Text.{codes, text_eq}
use sqlgate.Text.Utf8.{utf8, utf8_char}
use sqlgate.Db.{pending_approval, approved, rejected, World, find}
use sqlgate.Execute.Hash.{verify_query_hash}
use sqlgate.Targets.{resolve_target_url}
use sqlgate.Threads.Pipelines.{run_execute_task}
use sqlgate.Threads.Server.{turn, run_server}
use sqlgate.Threads.Races.{with_two, IsReadyTwice, run_server-sends_twice}
use sqlgate.Threads.Races.Decisions.{
  IsContested, HasStatus, rejecting, reviving, contest, run_server-revives,
}
use sqlgate.Tests.{some_host, request_in, world_with}

abbrev pending : World
pending = world_with pending_approval []

ready-IsReadyTwice :
    IsReadyTwice some_host 70 (request_in approved) (codes "writer") 3 (world_with approved [])
unfolding find verify_query_hash utf8 utf8_char text_eq resolve_target_url
ready-IsReadyTwice = record {
  first = refl;
  second = refl;
  found = refl;
  approval = refl;
  verified = refl;
  kind = refl;
  resolved = refl;
  accepts = record { connects = refl; begins = refl; runs = refl; commits = refl };
}

run_server-sends_twice_example :
    (run_server some_host (turn 0 ∷ turn 1 ∷ turn 0 ∷ turn 1 ∷ []) (
      with_two
        (run_execute_task some_host 70 (codes "ada@example.org"))
        (run_execute_task some_host 70 (codes "bob@example.org"))
        (world_with approved []))).history.now.sent
    ≡ record { url = codes "writer"; statement = codes "SELECT 1" }
      ∷ record { url = codes "writer"; statement = codes "SELECT 1" }
      ∷ []
run_server-sends_twice_example =
    run_server-sends_twice some_host 70 (request_in approved) (codes "writer") 3
      (world_with approved []) (codes "ada@example.org") (codes "bob@example.org")
      ready-IsReadyTwice

pending-IsContested :
    IsContested some_host 70
      (request_in pending_approval)
      (codes "bob@example.org")
      (codes "eve@example.org")
      pending
unfolding find text_eq
pending-IsContested = record {
  no_fault = λ n. refl;
  found = refl;
  pending = refl;
  by_other = refl;
  other_too = refl;
}

run_server-revives_example :
    let rejection =
      run_server some_host rejecting
        (contest some_host 70 (codes "bob@example.org") (codes "eve@example.org") pending) in
    HasStatus 70 rejected rejection.history.now
    × HasStatus 70 approved (run_server some_host reviving rejection).history.now
run_server-revives_example =
    run_server-revives some_host 70 (codes "bob@example.org") (codes "eve@example.org")
      (request_in pending_approval) pending pending-IsContested
