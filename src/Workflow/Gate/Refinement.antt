-- ===== src/Workflow/Gate/Refinement.antt =====
-- The service refines the gate: each of its database calls is a step of the gate.
use sqlgate.Prelude.{Bool, false, Option, none, some, List}
use sqlgate.Text.{Text, codes}
use sqlgate.Db.{Time, Approval, Request}
use sqlgate.Db.Approvals.{expires_now}
use sqlgate.Host.{Host}
use sqlgate.Targets.{resolve_target_url}

abbrev is_lapsing : Time → List Approval → Option Request → Bool
is_lapsing now approvals none = false
is_lapsing now approvals (some r) = expires_now now approvals r

module _ (host : Host) where
  -- The URLs that the configuration gives.
  abbrev pub execute_url : Text → Option Text
  execute_url target = resolve_target_url host target (codes "EXECUTE")
