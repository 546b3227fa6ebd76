-- ===== src/Workflow/Audit.antt =====
-- Four of the tables only grow: the audit log, the decisions, the executions and the previews.
use sqlgate.Prelude.{◌≡◌, refl, sym, ◌∙◌, ap, List, [], ◌∷◌, ◌++◌}
use mathlib.Core.List.{append_assoc, append-nil}
use sqlgate.Db.{Db, World}
use sqlgate.Host.{Host}
use sqlgate.Http.Request.{Stream}
use sqlgate.Workflow.{Change, stay, submit, move, expire, decide, run, show, log, send, Steps-fold}
use sqlgate.Workflow.Connections.{serve_all, serve_all-Steps}

-- The second list begins with the first.
abbrev pub Extends {ℓ} : {A : Type ℓ} → List A → List A → Type ℓ
Extends xs ys = (more : List _) × (ys ≡ xs ++ more)

module _ {ℓ} {A : Type ℓ} where
  pub Extends-refl : (xs : List A) → Extends xs xs
  Extends-refl xs = ([], sym (append-nil xs))

  Extends-trans : (xs ys zs : List A) → Extends xs ys → Extends ys zs → Extends xs zs
  Extends-trans xs ys zs (m, e) (n, f) = (m ++ n, f ∙ (ap (λ t. t ++ n) e ∙ append_assoc xs m n))

-- Nothing that was recorded is changed or lost.
pub record OnlyGrows (d e : Db) : Type 0 where
  pub audit_log : Extends d.audit_log e.audit_log
  pub approvals : Extends d.approvals e.approvals
  pub executions : Extends d.executions e.executions
  pub previews : Extends d.previews e.previews

pub OnlyGrows-refl : (d : Db) → OnlyGrows d d
OnlyGrows-refl d = record {
  audit_log = Extends-refl d.audit_log;
  approvals = Extends-refl d.approvals;
  executions = Extends-refl d.executions;
  previews = Extends-refl d.previews;
}

pub OnlyGrows-trans : (d e f : Db) → OnlyGrows d e → OnlyGrows e f → OnlyGrows d f
OnlyGrows-trans d e f p q = record {
  audit_log = Extends-trans d.audit_log e.audit_log f.audit_log p.audit_log q.audit_log;
  approvals = Extends-trans d.approvals e.approvals f.approvals p.approvals q.approvals;
  executions = Extends-trans d.executions e.executions f.executions p.executions q.executions;
  previews = Extends-trans d.previews e.previews f.previews p.previews q.previews;
}

Grows_along : (w v : World) (d : Db) → v.db ≡ d → OnlyGrows w.db d → OnlyGrows w.db v.db
Grows_along w v d e h = rw e h

-- A database with the same four tables, but for one row more in one of them.
Change-OnlyGrows : (host : Host) (w v : World) → Change host w v → OnlyGrows w.db v.db
Change-OnlyGrows host w v (stay e s) = Grows_along w v w.db e (OnlyGrows-refl w.db)
Change-OnlyGrows host w v (submit r h e s) = Grows_along w v _ e (record {
  audit_log = Extends-refl _;
  approvals = Extends-refl _;
  executions = Extends-refl _;
  previews = Extends-refl _;
})
Change-OnlyGrows host w v (move i r s now by found permitted e _) = Grows_along w v _ e (record {
  audit_log = Extends-refl _;
  approvals = Extends-refl _;
  executions = Extends-refl _;
  previews = Extends-refl _;
})
Change-OnlyGrows host w v (expire now e s) = Grows_along w v _ e (record {
  audit_log = Extends-refl _;
  approvals = Extends-refl _;
  executions = Extends-refl _;
  previews = Extends-refl _;
})
Change-OnlyGrows host w v (decide a h e s) = Grows_along w v _ e (record {
  audit_log = Extends-refl _;
  approvals = (a ∷ [], refl);
  executions = Extends-refl _;
  previews = Extends-refl _;
})
Change-OnlyGrows host w v (run x e s) = Grows_along w v _ e (record {
  audit_log = Extends-refl _;
  approvals = Extends-refl _;
  executions = (x ∷ [], refl);
  previews = Extends-refl _;
})
Change-OnlyGrows host w v (show p e s) = Grows_along w v _ e (record {
  audit_log = Extends-refl _;
  approvals = Extends-refl _;
  executions = Extends-refl _;
  previews = (p ∷ [], refl);
})
Change-OnlyGrows host w v (log x e s) = Grows_along w v _ e (record {
  audit_log = (x ∷ [], refl);
  approvals = Extends-refl _;
  executions = Extends-refl _;
  previews = Extends-refl _;
})
Change-OnlyGrows host w v (send url st h e s) = Grows_along w v w.db e (OnlyGrows-refl w.db)

-- Whatever connections are served one after another, the audit log, the decisions, the executions
-- and the previews are what they were, with rows added at the end.
pub serve_all-OnlyGrows :
    (host : Host) (w : World) (ss : List Stream) → OnlyGrows w.db (serve_all host w ss).db
serve_all-OnlyGrows host w ss =
    Steps-fold host (λ u v. OnlyGrows u.db v.db) (λ u. OnlyGrows-refl u.db)
      (λ u v x. OnlyGrows-trans u.db v.db x.db) (Change-OnlyGrows host) (serve_all-Steps host w ss)
