-- ===== src/Preview/Engine.antt =====
-- src/preview/engine.rs
use sqlgate.Prelude.{none, some, List, [], ◌∷◌, ◌++◌, if◌then◌else◌, pos, as_i32, ok, err}
use sqlgate.Text.{Text, codes, text_eq, to_uppercase}
use sqlgate.Json.{Json, number, string, array, object, Items, nil, cons, end, field}
use sqlgate.Db.{Uuid, previewed, show_error, DbResult, Exec, pure, ◌>>=◌, ◌>>◌}
use sqlgate.Db.Requests.{update_status}
use sqlgate.Db.Previews.{insert_preview}
use sqlgate.Db.Audit.{append_audit_event}
use sqlgate.Host.{Host}
use sqlgate.Http.Response.{Response}
use sqlgate.Templates.{submit_error, preview_result}
use sqlgate.Targets.{resolve_target_url, PreviewResult, run_preview}
use sqlgate.Preview.Wrapper.{wrap_query}

abbrev pub items : List Json → Items
items [] = nil
items (j ∷ js) = cons j (items js)

abbrev pub texts : List Text → Items
texts [] = nil
texts (t ∷ ts) = cons (string t) (texts ts)

abbrev pub rows_json : List (List Json) → Items
rows_json [] = nil
rows_json (row ∷ rows) = cons (array (items row)) (rows_json rows)

abbrev pub preview_json : PreviewResult → Json
preview_json r = object (
    field (codes "columns") (array (texts r.columns))
      (field (codes "rows") (array (rows_json r.rows)) end))

abbrev pub preview_details : PreviewResult → (topology kind : Text) → Json
preview_details r topology kind = object (
    field (codes "row_count") (number (pos r.row_count)) (
      field (codes "duration_ms") (number (pos r.duration_ms)) (
        field (codes "topology_used") (string topology)
          (field (codes "target_kind") (string kind) end))))

-- Steps 5 to 7.
unfoldable pub finish_preview :
    Host → Uuid → (kind topology email : Text) → PreviewResult → Exec Response
finish_preview host i kind topology email r = do
  update_status host.server i previewed
  append_audit_event host.server (some i) (codes "previewed") email
      (some (preview_details r topology kind))
  pure (preview_result host (host.show_uuid i) r.columns r.rows r.row_count r.duration_ms topology)

-- What follows on the answer of step 4.
unfoldable pub on_persisted :
    Host → Uuid → (kind topology email : Text) → PreviewResult → DbResult Uuid → Exec Response
on_persisted host i kind topology email r (err e) =
    pure (submit_error (codes "failed to persist preview: " ++ show_error e))
on_persisted host i kind topology email r (ok _) = finish_preview host i kind topology email r

-- Steps 4 to 7, on the target's answer.
unfoldable pub persist_preview :
    Host → Uuid → (kind topology email : Text) → PreviewResult → Exec Response
persist_preview host i kind topology email r = do
  inserted ← insert_preview host.server i (preview_json r) r.row_count (as_i32 r.duration_ms)
  on_persisted host i kind topology email r inserted

unfoldable pub run_preview_pipeline :
    Host → Uuid → (query kind database topology email : Text) → Exec Response
run_preview_pipeline host i query kind database topology email w =
    elim (resolve_target_url host database (codes "PREVIEW")) [
      | none ↦ (
        submit_error (
            codes "no preview connection configured for target '"
            ++ (database
                ++ (codes "' (set TARGET_"
                    ++ (to_uppercase host.tables database ++ codes "_PREVIEW)")))),
        w,
      )
      | some url ↦
          if text_eq kind (codes "postgres")
          then elim (run_preview host w.calls url (wrap_query query) topology) [
            | err message ↦ (submit_error message, w)
            | ok r ↦ persist_preview host i kind topology email r w
          ]
          else if text_eq kind (codes "mysql")
          then (submit_error (codes "MySQL preview engine not yet implemented"), w)
          else (submit_error (codes "unsupported target kind: " ++ kind), w)
    ]
