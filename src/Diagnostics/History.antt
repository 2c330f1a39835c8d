-- ===== src/Diagnostics/History.antt =====
-- app/services/persistence.py, `list_diagnostics` and `get_diagnostic`, and app/api/history.py.
use network_diagnostic_tool.Common.{
  ℕ, Bool, true, false, ◌&&◌, ◌||◌, Option, none, some, List, map, reverse, Text, take, drop,
  keep_if, ◌==◌, nat_eq, ok, raised, if◌then◌else◌,
}
use network_diagnostic_tool.Exceptions.{Raises, database_unavailable, diagnostic_not_found}
use network_diagnostic_tool.Settings.{Settings}
use network_diagnostic_tool.Accounts.Tables.{is_admin, find, order_by}
use network_diagnostic_tool.Accounts.Login.{AuthContext}
use network_diagnostic_tool.Diagnostics.Rows.{
  DiagnosticType, http, tcp, dns, Run, Detail, http_row, tcp_row, dns_row, Store,
}
use network_diagnostic_tool.Diagnostics.Persistence.{user_id_of}

-- an entry of the list
pub record Item : Type 0 where
  pub id : ℕ
  pub diagnostic_type : DiagnosticType
  pub success : Bool
  pub result_code : Text
  pub api_status_code : ℕ
  pub duration_ms : ℕ
  pub started_at : ℕ
  pub completed_at : ℕ

pub record DiagnosticDetail : Type 0 where
  pub item : Item
  pub user_id : Option ℕ
  pub error_message : Option Text
  pub details : Option Detail

abbrev pub item_of : Run → Item
item_of r = record {
  id = r.id;
  diagnostic_type = r.diagnostic_type;
  success = r.success;
  result_code = r.result_code;
  api_status_code = r.api_status_code;
  duration_ms = r.duration_ms;
  started_at = r.started_at;
  completed_at = r.completed_at;
}

-- `user_id=$n` in SQL: a comparison with NULL does not hold
abbrev pub is_user : Option ℕ → Option ℕ → Bool
is_user (some u) (some v) = u == v
is_user _ _ = false

-- `($1::boolean OR user_id=$2)`
unfoldable pub is_visible : Option ℕ → Bool → Run → Bool
is_visible user_id is_admin r = is_admin || is_user r.user_id user_id

-- `ORDER BY created_at DESC`. Runs of one time come in any order, anew in each query: `scan` is the
-- order in which PostgreSQL has met the rows.
unfoldable pub newest_first : (List Run → List Run) → List Run → List Run
newest_first scan runs = reverse (order_by (λ (r : Run). r.created_at) (scan runs))

-- the rows of a query with `LIMIT` and `OFFSET`
unfoldable pub page : {A : Type 0} → ℕ → ℕ → List A → List A
page limit offset rows = take limit (drop offset rows)

unfoldable pub list_diagnostics :
    (List Run → List Run) → Option ℕ → Bool → ℕ → ℕ → Store → List Item
unfolding newest_first page is_visible
list_diagnostics scan user_id is_admin limit offset st =
    map item_of
      (page limit offset (newest_first scan (keep_if (is_visible user_id is_admin) st.runs)))

-- the table of a run's type
abbrev pub is_of_type : DiagnosticType → Detail → Bool
is_of_type http (http_row row) = true
is_of_type tcp (tcp_row row) = true
is_of_type dns (dns_row row) = true
is_of_type _ _ = false

-- the row of a query on one of the three tables, without its `run_id`
abbrev pub row_of : Option (ℕ × Detail) → Option Detail
row_of none = none
row_of (some (id, detail)) = some detail

unfoldable pub detail_of_run : Run → Option Detail → DiagnosticDetail
detail_of_run r detail = record {
  item = item_of r;
  user_id = r.user_id;
  error_message = r.error_message;
  details = detail;
}

unfoldable pub found_run : Store → Option Run → Option DiagnosticDetail
unfolding detail_of_run
found_run st none = none
found_run st (some r) = some (
    detail_of_run r (
      row_of
        (find (λ (p : ℕ × Detail). p.0 == r.id && is_of_type r.diagnostic_type p.1) st.details)))

unfoldable pub get_diagnostic : ℕ → Option ℕ → Bool → Store → Option DiagnosticDetail
unfolding found_run is_visible
get_diagnostic run_id user_id is_admin st =
    found_run st (find (λ (r : Run). r.id == run_id && is_visible user_id is_admin r) st.runs)

-- `bool(context and context.role == "ADMIN")`
unfoldable pub is_admin_context : Option AuthContext → Bool
is_admin_context none = false
is_admin_context (some context) = is_admin context.role

module _ (s : Settings) where
  unfoldable pub ensure_database : Raises Unit
  ensure_database = if s.database_enabled then ok tt else raised database_unavailable

  unfoldable pub recent_diagnostics :
      (List Run → List Run) → Option AuthContext → ℕ → ℕ → Store → Raises (List Item)
  unfolding ensure_database list_diagnostics is_admin_context
  recent_diagnostics scan context limit offset st = elim ensure_database [
    | raised e ↦ raised e
    | ok tt ↦
        ok (list_diagnostics scan (user_id_of context) (is_admin_context context) limit offset st)
  ]

  abbrev pub or_not_found : Option DiagnosticDetail → Raises DiagnosticDetail
  or_not_found none = raised diagnostic_not_found
  or_not_found (some item) = ok item

  unfoldable pub diagnostic_detail : Option AuthContext → ℕ → Store → Raises DiagnosticDetail
  unfolding ensure_database get_diagnostic is_admin_context
  diagnostic_detail context run_id st = elim ensure_database [
    | raised e ↦ raised e
    | ok tt ↦
        or_not_found (get_diagnostic run_id (user_id_of context) (is_admin_context context) st)
  ]
