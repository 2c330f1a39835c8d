-- ===== src/Accounts/Tables.antt =====
-- The rows of the tables `user_accounts`, `user_sessions`, `user_password_history` and
-- `auth_audit_events`, and the queries on them. A table is the list of its rows, in the order of
-- their insertion. A point in time is a number of microseconds.
use network_diagnostic_tool.Common.{
  ℕ, ◌*◌, Bool, true, false, Option, none, some, List, [], ◌∷◌, Text, ltb, nat_eq, list_eq,
  if◌then◌else◌,
}

pub data Role : Type 0 where
  admin operator viewer : Role

pub data Status : Type 0 where
  pending active locked disabled : Status

-- the texts that a reason takes: why a login failed, a status, why a session was revoked
pub data Reason : Type 0 where
  unknown_user bad_password : Reason
  by_status : Status → Reason
  max_sessions expired logout password_changed account_disabled password_reset admin_revoked :
      Reason

pub record User : Type 0 where
  pub id : ℕ
  pub username : Text
  pub email : Option Text
  pub display_name : Text
  pub password_hash : Text
  pub role : Role
  pub status : Status
  pub must_change_password : Bool
  pub failed_login_count : ℕ
  pub locked_until : Option ℕ
  pub last_login_at : Option ℕ
  pub password_changed_at : ℕ
  pub created_by : Option ℕ
  pub created_at : ℕ
  pub updated_at : ℕ
  pub disabled_at : Option ℕ
  pub deleted_at : Option ℕ
  pub version : ℕ

pub record Session : Type 0 where
  pub id : ℕ
  pub user_id : ℕ
  pub token_hash : Text
  pub csrf_token_hash : Text
  pub client_key : Option Text
  pub user_agent_summary : Option Text
  pub created_at : ℕ
  pub last_seen_at : ℕ
  pub idle_expires_at : ℕ
  pub absolute_expires_at : ℕ
  pub revoked_at : Option ℕ
  pub revoke_reason : Option Reason

pub record HistoryRow : Type 0 where
  pub id : ℕ
  pub user_id : ℕ
  pub password_hash : Text
  pub created_at : ℕ

abbrev pub seconds : ℕ → ℕ
seconds n = n * 1000000

abbrev pub minutes : ℕ → ℕ
minutes n = seconds (n * 60)

abbrev pub hours : ℕ → ℕ
hours n = minutes (n * 60)

abbrev pub days : ℕ → ℕ
days n = hours (n * 24)

-- `x IS NULL`
abbrev pub is_null : Option ℕ → Bool
is_null none = true
is_null (some t) = false

-- `role = 'ADMIN'`
abbrev pub is_admin : Role → Bool
is_admin admin = true
is_admin _ = false

-- `status in {"ACTIVE", "PENDING"}`
abbrev pub is_open : Status → Bool
is_open active = true
is_open pending = true
is_open _ = false

-- the first row that passes a test, as `fetchrow` returns it
unfoldable pub find : {A : Type 0} → (A → Bool) → List A → Option A
find p [] = none
find p (row ∷ rows) = let rest = find p rows in if p row then some row else rest

-- `UPDATE … WHERE p`
unfoldable pub update_where : {A : Type 0} → (A → Bool) → (A → A) → List A → List A
update_where p f [] = []
update_where p f (row ∷ rows) = (if p row then f row else row) ∷ update_where p f rows

-- one row put behind those with a smaller key
unfoldable pub insert_by : {A : Type 0} → (A → ℕ) → A → List A → List A
insert_by key row [] = row ∷ []
insert_by key row (r ∷ rows) =
    let rest = insert_by key row rows in if ltb (key r) (key row) then r ∷ rest else row ∷ r ∷ rows

-- `ORDER BY key`; rows with equal keys, which may come in any order, keep theirs
unfoldable pub order_by : {A : Type 0} → (A → ℕ) → List A → List A
unfolding insert_by
order_by key [] = []
order_by key (row ∷ rows) = insert_by key row (order_by key rows)
