-- ===== src/AdminUsers/Listing.antt =====
-- app/api/admin_users.py: `list_users`, which builds its query text with numbered parameters, and
-- `serialize_user`. The pool is at hand, and a page is what the query gives, before the envelope.
use network_diagnostic_tool.Common.{
  ℕ, zero, suc, ◌-◌, Bool, true, ◌&&◌, ◌||◌, Option, none, some, List, [], ◌∷◌, ◌++◌, map, reverse,
  Text, text, non_empty, length, take, drop, keep_if, ◌==◌, list_eq, nat_eq, ok, raised, ◌>>=◌,
  if◌then◌else◌,
}
use network_diagnostic_tool.Exceptions.{Raises, database_error}
use network_diagnostic_tool.Accounts.Tables.{Role, Status, User, is_null, order_by}
use network_diagnostic_tool.AdminUsers.Defs.{role_name, status_name}

-- the columns of an answer
pub record UserItem : Type 0 where
  pub id : ℕ
  pub username : Text
  pub email : Option Text
  pub display_name : Text
  pub role : Role
  pub status : Status
  pub must_change_password : Bool
  pub last_login_at : Option ℕ
  pub created_at : ℕ

abbrev pub serialize_user : User → UserItem
serialize_user u = record {
  id = u.id;
  username = u.username;
  email = u.email;
  display_name = u.display_name;
  role = u.role;
  status = u.status;
  must_change_password = u.must_change_password;
  last_login_at = u.last_login_at;
  created_at = u.created_at;
}

-- an entry of `values`
pub data Value : Type 0 where
  word_value : Text → Value
  int_value : ℕ → Value

pub data Column : Type 0 where
  role_column status_column : Column

-- a member of `clauses`, by the number of its parameter
pub data Clause : Type 0 where
  not_deleted : Clause
  equals : Column → ℕ → Clause
  name_like : ℕ → Clause

-- the query, and the values of its parameters `$1`, `$2`, …
pub record Query : Type 0 where
  pub clauses : List Clause
  pub values : List Value
  pub limit_pos : ℕ
  pub offset_pos : ℕ

abbrev pub Built : Type 0
Built = List Clause × List Value

-- `if value: values.append(value); clauses.append(f"{column}=${len(values)}")`
unfoldable pub add_equals : Column → Option Text → Built → Built
add_equals column none b = b
add_equals column (some value) (clauses, values) =
    if non_empty value
    then (let values' = values ++ word_value value ∷ [] in
        (clauses ++ equals column (length values') ∷ [], values'))
    else (clauses, values)

-- PostgreSQL's `LIKE` and `lower`, and Python's `str.lower`
pub record Matching : Type 0 where
  pub like : Text → Text → Bool
  pub sql_lower : Text → Text
  pub lower : Text → Text

module _ (m : Matching) where
  unfoldable pub add_query : Option Text → Built → Built
  add_query none b = b
  add_query (some query) (clauses, values) =
      if non_empty query
      then (let values' = values ++ word_value (text "%" ++ (m.lower query ++ text "%")) ∷ [] in
          (clauses ++ name_like (length values') ∷ [], values'))
      else (clauses, values)

  unfoldable pub with_limits : ℕ → ℕ → Built → Query
  with_limits limit offset (clauses, values) =
      let all_values = values ++ int_value limit ∷ int_value offset ∷ [] in
      record {
        clauses = clauses;
        values = all_values;
        limit_pos = length all_values - 1;
        offset_pos = length all_values;
      }

  unfoldable pub build_query : Option Text → Option Text → Option Text → ℕ → ℕ → Query
  unfolding add_equals add_query with_limits
  build_query role status query limit offset = with_limits limit offset (
      add_query query
        (add_equals status_column status (add_equals role_column role (not_deleted ∷ [], []))))

  -- what PostgreSQL makes of it: a parameter by its number, of its type
  unfoldable pub value_at : ℕ → List Value → Option Value
  value_at n [] = none
  value_at zero values = none
  value_at (suc zero) (v ∷ values) = some v
  value_at (suc (suc n)) (v ∷ values) = value_at (suc n) values

  abbrev pub word_of : Option Value → Raises Text
  word_of (some (word_value w)) = ok w
  word_of _ = raised database_error

  abbrev pub int_of : Option Value → Raises ℕ
  int_of (some (int_value n)) = ok n
  int_of _ = raised database_error

  abbrev pub column_of : Column → User → Text
  column_of role_column u = role_name u.role
  column_of status_column u = status_name u.status

  abbrev pub name_matches : Text → User → Bool
  name_matches pattern u =
      m.like (m.sql_lower u.username) pattern || m.like (m.sql_lower u.display_name) pattern

  unfoldable pub test_of : List Value → Clause → Raises (User → Bool)
  unfolding value_at
  test_of values not_deleted = ok (λ u. is_null u.deleted_at)
  test_of values (equals column n) = do
    value ← word_of (value_at n values)
    ok (λ u. column_of column u == value)
  test_of values (name_like n) = do pattern ← word_of (value_at n values); ok (name_matches pattern)

  unfoldable pub tests_of : List Value → List Clause → Raises (List (User → Bool))
  unfolding test_of
  tests_of values [] = ok []
  tests_of values (c ∷ clauses) = do
    test ← test_of values c
    tests ← tests_of values clauses
    ok (test ∷ tests)

  unfoldable pub passes_all : List (User → Bool) → User → Bool
  passes_all [] u = true
  passes_all (test ∷ tests) u = test u && passes_all tests u

  unfoldable pub newest_page : ℕ → ℕ → List User → List User
  newest_page limit offset users =
      take limit (drop offset (reverse (order_by (λ (u : User). u.created_at) users)))

  unfoldable pub fetch : Query → List User → Raises (List User)
  unfolding tests_of value_at passes_all newest_page
  fetch q users = do
    tests ← tests_of q.values q.clauses
    limit ← int_of (value_at q.limit_pos q.values)
    offset ← int_of (value_at q.offset_pos q.values)
    ok (newest_page limit offset (keep_if (passes_all tests) users))

  unfoldable pub list_users :
      Option Text → Option Text → Option Text → ℕ → ℕ → List User → Raises (List UserItem)
  unfolding build_query fetch
  list_users role status query limit offset users = do
    found ← fetch (build_query role status query limit offset) users
    ok (map serialize_user found)
