-- ===== src/AdminUsers/ListingTests.antt =====
-- A list of users, by a role and a part of the name.
use network_diagnostic_tool.Common.{
  ◌-◌, ◌≡◌, refl, none, some, List, [], ◌∷◌, text, map, keep_if, has_part, drop, take, length,
  list_eq, nat_eq, ok,
}
use network_diagnostic_tool.Accounts.Tables.{User, admin, order_by}
use network_diagnostic_tool.Accounts.Sample.{kim}
use network_diagnostic_tool.AdminUsers.Listing.{
  Matching, add_equals, add_query, with_limits, build_query, value_at, test_of, tests_of,
  passes_all, newest_page, fetch, list_users, serialize_user,
}
use network_diagnostic_tool.AdminUsers.Filters.{wanted, list_users-eq-wanted}

-- patterns that start and end with `%`, and have no other
abbrev matching : Matching
matching = record {
  like = λ value pattern. has_part value (drop 1 (take (length pattern - 1) pattern));
  sql_lower = λ t. t;
  lower = λ t. t;
}

abbrev lee : User
lee = record kim { id = 8; username = text "lee"; role = admin; created_at = 2 }

abbrev park : User
park = record kim { id = 9; username = text "kimberly"; created_at = 3 }

abbrev users : List User
users = kim ∷ lee ∷ park ∷ []

finds_operators :
    list_users matching (some (text "OPERATOR")) (some []) (some (text "kim")) 50 0 users
    ≡ ok (serialize_user park ∷ serialize_user kim ∷ [])
unfolding list_users fetch build_query add_equals add_query with_limits value_at test_of tests_of
    passes_all newest_page keep_if order_by has_part
finds_operators = refl

list_users-eq-wanted_example :
    list_users matching (some (text "OPERATOR")) none (some (text "kim")) 50 0 users
    ≡ ok (
        map serialize_user (
          newest_page matching 50 0
            (keep_if (wanted matching (some (text "OPERATOR")) none (some (text "kim"))) users)))
list_users-eq-wanted_example =
    list_users-eq-wanted matching (some (text "OPERATOR")) none (some (text "kim")) 50 0 users
