-- ===== src/AdminUsers/Filters.antt =====
-- The list of users holds what was asked for: `list_users` of app/api/admin_users.py.
use network_diagnostic_tool.Common.{
  ℕ, suc, ◌-◌, ◌≡◌, refl, ap, Bool, true, ◌&&◌, Option, none, some, List, [], ◌∷◌, ◌++◌, map,
  append_assoc, arith, Text, text, non_empty, length, keep_if, ◌==◌, list_eq, nat_eq, ok, raised,
  ◌>>=◌, if◌then◌else◌,
}
use mathlib.Core.Path.{fun_ext}
use network_diagnostic_tool.Exceptions.{Raises}
use network_diagnostic_tool.Accounts.Tables.{User, is_null}
use network_diagnostic_tool.AdminUsers.Defs.{role_name, status_name}
use network_diagnostic_tool.AdminUsers.Listing.{
  Value, word_value, int_value, Column, role_column, status_column, Clause, not_deleted, equals,
  name_like, Built, add_equals, Matching, add_query, with_limits, build_query, value_at, column_of,
  name_matches, test_of, tests_of, passes_all, newest_page, fetch, list_users, serialize_user,
}

-- a filter that may be left out, or be empty
abbrev pub if_asked : (Text → User → Bool) → Option Text → User → Bool
if_asked test none u = true
if_asked test (some value) u = if non_empty value then test value u else true

bind-ok :
    {A B : Type 0} (r : Raises A) (next : A → Raises B) (b : B)
    → r >>= next ≡ ok b
    → (a : A) × (r ≡ ok a) × (next a ≡ ok b)
bind-ok (ok a) next b h = (a, refl, h)
bind-ok (raised e) next b h = cc

length-append-one : {A : Type 0} (xs : List A) (a : A) → length (xs ++ a ∷ []) ≡ suc (length xs)
length-append-one [] a = refl
length-append-one (x ∷ xs) a = ap suc (length-append-one xs a)

length-append-two :
    {A : Type 0} (xs : List A) (a b : A) → length (xs ++ a ∷ b ∷ []) ≡ suc (suc (length xs))
length-append-two [] a b = refl
length-append-two (x ∷ xs) a b = ap suc (length-append-two xs a b)

module _ (m : Matching) where
  -- The user is not deleted, has the role and the status that are asked for, and one of the two names
  -- is like the text that is asked for.
  abbrev pub wanted : Option Text → Option Text → Option Text → User → Bool
  wanted role status query u =
      ((is_null u.deleted_at && if_asked (λ value v. role_name v.role == value) role u)
        && if_asked (λ value v. status_name v.status == value) status u)
      && if_asked (λ value. name_matches m (text "%" ++ (m.lower value ++ text "%"))) query u

  value_at-end :
      (values : List Value) (v : Value) (more : List Value)
      → value_at m (suc (length values)) (values ++ v ∷ more) ≡ some v
  unfolding value_at
  value_at-end [] v more = refl
  value_at-end (w ∷ values) v more = value_at-end values v more

  tests_of-append :
      (values : List Value) (clauses : List Clause) (c : Clause) (tests : List (User → Bool))
      (test : User → Bool)
      → tests_of m values clauses ≡ ok tests
      → test_of m values c ≡ ok test
      → tests_of m values (clauses ++ c ∷ []) ≡ ok (tests ++ test ∷ [])
  unfolding tests_of
  tests_of-append values [] c tests test h t =
      let none_yet : [] ≡ tests = cc in rw (t, ← none_yet) refl
  tests_of-append values (d ∷ clauses) c tests test h t =
      let (first, of_first, h') =
        bind-ok (test_of m values d)
          (λ first. tests_of m values clauses >>= λ rest. ok (first ∷ rest)) tests h in
      let (rest, of_rest, built) =
        bind-ok (tests_of m values clauses) (λ rest. ok (first ∷ rest)) tests h' in
      let all : first ∷ rest ≡ tests = cc in
      rw (of_first, tests_of-append values clauses c rest test of_rest t, ← all) refl

  passes_all-append :
      (tests : List (User → Bool)) (test : User → Bool) (u : User)
      → passes_all m (tests ++ test ∷ []) u ≡ passes_all m tests u && test u
  unfolding passes_all
  passes_all-append [] test u = ground arith
  passes_all-append (t ∷ tests) test u = ground (arith, passes_all-append tests test u)

  -- What is built so far stands for the filter `keep`, whatever values follow.
  abbrev Means : Built → (User → Bool) → Type 0
  Means (clauses, values) keep =
      (more : List Value)
      → (tests : List (User → Bool)) × (tests_of m (values ++ more) clauses ≡ ok tests)
        × ((u : User) → passes_all m tests u ≡ keep u)

  -- a clause with the value that it names
  added-Means :
      (clauses : List Clause) (values : List Value) (keep test : User → Bool) (v : Value)
      (clause : ℕ → Clause)
      → ((all : List Value) (n : ℕ)
          → value_at m n all ≡ some v
          → test_of m all (clause n) ≡ ok test)
      → Means (clauses, values) keep
      → Means
          (clauses ++ clause (length (values ++ v ∷ [])) ∷ [], values ++ v ∷ [])
          (λ u. keep u && test u)
  added-Means clauses values keep test v clause reads means more =
      let (tests, built, same) = means (v ∷ more) in
      let all : (values ++ v ∷ []) ++ more ≡ values ++ v ∷ more =
        append_assoc values (v ∷ []) more in
      let at =
        reads (values ++ v ∷ more) (length (values ++ v ∷ []))
          (rw (length-append-one values v) (value_at-end values v more)) in
      (
        tests ++ test ∷ [],
        rw all (
            tests_of-append (values ++ v ∷ more) clauses (clause (length (values ++ v ∷ []))) tests
              test built at),
        λ u. rw (passes_all-append tests test u, same u) refl,
      )

  nothing_added-Means :
      (b : Built) (keep : User → Bool) → Means b keep → Means b (λ u. keep u && true)
  nothing_added-Means b keep means more =
      let (tests, built, same) = means more in (tests, built, λ u. ground (arith, same u))

  add_equals-Means :
      (column : Column) (o : Option Text) (b : Built) (keep : User → Bool)
      → Means b keep
      → Means
          (add_equals column o b)
          (λ u. keep u && if_asked (λ value v. column_of m column v == value) o u)
  unfolding add_equals
  add_equals-Means column none b keep means = nothing_added-Means b keep means
  add_equals-Means column (some []) b keep means = nothing_added-Means b keep means
  add_equals-Means column (some (c ∷ value)) (clauses, values) keep means =
      added-Means clauses values keep (λ u. column_of m column u == c ∷ value)
        (word_value (c ∷ value)) (equals column) (λ all n at. unfold test_of in rw at refl) means

  add_query-Means :
      (o : Option Text) (b : Built) (keep : User → Bool)
      → Means b keep
      → Means (add_query m o b) (λ u.
        keep u && if_asked (λ value. name_matches m (text "%" ++ (m.lower value ++ text "%"))) o u)
  unfolding add_query
  add_query-Means none b keep means = nothing_added-Means b keep means
  add_query-Means (some []) b keep means = nothing_added-Means b keep means
  add_query-Means (some (c ∷ value)) (clauses, values) keep means =
      let pattern = text "%" ++ (m.lower (c ∷ value) ++ text "%") in
      added-Means clauses values keep (name_matches m pattern) (word_value pattern) name_like
        (λ all n at. unfold test_of in rw at refl) means

  fetch-Means :
      (b : Built) (keep : User → Bool) (limit offset : ℕ) (users : List User)
      → Means b keep
      → fetch m (with_limits m limit offset b) users
        ≡ ok (newest_page m limit offset (keep_if keep users))
  unfolding fetch with_limits
  fetch-Means (clauses, values) keep limit offset users means =
      let more = int_value limit ∷ int_value offset ∷ [] in
      let (tests, built, same) = means more in
      let filter : passes_all m tests ≡ keep = fun_ext same in
      let at_limit : value_at m (length (values ++ more) - 1) (values ++ more)
          ≡ some (int_value limit) =
        rw
          (
            length-append-two values (int_value limit) (int_value offset),
            (let one_less : suc (suc (length values)) - 1 ≡ suc (length values) = omega arith in
                one_less),
          )
          (value_at-end values (int_value limit) (int_value offset ∷ [])) in
      let end = value_at-end (values ++ int_value limit ∷ []) (int_value offset) [] in
      let at_offset : value_at m (length (values ++ more)) (values ++ more)
          ≡ some (int_value offset) =
        rw (length-append-two values (int_value limit) (int_value offset)) (
          rw
            (
              length-append-one values (int_value limit),
              append_assoc values (int_value limit ∷ []) (int_value offset ∷ []),
            )
            at end) in
      rw (built, at_limit, at_offset, filter) refl

  -- The query that is put together with numbered parameters runs, each parameter standing at its
  -- number, and gives the page that is asked for of the users that are wanted, the newest first.
  pub list_users-eq-wanted :
      (role status query : Option Text) (limit offset : ℕ) (users : List User)
      → list_users m role status query limit offset users
        ≡ ok (
            map serialize_user
              (newest_page m limit offset (keep_if (wanted role status query) users)))
  unfolding list_users build_query
  list_users-eq-wanted role status query limit offset users =
      let start : Means (not_deleted ∷ [], []) (λ u. is_null u.deleted_at) = λ more. (
        (λ u. is_null u.deleted_at) ∷ [],
        unfold tests_of test_of in refl,
        λ u. unfold passes_all in ground arith,
      ) in
      let first = add_equals role_column role (not_deleted ∷ [], []) in
      let second = add_equals status_column status first in
      let with_role = add_equals-Means role_column role (not_deleted ∷ [], []) _ start in
      let with_status = add_equals-Means status_column status first _ with_role in
      let found =
        fetch-Means (add_query m query second) _ limit offset users
          (add_query-Means query second _ with_status) in
      rw found refl
