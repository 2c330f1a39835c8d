-- ===== src/Accounts/LockedOut.antt =====
-- A lock lasts, whoever else tries to log in meanwhile: `authenticate` of app/services/auth_service.py.
use network_diagnostic_tool.Common.{
  ℕ, ◌+◌, ◌<◌, ◌≡◌, ◌≢◌, ◌∙◌, refl, sym, ap, inl, inr, Bool, true, false, Option, none, some, List,
  [], ◌∷◌, ◌++◌, arith, Text, All, length, ◌==◌, ==_iff, nat_eq, list_eq, Bool-cases, ok, raised,
  if◌then◌else◌,
}
use network_diagnostic_tool.Exceptions.{Raises, other_error}
use network_diagnostic_tool.Settings.{Settings}
use network_diagnostic_tool.Accounts.Credentials.{Crypto, verify_password}
use network_diagnostic_tool.Accounts.Tables.{
  User, Session, locked, minutes, is_open, find, update_where,
}
use network_diagnostic_tool.Accounts.Rows.{find-holds}
use network_diagnostic_tool.Accounts.Events.{World, add_auth_event, rolled_back, transaction}
use network_diagnostic_tool.Accounts.Login.{
  Attempt, has_name, has_id, reopen, reopened, reopen_due, mark_failure, mark_success, fail, finish,
  succeed, known, login_body, authenticate,
}
use network_diagnostic_tool.Accounts.Tokens.{HasUniqueIds, find-has_id}
use network_diagnostic_tool.Accounts.Lockout.{
  IsWrong, attempts, failures_lock, authenticate-locked, has_name-not_deleted,
}

-- An update that keeps what a user is found by.
record IsRename (f : User → User) : Type 0 where
  same_id : (r : User) → (f r).id ≡ r.id
  same_name : (name : Text) (r : User) → has_name name (f r) ≡ has_name name r

update_where-others :
    (id : ℕ) (q : User → Bool) (f : User → User) (users : List User)
    → IsRename f
    → All (λ (v : User). v.id ≢ id) users
    → All (λ (v : User). v.id ≢ id) (update_where q f users)
unfolding update_where
update_where-others id q f [] rename h = tt
update_where-others id q f (r ∷ users) rename (ne, h) = elim (Bool-cases (q r)) [
  | inl hit ↦ rw hit (rw (rename.same_id r) ne, update_where-others id q f users rename h)
  | inr miss ↦ rw miss (ne, update_where-others id q f users rename h)
]

update_where-HasUniqueIds :
    (q : User → Bool) (f : User → User) (users : List User)
    → IsRename f
    → HasUniqueIds users
    → HasUniqueIds (update_where q f users)
unfolding update_where
update_where-HasUniqueIds q f [] rename h = tt
update_where-HasUniqueIds q f (r ∷ users) rename (others, h) = elim (Bool-cases (q r)) [
  | inl hit ↦ rw hit (
    rw (rename.same_id r) (update_where-others r.id q f users rename others),
    update_where-HasUniqueIds q f users rename h,
  )
  | inr miss ↦ rw miss (
    update_where-others r.id q f users rename others,
    update_where-HasUniqueIds q f users rename h,
  )
]

-- an update of other rows leaves the user who is found
find-other :
    (name : Text) (q : User → Bool) (f : User → User) (users : List User) (v : User)
    → IsRename f
    → q v ≡ false
    → find (has_name name) users ≡ some v
    → find (has_name name) (update_where q f users) ≡ some v
unfolding find update_where
find-other name q f [] v rename other h = cc
find-other name q f (r ∷ users) v rename other h =
    ground (arith, rename.same_name name r, find-other name q f users v rename other)

-- What an attempt does to the users, where `P` is kept by the updates of the user who is named.
module _ (s : Settings) (x : Crypto) (a : Attempt) (P : List User → Type 0) where
  abbrev KeepsAt : ℕ → Type 0
  KeepsAt id =
      (f : User → User) (users : List User)
      → IsRename f
      → P users
      → P (update_where (has_id id) f users)

  mark_failure-IsRename : (u : User) → IsRename (mark_failure s x a u)
  unfolding mark_failure has_name
  mark_failure-IsRename u = record { same_id = λ r. refl; same_name = λ name r. refl }

  mark_success-IsRename : (u : User) → IsRename (mark_success s x a u)
  unfolding mark_success has_name
  mark_success-IsRename u = record { same_id = λ r. refl; same_name = λ name r. refl }

  reopen-IsRename : IsRename reopen
  unfolding has_name
  reopen-IsRename = record { same_id = λ r. refl; same_name = λ name r. refl }

  if-keeps :
      (b : Bool) (v w : World) → P v.db.users → P w.db.users → P (if b then v else w).db.users
  if-keeps true v w pv pw = pv
  if-keeps false v w pv pw = pw

  if_end-keeps :
      {A : Type 0} (b : Bool) (m n : Raises A × World)
      → P m.1.db.users
      → P n.1.db.users
      → P (if b then m else n).1.db.users
  if_end-keeps true m n pm pn = pm
  if_end-keeps false m n pm pn = pn

  reopen_due-keeps :
      (u : User) (w : World) → KeepsAt u.id → P w.db.users → P (reopen_due s x a u w).db.users
  unfolding reopen_due
  reopen_due-keeps u w at p = if-keeps _ _ w (at reopen w.db.users reopen-IsRename p) p

  fail-keeps : (u : User) (w : World) → KeepsAt u.id → P w.db.users → P (fail s x a u w).1.db.users
  unfolding fail add_auth_event
  fail-keeps u w at p = at (mark_failure s x a u) w.db.users (mark_failure-IsRename u) p

  finish-keeps :
      (u : User) (w : World) (r : Raises (List Session))
      → P w.db.users
      → P (finish s x a u w r).1.db.users
  unfolding finish add_auth_event
  finish-keeps u w (ok sessions) p = p
  finish-keeps u w (raised e) p = p

  succeed-keeps :
      (u : User) (w : World) → KeepsAt u.id → P w.db.users → P (succeed s x a u w).1.db.users
  unfolding succeed
  succeed-keeps u w at p =
      finish-keeps u _ _ (at (mark_success s x a u) w.db.users (mark_success-IsRename u) p)

  known-keeps :
      (u : User) (w : World) → KeepsAt u.id → P w.db.users → P (known s x a u w).1.db.users
  unfolding known add_auth_event
  known-keeps u w at p = elim (Bool-cases (is_open u.status)) [
    | inl opened ↦ elim (Bool-cases (verify_password s x a.password u.password_hash)) [
      | inl right ↦ rw (opened, right) (succeed-keeps u w at p)
      | inr wrong ↦ rw (opened, wrong) (fail-keeps u w at p)
    ]
    | inr shut ↦ rw shut p
  ]

  same_id : (u : User) → (reopened s x a u).id ≡ u.id
  unfolding reopened
  same_id u = ground arith

  login_body-keeps :
      (w : World) (o : Option User)
      → ((u : User) → o ≡ some u → KeepsAt u.id)
      → P w.db.users
      → P (login_body s x a w o).1.db.users
  unfolding login_body add_auth_event
  login_body-keeps w none at p = p
  login_body-keeps w (some u) at p =
      known-keeps (reopened s x a u) (reopen_due s x a u w) (rw (same_id u) (at u refl))
        (reopen_due-keeps u w (at u refl) p)

  rolled_back-keeps :
      {A : Type 0} (w : World) (end : Raises A × World)
      → P w.db.users
      → P end.1.db.users
      → P (rolled_back w.db end).1.db.users
  unfolding rolled_back
  rolled_back-keeps w (ok r, v) p q = q
  rolled_back-keeps w (raised e, v) p q = p

  transaction-keeps :
      {A : Type 0} (body : World → Raises A × World) (w : World)
      → P w.db.users
      → P (body w).1.db.users
      → P (transaction s body w).1.db.users
  unfolding transaction
  transaction-keeps {A} body w p q =
      if_end-keeps {A = A} s.database_enabled (rolled_back w.db (body w)) (raised other_error, w)
        (rolled_back-keeps w (body w) p q) p

  authenticate-keeps :
      (w : World)
      → ((u : User) → find (has_name a.username) w.db.users ≡ some u → KeepsAt u.id)
      → P w.db.users
      → P (authenticate s x a w).1.db.users
  unfolding authenticate
  authenticate-keeps w at p =
      transaction-keeps (λ v. login_body s x a v (find (has_name a.username) v.db.users)) w p
        (login_body-keeps w (find (has_name a.username) w.db.users) at p)

module _ (s : Settings) (x : Crypto) where
  authenticate-HasUniqueIds :
      (a : Attempt) (w : World)
      → HasUniqueIds w.db.users
      → HasUniqueIds (authenticate s x a w).1.db.users
  authenticate-HasUniqueIds a w keys =
      authenticate-keeps s x a HasUniqueIds w
        (λ u found f users rename h. update_where-HasUniqueIds (has_id u.id) f users rename h) keys

  attempts-HasUniqueIds :
      (rest : List Attempt) (w : World)
      → HasUniqueIds w.db.users
      → HasUniqueIds (attempts s x rest w).db.users
  unfolding attempts
  attempts-HasUniqueIds [] w keys = keys
  attempts-HasUniqueIds (a ∷ rest) w keys =
      attempts-HasUniqueIds rest (authenticate s x a w).1 (authenticate-HasUniqueIds a w keys)

  -- The user of the name is locked up to a time.
  abbrev IsLockedOut : Text → ℕ → List User → Type 0
  IsLockedOut name until users =
      (v : User) × (find (has_name name) users ≡ some v)
      × (v.status ≡ locked)
      × (v.locked_until ≡ some until)

  -- another user has another id
  other_user :
      (name other : Text) (users : List User) (u v : User)
      → HasUniqueIds users
      → find (has_name other) users ≡ some u
      → find (has_name name) users ≡ some v
      → other ≢ name
      → (v.id == u.id) ≡ false
  other_user name other users u v keys found_u found_v ne = elim (Bool-cases (v.id == u.id)) [
    | inl same ↦
        let by_u = find-has_id (has_name other) users u keys found_u in
        let by_v = find-has_id (has_name name) users v keys found_v in
        let ids : v.id ≡ u.id = (==_iff v.id u.id).0 same in
        let named_u =
          (has_name-not_deleted other u (find-holds (has_name other) users u found_u)).0 in
        let named_v =
          (has_name-not_deleted name v (find-holds (has_name name) users v found_v)).0 in
        let by_v' : find (has_id u.id) users ≡ some v =
          ap (λ id. find (has_id id) users) (sym ids) ∙ by_v in
        let one : u ≡ v = cc in
        absurd (ne (sym named_u ∙ ap (λ (r : User). r.username) one ∙ named_v))
    | inr differ ↦ differ
  ]

  authenticate-IsLockedOut :
      (a : Attempt) (name : Text) (until : ℕ) (w : World)
      → s.database_enabled ≡ true
      → HasUniqueIds w.db.users
      → a.now < until
      → IsLockedOut name until w.db.users
      → IsLockedOut name until (authenticate s x a w).1.db.users
  authenticate-IsLockedOut a name until w on keys early (v, found, is_locked, up_to) =
      elim (Bool-cases (a.username == name)) [
        | inl named ↦
            let same = (==_iff a.username name).0 named in
            let untouched =
              (authenticate-locked s x a w v on (rw same found) is_locked
                (inr (until, up_to, early))).1 in
            rw untouched (v, found, is_locked, up_to)
        | inr other ↦
            let ne : a.username ≢ name = λ e. ground (arith, other, (==_iff a.username name).1 e) in
            let found' =
              authenticate-keeps s x a (λ users. find (has_name name) users ≡ some v) w
                (λ u found_u f users rename h.
                  find-other name (has_id u.id) f users v rename
                    (other_user name a.username w.db.users u v keys found_u found ne) h)
                found in
            (v, found', is_locked, up_to)
      ]

  -- attempts that are all made before a time
  abbrev pub IsBefore : ℕ → Attempt → Type 0
  IsBefore until a = a.now < until

  attempts-IsLockedOut :
      (later : List Attempt) (name : Text) (until : ℕ) (w : World)
      → s.database_enabled ≡ true
      → HasUniqueIds w.db.users
      → All (IsBefore until) later
      → IsLockedOut name until w.db.users
      → IsLockedOut name until (attempts s x later w).db.users
  unfolding attempts
  attempts-IsLockedOut [] name until w on keys early lock = lock
  attempts-IsLockedOut (a ∷ later) name until w on keys (first, early) lock =
      attempts-IsLockedOut later name until (authenticate s x a w).1 on
        (authenticate-HasUniqueIds a w keys) early
        (authenticate-IsLockedOut a name until w on keys first lock)

  -- Where the database is on and no two users have one id, from a user with no failure on record and
  -- an open account: as many wrong passwords in a row as the setting allows lock the account, and from
  -- then on no attempt to log in as that user is granted, whatever its password, for as long as the
  -- lock lasts after the last of them, however many attempts, of that user or of others, are made
  -- before it in that time.
  pub wrong_passwords_lock :
      (rest : List Attempt) (last : Attempt) (name : Text) (w : World) (u : User)
      (later : List Attempt) (a : Attempt)
      → s.database_enabled ≡ true
      → HasUniqueIds w.db.users
      → find (has_name name) w.db.users ≡ some u
      → is_open u.status ≡ true
      → u.failed_login_count ≡ 0
      → length rest + 1 ≡ s.login_max_failures
      → All (IsWrong s x name u.password_hash) rest
      → IsWrong s x name u.password_hash last
      → All (IsBefore (last.now + minutes s.login_lock_minutes)) later
      → a.username ≡ name
      → a.now < last.now + minutes s.login_lock_minutes
      → (authenticate s x a (attempts s x later (attempts s x (rest ++ last ∷ []) w))).0 ≡ ok none
  wrong_passwords_lock rest last name w u later a on keys found opened fresh many wrong last_wrong
        between named early =
      let until = last.now + minutes s.login_lock_minutes in
      let after = attempts s x (rest ++ last ∷ []) w in
      let lock =
        failures_lock s x rest last name w u on found opened (omega arith) wrong last_wrong in
      let (v, found_v, is_locked, up_to) =
        attempts-IsLockedOut later name until after on
          (attempts-HasUniqueIds (rest ++ last ∷ []) w keys) between lock in
      (authenticate-locked s x a (attempts s x later after) v on (rw named found_v) is_locked
        (inr (until, up_to, early))).0
