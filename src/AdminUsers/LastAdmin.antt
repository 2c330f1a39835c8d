-- ===== src/AdminUsers/LastAdmin.antt =====
-- The last administrator who can log in.
use mathlib.Core.Path.{subst}
use network_diagnostic_tool.Common.{
  ℕ, suc, ◌≤◌, ◌≡◌, ◌≢◌, refl, sym, inl, inr, Bool, true, false, ◌||◌, Option, none, some, List, [],
  ◌∷◌, arith, All, count_if, leb, ◌==◌, ==_iff, nat_eq, Bool-cases, ok,
}
use network_diagnostic_tool.Settings.{Settings}
use network_diagnostic_tool.Accounts.Credentials.{Crypto}
use network_diagnostic_tool.Accounts.Tables.{User, locked, is_admin, find, update_where}
use network_diagnostic_tool.Accounts.Rows.{find-holds}
use network_diagnostic_tool.Accounts.Events.{World, add_auth_event}
use network_diagnostic_tool.Accounts.Login.{has_id}
use network_diagnostic_tool.Accounts.Granted.{transaction-ok}
use network_diagnostic_tool.Accounts.Tokens.{HasUniqueIds}
use network_diagnostic_tool.AdminUsers.Defs.{
  UserUpdateRequest, Call, takes_role, disables, is_working_admin, is_present, admin_event,
  revoke_all, mark_updated, is_protected, write_update, update_body, update_user,
}

-- an update of the other rows' id changes no row
update_where-absent :
    (id : ℕ) (f : User → User) (rows : List User)
    → All (λ (r : User). r.id ≢ id) rows
    → update_where (has_id id) f rows ≡ rows
unfolding update_where
update_where-absent id f [] h = refl
update_where-absent id f (r ∷ rows) (ne, h) =
    ground (arith, ==_iff r.id id, update_where-absent id f rows h)

-- an update of one row takes at most that row out of a count
count_if-update_where :
    (p : User → Bool) (f : User → User) (id : ℕ) (rows : List User)
    → HasUniqueIds rows
    → count_if p rows ≤ suc (count_if p (update_where (has_id id) f rows))
unfolding update_where
count_if-update_where p f id [] keys = omega arith
count_if-update_where p f id (r ∷ rows) (ne, keys) = elim (Bool-cases (r.id == id)) [
  | inl hit ↦ ground (arith, hit, ==_iff r.id id, update_where-absent r.id f rows ne)
  | inr miss ↦ ground (arith, miss, count_if-update_where p f id rows keys)
]

-- an update that keeps the rows of a test takes none out of their count
count_if-kept :
    (p q : User → Bool) (f : User → User) (rows : List User)
    → ((r : User) → p r ≡ true → p (f r) ≡ true)
    → count_if p rows ≤ count_if p (update_where q f rows)
unfolding update_where
count_if-kept p q f [] keep = omega arith
count_if-kept p q f (r ∷ rows) keep = ground (arith, keep r, count_if-kept p q f rows keep)

-- no administrator is missed where the row that changes was none
count_if-uncounted :
    (f : User → User) (u : User) (rows : List User)
    → HasUniqueIds rows
    → find (is_present u.id) rows ≡ some u
    → is_working_admin u ≡ false
    → count_if is_working_admin rows ≤ count_if is_working_admin (update_where (has_id u.id) f rows)
unfolding find update_where is_present is_working_admin
count_if-uncounted f u [] keys h out = cc
count_if-uncounted f u (r ∷ rows) (ne, keys) h out = elim (Bool-cases (r.id == u.id)) [
  | inl hit ↦ ground (arith, hit, ==_iff r.id u.id, update_where-absent r.id f rows ne)
  | inr miss ↦ ground (arith, miss, count_if-uncounted f u rows keys)
]

module _ (s : Settings) (x : Crypto) (c : Call) where
  -- an update that neither takes the role nor closes the account
  mark_updated-working :
      (p : UserUpdateRequest) (r : User)
      → takes_role p.role ≡ false
      → disables p.status ≡ false
      → p.status ≢ some locked
      → is_working_admin r ≡ true
      → is_working_admin (mark_updated s x c p r) ≡ true
  unfolding takes_role disables is_working_admin mark_updated
  mark_updated-working p r role status unlocked h = ground arith

  write_update-users :
      (p : UserUpdateRequest) (u v : User) (w w' : World)
      → write_update s x c p u w ≡ (ok v, w')
      → w'.db.users ≡ update_where (has_id u.id) (mark_updated s x c p) w.db.users
  unfolding write_update admin_event add_auth_event revoke_all
  write_update-users p u v w w' h = ground arith

  not_working : (u : User) → is_admin u.role ≡ false → is_working_admin u ≡ false
  unfolding is_working_admin
  not_working u h = ground arith

  update_keeps :
      (p : UserUpdateRequest) (u : User) (users : List User)
      → HasUniqueIds users
      → find (is_present u.id) users ≡ some u
      → p.status ≢ some locked
      → is_protected s x c p u users ≡ false
      → 1 ≤ count_if is_working_admin users
      → 1 ≤ count_if is_working_admin (update_where (has_id u.id) (mark_updated s x c p) users)
  unfolding is_protected
  update_keeps p u users keys found unlocked free some_admin = elim (Bool-cases (is_admin u.role)) [
    | inr other ↦
        omega (
          arith,
          count_if-uncounted (mark_updated s x c p) u users keys found (not_working u other),
        )
    | inl is ↦ elim (Bool-cases (takes_role p.role || disables p.status)) [
      | inl demotes ↦
          let more : leb (count_if is_working_admin users) 1 ≡ false =
            ground (arith, is, demotes) in
          ground (
            arith,
            more,
            count_if-update_where is_working_admin (mark_updated s x c p) u.id users keys,
          )
      | inr stays ↦
          let role : takes_role p.role ≡ false = ground (arith, stays) in
          let status : disables p.status ≡ false = ground (arith, stays) in
          omega (
            arith,
            count_if-kept is_working_admin (has_id u.id) (mark_updated s x c p) users
                (λ r h. mark_updated-working p r role status unlocked h),
          )
    ]
  ]

  present_id : (id : ℕ) (u : User) → is_present id u ≡ true → u.id ≡ id
  unfolding is_present
  present_id id u h = ground (arith, ==_iff u.id id)

  update_body-admins :
      (id : ℕ) (p : UserUpdateRequest) (w w' : World) (o : Option User) (v : User)
      → HasUniqueIds w.db.users
      → p.status ≢ some locked
      → 1 ≤ count_if is_working_admin w.db.users
      → find (is_present id) w.db.users ≡ o
      → update_body s x c p w o ≡ (ok v, w')
      → 1 ≤ count_if is_working_admin w'.db.users
  unfolding update_body
  update_body-admins id p w w' none v keys unlocked some_admin found h = cc
  update_body-admins id p w w' (some u) v keys unlocked some_admin found h =
      let (free, written) : (is_protected s x c p u w.db.users ≡ false)
          × (write_update s x c p u w ≡ (ok v, w')) =
        ground arith in
      let same = present_id id u (find-holds (is_present id) w.db.users u found) in
      rw (write_update-users p u v w w' written) (
        update_keeps p u w.db.users keys
          (subst (λ i. find (is_present i) w.db.users ≡ some u) (sym same) found) unlocked free
          some_admin)

  -- Where no two users have one id, and an administrator works, one who is active or pending and not
  -- deleted: an update of a user that succeeds leaves a working administrator, unless the update sets
  -- the status LOCKED.
  pub update_user-admins :
      (id : ℕ) (p : UserUpdateRequest) (w w' : World) (v : User)
      → HasUniqueIds w.db.users
      → p.status ≢ some locked
      → 1 ≤ count_if is_working_admin w.db.users
      → update_user s x c id p w ≡ (ok v, w')
      → 1 ≤ count_if is_working_admin w'.db.users
  unfolding update_user
  update_user-admins id p w w' v keys unlocked some_admin h =
      let (_, body) =
        transaction-ok s (λ v. update_body s x c p v (find (is_present id) v.db.users)) w w' v h in
      update_body-admins id p w w' (find (is_present id) w.db.users) v keys unlocked some_admin refl
        body
