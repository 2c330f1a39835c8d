-- ===== src/Guards/Usable.antt =====
-- What a login is good for: the guards let its requests pass.
use network_diagnostic_tool.Common.{
  ℕ, ◌+◌, ◌<◌, ◌≡◌, ◌∙◌, refl, ap, Bool, true, false, ◌&&◌, Option, none, some, List, [], ◌∷◌, ◌++◌,
  arith, Text, any, non_empty, ◌==◌, ==_refl, list_eq, nat_eq, ok,
}
use network_diagnostic_tool.Exceptions.{Raises}
use network_diagnostic_tool.Settings.{Settings}
use network_diagnostic_tool.Accounts.Credentials.{Crypto, hash_token}
use network_diagnostic_tool.Accounts.Tables.{
  Role, User, Session, minutes, hours, is_null, find, update_where,
}
use network_diagnostic_tool.Accounts.Events.{World}
use network_diagnostic_tool.Accounts.Login.{
  AuthContext, Attempt, Login, has_id, new_session, reopened, drop_excess, context_of, authenticate,
}
use network_diagnostic_tool.Accounts.Granted.{transaction-ok, authenticate-Granted}
use network_diagnostic_tool.Accounts.Limit.{insert_session-append}
use network_diagnostic_tool.Accounts.Tokens.{
  HasUniqueIds, absolute_hours, authenticate-resolve_session,
}
use network_diagnostic_tool.Accounts.Sessions.{
  is_live_token, session_has_id, refresh, touch, resolve_row, resolve_found, resolve_session,
  csrf_matches,
}
use network_diagnostic_tool.Guards.Defs.{
  Request, Visit, and_then, has_role, cookie_name, after_resolve, after_cookie,
  require_current_user, after_match, check_tokens, user_of, require_csrf, check_role, require_roles,
  router_guard,
}

-- the row that `csrf_matches` looks for
abbrev has_csrf : ℕ → Text → Session → Bool
has_csrf id hash r = r.id == id && (r.csrf_token_hash == hash && is_null r.revoked_at)

any-refresh :
    (s : Settings) (now id : ℕ) (hash : Text) (q : Session → Bool) (rows : List Session)
    → any (has_csrf id hash) (update_where q (refresh s now) rows) ≡ any (has_csrf id hash) rows
unfolding update_where refresh
any-refresh s now id hash q [] = refl
any-refresh s now id hash q (r ∷ rows) = ground (arith, any-refresh s now id hash q rows)

any-last :
    (p : Session → Bool) (rows : List Session) (new : Session)
    → p new ≡ true
    → any p (rows ++ new ∷ []) ≡ true
any-last p [] new h = ground arith
any-last p (r ∷ rows) new h = ground (arith, any-last p rows new)

module _ (s : Settings) (x : Crypto) where
  touch-csrf :
      (now id : ℕ) (hash : Text) (r : Session) (w : World)
      → any (has_csrf id hash) (touch s now r w).db.sessions ≡ any (has_csrf id hash) w.db.sessions
  unfolding touch
  touch-csrf now id hash r w =
      ground (arith, any-refresh s now id hash (session_has_id r.id) w.db.sessions)

  resolve_row-csrf :
      (now id : ℕ) (hash : Text) (r : Session) (o : Option User) (w w' : World)
      (context : AuthContext)
      → resolve_row s now r o w ≡ (ok (some context), w')
      → any (has_csrf id hash) w'.db.sessions ≡ any (has_csrf id hash) w.db.sessions
  unfolding resolve_row
  resolve_row-csrf now id hash r none w w' context h = cc
  resolve_row-csrf now id hash r (some u) w w' context h =
      let same : touch s now r w ≡ w' = ground arith in rw (← same) (touch-csrf now id hash r w)

  resolve_found-csrf :
      (now id : ℕ) (hash : Text) (o : Option Session) (w w' : World) (context : AuthContext)
      → resolve_found s now o w ≡ (ok (some context), w')
      → any (has_csrf id hash) w'.db.sessions ≡ any (has_csrf id hash) w.db.sessions
  unfolding resolve_found
  resolve_found-csrf now id hash none w w' context h = cc
  resolve_found-csrf now id hash (some r) w w' context h =
      resolve_row-csrf now id hash r (find (has_id r.user_id) w.db.users) w w' context h

  -- looking a session up leaves the CSRF tokens
  resolve_session-csrf :
      (now id : ℕ) (token csrf : Text) (w w' : World) (context : AuthContext)
      → resolve_session s x now token w ≡ (ok (some context), w')
      → csrf_matches s x id csrf w' ≡ csrf_matches s x id csrf w
  unfolding resolve_session csrf_matches
  resolve_session-csrf now id token csrf w w' context h =
      let (on, body) =
        transaction-ok s
          (λ v. resolve_found s now (find (is_live_token (hash_token s x token)) v.db.sessions) v) w
          w' (some context) h in
      rw (
        resolve_found-csrf now id (hash_token s x csrf)
          (find (is_live_token (hash_token s x token)) w.db.sessions) w w' context body)

  authenticate-csrf :
      (a : Attempt) (w w' : World) (l : Login)
      → s.database_enabled ≡ true
      → authenticate s x a w ≡ (ok (some l), w')
      → csrf_matches s x l.context.session_id l.csrf_token w' ≡ ok true
  unfolding csrf_matches context_of new_session
  authenticate-csrf a w w' l on h =
      let g = authenticate-Granted s x a w w' l h in
      let u = reopened s x a g.row in
      let kept = drop_excess s x a u.id w.db.sessions in
      let new = new_session s x a u in
      let there : any (has_csrf a.session_id (hash_token s x a.csrf_token)) (kept ++ new ∷ [])
          ≡ true =
        any-last (has_csrf a.session_id (hash_token s x a.csrf_token)) kept new
          (ground (arith, ==_refl a.session_id, ==_refl (hash_token s x a.csrf_token))) in
      rw (g.login, g.world, insert_session-append s x a new kept g.sessions g.inserted)
        (ground (arith, on, there))

  -- the visit behind the guard
  abbrev pub passed : Visit → ℕ → Text → AuthContext → Visit
  passed v now token context = record {
    request = record v.request { current_user = some context };
    world = (resolve_session s x now token v.world).1;
  }

  module _ (v : Visit) (now : ℕ) (token csrf : Text) (context : AuthContext) where
    require_current_user-passes :
        s.auth_enabled ≡ true
        → v.request.cookies (cookie_name s x) ≡ some token
        → non_empty token ≡ true
        → (resolve_session s x now token v.world).0 ≡ ok (some context)
        → require_current_user s x now v ≡ (ok (some context), passed v now token context)
    unfolding require_current_user after_cookie after_resolve
    require_current_user-passes on cookie full resolved = ground arith

    require_roles-passes :
        (roles : List Role)
        → require_current_user s x now v ≡ (ok (some context), passed v now token context)
        → context.must_change_password ≡ false
        → has_role context.role roles ≡ true
        → require_roles s x roles now v ≡ (ok (some context), passed v now token context)
    unfolding require_roles check_role and_then
    require_roles-passes roles first free role = ground arith

    require_csrf-passes :
        (csrf_now : ℕ)
        → s.auth_enabled ≡ true
        → v.request.x_csrf_token ≡ some csrf
        → v.request.cookies s.csrf_cookie_name ≡ some csrf
        → non_empty csrf ≡ true
        → csrf_matches s x context.session_id csrf (resolve_session s x now token v.world).1
          ≡ ok true
        → require_csrf s x csrf_now (passed v now token context)
          ≡ (ok tt, passed v now token context)
    unfolding require_csrf user_of check_tokens after_match and_then
    require_csrf-passes csrf_now on header cookie full matches = ground (arith, ==_refl csrf)

  -- A request that carries what a login has handed out: both cookies, and the CSRF token once more in
  -- the header.
  pub record Carries (l : Login) (request : Request) : Type 0 where
    pub session_cookie : request.cookies (cookie_name s x) ≡ some l.token
    pub csrf_cookie : request.cookies s.csrf_cookie_name ≡ some l.csrf_token
    pub csrf_header : request.x_csrf_token ≡ some l.csrf_token
    pub full : (non_empty l.token ≡ true) × (non_empty l.csrf_token ≡ true)

  -- Where authentication and the database are on and no two users have one id: after a login that
  -- succeeds, up to the idle time and to the absolute time of the user's role, a request that carries
  -- its tokens passes the guard of every router that the user's role may use, if the user need not change
  -- the password.
  pub authenticate-router_guard :
      (a : Attempt) (w w' : World) (l : Login) (request : Request) (roles : List Role)
      (now csrf_now : ℕ)
      → s.auth_enabled ≡ true
      → s.database_enabled ≡ true
      → HasUniqueIds w.db.users
      → authenticate s x a w ≡ (ok (some l), w')
      → Carries l request
      → has_role l.context.role roles ≡ true
      → l.context.must_change_password ≡ false
      → now < a.now + minutes s.session_idle_minutes
      → now < a.now + hours (absolute_hours s l.context.role)
      → (router_guard s x roles now csrf_now (record { request = request; world = w' })).0 ≡ ok tt
  unfolding router_guard and_then
  authenticate-router_guard a w w' l request roles now csrf_now on db keys h c role free idle
        absolute =
      let v : Visit = record { request = request; world = w' } in
      let resolved = authenticate-resolve_session s x a w w' l now keys h idle absolute in
      let whole : resolve_session s x now l.token w'
          ≡ (ok (some l.context), (resolve_session s x now l.token w').1) =
        ap (λ (r : Raises (Option AuthContext)). (r, (resolve_session s x now l.token w').1))
          resolved in
      let matches : csrf_matches s x l.context.session_id l.csrf_token
            (resolve_session s x now l.token w').1
          ≡ ok true =
        resolve_session-csrf now l.context.session_id l.token l.csrf_token w'
          (resolve_session s x now l.token w').1 l.context whole
        ∙ authenticate-csrf a w w' l db h in
      let first =
        require_current_user-passes v now l.token l.csrf_token l.context on c.session_cookie
          c.full.0 resolved in
      let second =
        require_roles-passes v now l.token l.csrf_token l.context roles first free role in
      let third =
        require_csrf-passes v now l.token l.csrf_token l.context csrf_now on c.csrf_header
          c.csrf_cookie c.full.1 matches in
      ground (arith, second, third)
