-- ===== src/SessionRoutes/LoggedIn.antt =====
-- What the answer to a login is good for: app/api/auth.py with app/core/auth_deps.py.
use network_diagnostic_tool.Common.{
  ℕ, ◌+◌, ◌<◌, ◌≡◌, ap, inl, inr, true, false, Option, none, some, List, arith, Text, non_empty,
  All, ok, raised, Bool-cases,
}
use network_diagnostic_tool.Exceptions.{Raises}
use network_diagnostic_tool.Settings.{Settings}
use network_diagnostic_tool.Accounts.Credentials.{Crypto}
use network_diagnostic_tool.Accounts.Tables.{Role, minutes, hours}
use network_diagnostic_tool.Accounts.Events.{World}
use network_diagnostic_tool.Accounts.Login.{Attempt, Login, authenticate}
use network_diagnostic_tool.Accounts.Granted.{authenticate-Granted}
use network_diagnostic_tool.Accounts.Tokens.{HasUniqueIds, absolute_hours}
use network_diagnostic_tool.Guards.ClientIp.{Peer}
use network_diagnostic_tool.Guards.Defs.{Request, has_role, router_guard}
use network_diagnostic_tool.Guards.Usable.{Carries, authenticate-router_guard}
use network_diagnostic_tool.SessionRoutes.Defs.{
  Cookie, UserData, Reply, LoginRequest, logged_in, user_data, login_cookies, after_authenticate,
  attempt_of, login,
}

-- the request has the cookie
abbrev pub HasCookie : Request → Cookie → Type 0
HasCookie request cookie = request.cookies cookie.key ≡ some cookie.value

module _ (s : Settings) (x : Crypto) (request_id : ℕ) where
  -- a login whose answer names a user
  record Answered (before : Raises (Option Login) × World) (reply : Reply) (user : UserData)
      (w : World) : Type 0 where
    pub login : Login
    pub returned : before ≡ (ok (some login), w)
    pub user_is : user ≡ user_data login.context
    pub cookies_are : reply.cookies ≡ login_cookies s x login

  after_authenticate-Answered :
      (message : Text) (before : Raises (Option Login) × World) (reply : Reply) (user : UserData)
      (w : World)
      → after_authenticate s x request_id message before ≡ (ok reply, w)
      → reply.response.content.content ≡ some (logged_in user)
      → Answered before reply user w
  unfolding after_authenticate
  after_authenticate-Answered message (raised e, v) reply user w h c = cc
  after_authenticate-Answered message (ok none, v) reply user w h c = absurd (ground arith)
  after_authenticate-Answered message (ok (some l), v) reply user w h c = record {
    login = l;
    returned = ground arith;
    user_is = ground arith;
    cookies_are = ground arith;
  }

  login-Answered :
      (message : Text) (payload : LoginRequest) (peer : Peer) (agent : Option Text) (a : Attempt)
      (w w' : World) (reply : Reply) (user : UserData)
      → login s x request_id message payload peer agent a w ≡ (ok reply, w')
      → reply.response.content.content ≡ some (logged_in user)
      → (s.auth_enabled ≡ true)
        × Answered
            (authenticate s x (attempt_of s x request_id payload peer agent a) w)
            reply
            user
            w'
  unfolding login
  login-Answered message payload peer agent a w w' reply user h c =
      elim (Bool-cases s.auth_enabled) [
        | inl on ↦
            let after : after_authenticate s x request_id message
                  (authenticate s x (attempt_of s x request_id payload peer agent a) w)
                ≡ (ok reply, w') =
              ground (arith, on) in
            (
              on,
              after_authenticate-Answered message
                  (authenticate s x (attempt_of s x request_id payload peer agent a) w) reply user
                  w' after c,
            )
        | inr off ↦ absurd (ground (arith, off))
      ]

  -- Where the database is on and no two users have one id: after a login whose answer names a user,
  -- up to the idle time and to the absolute time of the role in the answer, the administrators' for an
  -- administrator and the ordinary one for the others, a request that has the cookies of the answer,
  -- neither of them empty, with the CSRF token once more in its header, passes the guard of every
  -- router that the role may use, if the answer does not ask for another password.
  pub login-router_guard :
      (message : Text) (payload : LoginRequest) (peer : Peer) (agent : Option Text) (a : Attempt)
      (w w' : World) (reply : Reply) (user : UserData) (request : Request) (roles : List Role)
      (now csrf_now : ℕ)
      → s.database_enabled ≡ true
      → HasUniqueIds w.db.users
      → login s x request_id message payload peer agent a w ≡ (ok reply, w')
      → reply.response.content.content ≡ some (logged_in user)
      → All (HasCookie request) reply.cookies
      → request.x_csrf_token ≡ request.cookies s.csrf_cookie_name
      → (non_empty a.token ≡ true) × (non_empty a.csrf_token ≡ true)
      → has_role user.role roles ≡ true
      → user.must_change_password ≡ false
      → now < a.now + minutes s.session_idle_minutes
      → now < a.now + hours (absolute_hours s user.role)
      → (router_guard s x roles now csrf_now (record { request = request; world = w' })).0 ≡ ok tt
  unfolding login_cookies
  login-router_guard message payload peer agent a w w' reply user request roles now csrf_now db keys
        h c has same full role free idle absolute =
      let attempt = attempt_of s x request_id payload peer agent a in
      let (on, answered) = login-Answered message payload peer agent a w w' reply user h c in
      let l = answered.login in
      let g = authenticate-Granted s x attempt w w' l answered.returned in
      let (session, (csrf, _)) : All (HasCookie request) (login_cookies s x l) =
        rw answered.cookies_are at has in
      let carries : Carries s x l request = record {
        session_cookie = session;
        csrf_cookie = csrf;
        csrf_header = rw same csrf;
        full =
            rw (ap (λ (d : Login). d.token) g.login, ap (λ (d : Login). d.csrf_token) g.login) full;
      } in
      authenticate-router_guard s x attempt w w' l request roles now csrf_now on db keys
        answered.returned carries (rw (← ap (λ (d : UserData). d.role) answered.user_is) role)
        (rw (← ap (λ (d : UserData). d.must_change_password) answered.user_is) free) idle
        (rw (← ap (λ (d : UserData). d.role) answered.user_is) absolute)
