-- ===== src/Guards/Authorized.antt =====
-- What a request that the guards let pass has shown.
use mathlib.Core.List.{Mem}
use network_diagnostic_tool.Common.{
  ℕ, ◌≡◌, refl, sym, ap, Bool, true, false, any, ◌&&◌, Option, none, some, List, arith, Text,
  non_empty, ◌==◌, ==_iff, list_eq, nat_eq, ok, raised,
}
use network_diagnostic_tool.Exceptions.{Raises}
use network_diagnostic_tool.Settings.{Settings}
use network_diagnostic_tool.Accounts.Credentials.{Crypto, hash_token}
use network_diagnostic_tool.Accounts.Tables.{Role, Session, is_null}
use network_diagnostic_tool.Accounts.Events.{World}
use network_diagnostic_tool.Accounts.Login.{AuthContext}
use network_diagnostic_tool.Accounts.Sessions.{resolve_session, csrf_matches}
use network_diagnostic_tool.Accounts.Rows.{any-Mem}
use network_diagnostic_tool.Accounts.Resolved.{IsLive, resolve_session-IsLive}
use network_diagnostic_tool.Guards.Defs.{
  Request, Visit, Guarded, and_then, has_role, cookie_name, after_resolve, after_cookie,
  require_current_user, after_match, check_tokens, user_of, require_csrf, check_role, require_roles,
  router_guard,
}

-- a guard and what follows it let a request pass only if both do
pub and_then-ok :
    {A B : Type 0} (g : Guarded A) (next : A → Visit → Guarded B) (b : B) (v' : Visit)
    → and_then g next ≡ (ok b, v')
    → (a : A) × (v : Visit) × (g ≡ (ok a, v)) × (next a v ≡ (ok b, v'))
unfolding and_then
and_then-ok (ok a, v) next b v' h = (a, v, refl, h)
and_then-ok (raised e, v) next b v' h = cc

module _ (s : Settings) (x : Crypto) where
  -- The token of the cookie is the token of a live session, and `v'` is the visit behind it.
  abbrev pub IsLoggedIn : ℕ → Visit → AuthContext → Visit → Type 0
  IsLoggedIn now v context v' =
      (token : Text) × (v.request.cookies (cookie_name s x) ≡ some token)
      × IsLive s x now token v.world context
      × (v'.request ≡ record v.request { current_user = some context })
      × (v'.world ≡ (resolve_session s x now token v.world).1)

  pub after_resolve-ok :
      (v v' : Visit) (end : Raises (Option AuthContext) × World) (o : Option AuthContext)
      → after_resolve s x v end ≡ (ok o, v')
      → (context : AuthContext) × (o ≡ some context)
        × (end ≡ (ok (some context), v'.world))
        × (v'.request ≡ record v.request { current_user = some context })
  unfolding after_resolve
  after_resolve-ok v v' (raised e, w) o h = cc
  after_resolve-ok v v' (ok none, w) o h = cc
  after_resolve-ok v v' (ok (some context), w) o h =
      (context, ground arith, ground arith, ground arith)

  after_cookie-ok :
      (now : ℕ) (v v' : Visit) (cookie : Option Text) (o : Option AuthContext)
      → v.request.cookies (cookie_name s x) ≡ cookie
      → after_cookie s x now v cookie ≡ (ok o, v')
      → (context : AuthContext) × (o ≡ some context) × IsLoggedIn now v context v'
  unfolding after_cookie
  after_cookie-ok now v v' none o given h = cc
  after_cookie-ok now v v' (some token) o given h =
      let passed : after_resolve s x v (resolve_session s x now token v.world) ≡ (ok o, v') =
        ground arith in
      let (context, same, resolved, request) =
        after_resolve-ok v v' (resolve_session s x now token v.world) o passed in
      (
        context,
        same,
        (
          token,
          given,
          resolve_session-IsLive s x now token v.world v'.world context resolved,
          request,
          ap (λ (end : Raises (Option AuthContext) × World). end.1) (sym resolved),
        ),
      )

  require_current_user-ok :
      (now : ℕ) (v v' : Visit) (o : Option AuthContext)
      → s.auth_enabled ≡ true
      → require_current_user s x now v ≡ (ok o, v')
      → (context : AuthContext) × (o ≡ some context) × IsLoggedIn now v context v'
  unfolding require_current_user
  require_current_user-ok now v v' o on h =
      after_cookie-ok now v v' (v.request.cookies (cookie_name s x)) o refl (ground arith)

  require_roles-ok :
      (roles : List Role) (now : ℕ) (v v' : Visit) (o : Option AuthContext)
      → s.auth_enabled ≡ true
      → require_roles s x roles now v ≡ (ok o, v')
      → (context : AuthContext) × IsLoggedIn now v context v'
        × (context.must_change_password ≡ false)
        × (has_role context.role roles ≡ true)
  unfolding require_roles check_role
  require_roles-ok roles now v v' o on h =
      let (user, u, first, second) =
        and_then-ok (require_current_user s x now v) (check_role s x roles) o v' h in
      let (context, same, logged_in) = require_current_user-ok now v u user on first in
      let checked : check_role s x roles (some context) u ≡ (ok o, v') = rw same at second in
      let (unchanged, must, role) : (u ≡ v')
          × (context.must_change_password ≡ false)
          × (has_role context.role roles ≡ true) =
        ground arith in
      (context, rw unchanged at logged_in, must, role)

  -- Both copies of the CSRF token are there and alike, and a row of the session, not revoked, has its
  -- hash.
  abbrev pub HasCsrfToken : Visit → AuthContext → World → Type 0
  HasCsrfToken v context w =
      (token : Text) × (v.request.x_csrf_token ≡ some token)
      × (v.request.cookies s.csrf_cookie_name ≡ some token)
      × (non_empty token ≡ true)
      × ((row : Session) × Mem row w.db.sessions
          × (row.id ≡ context.session_id)
          × (row.csrf_token_hash ≡ hash_token s x token)
          × (row.revoked_at ≡ none))

  after_match-ok :
      (v v' : Visit) (r : Raises Bool) → after_match s x v r ≡ (ok tt, v') → r ≡ ok true
  unfolding after_match
  after_match-ok v v' (raised e) h = cc
  after_match-ok v v' (ok true) h = refl
  after_match-ok v v' (ok false) h = cc

  csrf_matches-row :
      (id : ℕ) (token : Text) (w : World)
      → csrf_matches s x id token w ≡ ok true
      → (row : Session) × Mem row w.db.sessions
        × (row.id ≡ id)
        × (row.csrf_token_hash ≡ hash_token s x token)
        × (row.revoked_at ≡ none)
  unfolding csrf_matches
  csrf_matches-row id token w h =
      let hash = hash_token s x token in
      let test : Session → Bool =
        λ r. r.id == id && (r.csrf_token_hash == hash && is_null r.revoked_at) in
      let matching : any test w.db.sessions ≡ true = ground arith in
      let (row, stored, holds) = any-Mem test w.db.sessions matching in
      (
        row,
        stored,
        ground (arith, holds, ==_iff row.id id),
        ground (arith, holds, ==_iff row.csrf_token_hash hash),
        ground (arith, holds),
      )

  check_tokens-ok :
      (context : AuthContext) (v v' : Visit) (header cookie : Option Text)
      → v.request.x_csrf_token ≡ header
      → v.request.cookies s.csrf_cookie_name ≡ cookie
      → check_tokens s x (some context) v header cookie ≡ (ok tt, v')
      → HasCsrfToken v context v.world
  unfolding check_tokens
  check_tokens-ok context v v' none cookie given sent h = cc
  check_tokens-ok context v v' (some header) none given sent h = cc
  check_tokens-ok context v v' (some header) (some cookie) given sent h =
      let (same, full, passed) : ((header == cookie) ≡ true)
          × (non_empty header ≡ true)
          × (after_match s x v (csrf_matches s x context.session_id header v.world) ≡ (ok tt, v')) =
        ground arith in
      (
        header,
        given,
        rw ((==_iff header cookie).0 same) sent,
        full,
        csrf_matches-row context.session_id header v.world
            (after_match-ok v v' (csrf_matches s x context.session_id header v.world) passed),
      )

  require_csrf-ok :
      (now : ℕ) (v v' : Visit) (context : AuthContext)
      → s.auth_enabled ≡ true
      → v.request.current_user ≡ some context
      → require_csrf s x now v ≡ (ok tt, v')
      → HasCsrfToken v context v.world
  unfolding require_csrf user_of
  require_csrf-ok now v v' context on user h =
      let passed : and_then (user_of s x now v (some context)) (λ c u.
        check_tokens s x c u u.request.x_csrf_token (u.request.cookies s.csrf_cookie_name))
          ≡ (ok tt, v') =
        ground arith in
      check_tokens-ok context v v' v.request.x_csrf_token (v.request.cookies s.csrf_cookie_name)
        refl refl (unfold and_then in passed)

  -- Where authentication is on: a router's guard lets a request pass only if the token of its cookie
  -- is that of a live session, whose user has one of the router's roles and need not change the
  -- password, and if its CSRF header and its CSRF cookie hold one token, whose hash that session has
  -- when the guard looks it up.
  pub router_guard-IsLoggedIn :
      (roles : List Role) (now csrf_now : ℕ) (v v' : Visit)
      → s.auth_enabled ≡ true
      → router_guard s x roles now csrf_now v ≡ (ok tt, v')
      → (context : AuthContext) × (u : Visit) × IsLoggedIn now v context u
        × (context.must_change_password ≡ false)
        × (has_role context.role roles ≡ true)
        × HasCsrfToken v context u.world
  unfolding router_guard
  router_guard-IsLoggedIn roles now csrf_now v v' on h =
      let (o, u, first, second) =
        and_then-ok (require_roles s x roles now v) (λ c u. require_csrf s x csrf_now u) tt v' h in
      let (context, logged_in, must, role) = require_roles-ok roles now v u o on first in
      let (token, given, live, request, world) = logged_in in
      let csrf =
        require_csrf-ok csrf_now u v' context on (ap (λ (r : Request). r.current_user) request)
          second in
      (context, u, logged_in, must, role, rw request at csrf)
