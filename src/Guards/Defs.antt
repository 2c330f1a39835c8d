-- ===== src/Guards/Defs.antt =====
-- app/core/auth_deps.py: `require_current_user`, `require_csrf` and `require_roles`, and the order in
-- which a router of app/api runs them.
use network_diagnostic_tool.Common.{
  ℕ, Bool, true, false, not, ◌&&◌, ◌||◌, Option, none, some, List, [], ◌∷◌, Text, text, non_empty,
  starts_with, ◌==◌, nat_eq, list_eq, Result, ok, raised, if◌then◌else◌,
}
use network_diagnostic_tool.Exceptions.{Exception, Raises, other_error}
use network_diagnostic_tool.Settings.{Settings}
use network_diagnostic_tool.Accounts.Credentials.{Crypto}
use network_diagnostic_tool.Accounts.Tables.{Role, admin, operator, viewer}
use network_diagnostic_tool.Accounts.Events.{World}
use network_diagnostic_tool.Accounts.Login.{AuthContext}
use network_diagnostic_tool.Accounts.Sessions.{resolve_session, csrf_matches}

-- the codes of `HTTPException`, and the exceptions that pass through
pub data Refusal : Type 0 where
  authentication_required session_expired : Refusal
  csrf_validation_failed password_change_required permission_denied : Refusal
  passes : Exception → Refusal

-- `request.cookies`, a header, and `request.state.current_user`, `none` also where it is not set
pub record Request : Type 0 where
  pub cookies : Text → Option Text
  pub x_csrf_token : Option Text
  pub current_user : Option AuthContext

-- a request on its way, and the world
pub record Visit : Type 0 where
  pub request : Request
  pub world : World

abbrev pub Guarded : Type 0 → Type 0
Guarded A = Result Refusal A × Visit

-- what follows a guard that lets the request pass
unfoldable pub and_then : {A B : Type 0} → Guarded A → (A → Visit → Guarded B) → Guarded B
and_then (ok a, v) next = next a v
and_then (raised refusal, v) next = (raised refusal, v)

-- `context.role not in roles`, negated
unfoldable pub has_role : Role → List Role → Bool
has_role role [] = false
has_role admin (admin ∷ roles) = true
has_role operator (operator ∷ roles) = true
has_role viewer (viewer ∷ roles) = true
has_role role (_ ∷ roles) = has_role role roles

abbrev pub with_user : Visit → Option AuthContext → World → Visit
with_user v context w = record { request = record v.request { current_user = context }; world = w }

module _ (s : Settings) (x : Crypto) where
  unfoldable pub cookie_name : Text
  cookie_name =
      if not s.cookie_secure && starts_with s.session_cookie_name (text "__Host-")
      then text "netprobe_session"
      else s.session_cookie_name

  -- what `resolve_session` has answered
  unfoldable pub after_resolve :
      Visit → Raises (Option AuthContext) × World → Guarded (Option AuthContext)
  after_resolve v (raised e, w) = (raised (passes e), record v { world = w })
  after_resolve v (ok none, w) = (raised session_expired, record v { world = w })
  after_resolve v (ok (some context), w) = (ok (some context), with_user v (some context) w)

  unfoldable pub after_cookie : ℕ → Visit → Option Text → Guarded (Option AuthContext)
  unfolding after_resolve
  after_cookie now v none = (raised authentication_required, v)
  after_cookie now v (some token) =
      if non_empty token
      then after_resolve v (resolve_session s x now token v.world)
      else (raised authentication_required, v)

  unfoldable pub require_current_user : ℕ → Visit → Guarded (Option AuthContext)
  unfolding after_cookie cookie_name
  require_current_user now v =
      if not s.auth_enabled
      then (ok none, with_user v none v.world)
      else after_cookie now v (v.request.cookies cookie_name)

  -- the answer of `csrf_matches`
  unfoldable pub after_match : Visit → Raises Bool → Guarded Unit
  after_match v (raised e) = (raised (passes e), v)
  after_match v (ok true) = (ok tt, v)
  after_match v (ok false) = (raised csrf_validation_failed, v)

  -- the two tokens of a request, by its user; `context.session_id` of `None` is an `AttributeError`
  unfoldable pub check_tokens :
      Option AuthContext → Visit → Option Text → Option Text → Guarded Unit
  unfolding after_match
  check_tokens none v (some header) (some cookie) =
      if not (non_empty header) || (not (non_empty cookie) || not (header == cookie))
      then (raised csrf_validation_failed, v)
      else (raised (passes other_error), v)
  check_tokens (some context) v (some header) (some cookie) =
      if not (non_empty header) || (not (non_empty cookie) || not (header == cookie))
      then (raised csrf_validation_failed, v)
      else after_match v (csrf_matches s x context.session_id header v.world)
  check_tokens context v none cookie = (raised csrf_validation_failed, v)
  check_tokens context v (some header) none = (raised csrf_validation_failed, v)

  -- `getattr(request.state, "current_user", None) or await require_current_user(request)`
  unfoldable pub user_of : ℕ → Visit → Option AuthContext → Guarded (Option AuthContext)
  user_of now v none = require_current_user now v
  user_of now v (some context) = (ok (some context), v)

  unfoldable pub require_csrf : ℕ → Visit → Guarded Unit
  unfolding user_of check_tokens and_then
  require_csrf now v =
      if not s.auth_enabled
      then (ok tt, v)
      else and_then (user_of now v v.request.current_user) (λ context u.
        check_tokens context u u.request.x_csrf_token (u.request.cookies s.csrf_cookie_name))

  unfoldable pub check_role : List Role → Option AuthContext → Visit → Guarded (Option AuthContext)
  unfolding has_role
  check_role roles none v = (ok none, v)
  check_role roles (some context) v =
      if context.must_change_password
      then (raised password_change_required, v)
      else if not (has_role context.role roles)
      then (raised permission_denied, v)
      else (ok (some context), v)

  unfoldable pub require_roles : List Role → ℕ → Visit → Guarded (Option AuthContext)
  unfolding require_current_user check_role and_then
  require_roles roles now v = and_then (require_current_user now v) (check_role roles)

  -- `APIRouter(dependencies=[Depends(require_roles(…)), Depends(require_csrf)])`
  unfoldable pub router_guard : List Role → ℕ → ℕ → Visit → Guarded Unit
  unfolding require_roles require_csrf and_then
  router_guard roles now csrf_now v =
      and_then (require_roles roles now v) (λ context u. require_csrf csrf_now u)
