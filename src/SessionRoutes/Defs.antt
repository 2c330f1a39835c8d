-- ===== src/SessionRoutes/Defs.antt =====
-- app/api/auth.py: `login`, `me`, `logout` and `update_password`. The messages of the answers are an
-- argument where they are written, and left out where an exception carries them.
use network_diagnostic_tool.Common.{
  ℕ, ◌*◌, Bool, true, false, not, Option, none, some, List, [], ◌∷◌, Text, text, Result, ok, raised,
  if◌then◌else◌,
}
use network_diagnostic_tool.Exceptions.{Exception, Raises, value_error}
use network_diagnostic_tool.Settings.{Settings}
use network_diagnostic_tool.Responses.{Response, success_response, error_response}
use network_diagnostic_tool.Accounts.Credentials.{Crypto}
use network_diagnostic_tool.Accounts.Tables.{Role, admin, operator, viewer}
use network_diagnostic_tool.Accounts.Tables.{logout as by_logout}
use network_diagnostic_tool.Accounts.Events.{World}
use network_diagnostic_tool.Accounts.Login.{AuthContext, Attempt, Login, authenticate}
use network_diagnostic_tool.Accounts.Sessions.{revoke_session}
use network_diagnostic_tool.Accounts.Change.{Change, change_password}
use network_diagnostic_tool.Guards.ClientIp.{Peer, get_real_client_ip}
use network_diagnostic_tool.Guards.Defs.{
  Refusal, authentication_required, session_expired, csrf_validation_failed,
  password_change_required, permission_denied, passes, Visit, Guarded, cookie_name,
  require_current_user, require_csrf,
}

-- `HTTPException` with its status and the code of its detail, if it has one, or any other exception
pub data Rejection : Type 0 where
  http_exception : (status_code : ℕ) (code : Option Text) → Rejection
  unhandled : Exception → Rejection

-- the exceptions of app/core/auth_deps.py
unfoldable pub rejection_of : Refusal → Rejection
rejection_of authentication_required = http_exception 401 (some (text "AUTHENTICATION_REQUIRED"))
rejection_of session_expired = http_exception 401 (some (text "SESSION_EXPIRED"))
rejection_of csrf_validation_failed = http_exception 403 (some (text "CSRF_VALIDATION_FAILED"))
rejection_of password_change_required = http_exception 403 (some (text "PASSWORD_CHANGE_REQUIRED"))
rejection_of permission_denied = http_exception 403 (some (text "PERMISSION_DENIED"))
rejection_of (passes e) = unhandled e

-- a header `Set-Cookie`, with `samesite="lax"` and `path="/"`
pub record Cookie : Type 0 where
  pub key : Text
  pub value : Text
  pub max_age : ℕ
  pub httponly : Bool
  pub secure : Bool

pub record UserData : Type 0 where
  pub id : ℕ
  pub username : Text
  pub display_name : Text
  pub role : Role
  pub must_change_password : Bool

-- what the four answers say
pub data Content : Type 0 where
  logged_in : UserData → Content
  authenticated_as : UserData → Content
  not_authenticated logged_out password_changed : Content

pub record Reply : Type 0 where
  pub response : Response Content
  pub cookies : List Cookie

pub record LoginRequest : Type 0 where
  pub username : Text
  pub password : Text

pub record ChangePasswordRequest : Type 0 where
  pub current_password : Text
  pub new_password : Text

-- the readings of the clock and the salt of a change
pub record Draws : Type 0 where
  pub now : ℕ
  pub db_now : ℕ
  pub salt : ℕ

abbrev pub user_data : AuthContext → UserData
user_data context = record {
  id = context.user_id;
  username = context.username;
  display_name = context.display_name;
  role = context.role;
  must_change_password = context.must_change_password;
}

abbrev pub success : ℕ → Content → Response Content
success request_id content = record {
  status_code = 200;
  content = success_response content request_id 0;
}

-- `Response.delete_cookie(key, path="/")`
abbrev pub delete_cookie : Text → Cookie
delete_cookie key = record { key = key; value = []; max_age = 0; httponly = false; secure = false }

-- a dependency, and the handler behind it
unfoldable pub guarded :
    {A : Type 0}
    → Guarded A
    → (A → Visit → Result Rejection Reply × Visit)
    → Result Rejection Reply × Visit
unfolding rejection_of
guarded (ok a, v) handler = handler a v
guarded (raised refusal, v) handler = (raised (rejection_of refusal), v)

module _ (s : Settings) (x : Crypto) where
  unfoldable pub max_age_of : Role → ℕ
  max_age_of admin = s.admin_session_absolute_hours * 3600
  max_age_of operator = s.session_absolute_hours * 3600
  max_age_of viewer = s.session_absolute_hours * 3600

  unfoldable pub login_cookies : Login → List Cookie
  unfolding max_age_of
  login_cookies l =
      record {
        key = cookie_name s x;
        value = l.token;
        max_age = max_age_of l.context.role;
        httponly = true;
        secure = s.cookie_secure;
      }
      ∷ record {
        key = s.csrf_cookie_name;
        value = l.csrf_token;
        max_age = max_age_of l.context.role;
        httponly = false;
        secure = s.cookie_secure;
      }
      ∷ []

  module _ (request_id : ℕ) where
    -- the answer to what `authenticate` has returned
    unfoldable pub after_authenticate :
        Text → Raises (Option Login) × World → Result Rejection Reply × World
    unfolding login_cookies
    after_authenticate message (raised e, w) = (raised (unhandled e), w)
    after_authenticate message (ok none, w) = (
      ok (record {
        response = record {
          status_code = 401;
          content = error_response (text "AUTHENTICATION_FAILED") message request_id 0;
        };
        cookies = [];
      }),
      w,
    )
    after_authenticate message (ok (some l), w) = (
      ok (record {
        response = success request_id (logged_in (user_data l.context));
        cookies = login_cookies l;
      }),
      w,
    )

    -- `a` holds what an attempt draws
    abbrev pub attempt_of : LoginRequest → Peer → Option Text → Attempt → Attempt
    attempt_of payload peer user_agent a = record a {
      username = payload.username;
      password = payload.password;
      client_ip = get_real_client_ip s x peer;
      user_agent = user_agent;
    }

    unfoldable pub login :
        Text → LoginRequest → Peer → Option Text → Attempt → World → Result Rejection Reply × World
    unfolding after_authenticate
    login message payload peer user_agent a w =
        if not s.auth_enabled
        then (raised (http_exception 404 (some (text "AUTH_DISABLED"))), w)
        else after_authenticate message (authenticate s x (attempt_of payload peer user_agent a) w)

    abbrev pub me_of : Option AuthContext → Content
    me_of none = not_authenticated
    me_of (some context) = authenticated_as (user_data context)

    unfoldable pub me : ℕ → Visit → Result Rejection Reply × Visit
    unfolding guarded
    me now v = guarded (require_current_user s x now v) (λ context u.
        (ok (record { response = success request_id (me_of context); cookies = [] }), u))

    abbrev pub logout_reply : Reply
    logout_reply = record {
      response = success request_id logged_out;
      cookies = delete_cookie (cookie_name s x) ∷ delete_cookie s.csrf_cookie_name ∷ [];
    }

    unfoldable pub after_revoke : Visit → Raises Unit × World → Result Rejection Reply × Visit
    after_revoke v (raised e, w) = (raised (unhandled e), record v { world = w })
    after_revoke v (ok done, w) = (ok logout_reply, record v { world = w })

    unfoldable pub end_session : ℕ → ℕ → Option AuthContext → Visit → Result Rejection Reply × Visit
    unfolding after_revoke
    end_session at event_now none v = (ok logout_reply, v)
    end_session at event_now (some context) v =
        after_revoke v
          (revoke_session s at event_now context.session_id context.user_id by_logout v.world)

    -- the dependencies of the route run before those of the handler
    unfoldable pub logout : ℕ → ℕ → ℕ → ℕ → Visit → Result Rejection Reply × Visit
    unfolding guarded end_session
    logout csrf_now now at event_now v =
        guarded (require_csrf s x csrf_now v)
          (λ checked u. guarded (require_current_user s x now u) (end_session at event_now))

    unfoldable pub after_change : Visit → Raises Bool × World → Result Rejection Reply × Visit
    after_change v (raised value_error, w) = (
      raised (http_exception 422 (some (text "PASSWORD_POLICY_VIOLATION"))),
      record v { world = w },
    )
    after_change v (raised e, w) = (raised (unhandled e), record v { world = w })
    after_change v (ok false, w) =
        (raised (http_exception 401 (some (text "AUTHENTICATION_FAILED"))), record v { world = w })
    after_change v (ok true, w) = (
      ok (record { response = success request_id password_changed; cookies = [] }),
      record v { world = w },
    )

    abbrev pub change_of : ChangePasswordRequest → AuthContext → Draws → Change
    change_of payload context d = record {
      context = context;
      current_password = payload.current_password;
      new_password = payload.new_password;
      now = d.now;
      db_now = d.db_now;
      salt = d.salt;
    }

    unfoldable pub change_own :
        ChangePasswordRequest → Draws → Option AuthContext → Visit → Result Rejection Reply × Visit
    unfolding after_change
    change_own payload d none v = (raised (http_exception 404 none), v)
    change_own payload d (some context) v =
        after_change v (change_password s x (change_of payload context d) v.world)

    -- here `request_id` is a fresh one, and not that of the request
    unfoldable pub update_password :
        ℕ → ℕ → ChangePasswordRequest → Draws → Visit → Result Rejection Reply × Visit
    unfolding guarded change_own
    update_password csrf_now now payload d v =
        guarded (require_csrf s x csrf_now v)
          (λ checked u. guarded (require_current_user s x now u) (change_own payload d))
