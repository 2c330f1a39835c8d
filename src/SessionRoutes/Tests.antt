-- ===== src/SessionRoutes/Tests.antt =====
-- A login, requests with the cookies of its answer, and a logout.
use network_diagnostic_tool.Common.{
  ◌*◌, ◌≡◌, refl, true, false, none, some, List, [], ◌∷◌, arith, text, ◌==◌, list_eq, nat_eq,
  keep_if, starts_with, ◌≢◌, ok, if◌then◌else◌,
}
use network_diagnostic_tool.Accounts.Credentials.{peppered, verify_password, hash_token}
use network_diagnostic_tool.Accounts.Tables.{admin, operator, find, update_where, order_by}
use network_diagnostic_tool.Accounts.Events.{
  World, add_auth_event, safe_details, pick, level_of, rolled_back, transaction,
}
use network_diagnostic_tool.Accounts.Login.{
  has_name, lock_is_over, insert_session, reopened, reopen_due, mark_success, excess, drop_excess,
  new_session, context_of, finish, succeed, known, login_body, authenticate,
}
use network_diagnostic_tool.Accounts.Sample.{settings, crypto, kim, world_of, right}
use network_diagnostic_tool.Guards.ClientIp.{Peer, direct_ip, get_real_client_ip}
use network_diagnostic_tool.Guards.Defs.{Request, has_role, cookie_name, router_guard}
use network_diagnostic_tool.SessionRoutes.Defs.{
  Reply, UserData, LoginRequest, logged_in, success, max_age_of, login_cookies, after_authenticate,
  login,
}
use network_diagnostic_tool.Accounts.Sessions.{
  is_live_token, is_expired, touch, resolved_context, resolve_row, resolve_found, resolve_session,
  csrf_matches, revoke_session,
}
use network_diagnostic_tool.Accounts.Sample.{context}
use network_diagnostic_tool.Guards.Defs.{
  Visit, and_then, after_resolve, after_cookie, require_current_user, after_match, check_tokens,
  user_of, require_csrf,
}
use network_diagnostic_tool.Lifecycle.Defs.{Operation, authenticates, resolves, run_all}
use network_diagnostic_tool.Lifecycle.Logout.{HasUniqueHashes}
use network_diagnostic_tool.SessionRoutes.Defs.{
  guarded, after_revoke, end_session, logout_reply, logout,
}
use network_diagnostic_tool.SessionRoutes.LoggedOut.{logout_is_final_for_cookie}
use network_diagnostic_tool.SessionRoutes.LoggedIn.{login-router_guard}

abbrev peer : Peer
peer = record { host = some (text "1.1.1.1"); x_forwarded_for = none }

abbrev payload : LoginRequest
payload = record { username = text "kim"; password = text "pw" }

abbrev user : UserData
user = record {
  id = 7;
  username = text "kim";
  display_name = text "Kim";
  role = operator;
  must_change_password = false;
}

abbrev reply : Reply
reply = record {
  response = success 9 (logged_in user);
  cookies =
      record {
        key = settings.session_cookie_name;
        value = text "t";
        max_age = settings.session_absolute_hours * 3600;
        httponly = true;
        secure = true;
      }
      ∷ record {
        key = settings.csrf_cookie_name;
        value = text "c";
        max_age = settings.session_absolute_hours * 3600;
        httponly = false;
        secure = true;
      }
      ∷ [];
}

abbrev after : World
after = (login settings crypto 9 (text "no") payload peer none right (world_of kim)).1

answers :
    login settings crypto 9 (text "no") payload peer none right (world_of kim) ≡ (ok reply, after)
unfolding login after_authenticate login_cookies max_age_of cookie_name starts_with
    get_real_client_ip direct_ip authenticate transaction rolled_back login_body find has_name
    reopened reopen_due lock_is_over known verify_password peppered succeed update_where
    mark_success drop_excess excess keep_if order_by insert_session new_session hash_token finish
    context_of add_auth_event safe_details pick level_of
answers = refl

abbrev request : Request
request = record {
  cookies = λ name.
      if name == settings.session_cookie_name
      then some (text "t")
      else if name == settings.csrf_cookie_name
      then some (text "c")
      else none;
  x_csrf_token = some (text "c");
  current_user = none;
}

login-router_guard_example :
    (router_guard settings crypto
      (admin ∷ operator ∷ [])
      200
      201
      (record { request = request; world = after })).0
    ≡ ok tt
login-router_guard_example =
    login-router_guard settings crypto 9 (text "no") payload peer none right (world_of kim) after
      reply user request (admin ∷ operator ∷ []) 200 201 refl (tt, tt) answers refl
      (refl, (refl, tt)) refl (refl, refl) (unfold has_role in refl) refl (omega arith)
      (omega arith)

abbrev visit : Visit
visit = record { request = request; world = after }

abbrev left : Visit
left = (logout settings crypto 9 120 121 122 123 visit).1

leaves :
    logout settings crypto 9 120 121 122 123 visit ≡ (ok (logout_reply settings crypto 9), left)
unfolding logout guarded require_csrf user_of require_current_user after_cookie after_resolve
    and_then check_tokens after_match end_session after_revoke cookie_name starts_with
    resolve_session resolve_found resolve_row is_expired touch resolved_context csrf_matches
    revoke_session is_live_token login after_authenticate login_cookies max_age_of
    get_real_client_ip direct_ip authenticate transaction rolled_back login_body find has_name
    reopened reopen_due lock_is_over known verify_password peppered succeed update_where
    mark_success drop_excess excess keep_if order_by insert_session new_session hash_token finish
    context_of add_auth_event safe_details pick level_of
leaves = refl

has_session_cookie : request.cookies (cookie_name settings crypto) ≡ some (text "t")
unfolding cookie_name starts_with
has_session_cookie = refl

one_session : HasUniqueHashes after.db.sessions
unfolding login after_authenticate login_cookies max_age_of get_real_client_ip direct_ip
    authenticate transaction rolled_back login_body find has_name reopened reopen_due lock_is_over
    known verify_password peppered succeed update_where mark_success drop_excess excess keep_if
    order_by insert_session new_session hash_token finish context_of add_auth_event safe_details
    pick level_of
one_session = (tt, tt)

abbrev later_on : List Operation
later_on =
    resolves 150 (text "t") ∷ authenticates (record right { token = text "u"; session_id = 2 }) ∷ []

logout_is_final_for_cookie_example :
    (resolve_session settings crypto 200 (text "t") (run_all settings crypto later_on left.world)).0
    ≢ ok (some context)
logout_is_final_for_cookie_example =
    logout_is_final_for_cookie settings crypto 9 (text "t") visit left
      (logout_reply settings crypto 9) 120 121 122 123 later_on 200 context refl has_session_cookie
      one_session leaves
