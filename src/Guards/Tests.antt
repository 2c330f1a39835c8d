-- ===== src/Guards/Tests.antt =====
-- A request with the cookies of a login, at a router for administrators and operators.
use network_diagnostic_tool.Common.{
  ℕ, Text, ◌≡◌, ◌≤◌, arith, count_if, refl, true, false, none, some, List, [], ◌∷◌, text,
  starts_with, keep_if, ◌==◌, nat_eq, list_eq, ok, if◌then◌else◌,
}
use network_diagnostic_tool.Accounts.Credentials.{peppered, verify_password, hash_token}
use network_diagnostic_tool.Accounts.Tables.{Role, admin, operator, find, update_where, order_by}
use network_diagnostic_tool.Accounts.Events.{
  add_auth_event, safe_details, pick, level_of, rolled_back, transaction,
}
use network_diagnostic_tool.Accounts.Login.{
  AuthContext, has_name, lock_is_over, insert_session, reopened, reopen_due, mark_success, excess,
  drop_excess, new_session, context_of, finish, succeed, known, login_body, authenticate,
}
use network_diagnostic_tool.Accounts.Sessions.{
  is_live_token, is_expired, touch, resolved_context, resolve_row, resolve_found, resolve_session,
  csrf_matches,
}
use network_diagnostic_tool.Accounts.Sample.{settings, crypto, after_login}
use network_diagnostic_tool.Guards.Defs.{
  Visit, and_then, has_role, cookie_name, after_resolve, after_cookie, require_current_user,
  after_match, check_tokens, user_of, require_csrf, check_role, require_roles, router_guard,
}
use network_diagnostic_tool.Guards.ClientIp.{Peer, passed_from, enforce_all, enforce_all_bounded}
use network_diagnostic_tool.RateLimiter.Defs.{new}
use network_diagnostic_tool.RateLimiter.Bounds.{in_minute}
use network_diagnostic_tool.Guards.Authorized.{IsLoggedIn, HasCsrfToken, router_guard-IsLoggedIn}

abbrev visit : Visit
visit = record {
  request = record {
    cookies = λ name.
        if name == settings.session_cookie_name
        then some (text "t")
        else if name == settings.csrf_cookie_name
        then some (text "c")
        else none;
    x_csrf_token = some (text "c");
    current_user = none;
  };
  world = after_login;
}

abbrev roles : List Role
roles = admin ∷ operator ∷ []

abbrev let_through : Visit
let_through = (router_guard settings crypto roles 100 101 visit).1

passes_guard : router_guard settings crypto roles 100 101 visit ≡ (ok tt, let_through)
unfolding router_guard require_roles require_current_user cookie_name starts_with after_cookie
    after_resolve check_role has_role require_csrf user_of check_tokens csrf_matches after_match
    and_then resolve_session transaction rolled_back find is_live_token hash_token resolve_found
    resolve_row is_expired touch resolved_context authenticate login_body has_name reopened
    reopen_due lock_is_over known verify_password peppered succeed update_where mark_success
    drop_excess excess keep_if order_by insert_session new_session finish context_of add_auth_event
    safe_details pick level_of
passes_guard = refl

router_guard-IsLoggedIn_example :
    (context : AuthContext) × (u : Visit) × IsLoggedIn settings crypto 100 visit context u
    × (context.must_change_password ≡ false)
    × (has_role context.role roles ≡ true)
    × HasCsrfToken settings crypto visit context u.world
router_guard-IsLoggedIn_example =
    router_guard-IsLoggedIn settings crypto roles 100 101 visit let_through refl passes_guard

abbrev forging : Text → Peer
forging forged = record { host = some (text "9.9.9.9"); x_forwarded_for = some forged }

abbrev forged_requests : List (ℕ × Peer)
forged_requests = (5, forging (text "1.1.1.1")) ∷ (6, forging (text "2.2.2.2")) ∷ []

enforce_all_bounded_example :
    count_if (in_minute 5) (
      passed_from settings crypto
        (text "9.9.9.9")
        forged_requests
        (enforce_all settings crypto (new 1) forged_requests))
    ≤ 1
enforce_all_bounded_example =
    enforce_all_bounded settings crypto 1 5 (text "9.9.9.9") forged_requests refl
      ((omega arith), ((omega arith), tt))
