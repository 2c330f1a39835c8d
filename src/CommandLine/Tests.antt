-- ===== src/CommandLine/Tests.antt =====
-- The first administrator, and the first login.
use network_diagnostic_tool.Common.{
  ◌≡◌, refl, true, none, some, [], text, ==_refl, arith, list_eq, nat_eq, starts_with, ok,
}
use network_diagnostic_tool.Accounts.Credentials.{
  normalize_username, matches_username, matches_name_rest, is_name_char, is_name_end, strip,
  strip_leading_spaces, validate_password, holds_username,
}
use network_diagnostic_tool.Common.{has_part}
use network_diagnostic_tool.Accounts.Tables.{admin}
use network_diagnostic_tool.Accounts.Events.{World}
use network_diagnostic_tool.Accounts.Login.{Attempt, authenticate}
use network_diagnostic_tool.Accounts.Sample.{settings, crypto, attempt, kim, world_of}
use network_diagnostic_tool.AdminUsers.Defs.{email_is_taken}
use network_diagnostic_tool.CommandLine.Defs.{
  AdminArguments, first_admin, insert_admin, after_checks, after_name, create_admin,
}
use network_diagnostic_tool.CommandLine.FirstLogin.{create_admin-authenticate}

abbrev arguments : AdminArguments
arguments = record {
  username = text " root";
  display_name = text "Root";
  email = none;
  password = text "long enough 1234";
  confirm = text "long enough 1234";
  user_id = 3;
  salt = 5;
  db_now = 50;
}

abbrev nobody : World
nobody = record (world_of kim) { db = record (world_of kim).db { users = [] } }

abbrev first : Attempt
first = record (attempt (text "long enough 1234")) { username = text "root" }

abbrev after : World
after = (create_admin settings crypto arguments nobody).1

creates : create_admin settings crypto arguments nobody ≡ (ok tt, after)
unfolding create_admin after_name normalize_username matches_username matches_name_rest is_name_char
    is_name_end strip strip_leading_spaces validate_password holds_username has_part starts_with
    after_checks insert_admin first_admin email_is_taken
creates = refl

normalizes : normalize_username settings crypto (text " root") ≡ ok (text "root")
unfolding normalize_username matches_username matches_name_rest is_name_char is_name_end strip
    strip_leading_spaces
normalizes = refl

create_admin-authenticate_example :
    (authenticate settings crypto first after).0
    ≡ ok (
        some (record {
          context = record {
            user_id = 3;
            session_id = 1;
            username = text "root";
            display_name = text "Root";
            role = admin;
            must_change_password = true;
          };
          token = text "t";
          csrf_token = text "c";
        }))
unfolding strip strip_leading_spaces
create_admin-authenticate_example =
    create_admin-authenticate settings crypto arguments first nobody after
      (λ salt password. ground (arith, ==_refl password)) normalizes refl creates refl
