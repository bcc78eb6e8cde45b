-- ===== src/Examples/Connecting.antt =====
-- A user who connects two mailboxes, and a plan that ends.
use one_ai.Prelude.{◌≡◌, refl, true, false, none, some, List, [], ◌∷◌}
use one_ai.Result.{err, is_ok}
use one_ai.Connectors.Board.{
  Board, connector_not_entitled, set_entitlement, set_org_wide, set_override,
}
use one_ai.Connectors.Me.{SelfConnectRequest, self_connect, test_my_connection, sync_my_connection}
use one_ai.Connectors.Me.Ceiling.{revoked_plan_stops}
use one_ai.Connectors.Me.History.{Act, connects, disconnects, disables, run_acts, run_acts-IsLawful}
use one_ai.Connectors.Me.Lawful.{IsLawful}
use one_ai.Connectors.Policy.{imap, grant}
use one_ai.Connectors.Service.{Vault}
use one_ai.Examples.{idle_mailbox}
use one_ai.Examples.Staffing.{admin_caller}
use one_ai.Examples.Starting.{plan, tables}

abbrev vault : Vault
vault = record {
  encrypt = λ password. 7 ∷ [];
  decrypt = λ ciphertext. some "secret";
  key_version = 1;
  verify_connection = λ t c secret. some (record { ok = true; message = "" });
}

abbrev board : Board
board = record {
  entitlements = plan;
  policies = [];
  overrides =
      record {
        id = 1;
        org_id = 1;
        user_id = 4;
        connector_type = "imap";
        override_type = grant;
        set_by_user_id = none;
      }
      ∷ [];
  consents = [];
  connections = idle_mailbox ∷ [];
  trail = [];
}

abbrev request : SelfConnectRequest
request = record {
  mailbox = record {
    connector_type = imap;
    display_name = "Mine";
    host = "mail.example";
    port = 993;
    use_ssl = true;
    username = "me";
    password = "secret";
  };
  accepted = true;
  scope = "mail";
  consent_version = "v1";
}

abbrev second_request : SelfConnectRequest
second_request = record request { mailbox = record request.mailbox { username = "me too" } }

abbrev acts : List Act
acts =
    connects 10 20 1 request admin_caller 100 none
    ∷ connects 11 21 1 second_request admin_caller 101 none
    ∷ disconnects 1 10 admin_caller 102
    ∷ disables 1 2 admin_caller 103
    ∷ disconnects 1 11 admin_caller 104
    ∷ []

run_acts-IsLawful_example : IsLawful (run_acts vault acts board)
run_acts-IsLawful_example = run_acts-IsLawful vault acts board (refl, tt)

abbrev without_plan : Board
without_plan = set_entitlement 1 1 imap false admin_caller 200 board

revoked_plan_stops_example :
    (self_connect vault 10 20 1 request admin_caller 201 none without_plan
      ≡ (err connector_not_entitled, without_plan))
    × (is_ok (test_my_connection vault 1 4 10 201 (λ s. s) without_plan).0 ≡ false)
    × (is_ok (sync_my_connection 30 1 4 10 admin_caller 201 300 without_plan tables).0 ≡ false)
    × (set_org_wide 10 1 imap true admin_caller without_plan
        ≡ (err connector_not_entitled, without_plan))
    × (set_override 10 1 4 imap grant admin_caller without_plan
        ≡ (err connector_not_entitled, without_plan))
revoked_plan_stops_example =
    revoked_plan_stops vault 1 1 admin_caller 200 board without_plan 4 10 10 20 30 request
      admin_caller 201 none (λ s. s) 300 tables refl
