-- ===== src/Connectors/Me/History.antt =====
-- Any sequence of calls of the services on the tables that they share.
use one_ai.Prelude.{
  Uuid, Time, ◌≡◌, Bool, true, false, not, ◌&&◌, Option, none, some, List, [], ◌∷◌, is_some,
  is_none, All, update_where, All-update_where, if◌then◌else◌,
}
use one_ai.Result.{Result, err}
use one_ai.Audit.{Principal}
use one_ai.Connectors.Board.{
  Board, ConnectorError, connection_not_found, set_entitlement, set_org_wide, set_override,
  clear_override, is_grant,
}
use one_ai.Connectors.Connection.{Connection, is_in_org, delete}
use one_ai.Connectors.Me.{SelfConnectRequest, self_connect, disconnect_my_connection}
use one_ai.Connectors.Me.Lawful.{
  is_lawful, IsLawful, All-delete_where, self_connect-IsLawful, disconnect_my_connection-IsLawful,
}
use one_ai.Connectors.Policy.{ConnectorType, type_value, OverrideType, is_entitled}
use one_ai.Connectors.Service.{
  Vault, loaded, delete_connection, disable_connection, enable_connection,
}
use one_ai.Sync.Ingest.{IntegrityError}

pub data Act : Type 0 where
  connects :
      Uuid → Uuid → Uuid → SelfConnectRequest → Principal → Time → Option IntegrityError → Act
  disconnects : Uuid → Uuid → Principal → Time → Act
  entitles : Uuid → Uuid → ConnectorType → Bool → Principal → Time → Act
  sets_org_wide : Uuid → Uuid → ConnectorType → Bool → Principal → Act
  sets_override : Uuid → Uuid → Uuid → ConnectorType → OverrideType → Principal → Act
  clears_override : Uuid → Uuid → ConnectorType → Principal → Act
  deletes : Uuid → Uuid → Principal → Act
  disables : Uuid → Uuid → Principal → Time → Act
  enables : Uuid → Uuid → Principal → Act

-- a call that ends in one of two states
either :
    {X : Type 0} (b : Bool) (x y : X) (s t : Board)
    → IsLawful s
    → IsLawful t
    → IsLawful (if◌then◌else◌ {A = X × Board} b (x, s) (y, t)).1
either true x y s t h k = h
either false x y s t h k = k

-- a call that needs the row
where_found :
    {X : Type 0} (o : Option Connection) (s : Board)
    (f : Connection → Result ConnectorError X × Board)
    → IsLawful s
    → ((c : Connection) → IsLawful (f c).1)
    → IsLawful
        (elim o as (λ _. Result ConnectorError X × Board) [
          | none ↦ (err connection_not_found, s)
          | some c ↦ f c
        ]).1
where_found none s f h k = h
where_found (some c) s f h k = k c

module _ (v : Vault) where
  abbrev pub after_act : Act → Board → Board
  after_act (connects id consent_id org_id request actor now verdict) s =
      (self_connect v id consent_id org_id request actor now verdict s).1
  after_act (disconnects org_id connection_id actor now) s =
      (disconnect_my_connection org_id actor.subject_id connection_id actor now s).1
  after_act (entitles id org_id connector_type enabled actor now) s =
      set_entitlement id org_id connector_type enabled actor now s
  after_act (sets_org_wide id org_id connector_type enabled actor) s =
      (set_org_wide id org_id connector_type enabled actor s).1
  after_act (sets_override id org_id user_id connector_type override_type actor) s =
      (set_override id org_id user_id connector_type override_type actor s).1
  after_act (clears_override org_id user_id connector_type actor) s =
      (clear_override org_id user_id connector_type actor s).1
  after_act (deletes org_id connection_id actor) s =
      (delete_connection org_id connection_id actor s).1
  after_act (disables org_id connection_id actor now) s =
      (disable_connection org_id connection_id actor now s).1
  after_act (enables org_id connection_id actor) s =
      (enable_connection org_id connection_id actor s).1

  abbrev pub run_acts : List Act → Board → Board
  run_acts [] s = s
  run_acts (act ∷ acts) s = run_acts acts (after_act act s)

  -- a connection that is switched keeps its owner
  switched :
      (org_id id : Uuid) (at : Option Time) (s : Board)
      → IsLawful s
      → All
          (λ c. is_lawful s.consents c ≡ true)
          (update_where (is_in_org id org_id) (λ r. record r { disabled_at = at }) s.connections)
  switched org_id id at s h =
      All-update_where _ (is_in_org id org_id) _ s.connections (λ c _ k. k) h

  after_act-IsLawful : (act : Act) (s : Board) → IsLawful s → IsLawful (after_act act s)
  unfolding set_entitlement set_org_wide set_override clear_override delete_connection
      disable_connection enable_connection delete
  after_act-IsLawful (connects id consent_id org_id request actor now verdict) s h =
      self_connect-IsLawful actor v id consent_id org_id request now s h verdict
  after_act-IsLawful (disconnects org_id connection_id actor now) s h =
      disconnect_my_connection-IsLawful actor org_id connection_id now s h
  after_act-IsLawful (entitles id org_id connector_type enabled actor now) s h = h
  after_act-IsLawful (sets_org_wide id org_id connector_type enabled actor) s h =
      either (enabled && not (is_entitled org_id (type_value connector_type) s.entitlements)) _ _ s
        _ h h
  after_act-IsLawful (sets_override id org_id user_id connector_type override_type actor) s h =
      either
        (is_grant override_type
          && not (is_entitled org_id (type_value connector_type) s.entitlements))
        _ _ s _ h h
  after_act-IsLawful (clears_override org_id user_id connector_type actor) s h = h
  after_act-IsLawful (deletes org_id connection_id actor) s h =
      where_found (loaded org_id connection_id none s.connections) s _ h
        λ c. All-delete_where _ _ _ s.connections (λ r _ k. k) h
  after_act-IsLawful (disables org_id connection_id actor now) s h =
      where_found (loaded org_id connection_id none s.connections) s _ h
        λ c. either (is_some c.disabled_at) _ _ s _ h (switched c.org_id c.id (some now) s h)
  after_act-IsLawful (enables org_id connection_id actor) s h =
      where_found (loaded org_id connection_id none s.connections) s _ h
        λ c. either (is_none c.disabled_at) _ _ s _ h (switched c.org_id c.id none s h)

  -- Where every connection that belongs to a user has a consent of that user in force for its
  -- type, it is so after any sequence of self-connects, whatever the database answers to their
  -- inserts, disconnects of own connections, changes of entitlements, policies and overrides, and
  -- deletions, disablings and enablings of shared connections.
  pub run_acts-IsLawful : (acts : List Act) (s : Board) → IsLawful s → IsLawful (run_acts acts s)
  run_acts-IsLawful [] s h = h
  run_acts-IsLawful (act ∷ acts) s h =
      run_acts-IsLawful acts (after_act act s) (after_act-IsLawful act s h)
