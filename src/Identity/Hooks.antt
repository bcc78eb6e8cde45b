-- ===== src/Identity/Hooks.antt =====
-- backend/app/common/erasure_hooks.py and the three hooks that backend/app/main.py registers:
-- access/repositories/access_erasure_repository.py,
-- connectors/repositories/connector_erasure_repository.py and
-- entities/repositories/entity_erasure_repository.py. Of a tenant's rows an erasure reads the
-- organization; the tables are addressed by name. A dict is the list of its items.
use one_ai.Prelude.{
  ℕ, Uuid, String, Bool, List, [], ◌∷◌, ◌==◌, str_eq, any, count_where, delete_where, if◌then◌else◌,
}

pub record TenantRow : Type 0 where
  pub id : Uuid
  pub org_id : Uuid

abbrev pub Tables : Type 0
Tables = String → List TenantRow

abbrev pub of_org : Uuid → TenantRow → Bool
of_org org_id row = row.org_id == org_id

-- `d[key] = value`
abbrev pub dict_set {ℓ} : {V : Type ℓ} → String → V → List (String × V) → List (String × V)
dict_set key value [] = (key, value) ∷ []
dict_set key value ((k, v) ∷ d) =
    let rest = dict_set key value d in if str_eq k key then (key, value) ∷ d else (k, v) ∷ rest

-- `d.update(other)`
abbrev pub dict_update {ℓ} :
    {V : Type ℓ} → List (String × V) → List (String × V) → List (String × V)
dict_update d [] = d
dict_update d ((k, v) ∷ other) = dict_update (dict_set k v d) other

abbrev pub has_key {ℓ} : {V : Type ℓ} → String → List (String × V) → Bool
has_key key d = any (λ kv. str_eq kv.0 key) d

abbrev pub ErasureHook : Type 0
ErasureHook = Uuid → Tables → List (String × ℕ) × Tables

abbrev pub required_erasure_hooks : List String
required_erasure_hooks = "access" ∷ "connectors" ∷ "entities" ∷ []

unfoldable pub register_erasure_hook :
    String → ErasureHook → List (String × ErasureHook) → List (String × ErasureHook)
register_erasure_hook name hook hooks = dict_set name hook hooks

-- one DELETE
abbrev pub delete_rows : String → Uuid → Tables → Tables
delete_rows name org_id tables =
    λ other. if str_eq other name then delete_where (of_org org_id) (tables other) else tables other

-- the loop that the hooks share
abbrev pub erase_tables :
    List String → Uuid → Tables → List (String × ℕ) → List (String × ℕ) × Tables
erase_tables [] org_id tables rows_deleted = (rows_deleted, tables)
erase_tables (name ∷ names) org_id tables rows_deleted =
    erase_tables names org_id (delete_rows name org_id tables)
      (dict_set name (count_where (of_org org_id) (tables name)) rows_deleted)

-- access_erasure_repository.py
abbrev pub access_tables : List String
access_tables =
    "acl_grant" ∷ "fact_provenance" ∷ "visibility_promotion" ∷ "principal_source_identity" ∷ []

unfoldable pub erase_access_data_for_org : ErasureHook
erase_access_data_for_org org_id tables = erase_tables access_tables org_id tables []

-- connector_erasure_repository.py
abbrev pub connect_tables_children_first : List String
connect_tables_children_first =
    "email_recipient" ∷ "email_attachment" ∷ "email_message" ∷ "connector_sync_cursor"
    ∷ "connector_sync_run" ∷ "connector_connection" ∷ "connector_consent"
    ∷ "connector_policy_override" ∷ "connector_policy" ∷ "connector_entitlement" ∷ []

unfoldable pub erase_connector_data_for_org : ErasureHook
erase_connector_data_for_org org_id tables =
    erase_tables connect_tables_children_first org_id tables []

-- entity_erasure_repository.py
abbrev pub entity_tables_children_first : List String
entity_tables_children_first =
    "person_company" ∷ "company_domain" ∷ "person_alias" ∷ "person_email" ∷ "company" ∷ "person"
    ∷ []

unfoldable pub erase_entity_graph_for_org : ErasureHook
erase_entity_graph_for_org org_id tables =
    erase_tables entity_tables_children_first org_id tables []

-- main.py: what `create_app` registers
unfoldable pub create_app : List (String × ErasureHook) → List (String × ErasureHook)
unfolding register_erasure_hook
create_app hooks = register_erasure_hook "entities" erase_entity_graph_for_org (
    register_erasure_hook "connectors" erase_connector_data_for_org
      (register_erasure_hook "access" erase_access_data_for_org hooks))
