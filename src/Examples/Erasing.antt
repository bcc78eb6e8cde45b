-- ===== src/Examples/Erasing.antt =====
-- An erasure that passes its guards, and one under legal hold.
use one_ai.Prelude.{
  String, ◌≡◌, refl, true, false, not, ◌&&◌, [], ◌∷◌, map, str_eq, ◌==◌, any, is_some, keep_if,
  count_where, if◌then◌else◌,
}
use one_ai.Result.{err}
use one_ai.Examples.Entering.{realm, operator}
use one_ai.Identity.Erasure.{
  ErasureRequest, ErasureCertificateResponse, ErasureError, Estate, erased, missing_hooks,
  erase_organization,
}
use one_ai.Identity.Erasure.Complete.{tenant_tables, others, spared, erase_organization_complete}
use one_ai.Identity.Erasure.Hold.{legal_hold_beats_erasure}
use one_ai.Identity.Hooks.{of_org, register_erasure_hook, create_app}
use one_ai.Identity.Platform.{OrganizationDetailResponse, set_legal_hold, to_detail}
use one_ai.Identity.Realm.{active, get_by_id, get_for_update, get_admin_by_id, get_with_user_count}

-- two rows in each table, one of another organization
abbrev estate : Estate
estate = record {
  realm = record realm {
    platform_admins =
        record {
          id = 9;
          email = "op@example";
          full_name = "Op";
          password_hash = "secret";
          is_active = true;
        }
        ∷ [];
  };
  tables = λ name. record { id = 1; org_id = 1 } ∷ record { id = 2; org_id = 2 } ∷ [];
}

abbrev request : ErasureRequest
request = record { reason = "contract ended"; confirm_slug = "one"; password = "secret" }

abbrev held_detail : OrganizationDetailResponse
held_detail = record {
  id = 1;
  name = "One";
  slug = "one";
  status = active;
  user_count = 1;
  legal_hold = true;
}

abbrev erased_estate : Estate
erased_estate = (erase_organization str_eq "dummy" (create_app []) 1 request operator 50 estate).1

abbrev certificate : ErasureCertificateResponse
certificate =
    (erased str_eq "dummy" (create_app [])
      (record { id = 1; name = "One"; slug = "one"; status = active; legal_hold = false }) 1 request
      operator 50 estate).0

legal_hold_beats_erasure_example :
    (e : ErasureError) × (erase_organization str_eq "dummy"
        (create_app [])
        1
        request
        operator
        50
        (record estate { realm = (set_legal_hold 1 true operator estate.realm).1 })
      ≡ (err e, record estate { realm = (set_legal_hold 1 true operator estate.realm).1 }))
unfolding set_legal_hold get_with_user_count get_by_id to_detail
legal_hold_beats_erasure_example =
    legal_hold_beats_erasure str_eq "dummy" (create_app []) 1 request operator 50 operator
      estate.realm (set_legal_hold 1 true operator estate.realm).1
      (record estate { realm = (set_legal_hold 1 true operator estate.realm).1 }) held_detail refl
      refl

erase_organization_complete_example :
    ((name : String)
      → erased_estate.tables name ≡ (
          if any (str_eq name) tenant_tables
          then others 1 (estate.tables name)
          else estate.tables name))
    × (certificate.erased_rows_by_table
        ≡ map (λ name. (name, count_where (of_org 1) (estate.tables name))) tenant_tables)
    × (erased_estate.realm.users ≡ keep_if (λ u. not (u.org_id == 1)) estate.realm.users)
    × (erased_estate.realm.refresh_tokens
        ≡ keep_if (λ t. spared 1 t estate) estate.realm.refresh_tokens)
    × (any (λ g. g.org_id == 1 && is_some g.decided_by_email) erased_estate.realm.support_grants
        ≡ false)
unfolding erase_organization missing_hooks get_for_update get_admin_by_id erased create_app
    register_erasure_hook
erase_organization_complete_example =
    erase_organization_complete str_eq "dummy" 1 request operator 50 estate erased_estate
      certificate refl
