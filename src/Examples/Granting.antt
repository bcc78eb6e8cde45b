-- ===== src/Examples/Granting.antt =====
-- A message from person 4 to person 5 in the mailbox of person 6, where person 9 still holds a
-- grant.
use one_ai.Prelude.{ℕ, Uuid, String, none, some, true, not, is_none, List, [], ◌∷◌, ◌≡◌}
use one_ai.Access.Normalize.{TextMethods, normalize_email}
use one_ai.Access.Grants.{
  AclGrant, PrincipalSourceIdentity, recipient, sender, get_verified_person_id, held_by,
  derive_email_principal_roles, reconcile_email_message_grants,
}
use one_ai.Access.Grants.Live.{has_live, reconcile_exact}
use one_ai.Access.Grants.Derived.{derive_exact}

abbrev pub text_methods : TextMethods
text_methods = record { strip = λ s. s; strip_brackets = λ s. s; lower = λ s. s }

abbrev pub identity : String → String → Uuid → PrincipalSourceIdentity
identity source_type external_id person_id = record {
  org_id = 1;
  source_type = source_type;
  external_id = external_id;
  person_id = person_id;
  verified = true;
}

abbrev pub identities : List PrincipalSourceIdentity
identities =
    identity "email" "ann@example" 4
    ∷ identity "email" "bob@example" 5
    ∷ identity "auth" "u6" 6
    ∷ []

abbrev stale : AclGrant
stale = record {
  org_id = 1;
  person_id = 9;
  object_type = "email_message";
  object_id = 70;
  connection_id = some 2;
  provenance = recipient;
  granted_at = 10;
  revoked_at = none;
}

derive_exact_example :
    held_by 4 (
      derive_email_principal_roles text_methods
        (λ u. "u6")
        1
        (some 6)
        (some "ann@example")
        ("bob@example" ∷ "ann@example" ∷ [])
        identities)
    ≡ some sender
unfolding get_verified_person_id normalize_email
derive_exact_example =
    derive_exact text_methods (λ u. "u6") 1 (some 6) (some "ann@example")
      ("bob@example" ∷ "ann@example" ∷ []) identities 4

abbrev granted : ℕ → List AclGrant → ℕ × List AclGrant
granted now table =
    reconcile_email_message_grants text_methods (λ u. "u6") 1 70 2 (some 6) (some "ann@example")
      ("bob@example" ∷ "ann@example" ∷ []) identities now table

reconcile_exact_example :
    (has_live 1 70 9 (granted 20 (stale ∷ [])).1
      ≡ not (
          is_none (
            held_by 9 (
              derive_email_principal_roles text_methods
                (λ u. "u6")
                1
                (some 6)
                (some "ann@example")
                ("bob@example" ∷ "ann@example" ∷ [])
                identities))))
    × ((granted 30 (granted 20 (stale ∷ [])).1).0 ≡ 0)
reconcile_exact_example =
    reconcile_exact text_methods (λ u. "u6") 1 70 2 (some 6) (some "ann@example")
      ("bob@example" ∷ "ann@example" ∷ []) identities 20 30 (stale ∷ []) 9
