-- ===== src/Identity/Erasure/Hold.antt =====
-- An organization under legal hold is not erased.
use one_ai.Prelude.{
  Uuid, Time, String, ◌≡◌, refl, ap, ◌∙◌, inl, inr, Bool, true, false, Option, none, some, List, [],
  ◌∷◌, arith, ◌==◌, update_where, is_empty, Bool-cases, Option-cases, if◌then◌else◌,
}
use one_ai.Result.{Result, ok, err}
use one_ai.Audit.{Principal}
use one_ai.Identity.Erasure.{
  ErasureRequest, ErasureCertificateResponse, ErasureError, erasure_not_configured,
  organization_not_found, erasure_confirmation, password_confirmation, legal_hold, Estate,
  missing_hooks, erase_found, erase_organization,
}
use one_ai.Identity.Hooks.{ErasureHook}
use one_ai.Identity.Platform.{OrganizationDetailResponse, set_legal_hold}
use one_ai.Identity.Realm.{Organization, Realm, get_for_update, get_with_user_count}

abbrev is_held : Option Organization → Bool
is_held none = true
is_held (some o) = o.legal_hold

abbrev hold : Uuid → List Organization → List Organization
hold org_id = update_where (λ o. o.id == org_id) (λ o. record o { legal_hold = true })

is_held-hold :
    (org_id : Uuid) (table : List Organization)
    → is_held (get_for_update org_id (hold org_id table)) ≡ true
unfolding get_for_update
is_held-hold org_id [] = refl
is_held-hold org_id (o ∷ table) = elim (Bool-cases (o.id == org_id)) [
  | inl here ↦ rw (here, here) refl
  | inr later ↦ rw (later, later) (is_held-hold org_id table)
]

holds :
    (org_id : Uuid) (actor : Principal) (s s' : Realm) (detail : OrganizationDetailResponse)
    → set_legal_hold org_id true actor s ≡ (ok detail, s')
    → s'.organizations ≡ hold org_id s.organizations
unfolding set_legal_hold
holds org_id actor s s' detail done = elim (Option-cases (get_with_user_count org_id s)) [
  | inl absent ↦ absurd (ground (arith, absent, done))
  | inr (r, found) ↦ ground (arith, found, done)
]

-- three guards of which the last refuses
last_guard :
    (slug password held : Bool) (s : Estate)
    (erasure : Result ErasureError ErasureCertificateResponse × Estate)
    → held ≡ true
    → (e : ErasureError) × ((if slug
          then (err erasure_confirmation, s)
          else if password
          then (err password_confirmation, s)
          else if held
          then (err legal_hold, s)
          else erasure)
        ≡ (err e, s))
last_guard true password held s erasure h = (erasure_confirmation, refl)
last_guard false true held s erasure h = (password_confirmation, refl)
last_guard false false held s erasure h = (legal_hold, rw h refl)

module _ (verify_password : String → String → Bool) (dummy_password_hash : String)
    (hooks : List (String × ErasureHook)) (org_id : Uuid) (payload : ErasureRequest)
    (actor : Principal) (now : Time) where
  held_back :
      (o : Option Organization) (s : Estate)
      → is_held o ≡ true
      → (e : ErasureError) × (erase_found verify_password dummy_password_hash hooks o org_id payload
            actor now s
          ≡ (err e, s))
  held_back none s h = (organization_not_found, refl)
  held_back (some o) s h = last_guard _ _ o.legal_hold s _ h

  -- After a legal hold has been set, as long as the rows of the organizations stay as that left
  -- them, an erasure of the organization fails and changes nothing, whoever asks for it and
  -- whatever hooks are registered.
  pub legal_hold_beats_erasure :
      (holder : Principal) (s s' : Realm) (later : Estate) (detail : OrganizationDetailResponse)
      → set_legal_hold org_id true holder s ≡ (ok detail, s')
      → later.realm.organizations ≡ s'.organizations
      → (e : ErasureError) × (erase_organization verify_password dummy_password_hash hooks org_id
            payload actor now later
          ≡ (err e, later))
  unfolding erase_organization
  legal_hold_beats_erasure holder s s' later detail done same =
      let held : is_held (get_for_update org_id later.realm.organizations) ≡ true =
        ap (λ t. is_held (get_for_update org_id t)) (same ∙ holds org_id holder s s' detail done)
        ∙ is_held-hold org_id s.organizations in
      elim (Bool-cases (is_empty (missing_hooks hooks))) [
        | inl configured ↦
            rw configured (held_back (get_for_update org_id later.realm.organizations) later held)
        | inr missing ↦ (erasure_not_configured, rw missing refl)
      ]
