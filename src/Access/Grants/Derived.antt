-- ===== src/Access/Grants/Derived.antt =====
-- Which principals a message has, and in which role.
use one_ai.Prelude.{
  Uuid, String, ◌≡◌, refl, sym, ap, ◌∙◌, Bool, false, not, ◌&&◌, ◌||◌, inl, inr, Option, none, some,
  List, [], ◌∷◌, arith, ◌==◌, ==_iff, str_eq, str_eq_iff, is_none, any, opt_eq, Bool-cases,
  if◌then◌else◌,
}
use one_ai.Access.Normalize.{TextMethods, normalize_email}
use one_ai.Access.Grants.{
  Provenance, recipient, sender, owner, PrincipalSourceIdentity, is_verified,
  get_verified_person_id, get_verified_person_ids, role_at, is_falsy, recipient_roles,
  address_roles, held_by, outranks, hold, hold_all, hold_owner, owner_person,
  derive_email_principal_roles,
}

module _ (t : TextMethods) where
  -- the match key of some recipient, or of the sender
  abbrev pub is_recipient_key : List String → String → Bool
  is_recipient_key [] k = false
  is_recipient_key (a ∷ rest) k =
      not (is_falsy (normalize_email t a)) && str_eq k (normalize_email t a)
      || is_recipient_key rest k

  abbrev pub is_sender_key : Option String → String → Bool
  is_sender_key none k = false
  is_sender_key (some a) k =
      not (is_falsy a) && not (is_falsy (normalize_email t a)) && str_eq k (normalize_email t a)

  role_at-recipient_roles :
      (k : String) (rest : List String) (d : List (String × Provenance))
      → role_at k (recipient_roles t rest d) ≡ (
          if not (is_none (role_at k d))
          then role_at k d
          else if is_recipient_key rest k
          then some recipient
          else none)
  unfolding recipient_roles
  role_at-recipient_roles k [] d = ground arith
  role_at-recipient_roles k (a ∷ rest) d = elim (Bool-cases (str_eq k (normalize_email t a))) [
    | inl same ↦
        (let e : role_at (normalize_email t a) d ≡ role_at k d =
            ap (λ x. role_at x d) (sym ((str_eq_iff k (normalize_email t a)).0 same)) in
          role_at-recipient_roles k rest _ ∙ ground (arith, same, e))
    | inr apart ↦ role_at-recipient_roles k rest _ ∙ ground (arith, apart)
  ]

  abbrev role_of : Option String → List String → String → Option Provenance
  role_of sender_address recipient_addresses k =
      if is_sender_key sender_address k
      then some sender
      else if is_recipient_key recipient_addresses k
      then some recipient
      else none

  role_at-address_roles :
      (k : String) (sender_address : Option String) (recipient_addresses : List String)
      → role_at k (address_roles t sender_address recipient_addresses)
        ≡ role_of sender_address recipient_addresses k
  unfolding address_roles
  role_at-address_roles k none rs = ground (arith, role_at-recipient_roles k rs [])
  role_at-address_roles k (some a) rs = ground (arith, role_at-recipient_roles k rs [])

module _ (p : Uuid) (roles : List (String × Provenance)) (is_s is_r : String → Bool)
    (roles_are : (k : String)
      → role_at k roles
        ≡ (if is_s k then some sender else if is_r k then some recipient else none)) where
  abbrev as_sender : PrincipalSourceIdentity → Bool
  as_sender r = p == r.person_id && is_s r.external_id

  abbrev as_recipient : PrincipalSourceIdentity → Bool
  as_recipient r = p == r.person_id && is_r r.external_id

  abbrev best : Option Provenance → List PrincipalSourceIdentity → Option Provenance
  best (some owner) rs = some owner
  best (some sender) rs = some sender
  best (some recipient) rs = if any as_sender rs then some sender else some recipient
  best none rs =
      if any as_sender rs then some sender else if any as_recipient rs then some recipient else none

  held_by-hold :
      (q : Uuid) (r : Option Provenance) (d : List (Uuid × Provenance))
      → held_by p (hold q r d) ≡ (
          if p == q
          then (elim r [
            | none ↦ held_by p d
            | some x ↦ if outranks x (held_by p d) then some x else held_by p d
          ])
          else held_by p d)
  held_by-hold q none d = ground arith
  held_by-hold q (some x) d = elim (Bool-cases (p == q)) [
    | inl same ↦
        (let e : held_by q d ≡ held_by p d = ap (λ k. held_by k d) (sym ((==_iff p q).0 same)) in
          ground (arith, same, e))
    | inr apart ↦ ground (arith, apart)
  ]

  -- the principal after one more row
  abbrev improved : PrincipalSourceIdentity → Option Provenance → Option Provenance
  improved r h =
      if p == r.person_id
      then (elim (if is_s r.external_id
          then some sender
          else if is_r r.external_id
          then some recipient
          else none) [ none ↦ h | some x ↦ if outranks x h then some x else h ])
      else h

  best-nil : (h : Option Provenance) → best h [] ≡ h
  best-nil (some owner) = refl
  best-nil (some sender) = refl
  best-nil (some recipient) = refl
  best-nil none = refl

  best-cons :
      (r : PrincipalSourceIdentity) (rs : List PrincipalSourceIdentity) (h : Option Provenance)
      → best (improved r h) rs ≡ best h (r ∷ rs)
  best-cons r rs (some owner) = ground arith
  best-cons r rs (some sender) = ground arith
  best-cons r rs (some recipient) = ground arith
  best-cons r rs none = ground arith

  held_by-hold_all :
      (rs : List PrincipalSourceIdentity) (d : List (Uuid × Provenance))
      → held_by p (hold_all roles rs d) ≡ best (held_by p d) rs
  unfolding hold_all
  held_by-hold_all [] d = sym (best-nil (held_by p d))
  held_by-hold_all (r ∷ rs) d =
      held_by-hold_all rs (hold r.person_id (role_at r.external_id roles) d)
      ∙ ap (λ h. best h rs)
          (held_by-hold r.person_id (role_at r.external_id roles) d
            ∙ ap
                (λ x.
                  if p == r.person_id
                  then (elim x [
                    | none ↦ held_by p d
                    | some y ↦ if outranks y (held_by p d) then some y else held_by p d
                  ])
                  else held_by p d)
                (roles_are r.external_id))
      ∙ best-cons r rs (held_by p d)

  any-asked :
      (org_id : Uuid) (rs : List PrincipalSourceIdentity)
      → (any as_sender
            (get_verified_person_ids org_id "email" (λ a. not (is_none (role_at a roles))) rs)
          ≡ any (λ r. is_verified org_id "email" r && as_sender r) rs)
        × ((any (λ r. is_verified org_id "email" r && as_sender r) rs ≡ false)
            → any as_recipient
                (get_verified_person_ids org_id "email" (λ a. not (is_none (role_at a roles))) rs)
              ≡ any (λ r. is_verified org_id "email" r && as_recipient r) rs)
  unfolding get_verified_person_ids
  any-asked org_id [] = (refl, λ _. refl)
  any-asked org_id (r ∷ rs) =
      let (s, t) = any-asked org_id rs in
      (
        ground (arith, s, roles_are r.external_id),
        λ h. ground (arith, h, t, roles_are r.external_id),
      )

abbrev role_among : Bool → Bool → Option Provenance
role_among s r = if s then some sender else if r then some recipient else none

asked_role :
    {s s' r r' : Bool} → (s ≡ s') × ((s' ≡ false) → r ≡ r') → role_among s r ≡ role_among s' r'
asked_role h = ground (arith, h.0, h.1)

owner_or_role :
    (p : Uuid) (o : Option Uuid) (held : List (Uuid × Provenance)) (role : Option Provenance)
    → held_by p held ≡ role
    → held_by p (hold_owner o held) ≡ (if opt_eq o p then some owner else role)
owner_or_role p none held role h = h
owner_or_role p (some q) held role h = ground (arith, h)

-- an identity of the organization and the source that was verified
abbrev pub is_genuine : Uuid → String → PrincipalSourceIdentity → Bool
is_genuine org_id source_type r =
    if r.verified then str_eq r.source_type source_type && r.org_id == org_id else false

-- the first genuine identity under the name is the person's
abbrev pub names_first : Uuid → String → String → Uuid → List PrincipalSourceIdentity → Bool
names_first org_id source_type name p [] = false
names_first org_id source_type name p (r ∷ rs) =
    let later = names_first org_id source_type name p rs in
    if is_genuine org_id source_type r && str_eq r.external_id name then r.person_id == p else later

abbrev pub is_owned_by :
    (Uuid → String) → Uuid → Option Uuid → Uuid → List PrincipalSourceIdentity → Bool
is_owned_by uuid_text org_id none p identities = false
is_owned_by uuid_text org_id (some owner_user_id) p identities =
    names_first org_id "auth" (uuid_text owner_user_id) p identities

is_genuine_lem :
    (org_id : Uuid) (source_type : String) (r : PrincipalSourceIdentity)
    → is_verified org_id source_type r ≡ is_genuine org_id source_type r
is_genuine_lem org_id source_type r = ground arith

names_first_lem :
    (org_id : Uuid) (source_type name : String) (p : Uuid) (rs : List PrincipalSourceIdentity)
    → opt_eq (get_verified_person_id org_id source_type name rs) p
      ≡ names_first org_id source_type name p rs
unfolding get_verified_person_id
names_first_lem org_id source_type name p [] = refl
names_first_lem org_id source_type name p (r ∷ rs) =
    elim (Bool-cases (is_verified org_id source_type r && str_eq r.external_id name)) [
      | inl hit ↦ ground (arith, hit)
      | inr miss ↦ ground (arith, miss, names_first_lem org_id source_type name p rs)
    ]

is_owned_by_lem :
    (t : TextMethods) (uuid_text : Uuid → String) (org_id : Uuid) (owner_user_id : Option Uuid)
    (p : Uuid) (rs : List PrincipalSourceIdentity)
    → opt_eq (owner_person t uuid_text org_id owner_user_id rs) p
      ≡ is_owned_by uuid_text org_id owner_user_id p rs
is_owned_by_lem t uuid_text org_id none p rs = refl
is_owned_by_lem t uuid_text org_id (some u) p rs = names_first_lem org_id "auth" (uuid_text u) p rs

any-genuine :
    (org_id : Uuid) (source_type : String) (q : PrincipalSourceIdentity → Bool)
    (rs : List PrincipalSourceIdentity)
    → any (λ r. is_verified org_id source_type r && q r) rs
      ≡ any (λ r. is_genuine org_id source_type r && q r) rs
any-genuine org_id source_type q [] = refl
any-genuine org_id source_type q (r ∷ rs) =
    ground (arith, is_genuine_lem org_id source_type r, any-genuine org_id source_type q rs)

module _ (t : TextMethods) (uuid_text : Uuid → String) where
  held_by-derived :
      (org_id : Uuid) (owner_user_id : Option Uuid) (sender_address : Option String)
      (recipient_addresses : List String) (identities : List PrincipalSourceIdentity) (p : Uuid)
      → held_by p (
          derive_email_principal_roles t uuid_text org_id owner_user_id sender_address
            recipient_addresses identities)
        ≡ (if opt_eq (owner_person t uuid_text org_id owner_user_id identities) p
            then some owner
            else if any
                (λ r.
                  is_verified org_id "email" r
                  && (p == r.person_id && is_sender_key t sender_address r.external_id))
                identities
            then some sender
            else if any
                (λ r.
                  is_verified org_id "email" r
                  && (p == r.person_id && is_recipient_key t recipient_addresses r.external_id))
                identities
            then some recipient
            else none)
  unfolding derive_email_principal_roles
  held_by-derived org_id owner_user_id sender_address recipient_addresses identities p =
      owner_or_role p (owner_person t uuid_text org_id owner_user_id identities) _ _ (
        held_by-hold_all p (address_roles t sender_address recipient_addresses)
          (is_sender_key t sender_address) (is_recipient_key t recipient_addresses)
          (λ k. role_at-address_roles t k sender_address recipient_addresses) _ []
        ∙ asked_role (
            any-asked p (address_roles t sender_address recipient_addresses)
              (is_sender_key t sender_address) (is_recipient_key t recipient_addresses)
              (λ k. role_at-address_roles t k sender_address recipient_addresses) org_id
              identities))

  -- A person is a principal of a message through the verified identities of the organization
  -- alone: as its owner if the first of them for the account that owns the connection names the
  -- person, else as its sender, else as a recipient, and else not at all.
  pub derive_exact :
      (org_id : Uuid) (owner_user_id : Option Uuid) (sender_address : Option String)
      (recipient_addresses : List String) (identities : List PrincipalSourceIdentity) (p : Uuid)
      → held_by p (
          derive_email_principal_roles t uuid_text org_id owner_user_id sender_address
            recipient_addresses identities)
        ≡ (if is_owned_by uuid_text org_id owner_user_id p identities
            then some owner
            else if any
                (λ r.
                  is_genuine org_id "email" r
                  && (p == r.person_id && is_sender_key t sender_address r.external_id))
                identities
            then some sender
            else if any
                (λ r.
                  is_genuine org_id "email" r
                  && (p == r.person_id && is_recipient_key t recipient_addresses r.external_id))
                identities
            then some recipient
            else none)
  derive_exact org_id owner_user_id sender_address recipient_addresses identities p =
      let as_s = λ (r : PrincipalSourceIdentity).
        p == r.person_id && is_sender_key t sender_address r.external_id in
      let as_r = λ (r : PrincipalSourceIdentity).
        p == r.person_id && is_recipient_key t recipient_addresses r.external_id in
      held_by-derived org_id owner_user_id sender_address recipient_addresses identities p
      ∙ rw
          (
            is_owned_by_lem t uuid_text org_id owner_user_id p identities,
            any-genuine org_id "email" as_s identities,
            any-genuine org_id "email" as_r identities,
          )
          refl
