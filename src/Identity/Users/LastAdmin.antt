-- ===== src/Identity/Users/LastAdmin.antt =====
-- No call leaves an organization without an active administrator.
use one_ai.Prelude.{
  ◌≤◌, Uuid, Time, ◌≡◌, refl, sym, subst, Bool, true, false, not, ◌&&◌, inl, inr, Option, none,
  some, List, [], ◌∷◌, arith, any, map, keep_if, ◌==◌, value_or, find_where_sound, count_where,
  Bool-cases, Option-cases,
}
use one_ai.Audit.{Principal}
use one_ai.Identity.Users.{
  User, Office, UserUpdateRequest, UserRole, is_company_admin, is_active_admin_of,
  lock_active_admin_ids, guard_last_admin, applied, save, get_in_org, update_user, deactivate_user,
}

abbrev pub has_admin : Uuid → List User → Bool
has_admin org_id table = any (is_active_admin_of org_id) table

-- an active administrator beside this user
abbrev another_admin : Uuid → Uuid → List User → Bool
another_admin org_id user_id table =
    any (λ u. not (User.id u == user_id) && is_active_admin_of org_id u) table

another_admin-guard :
    (org_id user_id : Uuid) (table : List User)
    → any
        (λ a. not (a == user_id))
        (map (λ u. User.id u) (keep_if (is_active_admin_of org_id) table))
      ≡ another_admin org_id user_id table
another_admin-guard org_id user_id [] = refl
another_admin-guard org_id user_id (x ∷ xs) = ground (arith, another_admin-guard org_id user_id xs)

another_admin-stays :
    (org_id user_id : Uuid) (change : User → User) (table : List User)
    → another_admin org_id user_id table ≡ true
    → has_admin org_id (save user_id change table) ≡ true
another_admin-stays org_id user_id change [] h = absurd (ground arith)
another_admin-stays org_id user_id change (x ∷ xs) h =
    ground (arith, h, another_admin-stays org_id user_id change xs)

none_of_id :
    (org_id user_id : Uuid) (table : List User)
    → count_where (λ u. User.id u == user_id) table ≡ 0
    → another_admin org_id user_id table ≡ has_admin org_id table
none_of_id org_id user_id [] h = refl
none_of_id org_id user_id (x ∷ xs) h = ground (arith, h, none_of_id org_id user_id xs)

not_found :
    (caller_org user_id : Uuid) (table : List User)
    → count_where (λ u. User.id u == user_id) table ≡ 0
    → get_in_org user_id caller_org table ≡ none
unfolding get_in_org
not_found caller_org user_id [] h = refl
not_found caller_org user_id (x ∷ xs) h = ground (arith, h, not_found caller_org user_id xs)

found_first :
    (caller_org user_id : Uuid) (x u : User) (xs : List User)
    → count_where (λ r. User.id r == user_id) xs ≡ 0
    → (x.id == user_id) ≡ true
    → get_in_org user_id caller_org (x ∷ xs) ≡ some u
    → some x ≡ some u
unfolding get_in_org
found_first caller_org user_id x u xs absent here found =
    ground (arith, not_found caller_org user_id xs absent, here, found)

found_later :
    (caller_org user_id : Uuid) (x u : User) (xs : List User)
    → (x.id == user_id) ≡ false
    → get_in_org user_id caller_org (x ∷ xs) ≡ some u
    → get_in_org user_id caller_org xs ≡ some u
unfolding get_in_org
found_later caller_org user_id x u xs there found = ground (arith, there, found)

-- Where the only active administrator is the user that the call loaded, the change decides.
only_admin-stays :
    (org_id caller_org user_id : Uuid) (change : User → User) (table : List User) (u : User)
    → count_where (λ r. User.id r == user_id) table ≤ 1
    → get_in_org user_id caller_org table ≡ some u
    → has_admin org_id table ≡ true
    → another_admin org_id user_id table ≡ false
    → (is_active_admin_of org_id u ≡ true)
      × (is_active_admin_of org_id (change u) ≡ true
          → has_admin org_id (save user_id change table) ≡ true)
only_admin-stays org_id caller_org user_id change [] u one found has alone = absurd (ground arith)
only_admin-stays org_id caller_org user_id change (x ∷ xs) u one found has alone =
    elim (Bool-cases (x.id == user_id)) [
      | inl here ↦
          (let absent : count_where (λ r. User.id r == user_id) xs ≡ 0 =
              ground (arith, one, here) in
            let only : is_active_admin_of org_id x ≡ true =
              ground (arith, has, alone, none_of_id org_id user_id xs absent, here) in
            let found_here = found_first caller_org user_id x u xs absent here found in
            let same : x ≡ u = cc in
            (
              subst (λ k. is_active_admin_of org_id k ≡ true) same only,
              λ ch.
                  let ch' : is_active_admin_of org_id (change x) ≡ true =
                    subst (λ k. is_active_admin_of org_id (change k) ≡ true) (sym same) ch in
                  ground (arith, here, ch'),
            ))
      | inr there ↦
          (let (was, stays) =
              only_admin-stays org_id caller_org user_id change xs u (ground (arith, one, there))
                (found_later caller_org user_id x u xs there found)
                (ground (arith, has, alone, there)) (ground (arith, alone, there)) in
            (was, λ ch. ground (arith, stays ch, there)))
    ]

guard_alone :
    (org_id : Uuid) (u : User) (new_role : Option UserRole) (new_is_active : Option Bool)
    (table : List User)
    → another_admin org_id u.id table ≡ false
    → (is_company_admin u.role && u.is_active) ≡ true
    → guard_last_admin org_id u new_role new_is_active table ≡ true
    → (is_company_admin (value_or u.role new_role) && value_or u.is_active new_is_active) ≡ true
unfolding guard_last_admin lock_active_admin_ids
guard_alone org_id u new_role new_is_active table alone was guarded =
    ground (arith, another_admin-guard org_id u.id table, alone, was, guarded)

-- A change that the guard let through, of the row that the call loaded, leaves an administrator.
guarded_change :
    (org_id caller_org user_id : Uuid) (change : User → User) (table : List User) (u : User)
    (new_role : Option UserRole) (new_is_active : Option Bool)
    → count_where (λ r. User.id r == user_id) table ≤ 1
    → get_in_org user_id caller_org table ≡ some u
    → has_admin org_id table ≡ true
    → guard_last_admin caller_org u new_role new_is_active table ≡ true
    → (u.id ≡ user_id) × (u.org_id ≡ caller_org)
    → ((change u).org_id ≡ u.org_id)
      × ((change u).role ≡ value_or u.role new_role)
      × ((change u).is_active ≡ value_or u.is_active new_is_active)
    → has_admin org_id (save user_id change table) ≡ true
guarded_change org_id caller_org user_id change table u new_role new_is_active one found has guarded
      own sets =
    elim (Bool-cases (another_admin org_id user_id table)) [
      | inl other ↦ another_admin-stays org_id user_id change table other
      | inr alone ↦
          (let (was, stays) =
              only_admin-stays org_id caller_org user_id change table u one found has alone in
            let mine : org_id ≡ caller_org = ground (arith, was, own.1) in
            let alone' : another_admin caller_org u.id table ≡ false = cc in
            let kept =
              guard_alone caller_org u new_role new_is_active table alone' (ground (arith, was))
                guarded in
            stays (ground (arith, was, kept, sets.0, sets.1, sets.2)))
    ]

own_row :
    (caller_org user_id : Uuid) (table : List User) {u : User}
    → get_in_org user_id caller_org table ≡ some u
    → (u.id ≡ user_id) × (u.org_id ≡ caller_org)
unfolding get_in_org
own_row caller_org user_id table {u} found =
    let p =
      find_where_sound (λ r. User.id r == user_id && User.org_id r == caller_org) table found in
    (ground (arith, p), ground (arith, p))

loaded_change :
    (org_id caller_org user_id : Uuid) (change : User → User) (table : List User) (u : User)
    (new_role : Option UserRole) (new_is_active : Option Bool)
    → count_where (λ r. User.id r == user_id) table ≤ 1
    → get_in_org user_id caller_org table ≡ some u
    → has_admin org_id table ≡ true
    → guard_last_admin caller_org u new_role new_is_active table ≡ true
    → ((change u).org_id ≡ u.org_id)
      × ((change u).role ≡ value_or u.role new_role)
      × ((change u).is_active ≡ value_or u.is_active new_is_active)
    → has_admin org_id (save u.id change table) ≡ true
loaded_change org_id caller_org user_id change table u r a one found has guarded sets =
    let own = own_row caller_org user_id table found in
    subst (λ k. has_admin org_id (save k change table) ≡ true) (sym own.0)
      (guarded_change org_id caller_org user_id change table u r a one found has guarded own sets)

-- No update of a user by any caller, whether it succeeds or is refused, takes the last active
-- administrator from an organization that has one, where the id is on at most one row.
pub has_admin-update_user :
    (org_id caller_org user_id : Uuid) (payload : UserUpdateRequest) (actor : Principal)
    (now : Time) (s : Office)
    → count_where (λ r. User.id r == user_id) s.users ≤ 1
    → has_admin org_id s.users ≡ true
    → has_admin org_id (update_user caller_org user_id payload actor now s).1.users ≡ true
unfolding update_user
has_admin-update_user org_id caller_org user_id payload actor now s one has =
    elim (Option-cases (get_in_org user_id caller_org s.users)) [
      | inl absent ↦ ground (arith, absent, has)
      | inr (u, found) ↦
          elim (Bool-cases (guard_last_admin caller_org u payload.role payload.is_active s.users)) [
            | inl may ↦
                (let kept =
                    loaded_change org_id caller_org user_id (applied payload) s.users u payload.role
                      payload.is_active one found has may (refl, refl, refl) in
                  ground (arith, found, may, kept))
            | inr may_not ↦ ground (arith, found, may_not, has)
          ]
    ]

-- No deactivation of a user by any caller, whether it succeeds or is refused, takes the last
-- active administrator from an organization that has one, where the id is on at most one row.
pub has_admin-deactivate_user :
    (org_id caller_org user_id : Uuid) (actor : Principal) (now : Time) (s : Office)
    → count_where (λ r. User.id r == user_id) s.users ≤ 1
    → has_admin org_id s.users ≡ true
    → has_admin org_id (deactivate_user caller_org user_id actor now s).1.users ≡ true
unfolding deactivate_user
has_admin-deactivate_user org_id caller_org user_id actor now s one has =
    elim (Option-cases (get_in_org user_id caller_org s.users)) [
      | inl absent ↦ ground (arith, absent, has)
      | inr (u, found) ↦
          elim (Bool-cases (guard_last_admin caller_org u none (some false) s.users)) [
            | inl may ↦
                (let kept =
                    loaded_change org_id caller_org user_id (λ r. record r { is_active = false })
                      s.users u none (some false) one found has may (refl, refl, refl) in
                  ground (arith, found, may, kept))
            | inr may_not ↦ ground (arith, found, may_not, has)
          ]
    ]
