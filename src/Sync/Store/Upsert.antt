-- ===== src/Sync/Store/Upsert.antt =====
-- A cursor after an upsert: the folder's is the written one, every other is as it was.
use one_ai.Prelude.{
  String, ◌≡◌, ◌≢◌, refl, Bool, true, false, some, List, arith, ◌==◌, str_eq_iff, Bool-cases,
  Option-cases, inl, inr, find_where, count_where, find_where_sound, find_where-update_where,
  find_where-update_where_ne, find_where-snoc, find_where-none,
}
use one_ai.Sync.Store.{CursorRow, is_cursor, upsert}

module _ (row : CursorRow) (table : List CursorRow) where
  same : CursorRow → Bool
  same = is_cursor row.org_id row.connection_id row.folder

  written : CursorRow → CursorRow
  written r = record r {
    uidvalidity = row.uidvalidity;
    last_seen_uid = row.last_seen_uid;
    failed_uids = row.failed_uids;
  }

  pub upsert_self :
      (r : CursorRow)
      → find_where (is_cursor row.org_id row.connection_id row.folder) (upsert row table) ≡ some r
      → (r.uidvalidity ≡ row.uidvalidity) × (r.last_seen_uid ≡ row.last_seen_uid)
  unfolding upsert same written
  upsert_self r found = elim (Bool-cases (count_where same table == 0)) [
    | inl fresh ↦ ground (
      arith,
      fresh,
      find_where-none same table,
      find_where-snoc same table row,
      str_eq_iff row.folder row.folder,
    )
    | inr known ↦ elim (Option-cases (find_where same table)) [
      | inl absent ↦
          ground (arith, known, absent, find_where-update_where same same written table (λ a. refl))
      | inr (a, present) ↦ ground (
        arith,
        known,
        present,
        find_where-update_where same same written table (λ a. refl),
        find_where_sound same table present,
      )
    ]
  ]

  pub upsert_other :
      (folder : String)
      → folder ≢ row.folder
      → find_where (is_cursor row.org_id row.connection_id folder) (upsert row table)
        ≡ find_where (is_cursor row.org_id row.connection_id folder) table
  unfolding upsert same written
  upsert_other folder apart = elim (Bool-cases (count_where same table == 0)) [
    | inl fresh ↦ ground (
      arith,
      fresh,
      find_where-snoc (is_cursor row.org_id row.connection_id folder) table row,
      str_eq_iff row.folder folder,
    )
    | inr known ↦ ground (
      arith,
      known,
      find_where-update_where_ne (is_cursor row.org_id row.connection_id folder) same written table
          (λ a taken. elsewhere a taken),
    )
  ]
    where
      elsewhere :
          (a : CursorRow)
          → same a ≡ true
          → (is_cursor row.org_id row.connection_id folder a ≡ false)
            × (is_cursor row.org_id row.connection_id folder (written a) ≡ false)
      elsewhere a taken =
          ground (arith, taken, str_eq_iff a.folder folder, str_eq_iff a.folder row.folder)
