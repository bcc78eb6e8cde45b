-- ===== src/Sync/Fetcher/Coverage.antt =====
-- What the stream requests of a folder: all of the folder's new UIDs, once and in order.
use one_ai.Prelude.{
  ℕ, String, ◌≡◌, refl, sym, subst, ap, ◌∙◌, Bool, false, not, ◌||◌, ◌&&◌, ◌==◌, leb, opt_eq,
  keep_if, inl, inr, Option, none, some, List, [], ◌∷◌, ◌++◌, map, append_assoc, append-nil, arith,
  str_eq, str_eq_iff, is_empty, Bool-cases, if◌then◌else◌,
}
use one_ai.Sync.Fetch.{FolderCursor, FetchBatch}
use one_ai.Sync.Planner.{batch_by_bytes}
use one_ai.Sync.Planner.Batches.{joined, batch_by_bytes_exact}
use one_ai.Sync.Fetcher.{
  ImapFetchSession, FetchCursors, min_uid, min_uid_of, batch_of, fetch_selected, fetch_folders,
  fetch_incremental,
}

-- the UIDs that some batches request of a folder
abbrev pub requested_of : String → List FetchBatch → List ℕ
requested_of f [] = []
requested_of f (b ∷ bs) =
    if str_eq f b.folder then b.requested_uids ++ requested_of f bs else requested_of f bs

abbrev pub occurs : String → List String → Bool
occurs f [] = false
occurs f (g ∷ gs) = str_eq f g || occurs f gs

abbrev pub IsDistinct : List String → Type 0
IsDistinct [] = Unit
IsDistinct (g ∷ gs) = (occurs g gs ≡ false) × IsDistinct gs

pub requested_of-append :
    (f : String) (bs cs : List FetchBatch)
    → requested_of f (bs ++ cs) ≡ requested_of f bs ++ requested_of f cs
requested_of-append f [] cs = refl
requested_of-append f (b ∷ bs) cs = elim (Bool-cases (str_eq f b.folder)) [
  | inl same ↦ rw same (
      ap (λ l. b.requested_uids ++ l) (requested_of-append f bs cs)
      ∙ sym (append_assoc b.requested_uids (requested_of f bs) (requested_of f cs)))
  | inr apart ↦ rw apart (requested_of-append f bs cs)
]

module _ (session : ImapFetchSession) (cursors : FetchCursors) where
  requested_of-batches :
      (f g : String) (v : ℕ) (bs : List (List ℕ))
      → requested_of f (map (batch_of session cursors g v) bs)
        ≡ (if str_eq f g then joined bs else [])
  requested_of-batches f g v [] = ground arith
  requested_of-batches f g v (b ∷ bs) = ground (arith, requested_of-batches f g v bs)

  -- the new UIDs of a folder
  abbrev pub new_uids : String → Option ℕ → List ℕ
  new_uids f none = []
  new_uids f (some v) = session.search_uids f (min_uid cursors f v)

  requested_of-pending :
      (limit : ℕ) (f g : String) (v : ℕ) (sizes : ℕ → Option ℕ) (uids : List ℕ)
      → requested_of f (
          if is_empty uids
          then []
          else map (batch_of session cursors g v) (batch_by_bytes uids sizes limit))
        ≡ (if str_eq f g then uids else [])
  requested_of-pending limit f g v sizes [] = ground arith
  requested_of-pending limit f g v sizes (u ∷ us) =
      requested_of-batches f g v (batch_by_bytes (u ∷ us) sizes limit)
      ∙ ap (λ l. if str_eq f g then l else []) (batch_by_bytes_exact sizes limit (u ∷ us)).0

  requested_of-fetch_selected :
      (limit : ℕ) (f g : String) (selected : Option ℕ)
      → requested_of f (fetch_selected session cursors limit g selected)
        ≡ (if str_eq f g then new_uids g selected else [])
  requested_of-fetch_selected limit f g none = ground arith
  requested_of-fetch_selected limit f g (some v) =
      requested_of-pending limit f g v _ (session.search_uids g (min_uid cursors g v))

  requested_of-fetch_folders :
      (limit : ℕ) (f g : String) (gs : List String)
      → requested_of f (fetch_folders session cursors limit (g ∷ gs))
        ≡ (if str_eq f g then new_uids g (session.select_folder g) else [])
          ++ requested_of f (fetch_folders session cursors limit gs)
  unfolding fetch_folders
  requested_of-fetch_folders limit f g gs =
      requested_of-append f (fetch_selected session cursors limit g (session.select_folder g)) _
      ∙ ap (λ l. l ++ requested_of f (fetch_folders session cursors limit gs))
          (requested_of-fetch_selected limit f g (session.select_folder g))

  requested_of-absent :
      (limit : ℕ) (f : String) (folders : List String)
      → occurs f folders ≡ false
      → requested_of f (fetch_folders session cursors limit folders) ≡ []
  unfolding fetch_folders
  requested_of-absent limit f [] h = refl
  requested_of-absent limit f (g ∷ gs) h =
      ground (arith, h, requested_of-fetch_folders limit f g gs, requested_of-absent limit f gs)

  -- over folders listed once each
  pub requested_of-fetch_distinct :
      (limit : ℕ) (f : String) (folders : List String)
      → IsDistinct folders
      → requested_of f (fetch_folders session cursors limit folders)
        ≡ (if occurs f folders then new_uids f (session.select_folder f) else [])
  requested_of-fetch_distinct limit f [] distinct = requested_of-absent limit f [] refl
  requested_of-fetch_distinct limit f (g ∷ gs) distinct = elim (Bool-cases (str_eq f g)) [
    | inl same ↦
        (let e : g ≡ f = sym ((str_eq_iff f g).0 same) in
          let absent : occurs f gs ≡ false = subst (λ k. occurs k gs ≡ false) e distinct.0 in
          let now : new_uids g (session.select_folder g) ≡ new_uids f (session.select_folder f) =
            ap (λ k. new_uids k (session.select_folder k)) e in
          requested_of-fetch_folders limit f g gs
          ∙ rw (same, requested_of-absent limit f gs absent, now) (append-nil _))
    | inr apart ↦
        requested_of-fetch_folders limit f g gs
        ∙ rw apart (requested_of-fetch_distinct limit f gs distinct.1)
  ]

-- Has the cursor passed the UID? One of another generation of the folder has passed none.
abbrev pub is_passed : Option FolderCursor → ℕ → ℕ → Bool
is_passed none v u = false
is_passed (some c) v u = opt_eq c.uidvalidity v && leb u c.last_seen_uid

-- a UID is not zero
abbrev pub is_new : Option FolderCursor → ℕ → ℕ → Bool
is_new cursor v u = not (u == 0) && not (is_passed cursor v u)

abbrev pub new_in : Option FolderCursor → List ℕ → Option ℕ → List ℕ
new_in cursor uids none = []
new_in cursor uids (some v) = keep_if (is_new cursor v) uids

is_new-min_uid_of :
    (cursor : Option FolderCursor) (v u : ℕ) → leb (min_uid_of cursor v) u ≡ is_new cursor v u
is_new-min_uid_of none v u = ground arith
is_new-min_uid_of (some c) v u = by_generation c.uidvalidity
  where
    by_generation :
        (g : Option ℕ)
        → leb (min_uid_of (some (record c { uidvalidity = g })) v) u
          ≡ is_new (some (record c { uidvalidity = g })) v u
    by_generation none = ground arith
    by_generation (some g) = ground arith

keep_if-same : (p q : ℕ → Bool) (us : List ℕ) → ((u : ℕ) → p u ≡ q u) → keep_if p us ≡ keep_if q us
keep_if-same p q [] same = refl
keep_if-same p q (u ∷ us) same = ground (arith, same u, keep_if-same p q us same)

module _ (session : ImapFetchSession) (cursors : FetchCursors) (present : String → List ℕ)
    (searched : (f : String) (n : ℕ) → session.search_uids f n ≡ keep_if (leb n) (present f)) where
  new_uids-new_in :
      (f : String) (selected : Option ℕ)
      → new_uids session cursors f selected ≡ new_in (cursors f) (present f) selected
  unfolding min_uid
  new_uids-new_in f none = refl
  new_uids-new_in f (some v) =
      searched f (min_uid_of (cursors f) v)
      ∙ keep_if-same (leb (min_uid_of (cursors f) v)) (is_new (cursors f) v) (present f)
          (is_new-min_uid_of (cursors f) v)

  -- Where a search from a number on finds the UIDs of a folder from that number on, in their
  -- order, and the session lists each folder once, the requests for a folder laid end to end are
  -- exactly those of its UIDs that are not zero and that the cursor has not passed, each as often
  -- as the search finds it and in its order: a cursor of the same generation of the folder has
  -- passed the UIDs up to its last one, and a cursor of another generation, or none, has passed
  -- nothing. There are no requests for a folder that is not listed or cannot be selected.
  pub requested_of-fetch_incremental :
      (limit : ℕ) (f : String)
      → IsDistinct session.list_folders
      → requested_of f (fetch_incremental session cursors limit) ≡ (
          if occurs f session.list_folders
          then new_in (cursors f) (present f) (session.select_folder f)
          else [])
  unfolding fetch_incremental
  requested_of-fetch_incremental limit f distinct =
      requested_of-fetch_distinct session cursors limit f session.list_folders distinct
      ∙ ap (λ l. if occurs f session.list_folders then l else [])
          (new_uids-new_in f (session.select_folder f))
