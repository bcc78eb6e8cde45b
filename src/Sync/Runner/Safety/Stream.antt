-- ===== src/Sync/Runner/Safety/Stream.antt =====
-- The fetcher's stream against the server: its batches are genuine, and they ask for what the
-- cursors leave open.
use one_ai.Prelude.{
  ℕ, ◌<◌, String, ◌≡◌, refl, sym, subst, ap, ◌∙◌, Bool, true, false, ◌||◌, inl, inr, Option, none,
  some, List, [], ◌∷◌, ◌++◌, map, arith, leb, str_eq, str_eq_iff, keep_if, is_empty, IsAscending,
  Bool-cases, All, All-append, if◌then◌else◌,
}
use one_ai.Sync.Fetch.{FetchedMessage, FetchBatch}
use one_ai.Sync.Planner.{batch_by_bytes}
use one_ai.Sync.Fetcher.{
  ImapFetchSession, FetchCursors, min_uid, batch_of, fetch_selected, fetch_folders,
}
use one_ai.Sync.Fetcher.Coverage.{requested_of, occurs, IsDistinct, requested_of-fetch_distinct}

-- What IMAP promises of a session: a folder has one generation, which is not zero, while it is
-- selected, a search finds the folder's UIDs from a number on, and a fetch returns messages under
-- their own UIDs, though perhaps not all that were asked for.
pub record IsFaithful (session : ImapFetchSession) (server : String → ℕ → List ℕ)
    (message : String → ℕ → ℕ → FetchedMessage) (generation : String → ℕ) : Type 0 where
  pub selected :
      (f : String) (v : ℕ) → session.select_folder f ≡ some v → (v ≡ generation f) × (0 < v)
  pub searched :
      (f : String) (n : ℕ) → session.search_uids f n ≡ keep_if (leb n) (server f (generation f))
  pub ascending : (f : String) → IsAscending 0 (server f (generation f))
  pub fetched :
      (f : String) (uids : List ℕ)
      → All (λ m. m ≡ message f (generation f) m.uid) (session.fetch_messages f uids)

abbrev pub IsGenuineBatch : (String → ℕ → ℕ → FetchedMessage) → (String → ℕ) → FetchBatch → Type 0
IsGenuineBatch message generation b =
    (b.uidvalidity ≡ generation b.folder)
    × All (λ m. m ≡ message b.folder (generation b.folder) m.uid) b.messages

-- a batch of the folder is among them
abbrev pub asks_of : String → List FetchBatch → Bool
asks_of f [] = false
asks_of f (b ∷ bs) = str_eq f b.folder || asks_of f bs

asks_of-append :
    (f : String) (bs cs : List FetchBatch) → asks_of f (bs ++ cs) ≡ asks_of f bs || asks_of f cs
asks_of-append f [] cs = refl
asks_of-append f (b ∷ bs) cs = ground (arith, asks_of-append f bs cs)

module _ (session : ImapFetchSession) (server : String → ℕ → List ℕ)
    (message : String → ℕ → ℕ → FetchedMessage) (generation : String → ℕ)
    (faithful : IsFaithful session server message generation) (cursors : FetchCursors) where
  abbrev Genuine : FetchBatch → Type 0
  Genuine = IsGenuineBatch message generation

  batches-Genuine :
      (f : String) (v : ℕ) (bs : List (List ℕ))
      → v ≡ generation f
      → All Genuine (map (batch_of session cursors f v) bs)
  batches-Genuine f v [] same = tt
  batches-Genuine f v (b ∷ bs) same = ((same, faithful.fetched f b), batches-Genuine f v bs same)

  fetch_selected-Genuine :
      (limit : ℕ) (f : String) (r : Option ℕ)
      → session.select_folder f ≡ r
      → All Genuine (fetch_selected session cursors limit f r)
  fetch_selected-Genuine limit f none e = tt
  fetch_selected-Genuine limit f (some v) e =
      go (is_empty (session.search_uids f (min_uid cursors f v)))
    where
      bs : List FetchBatch
      bs = map (batch_of session cursors f v) (
          batch_by_bytes (session.search_uids f (min_uid cursors f v))
            (session.fetch_sizes f (session.search_uids f (min_uid cursors f v))) limit)

      go : (b : Bool) → All Genuine (if b then [] else bs)
      go true = tt
      go false = batches-Genuine f v _ (faithful.selected f v e).0

  pub fetch_folders-Genuine :
      (limit : ℕ) (folders : List String)
      → All Genuine (fetch_folders session cursors limit folders)
  unfolding fetch_folders
  fetch_folders-Genuine limit [] = tt
  fetch_folders-Genuine limit (f ∷ fs) =
      All-append Genuine (fetch_selected session cursors limit f (session.select_folder f)) _
        (fetch_selected-Genuine limit f (session.select_folder f) refl)
        (fetch_folders-Genuine limit fs)

  -- A batch of a folder comes only from a folder that is listed and was selected.
  abbrev IsOpen : String → Type 0
  IsOpen f = (v : ℕ) × (session.select_folder f ≡ some v)

  asks_of-batches :
      (f g : String) (v : ℕ) (bs : List (List ℕ))
      → asks_of f (map (batch_of session cursors g v) bs) ≡ true
      → str_eq f g ≡ true
  asks_of-batches f g v [] h = absurd (ground (arith, h))
  asks_of-batches f g v (b ∷ bs) h = ground (arith, h, asks_of-batches f g v bs)

  asks_of-fetch_selected :
      (limit : ℕ) (f g : String) (r : Option ℕ)
      → asks_of f (fetch_selected session cursors limit g r) ≡ true
      → (str_eq f g ≡ true) × ((v : ℕ) × (r ≡ some v))
  asks_of-fetch_selected limit f g none h = absurd (ground (arith, h))
  asks_of-fetch_selected limit f g (some v) h =
      (go (is_empty (session.search_uids g (min_uid cursors g v))) h, (v, refl))
    where
      bs : List (List ℕ)
      bs =
          batch_by_bytes (session.search_uids g (min_uid cursors g v))
            (session.fetch_sizes g (session.search_uids g (min_uid cursors g v))) limit

      go :
          (b : Bool)
          → asks_of f (if b then [] else map (batch_of session cursors g v) bs) ≡ true
          → str_eq f g ≡ true
      go true e = absurd (ground (arith, e))
      go false e = asks_of-batches f g v bs e

  asks_of-fetch_folders :
      (limit : ℕ) (f : String) (folders : List String)
      → asks_of f (fetch_folders session cursors limit folders) ≡ true
      → (occurs f folders ≡ true) × IsOpen f
  unfolding fetch_folders
  asks_of-fetch_folders limit f [] h = absurd (ground (arith, h))
  asks_of-fetch_folders limit f (g ∷ gs) h =
      elim (Bool-cases
        (asks_of f (fetch_selected session cursors limit g (session.select_folder g)))) [
          | inl here ↦
              (let (same, selected) =
                  asks_of-fetch_selected limit f g (session.select_folder g) here in
                (ground (arith, same), subst IsOpen (sym ((str_eq_iff f g).0 same)) selected))
          | inr not_here ↦
              (let later : asks_of f (fetch_folders session cursors limit gs) ≡ true = ground (
                arith,
                h,
                not_here,
                asks_of-append f (fetch_selected session cursors limit g (session.select_folder g))
                    (fetch_folders session cursors limit gs),
              ) in
                let (occurs_later, is_open) = asks_of-fetch_folders limit f gs later in
                (ground (arith, occurs_later), is_open))
        ]

  -- What is asked of a folder is all of its UIDs from the first that the cursor leaves open.
  pub requested_of-new :
      (limit : ℕ) (f : String) (folders : List String)
      → IsDistinct folders
      → asks_of f (fetch_folders session cursors limit folders) ≡ true
      → (0 < generation f)
        × (requested_of f (fetch_folders session cursors limit folders)
            ≡ keep_if (leb (min_uid cursors f (generation f))) (server f (generation f)))
  requested_of-new limit f folders distinct asked =
      let (listed, (v, opened)) = asks_of-fetch_folders limit f folders asked in
      let (own, positive) = faithful.selected f v opened in
      (
        subst (λ k. 0 < k) own positive,
        requested_of-fetch_distinct session cursors limit f folders distinct
            ∙ rw (listed, opened)
                (faithful.searched f (min_uid cursors f v)
                  ∙ ap (λ k. keep_if (leb (min_uid cursors f k)) (server f (generation f))) own),
      )
