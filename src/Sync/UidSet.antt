-- ===== src/Sync/UidSet.antt =====
-- backend/app/connectors/imap/fetch_session.py: UIDs as the sequence sets of a UID FETCH. A text is
-- the list of its code points.
pub mod Decimal
pub mod Exact
pub mod Length
use one_ai.Prelude.{
  ℕ, zero, suc, ◌+◌, ◌/◌, ◌%◌, Bool, ◌&&◌, not, List, [], ◌∷◌, ◌++◌, length, is_empty, ltb, ◌==◌,
  if◌then◌else◌,
}

-- `str(n)`, on fuel: every round drops a digit
unfoldable pub digits : ℕ → ℕ → List ℕ
digits zero n = []
digits (suc fuel) n =
    let rest = digits fuel (n / 10) in
    if ltb n 10 then (b'0' + n) ∷ [] else rest ++ (b'0' + n % 10) ∷ []

unfoldable pub str : ℕ → List ℕ
unfolding digits
str n = digits (suc n) n

-- a run of consecutive UIDs
pub record Atom : Type 0 where
  pub start : ℕ
  pub previous : ℕ

-- `str(start) if start == previous else f"{start}:{previous}"`
unfoldable pub atom_text : Atom → List ℕ
unfolding str
atom_text a = if a.start == a.previous then str a.start else str a.start ++ b':' ∷ str a.previous

-- the loop of `_compress_uid_ranges`
unfoldable pub compress_from : ℕ → ℕ → List ℕ → List Atom
compress_from start previous [] = record { start = start; previous = previous } ∷ []
compress_from start previous (uid ∷ uids) =
    let longer = compress_from start uid uids in
    let closed = record { start = start; previous = previous } ∷ compress_from uid uid uids in
    if uid == previous + 1 then longer else closed

-- only called with a UID at least
unfoldable pub compress_uid_ranges : List ℕ → List Atom
unfolding compress_from
compress_uid_ranges [] = []
compress_uid_ranges (uid ∷ uids) = compress_from uid uid uids

-- `sorted(set(uids))`
unfoldable pub insert_once : ℕ → List ℕ → List ℕ
insert_once u [] = u ∷ []
insert_once u (x ∷ xs) =
    let later = x ∷ insert_once u xs in
    if u == x then x ∷ xs else if ltb u x then u ∷ x ∷ xs else later

unfoldable pub sorted_set : List ℕ → List ℕ
unfolding insert_once
sorted_set [] = []
sorted_set (u ∷ us) = insert_once u (sorted_set us)

-- the variables of the loop of `_chunk_uid_set`
pub record Chunking : Type 0 where
  pub chunks : List (List Atom)
  pub current : List Atom
  pub current_length : ℕ

unfoldable pub chunk_one : ℕ → Chunking → Atom → Chunking
chunk_one max_chars s atom =
    let size = length (atom_text atom) + 1 in
    if not (is_empty s.current) && ltb max_chars (s.current_length + size)
    then record { chunks = s.chunks ++ s.current ∷ []; current = atom ∷ []; current_length = size }
    else record s { current = s.current ++ atom ∷ []; current_length = s.current_length + size }

unfoldable pub chunk_all : ℕ → List Atom → Chunking → Chunking
unfolding chunk_one
chunk_all max_chars [] s = s
chunk_all max_chars (a ∷ as') s = chunk_all max_chars as' (chunk_one max_chars s a)

unfoldable pub close_chunking : Chunking → List (List Atom)
close_chunking s = if is_empty s.current then s.chunks else s.chunks ++ s.current ∷ []

-- the chunks as lists of atoms; each is sent as the atoms' texts with commas between
unfoldable pub chunk_uid_set : List ℕ → ℕ → List (List Atom)
unfolding sorted_set compress_uid_ranges chunk_all close_chunking
chunk_uid_set uids max_chars = close_chunking (
    chunk_all max_chars (compress_uid_ranges (sorted_set uids))
      (record { chunks = []; current = []; current_length = 0 }))

-- `",".join(current)`
unfoldable pub join : List Atom → List ℕ
join [] = []
join (a ∷ []) = atom_text a
join (a ∷ b ∷ as') = atom_text a ++ b',' ∷ join (b ∷ as')
