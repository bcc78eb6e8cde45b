-- ===== src/Sync/UidSet/Length.antt =====
-- No command line grows past the limit, unless one atom alone does.
use one_ai.Prelude.{
  ℕ, ◌+◌, ◌≤◌, ◌<◌, ◌≡◌, ◌⊎◌, refl, inl, inr, List, [], ◌∷◌, ◌++◌, arith, length, ltb, All,
  All-append, Bool-cases,
}
use one_ai.Sync.UidSet.{
  Atom, Chunking, atom_text, compress_uid_ranges, sorted_set, chunk_one, chunk_all, close_chunking,
  chunk_uid_set, join,
}

length-append {ℓ} : {A : Type ℓ} (xs ys : List A) → length (xs ++ ys) ≡ length xs + length ys
length-append [] ys = omega arith
length-append (x ∷ xs) ys = omega (arith, length-append xs ys)

-- what the loop counts: every atom with a comma
abbrev counted : List Atom → ℕ
counted [] = 0
counted (a ∷ as') = length (atom_text a) + 1 + counted as'

counted-snoc :
    (as' : List Atom) (a : Atom)
    → counted (as' ++ a ∷ []) ≡ counted as' + (length (atom_text a) + 1)
counted-snoc [] a = omega arith
counted-snoc (x ∷ as') a = omega (arith, counted-snoc as' a)

length-join : (a : Atom) (as' : List Atom) → length (join (a ∷ as')) + 1 ≡ counted (a ∷ as')
unfolding join
length-join a [] = omega arith
length-join a (b ∷ as') =
    omega (arith, length-join b as', length-append (atom_text a) (b',' ∷ join (b ∷ as')))

-- a chunk is one atom, or its line is shorter than the limit
abbrev pub IsShort : ℕ → List Atom → Type 0
IsShort max_chars c = (length c ≡ 1) ⊎ (length (join c) < max_chars)

record IsChunking (max_chars : ℕ) (s : Chunking) : Type 0 where
  closed : All (IsShort max_chars) s.chunks
  measured : s.current_length ≡ counted s.current
  open_chunk : (s.current ≡ []) ⊎ ((length s.current ≡ 1) ⊎ (counted s.current ≤ max_chars))

IsShort-of :
    (max_chars : ℕ) (a : Atom) (as' : List Atom)
    → ((a ∷ as') ≡ []) ⊎ ((length (a ∷ as') ≡ 1) ⊎ (counted (a ∷ as') ≤ max_chars))
    → IsShort max_chars (a ∷ as')
IsShort-of max_chars a as' (inl bad) = cc
IsShort-of max_chars a as' (inr (inl one)) = inl one
IsShort-of max_chars a as' (inr (inr fits)) = inr (omega (arith, fits, length-join a as'))

module _ (max_chars : ℕ) where
  IsChunking-chunk_one :
      (chunks : List (List Atom)) (current : List Atom) (current_length : ℕ) (a : Atom)
      → IsChunking max_chars
          (record { chunks = chunks; current = current; current_length = current_length })
      → IsChunking max_chars (
          chunk_one max_chars
            (record { chunks = chunks; current = current; current_length = current_length })
            a)
  unfolding chunk_one
  IsChunking-chunk_one chunks [] current_length a h = record {
    closed = h.closed;
    measured = omega (arith, h.measured);
    open_chunk = inr (inl refl);
  }
  IsChunking-chunk_one chunks (x ∷ xs) current_length a h =
      elim (Bool-cases (ltb max_chars (current_length + (length (atom_text a) + 1)))) [
        | inl over ↦ rw over (record {
          closed =
              All-append (IsShort max_chars) chunks ((x ∷ xs) ∷ []) h.closed
                (IsShort-of max_chars x xs h.open_chunk, tt);
          measured = omega arith;
          open_chunk = inr (inl refl);
        })
        | inr fits ↦ rw fits (record {
          closed = h.closed;
          measured = omega (arith, h.measured, counted-snoc xs a);
          open_chunk = inr (inr (ground (arith, fits, h.measured, counted-snoc xs a)));
        })
      ]

  IsChunking-chunk_all :
      (as' : List Atom) (s : Chunking)
      → IsChunking max_chars s
      → IsChunking max_chars (chunk_all max_chars as' s)
  unfolding chunk_all
  IsChunking-chunk_all [] s h = h
  IsChunking-chunk_all (a ∷ as') s h =
      IsChunking-chunk_all as' (chunk_one max_chars s a)
        (IsChunking-chunk_one s.chunks s.current s.current_length a h)

  close_chunking-IsShort :
      (chunks : List (List Atom)) (current : List Atom) (current_length : ℕ)
      → IsChunking max_chars
          (record { chunks = chunks; current = current; current_length = current_length })
      → All (IsShort max_chars) (
          close_chunking
            (record { chunks = chunks; current = current; current_length = current_length }))
  unfolding close_chunking
  close_chunking-IsShort chunks [] current_length h = h.closed
  close_chunking-IsShort chunks (x ∷ xs) current_length h =
      All-append (IsShort max_chars) chunks ((x ∷ xs) ∷ []) h.closed
        (IsShort-of max_chars x xs h.open_chunk, tt)

-- Every chunk is a single range or its text, commas included, is shorter than the given limit.
pub chunk_uid_set-IsShort :
    (uids : List ℕ) (max_chars : ℕ) → All (IsShort max_chars) (chunk_uid_set uids max_chars)
unfolding chunk_uid_set
chunk_uid_set-IsShort uids max_chars =
    close_chunking-IsShort max_chars last.chunks last.current last.current_length (
      IsChunking-chunk_all max_chars (compress_uid_ranges (sorted_set uids)) none_yet
        (record { closed = tt; measured = refl; open_chunk = inl refl }))
  where
    none_yet : Chunking
    none_yet = record { chunks = []; current = []; current_length = 0 }

    last : Chunking
    last = chunk_all max_chars (compress_uid_ranges (sorted_set uids)) none_yet
