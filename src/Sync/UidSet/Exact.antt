-- ===== src/Sync/UidSet/Exact.antt =====
-- The chunks name exactly the UIDs that were asked for.
use one_ai.Prelude.{
  ℕ, zero, suc, ◌+◌, ◌-◌, ◌≤◌, ◌<◌, ◌≡◌, refl, sym, subst, ap, ◌∙◌, ◌||◌, inl, inr, List, [], ◌∷◌,
  ◌++◌, append_assoc, append-nil, arith, ◌==◌, ==_iff, contains, IsAscending, Bool-cases,
}
use one_ai.Sync.UidSet.{
  Atom, Chunking, compress_from, compress_uid_ranges, insert_once, sorted_set, chunk_one, chunk_all,
  close_chunking, chunk_uid_set,
}

-- the UIDs `start`, `start + 1`, … of so many
abbrev count_up : ℕ → ℕ → List ℕ
count_up zero start = []
count_up (suc n) start = start ∷ count_up n (start + 1)

-- what an atom names
abbrev pub named_by : Atom → List ℕ
named_by a = count_up (a.previous + 1 - a.start) a.start

abbrev pub named_by_all : List Atom → List ℕ
named_by_all [] = []
named_by_all (a ∷ as') = named_by a ++ named_by_all as'

-- what the server is asked for, chunk after chunk
abbrev pub asked : List (List Atom) → List ℕ
asked [] = []
asked (c ∷ cs) = named_by_all c ++ asked cs

named_by_all-append :
    (as' bs : List Atom) → named_by_all (as' ++ bs) ≡ named_by_all as' ++ named_by_all bs
named_by_all-append [] bs = refl
named_by_all-append (a ∷ as') bs =
    ap (λ l. named_by a ++ l) (named_by_all-append as' bs)
    ∙ sym (append_assoc (named_by a) (named_by_all as') (named_by_all bs))

count_up-snoc : (n start : ℕ) → count_up (suc n) start ≡ count_up n start ++ (start + n) ∷ []
count_up-snoc zero start = ap (λ k. k ∷ []) (omega arith)
count_up-snoc (suc n) start =
    ap (λ l. start ∷ l)
      (count_up-snoc n (start + 1) ∙ ap (λ k. count_up n (start + 1) ++ k ∷ []) (omega arith))

asked-snoc :
    (cs : List (List Atom)) (c : List Atom) → asked (cs ++ c ∷ []) ≡ asked cs ++ named_by_all c
asked-snoc [] c = append-nil _
asked-snoc (x ∷ cs) c =
    ap (λ l. named_by_all x ++ l) (asked-snoc cs c)
    ∙ sym (append_assoc (named_by_all x) (asked cs) (named_by_all c))

compress_from-names :
    (start previous : ℕ) (uids : List ℕ)
    → start ≤ previous
    → named_by_all (compress_from start previous uids)
      ≡ count_up (previous + 1 - start) start ++ uids
unfolding compress_from
compress_from-names start previous [] le = refl
compress_from-names start previous (u ∷ us) le = elim (Bool-cases (u == previous + 1)) [
  | inl next ↦
      (let e : u ≡ previous + 1 = (==_iff u (previous + 1)).0 next in
        let one_more : u + 1 - start ≡ suc (previous + 1 - start) = omega (arith, e) in
        let last : start + (previous + 1 - start) ≡ u = omega (arith, e) in
        rw next (
          compress_from-names start u us (omega (arith, e))
          ∙ ap (λ n. count_up n start ++ us) one_more
          ∙ ap (λ l. l ++ us)
              (count_up-snoc (previous + 1 - start) start
                ∙ ap (λ k. count_up (previous + 1 - start) start ++ k ∷ []) last)
          ∙ append_assoc (count_up (previous + 1 - start) start) (u ∷ []) us))
  | inr gap ↦
      (let one : u + 1 - u ≡ 1 = omega arith in
        rw gap (
          ap (λ l. count_up (previous + 1 - start) start ++ l)
            (compress_from-names u u us (omega arith) ∙ ap (λ n. count_up n u ++ us) one)))
]

compress_uid_ranges-names : (uids : List ℕ) → named_by_all (compress_uid_ranges uids) ≡ uids
unfolding compress_uid_ranges
compress_uid_ranges-names [] = refl
compress_uid_ranges-names (u ∷ us) =
    compress_from-names u u us (omega arith)
    ∙ ap (λ n. count_up n u ++ us) (let one : u + 1 - u ≡ 1 = omega arith in one)

abbrev named : Chunking → List ℕ
named s = asked s.chunks ++ named_by_all s.current

named-chunk_one :
    (max_chars : ℕ) (s : Chunking) (a : Atom)
    → named (chunk_one max_chars s a) ≡ named s ++ named_by a
unfolding chunk_one
named-chunk_one max_chars s a =
    grind (arith, asked-snoc, named_by_all-append, append_assoc, append-nil)

named-chunk_all :
    (max_chars : ℕ) (as' : List Atom) (s : Chunking)
    → named (chunk_all max_chars as' s) ≡ named s ++ named_by_all as'
unfolding chunk_all
named-chunk_all max_chars [] s = sym (append-nil (named s))
named-chunk_all max_chars (a ∷ as') s =
    named-chunk_all max_chars as' (chunk_one max_chars s a)
    ∙ ap (λ l. l ++ named_by_all as') (named-chunk_one max_chars s a)
    ∙ append_assoc (named s) (named_by a) (named_by_all as')

named-close_chunking : (s : Chunking) → asked (close_chunking s) ≡ named s
unfolding close_chunking
named-close_chunking s = grind (arith, asked-snoc, append-nil)

pub asked-chunk_uid_set :
    (uids : List ℕ) (max_chars : ℕ) → asked (chunk_uid_set uids max_chars) ≡ sorted_set uids
unfolding chunk_uid_set
asked-chunk_uid_set uids max_chars =
    let none_yet : Chunking = record { chunks = []; current = []; current_length = 0 } in
    named-close_chunking (chunk_all max_chars (compress_uid_ranges (sorted_set uids)) none_yet)
    ∙ named-chunk_all max_chars (compress_uid_ranges (sorted_set uids)) none_yet
    ∙ compress_uid_ranges-names (sorted_set uids)

contains-insert_once :
    (u v : ℕ) (xs : List ℕ) → contains u (insert_once v xs) ≡ (u == v || contains u xs)
unfolding insert_once
contains-insert_once u v [] = refl
contains-insert_once u v (x ∷ xs) = ground (arith, contains-insert_once u v xs)

contains-sorted_set : (u : ℕ) (us : List ℕ) → contains u (sorted_set us) ≡ contains u us
unfolding sorted_set
contains-sorted_set u [] = refl
contains-sorted_set u (x ∷ us) =
    contains-insert_once u x (sorted_set us) ∙ ap (λ b. u == x || b) (contains-sorted_set u us)

-- strictly ascending, so that nothing stands twice
abbrev pub IsStrict : List ℕ → Type 0
IsStrict [] = Unit
IsStrict (x ∷ xs) = IsAscending x xs

insert_once-IsAscending :
    (lo u : ℕ) (xs : List ℕ) → lo < u → IsAscending lo xs → IsAscending lo (insert_once u xs)
unfolding insert_once
insert_once-IsAscending lo u [] above h = (above, tt)
insert_once-IsAscending lo u (x ∷ xs) above h = ground (arith, insert_once-IsAscending x u xs)

insert_once-IsStrict : (u : ℕ) (xs : List ℕ) → IsStrict xs → IsStrict (insert_once u xs)
unfolding insert_once
insert_once-IsStrict u [] h = tt
insert_once-IsStrict u (x ∷ xs) h = ground (arith, insert_once-IsAscending x u xs)

sorted_set-IsStrict : (us : List ℕ) → IsStrict (sorted_set us)
unfolding sorted_set
sorted_set-IsStrict [] = tt
sorted_set-IsStrict (u ∷ us) = insert_once-IsStrict u (sorted_set us) (sorted_set-IsStrict us)

-- The chunks of ranges, read back as the UIDs that they name, ask for exactly the given UIDs, each
-- of them once and in ascending order.
pub chunk_uid_set_exact :
    (uids : List ℕ) (max_chars u : ℕ)
    → (contains u (asked (chunk_uid_set uids max_chars)) ≡ contains u uids)
      × IsStrict (asked (chunk_uid_set uids max_chars))
chunk_uid_set_exact uids max_chars u =
    let e = asked-chunk_uid_set uids max_chars in
    (
      ap (contains u) e ∙ contains-sorted_set u uids,
      subst IsStrict (sym e) (sorted_set-IsStrict uids),
    )
