-- ===== src/Sync/Planner/Batches.antt =====
-- `batch_by_bytes`: the batches are the UIDs in their order, and each is small or a single message.
use one_ai.Prelude.{
  ℕ, ◌+◌, ◌≤◌, ◌≡◌, ◌⊎◌, refl, inl, inr, ap, sym, ◌∙◌, List, [], ◌∷◌, ◌++◌, Option, arith, ltb,
  append_assoc, append-nil, length, All, All-append, Bool-cases,
}
use one_ai.Sync.Planner.{Packing, size_of, pack_one, pack_all, close_packing, batch_by_bytes}

-- the total size of some messages
abbrev pub total_size : (ℕ → Option ℕ) → ℕ → List ℕ → ℕ
total_size sizes limit [] = 0
total_size sizes limit (uid ∷ uids) = size_of sizes limit uid + total_size sizes limit uids

total_size-snoc :
    (sizes : ℕ → Option ℕ) (limit : ℕ) (xs : List ℕ) (u : ℕ)
    → total_size sizes limit (xs ++ u ∷ []) ≡ total_size sizes limit xs + size_of sizes limit u
total_size-snoc sizes limit [] u = omega arith
total_size-snoc sizes limit (x ∷ xs) u = omega (arith, total_size-snoc sizes limit xs u)

-- A batch holds one message, or its messages fit in `limit` bytes.
abbrev pub IsBounded : (ℕ → Option ℕ) → ℕ → List ℕ → Type 0
IsBounded sizes limit batch =
    (1 ≤ length batch) × ((length batch ≡ 1) ⊎ (total_size sizes limit batch ≤ limit))

abbrev pub joined : List (List ℕ) → List ℕ
joined [] = []
joined (b ∷ bs) = b ++ joined bs

joined-snoc : (bs : List (List ℕ)) (b : List ℕ) → joined (bs ++ b ∷ []) ≡ joined bs ++ b
joined-snoc [] b = append-nil b
joined-snoc (x ∷ bs) b = simp (joined-snoc bs b, append_assoc)

-- what has been packed so far
abbrev packed : Packing → List ℕ
packed s = joined s.batches ++ s.current

module _ (sizes : ℕ → Option ℕ) (limit : ℕ) where
  packed-pack_one : (s : Packing) (u : ℕ) → packed (pack_one sizes limit s u) ≡ packed s ++ u ∷ []
  unfolding pack_one
  packed-pack_one s u = grind (arith, joined-snoc, append_assoc, append-nil)

  packed-pack_all :
      (uids : List ℕ) (s : Packing) → packed (pack_all sizes limit uids s) ≡ packed s ++ uids
  unfolding pack_all
  packed-pack_all [] s = sym (append-nil (packed s))
  packed-pack_all (u ∷ uids) s =
      packed-pack_all uids (pack_one sizes limit s u)
      ∙ ap (λ l. l ++ uids) (packed-pack_one s u)
      ∙ append_assoc (packed s) (u ∷ []) uids

  joined-close_packing : (s : Packing) → joined (close_packing s) ≡ packed s
  unfolding close_packing
  joined-close_packing s = grind (arith, joined-snoc, append-nil)

  -- every finished batch is bounded, and so is the current one, whose size is `running`
  record IsPacking (s : Packing) : Type 0 where
    finished : All (IsBounded sizes limit) s.batches
    measured : total_size sizes limit s.current ≡ s.running
    open_batch : (s.current ≡ []) ⊎ IsBounded sizes limit s.current

  IsPacking-pack_one :
      (batches : List (List ℕ)) (current : List ℕ) (running u : ℕ)
      → IsPacking (record { batches = batches; current = current; running = running })
      → IsPacking (
          pack_one sizes limit
            (record { batches = batches; current = current; running = running })
            u)
  unfolding pack_one
  IsPacking-pack_one batches [] running u h = record {
    finished = h.finished;
    measured = omega arith;
    open_batch = inr (omega arith, inl refl);
  }
  IsPacking-pack_one batches (x ∷ xs) running u h =
      elim (Bool-cases (ltb limit (running + size_of sizes limit u))) [
        | inl over ↦ rw over (record {
          finished = All-append _ batches ((x ∷ xs) ∷ []) h.finished (full h.open_batch, tt);
          measured = omega arith;
          open_batch = inr (omega arith, inl refl);
        })
        | inr fits ↦ rw fits (record {
          finished = h.finished;
          measured = omega (arith, h.measured, total_size-snoc sizes limit xs u);
          open_batch = inr (
            omega arith,
            inr (ground (arith, fits, h.measured, total_size-snoc sizes limit xs u)),
          );
        })
      ]
    where
      full : ((x ∷ xs) ≡ []) ⊎ IsBounded sizes limit (x ∷ xs) → IsBounded sizes limit (x ∷ xs)
      full (inl e) = cc
      full (inr b) = b

  IsPacking-pack_all :
      (uids : List ℕ) (s : Packing) → IsPacking s → IsPacking (pack_all sizes limit uids s)
  unfolding pack_all
  IsPacking-pack_all [] s h = h
  IsPacking-pack_all (u ∷ uids) s h =
      IsPacking-pack_all uids (pack_one sizes limit s u)
        (IsPacking-pack_one s.batches s.current s.running u h)

  close_packing-IsBounded :
      (batches : List (List ℕ)) (current : List ℕ) (running : ℕ)
      → IsPacking (record { batches = batches; current = current; running = running })
      → All
          (IsBounded sizes limit)
          (close_packing (record { batches = batches; current = current; running = running }))
  unfolding close_packing
  close_packing-IsBounded batches [] running h = h.finished
  close_packing-IsBounded batches (x ∷ xs) running h =
      All-append _ batches ((x ∷ xs) ∷ []) h.finished (last h.open_batch, tt)
    where
      last : ((x ∷ xs) ≡ []) ⊎ IsBounded sizes limit (x ∷ xs) → IsBounded sizes limit (x ∷ xs)
      last (inl e) = cc
      last (inr b) = b

  -- The batches laid end to end are the requested UIDs in their order, none lost and none twice,
  -- and every batch is one message or fits in the byte target.
  pub batch_by_bytes_exact :
      (uids : List ℕ)
      → (joined (batch_by_bytes uids sizes limit) ≡ uids)
        × All (IsBounded sizes limit) (batch_by_bytes uids sizes limit)
  unfolding batch_by_bytes
  batch_by_bytes_exact uids = (
    joined-close_packing (pack_all sizes limit uids empty) ∙ packed-pack_all uids empty,
    close_packing-IsBounded s.batches s.current s.running (
        IsPacking-pack_all uids empty
          (record { finished = tt; measured = refl; open_batch = inl refl })),
  )
    where
      empty : Packing
      empty = record { batches = []; current = []; running = 0 }

      s : Packing
      s = pack_all sizes limit uids empty
