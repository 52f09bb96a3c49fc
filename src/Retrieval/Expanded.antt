-- ===== src/Retrieval/Expanded.antt =====
-- Expansion only appends, and keeps to its two budgets.
use mini_nblm_proto.Prelude.{
  ℕ, ◌+◌, ◌≤◌, ◌≡◌, refl, ap, ◌∙◌, true, false, Option, none, some, List, [], ◌∷◌, ◌++◌, map, arith,
  length, drop, sum_by, contains, Distinct, ℕ-Eq, list-Eq, pair-Eq, option-Eq,
}
use mini_nblm_proto.Text.{Text}
use mini_nblm_proto.Retrieval.{ChunkRow, Row}
use mini_nblm_proto.Retrieval.Adjacent.{
  adjacent_at, requested_locations, add_adjacent, take_adjacent, expand_with_adjacent_chunks,
}

-- The rest of the loop.
abbrev Rest : Type 0 → Type 0
Rest S = List ℕ → ℕ → ℕ → List (Row ChunkRow S)

module _ {S : Type 0} where
  abbrev pub row_ids : List (Row ChunkRow S) → List ℕ
  row_ids rows = map (λ row. (row.0).id) rows

  abbrev pub content_chars : List (Row ChunkRow S) → ℕ
  content_chars rows = sum_by (λ row. length (row.0).content) rows

  abbrev IsBounded : ℕ → ℕ → List (Row ChunkRow S) → Type 0
  IsBounded count chars added = (count + length added ≤ 8) × (chars + content_chars added ≤ 8000)

  take_adjacent-IsBounded :
      (taken : List ℕ) (count chars : ℕ) (score : S) (next : Rest S)
      (adjacent : Option (ChunkRow × Text))
      → ((t : List ℕ) (n c : ℕ) → n ≤ 8 → c ≤ 8000 → IsBounded n c (next t n c))
      → count ≤ 8
      → chars ≤ 8000
      → IsBounded count chars (take_adjacent taken count chars score next adjacent)
  unfolding take_adjacent
  take_adjacent-IsBounded taken count chars score next none step h k = step taken count chars h k
  take_adjacent-IsBounded taken count chars score next (some (chunk, title)) step h k = ground (
    arith,
    step taken count chars h k,
    step (chunk.id ∷ taken) (count + 1) (chars + length chunk.content),
  )

  take_adjacent-unseen :
      (taken : List ℕ) (count chars : ℕ) (score : S) (next : Rest S)
      (adjacent : Option (ChunkRow × Text)) (k : ℕ)
      → ((t : List ℕ) (n c : ℕ) → contains t k ≡ true → contains (row_ids (next t n c)) k ≡ false)
      → contains taken k ≡ true
      → contains (row_ids (take_adjacent taken count chars score next adjacent)) k ≡ false
  unfolding take_adjacent
  take_adjacent-unseen taken count chars score next none k step h = step taken count chars h
  take_adjacent-unseen taken count chars score next (some (chunk, title)) k step h = ground (
    arith,
    step taken count chars h,
    step (chunk.id ∷ taken) (count + 1) (chars + length chunk.content),
    ℕ-Eq.eqb_iff chunk.id k,
  )

  take_adjacent-Distinct :
      (taken : List ℕ) (count chars : ℕ) (score : S) (next : Rest S)
      (adjacent : Option (ChunkRow × Text))
      → ((t : List ℕ) (n c : ℕ) → Distinct (row_ids (next t n c)))
      → ((t : List ℕ) (n c k : ℕ) → contains t k ≡ true → contains (row_ids (next t n c)) k ≡ false)
      → Distinct (row_ids (take_adjacent taken count chars score next adjacent))
  unfolding take_adjacent
  take_adjacent-Distinct taken count chars score next none step unseen = step taken count chars
  take_adjacent-Distinct taken count chars score next (some (chunk, title)) step unseen = ground (
    arith,
    step taken count chars,
    step (chunk.id ∷ taken) (count + 1) (chars + length chunk.content),
    unseen (chunk.id ∷ taken) (count + 1) (chars + length chunk.content) chunk.id,
    ℕ-Eq.eqb_iff chunk.id chunk.id,
  )

  module _ (found : List (ChunkRow × Text)) where
    add_adjacent-IsBounded :
        (requested : List ((ℕ × ℕ) × S)) (taken : List ℕ) (count chars : ℕ)
        → count ≤ 8
        → chars ≤ 8000
        → IsBounded count chars (add_adjacent found taken count chars requested)
    unfolding add_adjacent
    add_adjacent-IsBounded [] taken count chars h k = (omega arith, omega arith)
    add_adjacent-IsBounded ((location, score) ∷ requested) taken count chars h k =
        take_adjacent-IsBounded taken count chars score _ (adjacent_at found location)
          (add_adjacent-IsBounded requested) h k

    add_adjacent-unseen :
        (requested : List ((ℕ × ℕ) × S)) (k : ℕ) (taken : List ℕ) (count chars : ℕ)
        → contains taken k ≡ true
        → contains (row_ids (add_adjacent found taken count chars requested)) k ≡ false
    unfolding add_adjacent
    add_adjacent-unseen [] k taken count chars h = refl
    add_adjacent-unseen ((location, score) ∷ requested) k taken count chars h =
        take_adjacent-unseen taken count chars score _ (adjacent_at found location) k
          (add_adjacent-unseen requested k) h

    add_adjacent-Distinct :
        (requested : List ((ℕ × ℕ) × S)) (taken : List ℕ) (count chars : ℕ)
        → Distinct (row_ids (add_adjacent found taken count chars requested))
    unfolding add_adjacent
    add_adjacent-Distinct [] taken count chars = tt
    add_adjacent-Distinct ((location, score) ∷ requested) taken count chars =
        take_adjacent-Distinct taken count chars score _ (adjacent_at found location)
          (add_adjacent-Distinct requested) (λ t n c k. add_adjacent-unseen requested k t n c)

  -- What expansion appends: at most 8 chunks of at most 8,000 characters together, no chunk twice.
  pub record IsExpansion (added : List (Row ChunkRow S)) : Type 0 where
    pub count : length added ≤ 8
    pub chars : content_chars added ≤ 8000
    pub once : Distinct (row_ids added)

  -- Expansion keeps all ranked rows in front, in their order, and appends at most 8 chunks of at most
  -- 8,000 characters together, no chunk twice, whatever the database answers.
  pub expand-IsExpansion :
      (chunks_at : List (ℕ × ℕ) → List (ChunkRow × Text)) (rows : List (Row ChunkRow S))
      → (added : List (Row ChunkRow S)) × (expand_with_adjacent_chunks chunks_at rows
          ≡ rows ++ added)
        × IsExpansion added
  unfolding expand_with_adjacent_chunks
  expand-IsExpansion chunks_at [] =
      ([], refl, record { count = omega arith; chars = omega arith; once = tt })
  expand-IsExpansion chunks_at (row ∷ rows) =
      let requested = requested_locations (row ∷ rows) in
      let found = chunks_at (map (λ r. r.0) requested) in
      let taken = row_ids (row ∷ rows) in
      let bounds = add_adjacent-IsBounded found requested taken 0 0 (omega arith) (omega arith) in
      (
        add_adjacent found taken 0 0 requested,
        refl,
        record {
          count = omega (arith, bounds.0);
          chars = omega (arith, bounds.1);
          once = add_adjacent-Distinct found requested taken 0 0;
        },
      )

  drop-length : (xs ys : List (Row ChunkRow S)) → drop (length xs) (xs ++ ys) ≡ ys
  drop-length [] ys = refl
  drop-length (x ∷ xs) ys = drop-length xs ys

  -- A chunk that is ranked already is not appended again.
  pub expand-unseen :
      (chunks_at : List (ℕ × ℕ) → List (ChunkRow × Text)) (rows : List (Row ChunkRow S)) (k : ℕ)
      → contains (row_ids rows) k ≡ true
      → contains (row_ids (drop (length rows) (expand_with_adjacent_chunks chunks_at rows))) k
        ≡ false
  unfolding expand_with_adjacent_chunks
  expand-unseen chunks_at [] k h = cc
  expand-unseen chunks_at (row ∷ rows) k h =
      let requested = requested_locations (row ∷ rows) in
      let found = chunks_at (map (λ r. r.0) requested) in
      let taken = row_ids (row ∷ rows) in
      ap (λ added. contains (row_ids added) k)
        (drop-length rows (add_adjacent found taken 0 0 requested))
      ∙ add_adjacent-unseen found requested k taken 0 0 h
