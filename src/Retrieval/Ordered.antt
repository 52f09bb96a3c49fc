-- ===== src/Retrieval/Ordered.antt =====
-- The sorting of rank fusion: it keeps what all rows have, and leaves neighbours in order.
use mini_nblm_proto.Prelude.{
  ◌≡◌, inl, inr, Bool, true, false, List, [], ◌∷◌, arith, Bool-cases, All, Eq, ℕ-Eq, list-Eq,
  pair-Eq, option-Eq,
}
use mini_nblm_proto.Retrieval.{Scores, Row}
use mini_nblm_proto.Retrieval.Fusion.{insert_ranked, ranks_before, sort_ranked}

module _ {K C S : Type 0} ⦃e : Eq K⦄ (key : C → K) (key_ltb : K → K → Bool)
    (scores : Scores S) where
  module _ (P : Row C S → Type 0) where
    All-insert_ranked :
        (row : Row C S) (rows : List (Row C S))
        → P row
        → All P rows
        → All P (insert_ranked key key_ltb scores row rows)
    unfolding insert_ranked
    All-insert_ranked row [] r h = (r, tt)
    All-insert_ranked row (r' ∷ rows) r h =
        elim (Bool-cases (ranks_before key key_ltb scores row r')) [
          | inl q ↦ rw q (r, h)
          | inr q ↦ rw q (h.0, All-insert_ranked row rows r h.1)
        ]

    pub All-sort_ranked :
        (rows : List (Row C S)) → All P rows → All P (sort_ranked key key_ltb scores rows)
    unfolding sort_ranked
    All-sort_ranked [] h = tt
    All-sort_ranked (row ∷ rows) h = All-insert_ranked row _ h.0 (All-sort_ranked rows h.1)

  -- A row comes before the one after it, unless the order says the contrary.
  abbrev pub Leads : Row C S → List (Row C S) → Type 0
  Leads row [] = Unit
  Leads row (r ∷ rows) = ranks_before key key_ltb scores r row ≡ false

  abbrev pub IsOrdered : List (Row C S) → Type 0
  IsOrdered [] = Unit
  IsOrdered (row ∷ rows) = Leads row rows × IsOrdered rows

  module _ (gt_asym : (a b : S) → scores.gt a b ≡ true → scores.gt b a ≡ false)
      (ltb_asym : (a b : K) → key_ltb a b ≡ true → key_ltb b a ≡ false) where
    before_asym :
        (r r' : Row C S)
        → ranks_before key key_ltb scores r r' ≡ true
        → ranks_before key key_ltb scores r' r ≡ false
    before_asym (c, s, t) (d, s', t') h =
        ground (arith, h, gt_asym s s', gt_asym s' s, ltb_asym (key c) (key d))

    Leads-insert_ranked :
        (first row : Row C S) (rows : List (Row C S))
        → Leads first rows
        → ranks_before key key_ltb scores row first ≡ false
        → Leads first (insert_ranked key key_ltb scores row rows)
    unfolding insert_ranked
    Leads-insert_ranked first row [] l h = h
    Leads-insert_ranked first row (r ∷ rows) l h =
        elim (Bool-cases (ranks_before key key_ltb scores row r)) [
          | inl q ↦ rw q h
          | inr q ↦ rw q l
        ]

    IsOrdered-insert_ranked :
        (row : Row C S) (rows : List (Row C S))
        → IsOrdered rows
        → IsOrdered (insert_ranked key key_ltb scores row rows)
    unfolding insert_ranked
    IsOrdered-insert_ranked row [] o = (tt, tt)
    IsOrdered-insert_ranked row (r ∷ rows) o =
        elim (Bool-cases (ranks_before key key_ltb scores row r)) [
          | inl q ↦ rw q (before_asym row r q, o)
          | inr q ↦
              rw q (Leads-insert_ranked r row rows o.0 q, IsOrdered-insert_ranked row rows o.1)
        ]

    pub IsOrdered-sort_ranked :
        (rows : List (Row C S)) → IsOrdered (sort_ranked key key_ltb scores rows)
    unfolding sort_ranked
    IsOrdered-sort_ranked [] = tt
    IsOrdered-sort_ranked (row ∷ rows) = IsOrdered-insert_ranked row _ (IsOrdered-sort_ranked rows)
