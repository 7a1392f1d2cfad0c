-- ===== src/StdMap/Laws.antt =====
-- The laws of `find` after each operation on a map.
use mksync.Prelude.{
  ◌≡◌, refl, inl, inr, Bool, true, false, [], ◌∷◌, none, some, arith, if◌then◌else◌, Bool-cases,
  Option-cases, Key,
}
use mksync.StdMap.{
  StdMap, find, contains, insert_sorted, erase, replace, assign, filter_keys, IsUnique,
}

module _ {ℓ} {K : Type ℓ} ⦃o : Key K⦄ where
  pub beq_refl : (k : K) → o.beq k k ≡ true
  beq_refl k = (o.beq_iff k k).1 refl

  pub beq_false : (j k : K) → (j ≡ k → ⊥) → o.beq j k ≡ false
  beq_false j k h = elim (Bool-cases (o.beq j k)) [
    | inl e ↦ absurd (h ((o.beq_iff j k).0 e))
    | inr e ↦ e
  ]

module _ {ℓ κ} {K : Type ℓ} {V : Type κ} ⦃o : Key K⦄ where
  pub find-insert_sorted :
      (k j : K) (v : V) (m : StdMap K V)
      → find k m ≡ none
      → find j (insert_sorted k v m) ≡ (if o.beq k j then some v else find j m)
  unfolding find insert_sorted
  find-insert_sorted k j v [] h = refl
  find-insert_sorted k j v ((i, w) ∷ m) h =
      ground (arith, o.beq_iff k j, o.beq_iff i k, o.beq_iff i j, find-insert_sorted k j v m)

  pub find-erase :
      (k j : K) (m : StdMap K V) → find j (erase k m) ≡ (if o.beq k j then none else find j m)
  unfolding find erase
  find-erase k j [] = ground arith
  find-erase k j ((i, w) ∷ m) =
      ground (arith, o.beq_iff k j, o.beq_iff i k, o.beq_iff i j, find-erase k j m)

  find-replace :
      (k j : K) (v : V) (m : StdMap K V)
      → contains k m ≡ true
      → find j (replace k v m) ≡ (if o.beq k j then some v else find j m)
  unfolding find replace
  find-replace k j v [] h = cc
  find-replace k j v ((i, w) ∷ m) h =
      ground (arith, o.beq_iff k j, o.beq_iff i k, o.beq_iff i j, find-replace k j v m)

  pub find-assign :
      (k j : K) (v : V) (m : StdMap K V)
      → find j (assign k v m) ≡ (if o.beq k j then some v else find j m)
  unfolding assign
  find-assign k j v m = elim (Option-cases (find k m)) [
    | inl e ↦ rw e (find-insert_sorted k j v m e)
    | inr (w, e) ↦ rw e (find-replace k j v m (rw e))
  ]

  pub find-filter_keys :
      (p : K → Bool) (j : K) (m : StdMap K V)
      → find j (filter_keys p m) ≡ (if p j then find j m else none)
  unfolding find filter_keys
  find-filter_keys p j [] = ground arith
  find-filter_keys p j ((i, w) ∷ m) = ground (arith, o.beq_iff i j, find-filter_keys p j m)

  pub insert_sorted-IsUnique :
      (k : K) (v : V) (m : StdMap K V)
      → find k m ≡ none
      → IsUnique m
      → IsUnique (insert_sorted k v m)
  unfolding find insert_sorted
  insert_sorted-IsUnique k v [] h u = (refl, tt)
  insert_sorted-IsUnique k v ((i, w) ∷ m) h u = ground (
    arith,
    o.beq_iff i k,
    o.beq_iff k i,
    find-insert_sorted k i v m,
    insert_sorted-IsUnique k v m,
  )

  pub erase-IsUnique : (k : K) (m : StdMap K V) → IsUnique m → IsUnique (erase k m)
  unfolding erase
  erase-IsUnique k [] u = tt
  erase-IsUnique k ((i, w) ∷ m) u = ground (arith, find-erase k i m, erase-IsUnique k m)

  pub filter_keys-IsUnique :
      (p : K → Bool) (m : StdMap K V) → IsUnique m → IsUnique (filter_keys p m)
  unfolding filter_keys
  filter_keys-IsUnique p [] u = tt
  filter_keys-IsUnique p ((i, w) ∷ m) u =
      ground (arith, find-filter_keys p i m, filter_keys-IsUnique p m)
