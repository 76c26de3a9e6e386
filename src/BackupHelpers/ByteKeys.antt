-- ===== src/BackupHelpers/ByteKeys.antt =====
-- Test data for libs/androidfw/BackupHelpers.cpp: keys in the order of their bytes, and vectors that
-- are kept in that order.
use f2ut_platform_frameworks.Prelude.{
  Bool, List, Option, [], arith, false, inl, inr, none, refl, some, subst, sym, true, ◌∷◌, ◌≡◌,
}
use Prim.Native.Nat.{Ordering, compare, eq, gt, lt}
use f2ut_platform_frameworks.BackupHelpers.Keys.{
  AllAbove, Containers, IsSorted, Key, KeyOrder, lookup,
}
use f2ut_platform_frameworks.BackupHelpers.Changes.{Ordering-cases}
use f2ut_platform_frameworks.BackupHelpers.Ascending.{AllAbove-trans}

-- strcmp
abbrev pub compare_bytes : Key → Key → Ordering
compare_bytes [] [] = eq
compare_bytes [] (b ∷ bs) = lt
compare_bytes (a ∷ as_) [] = gt
compare_bytes (a ∷ as_) (b ∷ bs) = elim (compare a b) [
  | lt ↦ lt
  | gt ↦ gt
  | eq ↦ compare_bytes as_ bs
]

pub compare_bytes_refl : (a : Key) → compare_bytes a a ≡ eq
compare_bytes_refl [] = refl
compare_bytes_refl (a ∷ as_) = ground (arith, compare_bytes_refl as_)

pub compare_bytes-eq : (a b : Key) → compare_bytes a b ≡ eq → a ≡ b
compare_bytes-eq [] [] e = refl
compare_bytes-eq [] (b ∷ bs) e = cc
compare_bytes-eq (a ∷ as_) [] e = cc
compare_bytes-eq (a ∷ as_) (b ∷ bs) e = ground (arith, compare_bytes-eq as_ bs)

pub compare_bytes-gt : (a b : Key) → compare_bytes a b ≡ gt → compare_bytes b a ≡ lt
compare_bytes-gt [] [] e = cc
compare_bytes-gt [] (b ∷ bs) e = cc
compare_bytes-gt (a ∷ as_) [] e = refl
compare_bytes-gt (a ∷ as_) (b ∷ bs) e = ground (arith, compare_bytes-gt as_ bs)

pub compare_bytes_trans :
    (a b c : Key) → compare_bytes a b ≡ lt → compare_bytes b c ≡ lt → compare_bytes a c ≡ lt
compare_bytes_trans [] [] c e f = cc
compare_bytes_trans [] (b ∷ bs) [] e f = cc
compare_bytes_trans [] (b ∷ bs) (c ∷ cs) e f = refl
compare_bytes_trans (a ∷ as_) [] c e f = cc
compare_bytes_trans (a ∷ as_) (b ∷ bs) [] e f = cc
compare_bytes_trans (a ∷ as_) (b ∷ bs) (c ∷ cs) e f = ground (arith, compare_bytes_trans as_ bs cs)

abbrev pub byte_order : KeyOrder
byte_order = record {
  compare = compare_bytes;
  compare_refl = compare_bytes_refl;
  compare_eq = compare_bytes-eq;
  compare_gt = compare_bytes-gt;
  compare_trans = compare_bytes_trans;
}

module _ {A : Type 0} where
  abbrev pub insert : Key → A → List (Key × A) → List (Key × A)
  insert k v [] = (k, v) ∷ []
  insert k v ((j, u) ∷ m) = elim (compare_bytes k j) [
    | lt ↦ (k, v) ∷ (j, u) ∷ m
    | eq ↦ (k, v) ∷ m
    | gt ↦ (j, u) ∷ insert k v m
  ]

  insert-AllAbove :
      (a k : Key) (v : A) (m : List (Key × A))
      → compare_bytes a k ≡ lt
      → AllAbove byte_order a m
      → AllAbove byte_order a (insert k v m)
  insert-AllAbove a k v [] h above = (h, tt)
  insert-AllAbove a k v ((j, u) ∷ m) h (first, rest) = elim (Ordering-cases (compare_bytes k j)) [
    | inl below ↦ rw (below, AllAbove, insert) (h, (first, rest))
    | inr (inl same) ↦ rw (same, AllAbove, insert) (h, rest)
    | inr (inr above) ↦ rw (above, AllAbove, insert) (first, insert-AllAbove a k v m h rest)
  ]

  pub insert-IsSorted :
      (k : Key) (v : A) (m : List (Key × A))
      → IsSorted byte_order m
      → IsSorted byte_order (insert k v m)
  insert-IsSorted k v [] s = (tt, tt)
  insert-IsSorted k v ((j, u) ∷ m) (above_j, s) = elim (Ordering-cases (compare_bytes k j)) [
    | inl below ↦
        rw (below, IsSorted, insert)
          ((below, AllAbove-trans byte_order k j m below above_j), (above_j, s))
    | inr (inl same) ↦
        let keys = compare_bytes-eq k j same in
        rw (same, IsSorted, insert) (subst (λ x. AllAbove byte_order x m) (sym keys) above_j, s)
    | inr (inr above) ↦
        rw (above, IsSorted, insert)
          (insert-AllAbove j k v m (compare_bytes-gt k j above) above_j, insert-IsSorted k v m s)
  ]

abbrev pub is_there {ℓ} : {A : Type ℓ} → Option A → Bool
is_there none = false
is_there (some a) = true

abbrev pub byte_vectors : Containers
byte_vectors = record {
  order = byte_order;
  add_state = insert;
  add_rec = insert;
  has_rec = λ k m. is_there (lookup byte_order k m);
  add_state-IsSorted = insert-IsSorted;
  add_rec-IsSorted = insert-IsSorted;
}
