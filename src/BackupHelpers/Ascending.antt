-- ===== src/BackupHelpers/Ascending.antt =====
-- The changes of the files (Changes) come in the order of their keys.
use f2ut_platform_frameworks.Prelude.{
  Bool-cases, List, [], inl, inr, none, refl, sym, ◌≡◌, ◌∷◌, subst,
}
use Prim.Native.Nat.{lt}
use f2ut_platform_frameworks.BackupHelpers.{FileRec, FileState}
use f2ut_platform_frameworks.BackupHelpers.Keys.{AllAbove, IsSorted, Key, KeyOrder, lookup}
use f2ut_platform_frameworks.BackupHelpers.Compare.{differs}
use f2ut_platform_frameworks.BackupHelpers.Changes.{
  removals, additions, changes, Ordering-cases, changes_below, changes_above, changes_updated,
  changes_same,
}

module _ (o : KeyOrder) where
  module _ {A : Type 0} where
    pub AllAbove-trans :
        (a b : Key) (m : List (Key × A)) → o.compare a b ≡ lt → AllAbove o b m → AllAbove o a m
    AllAbove-trans a b [] h above = tt
    AllAbove-trans a b ((j, v) ∷ m) h (first, rest) =
        (o.compare_trans a b j h first, AllAbove-trans a b m h rest)

    pub AllAbove-lookup : (k : Key) (m : List (Key × A)) → AllAbove o k m → lookup o k m ≡ none
    AllAbove-lookup k [] above = refl
    AllAbove-lookup k ((j, v) ∷ m) (first, rest) = rw (first, lookup) (AllAbove-lookup k m rest)

  pub removals-AllAbove :
      (k : Key) (old : List (Key × FileState)) → AllAbove o k old → AllAbove o k (removals old)
  unfolding removals
  removals-AllAbove k [] above = tt
  removals-AllAbove k ((p, f) ∷ old) (first, rest) = (first, removals-AllAbove k old rest)

  pub additions-AllAbove :
      (k : Key) (new : List (Key × FileRec)) → AllAbove o k new → AllAbove o k (additions new)
  unfolding additions
  additions-AllAbove k [] above = tt
  additions-AllAbove k ((q, g) ∷ new) (first, rest) = (first, additions-AllAbove k new rest)

  pub changes-AllAbove :
      (k : Key) (old : List (Key × FileState)) (new : List (Key × FileRec))
      → AllAbove o k old
      → AllAbove o k new
      → AllAbove o k (changes o old new)
  unfolding changes
  changes-AllAbove k [] new h m = additions-AllAbove k new m
  changes-AllAbove k ((p, f) ∷ old) [] h m = removals-AllAbove k ((p, f) ∷ old) h
  changes-AllAbove k ((p, f) ∷ old) ((q, g) ∷ new) (hp, h) (mq, m) =
      elim (Ordering-cases (o.compare p q)) [
        | inl below ↦
            rw (changes_below o p f old q g new below)
              (hp, changes-AllAbove k old ((q, g) ∷ new) h (mq, m))
        | inr (inr above) ↦
            rw (changes_above o p f old q g new above)
              (mq, changes-AllAbove k ((p, f) ∷ old) new (hp, h) m)
        | inr (inl same) ↦ elim (Bool-cases (differs f g.s)) [
          | inl other ↦
              rw (changes_updated o p f old q g new same other) (hp, changes-AllAbove k old new h m)
          | inr equal ↦
              rw (changes_same o p f old q g new same equal) (changes-AllAbove k old new h m)
        ]
      ]

  removals-IsSorted : (old : List (Key × FileState)) → IsSorted o old → IsSorted o (removals old)
  unfolding removals
  removals-IsSorted [] s = tt
  removals-IsSorted ((p, f) ∷ old) (above, s) =
      (removals-AllAbove p old above, removals-IsSorted old s)

  additions-IsSorted : (new : List (Key × FileRec)) → IsSorted o new → IsSorted o (additions new)
  unfolding additions
  additions-IsSorted [] s = tt
  additions-IsSorted ((q, g) ∷ new) (above, s) =
      (additions-AllAbove q new above, additions-IsSorted new s)

  -- Below the head of the other list, and so below all of it.
  pub cons-AllAbove :
      {A : Type 0} (a b : Key) (v : A) (m : List (Key × A))
      → o.compare a b ≡ lt
      → AllAbove o b m
      → AllAbove o a ((b, v) ∷ m)
  cons-AllAbove a b v m h above = (h, AllAbove-trans a b m h above)

  pub changes-IsSorted :
      (old : List (Key × FileState)) (new : List (Key × FileRec))
      → IsSorted o old
      → IsSorted o new
      → IsSorted o (changes o old new)
  unfolding changes
  changes-IsSorted [] new s t = additions-IsSorted new t
  changes-IsSorted ((p, f) ∷ old) [] s t = removals-IsSorted ((p, f) ∷ old) s
  changes-IsSorted ((p, f) ∷ old) ((q, g) ∷ new) (up, s) (uq, t) =
      elim (Ordering-cases (o.compare p q)) [
        | inl below ↦ rw (changes_below o p f old q g new below) (
          changes-AllAbove p old ((q, g) ∷ new) up (cons-AllAbove p q g new below uq),
          changes-IsSorted old ((q, g) ∷ new) s (uq, t),
        )
        | inr (inr above) ↦ rw (changes_above o p f old q g new above) (
          changes-AllAbove q ((p, f) ∷ old) new
              (cons-AllAbove q p f old (o.compare_gt p q above) up) uq,
          changes-IsSorted ((p, f) ∷ old) new (up, s) t,
        )
        | inr (inl same) ↦
            let uq' = subst (λ k. AllAbove o k new) (sym (o.compare_eq p q same)) uq in
            elim (Bool-cases (differs f g.s)) [
              | inl other ↦
                  rw (changes_updated o p f old q g new same other)
                    (changes-AllAbove p old new up uq', changes-IsSorted old new s t)
              | inr equal ↦
                  rw (changes_same o p f old q g new same equal) (changes-IsSorted old new s t)
            ]
      ]
