-- ===== src/BackupHelpers/Lookup.antt =====
-- The changes of the files (Changes) hold for each key what its two states ask for
-- (libs/androidfw/BackupHelpers.cpp, back_up_files).
use f2ut_platform_frameworks.Prelude.{
  Bool-cases, List, [], inl, inr, none, refl, some, sym, ◌≡◌, ◌∷◌, subst, ◌⊎◌,
}
use Prim.Native.Nat.{eq, gt, lt}
use f2ut_platform_frameworks.BackupHelpers.{FileRec, FileState}
use f2ut_platform_frameworks.BackupHelpers.Keys.{AllAbove, IsSorted, Key, KeyOrder, lookup}
use f2ut_platform_frameworks.BackupHelpers.Compare.{differs, Handlers, compare_snapshots}
use f2ut_platform_frameworks.BackupHelpers.Changes.{
  compare_snapshots-send, Change, change_of, send, gone, fresh, updated, removals, additions,
  changes, change_gone, change_fresh, change_updated, change_same, Ordering-cases, changes_below,
  changes_above, changes_updated, changes_same, compare_snapshots-send,
}
use f2ut_platform_frameworks.BackupHelpers.Ascending.{
  AllAbove-lookup, cons-AllAbove, changes-AllAbove, changes-IsSorted,
}

module _ (o : KeyOrder) where
  lookup-removals :
      (k : Key) (old : List (Key × FileState))
      → lookup o k (removals old) ≡ change_of (lookup o k old) none
  unfolding removals change_of
  lookup-removals k [] = refl
  lookup-removals k ((p, f) ∷ old) = elim (Ordering-cases (o.compare k p)) [
    | inl below ↦ rw (below, lookup) (lookup-removals k old)
    | inr (inr above) ↦ rw (above, lookup) (lookup-removals k old)
    | inr (inl same) ↦ rw (same, lookup) refl
  ]

  lookup-additions :
      (k : Key) (new : List (Key × FileRec))
      → lookup o k (additions new) ≡ change_of none (lookup o k new)
  unfolding additions change_of
  lookup-additions k [] = refl
  lookup-additions k ((q, g) ∷ new) = elim (Ordering-cases (o.compare k q)) [
    | inl below ↦ rw (below, lookup) (lookup-additions k new)
    | inr (inr above) ↦ rw (above, lookup) (lookup-additions k new)
    | inr (inl same) ↦ rw (same, lookup) refl
  ]

  lookup_hit :
      {A : Type 0} (k j : Key) (v : A) (m : List (Key × A))
      → o.compare k j ≡ eq
      → lookup o k ((j, v) ∷ m) ≡ some v
  lookup_hit k j v m e = rw (e, lookup) refl

  lookup_miss :
      {A : Type 0} (k j : Key) (v : A) (m : List (Key × A))
      → (o.compare k j ≡ lt) ⊎ (o.compare k j ≡ gt)
      → lookup o k ((j, v) ∷ m) ≡ lookup o k m
  lookup_miss k j v m (inl e) = rw (e, lookup) refl
  lookup_miss k j v m (inr e) = rw (e, lookup) refl

  -- A key is that of the entry, or the entry does not matter for it.
  hit_or_miss : (k j : Key) → (o.compare k j ≡ eq) ⊎ ((o.compare k j ≡ lt) ⊎ (o.compare k j ≡ gt))
  hit_or_miss k j = elim (Ordering-cases (o.compare k j)) [
    | inl below ↦ inr (inl below)
    | inr (inl same) ↦ inl same
    | inr (inr above) ↦ inr (inr above)
  ]

  -- No entry for a key below all.
  lookup_below :
      {A : Type 0} (k j : Key) (m : List (Key × A))
      → o.compare k j ≡ eq
      → AllAbove o j m
      → lookup o k m ≡ none
  lookup_below k j m e above =
      AllAbove-lookup o k m (subst (λ x. AllAbove o x m) (sym (o.compare_eq k j e)) above)

  -- The changes hold for each key what its old and its new state ask for.
  lookup-changes :
      (k : Key) (old : List (Key × FileState)) (new : List (Key × FileRec))
      → IsSorted o old
      → IsSorted o new
      → lookup o k (changes o old new) ≡ change_of (lookup o k old) (lookup o k new)
  unfolding changes
  lookup-changes k [] new s t = lookup-additions k new
  lookup-changes k ((p, f) ∷ old) [] s t = lookup-removals k ((p, f) ∷ old)
  lookup-changes k ((p, f) ∷ old) ((q, g) ∷ new) (up, s) (uq, t) =
      elim (Ordering-cases (o.compare p q)) [
        | inl below ↦
            let ih = lookup-changes k old ((q, g) ∷ new) s (uq, t) in
            rw (changes_below o p f old q g new below) (elim (hit_or_miss k p) [
              | inl hit ↦
                  let absent =
                    lookup_below k p ((q, g) ∷ new) hit (cons-AllAbove o p q g new below uq) in
                  rw
                    (
                      lookup_hit k p gone (changes o old ((q, g) ∷ new)) hit,
                      lookup_hit k p f old hit,
                      absent,
                    )
                    (change_gone f)
              | inr miss ↦
                  rw
                    (
                      lookup_miss k p gone (changes o old ((q, g) ∷ new)) miss,
                      lookup_miss k p f old miss,
                    )
                    ih
            ])
        | inr (inr above) ↦
            let ih = lookup-changes k ((p, f) ∷ old) new (up, s) t in
            rw (changes_above o p f old q g new above) (elim (hit_or_miss k q) [
              | inl hit ↦
                  let absent =
                    lookup_below k q ((p, f) ∷ old) hit
                      (cons-AllAbove o q p f old (o.compare_gt p q above) up) in
                  rw
                    (
                      lookup_hit k q (fresh g) (changes o ((p, f) ∷ old) new) hit,
                      lookup_hit k q g new hit,
                      absent,
                    )
                    (change_fresh g)
              | inr miss ↦
                  rw
                    (
                      lookup_miss k q (fresh g) (changes o ((p, f) ∷ old) new) miss,
                      lookup_miss k q g new miss,
                    )
                    ih
            ])
        | inr (inl same) ↦
            let keys = o.compare_eq p q same in
            let ih = lookup-changes k old new s t in
            let uq' = subst (λ x. AllAbove o x new) (sym keys) uq in
            elim (hit_or_miss k p) [
              | inl hit ↦
                  let hit_q = subst (λ x. o.compare k x ≡ eq) keys hit in
                  elim (Bool-cases (differs f g.s)) [
                    | inl other ↦ rw (changes_updated o p f old q g new same other) (
                        rw
                          (
                            lookup_hit k p (updated g) (changes o old new) hit,
                            lookup_hit k p f old hit,
                            lookup_hit k q g new hit_q,
                          )
                          (change_updated f g other))
                    | inr equal ↦ rw (changes_same o p f old q g new same equal) (
                        rw
                          (
                            lookup_below k p (changes o old new) hit
                                (changes-AllAbove o p old new up uq'),
                            lookup_hit k p f old hit,
                            lookup_hit k q g new hit_q,
                          )
                          (change_same f g equal))
                  ]
              | inr miss ↦
                  let miss_q = subst (λ x. (o.compare k x ≡ lt) ⊎ (o.compare k x ≡ gt)) keys miss in
                  elim (Bool-cases (differs f g.s)) [
                    | inl other ↦ rw (changes_updated o p f old q g new same other) (
                        rw
                          (
                            lookup_miss k p (updated g) (changes o old new) miss,
                            lookup_miss k p f old miss,
                            lookup_miss k q g new miss_q,
                          )
                          ih)
                    | inr equal ↦
                        rw (changes_same o p f old q g new same equal)
                          (rw (lookup_miss k p f old miss, lookup_miss k q g new miss_q) ih)
                  ]
            ]
      ]

-- The comparison of an old and a new snapshot, each in the order of its keys, makes one call for
-- each key, in that order, and does so exactly for the keys that ask for one: removed for a key that
-- only the old snapshot has, added for one that only the new one has, changed for one that both
-- have and whose times, mode, size or checksum differ.
pub compare_snapshots-lookup :
    {S : Type 0} (h : Handlers S) (o : KeyOrder) (old : List (Key × FileState))
    (new : List (Key × FileRec)) (s : S)
    → IsSorted o old
    → IsSorted o new
    → (cs : List (Key × Change)) × IsSorted o cs
      × ((k : Key) → lookup o k cs ≡ change_of (lookup o k old) (lookup o k new))
      × (compare_snapshots h o old new s ≡ send h cs s)
compare_snapshots-lookup h o old new s up uq = (
  changes o old new,
  changes-IsSorted o old new up uq,
  (λ k. lookup-changes o k old new up uq),
  compare_snapshots-send o h old new s,
)
