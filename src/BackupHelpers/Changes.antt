-- ===== src/BackupHelpers/Changes.antt =====
-- What the comparison of two snapshots in libs/androidfw/BackupHelpers.cpp sends: the changes of the
-- files, each under its key.
use f2ut_platform_frameworks.Prelude.{
  Bool-cases, List, Option, [], false, if◌then◌else◌, inl, inr, none, refl, some, true, ◌≡◌, ◌∷◌,
  ◌⊎◌,
}
use Prim.Native.Nat.{Ordering, eq, gt, lt}
use f2ut_platform_frameworks.BackupHelpers.{FileRec, FileState}
use f2ut_platform_frameworks.BackupHelpers.Keys.{Key, KeyOrder}
use f2ut_platform_frameworks.BackupHelpers.Compare.{
  Handlers, add_rest, compare_snapshots, differs, remove_rest,
}

pub data Change : Type 0 where
  gone : Change
  fresh : FileRec → Change
  updated : FileRec → Change

-- What is to be sent for a file, by its old and its new state.
unfoldable pub change_of : Option FileState → Option FileRec → Option Change
change_of none none = none
change_of none (some g) = some (fresh g)
change_of (some f) none = some gone
change_of (some f) (some g) = if differs f g.s then some (updated g) else none

pub change_gone : (f : FileState) → some gone ≡ change_of (some f) none
unfolding change_of
change_gone f = refl

pub change_fresh : (g : FileRec) → some (fresh g) ≡ change_of none (some g)
unfolding change_of
change_fresh g = refl

pub change_updated :
    (f : FileState) (g : FileRec)
    → differs f g.s ≡ true
    → some (updated g) ≡ change_of (some f) (some g)
unfolding change_of
change_updated f g e = rw e refl

pub change_same :
    (f : FileState) (g : FileRec) → differs f g.s ≡ false → none ≡ change_of (some f) (some g)
unfolding change_of
change_same f g e = rw e refl

-- The handlers' calls for some changes, in their order.
unfoldable pub send : {S : Type 0} → Handlers S → List (Key × Change) → S → S
send h [] s = s
send h ((k, gone) ∷ cs) s = send h cs (h.removed k s)
send h ((k, fresh g) ∷ cs) s = send h cs (h.added k g s)
send h ((k, updated g) ∷ cs) s = send h cs (h.changed k g s)

unfoldable pub removals : List (Key × FileState) → List (Key × Change)
removals [] = []
removals ((p, f) ∷ old) = (p, gone) ∷ removals old

unfoldable pub additions : List (Key × FileRec) → List (Key × Change)
additions [] = []
additions ((q, g) ∷ new) = (q, fresh g) ∷ additions new

unfoldable pub changes :
    KeyOrder → List (Key × FileState) → List (Key × FileRec) → List (Key × Change)
changes o [] new = additions new
changes o ((p, f) ∷ old) [] = removals ((p, f) ∷ old)
changes o ((p, f) ∷ old) ((q, g) ∷ new) = elim (o.compare p q) [
  | lt ↦ (p, gone) ∷ changes o old ((q, g) ∷ new)
  | gt ↦ (q, fresh g) ∷ changes o ((p, f) ∷ old) new
  | eq ↦ if differs f g.s then (p, updated g) ∷ changes o old new else changes o old new
]

pub Ordering-cases : (c : Ordering) → (c ≡ lt) ⊎ ((c ≡ eq) ⊎ (c ≡ gt))
Ordering-cases lt = inl refl
Ordering-cases eq = inr (inl refl)
Ordering-cases gt = inr (inr refl)

module _ (o : KeyOrder) where
  remove_rest-send :
      {S : Type 0} (h : Handlers S) (old : List (Key × FileState)) (s : S)
      → remove_rest h old s ≡ send h (removals old) s
  unfolding remove_rest send removals
  remove_rest-send h [] s = refl
  remove_rest-send h ((p, f) ∷ old) s = remove_rest-send h old (h.removed p s)

  add_rest-send :
      {S : Type 0} (h : Handlers S) (new : List (Key × FileRec)) (s : S)
      → add_rest h new s ≡ send h (additions new) s
  unfolding add_rest send additions
  add_rest-send h [] s = refl
  add_rest-send h ((q, g) ∷ new) s = add_rest-send h new (h.added q g s)

  module _ (p : Key) (f : FileState) (old : List (Key × FileState)) (q : Key) (g : FileRec)
      (new : List (Key × FileRec)) where
    pub changes_below :
        o.compare p q ≡ lt
        → changes o ((p, f) ∷ old) ((q, g) ∷ new) ≡ (p, gone) ∷ changes o old ((q, g) ∷ new)
    unfolding changes
    changes_below e = rw (e, changes) refl

    pub changes_above :
        o.compare p q ≡ gt
        → changes o ((p, f) ∷ old) ((q, g) ∷ new) ≡ (q, fresh g) ∷ changes o ((p, f) ∷ old) new
    unfolding changes
    changes_above e = rw (e, changes) refl

    pub changes_updated :
        o.compare p q ≡ eq
        → differs f g.s ≡ true
        → changes o ((p, f) ∷ old) ((q, g) ∷ new) ≡ (p, updated g) ∷ changes o old new
    unfolding changes
    changes_updated e d = rw (e, d, changes) refl

    pub changes_same :
        o.compare p q ≡ eq
        → differs f g.s ≡ false
        → changes o ((p, f) ∷ old) ((q, g) ∷ new) ≡ changes o old new
    unfolding changes
    changes_same e d = rw (e, d, changes) refl

  -- The loops call the handlers for the changes.
  pub compare_snapshots-send :
      {S : Type 0} (h : Handlers S) (old : List (Key × FileState)) (new : List (Key × FileRec))
      (s : S)
      → compare_snapshots h o old new s ≡ send h (changes o old new) s
  unfolding compare_snapshots send changes
  compare_snapshots-send h [] new s = add_rest-send h new s
  compare_snapshots-send h ((p, f) ∷ old) [] s = remove_rest-send h ((p, f) ∷ old) s
  compare_snapshots-send h ((p, f) ∷ old) ((q, g) ∷ new) s = elim (Ordering-cases (o.compare p q)) [
    | inl below ↦
        rw (below, compare_snapshots, changes)
          (compare_snapshots-send h old ((q, g) ∷ new) (h.removed p s))
    | inr (inr above) ↦
        rw (above, compare_snapshots, changes)
          (compare_snapshots-send h ((p, f) ∷ old) new (h.added q g s))
    | inr (inl same) ↦ elim (Bool-cases (differs f g.s)) [
      | inl other ↦
          rw (same, other, compare_snapshots, changes)
            (compare_snapshots-send h old new (h.changed p g s))
      | inr equal ↦
          rw (same, equal, compare_snapshots, changes) (compare_snapshots-send h old new s)
    ]
  ]
