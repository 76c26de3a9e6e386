-- ===== src/BackupHelpers/Keys.antt =====
-- What libs/androidfw/BackupHelpers.cpp uses of String8 and KeyedVector: the order of the keys, and
-- a vector of keys and values in that order.
use f2ut_platform_frameworks.Prelude.{Bool, List, Option, [], none, some, ℕ, ◌≡◌, ◌∷◌}
use Prim.Native.Nat.{Ordering, eq, gt, lt}
use f2ut_platform_frameworks.BackupHelpers.{FileRec, FileState}

abbrev pub Key : Type 0
Key = List ℕ

-- String8::compare is the sign that strcmp gives: a strict order, and equal only for equal keys.
pub record KeyOrder : Type 0 where
  pub compare : Key → Key → Ordering
  pub compare_refl : (a : Key) → compare a a ≡ eq
  pub compare_eq : (a b : Key) → compare a b ≡ eq → a ≡ b
  pub compare_gt : (a b : Key) → compare a b ≡ gt → compare b a ≡ lt
  pub compare_trans : (a b c : Key) → compare a b ≡ lt → compare b c ≡ lt → compare a c ≡ lt

module _ (o : KeyOrder) {A : Type 0} where
  -- The value under a key.
  abbrev pub lookup : Key → List (Key × A) → Option A
  lookup k [] = none
  lookup k ((j, v) ∷ m) = elim (o.compare k j) [ eq ↦ some v | _ ↦ lookup k m ]

  -- Every key lies above `k`.
  abbrev pub AllAbove : Key → List (Key × A) → Type 0
  AllAbove k [] = Unit {0}
  AllAbove k ((j, v) ∷ m) = (o.compare k j ≡ lt) × AllAbove k m

  -- The keys ascend, so no key stands twice.
  abbrev pub IsSorted : List (Key × A) → Type 0
  IsSorted [] = Unit {0}
  IsSorted ((j, v) ∷ m) = AllAbove j m × IsSorted m

-- KeyedVector of the two kinds of values: `add` keeps the keys in order.
pub record Containers : Type 0 where
  pub order : KeyOrder
  pub add_state : Key → FileState → List (Key × FileState) → List (Key × FileState)
  pub add_rec : Key → FileRec → List (Key × FileRec) → List (Key × FileRec)
  -- indexOfKey(key) >= 0
  pub has_rec : Key → List (Key × FileRec) → Bool
  pub add_state-IsSorted :
      (k : Key) (v : FileState) (m : List (Key × FileState))
      → IsSorted order m
      → IsSorted order (add_state k v m)
  pub add_rec-IsSorted :
      (k : Key) (v : FileRec) (m : List (Key × FileRec))
      → IsSorted order m
      → IsSorted order (add_rec k v m)
