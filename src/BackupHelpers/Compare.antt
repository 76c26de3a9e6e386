-- ===== src/BackupHelpers/Compare.antt =====
-- The comparison of the old snapshot with the new one in back_up_files of
-- libs/androidfw/BackupHelpers.cpp.
use f2ut_platform_frameworks.Prelude.{Bool, List, [], if◌then◌else◌, not, ◌==◌, ◌||◌, ◌∷◌}
use Prim.Native.Nat.{eq, gt, lt}
use f2ut_platform_frameworks.BackupHelpers.{FileRec, FileState}
use f2ut_platform_frameworks.BackupHelpers.Keys.{Key, KeyOrder}

-- The fields that are compared; the length of the name is not.
unfoldable pub differs : FileState → FileState → Bool
differs f g =
    not (f.mod_time_sec == g.mod_time_sec)
    || not (f.mod_time_nsec == g.mod_time_nsec)
    || not (f.mode == g.mode)
    || not (f.size == g.size)
    || not (f.crc32 == g.crc32)

-- What the comparison does with a key: write_delete_file, write_update_file for a file by its name,
-- and the update of a file that was there before.
pub record Handlers (S : Type 0) : Type 0 where
  pub removed : Key → S → S
  pub added : Key → FileRec → S → S
  pub changed : Key → FileRec → S → S

module _ {S : Type 0} (h : Handlers S) where
  -- `while (n<N)`
  unfoldable pub remove_rest : List (Key × FileState) → S → S
  remove_rest [] s = s
  remove_rest ((p, f) ∷ old) s = remove_rest old (h.removed p s)

  -- `while (m<M)`
  unfoldable pub add_rest : List (Key × FileRec) → S → S
  add_rest [] s = s
  add_rest ((q, g) ∷ new) s = add_rest new (h.added q g s)

  -- `while (n<N && m<M)` and the two loops behind it
  unfoldable pub compare_snapshots :
      KeyOrder → List (Key × FileState) → List (Key × FileRec) → S → S
  unfolding remove_rest add_rest differs
  compare_snapshots o [] new s = add_rest new s
  compare_snapshots o ((p, f) ∷ old) [] s = remove_rest ((p, f) ∷ old) s
  compare_snapshots o ((p, f) ∷ old) ((q, g) ∷ new) s = elim (o.compare p q) [
    | lt ↦ compare_snapshots o old ((q, g) ∷ new) (h.removed p s)
    | gt ↦ compare_snapshots o ((p, f) ∷ old) new (h.added q g s)
    | eq ↦ compare_snapshots o old new (if differs f g.s then h.changed p g s else s)
  ]
