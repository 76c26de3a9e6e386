-- ===== src/BackupData/Poison.antt =====
-- The errors of BackupDataWriter (libs/androidfw/BackupData.cpp): "If an error occurs, it poisons
-- this object and all write calls will fail with the error that occurred."
use f2ut_platform_frameworks.Prelude.{
  List, [], arith, true, false, length, refl, some, take, ℕ, ◌++◌, ◌<◌, ◌==◌, ◌∷◌, ◌≡◌, ◌≢◌,
}
use f2ut_platform_frameworks.BackupData.{Posix}
use f2ut_platform_frameworks.BackupData.Writer.{
  BackupDataWriter, write_entity_data, write_entity_header, write_or_return,
}

-- A call of the writer.
pub data Call : Type 0 where
  header : List ℕ → ℕ → Call
  content : List ℕ → Call

unfoldable pub call : Posix → Call → BackupDataWriter → BackupDataWriter × ℕ
call sys (header key size) w = write_entity_header sys key size w
call sys (content bytes) w = write_entity_data sys bytes w

-- Some calls, and what each returns.
unfoldable pub run : Posix → List Call → BackupDataWriter → BackupDataWriter × List ℕ
run sys [] w = (w, [])
run sys (c ∷ cs) w =
    let (w1, ret) = call sys c w in let (w2, rets) = run sys cs w1 in (w2, ret ∷ rets)

abbrev pub all_return : ℕ → List Call → List ℕ
all_return err [] = []
all_return err (c ∷ cs) = err ∷ all_return err cs

call_poisoned :
    (sys : Posix) (c : Call) (w : BackupDataWriter) → w.status ≢ 0 → call sys c w ≡ (w, w.status)
unfolding call write_entity_header write_entity_data
call_poisoned sys (header key size) w bad = ground arith
call_poisoned sys (content bytes) w bad = ground arith

run_poisoned :
    (sys : Posix) (cs : List Call) (w : BackupDataWriter)
    → w.status ≢ 0
    → run sys cs w ≡ (w, all_return w.status cs)
unfolding run
run_poisoned sys [] w bad = refl
run_poisoned sys (c ∷ cs) w bad = rw (call_poisoned sys c w bad, run_poisoned sys cs w bad) refl

module _ (sys : Posix) (bytes : List ℕ) (w : BackupDataWriter) (n : ℕ) (fine : w.status ≡ 0)
    (short : sys.returns (length w.out) (length bytes) ≡ some n) (partial : n < length bytes) where
  -- The writer behind a partial `write` of data.
  abbrev broken : BackupDataWriter
  broken = record w { out = w.out ++ take n bytes; status = sys.errno }

  write_entity_data_short : write_entity_data sys bytes w ≡ (broken, sys.errno)
  unfolding write_entity_data write_or_return
  write_entity_data_short =
      let unguarded : (w.status == 0) ≡ true = ground arith in
      let less : (n == length bytes) ≡ false = ground arith in
      rw (unguarded, short, write_or_return, less) refl

  -- After a partial `write` that set errno, WriteEntityData returns errno, and every later call
  -- returns it too and leaves the file and the writer as they are.
  pub short_write_poisons :
      (cs : List Call)
      → sys.errno ≢ 0
      → ((write_entity_data sys bytes w).1 ≡ sys.errno)
        × (run sys cs (write_entity_data sys bytes w).0
            ≡ ((write_entity_data sys bytes w).0, all_return sys.errno cs))
  short_write_poisons cs bad = rw write_entity_data_short (refl, run_poisoned sys cs broken bad)
