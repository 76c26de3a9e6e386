-- ===== src/BackupHelpers/Asked.antt =====
-- What a backup is to send (libs/androidfw/BackupHelpers.cpp, back_up_files): what the states of a
-- file ask for, and what the changes do to the entity stream.
use f2ut_platform_frameworks.Prelude.{
  ap, ◌∙◌, Bool-cases, List, Option, Option-cases, [], arith, false, inl, inr, none, refl, some,
  true, ℕ, ◌-◌, ◌^◌, ◌∷◌, ◌≡◌, ◌⊎◌,
}
use f2ut_platform_frameworks.BackupData.{Posix}
use f2ut_platform_frameworks.BackupData.Writer.{BackupDataWriter, write_entity_header}
use f2ut_platform_frameworks.BackupHelpers.{FileRec, FileState}
use f2ut_platform_frameworks.BackupHelpers.Keys.{Key}
use f2ut_platform_frameworks.BackupHelpers.Compare.{differs}
use f2ut_platform_frameworks.BackupHelpers.Changes.{Change, change_of, fresh, gone, send, updated}
use f2ut_platform_frameworks.BackupHelpers.Update.{
  FileSystem, OpenFile, Stat, update_file, update_open_file, write_delete_file,
}
use f2ut_platform_frameworks.BackupHelpers.Backup.{senders}
use f2ut_platform_frameworks.BackupHelpers.Promise.{AllRead, update_open_file-some}

-- The states agree but for the length of the name.
abbrev pub IsUnchanged : FileState → FileState → Type 0
IsUnchanged f g =
    (f.mod_time_sec ≡ g.mod_time_sec)
    × (f.mod_time_nsec ≡ g.mod_time_nsec)
    × (f.mode ≡ g.mode)
    × (f.size ≡ g.size)
    × (f.crc32 ≡ g.crc32)

-- What the old state and the new one of a file ask for.
pub data Asks : Option FileState → Option FileRec → Option Change → Type 0 where
  unknown : Asks none none none
  only_old : (f : FileState) → Asks (some f) none (some gone)
  only_new : (g : FileRec) → Asks none (some g) (some (fresh g))
  unchanged : (f : FileState) (g : FileRec) → IsUnchanged f g.s → Asks (some f) (some g) none
  changed :
      (f : FileState) (g : FileRec)
      → (IsUnchanged f g.s → ⊥)
      → Asks (some f) (some g) (some (updated g))

-- The changes, one after the other, take the stream from one state to another. A deletion is an
-- entity's header of size -1; a file that cannot be read any more is left out; another one is sent as
-- it is when it is opened, with the mode of a new `stat` if it was not there before, and with the mode
-- of its new state if it was.
pub data Sends (sys : Posix) (fs : FileSystem)
    : List (Key × Change) → BackupDataWriter → BackupDataWriter → Type 0 where
  finished : (w : BackupDataWriter) → Sends sys fs [] w w
  deletes :
      (k : Key) (cs : List (Key × Change)) (w w' : BackupDataWriter)
      → Sends sys fs cs (write_entity_header sys k (2 ^ 64 - 1) w).0 w'
      → Sends sys fs ((k, gone) ∷ cs) w w'
  leaves_out_new :
      (k : Key) (g : FileRec) (cs : List (Key × Change)) (w w' : BackupDataWriter)
      → (fs.stat g.file ≡ none) ⊎ (fs.open_file g.file ≡ none)
      → Sends sys fs cs w w'
      → Sends sys fs ((k, fresh g) ∷ cs) w w'
  sends_new :
      (k : Key) (g : FileRec) (st : Stat) (f : OpenFile) (cs : List (Key × Change))
      (w w1 w' : BackupDataWriter) (err : ℕ)
      → fs.stat g.file ≡ some st
      → fs.open_file g.file ≡ some f
      → update_open_file sys f st.mode k w ≡ some (w1, err)
      → Sends sys fs cs w1 w'
      → Sends sys fs ((k, fresh g) ∷ cs) w w'
  leaves_out_changed :
      (k : Key) (g : FileRec) (cs : List (Key × Change)) (w w' : BackupDataWriter)
      → fs.open_file g.file ≡ none
      → Sends sys fs cs w w'
      → Sends sys fs ((k, updated g) ∷ cs) w w'
  sends_changed :
      (k : Key) (g : FileRec) (f : OpenFile) (cs : List (Key × Change)) (w w1 w' : BackupDataWriter)
      (err : ℕ)
      → fs.open_file g.file ≡ some f
      → update_open_file sys f g.s.mode k w ≡ some (w1, err)
      → Sends sys fs cs w1 w'
      → Sends sys fs ((k, updated g) ∷ cs) w w'

differs-IsUnchanged : (f g : FileState) → differs f g ≡ false → IsUnchanged f g
unfolding differs
differs-IsUnchanged f g e = (ground arith, ground arith, ground arith, ground arith, ground arith)

IsUnchanged-differs : (f g : FileState) → differs f g ≡ true → IsUnchanged f g → ⊥
unfolding differs
IsUnchanged-differs f g e (a0, a1, a2, a3, a4) = ground arith

pub change_of-Asks : (f : Option FileState) (g : Option FileRec) → Asks f g (change_of f g)
unfolding change_of
change_of-Asks none none = unknown
change_of-Asks none (some g) = only_new g
change_of-Asks (some f) none = only_old f
change_of-Asks (some f) (some g) = elim (Bool-cases (differs f g.s)) [
  | inl other ↦ rw other (changed f g (IsUnchanged-differs f g.s other))
  | inr same ↦ rw same (unchanged f g (differs-IsUnchanged f g.s same))
]

removes_step :
    (sys : Posix) (fs : FileSystem) (k : Key) (w : BackupDataWriter)
    → (senders sys fs).removed k (some w) ≡ some (write_entity_header sys k (2 ^ 64 - 1) w).0
unfolding senders write_delete_file
removes_step sys fs k w = refl

module _ (sys : Posix) (fs : FileSystem) (k : Key) (g : FileRec) (w : BackupDataWriter) where
  unknown_step : fs.stat g.file ≡ none → (senders sys fs).added k g (some w) ≡ some w
  unfolding senders update_file
  unknown_step e = rw (e, update_file) refl

  shut_step :
      (st : Stat)
      → fs.stat g.file ≡ some st
      → fs.open_file g.file ≡ none
      → (senders sys fs).added k g (some w) ≡ some w
  unfolding senders update_file
  shut_step st e h = rw (e, h, update_file) refl

  adds_step :
      (st : Stat) (f : OpenFile) (w1 : BackupDataWriter) (err : ℕ)
      → fs.stat g.file ≡ some st
      → fs.open_file g.file ≡ some f
      → update_open_file sys f st.mode k w ≡ some (w1, err)
      → (senders sys fs).added k g (some w) ≡ some w1
  unfolding senders update_file
  adds_step st f w1 err e h u = rw (e, h, u, update_file) refl

  shut_changed_step : fs.open_file g.file ≡ none → (senders sys fs).changed k g (some w) ≡ some w
  unfolding senders
  shut_changed_step h = rw h refl

  changes_step :
      (f : OpenFile) (w1 : BackupDataWriter) (err : ℕ)
      → fs.open_file g.file ≡ some f
      → update_open_file sys f g.s.mode k w ≡ some (w1, err)
      → (senders sys fs).changed k g (some w) ≡ some w1
  unfolding senders
  changes_step f w1 err h u = rw h (rw u refl)

-- Where no read fails, the calls for the changes come to an end, and do what is asked.
pub send-Sends :
    (sys : Posix) (fs : FileSystem)
    → ((path : List ℕ) (f : OpenFile) → fs.open_file path ≡ some f → AllRead f.reads)
    → (cs : List (Key × Change)) (w : BackupDataWriter)
    → (w' : BackupDataWriter) × (send (senders sys fs) cs (some w) ≡ some w') × Sends sys fs cs w w'
unfolding send
send-Sends sys fs readable [] w = (w, refl, finished w)
send-Sends sys fs readable ((k, gone) ∷ cs) w =
    let (w', e, sends) =
      send-Sends sys fs readable cs (write_entity_header sys k (2 ^ 64 - 1) w).0 in
    (w', ap (send (senders sys fs) cs) (removes_step sys fs k w) ∙ e, deletes k cs w w' sends)
send-Sends sys fs readable ((k, fresh g) ∷ cs) w =
    let (w0, e0, sends0) = send-Sends sys fs readable cs w in
    elim (Option-cases (fs.stat g.file)) [
      | inl unknown_ ↦ (
        w0,
        ap (send (senders sys fs) cs) (unknown_step sys fs k g w unknown_) ∙ e0,
        leaves_out_new k g cs w w0 (inl unknown_) sends0,
      )
      | inr (st, known) ↦ elim (Option-cases (fs.open_file g.file)) [
        | inl shut ↦ (
          w0,
          ap (send (senders sys fs) cs) (shut_step sys fs k g w st known shut) ∙ e0,
          leaves_out_new k g cs w w0 (inr shut) sends0,
        )
        | inr (f, open_) ↦
            let (w1, err, written) =
              update_open_file-some sys f st.mode k w (readable g.file f open_) in
            let (w', e, sends) = send-Sends sys fs readable cs w1 in
            (
              w',
              ap (send (senders sys fs) cs) (adds_step sys fs k g w st f w1 err known open_ written)
                  ∙ e,
              sends_new k g st f cs w w1 w' err known open_ written sends,
            )
      ]
    ]
send-Sends sys fs readable ((k, updated g) ∷ cs) w =
    let (w0, e0, sends0) = send-Sends sys fs readable cs w in
    elim (Option-cases (fs.open_file g.file)) [
      | inl shut ↦ (
        w0,
        ap (send (senders sys fs) cs) (shut_changed_step sys fs k g w shut) ∙ e0,
        leaves_out_changed k g cs w w0 shut sends0,
      )
      | inr (f, open_) ↦
          let (w1, err, written) =
            update_open_file-some sys f g.s.mode k w (readable g.file f open_) in
          let (w', e, sends) = send-Sends sys fs readable cs w1 in
          (
            w',
            ap (send (senders sys fs) cs) (changes_step sys fs k g w f w1 err open_ written) ∙ e,
            sends_changed k g f cs w w1 w' err open_ written sends,
          )
    ]
