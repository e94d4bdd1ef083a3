-- ===== src/Persistence.antt =====
-- Persistence backends, crates/logdrain/src/persistence.rs: the trait as an interface on a state, the
-- memory backend, and the file backend on a file system in which any call may fail.
pub mod Atomic
pub mod Stores
pub mod Redis
pub mod Kafka
use logdrain.Common.{
  ℕ, List, [], ◌∷◌, ◌++◌, Option, none, some, Text, codes, Result, ok, err, take, list_eq, nat_eq,
}
use logdrain.Common.Assoc.{lookup, insert, remove}
use logdrain.Errors.{PersistenceError, io}
use logdrain.Snapshot.{Bytes}

-- `trait Persistence`, with the backend's state passed on.
pub record Persistence (S : Type 0) : Type 0 where
  pub save : Bytes → S → S × Result PersistenceError Unit
  pub load : S → Result PersistenceError (Option Bytes)

-- `MemoryPersistence`
abbrev pub memory : Persistence (Option Bytes)
memory = record { save = λ blob s. (some blob, ok tt); load = λ s. ok s }

-- The files by their path.
abbrev pub Files : Type 0
Files = List (Text × Bytes)

-- What the operating system answers: an error of each call, or none, and how many bytes a failing
-- `write_all` leaves behind.
pub record Faults : Type 0 where
  pub create : Option Text
  pub write : Option Text
  pub written : ℕ
  pub sync : Option Text
  pub rename : Option Text
  pub read : Option Text

-- `struct FilePersistence`
pub record FilePersistence : Type 0 where
  pub path : Text

abbrev pub tmp_path : FilePersistence → Text
tmp_path p = p.path ++ codes ".tmp"

-- The calls of `save`, each with the files after it and the error it returns.
unfoldable pub create_file : Faults → Text → Files → Files × Result PersistenceError Unit
create_file faults path files = elim faults.create [
  | some e ↦ (files, err (io e))
  | none ↦ (insert path [] files, ok tt)
]

unfoldable pub write_all : Faults → Text → Bytes → Files → Files × Result PersistenceError Unit
write_all faults path blob files = elim faults.write [
  | some e ↦ (insert path (take faults.written blob) files, err (io e))
  | none ↦ (insert path blob files, ok tt)
]

unfoldable pub sync_all : Faults → Files → Files × Result PersistenceError Unit
sync_all faults files = elim faults.sync [ some e ↦ (files, err (io e)) | none ↦ (files, ok tt) ]

unfoldable pub rename_file : Faults → Text → Text → Files → Files × Result PersistenceError Unit
rename_file faults from to files = elim faults.rename [
  | some e ↦ (files, err (io e))
  | none ↦ elim (lookup from files) [
    | some blob ↦ (insert to blob (remove from files), ok tt)
    | none ↦ (files, err (io (codes "not found")))
  ]
]

-- `?` between calls that change the files
infixl 5 ◌and_then◌
abbrev ◌and_then◌ :
    Files × Result PersistenceError Unit
    → (Files → Files × Result PersistenceError Unit)
    → Files × Result PersistenceError Unit
(files, ok u) and_then f = f files
(files, err e) and_then f = (files, err e)

unfoldable pub save_file :
    Faults → FilePersistence → Bytes → Files → Files × Result PersistenceError Unit
save_file faults p blob files =
    create_file faults (tmp_path p) files
    and_then write_all faults (tmp_path p) blob
    and_then sync_all faults
    and_then rename_file faults (tmp_path p) p.path

unfoldable pub load_file : Faults → FilePersistence → Files → Result PersistenceError (Option Bytes)
load_file faults p files = elim faults.read [
  | some e ↦ err (io e)
  | none ↦ ok (lookup p.path files)
]

abbrev pub file : Faults → FilePersistence → Persistence Files
file faults p = record { save = save_file faults p; load = load_file faults p }
