-- ===== src/Persistence/Atomic.antt =====
-- The crash safety of the file backend, crates/logdrain/src/persistence.rs.
use logdrain.Common.{
  [], some, ◌≡◌, ◌≢◌, ◌⊎◌, inl, inr, ap, codes, ok, err, length, length-append, list_eq, nat_eq,
  ◌∙◌, arith, Option-cases,
}
use logdrain.Common.Assoc.{lookup, insert, remove, lookup-insert_self, lookup-insert_ne}
use logdrain.Errors.{PersistenceError, io}
use logdrain.Persistence.{
  Faults, FilePersistence, Files, tmp_path, create_file, write_all, sync_all, rename_file,
  save_file,
}
use logdrain.Snapshot.{Bytes}

path-tmp_path : (p : FilePersistence) → tmp_path p ≢ p.path
path-tmp_path p e = absurd (omega (arith, ap length e, length-append p.path (codes ".tmp")))

module _ (faults : Faults) (p : FilePersistence) (blob : Bytes) (files : Files) where
  lookup-rename_file :
      (before : Files)
      → lookup (tmp_path p) before ≡ some blob
      → ((rename_file faults (tmp_path p) p.path before).1 ≡ ok tt)
          × (lookup p.path (rename_file faults (tmp_path p) p.path before).0 ≡ some blob)
        ⊎ (e : PersistenceError) × ((rename_file faults (tmp_path p) p.path before).1 ≡ err e)
          × ((rename_file faults (tmp_path p) p.path before).0 ≡ before)
  unfolding rename_file
  lookup-rename_file before h = elim (Option-cases faults.rename) [
    | inl n ↦
        inl (
          ground arith,
          ground (arith, lookup-insert_self p.path blob (remove (tmp_path p) before)),
        )
    | inr (e, q) ↦ inr (io e, ground arith, ground arith)
  ]

  untouched :
      (content : Bytes) (before : Files)
      → lookup p.path (insert (tmp_path p) content before) ≡ lookup p.path before
  untouched content before = lookup-insert_ne (tmp_path p) p.path content before (path-tmp_path p)

  -- Whichever calls of the operating system fail, and however much of the blob a failed write leaves:
  -- either `save` succeeds and the file holds the blob, or it returns an error and the file holds what
  -- it held before.
  pub save_file-atomic :
      ((save_file faults p blob files).1 ≡ ok tt)
        × (lookup p.path (save_file faults p blob files).0 ≡ some blob)
      ⊎ (e : PersistenceError) × ((save_file faults p blob files).1 ≡ err e)
        × (lookup p.path (save_file faults p blob files).0 ≡ lookup p.path files)
  unfolding save_file create_file write_all sync_all rename_file
  save_file-atomic = elim (Option-cases faults.create) [
    | inr (e, q) ↦ inr (io e, rw (q, create_file), rw (q, create_file))
    | inl c ↦ elim (Option-cases faults.write) [
      | inr (e, q) ↦ inr (io e, rw (c, q), rw (c, q) (untouched _ _ ∙ untouched _ _))
      | inl w ↦ elim (Option-cases faults.sync) [
        | inr (e, q) ↦ inr (io e, rw (c, w, q), rw (c, w, q) (untouched _ _ ∙ untouched _ _))
        | inl s ↦
            elim (lookup-rename_file (insert (tmp_path p) blob (insert (tmp_path p) [] files))
              (lookup-insert_self (tmp_path p) blob (insert (tmp_path p) [] files))) [
                | inl (done, stored) ↦ inl (rw (c, w, s) done, rw (c, w, s) stored)
                | inr (e, failed, same) ↦
                    inr (e, rw (c, w, s) failed, rw (c, w, s, same) (untouched _ _ ∙ untouched _ _))
              ]
      ]
    ]
  ]
