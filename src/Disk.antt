-- ===== src/Disk.antt =====
-- What crates/weave-graph-hub/src/registry.rs uses of `std::fs`: the files of one directory, by
-- name. An operation fails where its file is missing, and only there.
use weave_graph.Common.{ℕ, Text, List, Option, none, some, list_eq, nat_eq, lookup, put, erase}

pub record File : Type 0 where
  pub bytes : Text
  -- The time of the last write, which a rename keeps.
  pub modified : ℕ

abbrev pub Dir : Type 0
Dir = List (Text × File)

abbrev pub read : Dir → Text → Option Text
read dir name = elim (lookup dir name) [ none ↦ none | some file ↦ some file.bytes ]

abbrev pub write : ℕ → Dir → Text → Text → Dir
write now dir name bytes = put dir name (record { bytes = bytes; modified = now })

abbrev pub remove_file : Dir → Text → Dir
remove_file dir name = erase dir name

-- `fs::rename`: `none` if the file is missing. A file of the new name is replaced.
abbrev pub rename : Dir → Text → Text → Option Dir
rename dir from to = elim (lookup dir from) [
  | none ↦ none
  | some file ↦ some (put (erase dir from) to file)
]

-- `fs::write` of a temporary file and then `fs::rename`: the temporary file is gone in the end.
abbrev pub replace_file : ℕ → Dir → Text → Text → Text → Dir
replace_file now dir tmp name bytes =
    put (erase dir tmp) name (record { bytes = bytes; modified = now })
