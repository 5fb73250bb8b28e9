-- ===== src/Fs/Root/Memory.antt =====
-- A root in memory that meets the laws: files by their paths, every directory being there, and the calls
-- that the system lets fail, true for a failure.
use gonex.Common.{List, [], ◌∷◌, Bool, true, false, Option, none, some, refl, arith, if◌then◌else◌}
use gonex.Fs.Paths.{CleanPath, path_eq}
use gonex.Fs.Paths.Overlap.{path_eq_iff, is_within}
use gonex.Fs.Paths.Members.{path_eq_refl}
use gonex.Fs.Root.{
  Info, missing, inspect_failed, other, made, mkdir_failed, removed, absent, remove_failed, Entry,
  file, Root, IsLawful,
}

pub record Disk : Type 0 where
  pub files : CleanPath → Option Entry
  pub faults : List Bool

abbrev fails : Disk → Bool
fails d = elim d.faults [ [] ↦ false | b ∷ _ ↦ b ]

abbrev next : Disk → Disk
next d = record d { faults = elim d.faults [ [] ↦ [] | _ ∷ rest ↦ rest ] }

abbrev set : Disk → CleanPath → Option Entry → Disk
set d p e = record (next d) { files = λ q. if path_eq q p then e else d.files q }

abbrev move : Disk → CleanPath → CleanPath → Disk
move d old new = record (next d) {
  files = λ q. if path_eq q new then d.files old else if path_eq q old then none else d.files q;
}

abbrev info_of : Option Entry → Info
info_of none = missing
info_of (some e) = other

abbrev pub memory_root : Root
memory_root = record {
  State = Disk;
  view = λ d. d.files;
  lstat = λ d p. (if fails d then inspect_failed else info_of (d.files p), next d);
  mkdir = λ d name. (if fails d then mkdir_failed else made, next d);
  mkdir_all = λ d p. (if fails d then false else true, next d);
  rename = λ d old new.
      if fails d
      then (false, next d)
      else elim (d.files old) [ none ↦ (false, next d) | some e ↦ (true, move d old new) ];
  remove = λ d p.
      if fails d
      then (remove_failed, next d)
      else elim (d.files p) [ none ↦ (absent, next d) | some e ↦ (removed, set d p none) ];
  remove_all = λ d p.
      if fails d
      then (false, next d)
      else (true, record (next d) { files = λ q. if is_within p q then none else d.files q });
  open_file =
      λ d p permission. if fails d then (false, next d) else (true, set d p (some (file "")));
  write = λ d p content. if fails d then (false, next d) else (true, set d p (some (file content)));
  sync = λ d p. (if fails d then false else true, next d);
  close_file = λ d p. (if fails d then false else true, next d);
  close = λ d. (if fails d then false else true, next d);
}

pub memory_root-IsLawful : IsLawful memory_root
memory_root-IsLawful = record {
  lstat-view = λ d p q. refl;
  lstat-missing = λ d p e. ground arith;
  lstat-other = λ d p e. ground arith;
  lstat-symlink = λ d p e. ground arith;
  mkdir-view = λ d name q. refl;
  mkdir_all-view = λ d p q. refl;
  rename-view = λ d old new q stood ok. ground arith;
  rename_failed = λ d old new q failed. ground arith;
  remove-view = λ d p q e. ground arith;
  remove-absent = λ d p q e. ground (arith, path_eq_iff q p);
  remove_all-view = λ d p q out. ground arith;
  remove_all-gone = λ d p q within ok. ground arith;
  open_file-view = λ d p permission ok. ground (arith, path_eq_refl p);
  open_file-other = λ d p permission q differ. ground arith;
  write-view = λ d p content empty ok. ground (arith, path_eq_refl p);
  write-other = λ d p content q differ. ground arith;
  sync-view = λ d p q. refl;
  close_file-view = λ d p q. refl;
  close-view = λ d q. refl;
}
