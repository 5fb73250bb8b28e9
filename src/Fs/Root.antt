-- ===== src/Fs/Root.antt =====
-- os.Root, an open directory whose calls the operating system answers: their signatures over an unknown
-- state, and what its documentation promises of them. And the functions of
-- gx/internal/gen/fs/path.go that call it: validateRootPath and createRootTempDir.
pub mod Memory
use Prim.Native.String
use gonex.Common.{
  Option-cases, inl, inr, refl, arith, ℕ, zero, suc, String, List, [], ◌∷◌, ◌++◌, Bool, true, false,
  Option, none, some, ◌≡◌, ◌≢◌, ◌||◌, not, if◌then◌else◌, is_empty,
}
use gonex.Fs.Paths.{CleanPath, path_eq, clean_project_relative, joined}
use gonex.Fs.Paths.Overlap.{is_within}

-- What os.Lstat finds at a path, of its mode what the code reads, or the error, of which the code
-- reads os.IsNotExist.
pub data Info : Type 0 where
  missing inspect_failed symlink directory other : Info

-- The answer of Mkdir.
pub data Made : Type 0 where
  made exists mkdir_failed : Made

-- The answer of Remove, of whose error the code reads os.IsNotExist.
pub data Removed : Type 0 where
  removed absent remove_failed : Removed

-- What stands at a path and is no directory: a file with its content, or anything else.
pub data Entry : Type 0 where
  file : String → Entry
  special : ℕ → Entry

-- Where a call has only an error to give, true says that the error is nil.
pub record Root : Type 1 where
  pub State : Type 0
  -- What stands at a path, directories left out: not a call, but what the laws speak of.
  pub view : State → CleanPath → Option Entry
  pub lstat : State → CleanPath → Info × State
  pub mkdir : State → String → Made × State
  pub mkdir_all : State → CleanPath → Bool × State
  pub rename : State → CleanPath → CleanPath → Bool × State
  pub remove : State → CleanPath → Removed × State
  pub remove_all : State → CleanPath → Bool × State
  pub open_file : State → CleanPath → ℕ → Bool × State
  pub write : State → CleanPath → String → Bool × State
  pub sync : State → CleanPath → Bool × State
  pub close_file : State → CleanPath → Bool × State
  pub close : State → Bool × State

-- What the documentation promises while no other process writes below the root and no path leads
-- through a symbolic link, which validateRootPath looks for. A call may fail at any time; a failed
-- Rename or Remove has done nothing, a failed RemoveAll may have removed a part.
pub record IsLawful (R : Root) : Type 0 where
  pub lstat-view : (s : R.State) (p q : CleanPath) → R.view (R.lstat s p).1 q ≡ R.view s q
  pub lstat-missing : (s : R.State) (p : CleanPath) → (R.lstat s p).0 ≡ missing → R.view s p ≡ none
  pub lstat-other : (s : R.State) (p : CleanPath) → (R.lstat s p).0 ≡ other → R.view s p ≢ none
  pub lstat-symlink : (s : R.State) (p : CleanPath) → (R.lstat s p).0 ≡ symlink → R.view s p ≢ none
  pub mkdir-view :
      (s : R.State) (name : String) (q : CleanPath) → R.view (R.mkdir s name).1 q ≡ R.view s q
  pub mkdir_all-view : (s : R.State) (p q : CleanPath) → R.view (R.mkdir_all s p).1 q ≡ R.view s q
  -- of anything but a directory
  pub rename-view :
      (s : R.State) (old new q : CleanPath)
      → R.view s old ≢ none
      → (R.rename s old new).0 ≡ true
      → R.view (R.rename s old new).1 q
        ≡ (if path_eq q new then R.view s old else if path_eq q old then none else R.view s q)
  pub rename_failed :
      (s : R.State) (old new q : CleanPath)
      → (R.rename s old new).0 ≡ false
      → R.view (R.rename s old new).1 q ≡ R.view s q
  pub remove-view :
      (s : R.State) (p q : CleanPath)
      → (R.remove s p).0 ≡ removed
      → R.view (R.remove s p).1 q ≡ (if path_eq q p then none else R.view s q)
  pub remove-absent :
      (s : R.State) (p q : CleanPath)
      → (R.remove s p).0 ≡ absent
      → R.view (R.remove s p).1 q ≡ (if path_eq q p then none else R.view s q)
  pub remove_all-view :
      (s : R.State) (p q : CleanPath)
      → is_within p q ≡ false
      → R.view (R.remove_all s p).1 q ≡ R.view s q
  pub remove_all-gone :
      (s : R.State) (p q : CleanPath)
      → is_within p q ≡ true
      → (R.remove_all s p).0 ≡ true
      → R.view (R.remove_all s p).1 q ≡ none
  -- O_CREATE and O_TRUNC
  pub open_file-view :
      (s : R.State) (p : CleanPath) (permission : ℕ)
      → (R.open_file s p permission).0 ≡ true
      → R.view (R.open_file s p permission).1 p ≡ some (file "")
  pub open_file-other :
      (s : R.State) (p : CleanPath) (permission : ℕ) (q : CleanPath)
      → path_eq q p ≡ false
      → R.view (R.open_file s p permission).1 q ≡ R.view s q
  -- of a file just opened
  pub write-view :
      (s : R.State) (p : CleanPath) (content : String)
      → R.view s p ≡ some (file "")
      → (R.write s p content).0 ≡ true
      → R.view (R.write s p content).1 p ≡ some (file content)
  pub write-other :
      (s : R.State) (p : CleanPath) (content : String) (q : CleanPath)
      → path_eq q p ≡ false
      → R.view (R.write s p content).1 q ≡ R.view s q
  pub sync-view : (s : R.State) (p q : CleanPath) → R.view (R.sync s p).1 q ≡ R.view s q
  pub close_file-view : (s : R.State) (p q : CleanPath) → R.view (R.close_file s p).1 q ≡ R.view s q
  pub close-view : (s : R.State) (q : CleanPath) → R.view (R.close s).1 q ≡ R.view s q

-- The errors of the package, by what they report.
pub data Failure : Type 0 where
  transaction_closed escapes_root inspect contains_symlink non_directory_parent : Failure
  conflicts_with_delete conflicts_with_write existing_directory : Failure
  no_entropy no_directory no_unique_name : Failure
  staging_failed backup_failed install_failed restore_failed cleanup_failed : Failure

-- filepath.Join(parent, path), of clean paths
abbrev pub join : String → CleanPath → CleanPath
join parent path = parent ∷ path

-- filepath.Dir of a path with a name; "." is the empty list
abbrev pub dir : CleanPath → CleanPath
dir [] = []
dir (name ∷ []) = []
dir (name ∷ next ∷ names) = name ∷ dir (next ∷ names)

module _ (R : Root) where
  -- The loop of validateRootPath over `parts`, at `current`.
  unfoldable pub validate_parts : CleanPath → CleanPath → R.State → Option Failure × R.State
  validate_parts current [] s = (none, s)
  validate_parts current (part ∷ parts) s =
      let next = current ++ part ∷ [] in
      let (info, s1) = R.lstat s next in
      let rest = validate_parts next parts s1 in
      elim info [
        | missing ↦ (none, s1)
        | inspect_failed ↦ (some inspect, s1)
        | symlink ↦ (some contains_symlink, s1)
        | directory ↦ rest
        | other ↦ if not (is_empty parts) then (some non_directory_parent, s1) else rest
      ]

  -- validateRootPath
  unfoldable pub validate_root_path : R.State → CleanPath → Option Failure × R.State
  unfolding validate_parts
  validate_root_path s relative = elim (clean_project_relative (joined relative)) [
    | none ↦ (some escapes_root, s)
    | some clean ↦ validate_parts [] clean s
  ]

  -- The loop of createRootTempDir, for the bytes that rand.Read gives in each round, in
  -- hexadecimal, or its error.
  unfoldable pub create_dir_loop :
      ℕ → (ℕ → Option String) → String → R.State → Option Failure × String × R.State
  create_dir_loop zero entropy prefix s = (some no_unique_name, "", s)
  create_dir_loop (suc tries) entropy prefix s = elim (entropy tries) [
    | none ↦ (some no_entropy, "", s)
    | some hex ↦
        let name = String.◌++◌ prefix hex in
        let (answer, s1) = R.mkdir s name in
        let rest = create_dir_loop tries entropy prefix s1 in
        elim answer [
          | made ↦ (none, name, s1)
          | exists ↦ rest
          | mkdir_failed ↦ (some no_directory, "", s1)
        ]
  ]

  -- createRootTempDir, of 100 rounds
  unfoldable pub create_root_temp_dir :
      (ℕ → Option String) → String → R.State → Option Failure × String × R.State
  unfolding create_dir_loop
  create_root_temp_dir entropy prefix s = create_dir_loop 100 entropy prefix s

module _ (R : Root) (L : IsLawful R) where
  validate_parts-view :
      (current parts : CleanPath) (s : R.State) (q : CleanPath)
      → R.view (validate_parts R current parts s).1 q ≡ R.view s q
  unfolding validate_parts
  validate_parts-view current [] s q = refl
  validate_parts-view current (part ∷ parts) s q = ground (
    arith,
    L.lstat-view s (current ++ part ∷ []) q,
    validate_parts-view (current ++ part ∷ []) parts (R.lstat s (current ++ part ∷ [])).1 q,
  )

  -- Looking changes nothing.
  pub validate_root_path-view :
      (s : R.State) (p q : CleanPath) → R.view (validate_root_path R s p).1 q ≡ R.view s q
  unfolding validate_root_path
  validate_root_path-view s p q = elim (Option-cases (clean_project_relative (joined p))) [
    | inl e ↦ rw (e, validate_root_path) refl
    | inr (clean, e) ↦ rw (e, validate_root_path) (validate_parts-view [] clean s q)
  ]

  create_dir_loop-view :
      (tries : ℕ) (entropy : ℕ → Option String) (prefix : String) (s : R.State) (q : CleanPath)
      → R.view (create_dir_loop R tries entropy prefix s).2 q ≡ R.view s q
  unfolding create_dir_loop
  create_dir_loop-view zero entropy prefix s q = refl
  create_dir_loop-view (suc tries) entropy prefix s q = elim (Option-cases (entropy tries)) [
    | inl e ↦ rw (e, create_dir_loop) refl
    | inr (hex, e) ↦ ground (
      arith,
      e,
      L.mkdir-view s (String.◌++◌ prefix hex) q,
      create_dir_loop-view tries entropy prefix (R.mkdir s (String.◌++◌ prefix hex)).1 q,
    )
  ]

  pub create_root_temp_dir-view :
      (entropy : ℕ → Option String) (prefix : String) (s : R.State) (q : CleanPath)
      → R.view (create_root_temp_dir R entropy prefix s).2 q ≡ R.view s q
  unfolding create_root_temp_dir
  create_root_temp_dir-view = create_dir_loop-view 100
