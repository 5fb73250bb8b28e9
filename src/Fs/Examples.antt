-- ===== src/Fs/Examples.antt =====
-- Runs of the file transactions on small projects.
use gonex.Common.{
  ℕ, zero, suc, String, List, [], ◌∷◌, Bool, true, false, Option, none, some, ◌≡◌, ◌≢◌, refl, All,
  if◌then◌else◌, arith, eq_iff, ◌||◌, sym, subst, ◌∙◌,
}
use gonex.Fs.Paths.{CleanPath, path_eq, clean_project_relative, joined, path_overlaps}
use gonex.Fs.Paths.Safety.{IsName, clean_project_relative_stays, clean_project_relative_again}
use gonex.Fs.Paths.Overlap.{is_within, path_overlaps_iff}
use gonex.Fs.Paths.Members.{IsOutside}
use gonex.Fs.Root.{
  Entry, file, backup_failed, install_failed, restore_failed, create_root_temp_dir,
  validate_root_path,
}
use gonex.Fs.Root.Memory.{Disk, memory_root, memory_root-IsLawful}
use gonex.Fs.Transaction.{Transaction, write, rollback}
use gonex.Fs.Transaction.Prepared.{IsPrepared, Written, write_stages}
use gonex.Fs.Commit.{rolled_back, published, commit}
use gonex.Fs.Commit.Whole.{IsApart}
use gonex.Fs.Commit.Atomic.{commit_rolls_back, commit_publishes}
use gonex.Fs.Outputs.{PreparedOutput, committed, run_pipeline}
use gonex.Fs.Outputs.Staging.{IsClear}
use gonex.Fs.Outputs.Published.{IsDone}
use gonex.Fs.Outputs.Runs.{pipeline_publishes, pipeline_fails, deferred_rollback_drops_backups}

cleaning : clean_project_relative "a/./x/../b//c.go" ≡ some ("a" ∷ "b" ∷ "c.go" ∷ [])
unfolding clean_project_relative
cleaning = refl

escaping : clean_project_relative "a/../../etc" ≡ none
unfolding clean_project_relative
escaping = refl

abbrev old_file : CleanPath → Option Entry
old_file q =
    if path_eq q ("old" ∷ [])
    then some (file "before")
    else if path_eq q ("gone" ∷ [])
    then some (file "unused")
    else none

abbrev project : List Bool → Disk
project faults = record { files = old_file; faults = faults }

abbrev random : ℕ → Option String
random n = some "00"

abbrev outputs : List PreparedOutput
outputs =
    record { path = "a/b.go"; content = "new"; is_delete = false }
    ∷ record { path = "./old"; content = "after"; is_delete = false }
    ∷ record { path = "gone"; content = ""; is_delete = true }
    ∷ []

abbrev prepared_files : CleanPath → Option Entry
prepared_files q =
    if path_eq q (".gx-stage-00" ∷ "old" ∷ []) then some (file "after") else old_file q

abbrev prepared_disk : List Bool → Disk
prepared_disk faults = record { files = prepared_files; faults = faults }

abbrev prepared : Transaction
prepared = record {
  stage = ".gx-stage-00";
  backup = none;
  deletes = ("gone" ∷ []) ∷ [];
  writes = ("old" ∷ []) ∷ [];
  is_open = true;
}

run_publishes :
    (run_pipeline memory_root random random outputs false (project [])).0 ≡ committed (published [])
unfolding run_pipeline create_root_temp_dir clean_project_relative validate_root_path joined
    path_overlaps
run_publishes = refl

commit_runs : (commit memory_root random prepared (prepared_disk [])).0 ≡ published []
unfolding commit create_root_temp_dir validate_root_path clean_project_relative joined
commit_runs = refl

abbrev failing_install : List Bool
failing_install = false ∷ false ∷ false ∷ false ∷ false ∷ false ∷ true ∷ []

abbrev failing_restore : List Bool
failing_restore = false ∷ false ∷ false ∷ false ∷ false ∷ false ∷ true ∷ false ∷ false ∷ true ∷ []

commit_takes_back :
    (commit memory_root random prepared (prepared_disk failing_install)).0
    ≡ rolled_back install_failed []
unfolding commit create_root_temp_dir validate_root_path clean_project_relative joined
commit_takes_back = refl

commit_cannot_take_back :
    (commit memory_root random prepared (prepared_disk failing_restore)).0
    ≡ rolled_back install_failed (restore_failed ∷ [])
unfolding commit create_root_temp_dir validate_root_path clean_project_relative joined
commit_cannot_take_back = refl

abbrev a_b : CleanPath
a_b = "a" ∷ "b" ∷ []

clean_project_relative_stays_example : (a_b ≢ []) × All IsName a_b
unfolding clean_project_relative
clean_project_relative_stays_example = clean_project_relative_stays "a/x/../b" ("a" ∷ "b" ∷ []) refl

clean_project_relative_again_example :
    clean_project_relative (joined ("a" ∷ "b" ∷ [])) ≡ some ("a" ∷ "b" ∷ [])
unfolding clean_project_relative
clean_project_relative_again_example = clean_project_relative_again "a/x/../b" ("a" ∷ "b" ∷ []) refl

names : All IsName ("a" ∷ "b" ∷ [])
unfolding clean_project_relative
names = (clean_project_relative_stays "a/b" ("a" ∷ "b" ∷ []) refl).1

path_overlaps_iff_example :
    path_overlaps ("a" ∷ "b" ∷ []) ("a" ∷ [])
    ≡ (is_within ("a" ∷ "b" ∷ []) ("a" ∷ []) || is_within ("a" ∷ []) ("a" ∷ "b" ∷ []))
path_overlaps_iff_example =
    path_overlaps_iff ("a" ∷ "b" ∷ []) ("a" ∷ []) (λ e. cc) (λ e. cc) names (names.0, tt)

prepared_IsPrepared : (faults : List Bool) → IsPrepared memory_root prepared (prepared_disk faults)
prepared_IsPrepared faults = record {
  writes = (refl, tt);
  deletes = (refl, tt);
  disjoint = (refl, tt);
  written_outside = (refl, tt);
  deleted_outside = (refl, tt);
  staged = ((λ e. cc), tt);
}

prepared_IsApart : IsApart memory_root prepared ".gx-backup-00"
prepared_IsApart = record {
  stage = (λ e. ground (arith, (eq_iff ".gx-stage-00" ".gx-backup-00").1 e));
  written = (refl, tt);
  deleted = (refl, tt);
}

commit_rolls_back_example :
    memory_root.view
      (commit memory_root random prepared (prepared_disk failing_install)).2
      ("old" ∷ [])
    ≡ some (file "before")
unfolding commit create_root_temp_dir validate_root_path clean_project_relative joined
commit_rolls_back_example =
    commit_rolls_back memory_root memory_root-IsLawful random prepared
      (prepared_disk failing_install) install_failed ("old" ∷ [])
      (prepared_IsPrepared failing_install) prepared_IsApart refl refl refl

commit_publishes_example :
    (memory_root.view (commit memory_root random prepared (prepared_disk [])).2 ("old" ∷ [])
      ≡ some (file "after"))
    × ((commit memory_root random prepared (prepared_disk [])).1.is_open ≡ false)
unfolding commit create_root_temp_dir validate_root_path clean_project_relative joined
commit_publishes_example =
    commit_publishes memory_root memory_root-IsLawful random prepared (prepared_disk []) []
      ("old" ∷ []) (prepared_IsPrepared []) prepared_IsApart refl refl refl

same_path : (p q : CleanPath) → some p ≡ some q → p ≡ q
same_path p q e = ground (arith, e)

abbrev nothing_yet : Transaction
nothing_yet = record {
  stage = ".gx-stage-00";
  backup = none;
  deletes = [];
  writes = [];
  is_open = true;
}

nothing_IsPrepared : IsPrepared memory_root nothing_yet (project [])
nothing_IsPrepared = record {
  writes = tt;
  deletes = tt;
  disjoint = tt;
  written_outside = tt;
  deleted_outside = tt;
  staged = tt;
}

clean-IsOutside :
    (relative folder : String) (names : CleanPath)
    → clean_project_relative relative ≡ some names
    → IsOutside folder names
    → (clean : CleanPath) → clean_project_relative relative ≡ some clean
    → IsOutside folder clean
clean-IsOutside relative folder names known out clean cleaned =
    subst (IsOutside folder) (same_path names clean (sym known ∙ cleaned)) out

write_stages_example :
    IsPrepared memory_root
      (write memory_root "./old" "after" 0 nothing_yet (project [])).1
      (write memory_root "./old" "after" 0 nothing_yet (project [])).2
    × (memory_root.view
          (write memory_root "./old" "after" 0 nothing_yet (project [])).2
          ("old" ∷ [])
        ≡ some (file "before"))
    × Written memory_root "./old" "after" nothing_yet
        (write memory_root "./old" "after" 0 nothing_yet (project []))
unfolding clean_project_relative
write_stages_example =
    write_stages memory_root memory_root-IsLawful "./old" "after" 0 nothing_yet (project [])
      ("old" ∷ []) nothing_IsPrepared
      (clean-IsOutside "./old" ".gx-stage-00" ("old" ∷ []) refl refl) refl

-- The system fails one call, after so many that it carries out.
abbrev fails_after : ℕ → List Bool
fails_after zero = true ∷ []
fails_after (suc n) = false ∷ fails_after n

run_fails :
    (run_pipeline memory_root random random outputs false (project (fails_after 35))).0
    ≡ committed (rolled_back backup_failed [])
unfolding run_pipeline create_root_temp_dir clean_project_relative validate_root_path joined
    path_overlaps
run_fails = refl

names_apart : ◌≢◌ {A = String} ".gx-stage-00" ".gx-backup-00"
names_apart e = ground (arith, (eq_iff ".gx-stage-00" ".gx-backup-00").1 e)

clear :
    (relative : String) (names : CleanPath)
    → clean_project_relative relative ≡ some names
    → IsOutside ".gx-stage-00" names
    → IsOutside ".gx-backup-00" names
    → (clean : CleanPath) → clean_project_relative relative ≡ some clean
    → IsOutside ".gx-stage-00" clean × IsOutside ".gx-backup-00" clean
clear relative names known out out' clean e = (
  clean-IsOutside relative ".gx-stage-00" names known out clean e,
  clean-IsOutside relative ".gx-backup-00" names known out' clean e,
)

outputs-IsClear : All (IsClear ".gx-stage-00" ".gx-backup-00") outputs
unfolding clean_project_relative
outputs-IsClear = (
  clear "a/b.go" ("a" ∷ "b.go" ∷ []) refl refl refl,
  (clear "./old" ("old" ∷ []) refl refl refl, (clear "gone" ("gone" ∷ []) refl refl refl, tt)),
)

pipeline_publishes_example :
    All
      (IsDone memory_root (run_pipeline memory_root random random outputs false (project [])).1)
      outputs
unfolding run_pipeline create_root_temp_dir clean_project_relative validate_root_path joined
    path_overlaps
pipeline_publishes_example =
    pipeline_publishes memory_root memory_root-IsLawful random random outputs false (project [])
      (record { apart = names_apart; clear = outputs-IsClear }) [] refl

pipeline_fails_example :
    memory_root.view
      (run_pipeline memory_root random random outputs false (project (fails_after 35))).1
      ("old" ∷ [])
    ≡ some (file "before")
unfolding run_pipeline create_root_temp_dir clean_project_relative validate_root_path joined
    path_overlaps
pipeline_fails_example =
    pipeline_fails memory_root memory_root-IsLawful random random outputs false
      (project (fails_after 35)) (record { apart = names_apart; clear = outputs-IsClear })
      ("old" ∷ []) refl refl refl

deferred_rollback_drops_backups_example :
    memory_root.view
      (rollback memory_root
        (commit memory_root random prepared (prepared_disk failing_restore)).1
        (commit memory_root random prepared (prepared_disk failing_restore)).2).2
      (".gx-backup-00" ∷ "old" ∷ [])
    ≡ none
unfolding commit create_root_temp_dir validate_root_path clean_project_relative joined rollback
deferred_rollback_drops_backups_example =
    deferred_rollback_drops_backups memory_root memory_root-IsLawful random prepared
      (prepared_disk failing_restore) install_failed (restore_failed ∷ []) ("old" ∷ []) refl refl
