-- ===== src/Scheduler/Manager/Commit.antt =====
-- What a successful `Replace` of scheduler/scheduler.go commits.
use gonex.Common.{
  ℕ, String, ◌≡◌, ◌≢◌, refl, ap, subst, ◌∙◌, Bool, true, false, not, Option, none, some, arith,
  eq_iff, is_empty, if_cases, option_cases,
}
use gonex.Common.Dict
use gonex.Common.Dict.{Dict, get-put}
use text.Mathlib.TextPositions.{eq_refl}
use gonex.Scheduler.Overlap.{OverlapGate, set_policy}
use gonex.Scheduler.Job.{Job, validate_job, clone_job}
use gonex.Scheduler.Engine.{Engine}
use gonex.Scheduler.Manager.{
  Err, JobRecord, Manager, publish, deactivate, put_job, new_job_record, runnable,
}
use gonex.Scheduler.Manager.Operations.{
  is_stopped, install_locked, remove_engine_jobs_locked, commit_replace, replace_checked, replace,
}
use gonex.Scheduler.Manager.Atomic.{
  face, face-install_locked, rest-install_locked, face-remove_locked, rest-remove_locked,
}

-- `job` has taken the place of `old`: a new record at the gate of the old one, the old one retired.
pub record IsReplaced {E : Type 0} (job : Job) (old : JobRecord) (m m' : Manager E) : Type 0 where
  pub new : JobRecord
  pub listed : Dict.get m'.jobs job.name ≡ some new
  pub others : (n : String) → n ≢ job.name → Dict.get m'.jobs n ≡ Dict.get m.jobs n
  pub faced : face new ≡ (m.next_token, job, old.gate)
  pub runs : runnable new.token m' ≡ some true
  pub retired : (m'.publications old.token).active ≡ false
  pub gate : m'.gates old.gate ≡ set_policy job.overlap_policy (m.gates old.gate)

module _ (engine : Engine) where
  commit_replace-IsReplaced :
      (job : Job) (old gone r : JobRecord) (m m' : Manager engine.State)
      → old.token ≢ m.next_token
      → face r ≡ (m.next_token, job, old.gate)
      → face gone ≡ face old
      → m'.jobs ≡ m.jobs
      → m'.gates ≡ m.gates
      → (m'.started ≡ false → (m'.publications m.next_token).active ≡ true)
      → IsReplaced job old m (commit_replace engine job gone r m')
  unfolding commit_replace deactivate publish put_job runnable
  commit_replace-IsReplaced job old gone r m m' distinct fr fg jobs gates published = record {
    new = r;
    listed = ground (arith, get-put m'.jobs job.name job.name r, eq_refl job.name);
    others = λ n other. ground (
      arith,
      get-put m'.jobs job.name n r,
      eq_iff job.name n,
      ap (λ (d : Dict JobRecord). Dict.get d n) jobs,
    );
    faced = fr;
    runs = ground arith;
    retired = ground arith;
    gate = ground (arith, ap (λ (g : ℕ → OverlapGate). g old.gate) gates);
  }

  rest-new_job_record :
      (job : Job) (gate : ℕ) (b : Bool) (m : Manager engine.State)
      → (face (new_job_record job gate b m).0 ≡ (m.next_token, job, gate))
        × ((new_job_record job gate b m).1.jobs ≡ m.jobs)
        × ((new_job_record job gate b m).1.gates ≡ m.gates)
        × ((new_job_record job gate b m).1.started ≡ m.started)
        × ((b ≡ true) → ((new_job_record job gate b m).1.publications m.next_token).active ≡ true)
  unfolding new_job_record publish
  rest-new_job_record job gate b m = ground arith

  -- What a result of `Replace` without an error says.
  abbrev Commits :
      Job → JobRecord → Manager engine.State → Option Err × Manager engine.State → Type 0
  Commits job old m result = result.0 ≡ none → IsReplaced job old m result.1

  replace_checked-IsReplaced :
      (job : Job) (old : JobRecord) (m : Manager engine.State)
      → old.token ≢ m.next_token
      → Commits job old m (replace_checked engine job old m)
  unfolding replace_checked
  replace_checked-IsReplaced job old m distinct =
      let (r, m1) = new_job_record job old.gate (not m.started) m in
      let (e, new, m2) = install_locked engine r m1 in
      let (errors, gone, m3) = remove_engine_jobs_locked engine old m2 in
      let (face1, jobs1, gates1, started1, published) =
        rest-new_job_record job old.gate (not m.started) m in
      let (jobs2, publications2, gates2, started2) = rest-install_locked engine r m1 in
      let (jobs3, publications3, gates3, started3) = rest-remove_locked engine old m2 in
      if_cases (Commits job old m) m.started _ _
        (λ running.
          option_cases (Commits job old m) e _ _ (λ x err h. cc)
            (λ fine.
              if_cases (Commits job old m) (is_empty errors) _ _
                (λ done _.
                  commit_replace-IsReplaced job old gone new m m3 distinct
                    (face-install_locked engine r m1 ∙ face1) (face-remove_locked engine old m2)
                    (jobs3 ∙ jobs2 ∙ jobs1) (gates3 ∙ gates2 ∙ gates1)
                    (λ off. cc (off, started3, started2, started1, running)))
                (λ stuck h. cc)))
        (λ off _.
          commit_replace-IsReplaced job old old r m m1 distinct face1 refl jobs1 gates1
            (λ _. published (ground arith)))

  -- A `Replace` that returns nil has put the new definition in the place of the old one, and only
  -- there: under a new token that may run, at the gate of the old record, which keeps its executions
  -- and its queue and takes the new policy, while the old token may not run any more.
  pub replace_commits :
      (now : ℕ) (job : Job) (old : JobRecord) (m : Manager engine.State)
      → Dict.get m.jobs (clone_job job).name ≡ some old
      → old.token ≢ m.next_token
      → (replace engine now job m).0 ≡ none
      → IsReplaced (clone_job job) old m (replace engine now job m).1
  unfolding replace
  replace_commits now job old m found distinct =
      let job' = clone_job job in
      let P = Commits job' old m in
      option_cases P (validate_job engine.cron_error now job') _ _ (λ _ _ h. cc)
        (λ valid.
          if_cases P (is_stopped m) _ _ (λ _ h. cc)
            (λ live.
              option_cases P (Dict.get m.jobs job'.name) _ _
                (λ old' found'.
                  subst (λ o. P (replace_checked engine job' o m)) (same old' found')
                    (replace_checked-IsReplaced job' old m distinct))
                (λ _ h. cc)))
    where
      same : (old' : JobRecord) → Dict.get m.jobs (clone_job job).name ≡ some old' → old ≡ old'
      same old' found' = cc
