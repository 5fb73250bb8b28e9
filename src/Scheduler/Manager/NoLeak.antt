-- ===== src/Scheduler/Manager/NoLeak.antt =====
-- No operation of scheduler/scheduler.go loses an engine job.
use gonex.Common.{
  ℕ, String, ◌≡◌, refl, sym, ap, ◌∙◌, ◌⊎◌, inl, inr, Bool, true, false, not, ◌||◌, none, some, [],
  ◌∷◌, ◌++◌, arith, is_empty, Option-cases, Bool-cases,
}
use gonex.Common.Dict
use gonex.Common.Dict.{Dict}
use gonex.Scheduler.Job.{Job, validate_job, clone_job}
use gonex.Scheduler.Engine.{Handle, Engine, IsLawful}
use gonex.Scheduler.Manager.{
  JobRecord, Manager, publish, abort, deactivate, put_job, new_job_record, new_overlap_gate,
}
use gonex.Scheduler.Manager.Operations.{
  is_stopped, install_locked, remove_engine_jobs_locked, add_checked, add, adopt, commit_replace,
  replace_checked, replace, remove_found, remove,
}
use gonex.Scheduler.Manager.Handles.{owns, holds-append}
use gonex.Scheduler.Manager.Ownership.{
  InEngine, IsOwned, install_locked-owns, jobs-install_locked, remove_locked-keeps,
  remove_locked_empty, jobs-remove_locked, keep-IsOwned, put_new-IsOwned, put_old-IsOwned,
  remove-IsOwned_lem, IsOwned-if, IsOwned-elim, publish-IsOwned, abort-IsOwned,
  new_overlap_gate-IsOwned, new_job_record-IsOwned, jobs-new_job_record, jobs-new_overlap_gate,
  install_failed,
}

-- `adopt` gives the record that stays all the jobs of the replacement.
owns-adopt :
    (old left : JobRecord) (k : Handle) → owns (adopt old left) k ≡ (owns old k || owns left k)
owns-adopt old left k = elim (Option-cases left.inner) [
  | inl e ↦
      ground (arith, holds-append (old.cleanup ++ []) left.cleanup k, holds-append old.cleanup [] k)
  | inr (h, e) ↦ ground (
    arith,
    holds-append (old.cleanup ++ h ∷ []) left.cleanup k,
    holds-append old.cleanup (h ∷ []) k,
  )
]

module _ (engine : Engine) (laws : IsLawful engine) where
  add_checked-IsOwned :
      (job : Job) (m : Manager engine.State)
      → Dict.get m.jobs job.name ≡ none
      → IsOwned engine laws m
      → IsOwned engine laws (add_checked engine job m).1
  unfolding add_checked
  add_checked-IsOwned job m fresh v =
      let (gate, m1) = new_overlap_gate job m in
      let (r, m2) = new_job_record job gate (not m.started) m1 in
      let (e, r', m3) = install_locked engine r m2 in
      let v2 =
        new_job_record-IsOwned engine laws job gate (not m.started) m1
          (new_overlap_gate-IsOwned engine laws job m v) in
      let same =
        jobs-new_job_record engine laws job gate (not m.started) m1
        ∙ jobs-new_overlap_gate engine laws job m in
      let fresh2 = ap (λ (d : Dict JobRecord). Dict.get d job.name) same ∙ fresh in
      IsOwned-if engine laws m.started _ _
        (λ running.
          IsOwned-elim engine laws e _ _
            (λ x err. abort-IsOwned engine laws r.token m3 (
              keep-IsOwned engine laws m2 m3 (jobs-install_locked engine laws r m2) v2
                (install_failed engine laws r m2 err)))
            (λ fine. publish-IsOwned engine laws r.token _ (
              put_new-IsOwned engine laws m2 m3 (jobs-install_locked engine laws r m2) v2 job.name
                r' fresh2
                (λ k h. elim (install_locked-owns engine laws r m2 k h) [
                  | inl before ↦ inl before
                  | inr (_, owner) ↦ inr owner
                ]))))
        (λ idle. put_new-IsOwned engine laws m2 m2 refl v2 job.name r fresh2 (λ k h. inl h))

  alike-IsOwned :
      (m m' : Manager engine.State)
      → m'.inner ≡ m.inner
      → m'.jobs ≡ m.jobs
      → IsOwned engine laws m
      → IsOwned engine laws m'
  alike-IsOwned m m' inner jobs v =
      keep-IsOwned engine laws m m' jobs v (λ k h. (h.0, sym inner ∙ h.1, h.2))

  commit_replace-IsOwned :
      (job : Job) (old gone r : JobRecord) (m m' : Manager engine.State)
      → m'.jobs ≡ m.jobs
      → IsOwned engine laws m
      → Dict.get m.jobs job.name ≡ some old
      → ((k : Handle)
          → InEngine engine laws m' k
          → (InEngine engine laws m k × (owns old k ≡ true → owns r k ≡ true)) ⊎ (owns r k ≡ true))
      → IsOwned engine laws (commit_replace engine job gone r m')
  unfolding commit_replace deactivate publish put_job
  commit_replace-IsOwned job old gone r m m' same v found before =
      alike-IsOwned (put_job job.name r m') (commit_replace engine job gone r m') (ground arith)
        (ground arith) (put_old-IsOwned engine laws m m' same v job.name old r found before)

  -- Replace in a running manager, from the installation of the replacement `r` on: the commit.
  replaced-IsOwned :
      (job : Job) (old r : JobRecord) (m : Manager engine.State)
      → Dict.get m.jobs job.name ≡ some old
      → IsOwned engine laws m
      → let (e, new, m2) = install_locked engine r m in
        let (errors, old', m3) = remove_engine_jobs_locked engine old m2 in
        is_empty errors ≡ true → IsOwned engine laws (commit_replace engine job old' new m3)
  replaced-IsOwned job old r m found v done =
      let (e, new, m2) = install_locked engine r m in
      let (errors, old', m3) = remove_engine_jobs_locked engine old m2 in
      commit_replace-IsOwned job old old' new m m3
        (jobs-remove_locked engine laws old m2 ∙ jobs-install_locked engine laws r m) v found
        (λ k h.
          let (before, kept) = remove_locked-keeps engine laws old m2 k h in
          let free = remove_locked_empty engine laws old m2 k h done in
          elim (install_locked-owns engine laws r m k before) [
            | inl here ↦ inl (here, λ o. cc (kept o, free))
            | inr (_, o) ↦ inr o
          ])

  -- And the way back, where the old record adopts what is left of the replacement.
  restored-IsOwned :
      (job : Job) (old r : JobRecord) (t : ℕ) (m : Manager engine.State)
      → Dict.get m.jobs job.name ≡ some old
      → IsOwned engine laws m
      → let (e, new, m2) = install_locked engine r m in
        let (errors, old', m3) = remove_engine_jobs_locked engine old m2 in
        let (cleanup_errors, left, m4) = remove_engine_jobs_locked engine new (abort t m3) in
        IsOwned engine laws (put_job job.name (adopt old' left) m4)
  unfolding abort
  restored-IsOwned job old r t m found v =
      let (e, new, m2) = install_locked engine r m in
      let (errors, old', m3) = remove_engine_jobs_locked engine old m2 in
      let (cleanup_errors, left, m4) = remove_engine_jobs_locked engine new (abort t m3) in
      put_old-IsOwned engine laws m m4
        (jobs-remove_locked engine laws new (abort t m3)
          ∙ jobs-remove_locked engine laws old m2
          ∙ jobs-install_locked engine laws r m)
        v job.name old (adopt old' left) found
        (λ k h.
          let (aborted, kept_new) = remove_locked-keeps engine laws new (abort t m3) k h in
          let (before, kept_old) = remove_locked-keeps engine laws old m2 k aborted in
          let both = owns-adopt old' left k in
          elim (install_locked-owns engine laws r m k before) [
            | inl here ↦ inl (here, λ o. let o' = kept_old o in ground arith)
            | inr (_, o) ↦ inr (let o' = kept_new o in ground arith)
          ])

  inner-new_job_record :
      (job : Job) (gate : ℕ) (b : Bool) (m : Manager engine.State)
      → (new_job_record job gate b m).1.inner ≡ m.inner
  unfolding new_job_record publish
  inner-new_job_record job gate b m = ground arith

  replace_checked-IsOwned :
      (job : Job) (old : JobRecord) (m : Manager engine.State)
      → Dict.get m.jobs job.name ≡ some old
      → (m.started ≡ false → m.inner ≡ none)
      → IsOwned engine laws m
      → IsOwned engine laws (replace_checked engine job old m).1
  unfolding replace_checked
  replace_checked-IsOwned job old m found idle v =
      let (r, m1) = new_job_record job old.gate (not m.started) m in
      let (e, r', m2) = install_locked engine r m1 in
      let errors = (remove_engine_jobs_locked engine old m2).0 in
      let v1 = new_job_record-IsOwned engine laws job old.gate (not m.started) m v in
      let same = jobs-new_job_record engine laws job old.gate (not m.started) m in
      let found1 = ap (λ (d : Dict JobRecord). Dict.get d job.name) same ∙ found in
      IsOwned-if engine laws m.started _ _
        (λ running.
          IsOwned-elim engine laws e _ _
            (λ x err. abort-IsOwned engine laws r.token m2 (
              keep-IsOwned engine laws m1 m2 (jobs-install_locked engine laws r m1) v1
                (install_failed engine laws r m1 err)))
            (λ fine.
              IsOwned-if engine laws (is_empty errors) _ _
                (λ done. replaced-IsOwned job old r m1 found1 v1 done)
                (λ stuck. restored-IsOwned job old r r.token m1 found1 v1)))
        (λ off.
          commit_replace-IsOwned job old old r m1 m1 refl v1 found1
            (λ k h. cc (idle off, inner-new_job_record job old.gate (not m.started) m, h.1)))

  remove_found-IsOwned :
      (name : String) (r : JobRecord) (m : Manager engine.State)
      → Dict.get m.jobs name ≡ some r
      → (m.started ≡ false → m.inner ≡ none)
      → IsOwned engine laws m
      → IsOwned engine laws (remove_found engine name r m).1
  unfolding remove_found deactivate
  remove_found-IsOwned name r m found idle v =
      let (errors, r', m') = remove_engine_jobs_locked engine r m in
      let same = jobs-remove_locked engine laws r m in
      IsOwned-if engine laws m.started _ _
        (λ running.
          IsOwned-if engine laws (is_empty errors) _ _
            (λ done.
              remove-IsOwned_lem engine laws m (deactivate r.token m') same v name r found (λ k h.
                let (before, kept) = remove_locked-keeps engine laws r m k h in
                (before, disowned k kept (remove_locked_empty engine laws r m k h done))))
            (λ stuck.
              put_old-IsOwned engine laws m m' same v name r r' found
                (λ k h. inl (remove_locked-keeps engine laws r m k h))))
        (λ off.
          remove-IsOwned_lem engine laws m (deactivate r.token m) refl v name r found
            (λ k h. cc (idle off, h.1)))
    where
      disowned :
          (k : Handle)
          → (owns r k ≡ true → owns (remove_engine_jobs_locked engine r m).1 k ≡ true)
          → owns (remove_engine_jobs_locked engine r m).1 k ≡ false
          → owns r k ≡ false
      disowned k kept free = elim (Bool-cases (owns r k)) [ inl o ↦ cc (kept o, free) | inr o ↦ o ]

  pub add-IsOwned :
      (now : ℕ) (job : Job) (m : Manager engine.State)
      → IsOwned engine laws m
      → IsOwned engine laws (add engine now job m).1
  unfolding add Dict.has
  add-IsOwned now job m v =
      let job' = clone_job job in
      IsOwned-elim engine laws (validate_job engine.cron_error now job') _ _ (λ _ _. v)
        (λ fine.
          IsOwned-if engine laws (is_stopped m) _ _ (λ _. v)
            (λ live.
              IsOwned-if engine laws (Dict.has m.jobs job'.name) _ _ (λ _. v)
                (λ fresh. add_checked-IsOwned job' m (ground arith) v)))

  pub replace-IsOwned :
      (now : ℕ) (job : Job) (m : Manager engine.State)
      → (m.started ≡ false → m.inner ≡ none)
      → IsOwned engine laws m
      → IsOwned engine laws (replace engine now job m).1
  unfolding replace
  replace-IsOwned now job m idle v =
      let job' = clone_job job in
      IsOwned-elim engine laws (validate_job engine.cron_error now job') _ _ (λ _ _. v)
        (λ fine.
          IsOwned-if engine laws (is_stopped m) _ _ (λ _. v)
            (λ live.
              IsOwned-elim engine laws (Dict.get m.jobs job'.name) _ _
                (λ old found. replace_checked-IsOwned job' old m found idle v) (λ _. v)))

  pub remove-IsOwned :
      (name : String) (m : Manager engine.State)
      → (m.started ≡ false → m.inner ≡ none)
      → IsOwned engine laws m
      → IsOwned engine laws (remove engine name m).1
  unfolding remove
  remove-IsOwned name m idle v =
      IsOwned-elim engine laws (Dict.get m.jobs _) _ _
        (λ r found. remove_found-IsOwned _ r m found idle v) (λ _. v)
