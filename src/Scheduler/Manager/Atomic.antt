-- ===== src/Scheduler/Manager/Atomic.antt =====
-- `Replace` of scheduler/scheduler.go is all or nothing.
use gonex.Common.{
  ℕ, String, ◌≡◌, ◌≢◌, refl, ap, ◌∙◌, Bool, true, false, not, Option, none, some, arith, eq_iff,
  is_empty, is_some, if◌then◌else◌,
}
use mathlib.Core.Bool.{false≢true}
use gonex.Common.Dict
use gonex.Common.Dict.{Dict, get-put}
use gonex.Scheduler.Job.{Job, validate_job, clone_job}
use gonex.Scheduler.Engine.{Engine, Handle}
use gonex.Scheduler.Manager.{
  Err, JobRecord, Manager, Publication, install, installed, remove_inner, remove_engine_jobs,
  publish, abort, put_job, new_job_record,
}
use gonex.Scheduler.Manager.Operations.{
  is_stopped, install_locked, remove_engine_jobs_locked, adopt, replace_checked, replace,
}

-- What a client and the engine's tasks see of a record: all but the engine handles.
abbrev pub face : JobRecord → ℕ × Job × ℕ
face r = (r.token, r.definition, r.gate)

-- A record without the engine jobs that wait for their cleanup: its face, and the engine job that runs it.
abbrev pub hold : JobRecord → (ℕ × Job × ℕ) × Option Handle
hold r = (face r, r.inner)

abbrev pub hold_of : Option JobRecord → Option ((ℕ × Job × ℕ) × Option Handle)
hold_of none = none
hold_of (some r) = some (hold r)

-- The managers have the same jobs, run by the same engine jobs, with the same publications and gates, but
-- for the publication of the token `t`.
pub record SameJobs {E : Type 0} (t : ℕ) (m m' : Manager E) : Type 0 where
  pub jobs : (name : String) → hold_of (Dict.get m'.jobs name) ≡ hold_of (Dict.get m.jobs name)
  pub publications : (u : ℕ) → u ≢ t → m'.publications u ≡ m.publications u
  pub gates : m'.gates ≡ m.gates

hold_of-put :
    (m m' : Dict JobRecord) (name : String) (old r : JobRecord)
    → m' ≡ m
    → Dict.get m name ≡ some old
    → hold r ≡ hold old
    → (n : String) → hold_of (Dict.get (Dict.put m' name r) n) ≡ hold_of (Dict.get m n)
hold_of-put m m' name old r same found eq n = rw (same, get-put) (ground (arith, eq_iff name n))

module _ (engine : Engine) where
  pub face-install_locked :
      (r : JobRecord) (m : Manager engine.State) → face (install_locked engine r m).1 ≡ face r
  unfolding install_locked install installed
  face-install_locked r m = ground arith

  pub rest-install_locked :
      (r : JobRecord) (m : Manager engine.State)
      → ((install_locked engine r m).2.jobs ≡ m.jobs)
        × ((install_locked engine r m).2.publications ≡ m.publications)
        × ((install_locked engine r m).2.gates ≡ m.gates)
        × ((install_locked engine r m).2.started ≡ m.started)
  unfolding install_locked
  rest-install_locked r m = ground arith

  pub face-remove_locked :
      (r : JobRecord) (m : Manager engine.State)
      → face (remove_engine_jobs_locked engine r m).1 ≡ face r
  unfolding remove_engine_jobs_locked remove_engine_jobs remove_inner
  face-remove_locked r m = ground arith

  -- A cleanup that reports an error has left the engine job that runs the record.
  hold-remove_locked :
      (r : JobRecord) (m : Manager engine.State)
      → is_empty (remove_engine_jobs_locked engine r m).0 ≡ false
      → hold (remove_engine_jobs_locked engine r m).1 ≡ hold r
  unfolding remove_engine_jobs_locked remove_engine_jobs remove_inner
  hold-remove_locked r m stuck = ground (arith, stuck)

  pub rest-remove_locked :
      (r : JobRecord) (m : Manager engine.State)
      → ((remove_engine_jobs_locked engine r m).2.jobs ≡ m.jobs)
        × ((remove_engine_jobs_locked engine r m).2.publications ≡ m.publications)
        × ((remove_engine_jobs_locked engine r m).2.gates ≡ m.gates)
        × ((remove_engine_jobs_locked engine r m).2.started ≡ m.started)
  unfolding remove_engine_jobs_locked
  rest-remove_locked r m = ground arith

  SameJobs-if :
      (t : ℕ) (m : Manager engine.State) (b : Bool) (x y : Option Err × Manager engine.State)
      → (b ≡ true → is_some x.0 ≡ true → SameJobs t m x.1)
      → (b ≡ false → is_some y.0 ≡ true → SameJobs t m y.1)
      → is_some (if b then x else y).0 ≡ true
      → SameJobs t m (if b then x else y).1
  SameJobs-if t m true x y hx hy = hx refl
  SameJobs-if t m false x y hx hy = hy refl

  SameJobs-elim {ℓ} :
      {A : Type ℓ} (t : ℕ) (m : Manager engine.State) (e : Option A)
      (x : A → Option Err × Manager engine.State) (y : Option Err × Manager engine.State)
      → ((a : A) → e ≡ some a → is_some (x a).0 ≡ true → SameJobs t m (x a).1)
      → (e ≡ none → is_some y.0 ≡ true → SameJobs t m y.1)
      → is_some (elim e as (λ _. Option Err × Manager engine.State) [ none ↦ y | some a ↦ x a ]).0
        ≡ true
      → SameJobs t m
          (elim e as (λ _. Option Err × Manager engine.State) [ none ↦ y | some a ↦ x a ]).1
  SameJobs-elim t m (some a) x y hx hy h = hx a refl h
  SameJobs-elim t m none x y hx hy h = hy refl h

  jobs-new_job_record :
      (job : Job) (gate : ℕ) (b : Bool) (m : Manager engine.State)
      → (new_job_record job gate b m).1.jobs ≡ m.jobs
  unfolding new_job_record publish
  jobs-new_job_record job gate b m = ground arith

  new_job_record-SameJobs :
      (job : Job) (gate : ℕ) (b : Bool) (m : Manager engine.State)
      → SameJobs m.next_token m (new_job_record job gate b m).1
  unfolding new_job_record publish
  new_job_record-SameJobs job gate b m = record {
    jobs = λ name. ground arith;
    publications = λ u other. ground arith;
    gates = ground arith;
  }

  SameJobs-trans :
      (t : ℕ) (a b c : Manager engine.State) → SameJobs t a b → SameJobs t b c → SameJobs t a c
  SameJobs-trans t a b c p q = record {
    jobs = λ name. q.jobs name ∙ p.jobs name;
    publications = λ u other. q.publications u other ∙ p.publications u other;
    gates = q.gates ∙ p.gates;
  }

  aborted-SameJobs :
      (r : JobRecord) (t : ℕ) (m : Manager engine.State)
      → SameJobs t m (abort t (install_locked engine r m).2)
  unfolding abort
  aborted-SameJobs r t m =
      let (jobs, publications, gates, _) = rest-install_locked r m in
      record {
        jobs = λ name. rw jobs;
        publications = λ u other. ground (arith, publications);
        gates = gates;
      }

  restored-SameJobs :
      (job : Job) (old r : JobRecord) (t : ℕ) (m : Manager engine.State)
      → Dict.get m.jobs job.name ≡ some old
      → is_empty (remove_engine_jobs_locked engine old (install_locked engine r m).2).0 ≡ false
      → let (e, new, m2) = install_locked engine r m in
        let (errors, old', m3) = remove_engine_jobs_locked engine old m2 in
        let (cleanup_errors, left, m4) = remove_engine_jobs_locked engine new (abort t m3) in
        SameJobs t m (put_job job.name (adopt old' left) m4)
  unfolding abort put_job
  restored-SameJobs job old r t m found stuck =
      let (e, new, m2) = install_locked engine r m in
      let (errors, old', m3) = remove_engine_jobs_locked engine old m2 in
      let (cleanup_errors, left, m4) = remove_engine_jobs_locked engine new (abort t m3) in
      let (jobs2, publications2, gates2, _) = rest-install_locked r m in
      let (jobs3, publications3, gates3, _) = rest-remove_locked old m2 in
      let (jobs4, publications4, gates4, _) = rest-remove_locked new (abort t m3) in
      let same = hold-remove_locked old m2 stuck in
      record {
        jobs = λ name.
            hold_of-put m.jobs m4.jobs job.name old (adopt old' left) (jobs4 ∙ jobs3 ∙ jobs2) found
              same name;
        publications = λ u other. ground (
          arith,
          ap (λ (f : ℕ → Publication). f u) (publications3 ∙ publications2),
          ap (λ (f : ℕ → Publication). f u) publications4,
        );
        gates = gates4 ∙ gates3 ∙ gates2;
      }

  SameJobs-refl : (t : ℕ) (m : Manager engine.State) → SameJobs t m m
  SameJobs-refl t m = record { jobs = λ name. refl; publications = λ u other. refl; gates = refl }

  replace_checked-SameJobs :
      (job : Job) (old : JobRecord) (m : Manager engine.State)
      → Dict.get m.jobs job.name ≡ some old
      → is_some (replace_checked engine job old m).0 ≡ true
      → SameJobs m.next_token m (replace_checked engine job old m).1
  unfolding replace_checked
  replace_checked-SameJobs job old m found =
      let (r, m1) = new_job_record job old.gate (not m.started) m in
      let (e, new, m2) = install_locked engine r m1 in
      let fresh = new_job_record-SameJobs job old.gate (not m.started) m in
      let same = jobs-new_job_record job old.gate (not m.started) m in
      SameJobs-if m.next_token m m.started _ _
        (λ running.
          SameJobs-elim m.next_token m e _ _
            (λ x err _. SameJobs-trans m.next_token m m1 _ fresh (aborted-SameJobs r r.token m1))
            (λ fine.
              SameJobs-if m.next_token m (is_empty (remove_engine_jobs_locked engine old m2).0) _ _
                (λ done h. absurd (false≢true h))
                (λ stuck _. SameJobs-trans m.next_token m m1 _ fresh (
                  restored-SameJobs job old r r.token m1
                    (ap (λ (d : Dict JobRecord). Dict.get d job.name) same ∙ found) stuck))))
        (λ off h. absurd (false≢true h))

  -- A `Replace` that reports an error has left every job as it was: its definition, the engine job that
  -- its record runs by, its gate with the gate's state, and its publication, so the record goes on with
  -- the old generation. What may change is the list of engine jobs that wait for their cleanup.
  pub replace_error_keeps :
      (now : ℕ) (job : Job) (m : Manager engine.State)
      → is_some (replace engine now job m).0 ≡ true
      → SameJobs m.next_token m (replace engine now job m).1
  unfolding replace
  replace_error_keeps now job m =
      SameJobs-elim m.next_token m (validate_job engine.cron_error now (clone_job job)) _ _
        (λ _ _ _. SameJobs-refl m.next_token m)
        (λ valid.
          SameJobs-if m.next_token m (is_stopped m) _ _ (λ _ _. SameJobs-refl m.next_token m)
            (λ live.
              SameJobs-elim m.next_token m (Dict.get m.jobs (clone_job job).name) _ _
                (λ old found. replace_checked-SameJobs (clone_job job) old m found)
                (λ _ _. SameJobs-refl m.next_token m)))
