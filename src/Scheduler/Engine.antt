-- ===== src/Scheduler/Engine.antt =====
-- The scheduling engine github.com/go-co-op/gocron/v2, which the scheduler only calls
-- (scheduler/engine_gocron.go): a parameter, with the behaviour that the scheduler relies on.
use gonex.Common.{ℕ, String, Bool, true, false, Option, none, ◌≡◌, ◌||◌, ◌≢◌, if◌then◌else◌, nat_eq}
use gonex.Common.Int.{ℤ}

-- A job of the engine, by its identifier.
abbrev pub Handle : Type 0
Handle = ℕ

-- gocron.CronJob, DurationJob and OneTimeJob.
pub data JobDefinition : Type 0 where
  cron_job : String → Bool → JobDefinition
  duration_job : ℤ → JobDefinition
  one_time_job : ℕ → JobDefinition

pub data Created (A : Type 0) : Type 0 where
  ok : A → Created A
  failed : ℕ → Created A

-- NewScheduler, NewJob (a definition, the name, whether it starts at once, and the job record that
-- its task runs), RemoveJob, Shutdown, and the validation of cron expressions.
pub record Engine : Type 1 where
  pub State : Type 0
  pub new_scheduler : Created State
  pub new_job : JobDefinition → String → Bool → ℕ → State → Created (Handle × State)
  pub remove_job : Handle → State → Option ℕ × State
  pub shutdown : State → Option ℕ × State
  pub cron_error : String → Bool → ℕ → Option ℕ

-- NewJob schedules one job more, RemoveJob removes exactly the job it is given, or nothing if it fails,
-- a new scheduler has no job, and Shutdown adds none.
pub record IsLawful (engine : Engine) : Type 0 where
  pub scheduled : engine.State → Handle → Bool
  pub new_job_fresh :
      (d : JobDefinition) (name : String) (now : Bool) (task : ℕ) (s : engine.State) (h : Handle)
      (s' : engine.State)
      → engine.new_job d name now task s ≡ ok (h, s')
      → (k : Handle) → scheduled s' k ≡ (nat_eq h k || scheduled s k)
  pub new_scheduler_empty :
      (s : engine.State) → engine.new_scheduler ≡ ok s → (k : Handle) → scheduled s k ≡ false
  pub remove_job_exact :
      (h : Handle) (s : engine.State)
      → (engine.remove_job h s).0 ≡ none
      → (k : Handle)
      → scheduled (engine.remove_job h s).1 k ≡ (if nat_eq h k then false else scheduled s k)
  pub remove_job_failed :
      (h : Handle) (s : engine.State)
      → (engine.remove_job h s).0 ≢ none
      → (engine.remove_job h s).1 ≡ s
  pub shutdown_drops :
      (s : engine.State) (k : Handle)
      → scheduled (engine.shutdown s).1 k ≡ true
      → scheduled s k ≡ true
