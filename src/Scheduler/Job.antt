-- ===== src/Scheduler/Job.antt =====
-- scheduler/job.go and scheduler/validation.go: jobs, and what makes one valid.
use gonex.Common.{
  ℕ, String, Bool, true, false, Option, none, some, List, [], ◌∷◌, ◌||◌, if◌then◌else◌, is_none,
  length, nat_eq, ltb,
}
use gonex.Common.Int.{ℤ, is_negative, is_positive}
use gonex.Common.Text.{trim_space, is_blank, fields, has_prefix}
use gonex.Scheduler.Overlap.{OverlapPolicy, invalid, Handler}

-- A middleware by its number; `none` is nil.
abbrev pub Middleware : Type 0
Middleware = ℕ

-- Instants count from Go's zero time, which is 0.
pub data Schedule : Type 0 where
  cron : String → Schedule
  every : ℤ → Schedule
  once : ℕ → Schedule
  unsupported : Schedule

pub record Job : Type 0 where
  pub name : String
  pub schedule : Schedule
  pub handler : Option Handler
  pub timeout : ℤ
  pub overlap_policy : OverlapPolicy
  pub run_immediately : Bool
  pub middleware : List (Option Middleware)

pub data Invalid : Type 0 where
  name_required handler_required negative_timeout bad_overlap_policy nil_middleware : Invalid
  cron_required bad_interval once_immediately not_future unsupported_schedule : Invalid
  bad_cron : ℕ → Invalid

-- cloneJob: the name is trimmed; the copy of the middleware is the same list.
unfoldable pub clone_job : Job → Job
clone_job job = record job { name = trim_space job.name }

abbrev pub is_invalid : OverlapPolicy → Bool
is_invalid invalid = true
is_invalid _ = false

abbrev pub some_nil {ℓ} : {A : Type ℓ} → List (Option A) → Bool
some_nil [] = false
some_nil (x ∷ xs) = is_none x || some_nil xs

abbrev drop_zone : List String → List String
drop_zone [] = []
drop_zone (f ∷ fs) = if has_prefix f "TZ=" || has_prefix f "CRON_TZ=" then fs else f ∷ fs

-- cronHasSeconds
unfoldable pub cron_has_seconds : String → Bool
unfolding fields has_prefix
cron_has_seconds expression = nat_eq (length (drop_zone (fields expression))) 6

-- The cron parser of gocron, with the location of the scheduler: an error of an expression, with or
-- without a field for seconds, at an instant.
abbrev pub CronParser : Type 0
CronParser = String → Bool → ℕ → Option ℕ

module _ (cron_error : CronParser) (now : ℕ) where
  -- The `switch` of validateJob.
  unfoldable pub validate_schedule : Bool → Schedule → Option Invalid
  unfolding cron_has_seconds
  validate_schedule immediately (cron expr) =
      if is_blank (trim_space expr)
      then some cron_required
      else elim (cron_error expr (cron_has_seconds expr) now) [
        | none ↦ none
        | some e ↦ some (bad_cron e)
      ]
  validate_schedule immediately (every duration) =
      if is_positive duration then none else some bad_interval
  validate_schedule immediately (once at) =
      if immediately
      then some once_immediately
      else if nat_eq at 0 || (if ltb now at then false else true)
      then some not_future
      else none
  validate_schedule immediately unsupported = some unsupported_schedule

  -- validateJob
  unfoldable pub validate_job : Job → Option Invalid
  unfolding validate_schedule
  validate_job job =
      if is_blank (trim_space job.name)
      then some name_required
      else if is_none job.handler
      then some handler_required
      else if is_negative job.timeout
      then some negative_timeout
      else if is_invalid job.overlap_policy
      then some bad_overlap_policy
      else if some_nil job.middleware
      then some nil_middleware
      else validate_schedule job.run_immediately job.schedule
