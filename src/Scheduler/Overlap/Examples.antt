-- ===== src/Scheduler/Overlap/Examples.antt =====
-- The theorems on scheduler/overlap.go at work on short schedules.
use gonex.Common.{
  ◌+◌, ◌<◌, ◌≤◌, ◌≡◌, refl, true, false, some, [], ◌∷◌, arith, length, ltb, if◌then◌else◌,
}
use gonex.Scheduler.Overlap.{queue_one, allow_overlap, is_running, is_same, set_policy, admit}
use gonex.Scheduler.Overlap.Schedules.{System, initial, trigger, finish, triggers, here, next}
use gonex.Scheduler.Overlap.Guarantees.{
  SerialRun, start, step, pending, running_exact, serial_exclusive, queued_generation,
  queued_trigger_lost,
}

-- A trigger of the generation 1 runs its handler 10.
abbrev one_runs : System
one_runs = trigger 1 10 (initial queue_one)

-- Meanwhile the generation 2 triggers its handler 20.
abbrev two_wait : System
two_wait = trigger 2 20 one_runs

one_runs-SerialRun : SerialRun (initial queue_one) one_runs
unfolding initial trigger admit
one_runs-SerialRun = step (start refl) (triggers 1 10 refl) refl

serial_exclusive_example :
    (length two_wait.running ≤ 1) × (two_wait.calls + pending two_wait.gate.queued ≡ two_wait.taken)
unfolding initial trigger admit
serial_exclusive_example =
    serial_exclusive queue_one two_wait (step one_runs-SerialRun (triggers 2 20 refl) refl)

running_exact_example :
    (is_running two_wait.gate ≡ ltb 0 (length two_wait.running))
    × (two_wait.gate.queued ≡ true → 0 < length two_wait.running)
running_exact_example =
    running_exact queue_one two_wait (next (next here (triggers 1 10 refl)) (triggers 2 20 refl))

queued_generation_example :
    (two_wait.running ≡ one_runs.running)
    × ((finish [] (some 1, 10) [] two_wait).running
        ≡ (some 2, (if is_same (some 2) (some 1) then 10 else 20)) ∷ [])
unfolding initial trigger admit
queued_generation_example =
    queued_generation queue_one one_runs (some 1) 10 2 20 one_runs-SerialRun refl refl refl

queued_trigger_lost_example :
    let overlapping = trigger 2 20 (trigger 1 10 (initial allow_overlap)) in
    let queueing = record overlapping { gate = set_policy queue_one overlapping.gate } in
    let waiting = trigger 1 11 queueing in
    let last = finish ((some 2, 20) ∷ []) (some 1, 10) [] waiting in
    let done = finish [] (some 2, 20) [] last in
    (waiting.gate.queued ≡ true)
    × (waiting.taken ≡ 3)
    × (done.running ≡ [])
    × (done.gate.queued ≡ false)
    × (done.calls ≡ 2)
queued_trigger_lost_example = queued_trigger_lost 1 2 10 20 11 (ground arith)
