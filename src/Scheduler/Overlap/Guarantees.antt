-- ===== src/Scheduler/Overlap/Guarantees.antt =====
-- What the gate of scheduler/overlap.go guarantees over all schedules.
use gonex.Common.{
  ℕ, ◌+◌, ◌<◌, ◌≤◌, ◌≡◌, ◌≢◌, refl, Bool, true, false, Option, none, some, List, [], ◌∷◌, ◌++◌,
  arith, length, ltb, if◌then◌else◌,
}
use gonex.Scheduler.Overlap.{
  OverlapPolicy, queue_one, allow_overlap, is_allow, Token, Handler, OverlapGate, admit, complete,
  set_policy, is_running, is_same,
}
use gonex.Scheduler.Overlap.Schedules.{
  Execution, System, initial, trigger, finish, Step, triggers, finishes, sets, Run, here, next,
  IsCounted, Step-IsCounted,
}

initial-IsCounted : (p : OverlapPolicy) → IsCounted (initial p)
unfolding initial
initial-IsCounted p = ground arith

Run-IsCounted : (s u : System) → IsCounted s → Run s u → IsCounted u
Run-IsCounted s u c here = c
Run-IsCounted s u c (next {t} r st) = Step-IsCounted t u st (Run-IsCounted s t c r)

-- In every schedule, whatever the policies, the gate is running exactly if some goroutine runs a
-- handler, and a queued trigger has such a goroutine to drain it.
pub running_exact :
    (p : OverlapPolicy) (s : System)
    → Run (initial p) s
    → (is_running s.gate ≡ ltb 0 (length s.running)) × (s.gate.queued ≡ true → 0 < length s.running)
unfolding is_running
running_exact p s r = ground (arith, Run-IsCounted (initial p) s (initial-IsCounted p) r)

-- A schedule in which no policy is AllowOverlap.
pub data SerialRun (s : System) : System → Type 0 where
  start : is_allow s.gate.policy ≡ false → SerialRun s s
  step : {t u : System} → SerialRun s t → Step t u → is_allow u.gate.policy ≡ false → SerialRun s u

-- At most one execution; it holds the active token, and a trigger queued without a handler of its own
-- is of that token.
abbrev OneAtATime : OverlapGate → List Execution → Type 0
OneAtATime g [] = (g.active ≡ 0) × (g.queued ≡ false) × (g.queued_handler ≡ none)
OneAtATime g ((t, h) ∷ []) =
    (g.active ≡ 1)
    × (g.active_token ≡ t)
    × (g.queued ≡ false → g.queued_handler ≡ none)
    × (g.queued ≡ true → g.queued_handler ≡ none → is_same g.queued_token t ≡ true)
OneAtATime g (_ ∷ _ ∷ _) = ⊥

abbrev pub pending : Bool → ℕ
pending true = 1
pending false = 0

record IsSerial (s : System) : Type 0 where
  policy : is_allow s.gate.policy ≡ false
  one : OneAtATime s.gate s.running
  conserved : s.calls + pending s.gate.queued ≡ s.taken

initial-IsSerial : (p : OverlapPolicy) → is_allow p ≡ false → IsSerial (initial p)
unfolding initial
initial-IsSerial p h = ground arith

trigger-IsSerial : (t : Token) (h : Handler) (s : System) → IsSerial s → IsSerial (trigger t h s)
unfolding trigger admit
trigger-IsSerial t h s v = trigger_at s.running refl
  where
    trigger_at : (l : List Execution) → s.running ≡ l → IsSerial (trigger t h s)
    trigger_at [] e = ground arith
    trigger_at ((t', h') ∷ []) e = ground arith
    trigger_at (_ ∷ _ ∷ _) e = absurd (ground arith)

finish-IsSerial :
    (before : List Execution) (e : Execution) (after : List Execution) (s : System)
    → s.running ≡ before ++ e ∷ after
    → IsSerial s
    → IsSerial (finish before e after s)
unfolding finish complete
finish-IsSerial [] (t, h) [] s at v = ground arith
finish-IsSerial [] (t, h) (x ∷ xs) s at v = absurd (ground arith)
finish-IsSerial (y ∷ []) (t, h) after s at v = absurd (ground arith)
finish-IsSerial (y ∷ z ∷ ys) (t, h) after s at v = absurd (ground arith)

Step-IsSerial : (s u : System) → Step s u → is_allow u.gate.policy ≡ false → IsSerial s → IsSerial u
unfolding set_policy
Step-IsSerial s u (triggers t h e) p v = rw e (trigger-IsSerial t h s v)
Step-IsSerial s u (finishes before x after at e) p v = rw e (finish-IsSerial before x after s at v)
Step-IsSerial s u (sets q e) p v = record {
  policy = p;
  one = rw e v.one;
  conserved = rw e v.conserved;
}

SerialRun-IsSerial :
    (s u : System) → (is_allow s.gate.policy ≡ false → IsSerial s) → SerialRun s u → IsSerial u
SerialRun-IsSerial s u v (start p) = v p
SerialRun-IsSerial s u v (step {t} r st p) = Step-IsSerial t u st p (SerialRun-IsSerial s t v r)

-- As long as no policy is AllowOverlap, in every schedule at most one handler runs at a time, and
-- every trigger that the gate accepted or queued has had exactly one call of a handler, but for the
-- one that is still queued: none is lost and none runs twice.
pub serial_exclusive :
    (p : OverlapPolicy) (s : System)
    → SerialRun (initial p) s
    → (length s.running ≤ 1) × (s.calls + pending s.gate.queued ≡ s.taken)
unfolding initial
serial_exclusive p s r = (bounded s.running refl, valid.conserved)
  where
    valid : IsSerial s
    valid = SerialRun-IsSerial (initial p) s (initial-IsSerial p) r

    bounded : (l : List Execution) → s.running ≡ l → length l ≤ 1
    bounded [] e = omega arith
    bounded (x ∷ []) e = omega arith
    bounded (_ ∷ _ ∷ _) e = absurd (ground (arith, valid.one))

-- Under QueueOne, a trigger that comes while one handler runs waits for its end and is then run: a
-- trigger of another generation with its own handler, one of the same generation with the handler
-- that has just run.
pub queued_generation :
    (p : OverlapPolicy) (s : System) (t' : Option Token) (h' : Handler) (t : Token) (h : Handler)
    → SerialRun (initial p) s
    → s.gate.policy ≡ queue_one
    → s.running ≡ (t', h') ∷ []
    → s.gate.queued ≡ false
    → let waiting = trigger t h s in
      (waiting.running ≡ s.running)
      × ((finish [] (t', h') [] waiting).running
          ≡ (some t, (if is_same (some t) t' then h' else h)) ∷ [])
unfolding initial trigger finish admit complete
queued_generation p s t' h' t h r q at free =
    ground (arith, SerialRun-IsSerial (initial p) s (initial-IsSerial p) r)

-- With AllowOverlap before QueueOne the gate can lose a trigger that it has queued: of two overlapping
-- generations the one that holds the active token queues a trigger, and the other one finishes last.
pub queued_trigger_lost :
    (t u : Token) (h k l : Handler)
    → t ≢ u
    → let overlapping = trigger u k (trigger t h (initial allow_overlap)) in
      let queueing = record overlapping { gate = set_policy queue_one overlapping.gate } in
      let waiting = trigger t l queueing in
      let last = finish ((some u, k) ∷ []) (some t, h) [] waiting in
      let done = finish [] (some u, k) [] last in
      (waiting.gate.queued ≡ true)
      × (waiting.taken ≡ 3)
      × (done.running ≡ [])
      × (done.gate.queued ≡ false)
      × (done.calls ≡ 2)
unfolding initial trigger finish admit complete set_policy
queued_trigger_lost t u h k l ne = ground arith
