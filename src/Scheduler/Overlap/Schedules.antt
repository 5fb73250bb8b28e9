-- ===== src/Scheduler/Overlap/Schedules.antt =====
-- The goroutines that go through one gate of scheduler/overlap.go, in any order.
use gonex.Common.{
  ℕ, ◌+◌, ◌<◌, ◌≡◌, ap, ◌∙◌, true, Option, some, List, [], ◌∷◌, ◌++◌, arith, length, length-append,
}
use gonex.Scheduler.Overlap.{
  OverlapPolicy, Token, Handler, OverlapGate, new_gate, accepted, queued, dropped, admit, return,
  repeat, complete, set_policy,
}

-- A goroutine inside `current()`: its token and its handler.
abbrev pub Execution : Type 0
Execution = Option Token × Handler

-- The gate, the goroutines that run a handler, the number of triggers that the gate accepted or
-- queued, and the number of calls of handlers.
pub record System : Type 0 where
  pub gate : OverlapGate
  pub running : List Execution
  pub taken : ℕ
  pub calls : ℕ

unfoldable pub initial : OverlapPolicy → System
unfolding new_gate
initial p = record { gate = new_gate p; running = []; taken = 0; calls = 0 }

-- `runWithToken` by a new goroutine.
unfoldable pub trigger : Token → Handler → System → System
trigger t h s =
    let (admission, g) = admit t h s.gate in
    elim admission [
      | accepted ↦ record s {
        gate = g;
        running = (some t, h) ∷ s.running;
        taken = s.taken + 1;
        calls = s.calls + 1;
      }
      | queued ↦ record s { gate = g; taken = s.taken + 1 }
      | dropped ↦ record s { gate = g }
    ]

-- The handler of `e` returns, where `before` and `after` are the other executions.
unfoldable pub finish : List Execution → Execution → List Execution → System → System
finish before (t, h) after s =
    let (next, g) = complete t h s.gate in
    elim next [
      | return ↦ record s { gate = g; running = before ++ after }
      | repeat t' h' ↦ record s {
        gate = g;
        running = before ++ (t', h') ∷ after;
        calls = s.calls + 1;
      }
    ]

pub data Step (s u : System) : Type 0 where
  triggers : (t : Token) (h : Handler) → u ≡ trigger t h s → Step s u
  finishes :
      (before : List Execution) (e : Execution) (after : List Execution)
      → s.running ≡ before ++ e ∷ after
      → u ≡ finish before e after s
      → Step s u
  sets : (p : OverlapPolicy) → u ≡ record s { gate = set_policy p s.gate } → Step s u

pub data Run (s : System) : System → Type 0 where
  here : Run s s
  next : {t u : System} → Run s t → Step t u → Run s u

-- Whatever the policies: the gate counts the executions, and a queued trigger has an execution that
-- will see it.
pub record IsCounted (s : System) : Type 0 where
  pub active : s.gate.active ≡ length s.running
  pub drained : s.gate.queued ≡ true → 0 < s.gate.active

length-middle :
    (before : List Execution) (e : Execution) (after : List Execution)
    → length (before ++ e ∷ after) ≡ length (before ++ after) + 1
length-middle before e after =
    omega (arith, length-append before (e ∷ after), length-append before after)

length-finish :
    (before : List Execution) (e : Execution) (after : List Execution) (s : System)
    → IsCounted s
    → s.running ≡ before ++ e ∷ after
    → IsCounted (finish before e after s)
unfolding finish complete
length-finish before (t, h) after s c at =
    let all = ap (length {A = Execution}) at ∙ length-middle before (t, h) after in
    grind (arith, length-middle)

pub Step-IsCounted : (s u : System) → Step s u → IsCounted s → IsCounted u
unfolding trigger admit set_policy
Step-IsCounted s u (triggers t h e) c = ground arith
Step-IsCounted s u (finishes before x after at e) c = rw e (length-finish before x after s c at)
Step-IsCounted s u (sets p e) c = ground arith
