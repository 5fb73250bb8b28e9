-- ===== src/Scheduler/Overlap.antt =====
-- scheduler/overlap.go: the gate that admits, queues or drops the triggers of a job. `gate.mu` is free
-- while a handler runs, so `runWithToken` and `executeAccepted` are cut into the parts that hold it.
pub mod Schedules
pub mod Guarantees
pub mod Examples
use gonex.Common.{
  ℕ, ◌+◌, ◌-◌, Bool, true, false, ◌&&◌, ◌||◌, Option, none, some, if◌then◌else◌, nat_eq, ltb,
}

-- OverlapPolicy; `invalid` is any other byte, which validateJob rejects.
pub data OverlapPolicy : Type 0 where
  skip_if_running allow_overlap queue_one invalid : OverlapPolicy

abbrev pub is_allow : OverlapPolicy → Bool
is_allow allow_overlap = true
is_allow _ = false

abbrev pub is_queue : OverlapPolicy → Bool
is_queue queue_one = true
is_queue _ = false

-- A token is the job record of a trigger, and a handler what it runs: both by number.
abbrev pub Token : Type 0
Token = ℕ

abbrev pub Handler : Type 0
Handler = ℕ

pub record OverlapGate : Type 0 where
  pub policy : OverlapPolicy
  pub active : ℕ
  pub active_token : Option Token
  pub queued : Bool
  pub queued_token : Option Token
  pub queued_handler : Option Handler

unfoldable pub new_gate : OverlapPolicy → OverlapGate
new_gate p = record {
  policy = p;
  active = 0;
  active_token = none;
  queued = false;
  queued_token = none;
  queued_handler = none;
}

-- `token != gate.activeToken`
abbrev pub is_other : Token → Option Token → Bool
is_other t none = true
is_other t (some u) = if nat_eq t u then false else true

-- What a trigger comes to: `executeAccepted` follows on `accepted`.
pub data Admission : Type 0 where
  accepted queued dropped : Admission

-- runWithToken, up to `executeAccepted`, with a handler that is not nil.
unfoldable pub admit : Token → Handler → OverlapGate → Admission × OverlapGate
admit token handler g =
    if is_allow g.policy
    then (
      accepted,
      record g {
        active_token = if nat_eq g.active 0 then some token else g.active_token;
        active = g.active + 1;
      },
    )
    else if ltb 0 g.active
    then (if is_queue g.policy && (if g.queued then false else true)
        then (
          queued,
          record g {
            queued = true;
            queued_token = some token;
            queued_handler =
                if is_other token g.active_token then some handler else g.queued_handler;
          },
        )
        else (dropped, g))
    else (accepted, record g { active = 1; active_token = some token })

-- `nextToken == currentToken`
abbrev pub is_same : Option Token → Option Token → Bool
is_same none none = true
is_same (some t) (some u) = nat_eq t u
is_same _ _ = false

-- `if next == nil && nextToken == currentToken { next = current }`
abbrev pub next_handler : Option Handler → Option Token → Option Token → Handler → Option Handler
next_handler (some h) t token handler = some h
next_handler none t token handler = if is_same t token then some handler else none

-- What the executor goes on with: another handler under its token, or nothing.
pub data Next : Type 0 where
  return : Next
  repeat : Option Token → Handler → Next

-- executeAccepted, from the return of `current()` to the next call of it. `-` stops at 0, as the
-- guard of `gate.active--` does.
unfoldable pub complete : Option Token → Handler → OverlapGate → Next × OverlapGate
complete token handler g =
    let left = g.active - 1 in
    if ltb 0 left || (if g.queued then false else true)
    then (
      return,
      record g { active = left; active_token = if nat_eq left 0 then none else g.active_token },
    )
    else (let next = next_handler g.queued_handler g.queued_token token handler in
        let idle = record g {
          active = left;
          queued = false;
          queued_token = none;
          queued_handler = none;
        } in
        elim next [
          | none ↦ (return, record idle { active_token = none })
          | some h ↦
              (repeat g.queued_token h, record idle { active = 1; active_token = g.queued_token })
        ])

unfoldable pub is_running : OverlapGate → Bool
is_running g = ltb 0 g.active

unfoldable pub set_policy : OverlapPolicy → OverlapGate → OverlapGate
set_policy p g = record g { policy = p }
