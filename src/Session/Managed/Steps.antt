-- ===== src/Session/Managed/Steps.antt =====
-- ghttp/session.go: every call on a session keeps the session, the storage and the client's cookie in step.
use gonex.Common.{
  String, Bool, false, Option, none, some, ◌≡◌, inl, inr, refl, sym, ap, ◌∙◌, if◌then◌else◌, arith,
  eq_iff, if_cases,
}
use gonex.Common.Dict
use gonex.Common.Dict.{Dict, get-put, get-remove}
use gonex.Session.Managed.{
  Err, logged_out_error, Storage, IsLawful, IssuesNew, ManagedSession, Request, persist,
  keep_or_undo, with_values, put_back, put_again, set_value, delete_value, clear,
}
use gonex.Session.Managed.Laws.{IsSameMap, IsStored, IsInStep, Outcome, persist-Outcome}

module _ {V : Type 0} (S : Storage V) where
  put_back-IsSameMap :
      (values : Dict V) (key : String) (value : V) (previous : Option V)
      → Dict.get values key ≡ previous
      → IsSameMap (put_back S (Dict.put values key value) key previous) values
  put_back-IsSameMap values key value none e j = ground (
    arith,
    e,
    get-remove (Dict.put values key value) key j,
    get-put values key j value,
    eq_iff key j,
  )
  put_back-IsSameMap values key value (some previous) e j = ground (
    arith,
    e,
    get-put (Dict.put values key value) key j previous,
    get-put values key j value,
    eq_iff key j,
  )

  put_again-IsSameMap :
      (values : Dict V) (key : String) (previous : Option V)
      → Dict.get values key ≡ previous
      → IsSameMap (put_again S (Dict.remove values key) key previous) values
  put_again-IsSameMap values key none e j = ground (arith, e, get-remove values key j, eq_iff key j)
  put_again-IsSameMap values key (some previous) e j = ground (
    arith,
    e,
    get-put (Dict.remove values key) key j previous,
    get-remove values key j,
    eq_iff key j,
  )

  keep_or_undo-IsInStep :
      (r : Request V S.State) (values back : Dict V) (p : Option Err × Request V S.State)
      → r.session.logged_out ≡ false
      → IsStored S r r.session.values
      → IsSameMap back r.session.values
      → Outcome S (with_values S values r) p
      → IsInStep S (keep_or_undo S back p).1
  unfolding Outcome
  keep_or_undo-IsInStep r values back (none, r1) alive stored same (holds, stands, kept, out) =
      inr (out ∙ alive, (holds, (values, stands, λ key. ap (λ m. Dict.get m key) (sym kept))))
  keep_or_undo-IsInStep r values back (some e, r1) alive (holds, (kept, stands, same)) back_same
        (cookie, session, entry) =
      inr (
        ap ManagedSession.logged_out session ∙ alive,
        (
          cookie ∙ holds ∙ ap some (sym (ap ManagedSession.id session)),
          (
            kept,
            ap (S.stored r1.storage) (ap ManagedSession.id session) ∙ entry ∙ stands,
            λ key. same key ∙ sym (back_same key),
          ),
        ),
      )

  module _ (L : IsLawful S) (accepts : String → Bool) where
    persist-IsInStep :
        (r : Request V S.State) (values back : Dict V)
        → r.session.logged_out ≡ false
        → IsStored S r r.session.values
        → IsSameMap back r.session.values
        → IssuesNew L r.storage r.session.id
        → IsInStep S (keep_or_undo S back (persist S accepts (with_values S values r))).1
    persist-IsInStep r values back alive (holds, (kept, stands, same)) back_same new =
        keep_or_undo-IsInStep r values back _ alive (holds, (kept, stands, same)) back_same
          (persist-Outcome S L accepts (with_values S values r) kept holds stands new)

    -- What a call does when the session is not logged out.
    pub if_alive :
        (r : Request V S.State) (done : Option Err × Request V S.State)
        → IsInStep S r
        → (r.session.logged_out ≡ false → IsStored S r r.session.values → IsInStep S done.1)
        → IsInStep S (if r.session.logged_out then (some logged_out_error, r) else done).1
    if_alive r done (inl (out, gone)) h =
        if_cases (λ (p : Option Err × Request V S.State). IsInStep S p.1) r.session.logged_out _ _
          (λ e. inl (out, gone)) (λ e. absurd (ground arith))
    if_alive r done (inr (alive, stored)) h =
        if_cases (λ (p : Option Err × Request V S.State). IsInStep S p.1) r.session.logged_out _ _
          (λ e. absurd (ground arith)) (λ e. h alive stored)

    -- Set, whether it succeeds or fails, leaves the session in step with the storage and the client.
    pub set_value-IsInStep :
        (key : String) (value : Option V) (r : Request V S.State)
        → IssuesNew L r.storage r.session.id
        → IsInStep S r
        → IsInStep S (set_value S accepts key value r).1
    unfolding set_value
    set_value-IsInStep key none r new h = h
    set_value-IsInStep key (some value) r new h = if_alive r _ h (λ alive stored.
        persist-IsInStep r _ _ alive stored
          (put_back-IsSameMap r.session.values key value (Dict.get r.session.values key) refl) new)

    -- Delete, likewise.
    pub delete_value-IsInStep :
        (key : String) (r : Request V S.State)
        → IssuesNew L r.storage r.session.id
        → IsInStep S r
        → IsInStep S (delete_value S accepts key r).1
    unfolding delete_value
    delete_value-IsInStep key r new h = if_alive r _ h (λ alive stored.
        persist-IsInStep r _ _ alive stored
          (put_again-IsSameMap r.session.values key (Dict.get r.session.values key) refl) new)

    -- Clear, likewise.
    pub clear-IsInStep :
        (r : Request V S.State)
        → IssuesNew L r.storage r.session.id
        → IsInStep S r
        → IsInStep S (clear S accepts r).1
    unfolding clear
    clear-IsInStep r new h =
        if_alive r _ h (λ alive stored. persist-IsInStep r _ _ alive stored (λ key. refl) new)
