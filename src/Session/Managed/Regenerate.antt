-- ===== src/Session/Managed/Regenerate.antt =====
-- ghttp/session.go: Regenerate and Logout keep a session, the storage and the client's cookie in step, and
-- take the old identifier out of use.
use gonex.Common.{
  String, Bool, true, false, Option, none, some, ◌≡◌, inl, inr, refl, sym, ap, ◌∙◌, ◌==◌, not,
  if◌then◌else◌, arith, eq_iff, if_cases,
}
use gonex.Common.Dict
use gonex.Common.Dict.{Dict}
use gonex.Session.Managed.{
  Err, storage_failed, cookie_failed, id_failed, joined, Storage, IsLawful, IssuesNew,
  ManagedSession, Request, regenerate_stored, regenerate, logout,
}
use gonex.Session.Managed.Laws.{
  IsStored, IsInStep, Outcome, done, undone, fresh_differs, rotate-Outcome,
}
use gonex.Session.Managed.Steps.{if_alive}

module _ {V : Type 0} (S : Storage V) where
  Outcome-IsInStep :
      (r : Request V S.State) (p : Option Err × Request V S.State)
      → r.session.logged_out ≡ false
      → IsStored S r r.session.values
      → Outcome S r p
      → IsInStep S p.1
  unfolding Outcome
  Outcome-IsInStep r (none, r1) alive stored (holds, stands, same, out) =
      inr (
        out ∙ alive,
        (holds, (r.session.values, stands, λ key. ap (λ m. Dict.get m key) (sym same))),
      )
  Outcome-IsInStep r (some e, r1) alive (holds, (kept, stands, same)) (cookie, session, entry) =
      inr (
        ap ManagedSession.logged_out session ∙ alive,
        (
          cookie ∙ holds ∙ ap some (sym (ap ManagedSession.id session)),
          (
            kept,
            ap (S.stored r1.storage) (ap ManagedSession.id session) ∙ entry ∙ stands,
            λ key. same key ∙ ap (λ m. Dict.get m key) (sym (ap ManagedSession.values session)),
          ),
        ),
      )

  module _ (L : IsLawful S) (accepts : String → Bool) where
    unwritten-stored :
        (r : Request V S.State) (new_id : String)
        → (new_id == r.session.id) ≡ false
        → S.stored (S.set r.storage new_id r.session.values).1 r.session.id
          ≡ S.stored r.storage r.session.id
    unwritten-stored r new_id differ =
        ground (arith, differ, L.set-stored r.storage new_id r.session.values r.session.id)

    pub deleted_other :
        (r : Request V S.State) (new_id : String)
        → S.is_cookie ≡ false
        → (new_id == r.session.id) ≡ false
        → not (S.set r.storage new_id r.session.values).0 ≡ false
        → S.stored (S.delete (S.set r.storage new_id r.session.values).1 r.session.id).1 new_id
          ≡ some r.session.values
    deleted_other r new_id other apart ok =
        let s1 = (S.set r.storage new_id r.session.values).1 in
        ground (
          arith,
          apart,
          ok,
          L.delete-stored s1 r.session.id new_id other,
          L.set-stored r.storage new_id r.session.values new_id,
          eq_iff new_id new_id,
          eq_iff r.session.id new_id,
          eq_iff new_id r.session.id,
        )

    regenerate_stored-Outcome :
        (r : Request V S.State) (new_id : Option String)
        → S.is_cookie ≡ false
        → ((id : String) → new_id ≡ some id → (id == r.session.id) ≡ false)
        → Outcome S r (regenerate_stored S accepts new_id r)
    unfolding regenerate_stored
    regenerate_stored-Outcome r none other differ = undone S L r id_failed r.storage refl
    regenerate_stored-Outcome r (some new_id) other differ =
        let old = r.session.id in
        let s1 = (S.set r.storage new_id r.session.values).1 in
        let s2 = (S.delete s1 old).1 in
        let apart : (new_id == old) ≡ false = differ new_id refl in
        if_cases (Outcome S r) (not (accepts new_id)) _ _
          (λ e. undone S L r cookie_failed r.storage refl)
          (λ e.
            if_cases (Outcome S r) (not (S.set r.storage new_id r.session.values).0) _ _
              (λ e1. undone S L r storage_failed s1 (unwritten-stored r new_id apart))
              (λ e1.
                if_cases (Outcome S r) (not (S.delete s1 old).0) _ _
                  (λ e2.
                    undone S L r
                      (if (S.delete s2 new_id).0
                        then storage_failed
                        else joined storage_failed storage_failed)
                      (S.delete s2 new_id).1
                      (ground (
                        arith,
                        apart,
                        e2,
                        L.delete-stored s2 new_id old other,
                        L.delete-stored s1 old old other,
                        unwritten-stored r new_id apart,
                      )))
                  (λ e2. done S L r _ refl (deleted_other r new_id other apart e1) refl refl)))

    -- Regenerate, whether it succeeds or fails, leaves the session in step with the storage and the client,
    -- if nothing is stored under the new identifier.
    pub regenerate-IsInStep :
        (new_id : Option String) (r : Request V S.State)
        → ((id : String) → new_id ≡ some id → S.stored r.storage id ≡ none)
        → IssuesNew L r.storage r.session.id
        → IsInStep S r
        → IsInStep S (regenerate S accepts new_id r).1
    unfolding regenerate
    regenerate-IsInStep new_id r fresh new h = if_alive S L accepts r _ h (λ alive stored.
        Outcome-IsInStep r _ alive stored (
          let (holds, (kept, stands, same)) = stored in
          if_cases (Outcome S r) _ _ _
            (λ is_cookie.
              rotate-Outcome S L accepts r
                (S.encode_with_family r.storage r.session.values r.session.family)
                (λ id e. (new r.session.values r.session.family id e).1)
                (λ j.
                  L.encode_with_family-stored r.storage r.session.values r.session.family j
                    (λ id e. (new r.session.values r.session.family id e).0)))
            (λ other.
              regenerate_stored-Outcome r new_id other
                (λ id e. fresh_differs S L r.storage id r.session.id kept (fresh id e) stands))))

    undeleted-IsInStep :
        (r : Request V S.State)
        → not (S.delete r.storage r.session.id).0 ≡ true
        → IsInStep S r
        → IsInStep S (record r { storage = (S.delete r.storage r.session.id).1 })
    undeleted-IsInStep r failed (inl gone) = inl gone
    undeleted-IsInStep r failed (inr (alive, (holds, (kept, stands, same)))) = inr (
      alive,
      (holds, (kept, ground (arith, failed, L.delete-gone r.storage r.session.id, stands), same)),
    )

    -- Logout, likewise.
    pub logout-IsInStep : (r : Request V S.State) → IsInStep S r → IsInStep S (logout S accepts r).1
    unfolding logout
    logout-IsInStep r h =
        let P : (Option Err × Request V S.State) → Type 0 = λ p. IsInStep S p.1 in
        if_cases P r.session.logged_out _ _ (λ out. h)
          (λ alive.
            if_cases P (not (accepts "")) _ _ (λ refused. h)
              (λ accepted.
                if_cases P (not (S.delete r.storage r.session.id).0) _ _
                  (λ failed. undeleted-IsInStep r failed h) (λ deleted. inl (refl, refl))))
