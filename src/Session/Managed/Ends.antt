-- ===== src/Session/Managed/Ends.antt =====
-- ghttp/session.go: what Logout and Regenerate take out of use.
use gonex.Common.{
  String, List, [], ◌∷◌, Bool, true, false, Option, none, some, ◌≡◌, refl, ap, ◌∙◌, subst, ◌==◌,
  not, arith, eq_iff, if_cases,
}
use gonex.Session.Managed.{
  Err, Storage, IsLawful, IssuesNew, issued, Request, rotate, set_value, delete_value, clear,
  regenerate_stored, regenerate, logout,
}
use gonex.Session.Managed.Laws.{IsStored, fresh_differs, revoked_other}
use gonex.Session.Managed.Regenerate.{deleted_other}
use gonex.Session.Managed.Runs.{
  Call, set_call, delete_call, clear_call, logout_call, regenerate_call, step, run,
}

module _ {V : Type 0} (S : Storage V) where
  step-logged_out :
      (accepts : String → Bool) (call : Call V) (r : Request V S.State)
      → r.session.logged_out ≡ true
      → (step S accepts call r).1 ≡ r
  unfolding step set_value delete_value clear regenerate logout
  step-logged_out accepts (set_call key none) r out = refl
  step-logged_out accepts (set_call key (some value)) r out = ground (arith, out)
  step-logged_out accepts (delete_call key) r out = ground (arith, out)
  step-logged_out accepts clear_call r out = ground (arith, out)
  step-logged_out accepts logout_call r out = ground (arith, out)
  step-logged_out accepts (regenerate_call new_id) r out = ground (arith, out)

  run-logged_out :
      (calls : List ((String → Bool) × Call V)) (r : Request V S.State)
      → r.session.logged_out ≡ true
      → run S calls r ≡ r
  unfolding run
  run-logged_out [] r out = refl
  run-logged_out ((accepts, call) ∷ calls) r out =
      ap (run S calls) (step-logged_out accepts call r out) ∙ run-logged_out calls r out

  -- What Logout leaves.
  Ended : Request V S.State → Option Err × Request V S.State → Type 0
  Ended r (none, r1) =
      (r1.client ≡ none)
      × (S.stored r1.storage r.session.id ≡ none)
      × (r1.session.values ≡ [])
      × (r1.session.logged_out ≡ true)
  Ended r (some e, r1) =
      (r1.client ≡ r.client)
      × (r1.session ≡ r.session)
      × (S.stored r1.storage r.session.id ≡ S.stored r.storage r.session.id)

  module _ (L : IsLawful S) (accepts : String → Bool) where
    logout-Ended :
        (r : Request V S.State) → r.session.logged_out ≡ false → Ended r (logout S accepts r)
    unfolding logout Ended
    logout-Ended r alive =
        if_cases (Ended r) r.session.logged_out _ _ (λ out. absurd (ground (arith, out, alive)))
          (λ on.
            if_cases (Ended r) (not (accepts "")) _ _ (λ e. (refl, refl, refl))
              (λ e.
                if_cases (Ended r) (not (S.delete r.storage r.session.id).0) _ _
                  (λ failed.
                    (refl, refl, ground (arith, failed, L.delete-gone r.storage r.session.id)))
                  (λ deleted. (
                    refl,
                    ground (arith, deleted, L.delete-gone r.storage r.session.id),
                    refl,
                    refl,
                  ))))

    -- A Logout that succeeds on a session that was not logged out takes the cookie from the client and the
    -- session's identifier out of the storage, and no later call on the session changes anything: neither
    -- the storage nor the client's cookie nor the session. The storage is lawful.
    pub logout_is_final :
        (r r1 : Request V S.State) (calls : List ((String → Bool) × Call V))
        → r.session.logged_out ≡ false
        → logout S accepts r ≡ (none, r1)
        → (r1.client ≡ none) × (S.stored r1.storage r.session.id ≡ none) × (run S calls r1 ≡ r1)
    unfolding Ended
    logout_is_final r r1 calls alive e =
        let (cookie, gone, values, out) = subst (Ended r) e (logout-Ended r alive) in
        (cookie, gone, run-logged_out calls r1 out)

  -- What Regenerate and a rotation leave when they succeed.
  Retired : Request V S.State → Option Err × Request V S.State → Type 0
  Retired r (none, r1) =
      (r1.client ≡ some r1.session.id)
      × ((r1.session.id == r.session.id) ≡ false)
      × (S.stored r1.storage r.session.id ≡ none)
      × (S.stored r1.storage r1.session.id ≡ some r.session.values)
  Retired r (some e, r1) = Unit

  module _ (L : IsLawful S) (accepts : String → Bool) where
    rotate-Retired :
        (r : Request V S.State) (token : Option String × S.State)
        → ((id : String) → token.0 ≡ some id → (id == r.session.id) ≡ false)
        → ((j : String)
            → S.stored token.1 j ≡ issued token.0 r.session.values j (S.stored r.storage j))
        → Retired r (rotate S accepts r token)
    unfolding rotate Retired
    rotate-Retired r (none, s) differ issues = tt
    rotate-Retired r (some id, s) differ issues =
        let old = r.session.id in
        let apart : (id == old) ≡ false = differ id refl in
        if_cases (Retired r) (not (accepts id)) _ _ (λ e. tt)
          (λ e.
            if_cases (Retired r) (not (S.revoke_token s old).0) _ _ (λ e1. tt)
              (λ e1. (
                refl,
                apart,
                ground (arith, e1, L.revoke_token-stored s old old, eq_iff old old),
                revoked_other S L s r.session.values id old _ apart (issues id),
              )))

    regenerate_stored-Retired :
        (r : Request V S.State) (new_id : Option String)
        → S.is_cookie ≡ false
        → ((id : String) → new_id ≡ some id → (id == r.session.id) ≡ false)
        → Retired r (regenerate_stored S accepts new_id r)
    unfolding regenerate_stored Retired
    regenerate_stored-Retired r none other differ = tt
    regenerate_stored-Retired r (some new_id) other differ =
        let old = r.session.id in
        let s1 = (S.set r.storage new_id r.session.values).1 in
        let apart : (new_id == old) ≡ false = differ new_id refl in
        if_cases (Retired r) (not (accepts new_id)) _ _ (λ e. tt)
          (λ e.
            if_cases (Retired r) (not (S.set r.storage new_id r.session.values).0) _ _ (λ e1. tt)
              (λ e1.
                if_cases (Retired r) (not (S.delete s1 old).0) _ _ (λ e2. tt)
                  (λ e2. (
                    refl,
                    apart,
                    ground (arith, e2, L.delete-gone s1 old),
                    deleted_other S L accepts r new_id other apart e1,
                  ))))

    regenerate-Retired :
        (new_id : Option String) (r : Request V S.State)
        → ((id : String) → new_id ≡ some id → S.stored r.storage id ≡ none)
        → IssuesNew L r.storage r.session.id
        → r.session.logged_out ≡ false
        → IsStored S r r.session.values
        → Retired r (regenerate S accepts new_id r)
    unfolding regenerate Retired
    regenerate-Retired new_id r fresh new alive (holds, (kept, stands, same)) =
        let old = r.session.id in
        if_cases (Retired r) r.session.logged_out _ _ (λ e. tt)
          (λ e.
            if_cases (Retired r) S.is_cookie _ _
              (λ is_cookie.
                rotate-Retired r (S.encode_with_family r.storage r.session.values r.session.family)
                  (λ id e1. (new r.session.values r.session.family id e1).1)
                  (λ j.
                    L.encode_with_family-stored r.storage r.session.values r.session.family j
                      (λ id e1. (new r.session.values r.session.family id e1).0)))
              (λ other.
                regenerate_stored-Retired r new_id other
                  (λ id e1. fresh_differs S L r.storage id old kept (fresh id e1) stands)))

    -- A Regenerate that succeeds on a session in step gives the client another identifier: the old one
    -- stands for nothing in the storage, and the new one for the session's values. With a cookie storage
    -- the old token is revoked, with another storage its entry is deleted. The storage is lawful, the
    -- new identifier stood for nothing, and a token that is issued next is a new one.
    pub regenerate_retires_id :
        (new_id : Option String) (r r1 : Request V S.State)
        → ((id : String) → new_id ≡ some id → S.stored r.storage id ≡ none)
        → IssuesNew L r.storage r.session.id
        → r.session.logged_out ≡ false
        → IsStored S r r.session.values
        → regenerate S accepts new_id r ≡ (none, r1)
        → (r1.client ≡ some r1.session.id)
          × ((r1.session.id == r.session.id) ≡ false)
          × (S.stored r1.storage r.session.id ≡ none)
          × (S.stored r1.storage r1.session.id ≡ some r.session.values)
    unfolding Retired
    regenerate_retires_id new_id r r1 fresh new alive stored e =
        subst (Retired r) e (regenerate-Retired new_id r fresh new alive stored)
