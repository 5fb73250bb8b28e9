-- ===== src/Session/Managed/Runs.antt =====
-- ghttp/session.go: a request from Open through any calls on its session.
use gonex.Common.{
  if◌then◌else◌, String, List, [], ◌∷◌, Bool, true, false, Option, none, some, ◌≡◌, inr, refl, sym,
  ◌∙◌, subst, not, arith, eq_iff, if_cases,
}
use gonex.Common.Dict.{Dict}
use gonex.Common.Text.{is_blank}
use gonex.Session.Managed.{
  Found, found, not_found, get_failed, Err, Storage, IsLawful, IssuesNew, Request, Opening, opened,
  refused, attach, attach_token, attach_stored, open_new, attach_found, continue, open_session,
  set_value, delete_value, clear, regenerate, logout, issued,
}
use gonex.Session.Managed.Laws.{IsInStep}
use gonex.Session.Managed.Steps.{set_value-IsInStep, delete_value-IsInStep, clear-IsInStep}
use gonex.Session.Managed.Regenerate.{regenerate-IsInStep, logout-IsInStep}

-- A call on a session: Set of a value that is normalized or refused, Delete, Clear, Regenerate on the answer
-- of session.NewID, and Logout.
pub data Call (V : Type 0) : Type 0 where
  set_call : String → Option V → Call V
  delete_call : String → Call V
  clear_call logout_call : Call V
  regenerate_call : Option String → Call V

module _ {V : Type 0} (S : Storage V) where
  unfoldable pub step :
      (String → Bool) → Call V → Request V S.State → Option Err × Request V S.State
  unfolding set_value delete_value clear regenerate logout
  step accepts (set_call key value) r = set_value S accepts key value r
  step accepts (delete_call key) r = delete_value S accepts key r
  step accepts clear_call r = clear S accepts r
  step accepts logout_call r = logout S accepts r
  step accepts (regenerate_call new_id) r = regenerate S accepts new_id r

  -- Calls in turn, each with what the response accepts at the time.
  unfoldable pub run : List ((String → Bool) × Call V) → Request V S.State → Request V S.State
  unfolding step
  run [] r = r
  run ((accepts, call) ∷ calls) r = run calls (step accepts call r).1

  abbrev OpensInStep : Opening V S.State → Type 0
  OpensInStep (opened r) = IsInStep S r
  OpensInStep (refused e s) = Unit

  module _ (L : IsLawful S) where
    -- What random identifiers are for a call: a token that is issued next is a new one, and the new
    -- identifier of a Regenerate stands for nothing.
    abbrev pub IsFresh : Call V → Request V S.State → Type 0
    IsFresh (regenerate_call new_id) r =
        IssuesNew L r.storage r.session.id
        × ((id : String) → new_id ≡ some id → S.stored r.storage id ≡ none)
    IsFresh _ r = IssuesNew L r.storage r.session.id

    unfoldable pub HasFreshIds : List ((String → Bool) × Call V) → Request V S.State → Type 0
    unfolding step
    HasFreshIds [] r = Unit
    HasFreshIds ((accepts, call) ∷ calls) r =
        IsFresh call r × HasFreshIds calls (step accepts call r).1

    -- The storage when Open issues a new identifier.
    abbrev pub opening : Option String → S.State → S.State
    opening none s = s
    opening (some id) s = if is_blank id then s else (S.get s id).1

    -- A token that Open issues is not spent.
    abbrev pub OpensNew : S.State → Type 0
    OpensNew s = (id : String) → (S.encode s []).0 ≡ some id → L.is_spent s id ≡ false

    opening_blank : (id : String) (s : S.State) → is_blank id ≡ true → opening (some id) s ≡ s
    opening_blank id s blank = ground (arith, blank)

    opening_named :
        (id : String) (s : S.State) → is_blank id ≡ false → opening (some id) s ≡ (S.get s id).1
    opening_named id s named = ground (arith, named)

    step-IsInStep :
        (accepts : String → Bool) (call : Call V) (r : Request V S.State)
        → IsFresh call r
        → IsInStep S r
        → IsInStep S (step accepts call r).1
    unfolding step
    step-IsInStep accepts (set_call key value) r fresh h =
        set_value-IsInStep S L accepts key value r fresh h
    step-IsInStep accepts (delete_call key) r fresh h =
        delete_value-IsInStep S L accepts key r fresh h
    step-IsInStep accepts clear_call r fresh h = clear-IsInStep S L accepts r fresh h
    step-IsInStep accepts logout_call r fresh h = logout-IsInStep S L accepts r h
    step-IsInStep accepts (regenerate_call new_id) r (new, fresh) h =
        regenerate-IsInStep S L accepts new_id r fresh new h

    run-IsInStep :
        (calls : List ((String → Bool) × Call V)) (r : Request V S.State)
        → HasFreshIds calls r
        → IsInStep S r
        → IsInStep S (run calls r)
    unfolding run HasFreshIds
    run-IsInStep [] r fresh h = h
    run-IsInStep ((accepts, call) ∷ calls) r (fresh, rest) h =
        run-IsInStep calls (step accepts call r).1 rest (step-IsInStep accepts call r fresh h)

    module _ (normalize_map : Dict V → Option (Dict V)) (accepts : String → Bool) where
      attach-OpensInStep :
          (created : Bool) (id : String) (values : Dict V) (s : S.State)
          → S.stored s id ≡ some values
          → OpensInStep (attach S normalize_map accepts created id values s)
      unfolding attach
      attach-OpensInStep created id values s stands =
          if_cases OpensInStep (is_blank id) _ _ (λ e. tt)
            (λ e.
              if_cases OpensInStep (not (accepts id)) _ _ (λ e1. tt)
                (λ e1. inr (refl, (refl, (values, stands, λ key. refl)))))

      attach_token-OpensInStep :
          (token : Option String × S.State) (before : String → Option (Dict V))
          → ((j : String) → S.stored token.1 j ≡ issued token.0 [] j (before j))
          → OpensInStep (attach_token S normalize_map accepts token)
      unfolding attach_token
      attach_token-OpensInStep (none, s) before issues = tt
      attach_token-OpensInStep (some id, s) before issues =
          attach-OpensInStep false id [] s (ground (arith, issues id, eq_iff id id))

      attach_stored-OpensInStep :
          (new_id : Option String) (s : S.State)
          → OpensInStep (attach_stored S normalize_map accepts new_id s)
      unfolding attach_stored
      attach_stored-OpensInStep none s = tt
      attach_stored-OpensInStep (some id) s =
          if_cases OpensInStep (not (S.set s id []).0) _ _ (λ e. tt)
            (λ e.
              attach-OpensInStep true id [] (S.set s id []).1
                (ground (arith, e, L.set-stored s id [] id, eq_iff id id)))

      open_new-OpensInStep :
          (new_id : Option String) (s : S.State)
          → OpensNew s
          → OpensInStep (open_new S normalize_map accepts new_id s)
      unfolding open_new
      open_new-OpensInStep new_id s new =
          if_cases OpensInStep S.is_cookie _ _
            (λ e.
              attach_token-OpensInStep (S.encode s []) (S.stored s)
                (λ j. L.encode-stored s [] j new))
            (λ e. attach_stored-OpensInStep new_id s)

      continue-OpensInStep :
          (id : String) (new_id : Option String) (answer : Found V × S.State)
          → ((values : Dict V)
              → answer.0 ≡ found values
              → (S.stored answer.1 id ≡ some values) × (normalize_map values ≡ some values))
          → OpensNew answer.1
          → OpensInStep (continue S normalize_map accepts id new_id answer)
      unfolding continue attach_found
      continue-OpensInStep id new_id (found values, s) stands new =
          let (here, normal) = stands values refl in
          subst (λ n. OpensInStep (attach_found S normalize_map accepts id n s)) (sym normal)
            (attach-OpensInStep false id values s here)
      continue-OpensInStep id new_id (not_found, s) stands new = open_new-OpensInStep new_id s new
      continue-OpensInStep id new_id (get_failed, s) stands new = tt

      open_session-OpensInStep :
          (cookie new_id : Option String) (s : S.State)
          → ((id : String) (values : Dict V)
              → S.stored s id ≡ some values
              → normalize_map values ≡ some values)
          → OpensNew (opening cookie s)
          → OpensInStep (open_session S normalize_map accepts cookie new_id s)
      unfolding open_session
      open_session-OpensInStep none new_id s normal new = open_new-OpensInStep new_id s new
      open_session-OpensInStep (some id) new_id s normal new =
          if_cases OpensInStep (is_blank id) _ _
            (λ blank. open_new-OpensInStep new_id s (subst OpensNew (opening_blank id s blank) new))
            (λ named.
              continue-OpensInStep id new_id (S.get s id)
                (λ values answer.
                  let here = L.get-found s id values answer in
                  (L.get-stored s id id ∙ here, normal id values here))
                (subst OpensNew (opening_named id s named) new))

    -- A session that Open returns, for any cookie of the request, and any calls on it after that, of which
    -- each may fail at any of its steps: in the end either the session is logged out and the client has no
    -- session cookie, or the client's cookie holds the identifier of the session and the storage has the
    -- session's values under it. The storage is lawful, what it holds is normalized, and random
    -- identifiers are new: a token that is issued is not spent and not the session's token, and the new
    -- identifiers that Regenerate is given stand for nothing.
    pub session_stays_consistent :
        (normalize_map : Dict V → Option (Dict V)) (accepts : String → Bool)
        (cookie new_id : Option String) (s : S.State) (r : Request V S.State)
        (calls : List ((String → Bool) × Call V))
        → ((id : String) (values : Dict V)
            → S.stored s id ≡ some values
            → normalize_map values ≡ some values)
        → OpensNew (opening cookie s)
        → open_session S normalize_map accepts cookie new_id s ≡ opened r
        → HasFreshIds calls r
        → IsInStep S (run calls r)
    session_stays_consistent normalize_map accepts cookie new_id s r calls normal new opens fresh =
        run-IsInStep calls r fresh (
          subst OpensInStep opens
            (open_session-OpensInStep normalize_map accepts cookie new_id s normal new))
