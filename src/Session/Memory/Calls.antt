-- ===== src/Session/Memory/Calls.antt =====
-- The refinement of MemoryStorage (session/storage.go) over sequences of calls.
use gonex.Common.{ℕ, String, ◌≡◌, ◌≤◌, refl, ap, ◌∙◌, inl, inr, Option, none, some, List, [], ◌∷◌}
use gonex.Common.Dict
use gonex.Common.Dict.{
  Dict, get-put, get-remove, get-drop_if, keep_unless, HasUniqueKeys, put-HasUniqueKeys,
  remove-HasUniqueKeys, drop_if-HasUniqueKeys,
}
use gonex.Common.Int.{ℤ}
use gonex.Session.Values.{Result-cases, ok, failed, Outcome, Json, normalize_map}
use gonex.Session.Memory.{
  MemoryStorage, expiry, new_memory_storage, get_first, get_second, set, delete,
}
use gonex.Session.Memory.Reference.{
  Reference, live, assign, to_option, look_option, Implements, Implements-later, set-Implements,
  delete-Implements, first-live, second-live, second-Implements,
}

-- The calls of a storage, each with the instant at which it reads the clock; `Get` is one or two of
-- them, between which other calls may come.
pub data Call (json : Json) : Type 0 where
  sets : ℕ → String → Option json.Object → ℤ → Call json
  looks retries : ℕ → String → Call json
  deletes : ℕ → String → Call json

-- What a client learns from a call: an error of `Set`, or the values of a session.
pub data Answer (V : Type 0) : Type 0 where
  done : Outcome → Answer V
  values : Option V → Answer V

abbrev pub clock : {json : Json} → Call json → ℕ
clock (sets now id v ttl) = now
clock (looks now id) = now
clock (retries now id) = now
clock (deletes now id) = now

module _ (json : Json) where
  pub on_storage :
      Call json → MemoryStorage json.Object → Answer json.Object × MemoryStorage json.Object
  unfolding set get_first get_second delete
  on_storage (sets now id v ttl) m = let (e, m') = set json now id v ttl m in (done e, m')
  on_storage (looks now id) m = (values (look_option (get_first now id m)), m)
  on_storage (retries now id) m = let (r, m') = get_second now id m in (values (to_option r), m')
  on_storage (deletes now id) m = (done none, delete id m)

  pub on_reference : Call json → Reference json.Object → Answer json.Object × Reference json.Object
  unfolding normalize_map live
  on_reference (sets now id v ttl) spec = elim (normalize_map json v) [
    | failed e ↦ (done (some e), spec)
    | ok n ↦ (done none, assign spec id (some (record { values = n; expires_at = expiry now ttl })))
  ]
  on_reference (looks now id) spec = (values (live now (spec id)), spec)
  on_reference (retries now id) spec = (values (live now (spec id)), spec)
  on_reference (deletes now id) spec = (done none, assign spec id none)

  -- The answers to a sequence of calls.
  pub answers_of {ℓ} :
      {S : Type ℓ}
      → (Call json → S → Answer json.Object × S)
      → List (Call json)
      → S
      → List (Answer json.Object)
  answers_of f [] s = []
  answers_of f (c ∷ cs) s = (f c s).0 ∷ answers_of f cs (f c s).1

  -- The clock does not run backwards.
  abbrev pub IsTimely : ℕ → List (Call json) → Type 0
  IsTimely now [] = Unit
  IsTimely now (c ∷ cs) = (now ≤ clock c) × IsTimely (clock c) cs

  on-Implements :
      (c : Call json) (m : MemoryStorage json.Object) (spec : Reference json.Object)
      → Implements (clock c) m spec
      → ((on_storage c m).0 ≡ (on_reference c spec).0)
        × Implements (clock c) (on_storage c m).1 (on_reference c spec).1
  unfolding on_storage on_reference set
  on-Implements (sets now id v ttl) m spec i = elim (Result-cases (normalize_map json v)) [
    | inl (e, bad) ↦ rw (bad, set) (rw (bad, on_reference) (refl, i))
    | inr (n, fine) ↦
        rw (fine, set) (rw (fine, on_reference) (refl, set-Implements now id n ttl m spec i))
  ]
  on-Implements (looks now id) m spec i = (ap values (first-live now id m spec i), i)
  on-Implements (retries now id) m spec i =
      (ap values (second-live now id m spec i), second-Implements now id m spec i)
  on-Implements (deletes now id) m spec i = (refl, delete-Implements now id m spec i)

  answers-Implements :
      (cs : List (Call json)) (now : ℕ) (m : MemoryStorage json.Object)
      (spec : Reference json.Object)
      → IsTimely now cs
      → Implements now m spec
      → answers_of on_storage cs m ≡ answers_of on_reference cs spec
  unfolding answers_of
  answers-Implements [] now m spec t i = refl
  answers-Implements (c ∷ cs) now m spec (le, t) i =
      let (same, next) = on-Implements c m spec (Implements-later now (clock c) m spec le i) in
      ap (λ a. a ∷ answers_of on_storage cs (on_storage c m).1) same
      ∙ ap (λ as'. (on_reference c spec).0 ∷ as') (answers-Implements cs (clock c) _ _ t next)

  -- A storage in memory answers every sequence of calls, with the two parts of any `Get` apart, like
  -- a store that keeps every entry for ever and hides it once it is expired, as long as the clock does
  -- not run backwards: sweeping and the removal of a stale entry are never seen.
  pub storage_refines :
      (start : ℕ) (calls : List (Call json))
      → IsTimely start calls
      → answers_of on_storage calls (new_memory_storage start)
        ≡ answers_of on_reference calls (λ id. none)
  unfolding new_memory_storage Dict.get
  storage_refines start calls timely =
      answers-Implements calls start (new_memory_storage start) (λ id. none) timely
        (record { unique = tt; entries = λ id. inl refl })
