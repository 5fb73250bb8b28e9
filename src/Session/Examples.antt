-- ===== src/Session/Examples.antt =====
-- The theorems on the stores of session/storage.go at work on short histories.
use gonex.Common.{◌≡◌, refl, true, none, some, List, [], ◌∷◌, arith}
use gonex.Common.Dict
use gonex.Common.Int.{pos}
use gonex.Session.Memory.{new_memory_storage}
use gonex.Session.Memory.Calls.{
  sets, looks, retries, deletes, answers_of, on_storage, on_reference, storage_refines,
}
use gonex.Session.Revocation.{new_memory_store}
use gonex.Session.Revocation.Calls
use gonex.Session.Revocation.Calls.{
  checks, registers, revokes_family, done, revoked, on_store, on_ledger, after_calls, empty_ledger,
  revocation_refines,
}
use gonex.Session.Revocation.Logout.{logout_covers}
use gonex.Session.Cookie.Examples.{numbers}

abbrev storage_calls : List (gonex.Session.Memory.Calls.Call numbers)
storage_calls =
    sets 5 "a" (some 7) (pos 10)
    ∷ looks 6 "a"
    ∷ sets 100000000000 "b" none (pos 0)
    ∷ retries 100000000001 "a"
    ∷ deletes 100000000002 "b"
    ∷ []

storage_refines_example :
    answers_of numbers (on_storage numbers) storage_calls (new_memory_storage 0)
    ≡ answers_of numbers (on_reference numbers) storage_calls (λ id. none)
storage_refines_example = storage_refines numbers 0 storage_calls (omega arith)

revocation_refines_example :
    Calls.answers_of on_store
      (registers "f" 9 1 ∷ revokes_family "f" 3 2 ∷ checks "t" "f" 8 ∷ [])
      new_memory_store
    ≡ Calls.answers_of on_ledger
        (registers "f" 9 1 ∷ revokes_family "f" 3 2 ∷ checks "t" "f" 8 ∷ [])
        empty_ledger
revocation_refines_example = revocation_refines _ (omega arith)

logout_covers_example :
    let m2 = (on_store (registers "f" 9 1) new_memory_store).1 in
    let m4 = (on_store (revokes_family "f" 3 2) m2).1 in
    (on_store (checks "t" "f" 8) m4).0 ≡ revoked true
unfolding after_calls on_store Dict.get Dict.drop_if new_memory_store
logout_covers_example =
    logout_covers [] [] [] "f" "t" 9 1 3 2 8 (omega arith) refl (omega arith) refl
