-- ===== src/Session/Revocation/Calls.antt =====
-- The refinement of MemoryCookieRevocationStore (session/storage.go) over sequences of calls.
use gonex.Common.{
  ℕ, String, ◌≡◌, ◌≤◌, refl, ap, ◌∙◌, inl, Bool, not, ◌&&◌, ◌||◌, none, some, List, [], ◌∷◌, arith,
  ltb, if◌then◌else◌, if_both,
}
use gonex.Common.Dict
use gonex.Common.Dict.{
  Dict, get-put, get-drop_if, HasUniqueKeys, put-HasUniqueKeys, drop_if-HasUniqueKeys,
}
use gonex.Common.Text.{is_blank}
use gonex.Session.Values.{not_found, Outcome}
use gonex.Session.Revocation.{
  MemoryStore, new_memory_store, is_revoked, register_family_token, revoke_token, revoke_family,
}
use gonex.Session.Revocation.Reference.{
  Ledger, max, raise_at, Matches, Matches-later, Implements, cleanup-Implements, raise-Matches,
}

-- The calls of a revocation store, with the instants that they are given.
pub data Call : Type 0 where
  checks : String → String → ℕ → Call
  registers revokes_family : String → ℕ → ℕ → Call
  revokes_token : String → ℕ → Call

-- What a client learns.
pub data Answer : Type 0 where
  revoked : Bool → Answer
  done : Outcome → Answer

-- The clock after a call; RevokeToken is given none.
abbrev pub clock : ℕ → Call → ℕ
clock now (checks token family n) = n
clock now (registers family expires_at n) = n
clock now (revokes_family family expires_at n) = n
clock now (revokes_token token expires_at) = now

unfoldable pub on_store : Call → MemoryStore → Answer × MemoryStore
unfolding is_revoked register_family_token revoke_token revoke_family
on_store (checks token family now) m =
    let (b, m') = is_revoked token family now m in (revoked b, m')
on_store (registers family expires_at now) m =
    let (e, m') = register_family_token family expires_at now m in (done e, m')
on_store (revokes_family family expires_at now) m =
    let (e, m') = revoke_family family expires_at now m in (done e, m')
on_store (revokes_token token expires_at) m =
    let (e, m') = revoke_token token expires_at m in (done e, m')

unfoldable pub on_ledger : Call → Ledger → Answer × Ledger
on_ledger (checks token family now) l = (
  revoked (ltb now (l.tokens token) || (not (is_blank family) && ltb now (l.families family))),
  l,
)
on_ledger (registers family expires_at now) l =
    if ltb now (l.families family)
    then (done (some not_found), l)
    else (done none, record l { family_expiries = raise_at l.family_expiries family expires_at })
on_ledger (revokes_family family expires_at now) l = (
  done none,
  record l { families = raise_at l.families family (max expires_at (l.family_expiries family)) },
)
on_ledger (revokes_token token expires_at) l =
    (done none, record l { tokens = raise_at l.tokens token expires_at })

unfoldable pub after_calls {ℓ} : {S : Type ℓ} → (Call → S → Answer × S) → List Call → S → S
after_calls f [] s = s
after_calls f (c ∷ cs) s = after_calls f cs (f c s).1

pub answers_of {ℓ} : {S : Type ℓ} → (Call → S → Answer × S) → List Call → S → List Answer
answers_of f [] s = []
answers_of f (c ∷ cs) s = (f c s).0 ∷ answers_of f cs (f c s).1

-- The clock does not run backwards.
abbrev pub IsTimely : ℕ → List Call → Type 0
IsTimely now [] = Unit
IsTimely now (c ∷ cs) = (now ≤ clock now c) × IsTimely (clock now c) cs

unfoldable pub empty_ledger : Ledger
empty_ledger = record { tokens = λ k. 0; families = λ k. 0; family_expiries = λ k. 0 }

pub Implements-later :
    (now later : ℕ) (m : MemoryStore) (l : Ledger)
    → now ≤ later
    → Implements now m l
    → Implements later m l
Implements-later now later m l le i = record {
  tokens = Matches-later now later m.tokens l.tokens le i.tokens;
  families = Matches-later now later m.families l.families le i.families;
  family_expiries =
      Matches-later now later m.family_expiries l.family_expiries le i.family_expiries;
}

pub answer-Implements :
    (c : Call) (now : ℕ) (m : MemoryStore) (l : Ledger)
    → Implements (clock now c) m l
    → (on_store c m).0 ≡ (on_ledger c l).0
unfolding on_store on_ledger is_revoked register_family_token revoke_token revoke_family
answer-Implements (checks token family n) now m l i =
    let clean = cleanup-Implements n m l i in
    ground (arith, clean.tokens.values token, clean.families.values family)
answer-Implements (registers family e n) now m l i =
    let clean = cleanup-Implements n m l i in ground (arith, clean.families.values family)
answer-Implements (revokes_family family e n) now m l i = refl
answer-Implements (revokes_token token e) now m l i = refl

pub on-Implements :
    (c : Call) (now : ℕ) (m : MemoryStore) (l : Ledger)
    → Implements (clock now c) m l
    → Implements (clock now c) (on_store c m).1 (on_ledger c l).1
unfolding on_store on_ledger is_revoked register_family_token revoke_token revoke_family
on-Implements (checks token family n) now m l i = cleanup-Implements n m l i
on-Implements (registers family e n) now m l i =
    let clean = cleanup-Implements n m l i in
    if_both (λ (a : Outcome × MemoryStore) (b : Answer × Ledger). Implements n a.1 b.1) _ _ _ _ _ _
      (ground (arith, clean.families.values family)) clean
      (record {
        tokens = clean.tokens;
        families = clean.families;
        family_expiries =
            raise-Matches n _ l.family_expiries family e e (inl refl) clean.family_expiries;
      })
on-Implements (revokes_family family e n) now m l i =
    let clean = cleanup-Implements n m l i in
    record {
      tokens = clean.tokens;
      families =
          raise-Matches n _ l.families family _ _
            (ground (arith, clean.family_expiries.values family)) clean.families;
      family_expiries = clean.family_expiries;
    }
on-Implements (revokes_token token e) now m l i = record {
  tokens = raise-Matches now m.tokens l.tokens token e e (inl refl) i.tokens;
  families = i.families;
  family_expiries = i.family_expiries;
}

after-Implements :
    (cs : List Call) (now : ℕ) (m : MemoryStore) (l : Ledger)
    → IsTimely now cs
    → Implements now m l
    → answers_of on_store cs m ≡ answers_of on_ledger cs l
unfolding answers_of
after-Implements [] now m l t i = refl
after-Implements (c ∷ cs) now m l (le, t) i =
    let here = Implements-later now (clock now c) m l le i in
    ap (λ a. a ∷ answers_of on_store cs (on_store c m).1) (answer-Implements c now m l here)
    ∙ ap (λ as'. (on_ledger c l).0 ∷ as')
        (after-Implements cs (clock now c) _ _ t (on-Implements c now m l here))

pub empty-Implements : Implements 0 new_memory_store empty_ledger
unfolding new_memory_store empty_ledger Dict.get
empty-Implements =
    let none_at : Matches 0 [] (λ k. 0) = record { unique = tt; values = λ k. inl refl } in
    record { tokens = none_at; families = none_at; family_expiries = none_at }

-- The store in memory answers every sequence of calls like a ledger that forgets nothing, as long as
-- the clock does not run backwards: dropping what is expired is never seen.
pub revocation_refines :
    (calls : List Call)
    → IsTimely 0 calls
    → answers_of on_store calls new_memory_store ≡ answers_of on_ledger calls empty_ledger
revocation_refines calls timely =
    after-Implements calls 0 new_memory_store empty_ledger timely empty-Implements
