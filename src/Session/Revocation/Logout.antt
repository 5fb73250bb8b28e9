-- ===== src/Session/Revocation/Logout.antt =====
-- What a logout of a session family revokes (session/storage.go).
use gonex.Common.{
  ℕ, String, ◌≡◌, ◌≤◌, ◌<◌, sym, ◌∙◌, true, false, none, List, [], ◌∷◌, arith, ◌++◌, eq_iff,
}
use text.Mathlib.TextPositions.{eq_refl}
use gonex.Common.Text.{is_blank}
use gonex.Session.Revocation.{MemoryStore, new_memory_store}
use gonex.Session.Revocation.Reference.{Ledger, Implements}
use gonex.Session.Revocation.Calls.{
  Call, checks, registers, revokes_family, revokes_token, clock, revoked, done, on_store, on_ledger,
  after_calls, IsTimely, empty_ledger, empty-Implements, on-Implements, answer-Implements,
  Implements-later,
}

-- A later ledger revokes and knows no less.
abbrev pub Below : Ledger → Ledger → Type 0
Below l l' =
    (k : String)
    → (l.tokens k ≤ l'.tokens k)
      × (l.families k ≤ l'.families k)
      × (l.family_expiries k ≤ l'.family_expiries k)

on_ledger-Below : (c : Call) (l : Ledger) → Below l (on_ledger c l).1
unfolding on_ledger
on_ledger-Below (checks token family n) l k = omega arith
on_ledger-Below (registers family e n) l k = ground (arith, eq_iff family k)
on_ledger-Below (revokes_family family e n) l k = ground (arith, eq_iff family k)
on_ledger-Below (revokes_token token e) l k = ground (arith, eq_iff token k)

after_calls-Below : (cs : List Call) (l : Ledger) → Below l (after_calls on_ledger cs l)
unfolding after_calls
after_calls-Below [] l k = omega arith
after_calls-Below (c ∷ cs) l k =
    omega (arith, on_ledger-Below c l k, after_calls-Below cs (on_ledger c l).1 k)

-- An accepted registration records its expiry.
registered :
    (family : String) (x r : ℕ) (l : Ledger)
    → (on_ledger (registers family x r) l).0 ≡ done none
    → x ≤ (on_ledger (registers family x r) l).1.family_expiries family
unfolding on_ledger
registered family x r l accepted = ground (arith, eq_refl family)

-- A revocation reaches every recorded expiry.
covered :
    (family : String) (e t : ℕ) (l : Ledger)
    → l.family_expiries family ≤ (on_ledger (revokes_family family e t) l).1.families family
unfolding on_ledger
covered family e t l = ground (arith, eq_refl family)

check_revoked :
    (token family : String) (n : ℕ) (l : Ledger)
    → is_blank family ≡ false
    → n < l.families family
    → (on_ledger (checks token family n) l).0 ≡ revoked true
unfolding on_ledger
check_revoked token family n l named late = ground arith

-- A part of a history, and what is left of it.
after-Implements :
    (cs rest : List Call) (now : ℕ) (m : MemoryStore) (l : Ledger)
    → IsTimely now (cs ++ rest)
    → Implements now m l
    → (t : ℕ) × IsTimely t rest
      × Implements t (after_calls on_store cs m) (after_calls on_ledger cs l)
unfolding after_calls
after-Implements [] rest now m l timely i = (now, timely, i)
after-Implements (c ∷ cs) rest now m l (le, timely) i =
    after-Implements cs rest (clock now c) _ _ timely
      (on-Implements c now m l (Implements-later now (clock now c) m l le i))

-- Once a family token that expires at `x` was registered, a logout of the family, whatever expiry it
-- is given itself, makes every token of the family revoked at every instant before `x`, whatever
-- calls come before, between and after, as long as the clock does not run backwards.
pub logout_covers :
    (before between later : List Call) (family token : String) (x r e t n : ℕ)
    → IsTimely 0 (
        before
        ++ (registers family x r
            ∷ (between ++ (revokes_family family e t ∷ (later ++ checks token family n ∷ [])))))
    → is_blank family ≡ false
    → n < x
    → (on_store (registers family x r) (after_calls on_store before new_memory_store)).0 ≡ done none
    → let m1 = after_calls on_store before new_memory_store in
      let m2 = (on_store (registers family x r) m1).1 in
      let m3 = after_calls on_store between m2 in
      let m4 = (on_store (revokes_family family e t) m3).1 in
      let m5 = after_calls on_store later m4 in
      (on_store (checks token family n) m5).0 ≡ revoked true
logout_covers before between later family token x r e t n timely named live accepted =
    let register = registers family x r in
    let revoke = revokes_family family e t in
    let check = checks token family n in
    let rest = later ++ check ∷ [] in
    let l1 = after_calls on_ledger before empty_ledger in
    let m1 = after_calls on_store before new_memory_store in
    let l2 = (on_ledger register l1).1 in
    let m2 = (on_store register m1).1 in
    let l3 = after_calls on_ledger between l2 in
    let m3 = after_calls on_store between m2 in
    let l4 = (on_ledger revoke l3).1 in
    let m4 = (on_store revoke m3).1 in
    let l5 = after_calls on_ledger later l4 in
    let m5 = after_calls on_store later m4 in
    let (t1, timely1, i1) =
      after-Implements before (register ∷ (between ++ (revoke ∷ rest))) 0 new_memory_store
        empty_ledger timely empty-Implements in
    let i1' = Implements-later t1 r m1 l1 timely1.0 i1 in
    let i2 = on-Implements register t1 m1 l1 i1' in
    let (t3, timely3, i3) = after-Implements between (revoke ∷ rest) r m2 l2 timely1.1 i2 in
    let i4 = on-Implements revoke t3 m3 l3 (Implements-later t3 t m3 l3 timely3.0 i3) in
    let (t5, timely5, i5) = after-Implements later (check ∷ []) t m4 l4 timely3.1 i4 in
    let same = answer-Implements check t5 m5 l5 (Implements-later t5 n m5 l5 timely5.0 i5) in
    let taken =
      registered family x r l1 (sym (answer-Implements register t1 m1 l1 i1') ∙ accepted) in
    same
    ∙ check_revoked token family n l5 named (
        omega (
          arith,
          taken,
          after_calls-Below between l2 family,
          covered family e t l3,
          after_calls-Below later l4 family,
        ))
