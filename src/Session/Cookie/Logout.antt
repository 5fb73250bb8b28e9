-- ===== src/Session/Cookie/Logout.antt =====
-- Logout of a cookie session (session/storage.go) with the revocation store in memory.
use gonex.Common.{
  ℕ, ◌<◌, String, ◌≡◌, sym, ap, ◌∙◌, inl, inr, true, false, none, List, [], ◌∷◌, ◌++◌, arith,
}
use gonex.Common.Text.{is_blank}
use gonex.Session.Values.{Err, not_found, Result-cases, ok, failed, Json}
use gonex.Session.Revocation.{memory_store, new_memory_store, MemoryStore}
use gonex.Session.Revocation.Calls.{
  Call, checks, registers, revokes_family, done, revoked, on_store, after_calls, IsTimely,
}
use gonex.Session.Revocation.Logout.{logout_covers}
use gonex.Session.Cookie.{
  CookiePayload, Library, CookieStorage, cookie_expiry, verified, decode, get, delete, issue,
}
use gonex.Session.Cookie.Authentic.{decode_lem, opened_lem}
use gonex.Session.Cookie.Tokens.{IsFaithful, issue_lem, signed-verified}

module _ (json : Json) (library : Library json.Object) (faithful : IsFaithful library)
    (storage : CookieStorage) where
  abbrev digest : String → String
  digest = library.sha256_hex

  delete_store :
      (now t : ℕ) (id : String) (q : CookiePayload json.Object) (m : MemoryStore)
      → decode json library storage now id ≡ ok q
      → is_blank q.family ≡ false
      → (delete json library storage memory_store now t id m).1
        ≡ (on_store (revokes_family (digest q.family) (cookie_expiry q) t) m).1
  unfolding delete on_store
  delete_store now t id q m h named = ground arith

  get_store :
      (now n : ℕ) (id : String) (q : CookiePayload json.Object) (m : MemoryStore)
      → decode json library storage now id ≡ ok q
      → (on_store (checks (digest id) (digest q.family) n) m).0 ≡ revoked true
      → (get json library storage memory_store now n id m).0 ≡ failed not_found
  unfolding get on_store
  get_store now n id q m h gone = ground arith

  get_closed :
      (now n : ℕ) (id : String) (m : MemoryStore) {e : Err}
      → decode json library storage now id ≡ failed e
      → (get json library storage memory_store now n id m).0 ≡ failed not_found
  unfolding get
  get_closed now n id m h = ground arith

  issue_store :
      (r : ℕ) (p : CookiePayload json.Object) (m : MemoryStore) (token : String)
      → (issue json library storage memory_store r p m).0 ≡ ok token
      → let register = registers (digest p.family) (cookie_expiry p) r in
        ((on_store register m).0 ≡ done none)
        × ((issue json library storage memory_store r p m).1 ≡ (on_store register m).1)
  unfolding issue on_store
  issue_store r p m token h =
      let (b, fine, made) = issue_lem json library faithful storage memory_store r p m token h in
      ground arith

  -- A token that was issued for a payload opens as a payload of the same family.
  family_of_token :
      (r now : ℕ) (p q : CookiePayload json.Object) (m : MemoryStore) (token : String)
      → (issue json library storage memory_store r p m).0 ≡ ok token
      → decode json library storage now token ≡ ok q
      → q.family ≡ p.family
  family_of_token r now p q m token h d =
      let (b, fine, made) = issue_lem json library faithful storage memory_store r p m token h in
      let (decoded, base, checked) = decode_lem json library storage now token q d in
      let whole =
        sym base
        ∙ ap library.decode_base64 made
        ∙ faithful.base64 (b ++ library.hmac storage.secret b) in
      let same : decoded ≡ b ++ library.hmac storage.secret b = ground (arith, whole) in
      let opens =
        sym (
          ap (verified json library storage now) same
          ∙ signed-verified json library faithful storage now b)
        ∙ checked in
      let (q', read, live, eq) = opened_lem json library storage now _ q opens in
      let p_read = faithful.json p b fine in
      ground (arith, ap (λ (x : CookiePayload json.Object). x.family) eq)

  -- A logout with one token of a session family (`Delete`), whatever its own expiry, ends every token
  -- that was issued for the family before, at every instant until that token expires: `Get` finds no
  -- session, whatever calls of the store come before, between and after, as long as the clock does
  -- not run backwards.
  pub logout_ends_family :
      (before between later : List Call) (p q : CookiePayload json.Object) (id token : String)
      (r now t now' n : ℕ)
      → IsTimely 0 (
          before
          ++ (registers (digest p.family) (cookie_expiry p) r
              ∷ (between
                  ++ (revokes_family (digest p.family) (cookie_expiry q) t
                      ∷ (later ++ checks (digest token) (digest p.family) n ∷ [])))))
      → is_blank p.family ≡ false
      → n < cookie_expiry p
      → (issue json library storage memory_store r p
          (after_calls on_store before new_memory_store)).0
        ≡ ok token
      → decode json library storage now id ≡ ok q
      → q.family ≡ p.family
      → let m1 = after_calls on_store before new_memory_store in
        let m2 = (issue json library storage memory_store r p m1).1 in
        let m3 = after_calls on_store between m2 in
        let m4 = (delete json library storage memory_store now t id m3).1 in
        let m5 = after_calls on_store later m4 in
        (get json library storage memory_store now' n token m5).0 ≡ failed not_found
  logout_ends_family before between later p q id token r now t now' n timely named live issued opens
        same =
      elim (Result-cases (decode json library storage now' token)) [
        | inl (e, bad) ↦ get_closed now' n token _ bad
        | inr (q', fine) ↦
            let m1 = after_calls on_store before new_memory_store in
            let m2 = (issue json library storage memory_store r p m1).1 in
            let m3 = after_calls on_store between m2 in
            let m4 = (delete json library storage memory_store now t id m3).1 in
            let family = digest p.family in
            let revoke =
              λ (m : MemoryStore). (on_store (revokes_family family (cookie_expiry q) t) m).1 in
            let (accepted, stored) = issue_store r p m1 token issued in
            let deleted =
              delete_store now t id q m3 opens (ap is_blank same ∙ named)
              ∙ ap (λ (f : String). (on_store (revokes_family (digest f) (cookie_expiry q) t) m3).1)
                  same in
            let state =
              deleted ∙ ap (λ (m : MemoryStore). revoke (after_calls on_store between m)) stored in
            let of_family = family_of_token r now' p q' m1 token issued fine in
            get_store now' n token q' (after_calls on_store later m4) fine (
              ap
                (λ (f : String).
                  (on_store (checks (digest token) (digest f) n) (after_calls on_store later m4)).0)
                of_family
              ∙ ap
                  (λ (m : MemoryStore).
                    (on_store (checks (digest token) family n) (after_calls on_store later m)).0)
                  state
              ∙ logout_covers before between later family (digest token) (cookie_expiry p) r
                  (cookie_expiry q) t n timely (faithful.digest_named p.family) live accepted)
      ]
