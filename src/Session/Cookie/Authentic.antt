-- ===== src/Session/Cookie/Authentic.antt =====
-- What CookieStorage of session/storage.go accepts: signed tokens.
use gonex.Common.{
  ℕ, ◌-◌, ◌<◌, String, ◌≡◌, refl, sym, ap, ◌∙◌, ◌⊎◌, inl, inr, true, some, [], ◌∷◌, ◌++◌, length,
  take, drop, take-drop, arith, Option-cases,
}
use gonex.Common.Dict.{default}
use gonex.Session.Values.{Bytes, Result, Result-cases, ok, failed, Json}
use gonex.Session.Revocation.{CookieRevocationStore}
use gonex.Session.Cookie.{
  CookiePayload, Library, bytes_equal, CookieStorage, sign, opened, verified, decode, get,
}

bytes_equal_lem : (xs ys : Bytes) → bytes_equal xs ys ≡ true → xs ≡ ys
unfolding bytes_equal
bytes_equal_lem [] [] h = refl
bytes_equal_lem [] (y ∷ ys) h = cc
bytes_equal_lem (x ∷ xs) [] h = cc
bytes_equal_lem (x ∷ xs) (y ∷ ys) h = ground (arith, bytes_equal_lem xs ys)

module _ (json : Json) (library : Library json.Object) (storage : CookieStorage) where
  -- A token that was signed with the secret, for this payload.
  abbrev pub IsSigned : String → CookiePayload json.Object → Type 0
  IsSigned id payload =
      (body : Bytes) × (library.decode_base64 id ≡ some (body ++ library.hmac storage.secret body))
      × (library.unmarshal body ≡ ok payload)

  -- A payload that is not expired.
  abbrev pub IsLive : ℕ → CookiePayload json.Object → Type 0
  IsLive now payload = (payload.expires_at ≡ 0) ⊎ (now < payload.expires_at)

  pub opened_lem :
      (now : ℕ) (r : Result (CookiePayload json.Object)) (p : CookiePayload json.Object)
      → opened json library storage now r ≡ ok p
      → (q : CookiePayload json.Object) × (r ≡ ok q)
        × IsLive now q
        × (p ≡ record q { values = some (default json.empty q.values) })
  unfolding opened
  opened_lem now (failed e) p h = cc
  opened_lem now (ok q) p h = (q, refl, ground arith, ground arith)

  pub verified_lem :
      (now : ℕ) (decoded : Bytes) (p : CookiePayload json.Object)
      → verified json library storage now decoded ≡ ok p
      → let body = take (length decoded - 32) decoded in
        (decoded ≡ body ++ library.hmac storage.secret body)
        × (opened json library storage now (library.unmarshal body) ≡ ok p)
  unfolding verified sign
  verified_lem now decoded p h =
      let body = take (length decoded - 32) decoded in
      let same =
        bytes_equal_lem (drop (length decoded - 32) decoded) (library.hmac storage.secret body) in
      let whole = take-drop (length decoded - 32) decoded in
      let signed : bytes_equal (drop (length decoded - 32) decoded)
            (library.hmac storage.secret body)
          ≡ true =
        ground arith in
      (sym whole ∙ ap (λ x. body ++ x) (same signed), ground arith)

  pub decode_lem :
      (now : ℕ) (id : String) (p : CookiePayload json.Object)
      → decode json library storage now id ≡ ok p
      → (decoded : Bytes) × (library.decode_base64 id ≡ some decoded)
        × (verified json library storage now decoded ≡ ok p)
  unfolding decode
  decode_lem now id p h = elim (Option-cases (library.decode_base64 id)) [
    | inl e ↦ absurd (ground arith)
    | inr (d, e) ↦ (d, e, ground arith)
  ]

  module _ (store : CookieRevocationStore) where
    -- A session that `Get` returns comes from a token with the storage's signature over its payload,
    -- which is not expired, and is the payload's values.
    pub get_authentic :
        (now later : ℕ) (id : String) (s : store.State) (v : json.Object)
        → (get json library storage store now later id s).0 ≡ ok v
        → (payload : CookiePayload json.Object) × IsSigned id payload
          × IsLive now payload
          × (v ≡ default json.empty payload.values)
    unfolding get
    get_authentic now later id s v h = elim (Result-cases (decode json library storage now id)) [
      | inl (e, bad) ↦ absurd (ground arith)
      | inr (p, fine) ↦
          let (decoded, base, checked) = decode_lem now id p fine in
          let (split, open_ok) = verified_lem now decoded p checked in
          let (q, read, live, same) = opened_lem now _ p open_ok in
          (
            q,
            (take (length decoded - 32) decoded, base ∙ ap some split, read),
            live,
            ground (arith, ap (λ (x : CookiePayload json.Object). x.values) same),
          )
    ]
