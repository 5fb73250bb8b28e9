-- ===== src/Session/Cookie/Tokens.antt =====
-- What CookieStorage of session/storage.go issues.
use gonex.Common.{
  ℕ, ◌-◌, ◌<◌, String, ◌≡◌, refl, sym, ap, ◌∙◌, ◌⊎◌, inl, inr, Bool, true, false, Option, none,
  some, [], ◌∷◌, ◌++◌, ltb, if◌then◌else◌, length, is_empty, take-append, drop-append,
  length-append, arith, Bool-cases,
}
use gonex.Common.Text.{is_blank}
use gonex.Common.Dict.{default}
use gonex.Session.Values.{Bytes, Result, Result-cases, ok, Json, normalize_map}
use gonex.Session.Revocation.{CookieRevocationStore}
use gonex.Session.Cookie.{
  CookiePayload, Library, bytes_equal, CookieStorage, sign, opened, verified, decode, family_of,
  get, issue, payload_expiry, encode_with_family,
}
use gonex.Session.Cookie.Authentic.{IsLive}

-- What the documentation of the libraries says: a base64 text decodes to what was encoded, an
-- HMAC-SHA256 has 32 bytes, a digest in hexadecimal is not empty, and a marshalled payload unmarshals to itself.
pub record IsFaithful {O : Type 0} (library : Library O) : Type 0 where
  pub base64 : (b : Bytes) → library.decode_base64 (library.encode_base64 b) ≡ some b
  pub hmac_size : (key b : Bytes) → length (library.hmac key b) ≡ 32
  pub base64_empty : library.decode_base64 "" ≡ some []
  pub digest_named : (text : String) → is_blank (library.sha256_hex text) ≡ false
  pub json :
      (p : CookiePayload O) (b : Bytes) → library.marshal p ≡ ok b → library.unmarshal b ≡ ok p

bytes_equal_refl : (xs : Bytes) → bytes_equal xs xs ≡ true
unfolding bytes_equal
bytes_equal_refl [] = refl
bytes_equal_refl (x ∷ xs) = ground (arith, bytes_equal_refl xs)

module _ (json : Json) (library : Library json.Object) (faithful : IsFaithful library)
    (storage : CookieStorage) where
  body_size : (b : Bytes) → length (b ++ library.hmac storage.secret b) - 32 ≡ length b
  body_size b =
      omega (
        arith,
        length-append b (library.hmac storage.secret b),
        faithful.hmac_size storage.secret b,
      )

  not_short : (b : Bytes) → ltb (length (b ++ library.hmac storage.secret b)) 32 ≡ false
  not_short b =
      ground (
        arith,
        length-append b (library.hmac storage.secret b),
        faithful.hmac_size storage.secret b,
      )

  pub signed-verified :
      (now : ℕ) (b : Bytes)
      → verified json library storage now (b ++ library.hmac storage.secret b)
        ≡ opened json library storage now (library.unmarshal b)
  unfolding verified sign
  signed-verified now b =
      let mac = library.hmac storage.secret b in
      rw (not_short b, verified)
        (rw (body_size b)
          (rw (take-append b mac, drop-append b mac) (rw (bytes_equal_refl mac) refl)))

  blank_lem : (id : String) → is_blank id ≡ true → id ≡ ""
  blank_lem String.[] h = refl
  blank_lem (String.◌∷◌ c t) h = cc

  token_not_blank :
      (id : String) (b : Bytes)
      → library.decode_base64 id ≡ some (b ++ library.hmac storage.secret b)
      → is_blank id ≡ false
  token_not_blank id b h = elim (Bool-cases (is_blank id)) [
    | inr full ↦ full
    | inl blank ↦
        let empty : library.decode_base64 id ≡ some [] =
          ap library.decode_base64 (blank_lem id blank) ∙ faithful.base64_empty in
        let none_left = ap (λ (o : Option Bytes). length (default [] o)) (sym empty ∙ h) in
        absurd (
          omega (
            arith,
            none_left,
            length-append b (library.hmac storage.secret b),
            faithful.hmac_size storage.secret b,
          ))
  ]

  pub signed-decode :
      (now : ℕ) (b : Bytes) (p : CookiePayload json.Object)
      → is_empty storage.secret ≡ false
      → library.marshal p ≡ ok b
      → IsLive json library storage now p
      → decode json library storage now (library.encode_base64 (b ++ library.hmac storage.secret b))
        ≡ ok (record p { values = some (default json.empty p.values) })
  unfolding decode opened
  signed-decode now b p keyed marshalled live =
      let id = library.encode_base64 (b ++ library.hmac storage.secret b) in
      let base = faithful.base64 (b ++ library.hmac storage.secret b) in
      ground (
        arith,
        base,
        token_not_blank id b base,
        signed-verified now b,
        faithful.json p b marshalled,
      )

  module _ (store : CookieRevocationStore) where
    -- The question that `Get` asks the store.
    abbrev pub checked : ℕ → ℕ → String → store.State → Option ℕ × Bool × store.State
    checked now later token s =
        store.is_revoked (library.sha256_hex token)
          (library.sha256_hex (family_of json library storage now token)) later s

    pub issue_lem :
        (later : ℕ) (p : CookiePayload json.Object) (s : store.State) (token : String)
        → (issue json library storage store later p s).0 ≡ ok token
        → (b : Bytes) × (library.marshal p ≡ ok b)
          × (token ≡ library.encode_base64 (b ++ library.hmac storage.secret b))
    unfolding issue sign
    issue_lem later p s token h = elim (Result-cases (library.marshal p)) [
      | inl (e, bad) ↦ absurd (ground arith)
      | inr (b, fine) ↦ (b, fine, ground arith)
    ]

    -- What EncodeWithFamily has done where it returns a token.
    pub encoded_lem :
        (values : Option json.Object) (expires : Option ℕ) (family : String)
        (nonce new_family : Result String) (later : ℕ) (s : store.State) (token : String)
        → (encode_with_family json library storage store values expires family nonce new_family
            later s).0
          ≡ ok token
        → (p : CookiePayload json.Object) × (n : json.Object) × (normalize_map json values ≡ ok n)
          × (p.values ≡ some n)
          × (p.expires_at ≡ payload_expiry expires)
          × (is_blank family ≡ false → p.family ≡ family)
          × (is_empty storage.secret ≡ false)
          × (encode_with_family json library storage store values expires family nonce new_family
                later s
              ≡ issue json library storage store later p s)
    unfolding encode_with_family
    encoded_lem values expires family nonce new_family later s token h =
        elim (Bool-cases (is_empty storage.secret)) [
          | inl bare ↦ absurd (ground arith)
          | inr keyed ↦ elim (Result-cases (normalize_map json values)) [
            | inl (e, bad) ↦ absurd (ground arith)
            | inr (n, normal) ↦ elim (Result-cases nonce) [
              | inl (e, bad) ↦ absurd (ground arith)
              | inr (fresh, got) ↦
                  elim (Result-cases (if is_blank family then new_family else ok family)) [
                    | inl (e, bad) ↦ absurd (ground arith)
                    | inr (chosen, fine) ↦ (
                      record {
                        expires_at = payload_expiry expires;
                        nonce = fresh;
                        family = chosen;
                        values = some n;
                      },
                      n,
                      normal,
                      refl,
                      refl,
                      λ named. ground arith,
                      keyed,
                      ground arith,
                    )
                  ]
            ]
          ]
        ]

    -- A token that EncodeWithFamily issued gives back the normalized values that it was issued for, as
    -- long as it is not expired and the store neither fails nor calls it revoked; and, where a family
    -- was asked for, it is of that family.
    pub encode_get :
        (values : Option json.Object) (n : json.Object) (expires : Option ℕ) (family : String)
        (nonce new_family : Result String) (issued now later : ℕ) (s t : store.State)
        (token : String)
        → (encode_with_family json library storage store values expires family nonce new_family
            issued s).0
          ≡ ok token
        → normalize_map json values ≡ ok n
        → (payload_expiry expires ≡ 0) ⊎ (now < payload_expiry expires)
        → (checked now later token t).0 ≡ none
        → (checked now later token t).1 ≡ false
        → ((get json library storage store now later token t).0 ≡ ok n)
          × (is_blank family ≡ false → family_of json library storage now token ≡ family)
    unfolding get family_of
    encode_get values n expires family nonce new_family issued now later s t token h normal live
          sound fresh =
        let (p, n', normal', held, expiry, named, keyed, same) =
          encoded_lem values expires family nonce new_family issued s token h in
        let (b, marshalled, made) =
          issue_lem issued p s token
            (sym (ap (λ (r : Result String × store.State). r.0) same) ∙ h) in
        let opens =
          ap (decode json library storage now) made
          ∙ signed-decode now b p keyed marshalled (ground (arith, expiry, live)) in
        ground (arith, normal, normal', held, opens, named, sound, fresh)
