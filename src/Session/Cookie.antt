-- ===== src/Session/Cookie.antt =====
-- session/storage.go: CookieStorage, over a revocation store that the application chooses. Each
-- argument `now` or `later` is what one look at the clock gives, in seconds from 1970.
pub mod Authentic
pub mod Tokens
pub mod Logout
pub mod Examples
use gonex.Common.{
  ℕ, ◌-◌, String, Bool, true, false, not, ◌&&◌, ◌||◌, Option, none, some, List, [], ◌∷◌, ◌++◌, ltb,
  leb, nat_eq, if◌then◌else◌, length, is_empty, take, drop,
}
use gonex.Common.Text.{is_blank}
use gonex.Common.Dict.{default}
use gonex.Session.Values.{
  Bytes, Err, not_found, not_configured, store_required, use_session, secret_too_short, check,
  register, Result, ok, failed, Outcome, Json, normalize_map,
}
use gonex.Session.Revocation.{CookieRevocationStore}

abbrev pub minimum_cookie_secret_bytes : ℕ
minimum_cookie_secret_bytes = 32

-- sha256.Size
abbrev pub sha256_size : ℕ
sha256_size = 32

abbrev pub max_int64 : ℕ
max_int64 = 9223372036854775807

-- cookiePayload; `none` is a nil map. `expires_at` is not negative: only EncodeWithFamily signs one.
pub record CookiePayload (Object : Type 0) : Type 0 where
  pub expires_at : ℕ
  pub nonce : String
  pub family : String
  pub values : Option Object

-- What the storage calls of Go's libraries: HMAC-SHA256 under a key, the hexadecimal SHA-256 digest of
-- a text, raw URL base64, and the JSON of a payload.
pub record Library (Object : Type 0) : Type 0 where
  pub hmac : Bytes → Bytes → Bytes
  pub sha256_hex : String → String
  pub encode_base64 : Bytes → String
  pub decode_base64 : String → Option Bytes
  pub marshal : CookiePayload Object → Result Bytes
  pub unmarshal : Bytes → Result (CookiePayload Object)

-- hmac.Equal
pub bytes_equal : Bytes → Bytes → Bool
bytes_equal [] [] = true
bytes_equal (x ∷ xs) (y ∷ ys) = nat_eq x y && bytes_equal xs ys
bytes_equal _ _ = false

-- The secret of a CookieStorage; its revocation store is a state of its own.
pub record CookieStorage : Type 0 where
  pub secret : Bytes

-- NewCookieStorage, with whether the store is nil.
pub new_cookie_storage : Bytes → Bool → Result CookieStorage
new_cookie_storage secret is_nil_store =
    if ltb (length secret) minimum_cookie_secret_bytes
    then failed (secret_too_short minimum_cookie_secret_bytes)
    else if is_nil_store
    then failed store_required
    else ok (record { secret = secret })

-- cookieExpiry
unfoldable pub cookie_expiry : {O : Type 0} → CookiePayload O → ℕ
cookie_expiry payload = if ltb 0 payload.expires_at then payload.expires_at else max_int64

-- `if ttl > 0 { payload.ExpiresAt = time.Now().Add(ttl).Unix() }`, with what the sum gives.
abbrev pub payload_expiry : Option ℕ → ℕ
payload_expiry none = 0
payload_expiry (some at) = at

module _ (json : Json) (library : Library json.Object) (storage : CookieStorage) where
  -- sign
  pub sign : Bytes → Bytes
  sign value = library.hmac storage.secret value

  -- The end of decode: the JSON, the expiry, and the values.
  pub opened : ℕ → Result (CookiePayload json.Object) → Result (CookiePayload json.Object)
  opened now (failed e) = failed not_found
  opened now (ok payload) =
      if ltb 0 payload.expires_at && leb payload.expires_at now
      then failed not_found
      else ok (record payload { values = some (default json.empty payload.values) })

  -- The middle of decode: the signature.
  pub verified : ℕ → Bytes → Result (CookiePayload json.Object)
  unfolding sign bytes_equal opened
  verified now decoded =
      let size = length decoded - sha256_size in
      let body = take size decoded in
      let signature = drop size decoded in
      if ltb (length decoded) sha256_size
      then failed not_found
      else if not (bytes_equal signature (sign body))
      then failed not_found
      else opened now (library.unmarshal body)

  -- decode
  unfoldable pub decode : ℕ → String → Result (CookiePayload json.Object)
  unfolding verified
  decode now id =
      if is_empty storage.secret || is_blank id
      then failed not_found
      else elim (library.decode_base64 id) [
        | none ↦ failed not_found
        | some decoded ↦ verified now decoded
      ]

  -- Family
  unfoldable pub family_of : ℕ → String → String
  unfolding decode
  family_of now id = elim (decode now id) [ failed e ↦ "" | ok payload ↦ payload.family ]

  -- Set
  unfoldable pub set : Outcome
  set = some use_session

  module _ (store : CookieRevocationStore) where
    -- Get
    unfoldable pub get : ℕ → ℕ → String → store.State → Result json.Object × store.State
    unfolding decode
    get now later id s = elim (decode now id) [
      | failed e ↦ (failed not_found, s)
      | ok payload ↦
          let (e, revoked, s') =
            store.is_revoked (library.sha256_hex id) (library.sha256_hex payload.family) later s in
          elim e [
            | some x ↦ (failed (check x), s')
            | none ↦
                if revoked
                then (failed not_found, s')
                else (ok (default json.empty payload.values), s')
          ]
    ]

    -- Delete
    unfoldable pub delete : ℕ → ℕ → String → store.State → Outcome × store.State
    unfolding decode cookie_expiry
    delete now later id s = elim (decode now id) [
      | failed e ↦ (none, s)
      | ok payload ↦
          if is_blank payload.family
          then store.revoke_token (library.sha256_hex id) (cookie_expiry payload) s
          else store.revoke_family (library.sha256_hex payload.family) (cookie_expiry payload) later
              s
    ]

    -- RevokeToken
    unfoldable pub revoke_token : ℕ → String → store.State → Outcome × store.State
    unfolding decode cookie_expiry
    revoke_token now id s = elim (decode now id) [
      | failed e ↦ (none, s)
      | ok payload ↦ store.revoke_token (library.sha256_hex id) (cookie_expiry payload) s
    ]

    -- The end of EncodeWithFamily: the payload is complete.
    unfoldable pub issue : ℕ → CookiePayload json.Object → store.State → Result String × store.State
    unfolding sign cookie_expiry
    issue later payload s = elim (library.marshal payload) [
      | failed e ↦ (failed e, s)
      | ok body ↦
          let (e, s') =
            store.register_family_token (library.sha256_hex payload.family) (cookie_expiry payload)
              later s in
          elim e [
            | some x ↦ (failed x, s')
            | none ↦ (ok (library.encode_base64 (body ++ sign body)), s')
          ]
    ]

    -- EncodeWithFamily: `nonce` and `new_family` are what the two calls of NewID give, `expires` is
    -- the expiry of a positive time to live.
    unfoldable pub encode_with_family :
        Option json.Object
        → Option ℕ
        → String
        → Result String
        → Result String
        → ℕ
        → store.State
        → Result String × store.State
    unfolding normalize_map issue
    encode_with_family values expires family nonce new_family later s =
        if is_empty storage.secret
        then (failed not_configured, s)
        else elim (normalize_map json values) [
          | failed e ↦ (failed e, s)
          | ok normalized ↦ elim nonce [
            | failed e ↦ (failed e, s)
            | ok fresh ↦ elim (if is_blank family then new_family else ok family) [
              | failed e ↦ (failed e, s)
              | ok chosen ↦
                  issue later
                    (record {
                      expires_at = payload_expiry expires;
                      nonce = fresh;
                      family = chosen;
                      values = some normalized;
                    })
                    s
            ]
          ]
        ]

    -- Encode
    unfoldable pub encode :
        Option json.Object
        → Option ℕ
        → Result String
        → Result String
        → ℕ
        → store.State
        → Result String × store.State
    unfolding encode_with_family
    encode values expires nonce new_family later s =
        encode_with_family values expires "" nonce new_family later s
