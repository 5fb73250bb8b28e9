-- ===== src/Session/Managed/Cookies.antt =====
-- CookieStorage of session/storage.go over MemoryCookieRevocationStore as the storage of ghttp/session.go,
-- at an instant: it meets the laws.
pub mod Lawful
pub mod Sound
use gonex.Common.{
  ℕ, suc, ◌<◌, ◌≤◌, String, List, [], ◌∷◌, ◌++◌, Bool, true, false, not, ◌&&◌, ◌||◌, Option, none,
  some, ◌≡◌, refl, sym, ap, ◌∙◌, subst, ◌==◌, if◌then◌else◌, arith, eq_iff, ◌⊎◌, inl, inr, ltb,
  is_none, is_empty, Bool-cases, if_cases,
}
use gonex.Common.Dict.{Dict, default}
use gonex.Common.Text.{is_blank}
use gonex.Session.Values
use gonex.Session.Values.{Bytes, Outcome, Result, Result-cases, ok, failed, Json, normalize_map}
use gonex.Session.Revocation.{
  MemoryStore, memory_store, is_revoked, register_family_token, revoke_token, revoke_family,
}
use gonex.Session.Revocation.Reference.{Ledger, max, raise_at, Implements}
use gonex.Session.Revocation.Calls.{
  Call, checks, registers, revokes_family, revokes_token, Answer, on_store, on_ledger,
  answer-Implements, on-Implements,
}
use gonex.Session.Cookie
use gonex.Session.Cookie.{
  CookiePayload, Library, CookieStorage, cookie_expiry, max_int64, payload_expiry, decode,
  family_of, issue, encode_with_family,
}
use gonex.Session.Cookie.Authentic.{IsLive, decode_lem, verified_lem, opened_lem}
use gonex.Session.Cookie.Tokens.{IsFaithful, signed-decode, issue_lem, encoded_lem}
use gonex.Session.Managed.{Found, found, not_found, get_failed, Storage, IsLawful, issued}
use gonex.Session.Managed.Memory.{json_of}

-- A CookieStorage at an instant: the JSON of values, the library, the storage with its secret, the clock,
-- the expiry of new tokens, and what the calls of NewID give in each round.
pub record Setup (V : Type 0) : Type 1 where
  pub Value : Type 0
  pub marshal : Dict V → Result Bytes
  pub decode_json : Bytes → Result Value
  pub as_object : Value → Option (Dict V)
  pub library : Library (Dict V)
  pub storage : CookieStorage
  pub now : ℕ
  pub expires : Option ℕ
  pub nonce : ℕ → Result String
  pub new_family : ℕ → Result String

abbrev pub setup_json : {V : Type 0} → Setup V → Json
setup_json u = json_of u.Value u.marshal u.decode_json u.as_object

module _ {V : Type 0} (u : Setup V) where
  -- What the token says at `now`.
  abbrev pub payload_of : String → Result (CookiePayload (Dict V))
  payload_of id = decode (setup_json u) u.library u.storage u.now id

  -- A revocation store at `now`, with the ledger of what was ever recorded in it, and the number of tokens
  -- that were asked for, by which the random nonces are given.
  pub record Held : Type 0 where
    pub store : MemoryStore
    pub ledger : Ledger
    pub holds : Implements u.now store ledger
    pub round : ℕ

  abbrev pub hash : String → String
  hash text = u.library.sha256_hex text

  -- Whether the ledger revokes the token, or its family.
  abbrev pub is_dead : Ledger → String → CookiePayload (Dict V) → Bool
  is_dead l id p =
      ltb u.now (l.tokens (hash id))
      || (not (is_blank (hash p.family)) && ltb u.now (l.families (hash p.family)))

  unfoldable pub stands : Ledger → String → Result (CookiePayload (Dict V)) → Option (Dict V)
  stands l id (failed e) = none
  stands l id (ok p) = if is_dead l id p then none else some (default [] p.values)

  unfoldable pub at : Held → String → Option (Dict V)
  at m id = stands m.ledger id (payload_of id)

  -- The call that Delete and RevokeToken make of the revocation store.
  unfoldable pub deletes : String → CookiePayload (Dict V) → Call
  deletes id p =
      if is_blank p.family
      then revokes_token (hash id) (cookie_expiry p)
      else revokes_family (hash p.family) (cookie_expiry p) u.now

  -- The ledger after a call of the revocation store, if there is a payload to call it for.
  unfoldable pub ledger_after :
      Ledger → (CookiePayload (Dict V) → Call) → Result (CookiePayload (Dict V)) → Ledger
  ledger_after l call (failed e) = l
  ledger_after l call (ok p) = (on_ledger (call p) l).1

  unfoldable pub store_after :
      MemoryStore → (CookiePayload (Dict V) → Call) → Result (CookiePayload (Dict V)) → MemoryStore
  store_after m call (failed e) = m
  store_after m call (ok p) = (on_store (call p) m).1

  pub after-holds :
      (m : Held) (call : CookiePayload (Dict V) → Call) (r : Result (CookiePayload (Dict V)))
      → ((p : CookiePayload (Dict V))
          → Implements u.now m.store m.ledger
          → Implements u.now (on_store (call p) m.store).1 (on_ledger (call p) m.ledger).1)
      → Implements u.now (store_after m.store call r) (ledger_after m.ledger call r)
  unfolding store_after ledger_after
  after-holds m call (failed e) each = m.holds
  after-holds m call (ok p) each = each p m.holds

  unfoldable pub looks : String → CookiePayload (Dict V) → Call
  looks id p = checks (hash id) (hash p.family) u.now

  pub get_store :
      (id : String) (s : MemoryStore)
      → (Cookie.get (setup_json u) u.library u.storage memory_store u.now u.now id s).1
        ≡ store_after s (looks id) (payload_of id)
  unfolding Cookie.get store_after on_store looks
  get_store id s = elim (Result-cases (payload_of id)) [
    | inl (e, bad) ↦ ground (arith, bad)
    | inr (p, fine) ↦ ground (arith, fine)
  ]

  pub delete_store :
      (id : String) (s : MemoryStore)
      → Cookie.delete (setup_json u) u.library u.storage memory_store u.now u.now id s
        ≡ (none, store_after s (deletes id) (payload_of id))
  unfolding Cookie.delete store_after on_store deletes revoke_token revoke_family
  delete_store id s = elim (Result-cases (payload_of id)) [
    | inl (e, bad) ↦ ground (arith, bad)
    | inr (p, fine) ↦ ground (arith, fine)
  ]

  unfoldable pub revokes : String → CookiePayload (Dict V) → Call
  revokes id p = revokes_token (hash id) (cookie_expiry p)

  pub revoke_store :
      (id : String) (s : MemoryStore)
      → Cookie.revoke_token (setup_json u) u.library u.storage memory_store u.now id s
        ≡ (none, store_after s (revokes id) (payload_of id))
  unfolding Cookie.revoke_token store_after on_store revokes revoke_token
  revoke_store id s = elim (Result-cases (payload_of id)) [
    | inl (e, bad) ↦ ground (arith, bad)
    | inr (p, fine) ↦ ground (arith, fine)
  ]

  pub looks-holds :
      (id : String) (m : Held) (p : CookiePayload (Dict V))
      → Implements u.now m.store m.ledger
      → Implements u.now (on_store (looks id p) m.store).1 (on_ledger (looks id p) m.ledger).1
  unfolding looks
  looks-holds id m p h =
      on-Implements (checks (hash id) (hash p.family) u.now) u.now m.store m.ledger h

  pub deletes-holds :
      (id : String) (m : Held) (p : CookiePayload (Dict V))
      → Implements u.now m.store m.ledger
      → Implements u.now (on_store (deletes id p) m.store).1 (on_ledger (deletes id p) m.ledger).1
  unfolding deletes
  deletes-holds id m p h =
      if_cases (λ c. Implements u.now (on_store c m.store).1 (on_ledger c m.ledger).1)
        (is_blank p.family) (revokes_token (hash id) (cookie_expiry p))
        (revokes_family (hash p.family) (cookie_expiry p) u.now)
        (λ _. on-Implements (revokes_token (hash id) (cookie_expiry p)) u.now m.store m.ledger h)
        (λ _.
          on-Implements (revokes_family (hash p.family) (cookie_expiry p) u.now) u.now m.store
            m.ledger h)

  pub revokes-holds :
      (id : String) (m : Held) (p : CookiePayload (Dict V))
      → Implements u.now m.store m.ledger
      → Implements u.now (on_store (revokes id p) m.store).1 (on_ledger (revokes id p) m.ledger).1
  unfolding revokes
  revokes-holds id m p h =
      on-Implements (revokes_token (hash id) (cookie_expiry p)) u.now m.store m.ledger h

  unfoldable pub called :
      (m : Held) (call : CookiePayload (Dict V) → Call) (id : String) (s : MemoryStore)
      → s ≡ store_after m.store call (payload_of id)
      → ((p : CookiePayload (Dict V))
          → Implements u.now m.store m.ledger
          → Implements u.now (on_store (call p) m.store).1 (on_ledger (call p) m.ledger).1)
      → Held
  called m call id s same each = record {
    store = s;
    ledger = ledger_after m.ledger call (payload_of id);
    holds =
        subst (λ x. Implements u.now x (ledger_after m.ledger call (payload_of id))) (sym same)
          (after-holds m call (payload_of id) each);
    round = m.round;
  }

  abbrev pub answer : Result (Dict V) → Found V
  answer (ok values) = found values
  answer (failed Values.not_found) = not_found
  answer (failed _) = get_failed

  unfoldable pub get_held : Held → String → Found V × Held
  get_held m id =
      let r = Cookie.get (setup_json u) u.library u.storage memory_store u.now u.now id m.store in
      (answer r.0, called m (looks id) id r.1 (get_store id m.store) (looks-holds id m))

  unfoldable pub delete_held : Held → String → Bool × Held
  delete_held m id =
      let r =
        Cookie.delete (setup_json u) u.library u.storage memory_store u.now u.now id m.store in
      (
        is_none r.0,
        called m (deletes id) id r.1
            (ap (λ (a : Outcome × MemoryStore). a.1) (delete_store id m.store))
            (deletes-holds id m),
      )

  unfoldable pub revoke_held : Held → String → Bool × Held
  revoke_held m id =
      let r =
        Cookie.revoke_token (setup_json u) u.library u.storage memory_store u.now id m.store in
      (
        is_none r.0,
        called m (revokes id) id r.1
            (ap (λ (a : Outcome × MemoryStore). a.1) (revoke_store id m.store))
            (revokes-holds id m),
      )

  -- The ledger that goes with a store, where no token and no family was revoked.
  unfoldable pub Kept : MemoryStore → Ledger → Type 0
  Kept s l =
      (l1 : Ledger) × Implements u.now s l1 × (l1.tokens ≡ l.tokens) × (l1.families ≡ l.families)

  registers-Kept :
      (family : String) (expiry : ℕ) (m : Held)
      → Kept (register_family_token family expiry u.now m.store).1 m.ledger
  unfolding Kept on_store on_ledger
  registers-Kept family expiry m =
      let c = registers family expiry u.now in
      (
        (on_ledger c m.ledger).1,
        on-Implements c u.now m.store m.ledger m.holds,
        ground arith,
        ground arith,
      )

  same-Kept : (m : Held) (s : MemoryStore) → s ≡ m.store → Kept s m.ledger
  unfolding Kept
  same-Kept m s same =
      (m.ledger, subst (λ x. Implements u.now x m.ledger) (sym same) m.holds, refl, refl)

  issue_failed :
      (p : CookiePayload (Dict V)) (s : MemoryStore) (e : Values.Err)
      → u.library.marshal p ≡ failed e
      → (issue (setup_json u) u.library u.storage memory_store u.now p s).1 ≡ s
  unfolding issue
  issue_failed p s e bad = ground (arith, bad)

  issue_registers :
      (p : CookiePayload (Dict V)) (s : MemoryStore) (b : Bytes)
      → u.library.marshal p ≡ ok b
      → (issue (setup_json u) u.library u.storage memory_store u.now p s).1
        ≡ (register_family_token (hash p.family) (cookie_expiry p) u.now s).1
  unfolding issue
  issue_registers p s b fine = ground (arith, fine)

  issue-Kept :
      (p : CookiePayload (Dict V)) (m : Held)
      → Kept (issue (setup_json u) u.library u.storage memory_store u.now p m.store).1 m.ledger
  issue-Kept p m = elim (Result-cases (u.library.marshal p)) [
    | inl (e, bad) ↦ same-Kept m _ (issue_failed p m.store e bad)
    | inr (b, fine) ↦
        subst (λ s. Kept s m.ledger) (sym (issue_registers p m.store b fine))
          (registers-Kept (hash p.family) (cookie_expiry p) m)
  ]

  -- EncodeWithFamily of the values, with the random texts of the round.
  abbrev pub token_for : Dict V → String → Held → Result String × MemoryStore
  token_for values family m =
      encode_with_family (setup_json u) u.library u.storage memory_store (some values) u.expires
        family (u.nonce m.round) (u.new_family m.round) u.now m.store

  abbrev pub payload : Dict V → String → String → CookiePayload (Dict V)
  payload n fresh chosen = record {
    expires_at = payload_expiry u.expires;
    nonce = fresh;
    family = chosen;
    values = some n;
  }

  encode_bare :
      (values : Dict V) (family : String) (m : Held)
      → is_empty u.storage.secret ≡ true
      → (token_for values family m).1 ≡ m.store
  unfolding encode_with_family
  encode_bare values family m bare = ground (arith, bare)

  encode_unnormal :
      (values : Dict V) (family : String) (m : Held) (e : Values.Err)
      → is_empty u.storage.secret ≡ false
      → normalize_map (setup_json u) (some values) ≡ failed e
      → (token_for values family m).1 ≡ m.store
  unfolding encode_with_family
  encode_unnormal values family m e keyed bad = ground (arith, keyed, bad)

  encode_no_nonce :
      (values : Dict V) (family : String) (m : Held) (e : Values.Err) (n : Dict V)
      → is_empty u.storage.secret ≡ false
      → normalize_map (setup_json u) (some values) ≡ ok n
      → u.nonce m.round ≡ failed e
      → (token_for values family m).1 ≡ m.store
  unfolding encode_with_family
  encode_no_nonce values family m e n keyed normal bad = ground (arith, keyed, normal, bad)

  encode_no_family :
      (values : Dict V) (family : String) (m : Held) (e : Values.Err) (n : Dict V) (fresh : String)
      → is_empty u.storage.secret ≡ false
      → normalize_map (setup_json u) (some values) ≡ ok n
      → u.nonce m.round ≡ ok fresh
      → (if is_blank family then u.new_family m.round else ok family) ≡ failed e
      → (token_for values family m).1 ≡ m.store
  unfolding encode_with_family
  encode_no_family values family m e n fresh keyed normal got bad =
      ground (arith, keyed, normal, got, bad)

  encode_issues :
      (values : Dict V) (family : String) (m : Held) (n : Dict V) (fresh chosen : String)
      → is_empty u.storage.secret ≡ false
      → normalize_map (setup_json u) (some values) ≡ ok n
      → u.nonce m.round ≡ ok fresh
      → (if is_blank family then u.new_family m.round else ok family) ≡ ok chosen
      → (token_for values family m).1
        ≡ (issue
            (setup_json u)
            u.library
            u.storage
            memory_store
            u.now
            (payload n fresh chosen)
            m.store).1
  unfolding encode_with_family
  encode_issues values family m n fresh chosen keyed normal got fine =
      ground (arith, keyed, normal, got, fine)

  pub encode-Kept :
      (values : Dict V) (family : String) (m : Held) → Kept (token_for values family m).1 m.ledger
  encode-Kept values family m = elim (Bool-cases (is_empty u.storage.secret)) [
    | inl bare ↦ same-Kept m _ (encode_bare values family m bare)
    | inr keyed ↦ elim (Result-cases (normalize_map (setup_json u) (some values))) [
      | inl (e, bad) ↦ same-Kept m _ (encode_unnormal values family m e keyed bad)
      | inr (n, normal) ↦ elim (Result-cases (u.nonce m.round)) [
        | inl (e, bad) ↦ same-Kept m _ (encode_no_nonce values family m e n keyed normal bad)
        | inr (fresh, got) ↦
            elim (Result-cases (if is_blank family then u.new_family m.round else ok family)) [
              | inl (e, bad) ↦
                  same-Kept m _ (encode_no_family values family m e n fresh keyed normal got bad)
              | inr (chosen, fine) ↦
                  subst (λ s. Kept s m.ledger)
                    (sym (encode_issues values family m n fresh chosen keyed normal got fine))
                    (issue-Kept (payload n fresh chosen) m)
            ]
      ]
    ]
  ]

  abbrev pub result_option : Result String → Option String
  result_option (ok token) = some token
  result_option (failed e) = none

  unfoldable pub encode_held : Held → Dict V → String → Option String × Held
  unfolding Kept
  encode_held m values family =
      let r = token_for values family m in
      let (l1, holds, tokens, families) = encode-Kept values family m in
      (result_option r.0, record { store = r.1; ledger = l1; holds = holds; round = suc m.round })

  -- CookieStorage as the storage of a session.
  abbrev pub cookie_storage : Storage V
  cookie_storage = record {
    State = Held;
    stored = at;
    is_cookie = true;
    get = get_held;
    set = λ m id values. (is_none (Cookie.set (setup_json u) u.library u.storage), m);
    delete = delete_held;
    encode = λ m values. encode_held m values "";
    encode_with_family = encode_held;
    revoke_token = revoke_held;
    family = λ id. family_of (setup_json u) u.library u.storage u.now id;
  }
