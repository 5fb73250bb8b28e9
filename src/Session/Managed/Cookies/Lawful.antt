-- ===== src/Session/Managed/Cookies/Lawful.antt =====
-- CookieStorage of session/storage.go meets the laws that ghttp/session.go relies on.
use gonex.Common.{
  ℕ, ◌<◌, String, [], Bool, true, false, ◌&&◌, none, some, ◌≡◌, refl, sym, ap, ◌∙◌, subst, ◌==◌,
  if◌then◌else◌, arith, eq_iff, ◌⊎◌, inl, inr, ltb, is_none, Bool-cases,
}
use gonex.Common.Dict.{Dict, default}
use gonex.Session.Values
use gonex.Session.Values.{Bytes, Outcome, Result, Result-cases, ok, failed, Json, normalize_map}
use gonex.Session.Revocation.{MemoryStore, memory_store, register_family_token}
use gonex.Session.Revocation.Reference.{Ledger}
use gonex.Session.Revocation.Calls.{checks, registers, on_store, on_ledger, answer-Implements}
use gonex.Session.Cookie
use gonex.Session.Cookie.{
  CookiePayload, Library, CookieStorage, cookie_expiry, max_int64, payload_expiry, issue,
}
use gonex.Session.Cookie.Authentic.{decode_lem, verified_lem, opened_lem}
use gonex.Session.Cookie.Tokens.{IsFaithful, signed-decode, issue_lem, encoded_lem}
use gonex.Session.Managed.{Found, found, not_found, get_failed, IsLawful, issued}
use gonex.Session.Managed.Cookies.{
  Setup, setup_json, payload_of, Held, hash, is_dead, stands, at, deletes, ledger_after, looks,
  revokes, delete_store, revoke_store, Kept, encode-Kept, called, answer, get_held, delete_held,
  revoke_held, token_for, result_option, encode_held, cookie_storage,
}

-- What holds of a setup: the libraries are faithful, no two texts have one digest, the clock is in the range
-- of time, a new token is alive when it is issued, and JSON gives normalized values back.
pub record IsSound {V : Type 0} (u : Setup V) : Type 0 where
  pub faithful : IsFaithful u.library
  pub injective : (a b : String) → u.library.sha256_hex a ≡ u.library.sha256_hex b → a ≡ b
  pub in_range : u.now < max_int64
  pub lasting : (payload_expiry u.expires ≡ 0) ⊎ (u.now < payload_expiry u.expires)
  pub normal : (values n : Dict V) → normalize_map (setup_json u) (some values) ≡ ok n → n ≡ values

module _ {V : Type 0} (u : Setup V) (sound : IsSound u) where
  decode_alive :
      (id : String) (p : CookiePayload (Dict V)) → payload_of u id ≡ ok p → u.now < cookie_expiry p
  unfolding cookie_expiry
  decode_alive id p h =
      let (decoded, base, checked) = decode_lem (setup_json u) u.library u.storage u.now id p h in
      let (split, opens) =
        verified_lem (setup_json u) u.library u.storage u.now decoded p checked in
      let (q, read, live, same) = opened_lem (setup_json u) u.library u.storage u.now _ p opens in
      let expiry : p.expires_at ≡ q.expires_at =
        ap (λ (x : CookiePayload (Dict V)). x.expires_at) same in
      ground (arith, live, expiry, sound.in_range)

  looked_ledger :
      (l : Ledger) (id : String) (r : Result (CookiePayload (Dict V)))
      → ledger_after u l (looks u id) r ≡ l
  unfolding ledger_after looks on_ledger
  looked_ledger l id (failed e) = refl
  looked_ledger l id (ok p) = refl

  get_answer :
      (id : String) (m : Held u) (p : CookiePayload (Dict V))
      → payload_of u id ≡ ok p
      → (Cookie.get (setup_json u) u.library u.storage memory_store u.now u.now id m.store).0
        ≡ (if is_dead u m.ledger id p then failed Values.not_found else ok (default [] p.values))
  unfolding Cookie.get on_store on_ledger
  get_answer id m p fine = ground (
    arith,
    fine,
    answer-Implements (checks (hash u id) (hash u p.family) u.now) u.now m.store m.ledger m.holds,
  )

  get_undecoded :
      (id : String) (m : Held u) (e : Values.Err)
      → payload_of u id ≡ failed e
      → (Cookie.get (setup_json u) u.library u.storage memory_store u.now u.now id m.store).0
        ≡ failed Values.not_found
  unfolding Cookie.get
  get_undecoded id m e bad = ground (arith, bad)

  stands_ok :
      (l : Ledger) (id : String) (p : CookiePayload (Dict V))
      → payload_of u id ≡ ok p
      → stands u l id (payload_of u id)
        ≡ (if is_dead u l id p then none else some (default [] p.values))
  unfolding stands
  stands_ok l id p fine = ground (arith, fine)

  stands_failed :
      (l : Ledger) (id : String) (e : Values.Err)
      → payload_of u id ≡ failed e
      → stands u l id (payload_of u id) ≡ none
  unfolding stands
  stands_failed l id e bad = ground (arith, bad)

  answer_not_found : (values : Dict V) → answer u (failed Values.not_found) ≡ found values → ⊥
  answer_not_found values h = ground (arith, h)

  found_values :
      (a : Result (Dict V)) (b : Bool) (kept values : Dict V)
      → a ≡ (if b then failed Values.not_found else ok kept)
      → answer u a ≡ found values
      → (if b then none else some kept) ≡ some values
  found_values a true kept values e h = absurd (answer_not_found values (sym (ap (answer u) e) ∙ h))
  found_values a false kept values e h =
      ap (λ (f : Found V). elim f [ found m ↦ some m | not_found ↦ none | get_failed ↦ none ])
        (sym (ap (answer u) e) ∙ h)

  get-found :
      (m : Held u) (id : String) (values : Dict V)
      → answer u
          (Cookie.get (setup_json u) u.library u.storage memory_store u.now u.now id m.store).0
        ≡ found values
      → stands u m.ledger id (payload_of u id) ≡ some values
  get-found m id values h = elim (Result-cases (payload_of u id)) [
    | inl (e, bad) ↦
        absurd (answer_not_found values (sym (ap (answer u) (get_undecoded id m e bad)) ∙ h))
    | inr (p, fine) ↦
        stands_ok m.ledger id p fine
        ∙ found_values _ (is_dead u m.ledger id p) (default [] p.values) values
            (get_answer id m p fine) h
  ]

  -- The call of the revocation store that ends a token.
  killed :
      (l : Ledger) (id : String) (p : CookiePayload (Dict V))
      → payload_of u id ≡ ok p
      → is_dead u (on_ledger (deletes u id p) l).1 id p ≡ true
  unfolding deletes on_ledger
  killed l id p fine = ground (
    arith,
    decode_alive id p fine,
    sound.faithful.digest_named p.family,
    eq_iff (hash u id) (hash u id),
    eq_iff (hash u p.family) (hash u p.family),
  )

  delete-gone :
      (l : Ledger) (id : String) (r : Result (CookiePayload (Dict V)))
      → payload_of u id ≡ r
      → stands u (ledger_after u l (deletes u id) r) id r ≡ none
  unfolding stands ledger_after
  delete-gone l id (failed e) h = refl
  delete-gone l id (ok p) h = ground (arith, killed l id p h)

  same_digest : (id j : String) → (id == j) ≡ false → (hash u id == hash u j) ≡ false
  same_digest id j other = elim (Bool-cases (hash u id == hash u j)) [
    | inl same ↦ absurd (
        ground (
          arith,
          other,
          sound.injective id j ((eq_iff (hash u id) (hash u j)).0 same),
          eq_iff id j,
        ))
    | inr differ ↦ differ
  ]

  raised_self :
      (l : Ledger) (id : String) (p : CookiePayload (Dict V))
      → payload_of u id ≡ ok p
      → is_dead u (on_ledger (revokes u id p) l).1 id p ≡ true
  unfolding revokes on_ledger
  raised_self l id p fine = ground (arith, decode_alive id p fine, eq_iff (hash u id) (hash u id))

  raised_other :
      (l : Ledger) (id j : String) (p q : CookiePayload (Dict V))
      → (id == j) ≡ false
      → is_dead u (on_ledger (revokes u id p) l).1 j q ≡ is_dead u l j q
  unfolding revokes on_ledger
  raised_other l id j p q other = ground (arith, same_digest id j other)

  revoke_other :
      (l : Ledger) (id j : String) (r q : Result (CookiePayload (Dict V)))
      → (id == j) ≡ false
      → stands u (ledger_after u l (revokes u id) r) j q ≡ stands u l j q
  unfolding stands ledger_after
  revoke_other l id j (failed e) q other = refl
  revoke_other l id j (ok p) (failed e) other = refl
  revoke_other l id j (ok p) (ok q) other = ground (arith, raised_other l id j p q other)

  revoke_self :
      (l : Ledger) (id : String) (r : Result (CookiePayload (Dict V)))
      → payload_of u id ≡ r
      → stands u (ledger_after u l (revokes u id) r) id r ≡ none
  unfolding stands ledger_after
  revoke_self l id (failed e) h = refl
  revoke_self l id (ok p) h = ground (arith, raised_self l id p h)

  revoke-stored :
      (l : Ledger) (id j : String)
      → stands u (ledger_after u l (revokes u id) (payload_of u id)) j (payload_of u j)
        ≡ (if id == j then none else stands u l j (payload_of u j))
  revoke-stored l id j = elim (Bool-cases (id == j)) [
    | inl same ↦
        let e : id ≡ j = (eq_iff id j).0 same in
        subst
          (λ k.
            stands u (ledger_after u l (revokes u id) (payload_of u id)) k (payload_of u k) ≡ none)
          e (revoke_self l id (payload_of u id) refl)
        ∙ ground (arith, same)
    | inr other ↦
        ground (arith, other, revoke_other l id j (payload_of u id) (payload_of u j) other)
  ]

  -- A ledger that revokes what another one does gives the same tokens a meaning.
  stands_alike :
      (l l1 : Ledger) (id : String) (r : Result (CookiePayload (Dict V)))
      → l1.tokens ≡ l.tokens
      → l1.families ≡ l.families
      → stands u l1 id r ≡ stands u l id r
  unfolding stands
  stands_alike l l1 id (failed e) tokens families = refl
  stands_alike l l1 id (ok p) tokens families = rw (tokens, families) refl

  registered :
      (m : Held u) (family : String) (expiry : ℕ)
      → (register_family_token family expiry u.now m.store).0 ≡ none
      → ltb u.now (m.ledger.families family) ≡ false
  unfolding on_store on_ledger
  registered m family expiry h =
      ground
        (arith, h, answer-Implements (registers family expiry u.now) u.now m.store m.ledger m.holds)

  issue-registered :
      (p : CookiePayload (Dict V)) (m : Held u) (token : String)
      → (issue (setup_json u) u.library u.storage memory_store u.now p m.store).0 ≡ ok token
      → (register_family_token (hash u p.family) (cookie_expiry p) u.now m.store).0 ≡ none
  unfolding issue
  issue-registered p m token h = elim (Result-cases (u.library.marshal p)) [
    | inl (e, bad) ↦ absurd (ground (arith, h, bad))
    | inr (b, fine) ↦ ground (arith, h, fine)
  ]

  -- A token that was issued, and is not spent, stands for the values.
  issued_stands :
      (values : Dict V) (family : String) (m : Held u) (token : String)
      → (token_for u values family m).0 ≡ ok token
      → ltb u.now (m.ledger.tokens (hash u token)) ≡ false
      → stands u m.ledger token (payload_of u token) ≡ some values
  issued_stands values family m token h new =
      let (p, n, normal, held, expiry, named, keyed, same) =
        encoded_lem (setup_json u) u.library sound.faithful u.storage memory_store (some values)
          u.expires family (u.nonce m.round) (u.new_family m.round) u.now m.store token h in
      let issued = sym (ap (λ (r : Result String × MemoryStore). r.0) same) ∙ h in
      let (b, marshalled, made) =
        issue_lem (setup_json u) u.library sound.faithful u.storage memory_store u.now p m.store
          token issued in
      let opens =
        ap (payload_of u) made
        ∙ signed-decode (setup_json u) u.library sound.faithful u.storage u.now b p keyed marshalled
            (ground (arith, expiry, sound.lasting)) in
      let live =
        registered m (hash u p.family) (cookie_expiry p) (issue-registered p m token issued) in
      stands_ok m.ledger token _ opens
      ∙ ground (arith, new, live, held, sound.normal values n normal)

  encode_kept :
      (values : Dict V) (family : String) (m : Held u) (j : String)
      → stands u (encode_held u m values family).1.ledger j (payload_of u j)
        ≡ stands u m.ledger j (payload_of u j)
  unfolding encode_held Kept
  encode_kept values family m j =
      let (l1, holds, tokens, families) = encode-Kept u values family m in
      stands_alike m.ledger l1 j (payload_of u j) tokens families

  encode_issued :
      (values : Dict V) (family : String) (m : Held u) (r : Result String) (j : String)
      → (token_for u values family m).0 ≡ r
      → ((id : String)
          → result_option u r ≡ some id
          → ltb u.now (m.ledger.tokens (hash u id)) ≡ false)
      → stands u m.ledger j (payload_of u j)
        ≡ issued (result_option u r) values j (stands u m.ledger j (payload_of u j))
  encode_issued values family m (failed e) j h new = refl
  encode_issued values family m (ok token) j h new = elim (Bool-cases (token == j)) [
    | inr other ↦ ground (arith, other)
    | inl same ↦
        subst (λ k. stands u m.ledger k (payload_of u k) ≡ some values) ((eq_iff token j).0 same)
          (issued_stands values family m token h (new token refl))
        ∙ ground (arith, same)
  ]

  encode-stored :
      (values : Dict V) (family : String) (m : Held u) (j : String)
      → ((id : String)
          → (encode_held u m values family).0 ≡ some id
          → ltb u.now (m.ledger.tokens (hash u id)) ≡ false)
      → stands u (encode_held u m values family).1.ledger j (payload_of u j)
        ≡ issued (encode_held u m values family).0 values j (stands u m.ledger j (payload_of u j))
  unfolding encode_held
  encode-stored values family m j new =
      encode_kept values family m j
      ∙ encode_issued values family m (token_for u values family m).0 j refl new

  -- CookieStorage, with MemoryCookieRevocationStore, is lawful.
  pub cookie_storage-IsLawful : IsLawful (cookie_storage u)
  unfolding at get_held delete_held revoke_held called Cookie.set
  cookie_storage-IsLawful = record {
    is_spent = λ m id. ltb u.now (m.ledger.tokens (hash u id));
    get-stored = λ m id j.
        ap (λ l. stands u l j (payload_of u j)) (looked_ledger m.ledger id (payload_of u id));
    get-found = λ m id values h. get-found m id values h;
    set-stored = λ m id values j. refl;
    delete-stored = λ m id j other. absurd (ground (arith, other));
    delete-gone = λ m id.
        delete-gone m.ledger id (payload_of u id) refl
        ∙ ap (λ (r : Outcome × MemoryStore). if is_none r.0 then none else at u m id)
            (sym (delete_store u id m.store));
    revoke_token-stored = λ m id j.
        revoke-stored m.ledger id j
        ∙ ap (λ (r : Outcome × MemoryStore). if is_none r.0 && id == j then none else at u m j)
            (sym (revoke_store u id m.store));
    encode-stored = λ m values j new. encode-stored values "" m j new;
    encode_with_family-stored = λ m values family j new. encode-stored values family m j new;
  }
