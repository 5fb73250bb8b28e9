-- ===== src/Session/Managed/Memory.antt =====
-- MemoryStorage of session/storage.go as the storage of ghttp/session.go, at an instant: it meets the laws.
use gonex.Common.{
  ℕ, String, [], Bool, true, false, ◌&&◌, Option, none, some, ◌≡◌, refl, sym, ap, ◌∙◌, subst, ◌==◌,
  if◌then◌else◌, arith, eq_iff, inl, inr, is_none, Bool-cases,
}
use gonex.Common.Dict.{Dict}
use gonex.Common.Int.{ℤ, pos, negsuc}
use gonex.Session.Values
use gonex.Session.Values.{Bytes, Outcome, Result, Result-cases, ok, failed, Json, normalize_map}
use gonex.Session.Memory.{
  MemoryStorage, Look, found, missing, stale, expiry, get, get_first, get_second, set,
  set_normalized, delete, new_memory_storage,
}
use gonex.Session.Memory.Reference.{
  Reference, live, assign, to_option, look_option, Implements, set-Implements, delete-Implements,
  first-live, second-live, second-Implements,
}
use gonex.Session.Managed.{Found, found, not_found, get_failed, Storage, IsLawful}

-- JSON whose objects are the values of sessions.
abbrev pub json_of :
    {V : Type 0} (Value : Type 0)
    → (Dict V → Result Bytes)
    → (Bytes → Result Value)
    → (Value → Option (Dict V))
    → Json
json_of {V} Value marshal decode as_object = record {
  Value = Value;
  Object = Dict V;
  empty = [];
  marshal = marshal;
  decode = decode;
  as_object = as_object;
}

live_at :
    {A : Type 0} (now : ℕ) (ttl : ℤ) (values : A)
    → live now (some (record { values = values; expires_at = expiry now ttl })) ≡ some values
unfolding live
live_at now (pos n) values = ground arith
live_at now (negsuc n) values = refl

module _ {V : Type 0} (Value : Type 0) (marshal : Dict V → Result Bytes)
    (decode : Bytes → Result Value) (as_object : Value → Option (Dict V)) (now : ℕ) (ttl : ℤ) where
  abbrev json : Json
  json = json_of Value marshal decode as_object

  -- A storage at `now`, with the entries that were set: it holds those that are not expired.
  pub record Held : Type 0 where
    pub storage : MemoryStorage (Dict V)
    pub spec : Reference (Dict V)
    pub holds : Implements now storage spec

  abbrev answer : Result (Dict V) → Found V
  answer (ok values) = found values
  answer (failed e) = not_found

  -- Get, from what is found under the read lock.
  unfoldable pub look_further :
      String → MemoryStorage (Dict V) → Look (Dict V) → Result (Dict V) × MemoryStorage (Dict V)
  look_further id m (found values) = (ok values, m)
  look_further id m missing = (failed Values.not_found, m)
  look_further id m stale = get_second now id m

  pub look-holds :
      (id : String) (m : Held) (look : Look (Dict V))
      → Implements now (look_further id m.storage look).1 m.spec
  unfolding look_further
  look-holds id m (found values) = m.holds
  look-holds id m missing = m.holds
  look-holds id m stale = second-Implements now id m.storage m.spec m.holds

  look-live :
      (id : String) (m : Held) (look : Look (Dict V))
      → get_first now id m.storage ≡ look
      → to_option (look_further id m.storage look).0 ≡ live now (m.spec id)
  unfolding look_further
  look-live id m (found values) e =
      sym (ap look_option e) ∙ first-live now id m.storage m.spec m.holds
  look-live id m missing e = sym (ap look_option e) ∙ first-live now id m.storage m.spec m.holds
  look-live id m stale e = second-live now id m.storage m.spec m.holds

  pub get_looks :
      (id : String) (m : Held)
      → get now now id m.storage ≡ look_further id m.storage (get_first now id m.storage)
  unfolding get look_further
  get_looks id m = ground arith

  get-live :
      (id : String) (m : Held) → to_option (get now now id m.storage).0 ≡ live now (m.spec id)
  get-live id m =
      ap (λ (r : Result (Dict V) × MemoryStorage (Dict V)). to_option r.0) (get_looks id m)
      ∙ look-live id m (get_first now id m.storage) refl

  unfoldable pub get_held : Held → String → Found V × Held
  get_held m id =
      let r = get now now id m.storage in
      (
        answer r.0,
        record {
          storage = r.1;
          spec = m.spec;
          holds =
              subst (λ (r : Result (Dict V) × MemoryStorage (Dict V)). Implements now r.1 m.spec)
                (sym (get_looks id m)) (look-holds id m (get_first now id m.storage));
        },
      )

  unfoldable pub set_spec : Reference (Dict V) → String → Result (Dict V) → Reference (Dict V)
  set_spec spec id (failed e) = spec
  set_spec spec id (ok values) =
      assign spec id (some (record { values = values; expires_at = expiry now ttl }))

  unfoldable pub set_with :
      String → MemoryStorage (Dict V) → Result (Dict V) → Outcome × MemoryStorage (Dict V)
  set_with id m (failed e) = (some e, m)
  set_with id m (ok values) = (none, set_normalized now id values ttl m)

  pub set-holds :
      (id : String) (m : Held) (r : Result (Dict V))
      → Implements now (set_with id m.storage r).1 (set_spec m.spec id r)
  unfolding set_with set_spec
  set-holds id m (failed e) = m.holds
  set-holds id m (ok values) = set-Implements now id values ttl m.storage m.spec m.holds

  pub set_normalizes :
      (id : String) (values : Dict V) (m : Held)
      → set json now id (some values) ttl m.storage
        ≡ set_with id m.storage (normalize_map json (some values))
  unfolding set set_with
  set_normalizes id values m = ground arith

  unfoldable pub set_held : Held → String → Dict V → Bool × Held
  set_held m id values =
      let r = set json now id (some values) ttl m.storage in
      (
        is_none r.0,
        record {
          storage = r.1;
          spec = set_spec m.spec id (normalize_map json (some values));
          holds =
              subst
                (λ (a : Outcome × MemoryStorage (Dict V)).
                  Implements now a.1 (set_spec m.spec id (normalize_map json (some values))))
                (sym (set_normalizes id values m))
                (set-holds id m (normalize_map json (some values)));
        },
      )

  unfoldable pub delete_held : Held → String → Bool × Held
  delete_held m id = (
    true,
    record {
      storage = delete id m.storage;
      spec = assign m.spec id none;
      holds = delete-Implements now id m.storage m.spec m.holds;
    },
  )

  -- MemoryStorage as the storage of a session; the calls that only a CookieStorage answers are not made.
  abbrev pub memory_storage : Storage V
  memory_storage = record {
    State = Held;
    stored = λ m id. live now (m.spec id);
    is_cookie = false;
    get = get_held;
    set = set_held;
    delete = delete_held;
    encode = λ m values. (none, m);
    encode_with_family = λ m values family. (none, m);
    revoke_token = λ m id. (false, m);
    family = λ id. "";
  }

  answer-found :
      (r : Result (Dict V)) (values : Dict V) → answer r ≡ found values → to_option r ≡ some values
  answer-found (failed e) values h = absurd (ground (arith, h))
  answer-found (ok kept) values h =
      ap (λ (f : Found V). elim f [ found m ↦ some m | not_found ↦ none | get_failed ↦ none ]) h

  live_new :
      (values : Dict V)
      → live now (some (record { values = values; expires_at = expiry now ttl })) ≡ some values
  live_new values = live_at now ttl values

  set-live :
      (id j : String) (values : Dict V) (spec : Reference (Dict V)) (r : Result (Dict V))
      → ((n : Dict V) → r ≡ ok n → n ≡ values)
      → live now (set_spec spec id r j) ≡ (
          if is_none (set_with id (new_memory_storage now) r).0 && id == j
          then some values
          else live now (spec j))
  unfolding set_spec set_with
  set-live id j values spec (failed e) normal = refl
  set-live id j values spec (ok n) normal = elim (Bool-cases (id == j)) [
    | inl same ↦ ground (arith, same, live_new n, normal n refl)
    | inr other ↦ ground (arith, other)
  ]

  deleted_live :
      (id j : String) (spec : Reference (Dict V))
      → live now (assign spec id none j) ≡ (if id == j then none else live now (spec j))
  unfolding live
  deleted_live id j spec = elim (Bool-cases (id == j)) [
    | inl same ↦ ground (arith, same)
    | inr other ↦ ground (arith, other)
  ]

  set_flag :
      (id : String) (values : Dict V) (m : Held)
      → (set json now id (some values) ttl m.storage).0
        ≡ (set_with id (new_memory_storage now) (normalize_map json (some values))).0
  unfolding set set_with
  set_flag id values m = ground arith

  -- If the values of a session are normalized, so that JSON gives them back, MemoryStorage is lawful.
  pub memory_storage-IsLawful :
      ((values n : Dict V) → normalize_map json (some values) ≡ ok n → n ≡ values)
      → IsLawful memory_storage
  unfolding get_held set_held delete_held
  memory_storage-IsLawful normal = record {
    is_spent = λ m id. false;
    get-stored = λ m id j. refl;
    get-found =
        λ m id values e. sym (get-live id m) ∙ answer-found (get now now id m.storage).0 values e;
    set-stored = λ m id values j.
        set-live id j values m.spec (normalize_map json (some values)) (λ n e. normal values n e)
        ∙ ap (λ (o : Outcome). if is_none o && id == j then some values else live now (m.spec j))
            (sym (set_flag id values m));
    delete-stored = λ m id j other. deleted_live id j m.spec;
    delete-gone = λ m id. deleted_live id id m.spec ∙ ground (arith, eq_iff id id);
    revoke_token-stored = λ m id j. refl;
    encode-stored = λ m values j new. refl;
    encode_with_family-stored = λ m values family j new. refl;
  }
