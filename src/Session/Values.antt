-- ===== src/Session/Values.antt =====
-- internal/sessionvalue/value.go: the detached form of session values, over the JSON library.
use gonex.Common.{ℕ, ◌≡◌, refl, ◌⊎◌, inl, inr, Option, none, some, List}

abbrev pub Bytes : Type 0
Bytes = List ℕ

-- `not_found` is ErrNotFound; the numbers stand for errors of a library or of a store.
pub data Err : Type 0 where
  not_found not_configured store_required use_session not_an_object : Err
  secret_too_short : ℕ → Err
  encode decode check register random store : ℕ → Err

pub data Result (A : Type 0) : Type 0 where
  ok : A → Result A
  failed : Err → Result A

pub Result-cases :
    {A : Type 0} (r : Result A) → ((e : Err) × (r ≡ failed e)) ⊎ ((a : A) × (r ≡ ok a))
Result-cases (failed e) = inl (e, refl)
Result-cases (ok a) = inr (a, refl)

-- Errors of a call that returns nothing else.
abbrev pub Outcome : Type 0
Outcome = Option Err

-- JSON (bytedance/sonic and encoding/json): objects are what `map[string]any` holds. The values of
-- the model have no shared parts, so that `Clone` and `CloneMap` are the identity.
pub record Json : Type 1 where
  pub Value : Type 0
  pub Object : Type 0
  pub empty : Object
  pub marshal : Object → Result Bytes
  pub decode : Bytes → Result Value
  pub as_object : Value → Option Object

module _ (json : Json) where
  -- Normalize, of a map.
  unfoldable pub normalize : json.Object → Result json.Value
  normalize values = elim (json.marshal values) [
    | ok data_bytes ↦ json.decode data_bytes
    | failed e ↦ failed e
  ]

  abbrev object_of : Option json.Object → Result json.Object
  object_of none = failed not_an_object
  object_of (some o) = ok o

  -- NormalizeMap; `none` is a nil map.
  unfoldable pub normalize_map : Option json.Object → Result json.Object
  unfolding normalize
  normalize_map none = ok json.empty
  normalize_map (some values) = elim (normalize values) [
    | ok value ↦ object_of (json.as_object value)
    | failed e ↦ failed e
  ]
