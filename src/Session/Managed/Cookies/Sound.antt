-- ===== src/Session/Managed/Cookies/Sound.antt =====
-- A CookieStorage of session/storage.go with a small codec, over which ghttp/session.go may rely on the laws.
use gonex.Common.{
  ℕ, String, ◌≡◌, refl, sym, ap, ◌∙◌, inr, inl, Option-cases, true, ◌&&◌, Option, none, some, [],
  ◌∷◌, arith, if◌then◌else◌, ◌==◌, eq_iff,
}
use gonex.Common.Dict.{Dict}
use gonex.Session.Values.{Bytes, not_an_object, Result, Result-cases, ok, failed, normalize_map}
use gonex.Session.Cookie.{CookiePayload, Library}
use gonex.Session.Cookie.Tokens.{IsFaithful}
use gonex.Session.Cookie.Examples.{write_bytes, read_bytes, read-write, mac}
use gonex.Session.Managed.{IsLawful}
use gonex.Session.Managed.Cookies.{Setup, setup_json, cookie_storage}
use gonex.Session.Managed.Cookies.Lawful.{IsSound, cookie_storage-IsLawful}

-- JSON of no values, and of a number under the key "name".
marshal : Dict ℕ → Result Bytes
marshal [] = ok []
marshal ((key, value) ∷ []) = if key == "name" then ok (value ∷ []) else failed not_an_object
marshal _ = failed not_an_object

as_object : Bytes → Option (Dict ℕ)
as_object [] = some []
as_object (value ∷ []) = some (("name", value) ∷ [])
as_object _ = none

-- Payloads of the nonce "n" and the family "f".
with_values : ℕ → Result Bytes → Result Bytes
with_values expires_at (ok body) = ok (expires_at ∷ body)
with_values expires_at (failed e) = failed e

write_payload : CookiePayload (Dict ℕ) → Result Bytes
write_payload p = elim p.values [
  | none ↦ failed not_an_object
  | some values ↦
      if p.nonce == "n" && p.family == "f"
      then with_values p.expires_at (marshal values)
      else failed not_an_object
]

from_values : ℕ → Option (Dict ℕ) → Result (CookiePayload (Dict ℕ))
from_values expires_at none = failed not_an_object
from_values expires_at (some values) =
    ok (record { expires_at = expires_at; nonce = "n"; family = "f"; values = some values })

read_payload : Bytes → Result (CookiePayload (Dict ℕ))
read_payload [] = failed not_an_object
read_payload (expires_at ∷ body) = from_values expires_at (as_object body)

-- A text after a letter, which no two texts share.
digest : String → String
digest text = String.◌∷◌ "d" text

rest_of : String → String
rest_of String.[] = ""
rest_of (String.◌∷◌ c text) = text

digest_injective : (a b : String) → digest a ≡ digest b → a ≡ b
unfolding digest rest_of
digest_injective a b e = ap rest_of e

abbrev codec : Library (Dict ℕ)
codec = record {
  hmac = mac;
  sha256_hex = digest;
  encode_base64 = write_bytes;
  decode_base64 = read_bytes 0;
  marshal = write_payload;
  unmarshal = read_payload;
}

read-write_values :
    (values : Dict ℕ) (body : Bytes) → marshal values ≡ ok body → as_object body ≡ some values
unfolding marshal as_object
read-write_values [] body h = ground (arith, h)
read-write_values ((key, value) ∷ []) body h = ground (arith, h, eq_iff key "name")
read-write_values (_ ∷ _ ∷ _) body h = absurd (ground (arith, h))

read-write_payload :
    (p : CookiePayload (Dict ℕ)) (b : Bytes) → write_payload p ≡ ok b → read_payload b ≡ ok p
unfolding write_payload read_payload with_values from_values
read-write_payload p b h = elim (Option-cases p.values) [
  | inl gone ↦ absurd (ground arith)
  | inr (values, here) ↦ elim (Result-cases (marshal values)) [
    | inl (e, bad) ↦ absurd (ground arith)
    | inr (body, fine) ↦
        let named : (p.nonce == "n" && p.family == "f") ≡ true = ground arith in
        let split : p.expires_at ∷ body ≡ b = ground arith in
        let read = read-write_values values body fine in
        ap read_payload (sym split)
        ∙ ap (from_values p.expires_at) read
        ∙ ground (arith, named, here, eq_iff p.nonce "n", eq_iff p.family "f")
  ]
]

codec-IsFaithful : IsFaithful codec
unfolding mac read_bytes digest
codec-IsFaithful = record {
  base64 = read-write;
  hmac_size = λ key b. refl;
  base64_empty = refl;
  digest_named = λ text. refl;
  json = read-write_payload;
}

-- The instant 1, where tokens expire at 50.
abbrev setup : Setup ℕ
setup = record {
  Value = Bytes;
  marshal = marshal;
  decode_json = ok;
  as_object = as_object;
  library = codec;
  storage = record { secret = 1 ∷ [] };
  now = 1;
  expires = some 50;
  nonce = λ round. ok "n";
  new_family = λ round. ok "f";
}

normal_lem :
    (values n : Dict ℕ) → normalize_map (setup_json setup) (some values) ≡ ok n → n ≡ values
unfolding normalize_map marshal as_object
normal_lem [] n h = ground (arith, h)
normal_lem ((key, value) ∷ []) n h = ground (arith, h, eq_iff key "name")
normal_lem (_ ∷ _ ∷ _) n h = absurd (ground (arith, h))

setup-IsSound : IsSound setup
setup-IsSound = record {
  faithful = codec-IsFaithful;
  injective = digest_injective;
  in_range = ground arith;
  lasting = inr (ground arith);
  normal = normal_lem;
}

setup-IsLawful : IsLawful (cookie_storage setup)
setup-IsLawful = cookie_storage-IsLawful setup setup-IsSound
