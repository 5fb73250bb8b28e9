-- ===== src/Session/Cookie/Examples.antt =====
-- The theorems on CookieStorage of session/storage.go at work on a small codec.
use Prim.Native.Char.{code}
use gonex.Common.{
  ℕ, zero, suc, ◌+◌, String, ◌≡◌, refl, inr, false, ◌&&◌, Option, none, some, [], ◌∷◌, arith,
  nat_eq, length, if◌then◌else◌, ◌==◌, eq_iff,
}
use gonex.Common.Dict
use gonex.Common.Text.{is_blank}
use gonex.Session.Values.{Bytes, not_an_object, not_found, Result, ok, failed, Json}
use gonex.Session.Revocation.{
  memory_store, new_memory_store, MemoryStore, is_revoked, register_family_token,
}
use gonex.Session.Revocation.Calls.{after_calls}
use gonex.Session.Cookie.{
  CookiePayload, Library, CookieStorage, cookie_expiry, decode, family_of, get, delete, issue,
  encode_with_family,
}
use gonex.Session.Cookie.Authentic.{IsSigned, IsLive, get_authentic}
use gonex.Session.Cookie.Tokens.{IsFaithful, encode_get}
use gonex.Session.Cookie.Logout.{logout_ends_family}

-- Objects are numbers, and their JSON is one byte.
unfoldable pub read_number : Bytes → Result ℕ
read_number (x ∷ []) = ok x
read_number _ = failed not_an_object

abbrev pub numbers : Json
numbers = record {
  Value = ℕ;
  Object = ℕ;
  empty = 0;
  marshal = λ n. ok (n ∷ []);
  decode = read_number;
  as_object = some;
}

-- A byte in base one.
unfoldable pub unary : ℕ → String → String
unary zero s = String.◌∷◌ "b" s
unary (suc n) s = String.◌∷◌ "a" (unary n s)

unfoldable pub write_bytes : Bytes → String
write_bytes [] = ""
write_bytes (x ∷ xs) = unary x (write_bytes xs)

unfoldable pub put_byte : ℕ → Option Bytes → Option Bytes
put_byte n none = none
put_byte n (some xs) = some (n ∷ xs)

unfoldable pub read_bytes : ℕ → String → Option Bytes
read_bytes n String.[] = if nat_eq n 0 then some [] else none
read_bytes n (String.◌∷◌ c s) =
    let longer = read_bytes (suc n) s in
    let closed = read_bytes 0 s in if nat_eq (code c) 97 then longer else put_byte n closed

read-unary : (k n : ℕ) (s : String) → read_bytes k (unary n s) ≡ put_byte (k + n) (read_bytes 0 s)
unfolding read_bytes unary
read-unary k zero s = ground arith
read-unary k (suc n) s = ground (arith, read-unary (suc k) n s)

pub read-write : (b : Bytes) → read_bytes 0 (write_bytes b) ≡ some b
unfolding read_bytes write_bytes put_byte
read-write [] = refl
read-write (x ∷ xs) = ground (arith, read-unary 0 x (write_bytes xs), read-write xs)

-- An HMAC of 32 equal bytes, and payloads of the nonce "n" and the family "f".
unfoldable pub mac : Bytes → Bytes → Bytes
mac key b =
    let x = length key in
    x ∷ x ∷ x ∷ x ∷ x ∷ x ∷ x ∷ x ∷ x ∷ x ∷ x ∷ x ∷ x ∷ x ∷ x ∷ x ∷ x ∷ x ∷ x ∷ x ∷ x ∷ x ∷ x ∷ x
    ∷ x ∷ x ∷ x ∷ x ∷ x ∷ x ∷ x ∷ x ∷ []

write_payload : CookiePayload ℕ → Result Bytes
write_payload p = elim p.values [
  | none ↦ failed not_an_object
  | some v ↦
      if p.nonce == "n" && p.family == "f" then ok (p.expires_at ∷ v ∷ []) else failed not_an_object
]

read_payload : Bytes → Result (CookiePayload ℕ)
read_payload (e ∷ v ∷ []) =
    ok (record { expires_at = e; nonce = "n"; family = "f"; values = some v })
read_payload _ = failed not_an_object

abbrev codec : Library ℕ
codec = record {
  hmac = mac;
  sha256_hex = λ text. "d";
  encode_base64 = write_bytes;
  decode_base64 = read_bytes 0;
  marshal = write_payload;
  unmarshal = read_payload;
}

read-write_payload :
    (p : CookiePayload ℕ) (b : Bytes) → write_payload p ≡ ok b → read_payload b ≡ ok p
unfolding write_payload read_payload
read-write_payload p b h = ground (arith, eq_iff p.nonce "n", eq_iff p.family "f")

codec-IsFaithful : IsFaithful codec
unfolding mac read_bytes
codec-IsFaithful = record {
  base64 = read-write;
  hmac_size = λ key b. refl;
  base64_empty = refl;
  digest_named = λ text. refl;
  json = read-write_payload;
}

abbrev keyed : CookieStorage
keyed = record { secret = 1 ∷ [] }

-- The token for the values 7, which expires at 50.
abbrev payload : CookiePayload ℕ
payload = record { expires_at = 50; nonce = "n"; family = "f"; values = some 7 }

abbrev issued : Result String × MemoryStore
issued =
    encode_with_family numbers codec keyed memory_store (some 7) (some 50) "f" (ok "n") (ok "g") 1
      new_memory_store

abbrev token : String
token = write_bytes (50 ∷ 7 ∷ mac (1 ∷ []) [])

encode_get_example :
    ((get numbers codec keyed memory_store 2 2 token issued.1).0 ≡ ok 7)
    × (is_blank "f" ≡ false → family_of numbers codec keyed 2 token ≡ "f")
unfolding encode_with_family read_number write_payload register_family_token Dict.get Dict.drop_if
    new_memory_store mac is_revoked
encode_get_example =
    encode_get numbers codec codec-IsFaithful keyed memory_store (some 7) 7 (some 50) "f" (ok "n")
      (ok "g") 1 2 2 new_memory_store issued.1 token refl refl (inr (omega arith)) refl refl

get_authentic_example :
    (p : CookiePayload ℕ) × IsSigned numbers codec keyed token p
    × IsLive numbers codec keyed 2 p
    × (7 ≡ Dict.default 0 p.values)
unfolding get write_bytes unary read_bytes put_byte mac read_payload is_revoked Dict.get
    Dict.drop_if encode_with_family read_number write_payload register_family_token new_memory_store
get_authentic_example = get_authentic numbers codec keyed memory_store 2 2 token issued.1 7 refl

logout_ends_family_example :
    let m2 = (issue numbers codec keyed memory_store 1 payload new_memory_store).1 in
    let m4 = (delete numbers codec keyed memory_store 2 2 token m2).1 in
    (get numbers codec keyed memory_store 3 3 token m4).0 ≡ failed not_found
unfolding after_calls cookie_expiry issue write_payload register_family_token Dict.get Dict.drop_if
    new_memory_store mac decode write_bytes unary read_bytes put_byte read_payload
logout_ends_family_example =
    logout_ends_family numbers codec codec-IsFaithful keyed [] [] [] payload payload token token 1 2
      2 3 3 (omega arith) refl (omega arith) refl refl refl
