-- ===== src/Session/Revocation.antt =====
-- session/storage.go: MemoryCookieRevocationStore, and the interface CookieRevocationStore that it
-- fills. Instants are seconds from 1970; `map[string]int64` gives 0 for a missing key.
pub mod Reference
pub mod Calls
pub mod Logout
use gonex.Common.{
  ℕ, String, Bool, true, false, not, ◌&&◌, ◌||◌, Option, none, some, [], ltb, leb, if◌then◌else◌,
}
use gonex.Common.Dict
use gonex.Common.Dict.{Dict}
use gonex.Common.Text.{is_blank}
use gonex.Session.Values.{Err, not_found, Outcome}

pub record MemoryStore : Type 0 where
  pub tokens : Dict ℕ
  pub families : Dict ℕ
  pub family_expiries : Dict ℕ

-- NewMemoryCookieRevocationStore
unfoldable pub new_memory_store : MemoryStore
new_memory_store = record { tokens = []; families = []; family_expiries = [] }

-- m[k]
abbrev pub lookup : Dict ℕ → String → ℕ
lookup m k = Dict.default 0 (Dict.get m k)

-- `if expiry > m[k] { m[k] = expiry }`
unfoldable pub raise : Dict ℕ → String → ℕ → Dict ℕ
raise m k expiry = if ltb (lookup m k) expiry then Dict.put m k expiry else m

abbrev pub drop_old : ℕ → Dict ℕ → Dict ℕ
drop_old now m = Dict.drop_if (λ expiry. leb expiry now) m

-- cleanupLocked
unfoldable pub cleanup_locked : ℕ → MemoryStore → MemoryStore
cleanup_locked now store = record {
  tokens = drop_old now store.tokens;
  families = drop_old now store.families;
  family_expiries = drop_old now store.family_expiries;
}

-- IsRevoked
unfoldable pub is_revoked : String → String → ℕ → MemoryStore → Bool × MemoryStore
unfolding cleanup_locked
is_revoked token family now store =
    let clean = cleanup_locked now store in
    (
      ltb now (lookup clean.tokens token)
          || (not (is_blank family) && ltb now (lookup clean.families family)),
      clean,
    )

-- RegisterFamilyToken
unfoldable pub register_family_token : String → ℕ → ℕ → MemoryStore → Outcome × MemoryStore
unfolding cleanup_locked raise
register_family_token family expires_at now store =
    let clean = cleanup_locked now store in
    if ltb now (lookup clean.families family)
    then (some not_found, clean)
    else (none, record clean { family_expiries = raise clean.family_expiries family expires_at })

-- RevokeToken
unfoldable pub revoke_token : String → ℕ → MemoryStore → Outcome × MemoryStore
unfolding raise
revoke_token token expires_at store =
    (none, record store { tokens = raise store.tokens token expires_at })

-- RevokeFamily
unfoldable pub revoke_family : String → ℕ → ℕ → MemoryStore → Outcome × MemoryStore
unfolding cleanup_locked raise
revoke_family family expires_at now store =
    let clean = cleanup_locked now store in
    let known = lookup clean.family_expiries family in
    let until = if ltb expires_at known then known else expires_at in
    (none, record clean { families = raise clean.families family until })

-- CookieRevocationStore: the store that an application chooses.
pub record CookieRevocationStore : Type 1 where
  pub State : Type 0
  pub is_revoked : String → String → ℕ → State → Option ℕ × Bool × State
  pub register_family_token : String → ℕ → ℕ → State → Outcome × State
  pub revoke_token : String → ℕ → State → Outcome × State
  pub revoke_family : String → ℕ → ℕ → State → Outcome × State

-- The store in memory fills the interface.
abbrev pub memory_store : CookieRevocationStore
memory_store = record {
  State = MemoryStore;
  is_revoked = λ token family now s. let (b, s') = is_revoked token family now s in (none, b, s');
  register_family_token = register_family_token;
  revoke_token = revoke_token;
  revoke_family = revoke_family;
}
