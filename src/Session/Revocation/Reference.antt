-- ===== src/Session/Revocation/Reference.antt =====
-- MemoryCookieRevocationStore of session/storage.go against a store that forgets nothing.
use gonex.Common.{ℕ, String, ◌≡◌, ◌≤◌, ◌⊎◌, arith, ltb, leb, if◌then◌else◌, if_cases, ◌==◌, eq_iff}
use gonex.Common.Dict.{
  Dict, get-put, get-drop_if, HasUniqueKeys, put-HasUniqueKeys, drop_if-HasUniqueKeys,
}
use gonex.Session.Revocation.{MemoryStore, lookup, raise, drop_old, cleanup_locked}

-- What was ever recorded: until when each token and each family is revoked, and the latest expiry of
-- each family.
pub record Ledger : Type 0 where
  pub tokens : String → ℕ
  pub families : String → ℕ
  pub family_expiries : String → ℕ

abbrev pub max : ℕ → ℕ → ℕ
max a b = if ltb a b then b else a

abbrev pub raise_at : (String → ℕ) → String → ℕ → String → ℕ
raise_at f k v j = if k == j then max (f k) v else f j

-- The table holds what the ledger holds, but for instants that `now` has passed.
pub record Matches (now : ℕ) (m : Dict ℕ) (f : String → ℕ) : Type 0 where
  pub unique : HasUniqueKeys m
  pub values : (k : String) → (lookup m k ≡ f k) ⊎ ((lookup m k ≤ now) × (f k ≤ now))

pub Matches-later :
    (now later : ℕ) (m : Dict ℕ) (f : String → ℕ)
    → now ≤ later
    → Matches now m f
    → Matches later m f
Matches-later now later m f le i = record {
  unique = i.unique;
  values = λ k. ground (arith, i.values k);
}

lookup-drop_old :
    (now : ℕ) (m : Dict ℕ) (k : String)
    → HasUniqueKeys m
    → (lookup (drop_old now m) k ≡ lookup m k)
      ⊎ ((lookup (drop_old now m) k ≡ 0) × (lookup m k ≤ now))
lookup-drop_old now m k u = ground (arith, get-drop_if (λ expiry. leb expiry now) m k u)

drop_old-Matches :
    (now : ℕ) (m : Dict ℕ) (f : String → ℕ) → Matches now m f → Matches now (drop_old now m) f
drop_old-Matches now m f i = record {
  unique = drop_if-HasUniqueKeys _ m i.unique;
  values = λ k. ground (arith, lookup-drop_old now m k i.unique, i.values k);
}

-- Two instants that a test against a clock past `now` cannot tell apart.
abbrev pub Alike : ℕ → ℕ → ℕ → Type 0
Alike now v w = (v ≡ w) ⊎ ((v ≤ now) × (w ≤ now))

pub raise-Matches :
    (now : ℕ) (m : Dict ℕ) (f : String → ℕ) (k : String) (v w : ℕ)
    → Alike now v w
    → Matches now m f
    → Matches now (raise m k v) (raise_at f k w)
unfolding raise
raise-Matches now m f k v w alike i = record {
  unique = if_cases HasUniqueKeys _ _ _ (λ _. put-HasUniqueKeys m k v i.unique) (λ _. i.unique);
  values = λ j. ground (arith, get-put m k j v, i.values j, i.values k, eq_iff k j);
}

pub record Implements (now : ℕ) (store : MemoryStore) (ledger : Ledger) : Type 0 where
  pub tokens : Matches now store.tokens ledger.tokens
  pub families : Matches now store.families ledger.families
  pub family_expiries : Matches now store.family_expiries ledger.family_expiries

pub cleanup-Implements :
    (now : ℕ) (store : MemoryStore) (ledger : Ledger)
    → Implements now store ledger
    → Implements now (cleanup_locked now store) ledger
unfolding cleanup_locked
cleanup-Implements now store ledger i = record {
  tokens = drop_old-Matches now store.tokens ledger.tokens i.tokens;
  families = drop_old-Matches now store.families ledger.families i.families;
  family_expiries =
      drop_old-Matches now store.family_expiries ledger.family_expiries i.family_expiries;
}
