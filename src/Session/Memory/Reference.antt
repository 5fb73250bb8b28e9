-- ===== src/Session/Memory/Reference.antt =====
-- MemoryStorage of session/storage.go against a store that never sweeps.
use gonex.Common.{
  ℕ, String, ◌≡◌, ◌≤◌, refl, ◌⊎◌, inl, inr, Option, none, some, arith, if◌then◌else◌, if_cases,
  ◌==◌, eq_iff,
}
use gonex.Common.Dict
use gonex.Common.Dict.{
  Dict, get-put, get-remove, get-drop_if, keep_unless, HasUniqueKeys, put-HasUniqueKeys,
  remove-HasUniqueKeys, drop_if-HasUniqueKeys,
}
use gonex.Common.Int.{ℤ}
use gonex.Session.Values.{Result, ok, failed}
use gonex.Session.Memory.{
  Entry, MemoryStorage, expiry, Look, found, memory_entry_expired, get_first, get_second,
  cleanup_expired_locked, set_normalized, delete,
}

-- The reference: the last entry that was set for an identifier, expired or not.
abbrev pub Reference : Type 0 → Type 0
Reference V = String → Option (Entry V)

module _ {V : Type 0} where
  -- The values that are live at an instant.
  unfoldable pub live : ℕ → Option (Entry V) → Option V
  live now none = none
  live now (some entry) = if memory_entry_expired now entry then none else some entry.values

  abbrev pub assign : Reference V → String → Option (Entry V) → Reference V
  assign spec id entry j = if id == j then entry else spec j

  abbrev pub to_option : Result V → Option V
  to_option (ok v) = some v
  to_option (failed e) = none

  abbrev pub look_option : Look V → Option V
  look_option (found v) = some v
  look_option _ = none

  -- The storage holds what the reference holds, but for entries that are expired at `now`.
  pub record Implements (now : ℕ) (storage : MemoryStorage V) (spec : Reference V) : Type 0 where
    pub unique : HasUniqueKeys storage.entries
    pub entries :
        (id : String)
        → (Dict.get storage.entries id ≡ spec id)
          ⊎ ((Dict.get storage.entries id ≡ none) × (live now (spec id) ≡ none))

  live_later :
      (now later : ℕ) (e : Option (Entry V)) → now ≤ later → live now e ≡ none → live later e ≡ none
  unfolding live
  live_later now later none le h = refl
  live_later now later (some e) le h = ground arith

  pub Implements-later :
      (now later : ℕ) (storage : MemoryStorage V) (spec : Reference V)
      → now ≤ later
      → Implements now storage spec
      → Implements later storage spec
  Implements-later now later storage spec le i = record {
    unique = i.unique;
    entries = λ id. elim (i.entries id) [
      | inl same ↦ inl same
      | inr (gone, dead) ↦ inr (gone, live_later now later (spec id) le dead)
    ];
  }

  drop_expired :
      (now : ℕ) (e : Option (Entry V))
      → (keep_unless (memory_entry_expired now) e ≡ e)
        ⊎ ((keep_unless (memory_entry_expired now) e ≡ none) × (live now e ≡ none))
  unfolding live
  drop_expired now none = inl refl
  drop_expired now (some e) = ground arith

  swept :
      (now : ℕ) (e f : Option (Entry V))
      → (e ≡ f) ⊎ ((e ≡ none) × (live now f ≡ none))
      → (keep_unless (memory_entry_expired now) e ≡ f)
        ⊎ ((keep_unless (memory_entry_expired now) e ≡ none) × (live now f ≡ none))
  swept now e f i = ground (arith, drop_expired now e)

  cleanup-Implements :
      (now : ℕ) (storage : MemoryStorage V) (spec : Reference V)
      → Implements now storage spec
      → Implements now (cleanup_expired_locked now storage) spec
  unfolding cleanup_expired_locked
  cleanup-Implements now storage spec i =
      if_cases (λ m. Implements now m spec) _ _ _ (λ early. i)
        (λ due. record {
          unique = drop_if-HasUniqueKeys (memory_entry_expired now) storage.entries i.unique;
          entries = λ id.
              rw (get-drop_if (memory_entry_expired now) storage.entries id i.unique)
                (swept now _ (spec id) (i.entries id));
        })

  pub set-Implements :
      (now : ℕ) (id : String) (values : V) (ttl : ℤ) (storage : MemoryStorage V)
      (spec : Reference V)
      → Implements now storage spec
      → Implements now
          (set_normalized now id values ttl storage)
          (assign spec id (some (record { values = values; expires_at = expiry now ttl })))
  unfolding set_normalized
  set-Implements now id values ttl storage spec i = cleanup-Implements now _ _ (record {
    unique = put-HasUniqueKeys storage.entries id _ i.unique;
    entries = λ j. ground (
      arith,
      get-put storage.entries id j (record { values = values; expires_at = expiry now ttl }),
      i.entries j,
    );
  })

  pub delete-Implements :
      (now : ℕ) (id : String) (storage : MemoryStorage V) (spec : Reference V)
      → Implements now storage spec
      → Implements now (delete id storage) (assign spec id none)
  unfolding delete
  delete-Implements now id storage spec i = record {
    unique = remove-HasUniqueKeys storage.entries id i.unique;
    entries = λ j. ground (arith, get-remove storage.entries id j, i.entries j);
  }

  pub first-live :
      (now : ℕ) (id : String) (storage : MemoryStorage V) (spec : Reference V)
      → Implements now storage spec
      → look_option (get_first now id storage) ≡ live now (spec id)
  unfolding get_first live
  first-live now id storage spec i = ground (arith, i.entries id)

  pub second-live :
      (now : ℕ) (id : String) (storage : MemoryStorage V) (spec : Reference V)
      → Implements now storage spec
      → to_option (get_second now id storage).0 ≡ live now (spec id)
  unfolding get_second live
  second-live now id storage spec i = ground (arith, i.entries id)

  pub second-Implements :
      (now : ℕ) (id : String) (storage : MemoryStorage V) (spec : Reference V)
      → Implements now storage spec
      → Implements now (get_second now id storage).1 spec
  unfolding get_second live
  second-Implements now id storage spec i = record {
    unique = ground (arith, i.unique, remove-HasUniqueKeys storage.entries id i.unique);
    entries = λ j.
        ground (arith, get-remove storage.entries id j, i.entries j, eq_iff id j, i.entries id);
  }
