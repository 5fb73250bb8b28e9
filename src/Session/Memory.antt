-- ===== src/Session/Memory.antt =====
-- session/storage.go: MemoryStorage. An instant is a number of nanoseconds, 0 is Go's zero time, and
-- `Get` is cut where it gives up the read lock.
pub mod Reference
pub mod Calls
use gonex.Common.{
  ℕ, ◌+◌, String, Bool, true, false, not, ◌&&◌, Option, none, some, List, [], nat_eq, ltb,
  if◌then◌else◌,
}
use gonex.Common.Dict
use gonex.Common.Dict.{Dict}
use gonex.Common.Int.{ℤ, pos, negsuc}
use gonex.Session.Values.{Err, not_found, Result, ok, failed, Outcome, Json, normalize_map}

abbrev pub memory_cleanup_interval : ℕ
memory_cleanup_interval = 60000000000

pub record Entry (V : Type 0) : Type 0 where
  pub values : V
  pub expires_at : ℕ

pub record MemoryStorage (V : Type 0) : Type 0 where
  pub entries : Dict (Entry V)
  pub next_cleanup : ℕ

abbrev pub is_zero : ℕ → Bool
is_zero t = nat_eq t 0

-- `if ttl > 0 { entry.expiresAt = now.Add(ttl) }`
abbrev pub expiry : ℕ → ℤ → ℕ
expiry now (pos n) = if nat_eq n 0 then 0 else now + n
expiry now (negsuc n) = 0

-- What `Get` finds under the read lock: `stale` goes on to the second part.
pub data Look (V : Type 0) : Type 0 where
  found : V → Look V
  missing stale : Look V

module _ {V : Type 0} where
  -- NewMemoryStorage
  unfoldable pub new_memory_storage : ℕ → MemoryStorage V
  new_memory_storage now = record { entries = []; next_cleanup = now + memory_cleanup_interval }

  -- memoryEntryExpired
  abbrev pub memory_entry_expired : ℕ → Entry V → Bool
  memory_entry_expired now entry = not (is_zero entry.expires_at) && ltb entry.expires_at now

  unfoldable pub get_first : ℕ → String → MemoryStorage V → Look V
  get_first now id storage = elim (Dict.get storage.entries id) [
    | none ↦ missing
    | some entry ↦ if memory_entry_expired now entry then stale else found entry.values
  ]

  unfoldable pub get_second : ℕ → String → MemoryStorage V → Result V × MemoryStorage V
  get_second now id storage = elim (Dict.get storage.entries id) [
    | none ↦ (failed not_found, storage)
    | some entry ↦
        if memory_entry_expired now entry
        then (failed not_found, record storage { entries = Dict.remove storage.entries id })
        else (ok entry.values, storage)
  ]

  -- Get, where no other call comes between its parts, which read the clock at `now` and `later`.
  unfoldable pub get : ℕ → ℕ → String → MemoryStorage V → Result V × MemoryStorage V
  unfolding get_first get_second
  get now later id storage = elim (get_first now id storage) [
    | found values ↦ (ok values, storage)
    | missing ↦ (failed not_found, storage)
    | stale ↦ get_second later id storage
  ]

  -- cleanupExpiredLocked
  unfoldable pub cleanup_expired_locked : ℕ → MemoryStorage V → MemoryStorage V
  cleanup_expired_locked now storage =
      if not (is_zero storage.next_cleanup) && ltb now storage.next_cleanup
      then storage
      else record {
        entries = Dict.drop_if (memory_entry_expired now) storage.entries;
        next_cleanup = now + memory_cleanup_interval;
      }

  -- Set, with the values normalized.
  unfoldable pub set_normalized : ℕ → String → V → ℤ → MemoryStorage V → MemoryStorage V
  unfolding cleanup_expired_locked
  set_normalized now id values ttl storage = cleanup_expired_locked now (record storage {
    entries = Dict.put storage.entries id (record { values = values; expires_at = expiry now ttl });
  })

  -- Delete
  unfoldable pub delete : String → MemoryStorage V → MemoryStorage V
  delete id storage = record storage { entries = Dict.remove storage.entries id }

-- Set
unfoldable pub set :
    (json : Json)
    → ℕ
    → String
    → Option json.Object
    → ℤ
    → MemoryStorage json.Object
    → Outcome × MemoryStorage json.Object
unfolding set_normalized
set json now id values ttl storage = elim (normalize_map json values) [
  | failed e ↦ (some e, storage)
  | ok normalized ↦ (none, set_normalized now id normalized ttl storage)
]
