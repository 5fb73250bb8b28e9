-- ===== src/Common/Dict.antt =====
-- Go's `map[string]V` as an association list: reading, writing, deleting, and the keys. `put` keeps
-- one entry for a key, so a `range` over the entries meets each key once.
use Prim.Native.String.{String}
use mathlib.Core.Path.{◌≡◌, refl}
use mathlib.Core.Bool.{Bool}
use mathlib.Core.Option.{Option, none, some}
use mathlib.Core.List.{List, [], ◌∷◌}
use native.Mathlib.Omega.{arith}
use text.Mathlib.Text.{◌==◌}
use text.Mathlib.TextEquality.{eq_iff}
use gonex.Common.Tests.{if◌then◌else◌, is_some}

abbrev pub Dict {ℓ} : Type ℓ → Type ℓ
Dict V = List (String × V)

module _ {ℓ} {V : Type ℓ} where
  -- v, ok := m[k]
  unfoldable pub get : Dict V → String → Option V
  get [] k = none
  get ((j, v) ∷ m) k = if j == k then some v else get m k

  -- _, ok := m[k]
  unfoldable pub has : Dict V → String → Bool
  unfolding get
  has m k = is_some (get m k)

  -- delete(m, k)
  unfoldable pub remove : Dict V → String → Dict V
  remove [] k = []
  remove ((j, v) ∷ m) k = let rest = remove m k in if j == k then rest else (j, v) ∷ rest

  -- m[k] = v
  unfoldable pub put : Dict V → String → V → Dict V
  put [] k v = (k, v) ∷ []
  put ((j, w) ∷ m) k v = if j == k then (k, v) ∷ m else (j, w) ∷ put m k v

  -- for k, v := range m { if drop(v) { delete(m, k) } }
  unfoldable pub drop_if : (V → Bool) → Dict V → Dict V
  drop_if p [] = []
  drop_if p ((j, v) ∷ m) = let rest = drop_if p m in if p v then rest else (j, v) ∷ rest

  pub get-remove :
      (m : Dict V) (k j : String) → get (remove m k) j ≡ (if k == j then none else get m j)
  unfolding get remove
  get-remove [] k j = ground arith
  get-remove ((i, v) ∷ m) k j = ground (arith, get-remove m k j, eq_iff i k, eq_iff i j, eq_iff k j)

  pub get-put :
      (m : Dict V) (k j : String) (v : V) → get (put m k v) j ≡ (if k == j then some v else get m j)
  unfolding get put
  get-put [] k j v = refl
  get-put ((i, w) ∷ m) k j v = ground (arith, get-put m k j v, eq_iff i k, eq_iff i j, eq_iff k j)

  -- Every key has one entry.
  abbrev pub HasUniqueKeys : Dict V → Type ℓ
  HasUniqueKeys [] = Unit
  HasUniqueKeys ((k, v) ∷ m) = (get m k ≡ none) × HasUniqueKeys m

-- `get m k` with a default: what `m[k]` gives where the key may be missing.
abbrev pub default {ℓ} : {V : Type ℓ} → V → Option V → V
default d none = d
default d (some v) = v

abbrev pub keep_unless {ℓ} : {V : Type ℓ} → (V → Bool) → Option V → Option V
keep_unless p none = none
keep_unless p (some v) = if p v then none else some v

module _ {ℓ} {V : Type ℓ} where
  drop_if-get-none :
      (p : V → Bool) (m : Dict V) (k : String) → get m k ≡ none → get (drop_if p m) k ≡ none
  unfolding get drop_if
  drop_if-get-none p [] k h = refl
  drop_if-get-none p ((i, v) ∷ m) k h = ground (arith, drop_if-get-none p m k, eq_iff i k)

  -- With one entry for a key, dropping entries by their value is dropping the key's value.
  pub get-drop_if :
      (p : V → Bool) (m : Dict V) (k : String)
      → HasUniqueKeys m
      → get (drop_if p m) k ≡ keep_unless p (get m k)
  unfolding get drop_if
  get-drop_if p [] k h = refl
  get-drop_if p ((i, v) ∷ m) k (fresh, h) =
      ground (arith, get-drop_if p m k h, drop_if-get-none p m i fresh, eq_iff i k)

  pub remove-HasUniqueKeys :
      (m : Dict V) (k : String) → HasUniqueKeys m → HasUniqueKeys (remove m k)
  unfolding get remove
  remove-HasUniqueKeys [] k h = tt
  remove-HasUniqueKeys ((i, v) ∷ m) k (fresh, h) =
      ground (arith, remove-HasUniqueKeys m k h, get-remove m k i)

  pub put-HasUniqueKeys :
      (m : Dict V) (k : String) (v : V) → HasUniqueKeys m → HasUniqueKeys (put m k v)
  unfolding get put
  put-HasUniqueKeys [] k v h = (refl, tt)
  put-HasUniqueKeys ((i, w) ∷ m) k v (fresh, h) =
      ground (arith, put-HasUniqueKeys m k v h, get-put m k i v, eq_iff i k, eq_iff k i)

  pub drop_if-HasUniqueKeys :
      (p : V → Bool) (m : Dict V) → HasUniqueKeys m → HasUniqueKeys (drop_if p m)
  unfolding drop_if
  drop_if-HasUniqueKeys p [] h = tt
  drop_if-HasUniqueKeys p ((i, v) ∷ m) (fresh, h) =
      ground (arith, drop_if-HasUniqueKeys p m h, drop_if-get-none p m i fresh)
