-- ===== src/Scheduler/Reconcile/Loaded.antt =====
-- scheduler/reconcile.go: prepareDefinitions leaves out no enabled definition and adds none.
use gonex.Common.{
  String, ◌≡◌, ◌≢◌, refl, ◌⊎◌, inl, inr, Bool, true, false, some, List, [], ◌∷◌, arith, ap, subst,
  ◌∙◌, sym, ◌==◌, eq_iff, Bool-cases, All,
}
use gonex.Common.Dict
use gonex.Common.Dict.{Dict, get-put}
use gonex.Scheduler.Persistence.{JobDefinition, Loader}
use gonex.Scheduler.Prepare.{
  MutableScheduler, SyncError, PreparedDefinition, Checked, skip, keep, refuse, ok, trimmed,
  Closure, resolve, check_definition, prepare_definitions,
}

pub Checked-cases :
    (c : Checked)
    → ((e : SyncError) × (c ≡ refuse e)) ⊎ (c ≡ skip) ⊎ ((p : PreparedDefinition) × (c ≡ keep p))
Checked-cases (refuse e) = inl (e, refl)
Checked-cases skip = inr (inl refl)
Checked-cases (keep p) = inr (inr (p, refl))

-- The entry of an enabled definition, under its trimmed identifier.
abbrev pub IsKept : Dict PreparedDefinition → JobDefinition → Type 0
IsKept prepared d =
    (p : PreparedDefinition) × (Dict.get prepared d.id ≡ some p) × (p.definition ≡ d)

-- The list holds the definition.
abbrev pub IsAmong : List JobDefinition → JobDefinition → Type 0
IsAmong [] d = ⊥
IsAmong (x ∷ xs) d = (x ≡ d) ⊎ IsAmong xs d

-- The entries are the enabled definitions of the list, with trimmed texts: none is left out, and none is
-- from elsewhere.
pub record AreLoaded (definitions : List JobDefinition) (prepared : Dict PreparedDefinition)
    : Type 0 where
  pub complete : All (λ d. d.enabled ≡ true → IsKept prepared (trimmed d)) definitions
  pub listed :
      (id : String) (p : PreparedDefinition)
      → Dict.get prepared id ≡ some p
      → (d : JobDefinition) × IsAmong definitions d × (p.definition ≡ trimmed d)

has-put :
    (ids : Dict Bool) (k id : String)
    → Dict.has ids id ≡ true
    → Dict.has (Dict.put ids k true) id ≡ true
unfolding Dict.has
has-put ids k id met = ground (arith, met, get-put ids k id true)

has-put_same : (ids : Dict Bool) (k : String) → Dict.has (Dict.put ids k true) k ≡ true
unfolding Dict.has
has-put_same ids k = ground (arith, get-put ids k k true, eq_iff k k)

differs :
    (ids : Dict Bool) (k id : String)
    → Dict.has ids k ≡ false
    → Dict.has ids id ≡ true
    → (k == id) ≡ false
differs ids k id fresh met = elim (Bool-cases (k == id)) [
  | inl same ↦ absurd (ground (arith, fresh, met, ap (Dict.has ids) ((eq_iff k id).0 same)))
  | inr other ↦ other
]

get-put_other :
    (acc : Dict PreparedDefinition) (k id : String) (p : PreparedDefinition)
    → (k == id) ≡ false
    → Dict.get (Dict.put acc k p) id ≡ Dict.get acc id
get-put_other acc k id p other = ground (arith, other, get-put acc k id p)

get-put_same :
    (acc : Dict PreparedDefinition) (k : String) (p : PreparedDefinition)
    → Dict.get (Dict.put acc k p) k ≡ some p
get-put_same acc k p = ground (arith, get-put acc k k p, eq_iff k k)

in_tail :
    (x : JobDefinition) (xs : List JobDefinition) (A : Type 0) (p : PreparedDefinition)
    → A ⊎ ((d : JobDefinition) × IsAmong xs d × (p.definition ≡ trimmed d))
    → A ⊎ ((d : JobDefinition) × IsAmong (x ∷ xs) d × (p.definition ≡ trimmed d))
in_tail x xs A p (inl a) = inl a
in_tail x xs A p (inr (d, here, same)) = inr (d, inr here, same)

put-listed :
    (x : JobDefinition) (xs : List JobDefinition) (acc : Dict PreparedDefinition) (k id : String)
    (q p : PreparedDefinition)
    → q.definition ≡ trimmed x
    → (Dict.get (Dict.put acc k q) id ≡ some p)
      ⊎ ((d : JobDefinition) × IsAmong xs d × (p.definition ≡ trimmed d))
    → (Dict.get acc id ≡ some p)
      ⊎ ((d : JobDefinition) × IsAmong (x ∷ xs) d × (p.definition ≡ trimmed d))
put-listed x xs acc k id q p same (inr (d, here, from)) = inr (d, inr here, from)
put-listed x xs acc k id q p same (inl found) = elim (Bool-cases (k == id)) [
  | inl e ↦
      let is : q ≡ p = ground (arith, get-put acc k id q, found, e) in
      inr (x, inl refl, subst (λ (r : PreparedDefinition). r.definition ≡ trimmed x) is same)
  | inr e ↦ inl (sym (get-put_other acc k id q e) ∙ found)
]

module _ (runtime : MutableScheduler) (closure : Closure) (loader : Loader) where
  not_skipped :
      (s : runtime.State) (d : JobDefinition)
      → d.enabled ≡ true
      → check_definition runtime closure loader d s ≢ skip
  unfolding check_definition resolve
  not_skipped s d enabled h = ground arith

  kept_definition :
      (s : runtime.State) (d : JobDefinition) (p : PreparedDefinition)
      → check_definition runtime closure loader d s ≡ keep p
      → p.definition ≡ d
  unfolding check_definition resolve
  kept_definition s d p h = ground arith

  -- An identifier that was met before keeps its entry.
  get-prepare :
      (ds : List JobDefinition) (ids : Dict Bool) (names : Dict String)
      (acc : Dict PreparedDefinition) (s : runtime.State) (result : Dict PreparedDefinition)
      (id : String)
      → Dict.has ids id ≡ true
      → prepare_definitions runtime closure loader ds ids names acc s ≡ ok result
      → Dict.get result id ≡ Dict.get acc id
  unfolding prepare_definitions
  get-prepare [] ids names acc s result id met h = ground arith
  get-prepare (raw ∷ ds) ids names acc s result id met h =
      let d = trimmed raw in
      let ids' = Dict.put ids d.id true in
      let names' = Dict.put names d.name d.id in
      let fresh : Dict.has ids d.id ≡ false = ground arith in
      let other : (d.id == id) ≡ false = differs ids d.id id fresh met in
      let met' = has-put ids d.id id met in
      elim (Checked-cases (check_definition runtime closure loader d s)) [
        | inl (e, refused) ↦ absurd (ground arith)
        | inr (inl skipped) ↦ get-prepare ds ids' names' acc s result id met' (ground arith)
        | inr (inr (p, kept)) ↦
            get-prepare ds ids' names' (Dict.put acc d.id p) s result id met' (ground arith)
            ∙ get-put_other acc d.id id p other
      ]

  prepare_complete :
      (ds : List JobDefinition) (ids : Dict Bool) (names : Dict String)
      (acc : Dict PreparedDefinition) (s : runtime.State) (result : Dict PreparedDefinition)
      → prepare_definitions runtime closure loader ds ids names acc s ≡ ok result
      → All (λ d. d.enabled ≡ true → IsKept result (trimmed d)) ds
  unfolding prepare_definitions
  prepare_complete [] ids names acc s result h = tt
  prepare_complete (raw ∷ ds) ids names acc s result h =
      let d = trimmed raw in
      let ids' = Dict.put ids d.id true in
      let names' = Dict.put names d.name d.id in
      elim (Checked-cases (check_definition runtime closure loader d s)) [
        | inl (e, refused) ↦ absurd (ground arith)
        | inr (inl skipped) ↦ (
          λ enabled. absurd (not_skipped s d enabled skipped),
          prepare_complete ds ids' names' acc s result (ground arith),
        )
        | inr (inr (p, kept)) ↦
            let rest : prepare_definitions runtime closure loader ds ids' names'
                  (Dict.put acc d.id p) s
                ≡ ok result =
              ground arith in
            (
              λ enabled. (
                p,
                get-prepare ds ids' names' (Dict.put acc d.id p) s result d.id
                      (has-put_same ids d.id) rest
                    ∙ get-put_same acc d.id p,
                kept_definition s d p kept,
              ),
              prepare_complete ds ids' names' (Dict.put acc d.id p) s result rest,
            )
      ]

  -- Where an entry comes from: it was there before, or its definition is in the list.
  prepare-listed :
      (ds : List JobDefinition) (ids : Dict Bool) (names : Dict String)
      (acc : Dict PreparedDefinition) (s : runtime.State) (result : Dict PreparedDefinition)
      (id : String) (p : PreparedDefinition)
      → prepare_definitions runtime closure loader ds ids names acc s ≡ ok result
      → Dict.get result id ≡ some p
      → (Dict.get acc id ≡ some p)
        ⊎ ((d : JobDefinition) × IsAmong ds d × (p.definition ≡ trimmed d))
  unfolding prepare_definitions
  prepare-listed [] ids names acc s result id p h found =
      let same : acc ≡ result = ground arith in
      inl (ap (λ (m : Dict PreparedDefinition). Dict.get m id) same ∙ found)
  prepare-listed (raw ∷ ds) ids names acc s result id p h found =
      let d = trimmed raw in
      let ids' = Dict.put ids d.id true in
      let names' = Dict.put names d.name d.id in
      elim (Checked-cases (check_definition runtime closure loader d s)) [
        | inl (e, refused) ↦ absurd (ground arith)
        | inr (inl skipped) ↦
            in_tail raw ds (Dict.get acc id ≡ some p) p
              (prepare-listed ds ids' names' acc s result id p (ground arith) found)
        | inr (inr (q, kept)) ↦
            put-listed raw ds acc d.id id q p (kept_definition s d q kept) (
              prepare-listed ds ids' names' (Dict.put acc d.id q) s result id p (ground arith)
                found)
      ]

  pub prepare-AreLoaded :
      (ds : List JobDefinition) (s : runtime.State) (result : Dict PreparedDefinition)
      → prepare_definitions runtime closure loader ds [] [] [] s ≡ ok result
      → AreLoaded ds result
  unfolding Dict.get
  prepare-AreLoaded ds s result h = record {
    complete = prepare_complete ds [] [] [] s result h;
    listed = λ id p found. elim (prepare-listed ds [] [] [] s result id p h found) [
      | inl before ↦ absurd (ground arith)
      | inr here ↦ here
    ];
  }
