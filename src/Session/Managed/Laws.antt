-- ===== src/Session/Managed/Laws.antt =====
-- Whatever fails, the session of a request, the storage and the client's cookie stay in step.
use gonex.Common.{
  String, Bool, true, false, Option, none, some, ◌≡◌, ◌⊎◌, inl, inr, refl, ap, ◌==◌, not,
  if◌then◌else◌, arith, eq_iff, Bool-cases, if_cases,
}
use gonex.Common.Dict
use gonex.Common.Dict.{Dict, get-put, get-remove}
use gonex.Session.Managed.{
  Err, storage_failed, cookie_failed, token_failed, Storage, IsLawful, IssuesNew, issued, Request,
  rotate, persist,
}

-- The same values under the same keys.
abbrev pub IsSameMap : {V : Type 0} → Dict V → Dict V → Type 0
IsSameMap values others = (key : String) → Dict.get values key ≡ Dict.get others key

module _ {V : Type 0} (S : Storage V) where
  -- The client holds the identifier, and the storage has the values under it.
  abbrev pub IsStored : Request V S.State → Dict V → Type 0
  IsStored r values =
      (r.client ≡ some r.session.id)
      × ((kept : Dict V) × (S.stored r.storage r.session.id ≡ some kept) × IsSameMap kept values)

  -- The session is logged out and the client's cookie gone, or the client's cookie names the session, and
  -- the storage has the values of the session.
  abbrev pub IsInStep : Request V S.State → Type 0
  IsInStep r =
      ((r.session.logged_out ≡ true) × (r.client ≡ none))
      ⊎ ((r.session.logged_out ≡ false) × IsStored r r.session.values)

  -- What a call of persist or regenerate comes to.
  unfoldable pub Outcome : Request V S.State → Option Err × Request V S.State → Type 0
  Outcome r (none, r1) =
      (r1.client ≡ some r1.session.id)
      × (S.stored r1.storage r1.session.id ≡ some r.session.values)
      × (r1.session.values ≡ r.session.values)
      × (r1.session.logged_out ≡ r.session.logged_out)
  Outcome r (some e, r1) =
      (r1.client ≡ r.client)
      × (r1.session ≡ r.session)
      × (S.stored r1.storage r.session.id ≡ S.stored r.storage r.session.id)

module _ {V : Type 0} (S : Storage V) (L : IsLawful S) where
  pub done :
      (r r1 : Request V S.State)
      → r1.client ≡ some r1.session.id
      → S.stored r1.storage r1.session.id ≡ some r.session.values
      → r1.session.values ≡ r.session.values
      → r1.session.logged_out ≡ r.session.logged_out
      → Outcome S r (none, r1)
  unfolding Outcome
  done r r1 holds stands same alive = (holds, stands, same, alive)

  pub undone :
      (r : Request V S.State) (e : Err) (s : S.State)
      → S.stored s r.session.id ≡ S.stored r.storage r.session.id
      → Outcome S r (some e, record r { storage = s })
  unfolding Outcome
  undone r e s stands = (refl, refl, stands)

  issued_other :
      (s s1 : S.State) (id old : String) (values : Dict V)
      → (id == old) ≡ false
      → S.stored s1 old ≡ issued (some id) values old (S.stored s old)
      → S.stored s1 old ≡ S.stored s old
  issued_other s s1 id old values differ h = ground arith

  pub revoked_other :
      (s : S.State) (values : Dict V) (id old : String) (before : Option (Dict V))
      → (id == old) ≡ false
      → S.stored s id ≡ issued (some id) values id before
      → S.stored (S.revoke_token s old).1 id ≡ some values
  revoked_other s values id old before differ h =
      ground (arith, h, L.revoke_token-stored s old id, eq_iff id old, eq_iff old id, eq_iff id id)

  -- The end of a rotation: the old token is revoked.
  abbrev revocation :
      (String → Bool) → Request V S.State → String → S.State → Option Err × Request V S.State
  revocation accepts r id s =
      if not (S.revoke_token s r.session.id).0
      then (some storage_failed, record r { storage = (S.revoke_token s r.session.id).1 })
      else (
        none,
        record {
          storage = (S.revoke_token s r.session.id).1;
          client = some id;
          session = record r.session { id = id; family = S.family id };
        },
      )

  revocation-Outcome :
      (accepts : String → Bool) (r : Request V S.State) (id : String) (s : S.State)
      → S.stored s r.session.id ≡ S.stored r.storage r.session.id
      → S.stored (S.revoke_token s r.session.id).1 id ≡ some r.session.values
      → Outcome S r (revocation accepts r id s)
  revocation-Outcome accepts r id s kept stands =
      if_cases (Outcome S r) (not (S.revoke_token s r.session.id).0)
        (some storage_failed, record r { storage = (S.revoke_token s r.session.id).1 })
        (
          none,
          record {
            storage = (S.revoke_token s r.session.id).1;
            client = some id;
            session = record r.session { id = id; family = S.family id };
          },
        )
        (λ failed.
          undone r storage_failed (S.revoke_token s r.session.id).1
            (ground (arith, failed, L.revoke_token-stored s r.session.id r.session.id, kept)))
        (λ revoked. done r _ refl stands refl refl)

  pub rotate-Outcome :
      (accepts : String → Bool) (r : Request V S.State) (token : Option String × S.State)
      → ((id : String) → token.0 ≡ some id → (id == r.session.id) ≡ false)
      → ((j : String)
          → S.stored token.1 j ≡ issued token.0 r.session.values j (S.stored r.storage j))
      → Outcome S r (rotate S accepts r token)
  unfolding rotate
  rotate-Outcome accepts r (none, s) differ issues = undone r token_failed s (issues r.session.id)
  rotate-Outcome accepts r (some id, s) differ issues =
      let old = r.session.id in
      let kept : S.stored s old ≡ S.stored r.storage old =
        issued_other r.storage s id old r.session.values (differ id refl) (issues old) in
      if_cases (Outcome S r) (not (accepts id)) (some cookie_failed, record r { storage = s })
        (revocation accepts r id s) (λ refused. undone r cookie_failed s kept)
        (λ accepted.
          revocation-Outcome accepts r id s kept
            (revoked_other s r.session.values id old _ (differ id refl) (issues id)))

  pub fresh_differs :
      (s : S.State) (id old : String) (kept : Dict V)
      → S.stored s id ≡ none
      → S.stored s old ≡ some kept
      → (id == old) ≡ false
  fresh_differs s id old kept gone stands = elim (Bool-cases (id == old)) [
    | inl same ↦ absurd (ground (arith, gone, ap (S.stored s) ((eq_iff id old).0 same), stands))
    | inr differ ↦ differ
  ]

  set-Outcome :
      (r : Request V S.State)
      → r.client ≡ some r.session.id
      → Outcome S r (
          if (S.set r.storage r.session.id r.session.values).0
          then (none, record r { storage = (S.set r.storage r.session.id r.session.values).1 })
          else (
            some storage_failed,
            record r { storage = (S.set r.storage r.session.id r.session.values).1 },
          ))
  set-Outcome r holds =
      let id = r.session.id in
      if_cases (Outcome S r) _ _ _
        (λ ok.
          done r _ holds
            (ground (arith, ok, L.set-stored r.storage id r.session.values id, eq_iff id id)) refl
            refl)
        (λ failed.
          undone r _ _ (ground (arith, failed, L.set-stored r.storage id r.session.values id)))

  pub persist-Outcome :
      (accepts : String → Bool) (r : Request V S.State) (kept : Dict V)
      → r.client ≡ some r.session.id
      → S.stored r.storage r.session.id ≡ some kept
      → IssuesNew L r.storage r.session.id
      → Outcome S r (persist S accepts r)
  unfolding persist
  persist-Outcome accepts r kept holds stands new =
      if_cases (Outcome S r) _ _ _
        (λ is_cookie.
          rotate-Outcome accepts r
            (S.encode_with_family r.storage r.session.values r.session.family)
            (λ id e. (new r.session.values r.session.family id e).1)
            (λ j.
              L.encode_with_family-stored r.storage r.session.values r.session.family j
                (λ id e. (new r.session.values r.session.family id e).0)))
        (λ other. set-Outcome r holds)
