-- ===== src/Session/Managed.antt =====
-- ghttp/session.go: the session of one request, which keeps a storage, the client's cookie and its own
-- values in step. The storage is an interface with laws, a CookieStorage or any other; the values are
-- normalized when they come in. Manager, context and receiver are not nil.
pub mod Laws
pub mod Regenerate
pub mod Steps
pub mod Runs
pub mod Ends
pub mod Memory
pub mod Cookies
pub mod Examples
use gonex.Common.{
  String, List, [], ◌∷◌, Bool, true, false, Option, none, some, ◌≡◌, ◌≢◌, ◌||◌, ◌&&◌, ◌==◌, not,
  if◌then◌else◌,
}
use gonex.Common.Dict
use gonex.Common.Dict.{Dict}
use gonex.Common.Text.{is_blank}

-- The answer of Storage.Get: the values, ErrNotFound, or another error.
pub data Found (V : Type 0) : Type 0 where
  found : Dict V → Found V
  not_found get_failed : Found V

-- The errors by what failed; `joined` adds the error of cleaning up.
pub data Err : Type 0 where
  invalid_value logged_out_error storage_failed token_failed id_failed cookie_failed missing_id :
      Err
  joined : Err → Err → Err

-- session.Storage, and what the manager uses of a CookieStorage besides, over an unknown state.
pub record Storage (V : Type 0) : Type 1 where
  pub State : Type 0
  -- The values that an identifier stands for: not a call, but what the laws speak of.
  pub stored : State → String → Option (Dict V)
  pub is_cookie : Bool
  pub get : State → String → Found V × State
  pub set : State → String → Dict V → Bool × State
  pub delete : State → String → Bool × State
  pub encode : State → Dict V → Option String × State
  pub encode_with_family : State → Dict V → String → Option String × State
  pub revoke_token : State → String → Bool × State
  pub family : String → String

-- What an identifier stands for after a token has been issued for the values.
abbrev pub issued :
    {V : Type 0} → Option String → Dict V → String → Option (Dict V) → Option (Dict V)
issued none values j old = old
issued (some id) values j old = if id == j then some values else old

-- A call that fails changes nothing, and a token that is issued stands for the values it was issued for,
-- unless it is spent: revoked before it was issued. No time passes that would let an entry expire.
pub record IsLawful {V : Type 0} (S : Storage V) : Type 0 where
  pub is_spent : S.State → String → Bool
  pub get-stored : (s : S.State) (id j : String) → S.stored (S.get s id).1 j ≡ S.stored s j
  pub get-found :
      (s : S.State) (id : String) (values : Dict V)
      → (S.get s id).0 ≡ found values
      → S.stored s id ≡ some values
  pub set-stored :
      (s : S.State) (id : String) (values : Dict V) (j : String)
      → S.stored (S.set s id values).1 j
        ≡ (if (S.set s id values).0 && id == j then some values else S.stored s j)
  pub delete-stored :
      (s : S.State) (id j : String)
      → S.is_cookie ≡ false
      → S.stored (S.delete s id).1 j ≡ (if (S.delete s id).0 && id == j then none else S.stored s j)
  -- Deleting a token may revoke others with it.
  pub delete-gone :
      (s : S.State) (id : String)
      → S.stored (S.delete s id).1 id ≡ (if (S.delete s id).0 then none else S.stored s id)
  pub revoke_token-stored :
      (s : S.State) (id j : String)
      → S.stored (S.revoke_token s id).1 j
        ≡ (if (S.revoke_token s id).0 && id == j then none else S.stored s j)
  pub encode-stored :
      (s : S.State) (values : Dict V) (j : String)
      → ((id : String) → (S.encode s values).0 ≡ some id → is_spent s id ≡ false)
      → S.stored (S.encode s values).1 j ≡ issued (S.encode s values).0 values j (S.stored s j)
  pub encode_with_family-stored :
      (s : S.State) (values : Dict V) (family j : String)
      → ((id : String) → (S.encode_with_family s values family).0 ≡ some id → is_spent s id ≡ false)
      → S.stored (S.encode_with_family s values family).1 j
        ≡ issued (S.encode_with_family s values family).0 values j (S.stored s j)

-- The random nonce makes the next token a new one: it is not spent, and not the token `old`.
abbrev pub IssuesNew : {V : Type 0} {S : Storage V} → IsLawful S → S.State → String → Type 0
IssuesNew {V} {S} L s old =
    (values : Dict V) (family id : String)
    → (S.encode_with_family s values family).0 ≡ some id
    → (L.is_spent s id ≡ false) × ((id == old) ≡ false)

-- managedSession
pub record ManagedSession (V : Type 0) : Type 0 where
  pub id : String
  pub family : String
  pub values : Dict V
  pub logged_out : Bool

-- A request: the storage, the session cookie that the client holds after the response, and the session.
pub record Request (V State : Type 0) : Type 0 where
  pub storage : State
  pub client : Option String
  pub session : ManagedSession V

module _ {V : Type 0} (S : Storage V) where
  -- The end of `persist` and `regenerate` with a cookie storage: `accepts` is the test of `prepare`.
  unfoldable pub rotate :
      (String → Bool) → Request V S.State → Option String × S.State → Option Err × Request V S.State
  rotate accepts r (none, s) = (some token_failed, record r { storage = s })
  rotate accepts r (some id, s) =
      let (revoked, s1) = S.revoke_token s r.session.id in
      let session = record r.session { id = id; family = S.family id } in
      if not (accepts id)
      then (some cookie_failed, record r { storage = s })
      else if not revoked
      then (some storage_failed, record r { storage = s1 })
      else (none, record { storage = s1; client = some id; session = session })

  -- persist
  unfoldable pub persist : (String → Bool) → Request V S.State → Option Err × Request V S.State
  unfolding rotate
  persist accepts r =
      if S.is_cookie
      then rotate accepts r (S.encode_with_family r.storage r.session.values r.session.family)
      else let (ok, s) = S.set r.storage r.session.id r.session.values in
        if ok
        then (none, record r { storage = s })
        else (some storage_failed, record r { storage = s })

  -- The values of a session, after a call of persist that may have failed.
  abbrev keep_or_undo : Dict V → Option Err × Request V S.State → Option Err × Request V S.State
  keep_or_undo values (none, r) = (none, r)
  keep_or_undo values (some e, r) =
      (some e, record r { session = record r.session { values = values } })

  abbrev with_values : Dict V → Request V S.State → Request V S.State
  with_values values r = record r { session = record r.session { values = values } }

  -- What Set and Delete put back for a key.
  abbrev put_back : Dict V → String → Option V → Dict V
  put_back values key none = Dict.remove values key
  put_back values key (some previous) = Dict.put values key previous

  -- Set, of a value that sessionvalue.Normalize has answered for
  unfoldable pub set_value :
      (String → Bool) → String → Option V → Request V S.State → Option Err × Request V S.State
  unfolding persist
  set_value accepts key none r = (some invalid_value, r)
  set_value accepts key (some value) r =
      if r.session.logged_out
      then (some logged_out_error, r)
      else let values = Dict.put r.session.values key value in
        keep_or_undo (put_back values key (Dict.get r.session.values key))
          (persist accepts (with_values values r))

  -- What Delete puts back.
  abbrev put_again : Dict V → String → Option V → Dict V
  put_again values key none = values
  put_again values key (some previous) = Dict.put values key previous

  -- Delete
  unfoldable pub delete_value :
      (String → Bool) → String → Request V S.State → Option Err × Request V S.State
  unfolding persist
  delete_value accepts key r =
      if r.session.logged_out
      then (some logged_out_error, r)
      else let values = Dict.remove r.session.values key in
        keep_or_undo (put_again values key (Dict.get r.session.values key))
          (persist accepts (with_values values r))

  -- Clear
  unfoldable pub clear : (String → Bool) → Request V S.State → Option Err × Request V S.State
  unfolding persist
  clear accepts r =
      if r.session.logged_out
      then (some logged_out_error, r)
      else keep_or_undo r.session.values (persist accepts (with_values [] r))

  -- regenerate without a cookie storage, on the answer of session.NewID
  unfoldable pub regenerate_stored :
      (String → Bool) → Option String → Request V S.State → Option Err × Request V S.State
  regenerate_stored accepts none r = (some id_failed, r)
  regenerate_stored accepts (some new_id) r =
      let (written, s1) = S.set r.storage new_id r.session.values in
      let (deleted, s2) = S.delete s1 r.session.id in
      let (cleaned, s3) = S.delete s2 new_id in
      let session = record r.session { id = new_id } in
      if not (accepts new_id)
      then (some cookie_failed, r)
      else if not written
      then (some storage_failed, record r { storage = s1 })
      else if not deleted
      then (
        some (if cleaned then storage_failed else joined storage_failed storage_failed),
        record r { storage = s3 },
      )
      else (none, record { storage = s2; client = some new_id; session = session })

  -- Regenerate
  unfoldable pub regenerate :
      (String → Bool) → Option String → Request V S.State → Option Err × Request V S.State
  unfolding rotate regenerate_stored
  regenerate accepts new_id r =
      if r.session.logged_out
      then (some logged_out_error, r)
      else if S.is_cookie
      then rotate accepts r (S.encode_with_family r.storage r.session.values r.session.family)
      else regenerate_stored accepts new_id r

  -- Logout
  unfoldable pub logout : (String → Bool) → Request V S.State → Option Err × Request V S.State
  logout accepts r =
      let (deleted, s) = S.delete r.storage r.session.id in
      let session : ManagedSession V = record {
        id = "";
        family = "";
        values = [];
        logged_out = true;
      } in
      if r.session.logged_out
      then (none, r)
      else if not (accepts "")
      then (some cookie_failed, r)
      else if not deleted
      then (some storage_failed, record r { storage = s })
      else (none, record { storage = s; client = none; session = session })

-- What Open returns: a session with what it changed, or an error and the storage.
pub data Opening (V State : Type 0) : Type 0 where
  opened : Request V State → Opening V State
  refused : Err → State → Opening V State

module _ {V : Type 0} (S : Storage V) (normalize_map : Dict V → Option (Dict V)) where
  -- The end of Open. `created` says that an entry was made for the session.
  unfoldable pub attach : (String → Bool) → Bool → String → Dict V → S.State → Opening V S.State
  attach accepts created id values s =
      let s1 = if created then (S.delete s id).1 else s in
      let session : ManagedSession V = record {
        id = id;
        family = if S.is_cookie then S.family id else "";
        values = values;
        logged_out = false;
      } in
      if is_blank id
      then refused missing_id s
      else if not (accepts id)
      then refused cookie_failed s1
      else opened (record { storage = s; client = some id; session = session })

  unfoldable pub attach_token : (String → Bool) → Option String × S.State → Opening V S.State
  unfolding attach
  attach_token accepts (none, s) = refused token_failed s
  attach_token accepts (some id, s) = attach accepts false id [] s

  unfoldable pub attach_stored : (String → Bool) → Option String → S.State → Opening V S.State
  unfolding attach
  attach_stored accepts none s = refused id_failed s
  attach_stored accepts (some id) s =
      let (written, s1) = S.set s id [] in
      if not written then refused storage_failed s1 else attach accepts true id [] s1

  -- Open without a session to continue, on the answer of session.NewID
  unfoldable pub open_new : (String → Bool) → Option String → S.State → Opening V S.State
  unfolding attach_token attach_stored
  open_new accepts new_id s =
      if S.is_cookie then attach_token accepts (S.encode s []) else attach_stored accepts new_id s

  unfoldable pub attach_found :
      (String → Bool) → String → Option (Dict V) → S.State → Opening V S.State
  unfolding attach
  attach_found accepts id none s = refused invalid_value s
  attach_found accepts id (some values) s = attach accepts false id values s

  -- Open with the identifier of the request's cookie
  unfoldable pub continue :
      (String → Bool) → String → Option String → Found V × S.State → Opening V S.State
  unfolding attach_found open_new
  continue accepts id new_id (found values, s) = attach_found accepts id (normalize_map values) s
  continue accepts id new_id (not_found, s) = open_new accepts new_id s
  continue accepts id new_id (get_failed, s) = refused storage_failed s

  -- Open, for the cookie of the request
  unfoldable pub open_session :
      (String → Bool) → Option String → Option String → S.State → Opening V S.State
  unfolding continue open_new
  open_session accepts none new_id s = open_new accepts new_id s
  open_session accepts (some id) new_id s =
      if is_blank id then open_new accepts new_id s else continue accepts id new_id (S.get s id)
