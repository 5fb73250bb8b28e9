-- ===== src/Session/Managed/Examples.antt =====
-- ghttp/session.go over MemoryStorage of session/storage.go: runs of a session's calls.
use gonex.Common.{
  ℕ, String, List, [], ◌∷◌, Bool, true, false, Option, none, some, ◌≡◌, inl, refl, subst, ◌==◌,
  if◌then◌else◌, arith, eq_iff,
}
use gonex.Common.Dict
use gonex.Common.Dict.{Dict}
use gonex.Common.Int.{pos}
use gonex.Session.Values.{Bytes, Result, ok, failed, not_an_object, Json, normalize_map}
use gonex.Session.Memory
use gonex.Session.Memory.{new_memory_storage}
use gonex.Session.Memory.Reference.{live, Implements}
use gonex.Session.Managed.{
  Storage, IsLawful, IssuesNew, Request, Opening, opened, refused, open_session, regenerate, logout,
}
use gonex.Session.Managed.Laws.{IsInStep, IsStored}
use gonex.Session.Managed.Memory.{
  json_of, memory_storage, memory_storage-IsLawful, get_held, set_held, delete_held, set_spec,
}
use gonex.Session.Managed.Runs.{
  Call, set_call, delete_call, regenerate_call, HasFreshIds, run, session_stays_consistent,
}
use gonex.Session.Managed.Ends.{logout_is_final, regenerate_retires_id}

-- JSON of numbers under the key "name".
marshal : Dict ℕ → Result Bytes
marshal [] = ok []
marshal ((key, value) ∷ []) = if key == "name" then ok (value ∷ []) else failed not_an_object
marshal _ = failed not_an_object

as_object : Bytes → Option (Dict ℕ)
as_object [] = some []
as_object (value ∷ []) = some (("name", value) ∷ [])
as_object _ = none

abbrev json : Json
json = json_of Bytes marshal ok as_object

json_normal : (values n : Dict ℕ) → normalize_map json (some values) ≡ ok n → n ≡ values
unfolding normalize_map marshal as_object
json_normal [] n h = ground (arith, h)
json_normal ((key, value) ∷ []) n h = ground (arith, h, eq_iff key "name")
json_normal (_ ∷ _ ∷ _) n h = absurd (ground (arith, h))

-- The storage at the instant 1, with a time to live of 100.
abbrev memory : Storage ℕ
memory = memory_storage Bytes marshal ok as_object 1 (pos 100)

memory-IsLawful : IsLawful memory
memory-IsLawful = memory_storage-IsLawful Bytes marshal ok as_object 1 (pos 100) json_normal

new_memory_storage-Implements : Implements 1 (new_memory_storage {V = Dict ℕ} 1) (λ id. none)
unfolding new_memory_storage Dict.get
new_memory_storage-Implements = record { unique = tt; entries = λ id. inl refl }

abbrev empty : memory.State
empty = record {
  storage = new_memory_storage 1;
  spec = λ id. none;
  holds = new_memory_storage-Implements;
}

abbrev accepts_all : String → Bool
accepts_all id = true

-- After the response headers were written, no cookie is accepted.
abbrev accepts_none : String → Bool
accepts_none id = false

abbrev normalize : Dict ℕ → Option (Dict ℕ)
normalize values = elim (normalize_map json (some values)) [ ok n ↦ some n | failed e ↦ none ]

abbrev request_of : Opening ℕ memory.State → Request ℕ memory.State
request_of (opened r) = r
request_of (refused e s) = record {
  storage = s;
  client = none;
  session = record { id = ""; family = ""; values = []; logged_out = true };
}

abbrev started : Request ℕ memory.State
started = request_of (open_session memory normalize accepts_all none (some "t1") empty)

starts : open_session memory normalize accepts_all none (some "t1") empty ≡ opened started
unfolding open_session set_held Memory.set normalize_map marshal as_object
starts = refl

abbrev calls : List ((String → Bool) × Call ℕ)
calls =
    (accepts_all, set_call "name" (some 7))
    ∷ (accepts_none, regenerate_call (some "t2"))
    ∷ (accepts_all, regenerate_call (some "t2"))
    ∷ (accepts_all, delete_call "other")
    ∷ []

-- No token is issued by this storage.
issues_none : (s : memory.State) (old : String) → IssuesNew memory-IsLawful s old
issues_none s old values family id e = absurd (ground (arith, e))

fresh_id :
    (s : memory.State) (new_id id : String)
    → memory.stored s new_id ≡ none
    → some new_id ≡ some id
    → memory.stored s id ≡ none
fresh_id s new_id id gone e =
    subst (λ (o : Option String). elim o [ none ↦ Unit | some j ↦ memory.stored s j ≡ none ]) e gone

abbrev set_name : Request ℕ memory.State
set_name = run memory ((accepts_all, set_call "name" (some 7)) ∷ []) started

t2_free : memory.stored set_name.storage "t2" ≡ none
unfolding run open_session live set_held set_spec get_held Dict.put Memory.set normalize_map marshal
    as_object
t2_free = refl

calls-HasFreshIds : HasFreshIds memory memory-IsLawful calls started
unfolding HasFreshIds run open_session Dict.put Dict.get set_held Memory.set normalize_map marshal
    as_object
calls-HasFreshIds = (
  issues_none started.storage _,
  (
    (issues_none set_name.storage _, λ id e. fresh_id set_name.storage "t2" id t2_free e),
    (
      (issues_none set_name.storage _, λ id e. fresh_id set_name.storage "t2" id t2_free e),
      (issues_none _ _, tt),
    ),
  ),
)

holds_nothing : (values : Dict ℕ) → live 1 none ≡ some values → ⊥
unfolding live
holds_nothing values here = ground (arith, here)

session_stays_consistent_example : IsInStep memory (run memory calls started)
session_stays_consistent_example =
    session_stays_consistent memory memory-IsLawful normalize accepts_all none (some "t1") empty
      started calls (λ id values here. absurd (holds_nothing values here))
      (λ id e. absurd (ground (arith, e))) starts calls-HasFreshIds

-- The session that holds the name, and what becomes of it.
abbrev logged_out : Request ℕ memory.State
logged_out = (logout memory accepts_all set_name).1

logs_out : logout memory accepts_all set_name ≡ (none, logged_out)
unfolding logout delete_held run open_session set_held Dict.put Memory.set normalize_map marshal
    as_object
logs_out = refl

alive : set_name.session.logged_out ≡ false
unfolding run open_session set_held Dict.put Memory.set normalize_map marshal as_object
alive = refl

logout_is_final_example :
    (logged_out.client ≡ none)
    × (memory.stored logged_out.storage set_name.session.id ≡ none)
    × (run memory calls logged_out ≡ logged_out)
logout_is_final_example =
    logout_is_final memory memory-IsLawful accepts_all set_name logged_out calls alive logs_out

abbrev regenerated : Request ℕ memory.State
regenerated = (regenerate memory accepts_all (some "t2") set_name).1

regenerates : regenerate memory accepts_all (some "t2") set_name ≡ (none, regenerated)
unfolding regenerate run open_session set_held delete_held Dict.put Memory.set normalize_map marshal
    as_object
regenerates = refl

set_name-IsStored : IsStored memory set_name set_name.session.values
unfolding run open_session set_held set_spec live Dict.put Memory.set normalize_map marshal
    as_object
set_name-IsStored = (refl, (set_name.session.values, refl, λ key. refl))

regenerate_retires_id_example :
    (regenerated.client ≡ some regenerated.session.id)
    × ((regenerated.session.id == set_name.session.id) ≡ false)
    × (memory.stored regenerated.storage set_name.session.id ≡ none)
    × (memory.stored regenerated.storage regenerated.session.id ≡ some set_name.session.values)
regenerate_retires_id_example =
    regenerate_retires_id memory memory-IsLawful accepts_all (some "t2") set_name regenerated
      (λ id e. fresh_id set_name.storage "t2" id t2_free e) (issues_none set_name.storage _) alive
      set_name-IsStored regenerates
