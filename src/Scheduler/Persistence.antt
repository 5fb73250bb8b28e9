-- ===== src/Scheduler/Persistence.antt =====
-- scheduler/persistence.go: persistent jobs, the registry of their handlers, and the loader.
use gonex.Common.{ℕ, String, Bool, ◌||◌, Option, none, some, List, [], if◌then◌else◌}
use gonex.Common.Dict
use gonex.Common.Dict.{Dict}
use gonex.Common.Int.{ℤ}
use gonex.Common.Text.{trim_space, is_blank}
use gonex.Scheduler.Overlap.{OverlapPolicy}
use gonex.Scheduler.Job.{Schedule}

-- ExecutionMode; `invalid_mode` is any other byte.
pub data ExecutionMode : Type 0 where
  singleton every_instance invalid_mode : ExecutionMode

-- A payload is raw JSON; a copy of it is the same bytes.
pub record JobDefinition : Type 0 where
  pub id : String
  pub name : String
  pub handler : String
  pub schedule : Schedule
  pub payload : List ℕ
  pub enabled : Bool
  pub version : ℤ
  pub timeout : ℤ
  pub overlap_policy : OverlapPolicy
  pub execution_mode : ExecutionMode

-- A PersistentHandler by its number.
abbrev pub PersistentHandler : Type 0
PersistentHandler = ℕ

-- handlerRegistry
abbrev pub HandlerRegistry : Type 0
HandlerRegistry = Dict PersistentHandler

pub data RegisterError : Type 0 where
  name_and_function_required : RegisterError
  already_registered : String → RegisterError

abbrev register_named :
    String → PersistentHandler → HandlerRegistry → Option RegisterError × HandlerRegistry
register_named name h registry =
    if Dict.has registry name
    then (some (already_registered name), registry)
    else (none, Dict.put registry name h)

-- Register; `none` is a nil handler.
unfoldable pub register :
    String → Option PersistentHandler → HandlerRegistry → Option RegisterError × HandlerRegistry
register name none registry = (some name_and_function_required, registry)
register name (some h) registry =
    if is_blank (trim_space name)
    then (some name_and_function_required, registry)
    else register_named (trim_space name) h registry

-- Get
unfoldable pub lookup_handler : HandlerRegistry → String → Option PersistentHandler
lookup_handler registry name = Dict.get registry (trim_space name)

pub record LoadedJob : Type 0 where
  pub version : ℤ
  pub name : String
  pub definition : JobDefinition

-- The parts of a Loader that reconciliation reads: its registry, whether its locker is nil, and what
-- it has loaded.
pub record Loader : Type 0 where
  pub registry : HandlerRegistry
  pub no_locker : Bool
  pub loaded : Dict LoadedJob

pub data NewLoader : Type 0 where
  ok : Loader → NewLoader
  required : NewLoader

-- NewLoader: whether the store, the registry and the scheduler are nil, and the options' locker.
unfoldable pub new_loader : Bool → Bool → Bool → HandlerRegistry → Bool → NewLoader
new_loader nil_store nil_registry nil_scheduler registry no_locker =
    if nil_store || nil_registry || nil_scheduler
    then required
    else ok (record { registry = registry; no_locker = no_locker; loaded = [] })
