-- ===== src/Taskflow/Host.antt =====
-- What lies outside the TaskManager, and its methods as actions that keep the calls they make. The
-- store is an interface; taskflow/store/gorm is one implementation of it.
pub mod Adds
pub mod Ensures
use nsw_core.Common.{
  ℕ, String, Bool, true, false, not, Option, none, some, List, [], ◌∷◌, ◌++◌, if◌then◌else◌,
}
use nsw_core.Shared.Value.{Fields}
use nsw_core.Engine.Dsl.{WorkflowDefinition}
use nsw_core.Taskflow.Failure.{Failure, plain, wrap}
use nsw_core.Taskflow.Record.{TaskRecord, TaskFilter}
use nsw_core.Taskflow.Store.Writes.{Op}

pub data Result {ℓ} (A : Type ℓ) : Type ℓ where
  ok : A → Result A
  err : Failure → Result A

-- artifact/adapter/types/types.go
pub record TaskTemplate : Type 0 where
  pub id : String
  pub type : String
  pub workflow_id : String
  pub render_config_id : String
  pub claimable : Bool
  pub read_roles : List String

pub data ExecutionPhase : Type 0 where
  pre_resume post_resume : ExecutionPhase
  other_phase : String → ExecutionPhase

-- Properties are the JSON text that the extension reads.
pub record ExtensionConfig : Type 0 where
  pub id : String
  pub phase : ExecutionPhase
  pub properties : String

pub record StepTemplate : Type 0 where
  pub id : String
  pub plugin_type : String
  pub plugin_properties : String
  pub output_namespace : String
  pub extensions : List ExtensionConfig
  pub draft_command : Option String

-- Each operation takes the world before it to its answer and the world after it; what other calls do
-- meanwhile is part of that.
pub record Host : Type 1 where
  pub World : Type 0
  -- store.TaskStore
  pub init_task : TaskRecord → World → Option Failure × World
  pub get_task : String → World → Option TaskRecord × World
  pub get_task_by_workflow_id : String → World → Option TaskRecord × World
  pub get_tasks : TaskFilter → World → List TaskRecord × World
  pub write : String → Op → World → Result ℕ × World
  -- artifact.Set, and the loaders of artifact/adapter on the registry of a version.
  pub registry : ℕ → World → Option Failure × World
  pub load_task_template : ℕ → String → World → Result TaskTemplate × World
  pub load_workflow : ℕ → String → World → Result WorkflowDefinition × World
  pub load_render_config : ℕ → String → World → Result String × World
  pub load_step_template : ℕ → String → World → Result StepTemplate × World
  -- plugins.Registry, and Execute of a plugin: the record as the plugin leaves it.
  pub has_plugin : String → Bool
  pub execute_plugin :
      String → TaskRecord → Fields → String → String → World → (Option Failure × TaskRecord) × World
  -- extensions.Registry; `has_extensions` is false for a nil registry.
  pub has_extensions : Bool
  pub has_extension : String → Bool
  pub execute_extension : ExtensionConfig → TaskRecord → Fields → World → Option Failure × World
  -- engine.TemporalManager and engine.WorkflowTerminator.
  pub start_workflow : String → WorkflowDefinition → Fields → World → Option Failure × World
  pub complete_activation : String → String → Fields → World → Option Failure × World
  pub can_terminate : Bool
  pub terminate_workflow : String → String → World → Option Failure × World
  pub on_task_completed : String → String → Fields → World → Option Failure × World
  -- renderer.Renderer; callbacktoken.Decode; the clock.
  pub render : String → String → Fields → World → Result String × World
  pub decode_token : String → Option (String × String)
  pub now : World → ℕ
  -- WithRequiredPreResumeExtensions
  pub required_pre_resume : List String

-- A call that leaves a mark outside, with its answer where that matters.
pub data Call : Type 0 where
  created : String → Call
  wrote : String → Op → Result ℕ → Call
  started : String → Call
  executed : String → TaskRecord → Call
  extended : String → Call
  activated : String → String → Fields → Bool → Call
  terminated : String → Call
  woke : String → String → Fields → Option Failure → Call

abbrev pub is_none : Option Failure → Bool
is_none none = true
is_none (some e) = false

module _ (h : Host) where
  open h use {World}

  pub record State : Type 0 where
    pub world : World
    pub calls : List Call

  abbrev pub M : Type 0 → Type 0
  M A = State → Result A × State

module _ {h : Host} where
  abbrev pub resume : {A B : Type 0} → Result A × State h → (A → M h B) → Result B × State h
  resume (ok a, s) f = f a s
  resume (err e, s) f = (err e, s)

  infixl 5 ◌>>=◌ ◌>>◌
  unfoldable pub ◌>>=◌ : {A B : Type 0} → M h A → (A → M h B) → M h B
  (m >>= f) s = resume (m s) f

  abbrev pub ◌>>◌ : {B : Type 0} → M h (Unit {0}) → M h B → M h B
  m >> k = m >>= λ _. k

  unfoldable pub pure : {A : Type 0} → A → M h A
  pure a s = (ok a, s)

  unfoldable pub raise : {A : Type 0} → Failure → M h A
  raise e s = (err e, s)

  -- An answer that may be an error, under a function on the error.
  unfoldable pub lift : {A : Type 0} → (Failure → Failure) → Result A → M h A
  lift f (ok a) s = (ok a, s)
  lift f (err e) s = (err (f e), s)

  unfoldable pub checked : (Failure → Failure) → Option Failure → M h (Unit {0})
  checked f none s = (ok tt, s)
  checked f (some e) s = (err (f e), s)

  -- if !test { return err }
  unfoldable pub require : Bool → Failure → M h (Unit {0})
  require true e s = (ok tt, s)
  require false e s = (err e, s)

  unfoldable pub found : {A : Type 0} → Option A → Failure → M h A
  found none e s = (err e, s)
  found (some a) e s = (ok a, s)

  -- A read of the world.
  unfoldable pub ask : {A : Type 0} → (h.World → A × h.World) → M h A
  ask op s = let (a, w) = op s.world in (ok a, record s { world = w })

  -- A call, with the mark that it leaves.
  unfoldable pub call : {A : Type 0} → (A → Call) → (h.World → A × h.World) → M h A
  call mark op s =
      let (a, w) = op s.world in (ok a, record { world = w; calls = s.calls ++ mark a ∷ [] })

  unfoldable pub write : String → Op → M h (Result ℕ)
  unfolding call
  write id op = call (wrote id op) (h.write id op)

  -- defer func() { err = f(err) }()
  abbrev pub map_error :
      {A : Type 0} → (Failure → Failure) → Result A × State h → Result A × State h
  map_error f (ok a, s) = (ok a, s)
  map_error f (err e, s) = (err (f e), s)

  unfoldable pub deferred : {A : Type 0} → (Failure → Failure) → M h A → M h A
  deferred f m s = map_error f (m s)
