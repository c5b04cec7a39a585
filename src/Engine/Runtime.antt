-- ===== src/Engine/Runtime.antt =====
-- What the interpreter takes from outside: the Temporal SDK, the host's handlers behind its Activities,
-- the expression library, and the texts that fmt, time and the UUID and hash libraries make. Each
-- operation that blocks gives a result and the world after it.
use nsw_core.Common.{ℕ, String, Bool, Option, List}
use nsw_core.Shared.Value.{ℤ, Value, Fields}
use nsw_core.Engine.Dsl.{NodeType, Mapping, WorkflowDefinition}
use nsw_core.Engine.Park.{ParkCategory, Failure, Result}
use nsw_core.Engine.BatchResults.{ChildOutput}
use nsw_core.Engine.State.{LastError, AdminResolutionSignal}

-- ExecuteTaskActivity's arguments.
pub record TaskCall : Type 0 where
  pub activation_id : String
  pub template_id : String
  pub inputs : Fields
  pub case_id : String
  pub node_id : String
  pub seq : ℕ
  pub manifest_version : ℕ

pub record TaskResult : Type 0 where
  pub suspended : Bool
  pub output : Option Fields

pub record ChildStart : Type 0 where
  pub workflow_id : String
  pub definition : WorkflowDefinition
  pub variables : Fields

pub record BroadcastMessage : Type 0 where
  pub sender_branch_id : String
  pub signal_name : String
  pub payload : Fields

-- AdminParkPayload, without the run ID, which the world knows.
pub record AdminParkPayload : Type 0 where
  pub workflow_id : String
  pub case_id : String
  pub manifest_version : ℕ
  pub node_id : String
  pub activation_id : String
  pub seq : ℕ
  pub node_type : NodeType
  pub task_template_id : String
  pub cause : LastError
  pub park_category : ParkCategory
  pub input_mapping : Mapping
  pub output_mapping : Mapping
  pub cached_task_result : Option Fields

-- What the selector of monitorChildWorkflows wakes up for.
pub data ChildEvent : Type 0 where
  finished : String → ChildOutput → ChildEvent
  broadcast : BroadcastMessage → ChildEvent

pub record Runtime : Type 1 where
  pub World : Type 0
  -- workflow.Now, and ctx.Err() != nil.
  pub now : World → ℕ
  pub is_cancelled : World → Bool
  -- expr.Compile and expr.Run on a condition that is not empty.
  pub expr : String → Fields → Result Bool
  -- fmt.Sprintf("%v", v), json.Marshal, time.ParseDuration in nanoseconds, the UUID of a run, hex of a SHA-256 prefix.
  pub sprint : Value → String
  pub error_text : Failure → String
  pub encode : Value → Result String
  pub parse_duration : String → Option ℤ
  pub activation_uuid : String → String → ℕ → String
  pub hash_hex : ℕ → String → String
  -- workflow.Sleep.
  pub sleep : ℕ → World → Option Failure × World
  -- ExecuteTaskActivity; the completion's future, whether it is ready and what it gives.
  pub execute_task : TaskCall → World → Result TaskResult × World
  pub completion_ready : String → World → Bool
  pub await_completion : String → World → Result (Option Fields) × World
  -- WorkflowCompletedActivity.
  pub notify_completed : String → Fields → ℕ → World → Option Failure × World
  -- ExecuteChildWorkflow and its future.
  pub start_child : ChildStart → World → World
  pub await_child : String → World → ChildOutput × World
  pub child_started : String → World → Option Failure × World
  -- FetchWorkflowDefinitionActivity.
  pub fetch_definition : String → ℕ → World → Result WorkflowDefinition × World
  -- The next event of the children that run, on the broadcast channel of that name; messages to a child.
  pub select_child : List String → String → World → ChildEvent × World
  pub signal_child : String → String → Fields → World → World
  pub cancel_child : String → World → World
  -- AdminParkActivity, joined before the resolution is acted on, and the resolution's future.
  pub notify_park : AdminParkPayload → World → Option Failure × World
  pub await_resolution : String → World → Result AdminResolutionSignal × World
  -- SignalExternalWorkflow to the parent, and the next signal of a channel, `none` if cancelled.
  pub signal_parent : String → String → BroadcastMessage → World → Option Failure × World
  pub receive_signal : String → World → Option (Option Fields) × World
