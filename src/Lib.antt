-- ===== src/Lib.antt =====
-- Verification of OpenNSW Core, a Go library for national single windows: a workflow engine on
-- Temporal (workflow/), task execution (taskflow/), payments, references and other services.
--
-- The engine interprets a workflow definition as a graph. executeNode runs the handler of a node, which
-- moves on to the next node itself, so an error of a later node comes back through every earlier one.
-- A handler's error parks its node until an admin resolves it. A node reads its inputs out of the
-- workflow variables and writes its outputs back through mappings; gateways route, divide and join. A
-- BATCH_SPLIT divides the items of a variable over child workflows, each of which runs the sub-graph
-- up to the paired join, and merges the items that they return by ID. A PARALLEL_SPLIT runs every
-- branch on a copy of the variables, and the join reconciles the copies. A SPLIT_TASK runs one child
-- for each item of a variable.
--
-- A task is started by a TASK node of a parent workflow: StartTask makes its record and starts a
-- workflow of its own, each step of which StartTaskStep claims in the record before its plugin runs.
-- CompleteTaskStep hands what is submitted to that workflow, and HandleTaskCompletion wakes the parent.
-- The record is changed by guarded updates alone, so calls that overlap drop each other's late writes.
--
-- A payment is a row that CreateCheckoutSession inserts before it calls the gateway. ProcessWebhook
-- settles it under the lock of the row, and then wakes the step of the task that waits for it.
--
-- Files:
--   Common           names of the libraries, Boolean tests, lists, texts and the order of texts
--   Shared/Value     decoded JSON; deepcopy.Value and deepcopy.Map (shared/deepcopy/deepcopy.go)
--   Shared/MapUtil   GetNestedKey, SetNestedKey, mergeMaps (shared/maputil/maputil.go)
--   Engine/Dsl       the definition (workflow/dsl.go)
--   Engine/Park      error categories and chains (workflow/park_category.go, isTerminalAdminError)
--   Engine/Mapping   parseMappingKey (workflow/utils.go), applyInputMapping, mapTaskInputs and
--                    mapTaskOutputs (workflow/workflow.go)
--   Engine/Items, Engine/Batch, Engine/BatchResults
--                    toItemSlice, getItemID, partitionItems, collectAndMergeBatchResults
--                    (workflow/batch_gateway.go) and EvaluateCondition (workflow/evaluator.go)
--   Engine/ParallelMerge
--                    mergeParallelBranches, mergeItemsByID, mergeVariablesInto
--                    (workflow/parallel_gateway.go)
--   Engine/SubGraph  extractSubGraph and the searches for the paired join
--                    (workflow/batch_gateway.go, workflow/parallel_gateway.go)
--   Engine/Validate  validateGatewayRegion, with validateBatchSplitMappings in Engine/Validate/Mappings
--                    and ValidateBatchGateways in Engine/Validate/Pairs (workflow/batch_validate.go);
--                    an error is the result false
--   Engine/Ids       FormatChildWorkflowID, boundPrefixForChildID (workflow/utils.go)
--   Engine/State     NodeInfo, WorkflowInstance (workflow/manager.go), graphInterpreter
--                    (workflow/workflow.go)
--   Engine/Runtime   what lies outside, as the fields of one record
--   Engine/Exec      the actions that the handlers are made of; Exec/Escapes and Exec/Keeps are
--                    properties of actions with a rule for their sequence
--   Engine/Nodes, Engine/Nodes/Handlers
--                    handleStartNode, handleTimerNode, handleEndNode, handleTaskNode, mintActivation
--                    (workflow/workflow.go), expectCompletion (workflow/completion.go)
--   Engine/Gateways, Engine/ParallelSplit, Engine/BatchSplit
--                    handleGatewayNode (workflow/workflow.go) and the gateway handlers of
--                    workflow/parallel_gateway.go and workflow/batch_gateway.go
--   Engine/Signaling, Engine/SplitTask
--                    workflow/signaling.go and workflow/dynamic_split.go
--   Engine/Admin     parkNodeForAdmin, completeParkedNode, applyVariablesPatch
--                    (workflow/admin_recovery.go)
--   Engine/Interpreter, Engine/Run
--                    executeNode, dispatchNodeHandler, GraphInterpreterWorkflow (workflow/workflow.go)
--   Engine/Completion
--                    the Update handlers of workflow/completion.go
--   Engine/History   the relation between an execution before and after an action, handler by handler
--   Taskflow/Failure chains of errors, with taskflow/plugins/errors.go, artifactError and
--                    surfacePermanent (taskflow/orchestrator/manager.go)
--   Taskflow/Record  TaskRecord, TaskFilter (taskflow/store/db.go)
--   Taskflow/Store   the tables and the statements of taskflow/store/gorm (store.go, model.go): the
--                    updates in Store/Writes, where a statement is a guard and an assignment and Op is
--                    the type of all updates; Store/Holding states the claim of a task as a lock,
--                    Store/Finality the calls on a task in any order, Store/Reads the listing
--   Taskflow/Host    what the TaskManager calls, as the fields of one record, and the actions that its
--                    methods are made of; Host/Adds and Host/Ensures have the rules of actions
--   Taskflow/Manager the TaskManager (taskflow/orchestrator): Manager/Start has StartTask,
--                    StartTaskStep, HandleTaskCompletion, HoldTask; Manager/Complete has
--                    CompleteTaskStep, CompleteTaskStepByToken, CancelTask, SaveDraft; Manager/Claims
--                    ClaimTask, ReleaseTask; Manager/View GetTaskRenderInfo, GetTasks
--   Payment          Payment/Transaction (payment/models.go, payment/payee.go), Payment/Table
--                    (payment/repository.go), Payment/Gateway (payment/gateway.go, and what the service
--                    calls, as the fields of one record), Payment/Service (ProcessWebhook),
--                    Payment/Checkout (CreateCheckoutSession, ValidateReference of payment/service.go;
--                    payment/handler.go)
--   Examples         the theorems at concrete inputs
--
-- State and time: a handler takes the interpreter and a world and gives a result with the state that it
-- leaves, also where it ends with an error. A blocking call (an Activity, a child workflow, a signal, a
-- timer, an admin's resolution) is a field of Runtime that takes the world before it to a result and
-- the world after it, so one run is one order of the events; coroutines that run beside the handler
-- (Update handlers, the resolution dispatcher, a park notification) act inside such a call. Errors are
-- chains of causes in place of texts, and the entries of the audit trail are records.
--
-- A method of the TaskManager takes a world and the calls made so far. The calls that leave a mark
-- outside (a write, a plugin, an extension, an activity, a workflow) are kept in their order, so a
-- theorem can speak of what was done before an error. Another call may change the tables inside any
-- operation of the host. The post-resume extensions, a goroutine in the code, run at the end of the
-- call. The store is an interface of the host; Taskflow/Store is its implementation over two tables, a
-- database failure being an answer of the host. Data that a row holds has gone through JSON, where
-- integers become floats; they are taken to be below 2^53. created_at and updated_at are left out.
--
-- A transaction of the payments is a function on the table that it finds; an error of the function or
-- of the database takes its writes back. The errors of payments are what errors.Is finds in them, an
-- amount is a type with an equality, and the letters of a currency are ASCII.
--
-- Fuel: executeNode may run for ever, since a definition may have loops and an admin may retry for
-- ever. Its fuel bounds the nodes on the path, the rounds of a park and the events of a split; a run
-- that is cut off ends in `out_of_fuel`, which is neither a success nor an error. The walk of
-- extractSubGraph and the searches of validateGatewayRegion have the fuel of two more than the number
-- of edges.
--
-- Numbers are natural; a counter of a TIMER is a 64-bit int that wraps, the step counter (int64) is
-- taken to stay below 2^63. A float is its integer part and a code of its fraction. A Go map is the list
-- of its entries.
--
-- Not modelled: the validation of parallel gateways before a run (workflow/parallel_validate.go), the
-- Temporal client of workflow/manager.go, logging, Activity options, the plugins, the renderer, the
-- callback tokens and the artifact loaders, which the TaskManager calls through the host, the registry
-- and the gateways of payments, and the packages outside workflow/, shared/, taskflow/ and payment/.
mod Common
pub mod Shared
pub mod Engine
pub mod Taskflow
pub mod Payment
mod Examples
