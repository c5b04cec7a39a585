-- ===== src/Taskflow/Manager/View.antt =====
-- taskflow/orchestrator: GetTaskRenderInfo, GetTasks (manager.go), TaskView (view.go), and the load of
-- the render config (taskflow/renderconfig/renderconfig.go).
use nsw_core.Common.{ℕ, String, not, Option, none, some, List, [], ◌∷◌, str_eq}
use nsw_core.Taskflow.Failure.{Sentinel, plain, wrap}
use nsw_core.Taskflow.Record.{TaskRecord, TaskFilter}
use nsw_core.Taskflow.Host.{Host, M, ◌>>=◌, ◌>>◌, pure, lift, checked, require, ask}
use nsw_core.Taskflow.Manager.{known_task}

pub record TaskView : Type 0 where
  pub task_id : String
  pub task_type : String
  pub state : String
  pub step_id : String
  pub version : ℕ
  pub claimed_by : String
  pub claimed_at : Option ℕ
  pub view : Option String

unfoldable pub summary : TaskRecord → TaskView
summary r = record {
  task_id = r.task_id;
  task_type = r.task_type;
  state = r.state;
  step_id = r.active_step_id;
  version = r.seq;
  claimed_by = r.claimed_by;
  claimed_at = r.claimed_at;
  view = none;
}

unfoldable pub summaries : List TaskRecord → List TaskView
unfolding summary
summaries [] = []
summaries (r ∷ rs) = summary r ∷ summaries rs

module _ (h : Host) where
  -- renderconfig.Load; the version is not checked here, artifact.Set refuses an unknown one.
  unfoldable pub load_config : TaskRecord → M h String
  load_config r = do
    require (not (str_eq r.task_template_id "")) (wrap (plain Sentinel.outside))
    version ← ask (h.registry r.manifest_version)
    checked wrap version
    template ← ask (h.load_task_template r.manifest_version r.task_template_id)
    t ← lift wrap template
    config ← ask (h.load_render_config r.manifest_version t.render_config_id)
    lift wrap config

  unfoldable pub get_task_render_info : String → M h TaskView
  get_task_render_info id = do
    r ← known_task h id
    config ← load_config r
    answer ← ask (h.render config r.state r.payload)
    view ← lift wrap answer
    pure (record (summary r) { view = some view })

  unfoldable pub list_tasks : TaskFilter → M h (List TaskView)
  list_tasks f = do records ← ask (h.get_tasks f); pure (summaries records)
