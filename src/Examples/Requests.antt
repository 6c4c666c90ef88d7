-- ===== src/Examples/Requests.antt =====
-- Examples of requests (internal/grpc/server.go).
use compute_agent.Base.{
  ◌≡◌, inr, refl, true, false, none, some, [], All, count, length, arith, trim_space,
}
use compute_agent.Base.Int.{pos}
use compute_agent.Models.{no_fields, desired_running, running}
use compute_agent.Errors.{ok}
use compute_agent.TaskQueue.{list_task_snapshots}
use compute_agent.Grpc.Messages.{
  type_container, desired_running as wants_running, compose_spec, ApplyWorkloadRequest,
  ListActionsRequest,
}
use compute_agent.Grpc.Convert.{Codec, spec_map}
use compute_agent.Grpc.Handlers.{apply_request, status_request}
use compute_agent.Grpc.Handlers.Submission.{IsWaiting, job_name, apply_request-IsWaiting}
use compute_agent.Grpc.Actions.{list_actions, is_wanted}
use compute_agent.Grpc.Actions.Order.{bounded}
use compute_agent.Grpc.Actions.History.{IsHistory, IsAskedFor, list_actions-IsHistory}
use compute_agent.Examples.Data.{node, world_of}
use compute_agent.Examples.Tasks.{ended}

abbrev codec : Codec
codec = record {
  marshal_container = λ s. ok "{}";
  marshal_compose = λ s. ok "{}";
  marshal_vm = λ s. ok "{}";
  unmarshal = λ s. ok no_fields;
}

abbrev request : ApplyWorkloadRequest
request = record {
  id = "web";
  kind = type_container;
  revision_id = "r2";
  desired_state = wants_running;
  spec = compose_spec (record { project_name = "web"; compose_yaml = ""; env = [] });
}

apply_request-IsWaiting_example :
    let w = world_of desired_running running in
    let done =
      apply_request
        (node running)
        codec
        false
        1
        request
        (record { world = w; queue = some ended }) in
    (done.0.applied ≡ true)
    × (done.1.world ≡ record w { reads = 5 })
    × IsWaiting
        (job_name (node running) codec false 1 request w ended no_fields)
        (status_request (node running) "web" done.1).0
unfolding spec_map trim_space
apply_request-IsWaiting_example =
    apply_request-IsWaiting (node running) codec false 1 request (world_of desired_running running)
      ended no_fields refl refl (omega arith) refl ((refl, inr (omega arith)), tt)

abbrev all_actions : ListActionsRequest
all_actions = record {
  workload_id = " web ";
  action_type = "";
  status = "";
  limit = pos 0;
  newest_first = true;
}

list_actions-IsHistory_example :
    IsHistory true (list_actions all_actions (some ended))
    × All (IsAskedFor all_actions) (list_actions all_actions (some ended))
    × (length (list_actions all_actions (some ended))
        ≡ bounded (pos 0) (count (is_wanted all_actions) (list_task_snapshots none ended)))
list_actions-IsHistory_example = list_actions-IsHistory all_actions ended
