-- ===== src/Grpc/Handlers.antt =====
-- internal/grpc/server.go, lines 252 to 480: the handlers of requests about workloads. A handler
-- runs on the state of the agent: the world of the workload manager, and the queue if there is one.
pub mod Submission
use compute_agent.Base.{
  String, ◌<>◌, Bool, true, false, Option, none, some, List, [], ◌∷◌, map, is_some, trim_space,
  codes, lower_codes, ◌||◌, if◌then◌else◌,
}
use compute_agent.Base.Int.{signed_decimal}
use compute_agent.Base.Dict
use compute_agent.Base.Dict.{Dict}
use compute_agent.Models
use compute_agent.Models.{Time, zero_time, Fields, Workload}
use compute_agent.Errors.{Err, plain, error_text, Result, ok, err}
use compute_agent.TaskQueue.{
  Ref, TaskType, apply_workload, delete_workload, pending, Payload, workload_payload, id_payload,
  Task, Queue, set_object, submit,
}
use compute_agent.Workload.World.{Env, now}
use compute_agent.Workload.Apply.{Outcome, applied, rejected, unsaved}
use compute_agent.Workload.Apply as Manager
use compute_agent.Workload.Lifecycle.{remove_workload, current_status, list_current}
use compute_agent.Workload.Status.{same_codes, or_empty}
use compute_agent.Grpc.Messages.{
  WorkloadType, type_unspecified, type_container, type_compose, type_vm, type_number,
  ApplyWorkloadRequest, ApplyWorkloadResponse, DeleteWorkloadResponse, WorkloadStatus,
  actual_pending,
}
use compute_agent.Grpc.Convert.{
  Codec, unix, unix_nano, spec_map, request_workload, proto_to_workload_type, status_to_proto,
}
use compute_agent.Grpc.Agent.{S, pure, ◌>>=◌, on_world, with_queue}
use compute_agent.Grpc.Tasks.{task_status, pending_status}

abbrev set_queue : Queue → S (Unit {0})
set_queue q a = (tt, record a { queue = some q })

abbrev refused : String → ApplyWorkloadResponse
refused message = record { applied = false; skipped = false; message = message; status = none }

abbrev pub new_task : String → String → TaskType → Payload → Task
new_task id workload_id kind payload = record {
  id = id;
  workload_id = workload_id;
  kind = kind;
  status = pending;
  error = "";
  result = payload;
  created_at = zero_time;
  started_at = zero_time;
  ended_at = zero_time;
}

abbrev pub task_id : String → String → Time → String
task_id prefix id t = prefix <> id <> "-" <> signed_decimal (unix_nano t)

abbrev pub wanted_type : WorkloadType → Option Models.WorkloadType
wanted_type type_unspecified = none
wanted_type type_container = some (proto_to_workload_type type_container)
wanted_type type_compose = some (proto_to_workload_type type_compose)
wanted_type type_vm = some (proto_to_workload_type type_vm)
wanted_type (type_number n) = some (proto_to_workload_type (type_number n))

-- The state of a task that still is to run or runs.
unfoldable pub is_in_flight : String → Bool
is_in_flight state =
    let s = lower_codes (trim_space state) in
    same_codes s (codes "pending") || same_codes s (codes "running")

-- `for k, v := range pending.GetMetadata() { respStatus.Metadata[k] = v }`
unfoldable pub merge_metadata : Dict String → Dict String → Dict String
merge_metadata [] m = m
merge_metadata ((k, v) ∷ more) m = merge_metadata more (Dict.put k v m)

-- The answer to what the manager's `ApplyWorkload` returned.
unfoldable pub apply_answer : Outcome → ApplyWorkloadResponse
apply_answer (applied s skipped) = record {
  applied = true;
  skipped = skipped;
  message = "workload applied successfully";
  status = some (status_to_proto s);
}
apply_answer (rejected e) = refused ("failed to apply workload: " <> error_text e)
apply_answer (unsaved s e) = refused ("failed to apply workload: " <> error_text e)

abbrev pub submitted : WorkloadStatus → ApplyWorkloadResponse
submitted s = record {
  applied = true;
  skipped = false;
  message = "workload apply submitted for processing";
  status = some s;
}

abbrev removal_answer : Option Err → DeleteWorkloadResponse
removal_answer none = record { success = true; message = "workload deleted successfully" }
removal_answer (some e) = record { success = false; message = error_text e }

abbrev removal_submitted : DeleteWorkloadResponse
removal_submitted = record {
  success = true;
  message = "workload deletion submitted for processing";
}

module _ (env : Env) where
  -- A new task, which has the reference `r`, goes to the queue. `picks_stop` is the choice of a
  -- `select` (`submit`).
  unfoldable pub submit_new : Bool → Ref → Task → Queue → S (Option String)
  submit_new picks_stop r t q = do
    time ← on_world (now env)
    let result = submit picks_stop time r (set_object r t q)
    done ← set_queue result.1
    pure result.0

  apply_now : Workload → S ApplyWorkloadResponse
  apply_now w = do o ← on_world (Manager.apply_workload env w); pure (apply_answer o)

  apply_submitted : String → String → S ApplyWorkloadResponse
  unfolding task_status
  apply_submitted id job = do
    t ← on_world (now env)
    pure (submitted (task_status id actual_pending "task pending execution" job "pending" (unix t)))

  -- `ApplyWorkload`, once the request is converted.
  apply_converted : Bool → Ref → Workload → Option Queue → S ApplyWorkloadResponse
  unfolding submit_new apply_now apply_submitted
  apply_converted picks_stop r w none = apply_now w
  apply_converted picks_stop r w (some q) = do
    t ← on_world (now env)
    let job = task_id "apply-" w.id t
    e ← submit_new picks_stop r (new_task job w.id apply_workload (workload_payload w)) q
    if is_some e then apply_now w else apply_submitted w.id job

  -- `ApplyWorkload`, once the specification is a map or is refused.
  apply_decoded : Bool → Ref → ApplyWorkloadRequest → Result Fields → S ApplyWorkloadResponse
  unfolding apply_converted apply_submitted
  apply_decoded picks_stop r req (err e) = pure (refused ("invalid request: " <> error_text e))
  apply_decoded picks_stop r req (ok spec) = do
    t ← on_world (now env)
    u ← on_world (now env)
    with_queue (apply_converted picks_stop r (request_workload req spec t u))

  -- `ApplyWorkload`; it never answers with an error of its own.
  unfoldable pub apply_request : Codec → Bool → Ref → ApplyWorkloadRequest → S ApplyWorkloadResponse
  unfolding apply_decoded
  apply_request codec picks_stop r req = apply_decoded picks_stop r req (spec_map codec req.spec)

  remove_now : String → S DeleteWorkloadResponse
  remove_now id = do e ← on_world (remove_workload env id); pure (removal_answer e)

  remove_queued : Bool → Ref → String → Option Queue → S DeleteWorkloadResponse
  unfolding submit_new remove_now
  remove_queued picks_stop r id none = remove_now id
  remove_queued picks_stop r id (some q) = do
    t ← on_world (now env)
    let job = new_task (task_id "delete-" id t) id delete_workload (id_payload id)
    e ← submit_new picks_stop r job q
    if is_some e then remove_now id else pure removal_submitted

  -- `DeleteWorkload`
  unfoldable pub delete_request : Bool → Ref → String → S DeleteWorkloadResponse
  unfolding remove_queued
  delete_request picks_stop r id = with_queue (remove_queued picks_stop r id)

  -- What a task in flight makes of a stored status.
  overlay : WorkloadStatus → WorkloadStatus → S WorkloadStatus
  unfolding is_in_flight merge_metadata
  overlay s p =
      if is_in_flight (or_empty (Dict.get "task_status" p.metadata))
      then (do
        t ← on_world (now env)
        pure (record s {
          metadata = merge_metadata p.metadata s.metadata;
          actual_state = actual_pending;
          message = p.message;
          updated_at = unix t;
        }))
      else pure s

  unfoldable pub status_answer :
      Result Models.WorkloadStatus → Option WorkloadStatus → S (Result WorkloadStatus)
  unfolding overlay
  status_answer (err e) none = pure (err e)
  status_answer (err e) (some p) = pure (ok p)
  status_answer (ok s) none = pure (ok (status_to_proto s))
  status_answer (ok s) (some p) = do s' ← overlay (status_to_proto s) p; pure (ok s')

  -- `GetWorkloadStatus`
  unfoldable pub status_request : String → S (Result WorkloadStatus)
  unfolding status_answer
  status_request id = do
    r ← on_world (current_status env id)
    p ← with_queue (λ q. on_world (pending_status env id q))
    status_answer r p

  -- `ListWorkloads`
  unfoldable pub list_request : WorkloadType → S (Result (List WorkloadStatus))
  list_request kind = do
    r ← on_world (list_current env (wanted_type kind))
    pure (elim r [ ok ss ↦ ok (map status_to_proto ss) | err e ↦ err e ])
