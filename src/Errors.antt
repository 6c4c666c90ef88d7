-- ===== src/Errors.antt =====
-- internal/errors/errors.go: error codes and the errors of workload operations. An `error` of the
-- program is an `Err`; a wrapped cause is kept as its text.
use compute_agent.Base.{String, ◌<>◌, Option, none, some, List, [], ◌∷◌}
use compute_agent.Base.Dict
use compute_agent.Base.Dict.{Dict}

pub data ErrorCode : Type 0 where
  image_pull create_failed start_failed delete_failed status_failed : ErrorCode
  insufficient_memory insufficient_cpu insufficient_disk resource_quota_exceeded : ErrorCode
  network_timeout network_failed dns_failed : ErrorCode
  volume_not_found volume_mount_failed storage_quota_full : ErrorCode
  runtime_not_available runtime_unhealthy container_not_found domain_not_found : ErrorCode
  invalid_spec invalid_image invalid_config : ErrorCode
  system_error unknown_code : ErrorCode

-- The text of the constant.
unfoldable pub code_text : ErrorCode → String
code_text image_pull = "IMAGE_PULL_FAILED"
code_text create_failed = "CREATE_FAILED"
code_text start_failed = "START_FAILED"
code_text delete_failed = "DELETE_FAILED"
code_text status_failed = "STATUS_CHECK_FAILED"
code_text insufficient_memory = "INSUFFICIENT_MEMORY"
code_text insufficient_cpu = "INSUFFICIENT_CPU"
code_text insufficient_disk = "INSUFFICIENT_DISK"
code_text resource_quota_exceeded = "RESOURCE_QUOTA_EXCEEDED"
code_text network_timeout = "NETWORK_TIMEOUT"
code_text network_failed = "NETWORK_FAILED"
code_text dns_failed = "DNS_RESOLUTION_FAILED"
code_text volume_not_found = "VOLUME_NOT_FOUND"
code_text volume_mount_failed = "VOLUME_MOUNT_FAILED"
code_text storage_quota_full = "STORAGE_QUOTA_FULL"
code_text runtime_not_available = "RUNTIME_NOT_AVAILABLE"
code_text runtime_unhealthy = "RUNTIME_UNHEALTHY"
code_text container_not_found = "CONTAINER_NOT_FOUND"
code_text domain_not_found = "VM_DOMAIN_NOT_FOUND"
code_text invalid_spec = "INVALID_SPEC"
code_text invalid_image = "INVALID_IMAGE"
code_text invalid_config = "INVALID_CONFIGURATION"
code_text system_error = "SYSTEM_ERROR"
code_text unknown_code = "UNKNOWN_ERROR"

-- A value of the details, an `interface{}` in the source: a text, or a list of texts.
pub data Detail : Type 0 where
  text : String → Detail
  texts : List String → Detail

pub record WorkloadError : Type 0 where
  pub code : ErrorCode
  pub message : String
  pub cause : Option String
  pub workload_id : String
  pub workload_type : String
  pub details : Dict Detail

pub data Err : Type 0 where
  plain : String → Err
  workload_error : WorkloadError → Err

unfoldable pub new_workload_error :
    ErrorCode → String → String → String → Option String → WorkloadError
new_workload_error code message workload_id workload_type cause = record {
  code = code;
  message = message;
  cause = cause;
  workload_id = workload_id;
  workload_type = workload_type;
  details = [];
}

unfoldable pub with_detail : WorkloadError → String → Detail → WorkloadError
with_detail e key value = record e { details = Dict.put key value e.details }

-- `(*WorkloadError).Error`
workload_error_text : WorkloadError → Option String → String
unfolding code_text
workload_error_text e none =
    "[" <> code_text e.code <> "] " <> e.message <> " (workload: " <> e.workload_id <> ")"
workload_error_text e (some cause) =
    "["
    <> code_text e.code
    <> "] "
    <> e.message
    <> " (workload: "
    <> e.workload_id
    <> "): "
    <> cause

-- `Error()`
unfoldable pub error_text : Err → String
unfolding workload_error_text
error_text (plain s) = s
error_text (workload_error e) = workload_error_text e e.cause

-- `getActionFromCode`
action_from_code : ErrorCode → String
action_from_code image_pull = "pull image for"
action_from_code create_failed = "create"
action_from_code start_failed = "start"
action_from_code delete_failed = "delete"
action_from_code status_failed = "check status of"
action_from_code _ = "process"

-- `%s` of a detail; a list prints in brackets, its texts apart by a space.
spaced : List String → String
spaced [] = ""
spaced (s ∷ []) = s
spaced (s ∷ t ∷ rest) = s <> " " <> spaced (t ∷ rest)

unfoldable pub list_text : List String → String
unfolding spaced
list_text ss = "[" <> spaced ss <> "]"

detail_text : Detail → String
unfolding list_text
detail_text (text s) = s
detail_text (texts ss) = list_text ss

with_reason : String → Option Detail → String
unfolding detail_text
with_reason msg none = msg
with_reason msg (some reason) = msg <> ": " <> detail_text reason

with_cause : String → Option String → String
with_cause msg none = msg
with_cause msg (some cause) = msg <> " (" <> cause <> ")"

-- `UserFriendlyMessage`
unfoldable pub user_friendly_message : WorkloadError → String
unfolding action_from_code with_reason with_cause
user_friendly_message e =
    with_cause
      (with_reason
        ("Failed to " <> action_from_code e.code <> " workload '" <> e.workload_id <> "'")
        (Dict.get "reason" e.details))
      e.cause

-- What a call with a result and an `error` returns.
pub data Result {ℓ} (A : Type ℓ) : Type ℓ where
  ok : A → Result A
  err : Err → Result A
