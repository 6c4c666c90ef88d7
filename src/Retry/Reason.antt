-- ===== src/Retry/Reason.antt =====
-- internal/retry/policy.go: `FailureReason`.
use compute_agent.Base.{String, Bool, true, false}

pub data FailureReason : Type 0 where
  image_pull_timeout image_pull_auth invalid_image : FailureReason
  network_timeout network_unreachable dns_resolution : FailureReason
  insufficient_resources storage_full resource_quota_exceeded : FailureReason
  invalid_spec invalid_config port_conflict : FailureReason
  runtime_error runtime_unhealthy unknown_reason : FailureReason

-- The text of the constant.
unfoldable pub reason_text : FailureReason → String
reason_text image_pull_timeout = "IMAGE_PULL_TIMEOUT"
reason_text image_pull_auth = "IMAGE_PULL_AUTH_FAILED"
reason_text invalid_image = "INVALID_IMAGE"
reason_text network_timeout = "NETWORK_TIMEOUT"
reason_text network_unreachable = "NETWORK_UNREACHABLE"
reason_text dns_resolution = "DNS_RESOLUTION_FAILED"
reason_text insufficient_resources = "INSUFFICIENT_RESOURCES"
reason_text storage_full = "STORAGE_FULL"
reason_text resource_quota_exceeded = "RESOURCE_QUOTA_EXCEEDED"
reason_text invalid_spec = "INVALID_SPECIFICATION"
reason_text invalid_config = "INVALID_CONFIGURATION"
reason_text port_conflict = "PORT_BIND_CONFLICT"
reason_text runtime_error = "RUNTIME_ERROR"
reason_text runtime_unhealthy = "RUNTIME_UNHEALTHY"
reason_text unknown_reason = "UNKNOWN_ERROR"

unfoldable pub is_transient : FailureReason → Bool
is_transient image_pull_timeout = true
is_transient network_timeout = true
is_transient network_unreachable = true
is_transient dns_resolution = true
is_transient runtime_unhealthy = true
is_transient runtime_error = true
is_transient unknown_reason = true
is_transient _ = false

unfoldable pub is_permanent : FailureReason → Bool
is_permanent invalid_image = true
is_permanent invalid_spec = true
is_permanent invalid_config = true
is_permanent port_conflict = true
is_permanent _ = false
