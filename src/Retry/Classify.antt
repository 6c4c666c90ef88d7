-- ===== src/Retry/Classify.antt =====
-- internal/retry/policy.go: `ClassifyError` and its keyword tests.
pub mod Keywords
use compute_agent.Base.{
  ℕ, String, Bool, true, false, ◌||◌, Option, none, some, List, [], ◌∷◌, ◌++◌, codes, lower_codes,
  to_lower, has_infix, map, if◌then◌else◌,
}
use compute_agent.Retry.Reason.{
  FailureReason, image_pull_timeout, image_pull_auth, invalid_image, network_timeout,
  network_unreachable, dns_resolution, insufficient_resources, invalid_spec, port_conflict,
  unknown_reason,
}

-- `containsHelper`
abbrev contains_helper : List ℕ → List ℕ → Bool
contains_helper haystack needle = has_infix haystack needle

-- The inner loop of `contains`.
some_keyword : List ℕ → List String → Bool
some_keyword str [] = false
some_keyword str (k ∷ ks) =
    let rest = some_keyword str ks in if contains_helper str (lower_codes k) then true else rest

-- `strings.ToLower(fmt.Sprintf(" %s ", str))`
pad : List ℕ → List ℕ
pad str = map to_lower (b' ' ∷ (str ++ b' ' ∷ []))

-- The outer loop of `contains`: `all_keywords` is what the inner loop goes through, and `ks` what
-- is left of it. A hit replaces `str` by its padded copy for the rounds that follow.
contains_from : List String → List ℕ → List String → Bool
unfolding some_keyword pad
contains_from all_keywords str [] = false
contains_from all_keywords str (k ∷ ks) =
    let hit = contains_from all_keywords (pad str) ks in
    let miss = contains_from all_keywords str ks in
    if has_infix str (lower_codes k)
    then (if some_keyword (pad str) all_keywords then true else hit)
    else miss

unfoldable pub contains : String → List String → Bool
unfolding contains_from
contains str keywords = contains_from keywords (lower_codes str) keywords

unfoldable pub is_image_pull_error : String → Bool
is_image_pull_error msg =
    contains msg ("image" ∷ "pull" ∷ "repository" ∷ "manifest" ∷ "not found" ∷ [])

unfoldable pub is_timeout_error : String → Bool
is_timeout_error msg = contains msg ("timeout" ∷ "timed out" ∷ "deadline exceeded" ∷ [])

unfoldable pub is_auth_error : String → Bool
is_auth_error msg =
    contains msg ("unauthorized" ∷ "forbidden" ∷ "authentication" ∷ "credentials" ∷ [])

unfoldable pub is_network_error : String → Bool
is_network_error msg =
    contains msg ("connection refused" ∷ "connection reset" ∷ "network" ∷ "host" ∷ [])

unfoldable pub is_dns_error : String → Bool
is_dns_error msg = contains msg ("dns" ∷ "name resolution" ∷ "no such host" ∷ [])

unfoldable pub is_resource_error : String → Bool
is_resource_error msg = contains msg ("memory" ∷ "disk" ∷ "cpu" ∷ "quota" ∷ "limit" ∷ [])

unfoldable pub is_spec_error : String → Bool
is_spec_error msg = contains msg ("invalid" ∷ "malformed" ∷ "schema" ∷ "validation" ∷ [])

unfoldable pub is_port_bind_conflict : String → Bool
is_port_bind_conflict msg =
    contains msg ("bind" ∷ "address already in use" ∷ [])
    || contains msg ("port" ∷ "already allocated" ∷ [])
    || contains msg ("error starting userland proxy" ∷ [])

-- `none` is the nil error.
unfoldable pub classify_error : Option String → FailureReason
classify_error none = unknown_reason
classify_error (some msg) =
    if is_image_pull_error msg
    then (if is_timeout_error msg
        then image_pull_timeout
        else if is_auth_error msg
        then image_pull_auth
        else invalid_image)
    else if is_port_bind_conflict msg
    then port_conflict
    else if is_network_error msg
    then (if is_timeout_error msg then network_timeout else network_unreachable)
    else if is_dns_error msg
    then dns_resolution
    else if is_resource_error msg
    then insufficient_resources
    else if is_spec_error msg
    then invalid_spec
    else unknown_reason
