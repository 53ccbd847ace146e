-- ===== src/Config.antt =====
-- internal/config/config.go: the settings of the process and their validation.
use ms_go_comment.Base.{
  Bool, Result, Text, codes, fail_if, ltb_ℤ, not, ok, pos, text_eq, unavailable, ℤ, ◌>>=◌, ◌>>◌,
  ◌||◌,
}
use ms_go_comment.Domain.Space.{outside}
use ms_go_comment.Transport.Http.Statuses.{normalized}

pub record Config : Type 0 where
  pub http_host : Text
  pub http_port : Text
  pub http_read_header_timeout_seconds : ℤ
  pub http_read_timeout_seconds : ℤ
  pub http_write_timeout_seconds : ℤ
  pub http_idle_timeout_seconds : ℤ
  pub http_max_header_bytes : ℤ
  pub http_user_rate_limit_rps : ℤ
  pub http_user_rate_limit_burst : ℤ
  pub http_user_rate_limit_max_actors : ℤ
  pub http_user_rate_limit_idle_seconds : ℤ
  pub database_url : Text
  pub nats_url : Text
  pub internal_api_token : Text
  pub filestorage_service_base_url : Text
  pub filestorage_internal_token : Text
  pub shutdown_timeout : ℤ
  pub service_mode : Text
  pub attachment_ttl_minutes : ℤ
  pub attachment_signed_url_minutes : ℤ
  pub attachment_worker_interval_seconds : ℤ
  pub attachment_worker_batch : ℤ
  pub attachment_activation_max_attempts : ℤ
  pub outbox_worker_interval_ms : ℤ
  pub outbox_worker_batch : ℤ
  pub outbox_lease_seconds : ℤ
  pub realtime_ticket_ttl_seconds : ℤ
  pub realtime_ticket_cleanup_seconds : ℤ
  pub access_grant_max_ttl_seconds : ℤ
  pub access_grant_cleanup_seconds : ℤ
  pub ws_max_connections_per_user : ℤ
  pub ws_queue_size : ℤ
  pub ws_max_frame_bytes : ℤ

abbrev pub mode_known : Text → Bool
mode_known mode =
    text_eq mode (codes "all")
    || text_eq mode (codes "api")
    || text_eq mode (codes "realtime")
    || text_eq mode (codes "worker")

abbrev pub below_one : ℤ → Bool
below_one n = ltb_ℤ n (pos 1)

-- `Config.Validate`; its errors are of no sentinel.
unfoldable pub validate_config : Config → Result (Unit {0})
validate_config c = do
  fail_if (not (mode_known c.service_mode)) unavailable
  fail_if (outside c.realtime_ticket_ttl_seconds (pos 1) (pos 30)) unavailable
  fail_if
      (below_one c.outbox_worker_interval_ms
        || below_one c.outbox_worker_batch
        || below_one c.outbox_lease_seconds
        || below_one c.realtime_ticket_cleanup_seconds
        || below_one c.access_grant_cleanup_seconds
        || below_one c.ws_max_connections_per_user
        || below_one c.ws_queue_size
        || ltb_ℤ c.ws_max_frame_bytes (pos 1024))
      unavailable
  fail_if (outside c.access_grant_max_ttl_seconds (pos 1) (pos 900)) unavailable
  fail_if
      (below_one c.http_read_header_timeout_seconds
        || below_one c.http_read_timeout_seconds
        || below_one c.http_write_timeout_seconds
        || below_one c.http_idle_timeout_seconds
        || outside c.http_max_header_bytes (pos 4096) (pos 1_048_576))
      unavailable
  fail_if
      (below_one c.http_user_rate_limit_rps
        || below_one c.http_user_rate_limit_burst
        || below_one c.http_user_rate_limit_max_actors
        || below_one c.http_user_rate_limit_idle_seconds)
      unavailable

-- `Load`: what the environment gives, with the mode in lower case and without blanks around it.
unfoldable pub load_config : Result Config → Result Config
load_config environment = do
  c ← environment
  let d = record c { service_mode = normalized c.service_mode }
  validate_config d
  ok d

-- The parts of the process that each mode of cmd/ms-comment-service/main.go starts.
unfoldable pub mode_has_api : Text → Bool
mode_has_api mode = text_eq mode (codes "all") || text_eq mode (codes "api")

unfoldable pub mode_has_realtime : Text → Bool
mode_has_realtime mode = text_eq mode (codes "all") || text_eq mode (codes "realtime")

unfoldable pub mode_has_workers : Text → Bool
mode_has_workers mode = text_eq mode (codes "all") || text_eq mode (codes "worker")
