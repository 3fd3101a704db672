-- ===== src/Store/Rows.antt =====
-- The rows of the tables that internal/store/migrations.go creates, the whole database, and the
-- errors that an operation returns. A timestamp is a `Stamp`, a digest or a ciphertext an opaque
-- text.
use wpx.Prelude.{ℕ, String, Bool, Option, List}
use wpx.Text.{Text}
use wpx.Stamp.{Stamp}
use wpx.Rbac.{Role, Capability}
use wpx.Model.Site.{Site, DomainChange, PhpVersionChange}

-- users; `totp_last_counter` is stored plus one, so that its default -1 is 0.
pub record UserRow : Type 0 where
  pub id : String
  pub username : Text
  pub password_hash : String
  pub role : Role
  pub disabled : Bool
  pub totp_secret : Option String
  pub totp_pending : Option String
  pub totp_last_counter_plus_one : ℕ
  pub created_at : Stamp
  pub updated_at : Stamp

-- sessions and login_challenges
pub record TokenRow : Type 0 where
  pub token_hash : String
  pub user_id : String
  pub created_at : Stamp
  pub expires_at : Stamp

-- totp_recovery_codes
pub record RecoveryCode : Type 0 where
  pub user_id : String
  pub code_hash : String
  pub created_at : Stamp
  pub used_at : Option Stamp

-- site_grants
pub record Grant : Type 0 where
  pub user_id : String
  pub site_id : String
  pub capability : Capability

-- audit_events; the detail is left out, since nothing reads it back.
pub record AuditEvent : Type 0 where
  pub id : String
  pub actor_id : Option String
  pub action : String
  pub target_type : String
  pub target_id : String
  pub success : Bool
  pub created_at : Stamp

-- The kinds of job that act on sites, and any other.
pub data JobKind : Type 0 where
  site_provision site_disable site_enable : JobKind
  site_domain_change site_delete site_php_version : JobKind
  site_certificate site_certificate_dns : JobKind
  staging_create restore_clone : JobKind
  other_job : String → JobKind

-- The text in the `kind` column.
abbrev pub kind_name : JobKind → String
kind_name site_provision = "site.provision"
kind_name site_disable = "site.disable"
kind_name site_enable = "site.enable"
kind_name site_domain_change = "site.domain_change"
kind_name site_delete = "site.delete"
kind_name site_php_version = "site.php_version"
kind_name site_certificate = "site.certificate"
kind_name site_certificate_dns = "site.certificate_dns"
kind_name staging_create = "wordpress.staging_create"
kind_name restore_clone = "site.restore_clone"
kind_name (other_job name) = name

pub data TargetType : Type 0 where
  site_target dns_record_target ftp_user_target : TargetType
  other_target : String → TargetType

-- `idempotency_key`: the parts of the text, which `:` separates. The last part is empty for the
-- first provisioning of a site.
pub record Key : Type 0 where
  pub kind : JobKind
  pub target_id : String
  pub job_id : String

pub data JobStatus : Type 0 where
  queued running succeeded failed : JobStatus

pub record SiteDeletion : Type 0 where
  pub site : Site
  pub stop_php : Bool

-- `payload_json`, by the object that was marshalled into it. A payload of another shape keeps the
-- two members that the lifecycle lock reads, `source_id` and `staging_id`.
pub data Payload : Type 0 where
  empty_object : Payload
  domain_change : DomainChange → Payload
  site_deletion : SiteDeletion → Payload
  php_version_change : PhpVersionChange → Payload
  certificate : String → Bool → Payload
  object : Option String → Option String → String → Payload
  malformed : String → Payload

-- jobs
pub record Job : Type 0 where
  pub id : String
  pub kind : JobKind
  pub target_type : TargetType
  pub target_id : String
  pub status : JobStatus
  pub phase : String
  pub progress : ℕ
  pub error : String
  pub initiator_id : Option String
  pub idempotency_key : Key
  pub payload : Payload
  pub result : String
  pub created_at : Stamp
  pub updated_at : Stamp
  pub started_at : Option Stamp
  pub finished_at : Option Stamp

-- site_domain_reservations
pub record Reservation : Type 0 where
  pub domain : Text
  pub site_id : String
  pub job_id : String

-- deleted_sites
pub record DeletedSite : Type 0 where
  pub id : String
  pub domain : Text
  pub site : Site
  pub deleted_at : Stamp

-- dns_records: the members that the site operations read.
pub record DnsRecord : Type 0 where
  pub id : String
  pub site_id : String
  pub provider_id : String
  pub name : String
  pub is_address : Bool  -- the type is A, AAAA or CNAME

-- dns_providers
pub record DnsProvider : Type 0 where
  pub id : String
  pub active : Bool

-- ftp_users
pub record FtpUser : Type 0 where
  pub id : String
  pub site_id : String

-- backup_schedules: the members that the site operations read.
pub record Schedule : Type 0 where
  pub id : String
  pub site_id : String
  pub enabled : Bool
  pub updated_at : Stamp

pub record Db : Type 0 where
  pub users : List UserRow
  pub sessions : List TokenRow
  pub login_challenges : List TokenRow
  pub recovery_codes : List RecoveryCode
  pub grants : List Grant
  pub sites : List Site
  pub jobs : List Job
  pub audit_events : List AuditEvent
  pub reservations : List Reservation
  pub deleted_sites : List DeletedSite
  pub dns_records : List DnsRecord
  pub dns_providers : List DnsProvider
  pub ftp_users : List FtpUser
  pub schedules : List Schedule

-- The errors of the operations, by their message.
pub data Error : Type 0 where
  -- a constraint, a foreign key or a trigger of the schema refused the statement
  constraint : Error
  permission_denied : Error
  invalid_username invalid_password hashing_failed : Error
  owner_exists username_taken : Error
  invalid_role second_administrator : Error
  site_missing invalid_site_id : Error
  user_missing own_account owner_protected administrator_protected : Error
  invalid_credentials : Error
  invalid_lifetime invalid_session : Error
  invalid_challenge : Error
  no_pending_enrollment totp_enabled totp_not_enabled : Error
  no_secret_key bad_ciphertext : Error
  invalid_code factor_unavailable invalid_second_factor : Error
  invalid_site site_not_active site_busy : Error
  invalid_change domain_taken : Error
  nothing_to_retry failed_job_missing : Error
  unconfirmed has_staging_copies not_deletable : Error
  transition_not_permitted : Error
  bad_payload stale_job reservation_lost : Error
