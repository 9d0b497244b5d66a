-- ===== src/Api.antt =====
-- The messages of the gRPC service (api/gen/go/envorca/v1/envorca.pb.go): the status enumeration
-- and the structs that the daemon fills and the command line reads. The enumeration is open on the
-- wire; the daemon sends only the five named values.
use envorca.Prelude.{ℕ, Bool, false, List, []}
use envorca.Text.{Text, bytes}

pub data Status : Type 0 where
  status_unspecified healthy warning critical unknown : Status

pub Status-discrete : Discrete Status
Status-discrete = hlevel

-- Status_name
unfoldable pub status_name : Status → Text
status_name Status.status_unspecified = bytes "STATUS_UNSPECIFIED"
status_name Status.healthy = bytes "HEALTHY"
status_name Status.warning = bytes "WARNING"
status_name Status.critical = bytes "CRITICAL"
status_name Status.unknown = bytes "UNKNOWN"

pub record ComponentStatus : Type 0 where
  pub id : Text
  pub status : Status
  pub summary : Text
  pub reason : Text
  pub recommendation : Text
  pub safe_to_fix : Bool
  pub requires_confirmation : Bool

-- A component status of which only the status and the summary are given.
abbrev pub brief : Status → Text → ComponentStatus
brief st s = record {
  id = [];
  status = st;
  summary = s;
  reason = [];
  recommendation = [];
  safe_to_fix = false;
  requires_confirmation = false;
}

-- One with its reason, its recommendation and whether Envorca can fix it.
abbrev pub explained : Status → Text → Text → Text → Bool → ComponentStatus
explained st s why rec fix = record {
  id = [];
  status = st;
  summary = s;
  reason = why;
  recommendation = rec;
  safe_to_fix = fix;
  requires_confirmation = false;
}

pub record PingResponse : Type 0 where
  pub version : Text
  pub daemon_state : Text
  pub uptime_seconds : ℕ
  pub socket : Text

pub record EnvironmentStatus : Type 0 where
  pub version : Text
  pub daemon_state : Text
  pub uptime_seconds : ℕ
  pub socket : Text
  pub overall_status : Status
  pub components : List ComponentStatus

pub record RepairAction : Type 0 where
  pub component_id : Text
  pub action_id : Text
  pub summary : Text
  pub description : Text
  pub safe : Bool
  pub requires_confirmation : Bool

pub record RepairPlan : Type 0 where
  pub actions : List RepairAction
  pub evaluated_at : Text

pub record ExecuteRepairRequest : Type 0 where
  pub action_id : Text
  pub confirmed : Bool

pub record RepairOutcome : Type 0 where
  pub action_id : Text
  pub component_id : Text
  pub success : Bool
  pub result : Text
  pub verification : Text

pub record DiagnosticRecord : Type 0 where
  pub performed_at : Text
  pub overall_status : Text
  pub payload : Text

pub record RepairRecord : Type 0 where
  pub performed_at : Text
  pub action_id : Text
  pub component_id : Text
  pub success : Bool
  pub result : Text
  pub verification : Text

-- The message Event, as it comes over the wire.
pub record WireEvent : Type 0 where
  pub seq : ℕ
  pub timestamp : Text
  pub level : Text
  pub component : Text
  pub name : Text
  pub project : Text
  pub fields : List (Text × Text)
