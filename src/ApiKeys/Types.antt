-- ===== src/ApiKeys/Types.antt =====
-- The rows that limits and reservations are kept in: app/db/models.py, and the data classes of
-- app/modules/api_keys/repository.py and service.py. Times are whole milliseconds; keys of tables
-- are numbers; a table is a function from its primary key.
use Prim.Native.String.{String}
use text.Mathlib.Text.{◌==◌ as str_eq}
use codex_lb_mod.Base.{Bool, List, Option, Table, false, none, some, true, ℕ}

pub data LimitType : Type 0 where
  total_tokens input_tokens output_tokens cost_usd credits : LimitType

pub data LimitWindow : Type 0 where
  daily weekly monthly five_hours seven_days : LimitWindow

pub record ApiKeyLimit : Type 0 where
  pub id : ℕ
  pub limit_type : LimitType
  pub limit_window : LimitWindow
  pub max_value : ℕ
  pub current_value : ℕ
  pub model_filter : Option String
  pub reset_at : ℕ

pub record ApiKey : Type 0 where
  pub is_active : Bool
  pub expires_at : Option ℕ
  pub limit_ids : List ℕ
  pub last_used_at : Option ℕ

pub data ReservationStatus : Type 0 where
  reserved settling finalized failed released : ReservationStatus

pub record ReservationItem : Type 0 where
  pub limit_id : ℕ
  pub limit_type : LimitType
  pub reserved_delta : ℕ
  pub expected_reset_at : ℕ
  pub actual_delta : Option ℕ

pub record Reservation : Type 0 where
  pub api_key_id : ℕ
  pub model : String
  pub status : ReservationStatus
  pub items : List ReservationItem
  pub input_tokens : Option ℕ
  pub output_tokens : Option ℕ
  pub cached_input_tokens : Option ℕ
  pub cost_microdollars : Option ℕ
  pub updated_at : ℕ

pub record Database : Type 0 where
  pub keys : Table ApiKey
  pub limits : Table ApiKeyLimit
  pub reservations : Table Reservation

abbrev pub same_reservation_status : ReservationStatus → ReservationStatus → Bool
same_reservation_status reserved reserved = true
same_reservation_status settling settling = true
same_reservation_status finalized finalized = true
same_reservation_status failed failed = true
same_reservation_status released released = true
same_reservation_status _ _ = false

-- `limit.model_filter == request_model`, and a limit without a filter applies to every request.
unfoldable pub limit_applies_for_request : ApiKeyLimit → Option String → Bool
limit_applies_for_request limit request_model = elim limit.model_filter [
  | none ↦ true
  | some f ↦ elim request_model [ none ↦ false | some m ↦ str_eq f m ]
]
