-- ===== src/Core/Telemetry.antt =====
-- crates/telemetry-core/src/telemetry.rs: signals, records, their checks and their wire format.
-- A `String` is its UTF-8 bytes. `Cursor` and the reads are in `Core.Telemetry.Input`.
pub mod Input
pub mod Reads
pub mod Layout
pub mod RoundTrip
use telemetry_fabric.Prelude.{
  ℕ, zero, suc, ◌+◌, Bool, true, false, not, List, [], ◌∷◌, ◌++◌, Option, none, some, ltb, ◌==◌,
  ◌=text◌, ◌||◌, if◌then◌else◌, length,
}
use telemetry_fabric.Prelude.Words.{u16_max, u32_max}
use telemetry_fabric.Prelude.Result
use telemetry_fabric.Prelude.Result.{Result, ok, err, fail_if}
use telemetry_fabric.Std.Bytes.{Bytes, le_bytes}
use telemetry_fabric.Std.Text.{text, is_blank}
use telemetry_fabric.Std.Decimal.{decimal}
use telemetry_fabric.Core.Error.{TelemetryError, invalid_record, decode_error, payload_too_large}
use telemetry_fabric.Core.Telemetry.Input.{
  Cursor, Reader, pure, lift_step, bind_step, ◌>>=◌, ◌>>◌, new, read_exact, read_u8, read_u16,
  read_u32, read_u128, read_string, is_finished,
}

pub data SignalKind : Type 0 where
  trace metric log : SignalKind

unfoldable pub as_str : SignalKind → Bytes
as_str trace = text "trace"
as_str metric = text "metric"
as_str log = text "log"

unfoldable pub from_token : Bytes → Option SignalKind
from_token value =
    if (value =text text "trace") || (value =text text "traces")
    then some trace
    else if (value =text text "metric") || (value =text text "metrics")
    then some metric
    else if (value =text text "log") || (value =text text "logs")
    then some log
    else none

unfoldable pub to_wire : SignalKind → ℕ
to_wire trace = 1
to_wire metric = 2
to_wire log = 3

unfoldable pub from_wire : ℕ → Result TelemetryError SignalKind
from_wire value =
    if value == 1
    then ok trace
    else if value == 2
    then ok metric
    else if value == 3
    then ok log
    else err (decode_error (text "unknown signal kind: " ++ decimal value))

-- `==` of the derived `PartialEq`.
infix 50 ◌=signal◌
unfoldable pub ◌=signal◌ : SignalKind → SignalKind → Bool
trace =signal trace = true
metric =signal metric = true
log =signal log = true
_ =signal _ = false

pub record Attribute : Type 0 where
  pub key : Bytes
  pub value : Bytes

pub record TelemetryRecord : Type 0 where
  pub tenant_id : Bytes
  pub signal : SignalKind
  pub timestamp_unix_nanos : ℕ
  pub attributes : List Attribute
  pub body : Bytes

-- `SystemTime::now()` since the epoch, in nanoseconds; `none` is a clock before the epoch.
unfoldable pub now_unix_nanos : Option ℕ → ℕ
now_unix_nanos none = 0
now_unix_nanos (some nanos) = nanos

unfoldable pub new_record : Option ℕ → Bytes → SignalKind → Bytes → TelemetryRecord
unfolding now_unix_nanos
new_record now tenant_id signal body = record {
  tenant_id = tenant_id;
  signal = signal;
  timestamp_unix_nanos = now_unix_nanos now;
  attributes = [];
  body = body;
}

unfoldable pub with_attribute : TelemetryRecord → Bytes → Bytes → TelemetryRecord
with_attribute r key value = record r {
  attributes = r.attributes ++ (record { key = key; value = value } ∷ []);
}

unfoldable pub validate_keys : List Attribute → Result TelemetryError (Unit {0})
validate_keys [] = ok tt
validate_keys (attribute ∷ rest) =
    if is_blank attribute.key
    then err (invalid_record (text "attribute keys must not be empty"))
    else validate_keys rest

unfoldable pub validate : TelemetryRecord → ℕ → Result TelemetryError (Unit {0})
unfolding validate_keys
validate r max_record_bytes =
    if is_blank r.tenant_id
    then err (invalid_record (text "tenant_id must not be empty"))
    else if ltb max_record_bytes (length r.body)
    then err (payload_too_large (length r.body))
    else validate_keys r.attributes

unfoldable pub write_u16 : Bytes → ℕ → Bytes
write_u16 output value = output ++ le_bytes 2 value

unfoldable pub write_u32 : Bytes → ℕ → Bytes
write_u32 output value = output ++ le_bytes 4 value

unfoldable pub write_string : Bytes → Bytes → Result TelemetryError Bytes
unfolding write_u16
write_string output value =
    if ltb u16_max (length value)
    then err (payload_too_large (length value))
    else ok (write_u16 output (length value) ++ value)

unfoldable pub write_attributes : Bytes → List Attribute → Result TelemetryError Bytes
unfolding write_string
write_attributes output [] = ok output
write_attributes output (attribute ∷ rest) =
    Result.◌>>=◌ (write_string output attribute.key) λ output.
      Result.◌>>=◌ (write_string output attribute.value) λ output. write_attributes output rest

unfoldable pub record_magic : Bytes
unfolding text
record_magic = text "TFB1"

encode_header : TelemetryRecord → Bytes
unfolding record_magic write_u16 to_wire
encode_header r =
    let output = record_magic ++ (to_wire r.signal ∷ []) in
    let output = output ++ le_bytes 16 r.timestamp_unix_nanos in
    let output = write_u16 output (length r.tenant_id) ++ r.tenant_id in
    write_u16 output (length r.attributes)

unfoldable pub encode : TelemetryRecord → Result TelemetryError Bytes
unfolding encode_header write_u32
encode r = Result.◌>>=◌ (validate r u32_max) λ _.
    if ltb u16_max (length r.tenant_id)
    then err (payload_too_large (length r.tenant_id))
    else if ltb u16_max (length r.attributes)
    then err (payload_too_large (length r.attributes))
    else if ltb u32_max (length r.body)
    then err (payload_too_large (length r.body))
    else Result.◌>>=◌ (write_attributes (encode_header r) r.attributes)
        λ output. ok (write_u32 output (length r.body) ++ r.body)

unfoldable pub read_attribute : Reader Attribute
read_attribute = do
  key_len ← read_u16
  key ← read_string key_len
  value_len ← read_u16
  value ← read_string value_len
  pure (record { key = key; value = value })

-- `attributes.push` in each of the rounds that are left.
unfoldable pub read_attributes : ℕ → List Attribute → Reader (List Attribute)
read_attributes zero attributes = pure attributes
read_attributes (suc rounds) attributes = do
  attribute ← read_attribute
  read_attributes rounds (attributes ++ (attribute ∷ []))

unfoldable pub check_magic : Bytes → Reader (Unit {0})
check_magic magic =
    lift_step
      (fail_if (not (magic =text record_magic)) (decode_error (text "record magic does not match")))

unfoldable pub check_finished : Reader (Unit {0})
check_finished c =
    lift_step (fail_if (not (is_finished c)) (decode_error (text "record has trailing bytes"))) c

unfoldable pub read_record : Reader TelemetryRecord
read_record = do
  magic ← read_exact 4
  check_magic magic
  wire ← read_u8
  signal ← lift_step (from_wire wire)
  timestamp_unix_nanos ← read_u128
  tenant_len ← read_u16
  tenant_id ← read_string tenant_len
  attribute_count ← read_u16
  attributes ← read_attributes attribute_count []
  body_len ← read_u32
  body ← read_exact body_len
  check_finished
  pure (record {
    tenant_id = tenant_id;
    signal = signal;
    timestamp_unix_nanos = timestamp_unix_nanos;
    attributes = attributes;
    body = body;
  })

first_of_pair :
    Result TelemetryError (TelemetryRecord × Cursor) → Result TelemetryError TelemetryRecord
first_of_pair (ok (r, c)) = ok r
first_of_pair (err e) = err e

unfoldable pub decode : Bytes → Result TelemetryError TelemetryRecord
unfolding read_record first_of_pair
decode input = first_of_pair (read_record (new input))

pub record RecordBatch : Type 0 where
  pub records : List TelemetryRecord
