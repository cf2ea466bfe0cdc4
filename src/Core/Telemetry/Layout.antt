-- ===== src/Core/Telemetry/Layout.antt =====
-- The wire format of a record, written down from front to back, and `encode` against it.
use telemetry_fabric.Prelude.{
  ◌≤◌, ◌≡◌, sym, ap, ◌∙◌, List, [], ◌∷◌, ◌++◌, arith, length, All, le→ltb,
}
use telemetry_fabric.Prelude.Words.{u16_max, u32_max}
use telemetry_fabric.Prelude.Result.{ok}
use telemetry_fabric.Std.Bytes.{Bytes, le_bytes}
use telemetry_fabric.Core.Telemetry.{
  Attribute, TelemetryRecord, to_wire, validate, record_magic, write_attributes, encode_header,
  encode,
}
use mathlib.Core.List.{append_assoc, append-nil}

-- A text behind its length in two bytes.
abbrev pub field16 : Bytes → Bytes
field16 s = le_bytes 2 (length s) ++ s

abbrev pub attributes_layout : List Attribute → Bytes
attributes_layout [] = []
attributes_layout (a ∷ rest) = (field16 a.key ++ field16 a.value) ++ attributes_layout rest

abbrev pub layout : TelemetryRecord → Bytes
layout r =
    record_magic
    ++ ((to_wire r.signal ∷ [])
        ++ (le_bytes 16 r.timestamp_unix_nanos
            ++ (le_bytes 2 (length r.tenant_id)
                ++ (r.tenant_id
                    ++ (le_bytes 2 (length r.attributes)
                        ++ (attributes_layout r.attributes
                            ++ (le_bytes 4 (length r.body) ++ r.body)))))))

abbrev pub FitsAttribute : Attribute → Type 0
FitsAttribute a = (length a.key ≤ u16_max) × (length a.value ≤ u16_max)

-- Every length fits the field that holds it.
pub record FitsWire (r : TelemetryRecord) : Type 0 where
  pub tenant : length r.tenant_id ≤ u16_max
  pub count : length r.attributes ≤ u16_max
  pub texts : All FitsAttribute r.attributes
  pub body : length r.body ≤ u32_max

pub write_attributes-layout :
    (output : Bytes) (as' : List Attribute)
    → All FitsAttribute as'
    → write_attributes output as' ≡ ok (output ++ attributes_layout as')
unfolding write_attributes
write_attributes-layout output [] h = ap ok (sym (append-nil output))
write_attributes-layout output (a ∷ rest) h =
    rw (le→ltb u16_max (length a.key) h.0.0, le→ltb u16_max (length a.value) h.0.1)
      (write_attributes-layout
          ((output ++ le_bytes 2 (length a.key) ++ a.key) ++ le_bytes 2 (length a.value) ++ a.value)
          rest h.1
        ∙ simp append_assoc)

-- What the loop has written after one more attribute.
abbrev attribute_output : Bytes → Attribute → Bytes
attribute_output output a =
    (output ++ le_bytes 2 (length a.key) ++ a.key) ++ le_bytes 2 (length a.value) ++ a.value

write_attributes-fits :
    (output : Bytes) (as' : List Attribute) (out : Bytes)
    → write_attributes output as' ≡ ok out
    → All FitsAttribute as'
unfolding write_attributes
write_attributes-fits output [] out h = tt
write_attributes-fits output (a ∷ rest) out h =
    let fits : FitsAttribute a = ground arith in
    (fits, write_attributes-fits (attribute_output output a) rest out (ground (arith, fits)))

-- On a record that passes the check and fits, `encode` writes the layout.
pub encode-layout :
    (r : TelemetryRecord) → validate r u32_max ≡ ok tt → FitsWire r → encode r ≡ ok (layout r)
unfolding encode
encode-layout r v f =
    rw (v, le→ltb _ _ f.tenant, le→ltb _ _ f.count, le→ltb _ _ f.body)
      (rw (write_attributes-layout (encode_header r) r.attributes f.texts) (simp append_assoc))

record Accepted (r : TelemetryRecord) (out : Bytes) : Type 0 where
  valid : validate r u32_max ≡ ok tt
  tenant : length r.tenant_id ≤ u16_max
  count : length r.attributes ≤ u16_max
  body : length r.body ≤ u32_max

encode-Accepted : (r : TelemetryRecord) (out : Bytes) → encode r ≡ ok out → Accepted r out
unfolding encode
encode-Accepted r out h = ground arith

encode-attributes :
    (r : TelemetryRecord) (out : Bytes)
    → encode r ≡ ok out
    → (o : Bytes) × (write_attributes (encode_header r) r.attributes ≡ ok o)
unfolding encode
encode-attributes r out h = ground arith

-- What `encode` accepts passes the check and fits, and its output is the layout.
pub encode-fits :
    (r : TelemetryRecord) (out : Bytes)
    → encode r ≡ ok out
    → (validate r u32_max ≡ ok tt) × FitsWire r × (out ≡ layout r)
encode-fits r out h =
    let a = encode-Accepted r out h in
    let (o, e) = encode-attributes r out h in
    let fits : FitsWire r = record {
      tenant = a.tenant;
      count = a.count;
      texts = write_attributes-fits (encode_header r) r.attributes o e;
      body = a.body;
    } in
    (a.valid, fits, cc (h, encode-layout r a.valid fits))
