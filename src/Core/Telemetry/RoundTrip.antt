-- ===== src/Core/Telemetry/RoundTrip.antt =====
-- `decode` against `encode`.
use telemetry_fabric.Prelude.{
  ℕ, ◌≤◌, ◌<◌, ◌^◌, ◌≡◌, refl, sym, ap, List, [], ◌∷◌, ◌++◌, arith, length, All, =text_refl,
}
use telemetry_fabric.Prelude.Words.{u16_max, u32_max, usize_max}
use telemetry_fabric.Prelude.Result.{ok}
use telemetry_fabric.Std.Bytes.{Bytes, le_bytes, from_le, length-le_bytes, from_le-le_bytes}
use telemetry_fabric.Std.Text.{IsUtf8}
use telemetry_fabric.Core.Telemetry.Input.{
  Reader, ◌>>=◌, pure, read_exact, read_u8, read_u16, read_u32, read_u128, read_string, from_utf8,
  is_finished, new,
}
use telemetry_fabric.Core.Telemetry.Reads.{
  At, Reads, ReadsAll, Reads-bind, ReadsAll-bind, Reads-lift, Reads-read_exact, Reads-then_lift,
}
use telemetry_fabric.Core.Telemetry.Layout.{
  field16, attributes_layout, layout, FitsAttribute, FitsWire, encode-fits,
}
use telemetry_fabric.Core.Telemetry.{
  Attribute, TelemetryRecord, SignalKind, trace, metric, log, to_wire, from_wire, record_magic,
  encode, read_attribute, read_attributes, check_magic, check_finished, read_record, decode,
}
use mathlib.Core.List.{append_assoc, append-nil}

-- What a value of the Rust types satisfies: texts are UTF-8 and the time is a `u128`.
abbrev pub IsAttribute : Attribute → Type 0
IsAttribute a = IsUtf8 a.key × IsUtf8 a.value

pub record IsRecord (r : TelemetryRecord) : Type 0 where
  pub tenant : IsUtf8 r.tenant_id
  pub time : r.timestamp_unix_nanos < 2 ^ 128
  pub texts : All IsAttribute r.attributes

-- A read of `k` bytes as a number.
Reads-number :
    (k v : ℕ)
    → v < 256 ^ k
    → Reads (read_exact k >>= λ bytes. pure (from_le bytes)) (le_bytes k v) v
Reads-number k v h =
    Reads-then_lift (λ bytes. ok (from_le bytes)) (le_bytes k v)
      (Reads-read_exact k (le_bytes k v) (length-le_bytes k v)) (ap ok (from_le-le_bytes k v h))

Reads-string : (s : Bytes) → IsUtf8 s → Reads (read_string (length s)) s s
unfolding read_string
Reads-string s u = Reads-then_lift from_utf8 s (Reads-read_exact (length s) s refl) valid
  where
    valid : from_utf8 s ≡ ok s
    valid = unfold from_utf8 in rw (u, from_utf8)

Reads-u16 : (v : ℕ) → v ≤ u16_max → Reads read_u16 (le_bytes 2 v) v
unfolding read_u16
Reads-u16 v h = Reads-number 2 v (omega arith)

Reads-u32 : (v : ℕ) → v ≤ u32_max → Reads read_u32 (le_bytes 4 v) v
unfolding read_u32
Reads-u32 v h = Reads-number 4 v (omega arith)

Reads-u128 : (v : ℕ) → v < 2 ^ 128 → Reads read_u128 (le_bytes 16 v) v
unfolding read_u128
Reads-u128 v h = Reads-number 16 v (omega arith)

Reads-u8 : (v : ℕ) → v < 256 → Reads read_u8 (v ∷ []) v
unfolding read_u8
Reads-u8 v h =
    Reads-then_lift (λ bytes. ok (from_le bytes)) (v ∷ []) (Reads-read_exact 1 (v ∷ []) refl)
      (ap ok (unfold from_le in omega arith))

-- A text behind its length.
Reads-field16 :
    {A : Type 0} (k : Bytes → Reader A) (s : Bytes) {rest : Bytes} {a : A}
    → IsUtf8 s
    → length s ≤ u16_max
    → Reads (k s) rest a
    → Reads (read_u16 >>= λ len. read_string len >>= k) (field16 s ++ rest) a
Reads-field16 k s {rest} {a} u fits h = rw append_assoc (
    Reads-bind (λ len. read_string len >>= k) (length s) (Reads-u16 (length s) fits)
      (Reads-bind k s (Reads-string s u) h))

Reads-attribute :
    (a : Attribute)
    → IsAttribute a
    → FitsAttribute a
    → Reads read_attribute (field16 a.key ++ field16 a.value) a
unfolding read_attribute
Reads-attribute a u fits =
    let put : Bytes → Bytes → Attribute = λ key value. record { key = key; value = value } in
    Reads-field16 (λ key. read_u16 >>= λ len. read_string len >>= λ value. pure (put key value))
      a.key u.0 fits.0
      (rw (append-nil (field16 a.value)) at
        (Reads-field16 (λ value. pure (put a.key value)) a.value u.1 fits.1 (Reads-lift a refl)))

Reads-attributes :
    (as' done : List Attribute)
    → All IsAttribute as'
    → All FitsAttribute as'
    → Reads (read_attributes (length as') done) (attributes_layout as') (done ++ as')
unfolding read_attributes
Reads-attributes [] done u fits = Reads-lift (done ++ []) (ap ok (sym (append-nil done)))
Reads-attributes (a ∷ as') done u fits =
    Reads-bind (λ attribute. read_attributes (length as') (done ++ (attribute ∷ []))) a
      (Reads-attribute a u.0 fits.0)
      (rw append_assoc at (Reads-attributes as' (done ++ (a ∷ [])) u.1 fits.1))

from_wire-to_wire : (s : SignalKind) → from_wire (to_wire s) ≡ ok s
unfolding from_wire to_wire
from_wire-to_wire trace = refl
from_wire-to_wire metric = refl
from_wire-to_wire log = refl

to_wire-IsByte : (s : SignalKind) → to_wire s < 256
unfolding to_wire
to_wire-IsByte s = ground arith

length-record_magic : length record_magic ≡ 4
unfolding record_magic
length-record_magic = refl

Reads-check_magic : Reads (check_magic record_magic) [] tt
unfolding check_magic
Reads-check_magic = Reads-lift tt (rw (=text_refl record_magic))

abbrev with_body : TelemetryRecord → Bytes → TelemetryRecord
with_body r body = record r { body = body }

-- The end of the input is where `o + length front` is its length.
ReadsAll-finish :
    (front : Bytes) (r : TelemetryRecord)
    → ReadsAll
        (read_exact (length front) >>= λ body. check_finished >>= λ _. pure (with_body r body))
        front
        (with_body r front)
unfolding check_finished is_finished
ReadsAll-finish front r = record {
  reads_all = λ input o at fits.
      let at' : At input o (front ++ []) = rw append-nil at in
      rw ((Reads-read_exact (length front) front refl).reads input o [] at' fits)
        (ground (arith, at.total));
}

-- What is read in front of the body.
read_record-layout :
    (r : TelemetryRecord) → IsRecord r → FitsWire r → ReadsAll read_record (layout r) r
unfolding read_record
read_record-layout r i f =
    ReadsAll-bind _ record_magic (Reads-read_exact 4 record_magic length-record_magic) (
      ReadsAll-bind _ tt Reads-check_magic (
        ReadsAll-bind _ (to_wire r.signal) (Reads-u8 (to_wire r.signal) (to_wire-IsByte r.signal)) (
          ReadsAll-bind _ r.signal (Reads-lift r.signal (from_wire-to_wire r.signal)) (
            ReadsAll-bind _ r.timestamp_unix_nanos (Reads-u128 r.timestamp_unix_nanos i.time) (
              ReadsAll-bind _ (length r.tenant_id) (Reads-u16 (length r.tenant_id) f.tenant) (
                ReadsAll-bind _ r.tenant_id (Reads-string r.tenant_id i.tenant) (
                  ReadsAll-bind _ (length r.attributes) (Reads-u16 (length r.attributes) f.count) (
                    ReadsAll-bind _ r.attributes (Reads-attributes r.attributes [] i.texts f.texts)
                      (ReadsAll-bind _ (length r.body) (Reads-u32 (length r.body) f.body)
                        (ReadsAll-finish r.body r))))))))))

decode-layout :
    (r : TelemetryRecord)
    → IsRecord r
    → FitsWire r
    → length (layout r) ≤ usize_max
    → decode (layout r) ≡ ok r
unfolding decode new
decode-layout r i f fits = rw (
    (read_record-layout r i f).reads_all (layout r) 0 (record { here = refl; total = omega arith })
      fits)

-- Decoding what `encode` wrote gives the record back. Texts are UTF-8 and the time is a `u128`, as
-- the Rust types have it, and the output is no longer than a slice can be.
pub decode-encode :
    (r : TelemetryRecord) (out : Bytes)
    → IsRecord r
    → encode r ≡ ok out
    → length out ≤ usize_max
    → decode out ≡ ok r
decode-encode r out i e fits =
    let (v, f, eq) = encode-fits r out e in rw eq (decode-layout r i f (rw eq at fits))
