-- ===== src/Exporters/Http/Accepted.antt =====
-- What holds of an endpoint that is accepted.
use telemetry_fabric.Prelude.{
  ℕ, ◌≤◌, ◌≡◌, refl, subst, false, Option, none, some, ◌=text◌, ◌∷◌, [], if◌then◌else◌,
}
use telemetry_fabric.Prelude.Words.{u16_max}
use telemetry_fabric.Prelude.Result.{
  Result, ok, err, ◌>>=◌, ◌>>◌, >>-eq-ok, fail_if, fail_if-eq-ok, map_err,
}
use telemetry_fabric.Std.Bytes.{Bytes}
use telemetry_fabric.Std.Decimal.{parse_int, parse_int-le}
use telemetry_fabric.Std.Lines.{trim, is_empty, rsplit_once}
use telemetry_fabric.Exporters.Error.{ExporterError, invalid_endpoint}
use telemetry_fabric.Exporters.Endpoint.{HttpScheme, HttpEndpoint}
use telemetry_fabric.Exporters.Http.{
  scheme_of, authority_and_path, parse_http_authority, parse_http_endpoint_with_default_port,
}

abbrev IsAddress : Bytes × ℕ → Type 0
IsAddress (host, port) = (is_empty (trim host) ≡ false) × (port ≤ u16_max)

port_lem :
    (r : Result Bytes ℕ) (e : ExporterError) (host : Bytes) {out : Bytes × ℕ}
    → ((n : ℕ) → r ≡ ok n → n ≤ u16_max)
    → is_empty (trim host) ≡ false
    → (map_err (λ m. e) r >>= λ number. ok (host, number)) ≡ ok out
    → IsAddress out
port_lem (err m) e host b h p = cc
port_lem (ok n) e host {out = (o, q)} b h p =
    let same : ◌≡◌ {A = Bytes × ℕ} (host, n) (o, q) = cc in
    subst IsAddress {x = (host, n)} {y = (o, q)} same (h, b n refl)

split_lem :
    (o : Option (Bytes × Bytes)) (authority : Bytes) (default_port : ℕ) {out : Bytes × ℕ}
    → default_port ≤ u16_max
    → is_empty (trim authority) ≡ false
    → (elim o [
      | none ↦ ok (authority, default_port)
      | some (host, port) ↦
          fail_if (is_empty (trim host)) (invalid_endpoint authority)
          >> (map_err (λ e. invalid_endpoint authority) (parse_int u16_max port) >>= λ number.
              ok (host, number))
    ])
      ≡ ok out
    → IsAddress out
split_lem none authority d {out = (o, q)} l h p =
    let same : ◌≡◌ {A = Bytes × ℕ} (authority, d) (o, q) = cc in
    subst IsAddress {x = (authority, d)} {y = (o, q)} same (h, l)
split_lem (some (host, port)) authority d l h p =
    let (tested, rest) =
      >>-eq-ok (fail_if (is_empty (trim host)) (invalid_endpoint authority)) _ p in
    port_lem (parse_int u16_max port) (invalid_endpoint authority) host
      (λ n e. parse_int-le u16_max port e)
      (fail_if-eq-ok (is_empty (trim host)) (invalid_endpoint authority) tested) rest

parse_http_authority-IsAddress :
    (authority : Bytes) (default_port : ℕ) {out : Bytes × ℕ}
    → default_port ≤ u16_max
    → is_empty (trim authority) ≡ false
    → parse_http_authority authority default_port ≡ ok out
    → IsAddress out
unfolding parse_http_authority
parse_http_authority-IsAddress authority d l h p =
    split_lem (rsplit_once 58 authority) authority d l h p

-- What follows the split into authority and path.
endpoint_lem :
    (scheme : HttpScheme) (base_path : Bytes) (r : Result ExporterError (Bytes × ℕ))
    {e : HttpEndpoint}
    → ((out : Bytes × ℕ) → r ≡ ok out → IsAddress out)
    → (r >>= λ host_port.
        ok (record {
          scheme = scheme;
          host = host_port.0;
          port = host_port.1;
          base_path = base_path;
        }))
      ≡ ok e
    → (is_empty (trim e.host) ≡ false) × (e.port ≤ u16_max)
endpoint_lem scheme base_path (err m) a h = cc
endpoint_lem scheme base_path (ok (host, port)) {e} a h =
    let made : HttpEndpoint = record {
      scheme = scheme;
      host = host;
      port = port;
      base_path = base_path;
    } in
    let same : made ≡ e = cc in
    subst (λ (x : HttpEndpoint). (is_empty (trim x.host) ≡ false) × (x.port ≤ u16_max)) {x = made}
      {y = e} same (a (host, port) refl)

-- An endpoint that is accepted has a host that is not blank and a port of 16 bits, where the default
-- port is one.
pub parse_http_endpoint-IsAddress :
    (endpoint : Bytes) (default_port : ℕ) (e : HttpEndpoint)
    → default_port ≤ u16_max
    → parse_http_endpoint_with_default_port endpoint default_port ≡ ok e
    → (is_empty (trim e.host) ≡ false) × (e.port ≤ u16_max)
unfolding parse_http_endpoint_with_default_port
parse_http_endpoint-IsAddress endpoint default_port e l h =
    let trimmed : Bytes = trim endpoint in
    let parts : HttpScheme × Bytes = scheme_of trimmed in
    let split : Bytes × Bytes = authority_and_path parts.1 in
    let (there, more) = >>-eq-ok (fail_if (is_empty trimmed) (invalid_endpoint trimmed)) _ h in
    let (named, rest) =
      >>-eq-ok (fail_if (is_empty (trim split.0)) (invalid_endpoint trimmed)) _ more in
    endpoint_lem parts.0 (if split.1 =text (47 ∷ []) then [] else split.1)
      (parse_http_authority split.0 default_port)
      (λ out p.
        parse_http_authority-IsAddress split.0 default_port l
          (fail_if-eq-ok (is_empty (trim split.0)) (invalid_endpoint trimmed) named) p)
      rest
