-- ===== src/Exporters/Endpoint.antt =====
-- The request path of an HTTP endpoint.
use telemetry_fabric.Prelude.{
  ℕ, ◌-◌, ◌≡◌, ◌≢◌, [], ◌∷◌, ◌++◌, Bool, true, false, ◌&&◌, ◌==◌, =text_refl, if◌then◌else◌, length,
  length-append, drop-append, Bool-cases, inl, inr, arith,
}
use telemetry_fabric.Std.Bytes.{Bytes}
use telemetry_fabric.Std.Text.{ends_with}

pub data HttpScheme : Type 0 where
  http https : HttpScheme

pub record HttpEndpoint : Type 0 where
  pub scheme : HttpScheme
  pub host : Bytes
  pub port : ℕ
  pub base_path : Bytes

abbrev slash : ℕ
slash = 47

is_empty : Bytes → Bool
is_empty [] = true
is_empty (b ∷ bytes) = false

-- `trim_end_matches('/')`
unfoldable pub trim_end_slashes : Bytes → Bytes
unfolding is_empty
trim_end_slashes [] = []
trim_end_slashes (b ∷ bytes) =
    let rest = trim_end_slashes bytes in if is_empty rest && b == slash then [] else b ∷ rest

-- `trim_start_matches('/')`
unfoldable pub trim_start_slashes : Bytes → Bytes
trim_start_slashes [] = []
trim_start_slashes (b ∷ bytes) =
    let rest = trim_start_slashes bytes in if b == slash then rest else b ∷ bytes

unfoldable pub path_or : HttpEndpoint → Bytes → Bytes
unfolding is_empty
path_or endpoint default_path =
    if is_empty endpoint.base_path then default_path else endpoint.base_path

unfoldable pub request_path : HttpEndpoint → Bytes → Bytes
unfolding is_empty
request_path endpoint signal_path =
    if is_empty endpoint.base_path
    then signal_path
    else if ends_with endpoint.base_path signal_path
    then endpoint.base_path
    else trim_end_slashes endpoint.base_path ++ (slash ∷ trim_start_slashes signal_path)

ends_with-append : (xs ys : Bytes) → ends_with (xs ++ ys) ys ≡ true
unfolding ends_with
ends_with-append xs ys =
    let size : length (xs ++ ys) - length ys ≡ length xs = omega (arith, length-append xs ys) in
    rw (size, drop-append xs ys, =text_refl ys) (ground (arith, length-append xs ys))

trim_start-single :
    (name : Bytes) (c : ℕ) → c ≢ slash → trim_start_slashes (slash ∷ c ∷ name) ≡ c ∷ name
unfolding trim_start_slashes
trim_start-single name c h = ground arith

-- Whatever base path the endpoint has, the path of a request ends in that of its signal, where the
-- latter starts with one slash.
pub request_path-ends :
    (endpoint : HttpEndpoint) (c : ℕ) (name : Bytes)
    → c ≢ slash
    → ends_with (request_path endpoint (slash ∷ c ∷ name)) (slash ∷ c ∷ name) ≡ true
unfolding request_path
request_path-ends endpoint c name h = elim (Bool-cases (is_empty endpoint.base_path)) [
  | inl none_there ↦ rw none_there (ends_with-append [] (slash ∷ c ∷ name))
  | inr base ↦ elim (Bool-cases (ends_with endpoint.base_path (slash ∷ c ∷ name))) [
    | inl has_it ↦ rw (base, has_it) has_it
    | inr lacks_it ↦
        rw (base, lacks_it, trim_start-single name c h)
          (ends_with-append (trim_end_slashes endpoint.base_path) (slash ∷ c ∷ name))
  ]
]
