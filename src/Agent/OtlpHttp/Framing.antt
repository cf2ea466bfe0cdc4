-- ===== src/Agent/OtlpHttp/Framing.antt =====
-- A request is the same in whatever pieces its bytes arrive.
use telemetry_fabric.Prelude.{
  ℕ, zero, suc, ◌+◌, ◌≤◌, ◌<◌, ◌≡◌, ◌∙◌, refl, sym, ap, List, [], ◌∷◌, ◌++◌, Option, none, some,
  true, false, ltb, length, take, drop, length-append, length-drop, inl, inr, Bool-cases,
  Option-cases, arith, ◌≢◌, ◌↔◌, ◌⊎◌, le→ltb, subst,
}
use mathlib.Core.List.{append_assoc, append-nil}
use telemetry_fabric.Prelude.Result.{Result, ok, err, ◌>>=◌}
use telemetry_fabric.Std.Bytes.{Bytes}
use telemetry_fabric.Std.Lines.{blank_line, starts_with, from_utf8_lossy}
use telemetry_fabric.Agent.OtlpHttp.{
  OtlpHttpRequest, find_header_end, blank_line, take_body, parse_head, parse_from,
  parse_buffered_http_request, read_loop, read_otlp_http_request, after_read,
  max_otlp_http_body_bytes,
}

starts_with-append :
    (p s more : Bytes) → length p ≤ length s → starts_with p (s ++ more) ≡ starts_with p s
unfolding starts_with
starts_with-append [] s more h = refl
starts_with-append (c ∷ p) [] more h = absurd (omega arith)
starts_with-append (c ∷ p) (b ∷ s) more h = rw (starts_with-append p s more (omega arith)) refl

starts_with-short : (p s : Bytes) → starts_with p s ≡ true → length p ≤ length s
unfolding starts_with
starts_with-short [] s h = omega arith
starts_with-short (c ∷ p) [] h = cc
starts_with-short (c ∷ p) (b ∷ s) h = ground (arith, starts_with-short p s)

find_header_end-le : (s : Bytes) (i : ℕ) → find_header_end s ≡ some i → i + 4 ≤ length s
unfolding find_header_end
find_header_end-le [] i h = cc
find_header_end-le (b ∷ s) i h = elim (Option-cases (find_header_end s)) [
  | inl e ↦ ground (arith, e, starts_with-short blank_line (b ∷ s))
  | inr (j, e) ↦ ground (arith, e, starts_with-short blank_line (b ∷ s), find_header_end-le s j e)
]

find_header_end-append :
    (s more : Bytes) (i : ℕ) → find_header_end s ≡ some i → find_header_end (s ++ more) ≡ some i
unfolding find_header_end
find_header_end-append [] more i h = cc
find_header_end-append (b ∷ s) more i h =
    rw
      (starts_with-append blank_line (b ∷ s) more
        (let l : i + 4 ≤ length (b ∷ s) = find_header_end-le (b ∷ s) i h in omega arith))
      (elim (Option-cases (find_header_end s)) [
        | inl e ↦ ground (arith, e)
        | inr (j, e) ↦ ground (arith, e, find_header_end-append s more j e)
      ])

take-prefix : (n : ℕ) (s more : Bytes) → n ≤ length s → take n (s ++ more) ≡ take n s
take-prefix zero s more h = refl
take-prefix (suc n) [] more h = absurd (omega arith)
take-prefix (suc n) (b ∷ s) more h = ap (λ (t : Bytes). b ∷ t) (take-prefix n s more (omega arith))

drop-prefix : (n : ℕ) (s more : Bytes) → n ≤ length s → drop n (s ++ more) ≡ drop n s ++ more
drop-prefix zero s more h = refl
drop-prefix (suc n) [] more h = absurd (omega arith)
drop-prefix (suc n) (b ∷ s) more h = drop-prefix n s more (omega arith)

-- The body, once there, is where it was.
body_slice :
    (e n : ℕ) (s more : Bytes)
    → e + 4 + n ≤ length s
    → take n (drop (e + 4) (s ++ more)) ≡ take n (drop (e + 4) s)
body_slice e n s more h =
    rw (drop-prefix (e + 4) s more (omega arith))
      (take-prefix n (drop (e + 4) s) more (omega (arith, length-drop (e + 4) s)))

take_body-append :
    (e : ℕ) (s more : Bytes) (head : OtlpHttpRequest × ℕ) (r : OtlpHttpRequest)
    → take_body e s head ≡ some r
    → take_body e (s ++ more) head ≡ some r
unfolding take_body
take_body-append e s more (head, n) r h = elim (Bool-cases (ltb (length s) (e + 4 + n))) [
  | inl short ↦ let h' = rw short at h in cc
  | inr there ↦
      let fits : ltb (length (s ++ more)) (e + 4 + n) ≡ false =
        ground (arith, length-append s more) in
      rw (fits, body_slice e n s more (ground arith)) (rw there at h)
]

-- An outcome is final, unless it is that bytes are missing.
body_stays :
    (e : ℕ) (s more : Bytes) (head : Result Bytes (OtlpHttpRequest × ℕ))
    (out : Result Bytes (Option OtlpHttpRequest))
    → (head >>= λ h. ok (take_body e s h)) ≡ out
    → out ≢ ok none
    → (head >>= λ h. ok (take_body e (s ++ more) h)) ≡ out
body_stays e s more (err m) out h n = h
body_stays e s more (ok head) out h n = elim (Option-cases (take_body e s head)) [
  | inl missing ↦ absurd (n (sym h ∙ ap ok missing))
  | inr (r, there) ↦ ap ok (take_body-append e s more head r there) ∙ (sym (ap ok there) ∙ h)
]

pub parse_buffered_http_request-append :
    (s more : Bytes) (out : Result Bytes (Option OtlpHttpRequest))
    → parse_buffered_http_request s ≡ out
    → out ≢ ok none
    → parse_buffered_http_request (s ++ more) ≡ out
unfolding parse_buffered_http_request parse_from
parse_buffered_http_request-append s more out h n = elim (Option-cases (find_header_end s)) [
  | inl e ↦ absurd (n (sym h ∙ (rw e refl)))
  | inr (i, e) ↦
      let l : i + 4 ≤ length s = find_header_end-le s i e in
      rw (find_header_end-append s more i e, take-prefix i s more (omega arith))
        (body_stays i s more (parse_head (from_utf8_lossy (take i s))) out (rw e at h) n)
]

abbrev pub joined : List Bytes → Bytes
joined [] = []
joined (chunk ∷ chunks) = chunk ++ joined chunks

abbrev pub AreNonempty : List Bytes → Type 0
AreNonempty [] = Unit
AreNonempty (chunk ∷ chunks) = (0 < length chunk) × AreNonempty chunks

abbrev pub given : List Bytes → List (Result Bytes Bytes)
given [] = []
given (chunk ∷ chunks) = ok chunk ∷ given chunks

-- How a read can end the loop well: the request is there, or it comes with later reads.
after_read-eq-ok :
    (full : Bytes) (more : Bytes → Result Bytes OtlpHttpRequest)
    (result : Result Bytes (Option OtlpHttpRequest)) (r : OtlpHttpRequest)
    → after_read full more result ≡ ok r
    → (result ≡ ok (some r)) ⊎ (more full ≡ ok r)
unfolding after_read
after_read-eq-ok full more (err e) r h = cc
after_read-eq-ok full more (ok (some r')) r h = inl (cc)
after_read-eq-ok full more (ok none) r h =
    elim (Bool-cases (ltb max_otlp_http_body_bytes (length full))) [
      | inl large ↦ let h' = rw (large, after_read) at h in cc
      | inr small ↦ inr (rw (small, after_read) at h)
    ]

some-ne-none :
    (r : OtlpHttpRequest) → ◌≢◌ {A = Result Bytes (Option OtlpHttpRequest)} (ok (some r)) (ok none)
some-ne-none r e = cc

read_loop-parses :
    (chunks : List Bytes) (buffer : Bytes) (r : OtlpHttpRequest)
    → read_loop (given chunks) buffer ≡ ok r
    → parse_buffered_http_request (buffer ++ joined chunks) ≡ ok (some r)
unfolding read_loop
read_loop-parses [] buffer r h = cc
read_loop-parses ([] ∷ chunks) buffer r h = cc
read_loop-parses ((b ∷ chunk) ∷ chunks) buffer r h =
    let full : Bytes = buffer ++ (b ∷ chunk) in
    rw (← append_assoc buffer (b ∷ chunk) (joined chunks))
      (elim (after_read-eq-ok full (read_loop (given chunks)) (parse_buffered_http_request full) r
        h) [
          | inl found ↦
              parse_buffered_http_request-append full (joined chunks) (ok (some r)) found
                (some-ne-none r)
          | inr later_on ↦ read_loop-parses chunks full r later_on
        ])

-- With the outcome on the whole stream known, each outcome before it is that one, or to wait.
after_read-waits :
    (full : Bytes) (more : Bytes → Result Bytes OtlpHttpRequest)
    (result : Result Bytes (Option OtlpHttpRequest)) (r : OtlpHttpRequest)
    → (result ≢ ok none → result ≡ ok (some r))
    → length full ≤ max_otlp_http_body_bytes
    → (result ≡ ok none → more full ≡ ok r)
    → after_read full more result ≡ ok r
unfolding after_read
after_read-waits full more (err e) r final l wait = let h = final (λ p. cc) in cc
after_read-waits full more (ok (some r')) r final l wait = let h = final (some-ne-none r') in cc
after_read-waits full more (ok none) r final l wait =
    rw (le→ltb max_otlp_http_body_bytes (length full) l, after_read) (wait refl)

read_loop-finds :
    (chunks : List Bytes) (buffer : Bytes) (r : OtlpHttpRequest)
    → AreNonempty chunks
    → length (buffer ++ joined chunks) ≤ max_otlp_http_body_bytes
    → parse_buffered_http_request buffer ≡ ok none
    → parse_buffered_http_request (buffer ++ joined chunks) ≡ ok (some r)
    → read_loop (given chunks) buffer ≡ ok r
unfolding read_loop
read_loop-finds [] buffer r n l e h =
    let h' = rw (append-nil buffer) at h in absurd (some-ne-none r (sym h' ∙ e))
read_loop-finds ([] ∷ chunks) buffer r n l e h = absurd (omega arith)
read_loop-finds ((b ∷ chunk) ∷ chunks) buffer r n l e h =
    let full : Bytes = buffer ++ (b ∷ chunk) in
    let whole : buffer ++ ((b ∷ chunk) ++ joined chunks) ≡ full ++ joined chunks =
      sym (append_assoc buffer (b ∷ chunk) (joined chunks)) in
    let h' : parse_buffered_http_request (full ++ joined chunks) ≡ ok (some r) =
      ap parse_buffered_http_request (sym whole) ∙ h in
    let l' : length (full ++ joined chunks) ≤ max_otlp_http_body_bytes =
      subst (λ (t : Bytes). length t ≤ max_otlp_http_body_bytes) whole l in
    after_read-waits full (read_loop (given chunks)) (parse_buffered_http_request full) r
      (λ final.
        sym (
          parse_buffered_http_request-append full (joined chunks) (parse_buffered_http_request full)
            refl final)
        ∙ h')
      (omega (arith, length-append full (joined chunks)))
      (λ waiting. read_loop-finds chunks full r n.1 l' waiting h')

-- However the bytes of a stream are cut into reads, none of them empty: where they are at most
-- 16 MiB, the receiver reads a request exactly when the whole stream parses as that request.
pub read_otlp_http_request-whole :
    (chunks : List Bytes) (r : OtlpHttpRequest)
    → AreNonempty chunks
    → length (joined chunks) ≤ max_otlp_http_body_bytes
    → (read_otlp_http_request (given chunks) ≡ ok r)
      ↔ (parse_buffered_http_request (joined chunks) ≡ ok (some r))
unfolding read_otlp_http_request
read_otlp_http_request-whole chunks r n l = (
  read_loop-parses chunks [] r,
  read_loop-finds chunks [] r n l
      (unfold parse_buffered_http_request parse_from find_header_end in refl),
)
