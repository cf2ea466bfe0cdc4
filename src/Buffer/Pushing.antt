-- ===== src/Buffer/Pushing.antt =====
-- One more frame at the end of the last segment.
use telemetry_fabric.Prelude.{
  ℕ, ◌+◌, ◌≤◌, ◌≡◌, refl, sym, ap, ◌∙◌, List, [], ◌∷◌, ◌++◌, arith, length, All, length-append,
}
use telemetry_fabric.Std.Bytes.{Bytes}
use telemetry_fabric.Buffer.Files.{Segments, append, total_segment_bytes}
use telemetry_fabric.Buffer.Frame.{frame}
use telemetry_fabric.Buffer.Log.{
  frames, Logs, stored, Position, all_payloads, IsPayload, IsAscending, last_id, last_content,
}
use telemetry_fabric.Buffer.FileLaws.{Below, append-middle, Below-snoc}
use telemetry_fabric.Buffer.Steps.{frames-append}
use mathlib.Core.List.{append_assoc, append-nil}

module _ (payload : Bytes) where
  -- `left` are the payloads of a segment, `rest` the segments above it.
  abbrev pub push_left : List Bytes → Logs → List Bytes
  push_left left [] = left ++ (payload ∷ [])
  push_left left ((id, ps) ∷ rest) = left

  abbrev pub push_rest : Logs → Logs
  push_rest [] = []
  push_rest ((id, ps) ∷ rest) = (id, push_left ps rest) ∷ push_rest rest

  abbrev pub push : Position → Position
  push p = record p { left = push_left p.left p.rest; rest = push_rest p.rest }

  pub append-push :
      (id : ℕ) (pre : Bytes) (left : List Bytes) (before : Segments) (rest : Logs)
      → Below id before
      → IsAscending id rest
      → append
          (last_id id rest)
          (frame payload)
          (before ++ ((id, pre ++ frames left) ∷ stored rest))
        ≡ before ++ ((id, pre ++ frames (push_left left rest)) ∷ stored (push_rest rest))
  append-push id pre left before [] h a =
      append-middle id (pre ++ frames left) (frame payload) before [] h
      ∙ ap (λ (s : Bytes). before ++ ((id, s) ∷ []))
          (simp (frames-append, append_assoc, append-nil))
  append-push id pre left before ((j, ps) ∷ rest) h a =
      rw (sym (append_assoc before ((id, pre ++ frames left) ∷ []) (stored ((j, ps) ∷ rest)))) (
        append-push j [] ps (before ++ ((id, pre ++ frames left) ∷ [])) rest
          (Below-snoc id j (pre ++ frames left) before h a.0) a.1
        ∙ append_assoc before ((id, pre ++ frames left) ∷ []) (stored (push_rest ((j, ps) ∷ rest))))

  pub pending-push :
      (left : List Bytes) (rest : Logs)
      → push_left left rest ++ all_payloads (push_rest rest)
        ≡ (left ++ all_payloads rest) ++ (payload ∷ [])
  pending-push left [] = simp append-nil
  pending-push left ((id, ps) ∷ rest) =
      ap (λ (t : List Bytes). left ++ t) (pending-push ps rest)
      ∙ sym (append_assoc left (ps ++ all_payloads rest) (payload ∷ []))

  pub push-IsAscending : (n : ℕ) (rest : Logs) → IsAscending n rest → IsAscending n (push_rest rest)
  push-IsAscending n [] h = tt
  push-IsAscending n ((id, ps) ∷ rest) h = (h.0, push-IsAscending id rest h.1)

  pub last_id-push : (n : ℕ) (rest : Logs) → last_id n (push_rest rest) ≡ last_id n rest
  last_id-push n [] = refl
  last_id-push n ((id, ps) ∷ rest) = last_id-push id rest

  length-frames-push :
      (left : List Bytes)
      → length (frames (left ++ (payload ∷ []))) ≡ length (frames left) + length (frame payload)
  length-frames-push left =
      rw (frames-append left (payload ∷ []), append-nil)
        (length-append (frames left) (frame payload))

  pub length-last-push :
      (pre : Bytes) (left : List Bytes) (rest : Logs)
      → length (last_content (pre ++ frames (push_left left rest)) (push_rest rest))
        ≡ length (last_content (pre ++ frames left) rest) + length (frame payload)
  length-last-push pre left [] = omega (
    arith,
    length-append pre (frames (left ++ (payload ∷ []))),
    length-append pre (frames left),
    length-frames-push left,
  )
  length-last-push pre left ((id, ps) ∷ rest) = length-last-push [] ps rest

  pub total-push :
      (left : List Bytes) (rest : Logs)
      → length (frames (push_left left rest)) + total_segment_bytes (stored (push_rest rest))
        ≡ length (frames left) + total_segment_bytes (stored rest) + length (frame payload)
  unfolding total_segment_bytes
  total-push left [] = omega (arith, length-frames-push left)
  total-push left ((id, ps) ∷ rest) = omega (arith, total-push ps rest)

  pub push-payloads :
      IsPayload payload
      → (ps : List Bytes) → All IsPayload ps
      → All IsPayload (ps ++ (payload ∷ []))
  push-payloads fits [] h = (fits, tt)
  push-payloads fits (p ∷ ps) h = (h.0, push-payloads fits ps h.1)

pub last-le :
    (content : Bytes) (rest : Logs)
    → length (last_content content rest) ≤ length content + total_segment_bytes (stored rest)
unfolding total_segment_bytes
last-le content [] = omega arith
last-le content ((id, ps) ∷ rest) = omega (arith, last-le (frames ps) rest)
