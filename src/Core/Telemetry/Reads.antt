-- ===== src/Core/Telemetry/Reads.antt =====
-- Rules for reads: a read that takes exactly the front of what is left of the input.
use telemetry_fabric.Prelude.{
  ℕ, ◌+◌, ◌≤◌, ◌≡◌, refl, sym, ap, ◌∙◌, [], ◌++◌, arith, length, take, drop, length-append,
  take-append, drop-append, drop-drop,
}
use telemetry_fabric.Prelude.Words.{usize_max}
use telemetry_fabric.Prelude.Result.{Result, ok}
use telemetry_fabric.Std.Bytes.{Bytes}
use telemetry_fabric.Core.Error.{TelemetryError}
use telemetry_fabric.Core.Telemetry.Input.{Cursor, Reader, ◌>>=◌, lift_step, read_exact}
use mathlib.Core.List.{append_assoc}

abbrev pub cursor : Bytes → ℕ → Cursor
cursor input o = record { input = input; offset = o }

-- At offset `o` the text `rest` is what is left of the input.
pub record At (input : Bytes) (o : ℕ) (rest : Bytes) : Type 0 where
  pub here : drop o input ≡ rest
  pub total : o + length rest ≡ length input

pub At-step :
    (input : Bytes) (o : ℕ) (front rest : Bytes)
    → At input o (front ++ rest)
    → At input (o + length front) rest
At-step input o front rest h = record {
  here =
      sym (drop-drop (length front) o (o + length front) input refl)
      ∙ ap (λ (s : Bytes). drop (length front) s) h.here
      ∙ drop-append front rest;
  total = omega (arith, h.total, length-append front rest);
}

-- `m` takes `front` off the input and returns `a`.
pub record Reads {A : Type 0} (m : Reader A) (front : Bytes) (a : A) : Type 0 where
  pub reads :
      (input : Bytes) (o : ℕ) (rest : Bytes)
      → At input o (front ++ rest)
      → length input ≤ usize_max
      → m (cursor input o) ≡ ok (a, cursor input (o + length front))

-- `m` takes all that is left, `front`, and returns `a`.
pub record ReadsAll {A : Type 0} (m : Reader A) (front : Bytes) (a : A) : Type 0 where
  pub reads_all :
      (input : Bytes) (o : ℕ)
      → At input o front
      → length input ≤ usize_max
      → m (cursor input o) ≡ ok (a, cursor input (o + length front))

pub Reads-bind :
    {A B : Type 0} {m : Reader A} (k : A → Reader B) {f g : Bytes} (a : A) {b : B}
    → Reads m f a
    → Reads (k a) g b
    → Reads (m >>= k) (f ++ g) b
Reads-bind k {f} {g} a {b} hm hk = record {
  reads = λ input o rest at fits.
      let at' : At input o (f ++ (g ++ rest)) = rw append_assoc at at in
      rw (hm.reads input o (g ++ rest) at' fits) (
        hk.reads input (o + length f) rest (At-step input o f (g ++ rest) at') fits
        ∙ ap (λ (n : ℕ). ok (b, cursor input n)) (omega (arith, length-append f g)));
}

pub ReadsAll-bind :
    {A B : Type 0} {m : Reader A} (k : A → Reader B) {f g : Bytes} (a : A) {b : B}
    → Reads m f a
    → ReadsAll (k a) g b
    → ReadsAll (m >>= k) (f ++ g) b
ReadsAll-bind k {f} {g} a {b} hm hk = record {
  reads_all = λ input o at fits. rw (hm.reads input o g at fits) (
      hk.reads_all input (o + length f) (At-step input o f g at) fits
      ∙ ap (λ (n : ℕ). ok (b, cursor input n)) (omega (arith, length-append f g)));
}

-- A step that reads nothing.
pub Reads-lift :
    {A : Type 0} {r : Result TelemetryError A} (a : A) → r ≡ ok a → Reads (lift_step r) [] a
Reads-lift a e = record {
  reads = λ input o rest at fits. rw e (ap (λ (n : ℕ). ok (a, cursor input n)) (omega arith));
}

pub Reads-read_exact : (n : ℕ) (front : Bytes) → length front ≡ n → Reads (read_exact n) front front
unfolding read_exact
Reads-read_exact n front e = record {
  reads = λ input o rest at fits.
      let bound : o + n ≤ length input = omega (arith, at.total, length-append front rest) in
      let slice : take n (drop o input) ≡ front = rw (at.here, ← e) (take-append front rest) in
      ground (arith, bound, slice);
}

-- A step on what a read returned, which reads nothing itself.
pub Reads-then_lift :
    {A B : Type 0} {m : Reader A} (r : A → Result TelemetryError B) {f : Bytes} (a : A) {b : B}
    → Reads m f a
    → r a ≡ ok b
    → Reads (m >>= λ a. lift_step (r a)) f b
Reads-then_lift r a hm e = record {
  reads = λ input o rest at fits. rw (hm.reads input o rest at fits, e);
}
