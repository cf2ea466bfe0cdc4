-- ===== src/Agent/ControlClient/Compare.antt =====
-- The comparison in constant time, and the sizes of padding and digest.
use telemetry_fabric.Prelude.{
  ℕ, zero, suc, ◌+◌, ◌-◌, ◌*◌, ◌%◌, ◌^◌, ◌≤◌, ◌<◌, ◌≡◌, ◌↔◌, ap, refl, [], ◌∷◌, ◌++◌, true, ◌==◌,
  ==_iff, length, length-append, Bool-cases, inl, inr, arith,
}
use Prim.Native.Nat.{bit_or, bit_xor}
use telemetry_fabric.Std.Bytes.{Bytes}
use telemetry_fabric.Std.Bits.{bit_xor-eq_zero, bit_xor_self, bit_or-eq_zero}
use telemetry_fabric.Agent.ControlClient.Sha256.{
  differences, constant_time_equal, zeros, padded, be_bytes,
}

differences-eq_zero :
    (acc : ℕ) (left right : Bytes)
    → length left ≡ length right
    → differences acc left right ≡ 0
    → (acc ≡ 0) × (left ≡ right)
unfolding differences
differences-eq_zero acc [] [] l h = (h, refl)
differences-eq_zero acc [] (r ∷ right) l h = absurd (omega arith)
differences-eq_zero acc (a ∷ left) [] l h = absurd (omega arith)
differences-eq_zero acc (a ∷ left) (r ∷ right) l h =
    let (now, rest) = differences-eq_zero (bit_or acc (bit_xor a r)) left right (omega arith) h in
    let (before, here) = bit_or-eq_zero acc (bit_xor a r) now in
    let head : a ≡ r = bit_xor-eq_zero a r here in (before, cc)

differences_self : (s : Bytes) → differences 0 s s ≡ 0
unfolding differences
differences_self [] = refl
differences_self (b ∷ s) = rw (bit_xor_self b) (differences_self s)

-- The comparison that does not stop at a difference holds exactly for equal byte strings.
pub constant_time_equal_iff :
    (left right : Bytes) → (constant_time_equal left right ≡ true) ↔ (left ≡ right)
unfolding constant_time_equal
constant_time_equal_iff left right = (
  λ h. elim (Bool-cases (length left == length right)) [
    | inl e ↦ (differences-eq_zero 0 left right ((==_iff _ _).0 e) ((==_iff _ _).0 (rw e at h))).1
    | inr e ↦ let h' = rw e at h in cc
  ],
  λ e. rw (e, differences_self right) (ground arith),
)

length-be_bytes : (k v : ℕ) → length (be_bytes k v) ≡ k
unfolding be_bytes
length-be_bytes zero v = refl
length-be_bytes (suc k) v = ap suc (length-be_bytes k v)

zeros-count :
    (fuel size : ℕ)
    → (120 - size % 64) % 64 < fuel
    → length (zeros fuel size) ≡ (120 - size % 64) % 64
unfolding zeros
zeros-count zero size h = absurd (omega arith)
zeros-count (suc fuel) size h = elim (Bool-cases (size % 64 == 56)) [
  | inl e ↦ rw (e, zeros) (ground arith)
  | inr e ↦ rw (e, zeros) (ground (arith, zeros-count fuel (size + 1) (ground arith)))
]

-- The padding fills the last block of 64 bytes, whatever the message, and adds nine bytes or more and
-- 72 at most.
pub padded-blocks :
    (s : Bytes)
    → (length (padded s) % 64 ≡ 0)
      × (length s + 9 ≤ length (padded s))
      × (length (padded s) ≤ length s + 72)
unfolding padded
padded-blocks s =
    let tail : Bytes = zeros 64 (length s + 1) ++ be_bytes 8 (length s * 8 % 2 ^ 64) in
    let full : length (padded s) ≡ length s + suc (length tail) =
      unfold padded in length-append s (0x80 ∷ tail) in
    let size : length tail ≡ length (zeros 64 (length s + 1)) + 8 =
      length-append (zeros 64 (length s + 1)) (be_bytes 8 (length s * 8 % 2 ^ 64)) in
    let count : length (zeros 64 (length s + 1)) ≡ (120 - (length s + 1) % 64) % 64 =
      zeros-count 64 (length s + 1) (omega arith) in
    (omega arith, omega arith, omega arith)
