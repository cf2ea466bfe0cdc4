-- ===== src/Agent/ControlClient/Escape.antt =====
-- Text put into a JSON string, and read back.
use mathlib.Core.List.{append_assoc}
use telemetry_fabric.Prelude.{
  ℕ, ◌≤◌, ◌<◌, ◌≡◌, ◌⊎◌, ◌↔◌, ◌∙◌, ◌||◌, ap, refl, sym, ltb, All, [], ◌∷◌, ◌++◌, Option, none, some,
  ◌==◌, if◌then◌else◌, true, false, Bool-cases, inl, inr, arith,
}
use telemetry_fabric.Std.Bytes.{Bytes}
use telemetry_fabric.Agent.ControlClient.{replace, json_escape}

replace-append :
    (c : ℕ) (new s t : Bytes) → replace c new (s ++ t) ≡ replace c new s ++ replace c new t
unfolding replace
replace-append c new [] t = refl
replace-append c new (b ∷ s) t =
    rw (replace-append c new s t)
      (sym (append_assoc (if b == c then new else b ∷ []) (replace c new s) (replace c new t)))

json_escape-append : (s t : Bytes) → json_escape (s ++ t) ≡ json_escape s ++ json_escape t
unfolding json_escape
json_escape-append s t = simp replace-append

-- The escape of one character, by RFC 8259.
escape_of : ℕ → Bytes
escape_of b =
    if b == 92
    then 92 ∷ 92 ∷ []
    else if b == 34
    then 92 ∷ 34 ∷ []
    else if b == 10
    then 92 ∷ 110 ∷ []
    else if b == 13
    then 92 ∷ 114 ∷ []
    else if b == 9
    then 92 ∷ 116 ∷ []
    else b ∷ []

json_escape-single : (b : ℕ) → json_escape (b ∷ []) ≡ escape_of b
unfolding json_escape replace escape_of
json_escape-single b = ground arith

-- What a reader of JSON makes of the character behind a backslash, but for `u`, which it refuses.
unescaped : ℕ → Option ℕ
unescaped c =
    if c == 92
    then some 92
    else if c == 34
    then some 34
    else if c == 47
    then some 47
    else if c == 98
    then some 8
    else if c == 102
    then some 12
    else if c == 110
    then some 10
    else if c == 114
    then some 13
    else if c == 116
    then some 9
    else none

abbrev onto : Option ℕ → Option Bytes → Option Bytes
onto none s = none
onto (some b) none = none
onto (some b) (some s) = some (b ∷ s)

-- What may stand in a JSON string as it is: no quote, no backslash and no control character.
plain : ℕ → Option ℕ
plain b = if ltb b 32 then none else if b == 34 then none else if b == 92 then none else some b

-- The content of a JSON string up to its end, by RFC 8259, section 7.
unfoldable pub read_string_body : Bytes → Option Bytes
unfolding unescaped plain
read_string_body [] = some []
read_string_body (b ∷ []) = onto (plain b) (some [])
read_string_body (b ∷ c ∷ s) = elim (b == 92) [
  | true ↦ onto (unescaped c) (read_string_body s)
  | false ↦ onto (plain b) (read_string_body (c ∷ s))
]

-- A character that `json_escape` has an escape for, or that needs none.
abbrev pub IsEscapable : ℕ → Type 0
IsEscapable b = (32 ≤ b) ⊎ (b ≡ 10) ⊎ (b ≡ 13) ⊎ (b ≡ 9)

read_plain :
    (b : ℕ) (s : Bytes)
    → plain b ≡ some b
    → (b == 92) ≡ false
    → read_string_body (b ∷ s) ≡ onto (some b) (read_string_body s)
unfolding read_string_body
read_plain b [] h n = rw h refl
read_plain b (c ∷ s) h n = rw (n, read_string_body) (rw h refl)

read_pair :
    (b c : ℕ) (s : Bytes)
    → unescaped c ≡ some b
    → read_string_body (92 ∷ c ∷ s) ≡ onto (some b) (read_string_body s)
unfolding read_string_body
read_pair b c s h = rw h refl

read_escape :
    (b : ℕ) (s : Bytes)
    → IsEscapable b
    → read_string_body (escape_of b ++ s) ≡ onto (some b) (read_string_body s)
unfolding escape_of unescaped plain
read_escape b s k = elim (Bool-cases (b == 92)) [
  | inl e ↦ rw e (read_pair b 92 s (ground arith))
  | inr n92 ↦ elim (Bool-cases (b == 34)) [
    | inl e ↦ rw (n92, e) (read_pair b 34 s (ground arith))
    | inr n34 ↦ elim (Bool-cases (b == 10)) [
      | inl e ↦ rw (n92, n34, e) (read_pair b 110 s (ground arith))
      | inr n10 ↦ elim (Bool-cases (b == 13)) [
        | inl e ↦ rw (n92, n34, n10, e) (read_pair b 114 s (ground arith))
        | inr n13 ↦ elim (Bool-cases (b == 9)) [
          | inl e ↦ rw (n92, n34, n10, n13, e) (read_pair b 116 s (ground arith))
          | inr n9 ↦ rw (n92, n34, n10, n13, n9) (read_plain b s (ground arith) n92)
        ]
      ]
    ]
  ]
]

-- A control character that has no escape is put into the string bare, and no reader takes it.
read_bare :
    (b : ℕ) (s : Bytes) → b < 32 → ¬ IsEscapable b → read_string_body (escape_of b ++ s) ≡ none
unfolding escape_of read_string_body plain
read_bare b [] h n = ground (arith, n)
read_bare b (c ∷ s) h n = ground (arith, n)

IsEscapable-cases : (b : ℕ) → IsEscapable b ⊎ ((b < 32) × ¬ IsEscapable b)
IsEscapable-cases b = elim (Bool-cases (ltb b 32)) [
  | inr h ↦ inl (inl (ground arith))
  | inl h ↦ elim (Bool-cases (b == 10 || b == 13 || b == 9)) [
    | inl e ↦ inl (inr (ground arith))
    | inr n ↦ inr (ground arith, λ k. ground arith)
  ]
]

json_escape-cons : (b : ℕ) (s : Bytes) → json_escape (b ∷ s) ≡ escape_of b ++ json_escape s
json_escape-cons b s = rw (json_escape-append (b ∷ []) s, json_escape-single b) refl

onto-eq-some : (b : ℕ) (s : Bytes) (o : Option Bytes) → onto (some b) o ≡ some (b ∷ s) → o ≡ some s
onto-eq-some b s none h = cc
onto-eq-some b s (some t) h = cc

escaped : (s : Bytes) → All IsEscapable s → read_string_body (json_escape s) ≡ some s
escaped [] h = unfold json_escape replace read_string_body in refl
escaped (b ∷ s) h = rw (json_escape-cons b s, read_escape b (json_escape s) h.0, escaped s h.1) refl

All-IsEscapable : (s : Bytes) → read_string_body (json_escape s) ≡ some s → All IsEscapable s
All-IsEscapable [] h = tt
All-IsEscapable (b ∷ s) h = elim (IsEscapable-cases b) [
  | inl k ↦ (
    k,
    All-IsEscapable s (
        onto-eq-some b s (read_string_body (json_escape s)) (
          sym (read_escape b (json_escape s) k)
          ∙ ap read_string_body (sym (json_escape-cons b s))
          ∙ h)),
  )
  | inr (l, n) ↦
      let lost : read_string_body (json_escape (b ∷ s)) ≡ none =
        ap read_string_body (json_escape-cons b s) ∙ read_bare b (json_escape s) l n in
      cc
]

-- A text that is escaped for a JSON string is read back, by a reader that takes nothing that RFC 8259
-- does not allow there, exactly when it has no control character but newline, carriage return and tab.
pub read_string_body-json_escape :
    (s : Bytes) → (read_string_body (json_escape s) ≡ some s) ↔ All IsEscapable s
read_string_body-json_escape s = (All-IsEscapable s, escaped s)
