-- ===== src/Xml/EscapeReads.antt =====
-- What an XML reader makes of escaped text (src/xml.rs).
use onedrive_davfs.Base.{
  ℕ, ◌≡◌, ◌≢◌, refl, Option, none, some, [], ◌∷◌, ◌++◌, Bytes, codes, arith, All, All-append, ◌==◌,
  Bool-cases, inl, inr, true, false, subst, sym, ==_iff,
}
use onedrive_davfs.Base.Str.{strip_prefix}
use onedrive_davfs.Xml.Escape.{escape_char, xml_escape}

-- A byte that can stand in element content and in a quoted attribute value.
abbrev pub IsPlain : ℕ → Type 0
IsPlain c = (c ≢ b'<') × (c ≢ b'>') × (c ≢ b'"') × (c ≢ 39)

escape_char-IsPlain : (c : ℕ) → All IsPlain (escape_char c)
unfolding escape_char
escape_char-IsPlain c = ground arith

-- A reader of character data: it resolves the five predefined entities, and refuses any other `&`.
abbrev pub entity : ℕ → Bytes → Option (ℕ × Bytes)
entity c s = elim (c == b'&') [
  | false ↦ some (c, s)
  | true ↦ elim (strip_prefix s (codes "amp;")) [
    | some r ↦ some (b'&', r)
    | none ↦ elim (strip_prefix s (codes "lt;")) [
      | some r ↦ some (b'<', r)
      | none ↦ elim (strip_prefix s (codes "gt;")) [
        | some r ↦ some (b'>', r)
        | none ↦ elim (strip_prefix s (codes "quot;")) [
          | some r ↦ some (b'"', r)
          | none ↦ elim (strip_prefix s (codes "apos;")) [ some r ↦ some (39, r) | none ↦ none ]
        ]
      ]
    ]
  ]
]

-- `Reads s t`: the reader turns `s` into `t`.
pub data Reads : Bytes → Bytes → Type 0 where
  done : Reads [] []
  read : {c d : ℕ} {s r t : Bytes} → entity c s ≡ some (d, r) → Reads r t → Reads (c ∷ s) (d ∷ t)

escape_char-Reads : (c : ℕ) (s t : Bytes) → Reads s t → Reads (escape_char c ++ s) (c ∷ t)
unfolding escape_char strip_prefix
escape_char-Reads c s t h = elim (Bool-cases (c == b'&')) [
  | inl e ↦ at b'&' e (read refl h)
  | inr n₁ ↦ elim (Bool-cases (c == b'<')) [
    | inl e ↦ at b'<' e (read refl h)
    | inr n₂ ↦ elim (Bool-cases (c == b'>')) [
      | inl e ↦ at b'>' e (read refl h)
      | inr n₃ ↦ elim (Bool-cases (c == b'"')) [
        | inl e ↦ at b'"' e (read refl h)
        | inr n₄ ↦ elim (Bool-cases (c == 39)) [
          | inl e ↦ at 39 e (read refl h)
          | inr n₅ ↦ rw (n₁, n₂, n₃, n₄, n₅) (read (rw (n₁, entity)) h)
        ]
      ]
    ]
  ]
]
  where
    at :
        (k : ℕ)
        → (c == k) ≡ true
        → Reads (escape_char k ++ s) (k ∷ t)
        → Reads (escape_char c ++ s) (c ∷ t)
    at k e r = subst (λ x. Reads (escape_char x ++ s) (x ∷ t)) (sym ((==_iff c k).0 e)) r

-- Whatever the text, its escaped form has none of `<`, `>`, `"` and `'`, and reads back as the text.
pub xml_escape-Reads : (s : Bytes) → All IsPlain (xml_escape s) × Reads (xml_escape s) s
unfolding xml_escape
xml_escape-Reads [] = (tt, done)
xml_escape-Reads (c ∷ s) =
    let (plain, reads) = xml_escape-Reads s in
    (
      All-append IsPlain (escape_char c) (xml_escape s) (escape_char-IsPlain c) plain,
      escape_char-Reads c (xml_escape s) s reads,
    )
