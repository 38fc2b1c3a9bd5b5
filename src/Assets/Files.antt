-- ===== src/Assets/Files.antt =====
-- The folder of the build and the line ends of a checkout (tools/web-terminal/build.mjs and
-- tools/web-terminal/test-terminal-policy.mjs).
use harmotty.Prelude.{
  ℕ, ◌≡◌, refl, ◌∙◌, ap, none, some, inl, inr, Bool, true, false, ◌&&◌, [], ◌∷◌, arith, Text,
  eq_text, ◌==◌, if◌then◌else◌, Bool-cases,
}
use harmotty.Prelude.Dict.{lookup-set_key}
use harmotty.Assets.Build.{Bytes, Folder, read_file, write_file}
use harmotty.Assets.Check.{unix_lines}

pub read_file-write_file :
    (name other : Text) (bytes : Bytes) (folder : Folder)
    → read_file (write_file name bytes folder) other
      ≡ (if eq_text name other then bytes else read_file folder other)
read_file-write_file name other bytes folder =
    ap (λ found. elim found as (λ _. Bytes) [ none ↦ [] | some b ↦ b ])
      (lookup-set_key name other bytes folder)
    ∙ elim (Bool-cases (eq_text name other)) [ inl e ↦ rw e refl | inr e ↦ rw e refl ]

-- A checkout of a text: as it is, or with line ends as on Windows.
unfoldable pub windows_lines : Text → Text
windows_lines [] = []
windows_lines (c ∷ s) = let rest = windows_lines s in if c == 10 then 13 ∷ 10 ∷ rest else c ∷ rest

abbrev pub checked_out : Bool → Text → Text
checked_out true text = windows_lines text
checked_out false text = text

-- No line ends as on Windows.
unfoldable pub has_crlf : Text → Bool
has_crlf [] = false
has_crlf (c ∷ []) = false
has_crlf (c ∷ d ∷ s) = if c == 13 && d == 10 then true else has_crlf (d ∷ s)

unix_lines_kept : (text : Text) → has_crlf text ≡ false → unix_lines text ≡ text
unfolding has_crlf unix_lines
unix_lines_kept [] h = refl
unix_lines_kept (c ∷ []) h = refl
unix_lines_kept (c ∷ d ∷ s) h = elim (Bool-cases (c == 13 && d == 10)) [
  | inl e ↦ absurd (let g = rw e at h in cc)
  | inr e ↦ rw (e, unix_lines_kept (d ∷ s) (rw e at h)) refl
]

unix_lines-next :
    (c : ℕ) (s : Text) → unix_lines (c ∷ windows_lines s) ≡ c ∷ unix_lines (windows_lines s)
unfolding unix_lines windows_lines
unix_lines-next c [] = refl
unix_lines-next c (d ∷ s) = elim (Bool-cases (d == 10)) [
  | inl e ↦ let stays : (c == 13 && 13 == 10) ≡ false = ground arith in rw (e, stays) refl
  | inr e ↦ let stays : (c == 13 && d == 10) ≡ false = ground arith in rw (e, stays) refl
]

unix_lines_crlf : (s : Text) → unix_lines (13 ∷ 10 ∷ s) ≡ 10 ∷ unix_lines s
unfolding unix_lines
unix_lines_crlf s = refl

unix_lines-windows_lines : (text : Text) → unix_lines (windows_lines text) ≡ text
unfolding windows_lines
unix_lines-windows_lines [] = unix_lines_kept [] (unfold has_crlf in refl)
unix_lines-windows_lines (c ∷ s) = elim (Bool-cases (c == 10)) [
  | inl e ↦
      let ten : c ≡ 10 = ground arith in
      rw ten (unix_lines_crlf (windows_lines s) ∙ ap (λ t. 10 ∷ t) (unix_lines-windows_lines s))
  | inr e ↦ rw (e, unix_lines-next c s, unix_lines-windows_lines s) refl
]

pub unix_lines-checked_out :
    (windows : Bool) (text : Text)
    → has_crlf text ≡ false
    → unix_lines (checked_out windows text) ≡ text
unix_lines-checked_out true text h = unix_lines-windows_lines text
unix_lines-checked_out false text h = unix_lines_kept text h
