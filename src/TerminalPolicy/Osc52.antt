-- ===== src/TerminalPolicy/Osc52.antt =====
-- `decodeOsc52` of terminal-policy.js: which clipboard writes a terminal program may make.
-- `TextDecoder('utf-8', { fatal: true })` belongs to the browser and is the parameter
-- `decode_utf8`, with `none` where it throws.
use harmotty.Prelude.{
  ℕ, suc, ◌+◌, ◌*◌, ◌/◌, ◌%◌, ◌≤◌, ◌≡◌, refl, sym, ap, ◌∙◌, ◌⊎◌, inl, inr, Bool, true, false, not,
  ◌||◌, Option, none, some, [], ◌∷◌, ◌++◌, arith, Text, codes, eq_text, eq_text→eq, eq_text_ne,
  drop-append_cons, index_of, substring, ltb, ◌==◌, if◌then◌else◌, length, length-append,
  index_of-eq-some, index_of-lt, index_of-append, substring-prefix, substring-suffix, take-append,
  Option-cases,
}
use harmotty.TerminalPolicy.Base64.{
  is_base64, atob, btoa, Bytes, is_base64-btoa, atob-btoa, length-btoa,
}

abbrev pub max_clipboard_bytes : ℕ
max_clipboard_bytes = 1024 * 1024

-- `Math.ceil(MAX_CLIPBOARD_BYTES / 3) * 4`
abbrev pub max_clipboard_base64_length : ℕ
max_clipboard_base64_length = (max_clipboard_bytes + 2) / 3 * 4

pub data Reason : Type 0 where
  ok invalid_payload missing_separator unsupported_target read_not_supported : Reason
  encoded_too_large invalid_base64 decoded_too_large invalid_utf8 : Reason

pub record Osc52Result : Type 0 where
  pub accepted : Bool
  pub text : Text
  pub reason : Reason
  pub byte_length : ℕ

abbrev pub reject_osc52 : Reason → Osc52Result
reject_osc52 reason = record { accepted = false; text = []; reason = reason; byte_length = 0 }

abbrev is_supported_target : Text → Bool
is_supported_target target = eq_text target [] || eq_text target (codes "c")

module _ (decode_utf8 : Text → Option Text) where
  decode_bytes : Text → Osc52Result
  decode_bytes bytes =
      if ltb max_clipboard_bytes (length bytes)
      then reject_osc52 decoded_too_large
      else elim (decode_utf8 bytes) [
        | none ↦ reject_osc52 invalid_utf8
        | some text ↦ record {
          accepted = true;
          text = text;
          reason = ok;
          byte_length = length bytes;
        }
      ]

  decode_selection : Text → Text → Osc52Result
  decode_selection target encoded =
      if not (is_supported_target target)
      then reject_osc52 unsupported_target
      else if eq_text encoded (codes "?")
      then reject_osc52 read_not_supported
      else if ltb max_clipboard_base64_length (length encoded)
      then reject_osc52 encoded_too_large
      else if length encoded % 4 == 1 || not (is_base64 encoded)
      then reject_osc52 invalid_base64
      else decode_bytes (atob encoded)

  -- `none` is a payload that is not a string.
  unfoldable pub decode_osc52 : Option Text → Osc52Result
  unfolding decode_selection decode_bytes
  decode_osc52 none = reject_osc52 invalid_payload
  decode_osc52 (some payload) = elim (index_of b';' payload) [
    | none ↦ reject_osc52 missing_separator
    | some separator ↦
        decode_selection (substring payload 0 separator)
          (substring payload (suc separator) (length payload))
  ]

-- A payload that names the clipboard and encodes a text that the decoder gives back.
pub record IsClipboardWrite (decode_utf8 : Text → Option Text) (payload : Text) (r : Osc52Result)
    : Type 0 where
  pub target : Text
  pub encoded : Text
  pub split : payload ≡ target ++ b';' ∷ encoded
  pub clipboard : (target ≡ []) ⊎ (target ≡ codes "c")
  pub well_formed : is_base64 encoded ≡ true
  pub decoded : decode_utf8 (atob encoded) ≡ some r.text
  pub counted : r.byte_length ≡ length (atob encoded)
  pub bounded : r.byte_length ≤ max_clipboard_bytes

module _ (decode_utf8 : Text → Option Text) where
  module _ (target encoded : Text)
      (h : (decode_selection decode_utf8 target encoded).accepted ≡ true) where
    accepted-target : (target ≡ []) ⊎ (target ≡ codes "c")
    unfolding decode_selection
    accepted-target = ground (arith, eq_text→eq target [], eq_text→eq target (codes "c"))

    accepted-well_formed : is_base64 encoded ≡ true
    unfolding decode_selection
    accepted-well_formed = ground arith

    accepted-bytes :
        decode_selection decode_utf8 target encoded ≡ decode_bytes decode_utf8 (atob encoded)
    unfolding decode_selection
    accepted-bytes = ground arith

  decode_bytes-accepted :
      (bytes : Text)
      → (decode_bytes decode_utf8 bytes).accepted ≡ true
      → (decode_utf8 bytes ≡ some (decode_bytes decode_utf8 bytes).text)
        × ((decode_bytes decode_utf8 bytes).byte_length ≡ length bytes)
        × (length bytes ≤ max_clipboard_bytes)
  unfolding decode_bytes
  decode_bytes-accepted bytes h = ground arith

  selection_sound :
      (payload target encoded : Text)
      → payload ≡ target ++ b';' ∷ encoded
      → (decode_selection decode_utf8 target encoded).accepted ≡ true
      → IsClipboardWrite decode_utf8 payload (decode_selection decode_utf8 target encoded)
  selection_sound payload target encoded e h =
      let same = accepted-bytes target encoded h in
      let (found, counted, bounded) =
        decode_bytes-accepted (atob encoded) (ap (λ r. r.accepted) (sym same) ∙ h) in
      record {
        target = target;
        encoded = encoded;
        split = e;
        clipboard = accepted-target target encoded h;
        well_formed = accepted-well_formed target encoded h;
        decoded = rw same found;
        counted = rw same counted;
        bounded = rw same (omega (arith, bounded, counted));
      }

  split_at :
      (payload : Text) (i : ℕ)
      → index_of b';' payload ≡ some i
      → payload ≡ substring payload 0 i ++ b';' ∷ substring payload (suc i) (length payload)
  split_at payload i e =
      rw
        (
          substring-prefix payload i,
          substring-suffix payload (suc i) (index_of-lt b';' payload i e),
        )
        (index_of-eq-some b';' payload i e)

  -- A payload is accepted only if it is a write to the clipboard in well-formed base64 of at most
  -- 1 MiB, whose bytes decode to the text of the result.
  pub decode_osc52_sound :
      (payload : Text)
      → (decode_osc52 decode_utf8 (some payload)).accepted ≡ true
      → IsClipboardWrite decode_utf8 payload (decode_osc52 decode_utf8 (some payload))
  unfolding decode_osc52
  decode_osc52_sound payload h = elim (Option-cases (index_of b';' payload)) [
    | inl e ↦ absurd (ground arith)
    | inr (i, e) ↦
        rw (e, decode_osc52) (selection_sound payload _ _ (split_at payload i e) (ground arith))
  ]

  supported :
      (target : Text) → (target ≡ []) ⊎ (target ≡ codes "c") → is_supported_target target ≡ true
  supported target (inl e) = rw e refl
  supported target (inr e) = rw e refl

  no_separator :
      (target : Text) → (target ≡ []) ⊎ (target ≡ codes "c") → index_of b';' target ≡ none
  unfolding index_of
  no_separator target (inl e) = rw e refl
  no_separator target (inr e) = rw e refl

  module _ (bytes : Text) where
    not_query : eq_text (btoa bytes) (codes "?") ≡ false
    not_query =
        eq_text_ne (btoa bytes) (codes "?") λ e. omega (arith, length-btoa bytes, ap length e)

    size_ok :
        length bytes ≤ max_clipboard_bytes
        → ltb max_clipboard_base64_length (length (btoa bytes)) ≡ false
    size_ok small = ground (arith, length-btoa bytes)

    no_remainder : (length (btoa bytes) % 4 == 1) ≡ false
    no_remainder = ground (arith, length-btoa bytes)

  decode_bytes-small :
      (bytes text : Text)
      → length bytes ≤ max_clipboard_bytes
      → decode_utf8 bytes ≡ some text
      → decode_bytes decode_utf8 bytes
        ≡ record { accepted = true; text = text; reason = ok; byte_length = length bytes }
  unfolding decode_bytes
  decode_bytes-small bytes text small d = ground arith

  decode_at :
      (payload : Text) (i : ℕ)
      → index_of b';' payload ≡ some i
      → decode_osc52 decode_utf8 (some payload)
        ≡ decode_selection decode_utf8
            (substring payload 0 i)
            (substring payload (suc i) (length payload))
  unfolding decode_osc52
  decode_at payload i e = rw (e, decode_osc52) refl

  selection-btoa :
      (target bytes text : Text)
      → (target ≡ []) ⊎ (target ≡ codes "c")
      → Bytes bytes
      → length bytes ≤ max_clipboard_bytes
      → decode_utf8 bytes ≡ some text
      → decode_selection decode_utf8 target (btoa bytes)
        ≡ record { accepted = true; text = text; reason = ok; byte_length = length bytes }
  unfolding decode_selection
  selection-btoa target bytes text t b small d =
      rw
        (
          supported target t,
          not_query bytes,
          size_ok bytes small,
          no_remainder bytes,
          is_base64-btoa bytes b,
          atob-btoa bytes b,
        )
        (decode_bytes-small bytes text small d)

  after_separator :
      (target encoded : Text)
      → substring
          (target ++ b';' ∷ encoded)
          (suc (length target))
          (length (target ++ b';' ∷ encoded))
        ≡ encoded
  after_separator target encoded =
      substring-suffix _ _ (omega (arith, length-append {0} target (b';' ∷ encoded)))
      ∙ drop-append_cons target b';' encoded

  -- Every clipboard write that an encoder makes of at most 1 MiB of valid UTF-8 is accepted, with
  -- the text and the number of its bytes.
  pub decode_osc52-btoa :
      (target bytes text : Text)
      → (target ≡ []) ⊎ (target ≡ codes "c")
      → Bytes bytes
      → length bytes ≤ max_clipboard_bytes
      → decode_utf8 bytes ≡ some text
      → decode_osc52 decode_utf8 (some (target ++ b';' ∷ btoa bytes))
        ≡ record { accepted = true; text = text; reason = ok; byte_length = length bytes }
  decode_osc52-btoa target bytes text t b small d =
      let sep = index_of-append b';' target (btoa bytes) (no_separator target t) in
      rw (decode_at _ _ sep, substring-prefix, take-append, after_separator target (btoa bytes))
        (selection-btoa target bytes text t b small d)
