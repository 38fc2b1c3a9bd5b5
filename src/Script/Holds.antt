-- ===== src/Script/Holds.antt =====
-- Assertions of tools/web-terminal/test-terminal-policy.mjs, for floods of every length and every
-- codec.
use harmotty.Prelude.{
  ℕ, zero, suc, ◌+◌, ◌≤◌, ◌≡◌, refl, inl, inr, true, false, Option, some, List, [], ◌∷◌, ◌++◌,
  arith, Text, codes, eq_text, eq_text_refl, eq_text_ne, ltb→lt, lt→ltb, ap, ltb, length, all, All,
  index_of, substring, substring-prefix, substring-suffix,
}
use harmotty.TerminalPolicy.Base64.{btoa, is_base64, Bytes}
use harmotty.TerminalPolicy.Osc52.{
  read_not_supported, unsupported_target, invalid_base64, encoded_too_large, reject_osc52,
  decode_osc52, decode_osc52-btoa, max_clipboard_bytes, max_clipboard_base64_length,
}
use harmotty.TerminalPolicy.Bell.{
  BellGate, create_bell_attention_gate, trigger, acknowledge, rearm_delivery, is_pending,
}
use harmotty.Script.Policies.{
  repeat, clipboard_texts, is_accepted, is_refused, check_clipboard, ring_bells, check_bell,
}

abbrev waiting : BellGate
waiting = record { delivery_pending = true; acknowledgement_pending = true }

ring_bells-waiting : (n count : ℕ) → ring_bells n waiting count ≡ (count, waiting)
unfolding ring_bells trigger
ring_bells-waiting zero count = refl
ring_bells-waiting (suc n) count = ring_bells-waiting n count

ring_bells-fresh : (n : ℕ) → ring_bells (suc n) create_bell_attention_gate 0 ≡ (1, waiting)
unfolding ring_bells trigger
ring_bells-fresh n = ring_bells-waiting n 1

-- The assertions on the bell hold after a flood of any number of bells but 0: one is delivered, and
-- the gate can be armed again and acknowledged once.
pub check_bell_lem : (n : ℕ) → check_bell (suc n) ≡ true
unfolding check_bell trigger acknowledge rearm_delivery is_pending
check_bell_lem n = rw (ring_bells-fresh n) refl

-- The codec gives a text back, in bytes, and in at most 1 MiB.
abbrev pub IsCoded : (Text → Text) → (Text → Option Text) → Text → Type 0
IsCoded encode_utf8 decode_utf8 text =
    (decode_utf8 (encode_utf8 text) ≡ some text)
    × Bytes (encode_utf8 text)
    × (length (encode_utf8 text) ≤ max_clipboard_bytes)

length-repeat : (n c : ℕ) → length (repeat n c) ≡ n
unfolding repeat
length-repeat zero c = refl
length-repeat (suc n) c = omega (arith, length-repeat n c)

module _ (encode_utf8 : Text → Text) (decode_utf8 : Text → Option Text) where
  accepted_with_c :
      (text : Text)
      → IsCoded encode_utf8 decode_utf8 text
      → is_accepted encode_utf8 decode_utf8 (codes "c" ++ b';' ∷ btoa (encode_utf8 text)) text
        ≡ true
  accepted_with_c text (d, b, small) =
      rw (decode_osc52-btoa decode_utf8 (codes "c") (encode_utf8 text) text (inr refl) b small d)
        (eq_text_refl text)

  accepted_bare :
      (text : Text)
      → IsCoded encode_utf8 decode_utf8 text
      → is_accepted encode_utf8 decode_utf8 (b';' ∷ btoa (encode_utf8 text)) text ≡ true
  accepted_bare text (d, b, small) =
      rw (decode_osc52-btoa decode_utf8 [] (encode_utf8 text) text (inl refl) b small d)
        (eq_text_refl text)

  all_accepted :
      (texts : List Text)
      → All (IsCoded encode_utf8 decode_utf8) texts
      → all
          (λ text.
            is_accepted encode_utf8 decode_utf8 (codes "c" ++ b';' ∷ btoa (encode_utf8 text)) text)
          texts
        ≡ true
  all_accepted [] h = refl
  all_accepted (text ∷ texts) (h, rest) = rw (accepted_with_c text h) (all_accepted texts rest)

  read_refused : is_refused encode_utf8 decode_utf8 (codes "c;?") read_not_supported ≡ true
  unfolding decode_osc52 index_of substring
  read_refused = refl

  target_refused : is_refused encode_utf8 decode_utf8 (codes "p;YQ==") unsupported_target ≡ true
  unfolding decode_osc52 index_of substring
  target_refused = refl

  base64_refused : is_refused encode_utf8 decode_utf8 (codes "c;%%%") invalid_base64 ≡ true
  unfolding decode_osc52 index_of substring is_base64
  base64_refused = refl

  too_large_refused :
      (encoded : Text)
      → ltb max_clipboard_base64_length (length encoded) ≡ true
      → decode_osc52 decode_utf8 (some (codes "c" ++ b';' ∷ encoded))
        ≡ reject_osc52 encoded_too_large
  unfolding decode_osc52 index_of
  too_large_refused encoded h =
      let whole = b'c' ∷ b';' ∷ encoded in
      let target : substring whole 0 1 ≡ codes "c" = substring-prefix whole 1 in
      let rest : substring whole 2 (length whole) ≡ encoded =
        substring-suffix whole 2 (omega arith) in
      let no_query : eq_text encoded (codes "?") ≡ false = eq_text_ne encoded (codes "?") (λ e.
        absurd
          (omega (arith, ap length e, ltb→lt max_clipboard_base64_length (length encoded) h))) in
      rw (target, rest, no_query, h) refl

  -- The assertions on the clipboard hold with every codec that gives the texts of the script back.
  pub check_clipboard_lem :
      All (IsCoded encode_utf8 decode_utf8) clipboard_texts
      → IsCoded encode_utf8 decode_utf8 (codes "copied by tmux")
      → check_clipboard encode_utf8 decode_utf8 ≡ true
  unfolding check_clipboard
  check_clipboard_lem texts tmux =
      let long =
        too_large_refused (repeat (max_clipboard_base64_length + 4) b'A')
          (lt→ltb _ _ (omega (arith, length-repeat (max_clipboard_base64_length + 4) b'A'))) in
      rw
        (
          all_accepted clipboard_texts texts,
          accepted_bare (codes "copied by tmux") tmux,
          read_refused,
          target_refused,
          base64_refused,
          long,
        )
        refl
