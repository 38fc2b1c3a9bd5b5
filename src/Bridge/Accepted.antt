-- ===== src/Bridge/Accepted.antt =====
-- Which texts `BridgeProtocol` reads: those that it wrote, and nothing else than what it writes.
use harmotty.Prelude.{
  ℕ, suc, ◌≤◌, ◌≡◌, refl, sym, ap, ◌∙◌, true, false, Option, none, some, List, [], ◌∷◌, ◌++◌, arith,
  Text, eq_text, eq_text→eq, eq_text_refl, ltb, lt→ltb, length, index_of, index_of-eq-some,
  index_from, index_from-cut, index_from-lt, substring, substring-prefix, substring-suffix, drop,
  take, Bool-cases, Option-cases, inl, inr, split_on, split_on-append, split_on-none,
}
use harmotty.Prelude.Int.{ℤ, pos, negsuc}
use harmotty.Prelude.Decimal.{to_text, is_digit, all-to_text}
use harmotty.Prelude.ParseInt.{parse_int, parse_int-to_text, index_of-digits}
use harmotty.Bridge.Protocol.{
  BridgeMessage, bar, version, serialize, is_direction, is_channel, is_supported_message,
  refuses_payload, is_positive_integer_payload, accept, after, cut_fields, find_fields, parse,
  max_snapshot_payload_length,
}
use harmotty.Bridge.Messages.{
  Command, write, theme, ping, focus, blur, clear_selection, fit, font_size, secondary_action,
  snapshot_request, restore_snapshot, search_open, copy_selection, copy_selection_result,
  clipboard_write_result, native_data, native_control, web_control, message, IsSendable, size_of,
  size_of_fields, parse_resize_payload,
}
use harmotty.Bridge.RoundTrip.{laid_out, serialize-laid_out, parse-serialize}

abbrev accepted : BridgeMessage → Option BridgeMessage
accepted m = accept m.direction m.channel m.kind m.payload

positive_payload : (id : ℕ) → 1 ≤ id → is_positive_integer_payload (to_text id) ≡ true
unfolding is_positive_integer_payload
positive_payload id h =
    rw (is_positive_integer_payload, parse_int-to_text id, lt→ltb 0 id h, eq_text_refl (to_text id))
      refl

accept-message : (c : Command) → IsSendable c → accepted (message c) ≡ some (message c)
unfolding accept is_direction is_channel is_supported_message refuses_payload message native_data
    native_control web_control
accept-message (write text) h = refl
accept-message (theme json) h = refl
accept-message ping h = refl
accept-message focus h = refl
accept-message blur h = refl
accept-message clear_selection h = refl
accept-message fit h = refl
accept-message (font_size size) h = refl
accept-message secondary_action h = refl
accept-message (snapshot_request id) h = rw (positive_payload id h.0) refl
accept-message (restore_snapshot snapshot) h =
    let short : ltb max_snapshot_payload_length (length snapshot) ≡ false = ground arith in
    rw short refl
accept-message search_open h = refl
accept-message copy_selection h = refl
accept-message (copy_selection_result text) h = refl
accept-message (clipboard_write_result text) h = refl

no_bar :
    (c : Command)
    → (index_of bar (message c).direction ≡ none)
      × (index_of bar (message c).channel ≡ none)
      × (index_of bar (message c).kind ≡ none)
unfolding message native_data native_control web_control index_of
no_bar (write text) = (refl, refl, refl)
no_bar (theme json) = (refl, refl, refl)
no_bar ping = (refl, refl, refl)
no_bar focus = (refl, refl, refl)
no_bar blur = (refl, refl, refl)
no_bar clear_selection = (refl, refl, refl)
no_bar fit = (refl, refl, refl)
no_bar (font_size size) = (refl, refl, refl)
no_bar secondary_action = (refl, refl, refl)
no_bar (snapshot_request id) = (refl, refl, refl)
no_bar (restore_snapshot snapshot) = (refl, refl, refl)
no_bar search_open = (refl, refl, refl)
no_bar copy_selection = (refl, refl, refl)
no_bar (copy_selection_result text) = (refl, refl, refl)
no_bar (clipboard_write_result text) = (refl, refl, refl)

-- Every message that the native side makes is accepted and read back as it was, whatever its text
-- holds, if a snapshot is at most 4 MiB long and the id of a request is positive and below 2 ^ 53.
pub parse-message : (c : Command) → IsSendable c → parse (serialize (message c)) ≡ some (message c)
parse-message c h =
    let (d, ch, k) = no_bar c in parse-serialize (message c) d ch k ∙ accept-message c h

accept-some :
    (d c k p : Text) (m : BridgeMessage)
    → accept d c k p ≡ some m
    → record { direction = d; channel = c; kind = k; payload = p } ≡ m
unfolding accept
accept-some d c k p m e = ground arith

cut_fields_sound :
    (raw : Text) (v : ℕ) (d c k : Option ℕ) (m : BridgeMessage)
    → raw ≡ version ++ bar ∷ drop (suc v) raw
    → index_from bar raw (suc v) ≡ d
    → index_from bar raw (after d) ≡ c
    → index_from bar raw (after c) ≡ k
    → cut_fields raw v d c k ≡ some m
    → serialize m ≡ raw
unfolding cut_fields
cut_fields_sound raw v none c k m start at_d at_c at_k e = absurd (cc)
cut_fields_sound raw v (some d) none k m start at_d at_c at_k e = absurd (cc)
cut_fields_sound raw v (some d) (some c) none m start at_d at_c at_k e = absurd (cc)
cut_fields_sound raw v (some d) (some c) (some k) m start at_d at_c at_k e =
    let size = index_from-lt bar raw (suc c) k at_k in
    let direction = index_from-cut bar raw (suc v) d at_d in
    let channel = index_from-cut bar raw (suc d) c at_c in
    let kind = index_from-cut bar raw (suc c) k at_k in
    let payload = substring-suffix raw (suc k) size in
    let field = substring raw in
    ap serialize (sym (accept-some _ _ _ _ m e))
    ∙ serialize-laid_out _
    ∙ ap (laid_out (field (suc v) d) (field (suc d) c) (field (suc c) k)) payload
    ∙ ap (λ r. version ++ bar ∷ (field (suc v) d ++ bar ∷ (field (suc d) c ++ bar ∷ r))) (sym kind)
    ∙ ap (λ r. version ++ bar ∷ (field (suc v) d ++ bar ∷ r)) (sym channel)
    ∙ ap (λ r. version ++ bar ∷ r) (sym direction)
    ∙ sym start

-- Only a text that is a message written out is read: writing the message gives the text back.
pub parse_sound : (raw : Text) (m : BridgeMessage) → parse raw ≡ some m → serialize m ≡ raw
unfolding parse find_fields
parse_sound raw m e = elim (Option-cases (index_of bar raw)) [
  | inl none_found ↦ absurd (let f = rw (parse, none_found) at e in cc)
  | inr (v, found) ↦ elim (Bool-cases (eq_text (substring raw 0 v) version)) [
    | inr other ↦ absurd (let f = rw (parse, found, other) at e in cc)
    | inl same ↦
        let first : take v raw ≡ version = sym (substring-prefix raw v) ∙ eq_text→eq _ _ same in
        let start =
          index_of-eq-some bar raw v found ∙ ap (λ t. t ++ bar ∷ drop (suc v) raw) first in
        cut_fields_sound raw v _ _ _ m start refl refl refl (rw (parse, found, same) at e)
  ]
]

size_of_bounds : (c r : Option ℤ) → (1 ≤ (size_of c r).0) × (1 ≤ (size_of c r).1)
unfolding size_of
size_of_bounds none r = (omega arith, omega arith)
size_of_bounds (some (negsuc c)) r = (omega arith, omega arith)
size_of_bounds (some (pos c)) none = (omega arith, omega arith)
size_of_bounds (some (pos c)) (some (negsuc r)) = (omega arith, omega arith)
size_of_bounds (some (pos c)) (some (pos r)) = ground arith

fields_bounds :
    (fields : List Text) → (1 ≤ (size_of_fields fields).0) × (1 ≤ (size_of_fields fields).1)
unfolding size_of_fields
fields_bounds [] = (omega arith, omega arith)
fields_bounds (cols ∷ []) = (omega arith, omega arith)
fields_bounds (cols ∷ rows ∷ []) = size_of_bounds (parse_int cols) (parse_int rows)
fields_bounds (cols ∷ rows ∷ other ∷ others) = (omega arith, omega arith)

-- Whatever the payload, a size has at least one column and one row.
pub parse_resize_payload_bounds :
    (payload : Text)
    → (1 ≤ (parse_resize_payload payload).0) × (1 ≤ (parse_resize_payload payload).1)
unfolding parse_resize_payload
parse_resize_payload_bounds payload = fields_bounds (split_on b',' payload)

no_comma : (n : ℕ) → index_of b',' (to_text n) ≡ none
unfolding is_digit
no_comma n = index_of-digits b',' (to_text n) refl (all-to_text n)

size_of-positive : (c r : ℕ) → 1 ≤ c → 1 ≤ r → size_of (some (pos c)) (some (pos r)) ≡ (c, r)
unfolding size_of
size_of-positive c r h k = ground arith

-- A size of at least one column and one row is read as it was written.
pub parse_resize_payload-to_text :
    (cols rows : ℕ)
    → 1 ≤ cols
    → 1 ≤ rows
    → parse_resize_payload (to_text cols ++ b',' ∷ to_text rows) ≡ (cols, rows)
unfolding parse_resize_payload size_of_fields
parse_resize_payload-to_text cols rows h k =
    rw
      (
        parse_resize_payload,
        split_on-append b',' (to_text cols) (to_text rows) (no_comma cols),
        split_on-none b',' (to_text rows) (no_comma rows),
        size_of_fields,
        parse_int-to_text cols,
        parse_int-to_text rows,
      )
      (size_of-positive cols rows h k)
