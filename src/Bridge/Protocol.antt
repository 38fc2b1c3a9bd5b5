-- ===== src/Bridge/Protocol.antt =====
-- `BridgeProtocol` (entry/src/main/ets/model/bridge/BridgeProtocol.ets): the format of a message
-- and which messages are accepted. A number in a payload is exact, as it is below 2 ^ 53.
use harmotty.Prelude.{
  ℕ, suc, ◌*◌, Bool, false, not, ◌&&◌, ◌||◌, Option, none, some, List, [], ◌∷◌, ◌++◌, Text, codes,
  eq_text, ltb, ◌==◌, if◌then◌else◌, length, index_of, index_from, substring,
}
use harmotty.Prelude.Int.{pos, negsuc}
use harmotty.Prelude.Decimal.{to_text}
use harmotty.Prelude.ParseInt.{parse_int}

pub record BridgeMessage : Type 0 where
  pub direction : Text
  pub channel : Text
  pub kind : Text
  pub payload : Text

abbrev pub bar : ℕ
bar = b'|'

abbrev pub version : Text
version = codes "H2"

abbrev pub native_to_web : Text
native_to_web = codes "N2W"

abbrev pub web_to_native : Text
web_to_native = codes "W2N"

abbrev pub channel_data : Text
channel_data = codes "DATA"

abbrev pub channel_control : Text
channel_control = codes "CONTROL"

unfoldable pub serialize : BridgeMessage → Text
serialize m =
    version
    ++ bar ∷ []
    ++ m.direction
    ++ bar ∷ []
    ++ m.channel
    ++ bar ∷ []
    ++ m.kind
    ++ bar ∷ []
    ++ m.payload

unfoldable pub is_direction : Text → Bool
is_direction direction = eq_text direction native_to_web || eq_text direction web_to_native

unfoldable pub is_channel : Text → Bool
is_channel channel = eq_text channel channel_data || eq_text channel channel_control

unfoldable pub is_positive_integer_payload : Text → Bool
is_positive_integer_payload payload = elim (parse_int payload) [
  | none ↦ false
  | some (pos value) ↦ ltb 0 value && eq_text (to_text value) payload
  | some (negsuc value) ↦ false
]

-- Whether a text is one of a list.
abbrev pub one_of : Text → List Text → Bool
one_of text [] = false
one_of text (t ∷ ts) = eq_text text t || one_of text ts

abbrev pub native_kinds : List Text
native_kinds =
    codes "theme"
    ∷ codes "focus"
    ∷ codes "blur"
    ∷ codes "clearSelection"
    ∷ codes "ping"
    ∷ codes "fit"
    ∷ codes "fontSize"
    ∷ codes "copySelection"
    ∷ codes "secondaryAction"
    ∷ codes "snapshotRequest"
    ∷ codes "restoreSnapshot"
    ∷ codes "searchOpen"
    ∷ []

abbrev pub web_kinds : List Text
web_kinds =
    codes "ready"
    ∷ codes "resize"
    ∷ codes "bellAttention"
    ∷ codes "attentionAcknowledged"
    ∷ codes "copySelection"
    ∷ codes "clipboardWrite"
    ∷ codes "writeAck"
    ∷ codes "pong"
    ∷ codes "clipboardPaste"
    ∷ codes "perfRender"
    ∷ codes "rendererState"
    ∷ codes "openUrl"
    ∷ codes "restoreComplete"
    ∷ codes "snapshot"
    ∷ []

unfoldable pub is_supported_message : Text → Text → Text → Bool
is_supported_message direction channel kind =
    if eq_text channel channel_data
    then eq_text kind (codes "terminal")
    else if eq_text direction native_to_web
    then one_of kind native_kinds
    else one_of kind web_kinds

abbrev pub max_url_payload_length : ℕ
max_url_payload_length = 4096

abbrev pub max_snapshot_payload_length : ℕ
max_snapshot_payload_length = 4 * 1024 * 1024

-- The tests of the payload, in the order of the source; `true` is a refusal.
unfoldable pub refuses_payload : Text → Text → Bool
refuses_payload kind payload =
    ((eq_text kind (codes "bellAttention") || eq_text kind (codes "attentionAcknowledged"))
      && ltb 0 (length payload))
    || (eq_text kind (codes "openUrl")
        && (length payload == 0 || ltb max_url_payload_length (length payload)))
    || (eq_text kind (codes "snapshotRequest") && not (is_positive_integer_payload payload))
    || (eq_text kind (codes "restoreComplete") && ltb 0 (length payload))
    || (eq_text kind (codes "searchOpen") && ltb 0 (length payload))
    || ((eq_text kind (codes "restoreSnapshot") || eq_text kind (codes "snapshot"))
        && ltb max_snapshot_payload_length (length payload))

unfoldable pub accept : Text → Text → Text → Text → Option BridgeMessage
accept direction channel kind payload =
    if not (is_direction direction)
      || not (is_channel channel)
      || length kind == 0
      || not (is_supported_message direction channel kind)
    then none
    else if refuses_payload kind payload
    then none
    else some (record { direction = direction; channel = channel; kind = kind; payload = payload })

-- Where the next search starts: `-1 + 1` after a search that failed.
abbrev pub after : Option ℕ → ℕ
after none = 0
after (some i) = suc i

unfoldable pub cut_fields : Text → ℕ → Option ℕ → Option ℕ → Option ℕ → Option BridgeMessage
cut_fields raw version_end (some direction_end) (some channel_end) (some kind_end) =
    accept (substring raw (suc version_end) direction_end)
      (substring raw (suc direction_end) channel_end) (substring raw (suc channel_end) kind_end)
      (substring raw (suc kind_end) (length raw))
cut_fields raw version_end _ _ _ = none

unfoldable pub find_fields : Text → ℕ → Option BridgeMessage
find_fields raw version_end =
    let direction_end = index_from bar raw (suc version_end) in
    let channel_end = index_from bar raw (after direction_end) in
    let kind_end = index_from bar raw (after channel_end) in
    cut_fields raw version_end direction_end channel_end kind_end

unfoldable pub parse : Text → Option BridgeMessage
parse raw = elim (index_of bar raw) [
  | none ↦ none
  | some version_end ↦
      if eq_text (substring raw 0 version_end) version then find_fields raw version_end else none
]
