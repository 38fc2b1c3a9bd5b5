-- ===== src/Transport/Packets.antt =====
-- A packet of output, as `postTerminalPacket` writes it
-- (entry/src/main/ets/model/bridge/TerminalBridge.ets) and `parseTerminalPacket` of the page reads it
-- (entry/src/main/resources/rawfile/terminal.html).
use harmotty.Prelude.{
  ℕ, ◌+◌, ◌-◌, ◌*◌, ◌/◌, ◌%◌, ◌<◌, ◌≡◌, ◌∙◌, refl, inl, inr, true, false, not, ◌&&◌, ◌||◌, Option,
  none, some, ◌∷◌, arith, get_elem?, drop, length, ltb, ◌==◌, if◌then◌else◌, Bool-cases,
}
use harmotty.Terminal.OutputBuffer.{Bytes}

-- `writeUint32`, the lowest byte first.
abbrev pub write_uint32 : ℕ → Bytes → Bytes
write_uint32 value rest =
    value % 256 ∷ value / 256 % 256 ∷ value / 65536 % 256 ∷ value / 16777216 % 256 ∷ rest

unfoldable pub packet_of : ℕ → Bytes → Bytes
packet_of sequence bytes =
    0x48 ∷ 0x54 ∷ 0x42 ∷ 0x31 ∷ write_uint32 sequence (write_uint32 (length bytes) bytes)

abbrev pub byte_at : Bytes → ℕ → ℕ
byte_at raw i = elim (get_elem? raw i) [ none ↦ 0 | some b ↦ b ]

-- `getUint32(offset, true)`.
abbrev pub get_uint32 : Bytes → ℕ → ℕ
get_uint32 raw offset =
    byte_at raw offset
    + byte_at raw (offset + 1) * 256
    + byte_at raw (offset + 2) * 65536
    + byte_at raw (offset + 3) * 16777216

-- The sequence number and the bytes of a packet.
unfoldable pub parse_terminal_packet : Bytes → Option (ℕ × Bytes)
parse_terminal_packet raw =
    if ltb (length raw) 12
    then none
    else if not (
        byte_at raw 0 == 0x48
        && byte_at raw 1 == 0x54
        && byte_at raw 2 == 0x42
        && byte_at raw 3 == 0x31)
    then none
    else if get_uint32 raw 4 == 0
        || get_uint32 raw 8 == 0
        || not (get_uint32 raw 8 == length raw - 12)
    then none
    else some (get_uint32 raw 4, drop 12 raw)

uint32_lem :
    (v : ℕ)
    → v < 4294967296
    → v % 256 + v / 256 % 256 * 256 + v / 65536 % 256 * 65536 + v / 16777216 % 256 * 16777216 ≡ v
uint32_lem v h = omega arith

parse_parts :
    (raw : Bytes) (sequence size : ℕ)
    → ltb (length raw) 12 ≡ false
    → (byte_at raw 0 == 0x48
        && byte_at raw 1 == 0x54
        && byte_at raw 2 == 0x42
        && byte_at raw 3 == 0x31)
      ≡ true
    → get_uint32 raw 4 ≡ sequence
    → get_uint32 raw 8 ≡ size
    → parse_terminal_packet raw ≡ (
        if sequence == 0 || size == 0 || not (size == length raw - 12)
        then none
        else some (sequence, drop 12 raw))
unfolding parse_terminal_packet
parse_parts raw sequence size long magic numbered sized = rw (long, magic, numbered, sized) refl

-- The page reads a packet that is not empty as it was written, and no packet that is empty.
pub parse_terminal_packet-packet_of :
    (sequence : ℕ) (bytes : Bytes)
    → 0 < sequence
    → sequence < 4294967296
    → length bytes < 4294967296
    → parse_terminal_packet (packet_of sequence bytes)
      ≡ (if length bytes == 0 then none else some (sequence, bytes))
unfolding parse_terminal_packet packet_of
parse_terminal_packet-packet_of sequence bytes p q r =
    let raw = packet_of sequence bytes in
    let long : ltb (length raw) 12 ≡ false = ground arith in
    let numbered : get_uint32 raw 4 ≡ sequence = uint32_lem sequence q in
    let sized : get_uint32 raw 8 ≡ length bytes = uint32_lem (length bytes) r in
    let started : (sequence == 0) ≡ false = ground arith in
    let fits : (length bytes == length raw - 12) ≡ true = ground arith in
    parse_parts raw sequence (length bytes) long refl numbered sized
    ∙ rw (started, fits)
        (elim (Bool-cases (length bytes == 0)) [ inl e ↦ rw e refl | inr e ↦ rw e refl ])
