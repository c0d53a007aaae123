-- ===== src/Examples/Wire.antt =====
-- internal/mc/rcon.go: a command that is followed by other bytes.
use control_panel.Base.{◌≡◌, some, [], ◌∷◌, ◌++◌, inr, arith}
use control_panel.Mc.Rcon.{Packet, encode_packet, decode_packet, trim_zeros}
use control_panel.Mc.Rcon.Packets.{decode-encode}

-- "list"
abbrev command : Packet
command = record { id = 7; typ = 2; body = 108 ∷ 105 ∷ 115 ∷ 116 ∷ [] }

decode-encode_example :
    decode_packet (encode_packet command ++ 14 ∷ 0 ∷ [])
    ≡ (inr (some (record command { body = 108 ∷ 105 ∷ 115 ∷ 116 ∷ [] })), 14 ∷ 0 ∷ [])
unfolding trim_zeros
decode-encode_example =
    decode-encode command (14 ∷ 0 ∷ []) (omega arith) (omega arith) (omega arith)
