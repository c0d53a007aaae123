-- ===== src/Mc/Rcon.antt =====
-- internal/mc/rcon.go: the packets of the remote console. A byte is a number below 256, an int32 the
-- number below 2^32 with the same bits; the reader is the bytes that are still to come.
pub mod Packets
use control_panel.Base.{
  ℕ, zero, suc, ◌+◌, ◌*◌, ◌/◌, ◌%◌, ◌^◌, Bool, ◌||◌, ◌&&◌, ◌⊎◌, inl, inr, Option, none, some, List,
  [], ◌∷◌, ◌++◌, if◌then◌else◌, length, ltb, nat_beq,
}

abbrev pub rcon_max_body_size : ℕ
rcon_max_body_size = 4096

pub data RconError : Type 0 where
  bad_length : ℕ → RconError
  short_read : RconError

pub record Packet : Type 0 where
  pub id : ℕ
  pub typ : ℕ
  pub body : List ℕ

-- `binary.Write(buf, binary.LittleEndian, n)`
abbrev pub le32 : ℕ → List ℕ
le32 n = n % 256 ∷ n / 256 % 256 ∷ n / 65536 % 256 ∷ n / 16777216 % 256 ∷ []

abbrev pub uint32 : ℕ → ℕ → ℕ → ℕ → ℕ
uint32 a b c d = a + 256 * b + 65536 * c + 16777216 * d

unfoldable pub encode_packet : Packet → List ℕ
encode_packet p =
    let size = (4 + 4 + length p.body + 2) % 2 ^ 32 in
    le32 size ++ le32 p.id ++ le32 p.typ ++ p.body ++ 0 ∷ 0 ∷ []

-- `bytes.TrimRight(b, "\x00")`
unfoldable pub trim_zeros : List ℕ → List ℕ
trim_zeros [] = []
trim_zeros (b ∷ bs) =
    let rest = trim_zeros bs in if nat_beq b 0 && nat_beq (length rest) 0 then [] else b ∷ rest

-- `io.ReadFull` of `n` bytes.
unfoldable pub read_full : ℕ → List ℕ → Option (List ℕ × List ℕ)
read_full zero bs = some ([], bs)
read_full (suc n) [] = none
read_full (suc n) (b ∷ bs) = elim (read_full n bs) [
  | none ↦ none
  | some (got, rest) ↦ some (b ∷ got, rest)
]

-- The payload has at least ten bytes.
unfoldable pub open_payload : List ℕ → Option Packet
unfolding trim_zeros
open_payload (a ∷ b ∷ c ∷ d ∷ e ∷ f ∷ g ∷ h ∷ body) =
    some (record { id = uint32 a b c d; typ = uint32 e f g h; body = trim_zeros body })
open_payload _ = none

-- `none` inside a result is an index out of range, a panic.
unfoldable pub decode_packet : List ℕ → (RconError ⊎ Option Packet) × List ℕ
unfolding read_full open_payload
decode_packet (a ∷ b ∷ c ∷ d ∷ bs) =
    let size = uint32 a b c d in
    if ltb size 10 || ltb (rcon_max_body_size + 10) size
    then (inl (bad_length size), bs)
    else elim (read_full size bs) [
      | none ↦ (inl short_read, [])
      | some (payload, rest) ↦ (inr (open_payload payload), rest)
    ]
decode_packet _ = (inl short_read, [])
