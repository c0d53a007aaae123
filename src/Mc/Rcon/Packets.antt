-- ===== src/Mc/Rcon/Packets.antt =====
-- internal/mc/rcon.go: decoding after encoding.
use control_panel.Base.{
  ℕ, ◌+◌, ◌/◌, ◌%◌, ◌^◌, ◌≤◌, ◌<◌, ◌≡◌, refl, ap, ◌∙◌, ◌||◌, Option, none, some, List, [], ◌∷◌,
  ◌++◌, if◌then◌else◌, length, length-append, ltb, arith, inl, inr, ◌⊎◌,
}
use control_panel.Mc.Rcon.{
  rcon_max_body_size, RconError, Packet, le32, uint32, encode_packet, trim_zeros, read_full,
  open_payload, decode_packet, bad_length, short_read,
}

uint32-le32 :
    (n : ℕ)
    → n < 2 ^ 32
    → uint32 (n % 256) (n / 256 % 256) (n / 65536 % 256) (n / 16777216 % 256) ≡ n
uint32-le32 n h = omega arith

read_full-append : (bs rest : List ℕ) → read_full (length bs) (bs ++ rest) ≡ some (bs, rest)
unfolding read_full
read_full-append [] rest = refl
read_full-append (b ∷ bs) rest =
    ap (λ r. elim r [ none ↦ none | some (got, more) ↦ some (b ∷ got, more) ])
      (read_full-append bs rest)

trim_zeros-append : (bs : List ℕ) → trim_zeros (bs ++ 0 ∷ 0 ∷ []) ≡ trim_zeros bs
unfolding trim_zeros
trim_zeros-append [] = refl
trim_zeros-append (b ∷ bs) = rw (trim_zeros-append bs)

abbrev payload : Packet → List ℕ
payload p = le32 p.id ++ le32 p.typ ++ p.body ++ 0 ∷ 0 ∷ []

length-payload : (p : Packet) → length (payload p) ≡ length p.body + 10
length-payload p = omega (arith, length-append p.body (0 ∷ 0 ∷ []))

open-payload :
    (p : Packet)
    → p.id < 2 ^ 32
    → p.typ < 2 ^ 32
    → open_payload (payload p) ≡ some (record p { body = trim_zeros p.body })
unfolding open_payload
open-payload p i t = rw (uint32-le32 p.id i, uint32-le32 p.typ t, trim_zeros-append p.body)

abbrev decode_sized : ℕ → List ℕ → (RconError ⊎ Option Packet) × List ℕ
decode_sized size bs =
    if ltb size 10 || ltb (rcon_max_body_size + 10) size
    then (inl (bad_length size), bs)
    else elim (read_full size bs) [
      | none ↦ (inl short_read, [])
      | some (got, rest) ↦ (inr (open_payload got), rest)
    ]

decode-sized :
    (size : ℕ) (bs rest : List ℕ)
    → size ≡ length bs
    → 10 ≤ size
    → size ≤ rcon_max_body_size + 10
    → decode_sized size (bs ++ rest) ≡ (inr (open_payload bs), rest)
decode-sized size bs rest e lo hi =
    let read : read_full size (bs ++ rest) ≡ some (bs, rest) =
      ap (λ n. read_full n (bs ++ rest)) e ∙ read_full-append bs rest in
    ground (arith, read)

-- A packet with an id and a type of 32 bits and a body of at most 4096 bytes, written to a stream, is
-- read back from it with the same id and type, and with its body less the zero bytes at its end;
-- what follows it in the stream is left to be read.
pub decode-encode :
    (p : Packet) (rest : List ℕ)
    → length p.body ≤ rcon_max_body_size
    → p.id < 2 ^ 32
    → p.typ < 2 ^ 32
    → decode_packet (encode_packet p ++ rest)
      ≡ (inr (some (record p { body = trim_zeros p.body })), rest)
unfolding decode_packet encode_packet
decode-encode p rest h i t =
    let n = (4 + 4 + length p.body + 2) % 2 ^ 32 in
    ap (λ size. decode_sized size (payload p ++ rest)) (uint32-le32 n (omega arith))
    ∙ decode-sized n (payload p) rest (omega (arith, length-payload p)) (omega arith) (omega arith)
    ∙ ap (λ o. (inr o, rest)) (open-payload p i t)
