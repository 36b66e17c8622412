-- ===== src/Backend/Codec.antt =====
-- A stored record is read back as it was written.
use take.Prelude.{ℕ, ◌^◌, ◌<◌, ◌≡◌, refl, some, arith, pos, lt→ltb}
use take.Backend.Records.{
  Session, Message, encode_session, encode_message, decode_session, decode_message,
}

pub decode-encode_session : (s : Session) → decode_session (encode_session s) ≡ some s
unfolding decode_session encode_session
decode-encode_session s = refl

-- A message with a number from 0 and below 2^63 is read back as it was written.
pub decode-encode_message :
    (m : Message) (n : ℕ) → m.seq ≡ pos n → n < 2 ^ 63 → decode_message (encode_message m) ≡ some m
unfolding decode_message encode_message
decode-encode_message m n e h = ground (arith, lt→ltb n (2 ^ 63) h)
