-- ===== src/Sqs/Ids/Unique.antt =====
-- Ids and receipt handles as functions of the counter's value.
use text.Mathlib.TextLemmas.{append_cancel_left}
use openstack.Prelude.{ℕ, ◌<◌, ◌≡◌, arith}
use openstack.Prelude.Format.{hex_pad, hex_acc-injective, hex_pad-append-injective, FitsHex}
use openstack.Sqs.Ids.{u64, message_uuid_like, receipt_handle_of}

hex_pad-injective : (w a b : ℕ) → FitsHex w a → FitsHex w b → hex_pad w a ≡ hex_pad w b → a ≡ b
unfolding hex_pad
hex_pad-injective w a b p q e = (hex_acc-injective w a b "" "" p q e).0

-- Receipt handles of different 64-bit counter values are different.
pub receipt_handle_of-injective :
    (a b : ℕ) → a < u64 → b < u64 → receipt_handle_of a ≡ receipt_handle_of b → a ≡ b
unfolding receipt_handle_of
receipt_handle_of-injective a b p q e =
    hex_pad-injective 16 a b (omega arith) (omega arith) (append_cancel_left "rh-" _ _ e)

-- Message ids of different 64-bit counter values are different.
pub message_uuid_like-injective :
    (a b : ℕ) → a < u64 → b < u64 → message_uuid_like a ≡ message_uuid_like b → a ≡ b
unfolding message_uuid_like
message_uuid_like-injective a b p q e =
    let (high, r1) = hex_pad-append-injective 8 _ _ _ _ (omega arith) (omega arith) e in
    let (g2, r2) =
      hex_pad-append-injective 4 _ _ _ _ (omega arith) (omega arith)
        (append_cancel_left "-" _ _ r1) in
    let (g3, r3) =
      hex_pad-append-injective 3 _ _ _ _ (omega arith) (omega arith)
        (append_cancel_left "-4" _ _ r2) in
    let (g4, r4) =
      hex_pad-append-injective 3 _ _ _ _ (omega arith) (omega arith)
        (append_cancel_left "-8" _ _ r3) in
    let low =
      hex_pad-injective 12 _ _ (omega arith) (omega arith) (append_cancel_left "-" _ _ r4) in
    omega arith
