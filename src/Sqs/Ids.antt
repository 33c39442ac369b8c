-- ===== src/Sqs/Ids.antt =====
-- crates/services/sqs/src/store.rs, lines 8 to 34: message ids and receipt handles from one counter.
pub mod Unique
use text.Mathlib.TextLemmas.{tail-eq_of_cons-eq, append_cancel_left}
use openstack.Prelude.{ℕ, ◌+◌, ◌%◌, ◌/◌, ◌^◌, ◌<◌, String, ◌++◌, ◌≡◌, arith}
use openstack.Prelude.Format.{hex_pad, hex_pad-append-injective}

abbrev pub u64 : ℕ
u64 = 2 ^ 64

-- `fetch_add(1)` on the 64-bit counter returns the old value and wraps round.
unfoldable pub fetch_add : ℕ → ℕ
fetch_add counter = (counter + 1) % u64

-- The five groups: bits 32 to 63, 16 to 31, 0 to 11, 12 to 23 and 0 to 47 of the counter.
unfoldable pub message_uuid_like : ℕ → String
unfolding hex_pad
message_uuid_like id =
    hex_pad 8 (id / 2 ^ 32 % 2 ^ 32)
    ++ ("-"
        ++ (hex_pad 4 (id / 2 ^ 16 % 2 ^ 16)
            ++ ("-4"
                ++ (hex_pad 3 (id % 2 ^ 12)
                    ++ ("-8"
                        ++ (hex_pad 3 (id / 2 ^ 12 % 2 ^ 12)
                            ++ ("-" ++ hex_pad 12 (id % 2 ^ 48))))))))

-- The text of `next_receipt_handle` and of `begin_receive` for a value of the counter.
unfoldable pub receipt_handle_of : ℕ → String
unfolding hex_pad
receipt_handle_of id = "rh-" ++ hex_pad 16 id

-- `next_message_id`: the id, and the counter behind it.
unfoldable pub next_message_id : ℕ → String × ℕ
unfolding message_uuid_like fetch_add
next_message_id counter = (message_uuid_like counter, fetch_add counter)

-- `next_receipt_handle`: the handle, and the counter behind it.
unfoldable pub next_receipt_handle : ℕ → String × ℕ
unfolding receipt_handle_of fetch_add
next_receipt_handle counter = (receipt_handle_of counter, fetch_add counter)
