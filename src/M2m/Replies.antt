-- ===== src/M2m/Replies.antt =====
-- src/M2MManager.c: the reply of `getNodeStatusData` and `getNodeData`, written into
-- `tlvSendBuffer` piece by piece, and its check sum.
pub mod Layout
use i_dcu_io_t.Common.{
  ℕ, zero, suc, ◌+◌, ◌-◌, ◌*◌, ◌/◌, ◌%◌, ◌^◌, List, [], ◌∷◌, Run, ok, ◌>>=◌, read, memcpy, take,
  replicate,
}

-- `tlvSendBuffer`, which is cleared after each reply.
abbrev pub tlv_size : ℕ
tlv_size = 20480

-- `intSum += tlvSendBuffer[i]` for the `rounds` indices from `i` on.
pub int_sum_from : List ℕ → ℕ → ℕ → ℕ → Run ℕ
int_sum_from buffer zero i int_sum = ok int_sum
int_sum_from buffer (suc rounds) i int_sum =
    read buffer i >>= λ b. int_sum_from buffer rounds (suc i) (int_sum + b)

-- `_getCheckSum`: the bytes from 1 to `len`, cast to an unsigned char.
pub get_check_sum : List ℕ → ℕ → Run ℕ
get_check_sum buffer len = int_sum_from buffer len 1 0 >>= λ int_sum. ok (int_sum % 2 ^ 8)

-- The head: FE, the total length, the type, the length of the value.
abbrev pub tlv_head : ℕ → ℕ → List ℕ
tlv_head type v_length =
    0xfe
    ∷ (v_length + 4) / 2 ^ 8 % 2 ^ 8
    ∷ (v_length + 4) % 2 ^ 8
    ∷ type
    ∷ v_length / 2 ^ 8 % 2 ^ 8
    ∷ v_length % 2 ^ 8
    ∷ []

-- The reply: head, time of the call, `size` bytes of the array of rows, then the check sum and FF
-- behind the `v_length + 6` bytes before them. What is returned is what `write` sends.
pub tlv_reply : List ℕ → ℕ → List ℕ → List ℕ → ℕ → ℕ → Run (List ℕ)
tlv_reply buffer type time array size v_length = do
  headed ← memcpy buffer 0 (tlv_head type v_length) 0 6
  timed ← memcpy headed 6 time 0 6
  filled ← memcpy timed 12 array 0 size
  sum ← get_check_sum filled (v_length + 5)
  summed ← memcpy filled (v_length + 6) (sum ∷ []) 0 1
  ended ← memcpy summed (v_length + 7) (0xff ∷ []) 0 1
  ok (take (v_length + 4 + 4) ended)
