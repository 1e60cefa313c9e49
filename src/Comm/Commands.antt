-- ===== src/Comm/Commands.antt =====
-- A command from the client of src/M2MManager.c to the nodes of src/CommManager.c.
use i_dcu_io_t.Common.{
  ℕ, ◌+◌, ◌-◌, ◌%◌, ◌^◌, ◌≤◌, ◌<◌, ◌≡◌, refl, ap, ◌∙◌, arith, List, [], ◌∷◌, ◌++◌, eq→==, ok,
  Returns, read, read_append, memcpy, memcpy-ok, take_append, drop, length, length-append,
  length-replicate, replicate,
}
use i_dcu_io_t.Iot.Server.{Conn}
use i_dcu_io_t.Driver.{buffer_size}
use i_dcu_io_t.M2m
use i_dcu_io_t.M2m.Arrival.{packet_bytes, IsClear, turn_packet}
use i_dcu_io_t.M2m.Replies.Layout.{then_ok}
use i_dcu_io_t.M2m.Packets.{
  Act, node_message, event_message, delete_node, World, message, pack_manager,
}
use i_dcu_io_t.Comm.{Sent, line, node_change, remote_node_command, on_command}

abbrev replicate_zeros : ℕ → List ℕ
replicate_zeros n = replicate n 0

-- A copy of the first bytes of a buffer.
copy_front :
    (dst xs rest : List ℕ) (n : ℕ)
    → n ≡ length xs
    → n ≤ length dst
    → memcpy dst 0 (xs ++ rest) 0 n ≡ ok (xs ++ drop n dst)
copy_front dst xs rest n e room =
    let start : 0 + n ≡ n = omega arith in
    memcpy-ok dst 0 (xs ++ rest) 0 n (omega arith) (omega (arith, length-append xs rest))
    ∙ rw (start, take_append xs rest n e)

module _ (a nodeid setid group : ℕ) (rest : List ℕ) where
  -- The body of a packet that gives a node a new number and a group.
  abbrev pub change_body : List ℕ
  change_body = 0x12 ∷ a ∷ nodeid ∷ setid ∷ group ∷ rest

  abbrev whole : List ℕ
  whole = packet_bytes change_body

  length-whole : length whole ≡ length rest + 8
  length-whole = omega (arith, length-append change_body (0xff ∷ []))

  message_lem :
      (stack : List ℕ)
      → length rest < 240
      → message (whole ++ stack) (length change_body + 3) ≡ ok whole
  unfolding message
  message_lem stack small =
      let n = length change_body + 3 in
      let size : n ≡ length whole = omega (arith, length-whole) in
      let full : length (replicate_zeros 1024) ≡ 1024 = length-replicate {A = ℕ} 1024 0 in
      then_ok _ (copy_front (replicate_zeros 1024) whole stack n size (omega (arith, length-whole)))
      ∙ ap ok (take_append whole (drop n (replicate_zeros 1024)) n size)

  node_answer :
      (sent : List Sent)
      → a ≤ 16
      → length rest < 240
      → on_command whole sent ≡ ok (sent ++ (line (node_change nodeid setid group) ∷ []))
  unfolding on_command remote_node_command
  node_answer sent short small =
      let pad = replicate_zeros (1024 - length whole) in
      let len = length whole in
      let zeros = replicate_zeros len in
      let last : read whole (len - 1) ≡ ok 0xff =
        read_append (0xfe ∷ length change_body ∷ change_body) 0xff [] (len - 1)
          (omega (arith, length-whole)) in
      let room : length (whole ++ pad) ≡ 1024 = omega (
        arith,
        length-append whole pad,
        length-replicate {A = ℕ} (1024 - length whole) 0,
        length-whole,
      ) in
      let fits : (length change_body + 3) % 2 ^ 8 ≡ len = omega (arith, length-whole) in
      then_ok _ last
      ∙ then_ok _ (
          memcpy-ok (replicate_zeros 16) 0 (whole ++ pad) 4 a (omega arith)
            (omega (arith, length-whole)))
      ∙ then_ok _
          (copy_front zeros whole pad len refl (omega (arith, length-replicate {A = ℕ} len 0)))
      ∙ rw (eq→== ((length change_body + 3) % 2 ^ 8) len fits)

  -- A client gives a node a new number and a group, with a packet of at most 16 bytes of value,
  -- in one read to a loop that holds nothing back: the packet goes to both queues and the node's row
  -- is deleted, and the bridge that takes it from the queue sends the frame of 29 bytes with the
  -- node, its new number and its group.
  pub change_node :
      (w : World) (stack : List ℕ) (conn : Conn (List Act)) (sent : List Sent)
      → a ≤ 16
      → length rest < 240
      → length stack ≡ buffer_size
      → IsClear conn
      → Returns (M2m.turn (pack_manager w) (packet_bytes change_body) stack conn) (λ conn'.
        IsClear conn'
        × (conn'.link.device
            ≡ conn.link.device
              ++ (node_message (packet_bytes change_body)
                  ∷ event_message (packet_bytes change_body)
                  ∷ delete_node nodeid
                  ∷ [])))
        × (on_command (packet_bytes change_body) sent
            ≡ ok (sent ++ (line (node_change nodeid setid group) ∷ [])))
  unfolding pack_manager
  change_node w stack conn sent short small ws clear = (
    turn_packet (pack_manager w) change_body stack conn _ (omega arith) ws clear
        (then_ok _ (message_lem (drop (length change_body + 3) stack) small)),
    node_answer sent short small,
  )
