-- ===== src/Driver/EndToEnd.antt =====
-- A poll of the driver from the request to the tags: the gateway of src/IoTManager.c answers what
-- src/driver/iDCU_IoT.c sends, and the driver reads the gateway's answer.
use i_dcu_io_t.Common.{
  ℕ, ◌+◌, ◌-◌, ◌*◌, ◌%◌, ◌/◌, ◌^◌, ◌≤◌, ◌<◌, ◌≡◌, refl, ◌∙◌, ap, arith, true, false, ◌||◌, List, [],
  ◌∷◌, ◌++◌, ◌==◌, ltb, if◌then◌else◌, Returns, length, drop, print_long, atoi, atoi-print_long,
  le→leb,
}
use i_dcu_io_t.Iot.Serial.{buffer_size}
use i_dcu_io_t.Iot.Event.{Device, replied}
use i_dcu_io_t.Iot.Command.{
  Selected, rows, emit, pack_io, first_row, io_reply, get_io_status, status_row, comm_reply,
  get_comm_status, command_process,
}
use i_dcu_io_t.Iot.Command.Bits.{Levels, unpack-pack_io}
use i_dcu_io_t.Iot.Command.Stored.{printed, channel_bytes-bytes}
use i_dcu_io_t.Iot.Server
use i_dcu_io_t.Iot.Server.Requests
use i_dcu_io_t.Driver.{poll, reading, select_tag, select_count, Link, turn}
use i_dcu_io_t.Driver.Tags.{count_bytes, count_message, Agrees, select_count_lem, select_wo_lem}
use i_dcu_io_t.Driver.Replies.{reply_bytes, IsClear, turn_reply}

-- The second of the gateway's inputs.
abbrev pub second : List ℕ → ℕ
second (_ ∷ b ∷ _) = b
second _ = 0

-- The bit that the driver takes from the byte of the gateway.
second-pack_io : (io : List ℕ) → length io ≡ 8 → Levels io → pack_io io / 2 % 2 ≡ second io
second-pack_io io e h = ap second (unpack-pack_io io e h)

-- What the gateway's state becomes where it answers with these bytes.
abbrev pub answered : Device → List ℕ → Device
answered d bytes = emit (replied bytes) d

gateway_inputs :
    (table : Selected) (stack : List ℕ) (conn : Server.Conn Device)
    → length stack ≡ buffer_size
    → Requests.IsClear conn
    → Returns (Server.turn (command_process table) (poll false) stack conn) (λ conn'.
      Requests.IsClear conn'
      × (conn'.link.device ≡ answered conn.link.device (io_reply conn.link.device.io)))
unfolding poll command_process get_io_status
gateway_inputs table stack conn ws clear =
    Requests.turn_request (command_process table) 0 0 0 (1 ∷ 2 ∷ 0 ∷ 0x10 ∷ 0 ∷ 8 ∷ []) stack conn _
      (omega arith) ws clear refl

gateway_counters :
    (rs : List (List (List ℕ))) (stack : List ℕ) (conn : Server.Conn Device)
    → length rs ≤ 8
    → length stack ≡ buffer_size
    → Requests.IsClear conn
    → Returns (Server.turn (command_process (rows rs)) (poll true) stack conn) (λ conn'.
      Requests.IsClear conn' × (conn'.link.device ≡ answered conn.link.device (comm_reply rs)))
unfolding poll command_process get_comm_status
gateway_counters rs stack conn few ws clear =
    Requests.turn_request (command_process (rows rs)) 0 0 0 (1 ∷ 4 ∷ 0 ∷ 0x10 ∷ 0 ∷ 0x10 ∷ []) stack
      conn _ (omega arith) ws clear (rw (le→leb (length rs) 8 few))

driver_inputs :
    (io : List ℕ) (t : ℕ) (stack : List ℕ) (l : Link)
    → length io ≡ 8
    → Levels io
    → 1 ≤ length stack
    → IsClear l
    → Returns (turn (io_reply io) t stack l) (λ l'.
      IsClear l'
      × (l'.tag ≡ record l.tag {
        wo_past = 2 * second io;
        offered =
            if l.tag.wo_past == 2 * second io
            then l.tag.offered
            else l.tag.offered ++ ((1 ∷ reading 51 t ((48 + second io) ∷ [])) ∷ []);
      }))
unfolding io_reply select_tag
driver_inputs io t stack l eight levels room clear = rw (← second-pack_io io eight levels) (
    turn_reply 2 t (pack_io io ∷ []) stack l _ room (omega arith) clear
      (select_wo_lem (pack_io io) t (drop 1 stack) l.tag))

length-status_row : (cnt : List ℕ) → length (status_row (printed cnt)) ≡ 4 * length cnt
unfolding status_row
length-status_row [] = refl
length-status_row (v ∷ cnt) =
    rw (channel_bytes-bytes (atoi (print_long v))) (omega (arith, length-status_row cnt))

driver_counters :
    (v : ℕ) (cnt : List ℕ) (rs : List (List (List ℕ))) (t : ℕ) (stack : List ℕ) (l : Link)
    → length cnt ≡ 7
    → v < 2 ^ 32
    → 32 ≤ length stack
    → IsClear l
    → Returns
        (turn (comm_reply (printed (v ∷ cnt) ∷ rs)) t stack l)
        (λ l'. IsClear l' × (l'.tag ≡ select_count (count_bytes v) t l.tag))
unfolding comm_reply first_row status_row select_tag
driver_counters v cnt rs t stack l seven small room clear =
    let row = status_row (printed cnt) in
    let long : length row ≡ 28 = omega (arith, length-status_row cnt) in
    let whole : reply_bytes 4 (count_bytes v ++ row)
        ≡ 1 ∷ 2 ∷ 0 ∷ 0 ∷ 0 ∷ 0x23 ∷ 1 ∷ 4 ∷ 0x20 ∷ (count_bytes v ++ row) =
      rw long in
    rw (atoi-print_long v small, channel_bytes-bytes v, ← whole)
      (turn_reply 4 t (count_bytes v ++ row) stack l _ (omega arith) (omega arith) clear refl)

-- On connections that hold nothing back and with eight inputs of 0 or 1: the gateway answers the
-- driver's first poll once, and the driver that reads this answer holds the second input in
-- `wo_past` and hands on a message with its level exactly where it differs from the one it held.
pub poll_inputs :
    (table : Selected) (gateway_stack stack : List ℕ) (conn : Server.Conn Device) (l : Link) (t : ℕ)
    → length gateway_stack ≡ buffer_size
    → 1 ≤ length stack
    → Requests.IsClear conn
    → IsClear l
    → length conn.link.device.io ≡ 8
    → Levels conn.link.device.io
    → let io = conn.link.device.io in
      Returns (Server.turn (command_process table) (poll false) gateway_stack conn) (λ conn'.
        Requests.IsClear conn' × (conn'.link.device ≡ answered conn.link.device (io_reply io)))
      × Returns (turn (io_reply io) t stack l) (λ l'.
        IsClear l'
        × (l'.tag ≡ record l.tag {
          wo_past = 2 * second io;
          offered =
              if l.tag.wo_past == 2 * second io
              then l.tag.offered
              else l.tag.offered ++ ((1 ∷ reading 51 t ((48 + second io) ∷ [])) ∷ []);
        }))
poll_inputs table gateway_stack stack conn l t wg ws cg cd eight levels = (
  gateway_inputs table gateway_stack conn wg cg,
  driver_inputs conn.link.device.io t stack l eight levels ws cd,
)

-- On connections that hold nothing back and with at most eight rows in the table, the first of
-- which is what the gateway wrote for eight counters: the gateway answers the driver's second
-- poll once, and the driver that reads this answer holds the first counter, and hands on a
-- message with the total and the difference exactly where it knew a count, the counter did not
-- go back and it moved.
pub poll_counters :
    (v : ℕ) (cnt : List ℕ) (rs : List (List (List ℕ))) (gateway_stack stack : List ℕ)
    (conn : Server.Conn Device) (l : Link) (t : ℕ)
    → v < 2 ^ 32
    → length cnt ≡ 7
    → length rs ≤ 7
    → length gateway_stack ≡ buffer_size
    → 32 ≤ length stack
    → Requests.IsClear conn
    → IsClear l
    → Agrees l.tag
    → let table = printed (v ∷ cnt) ∷ rs in
      Returns (Server.turn (command_process (rows table)) (poll true) gateway_stack conn) (λ conn'.
        Requests.IsClear conn' × (conn'.link.device ≡ answered conn.link.device (comm_reply table)))
      × Returns (turn (comm_reply table) t stack l) (λ l'.
        IsClear l'
        × (l'.tag.pre_qty ≡ v)
        × Agrees l'.tag
        × (l'.tag.wo_past ≡ l.tag.wo_past)
        × (l'.tag.offered ≡ (
            if (l.tag.pre_qty == 0 || ltb v l.tag.pre_qty) || (l.tag.pre_qty == v)
            then l.tag.offered
            else l.tag.offered ++ (count_message t v (v - l.tag.pre_qty) ∷ []))))
poll_counters v cnt rs gateway_stack stack conn l t small seven few wg ws cg cd agrees =
    let (l', e, (clear, same)) = driver_counters v cnt rs t stack l seven small ws cd in
    let (held, agree, wo, offered) = select_count_lem v t l.tag small agrees in
    (
      gateway_counters (printed (v ∷ cnt) ∷ rs) gateway_stack conn (omega arith) wg cg,
      (
        l',
        e,
        (
          clear,
          ap (λ s. s.pre_qty) same ∙ held,
          rw same agree,
          ap (λ s. s.wo_past) same ∙ wo,
          ap (λ s. s.offered) same ∙ offered,
        ),
      ),
    )
