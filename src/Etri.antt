-- ===== src/Etri.antt =====
-- The link to the middleware: src/lib/TCPSocket.c (`sender`), src/lib/ETRI_Registration.c and the
-- server src/tagServer.c that passes the messages of the drivers on.
pub mod Framing
pub mod Session
pub mod Passage
pub mod Tests
use i_dcu_io_t.Common.{
  ℕ, zero, suc, ◌+◌, ◌-◌, ◌*◌, ◌/◌, ◌%◌, ◌^◌, Bool, true, false, ◌&&◌, Option, none, some, List, [],
  ◌∷◌, ◌++◌, ◌==◌, leb, ltb, if◌then◌else◌, Run, ok, fault, ◌>>=◌, length, take, replicate, atoi,
}
use i_dcu_io_t.Driver.{utc}

-- Two bytes of a number, the lower first.
abbrev pub le16 : ℕ → List ℕ
le16 n = n % 256 ∷ (n / 256 % 256) ∷ []

-- What `READENV` holds of a gateway.
pub record Info : Type 0 where
  pub manufacturer : List ℕ
  pub producno : List ℕ
  pub gatenode : ℕ
  pub pan : ℕ
  pub sensornode : ℕ

-- A row of `transducerinfo`, its nine cells.
pub record Row : Type 0 where
  pub id : List ℕ
  pub min : List ℕ
  pub max : List ℕ
  pub offset : List ℕ
  pub level : List ℕ
  pub kind : List ℕ
  pub data_type : List ℕ
  pub unit_length : List ℕ
  pub unit : List ℕ

-- The table at one registration: whether it opens, the number that `count(*)` gives, the rows of
-- the second select (none where it fails), and whether `rtrn` that nothing has set is not -1.
pub record Table : Type 0 where
  pub opens : Bool
  pub count : ℕ
  pub rows : Option (List Row)
  pub unset : Bool

-- The system: whether the connect, the send and the answer of this number succeed, the table at a
-- registration, and the four bytes of the float of an int.
pub record System : Type 0 where
  pub connects : ℕ → Bool
  pub takes : ℕ → Bool
  pub answers : ℕ → Bool
  pub table : ℕ → Table
  pub float_bytes : ℕ → List ℕ

-- Whether `tcp` is above 0, the calls made so far, and the packets that `send` took.
pub record Server : Type 0 where
  pub connected : Bool
  pub connects : ℕ
  pub registrations : ℕ
  pub sends : ℕ
  pub sent : List (List ℕ)

-- `GateNode_Description_Registration`: the packet.
pub gate_node : Info → List ℕ
gate_node i =
    le16 0x0001
    ++ (le16 0x0036 ++ (le16 i.gatenode ++ (i.manufacturer ++ (i.producno ++ replicate 12 0))))

-- `PAN_Description_Registration`: the packet.
pub pan_node : Info → List ℕ
pan_node i =
    le16 0x0003
    ++ (le16 0x002f
        ++ (le16 i.gatenode
            ++ (le16 i.pan ++ (0xff ∷ (i.manufacturer ++ (i.producno ++ (0x09 ∷ 0x09 ∷ [])))))))

-- `SensorNode_Description_Registration`: the packet.
pub sensor_node : Info → List ℕ
sensor_node i =
    le16 0x0005
    ++ (le16 0x004b
        ++ (le16 i.gatenode
            ++ (le16 i.pan
                ++ (le16 i.sensornode
                    ++ ((71 ∷ replicate 11 0)
                        ++ (0x01
                            ∷ (utc 0x000000ff
                                ++ (i.manufacturer ++ (i.producno ++ replicate 12 0)))))))))

-- `memcpy( &env[i].DataUnit, cell, DataUnitLength )`: 32 bytes from a cell with its closing zero.
pub data_unit : ℕ → List ℕ → Run (List ℕ)
data_unit n cell =
    if leb n 32 && leb n (length cell + 1) then ok (take n (cell ++ (0 ∷ []))) else fault

-- What the server sends of a reading: `Struct_SensingValueReport`.
pub report : Info → ℕ → List ℕ → List ℕ
report i now bytes =
    le16 0x09
    ++ (le16 ((18 - 4 + length bytes) % 2 ^ 16)
        ++ (utc 0xffffffff
            ++ (le16 i.gatenode ++ (le16 i.pan ++ (le16 i.sensornode ++ (utc now ++ bytes))))))

-- What follows a step, where it was successful.
abbrev pub then_on : Bool × Server → (Server → Run (Bool × Server)) → Run (Bool × Server)
then_on (true, s) next = next s
then_on (false, s) next = ok (false, s)

-- What `init` does after a registration: the connection is closed after the last one that fails.
abbrev pub after : ℕ → (Server → Run (Bool × Server)) → Bool × Server → Run (Bool × Server)
after left again (true, s) = ok (true, s)
after zero again (false, s) = ok (false, record s { connected = false })
after (suc left) again (false, s) = again s

module _ (w : System) where
  -- `Transducer_Description_Registration`: one packet, of `sendSize` bytes.
  pub transducer : Info → Row → Run (List ℕ)
  transducer i r = do
    let n = atoi r.unit_length % 256
    unit ← data_unit n r.unit
    ok (
        le16 0x0007
        ++ (le16 (0x0043 + n)
            ++ (le16 i.gatenode
                ++ (le16 i.pan
                    ++ (le16 i.sensornode
                        ++ (le16 (atoi r.id)
                            ++ (i.manufacturer
                                ++ (i.producno
                                    ++ (w.float_bytes (atoi r.min)
                                        ++ (w.float_bytes (atoi r.max)
                                            ++ (w.float_bytes (atoi r.offset)
                                                ++ (w.float_bytes (atoi r.level)
                                                    ++ ((atoi r.kind % 256)
                                                        ∷ (atoi r.data_type % 256)
                                                        ∷ n
                                                        ∷ unit)))))))))))))

  -- The loop over `selectCount` rows; the table may have fewer.
  pub transducers : Info → ℕ → List Row → Run (List (List ℕ))
  transducers i zero rows = ok []
  transducers i (suc count) [] = fault
  transducers i (suc count) (r ∷ rows) = do
    p ← transducer i r
    ps ← transducers i count rows
    ok (p ∷ ps)

  -- `send`; a socket that is not open takes nothing.
  pub send : List ℕ → Server → Bool × Server
  send packet s =
      let taken = s.connected && w.takes s.sends in
      (
        taken,
        record s { sends = s.sends + 1; sent = if taken then s.sent ++ (packet ∷ []) else s.sent },
      )

  -- `sender`: the packet, and any answer within ten seconds; its bytes are not read.
  pub sender : List ℕ → Server → Bool × Server
  sender packet s = let r = send packet s in (r.0 && w.answers s.sends, r.1)

  -- The loop `while( selectCount )`: the packets from the last to the first.
  pub send_last_first : List (List ℕ) → Server → Bool × Server
  send_last_first [] s = (true, s)
  send_last_first (p ∷ ps) s =
      let r = send_last_first ps s in let here = sender p r.1 in if r.0 then here else r

  -- `Transducer_Description_Registration`: at most 256 packets; without one `rtrn` is not set.
  pub register_transducers : Info → Table → Server → Run (Bool × Server)
  register_transducers i t s = elim t.rows [
    | none ↦ ok (t.unset, s)
    | some rows ↦ elim rows [
      | [] ↦ ok (t.unset, s)
      | r ∷ rest ↦
          if t.count == 0
          then ok (t.unset, s)
          else if leb t.count 256
          then (transducers i t.count (r ∷ rest) >>= λ ps. ok (send_last_first ps s))
          else fault
    ]
  ]

  -- `ETRI_Registration`.
  pub etri_registration : Info → Server → Run (Bool × Server)
  etri_registration i s =
      let t = w.table s.registrations in
      let s' = record s { registrations = s.registrations + 1 } in
      if t.opens
      then then_on (sender (gate_node i) s') (λ a.
        then_on (sender (pan_node i) a)
          (λ b. then_on (sender (sensor_node i) b) (register_transducers i t)))
      else ok (false, s')

  -- `TCPClient`, where there is no connection.
  pub connect : Server → Bool × Server
  connect s = if s.connected then (true, s) else (
    w.connects s.connects,
    record s { connected = w.connects s.connects; connects = s.connects + 1 },
  )

  -- The loop of `init` with `reTry` at `suc left`.
  pub init_loop : Info → ℕ → Server → Run (Bool × Server)
  init_loop i zero s =
      then_on (connect s) (λ s'. etri_registration i s' >>= after zero (λ s''. ok (false, s'')))
  init_loop i (suc left) s =
      then_on (connect s) (λ s'. etri_registration i s' >>= after (suc left) (init_loop i left))

  -- `init`: three registrations at most.
  pub init : Info → Server → Run (Bool × Server)
  init i s = init_loop i 2 s

  -- The start of `main`: three times `init` at most.
  pub start_loop : Info → ℕ → Server → Run (Bool × Server)
  start_loop i zero s = ok (false, s)
  start_loop i (suc tries) s = init i s >>= λ r. if r.0 then ok r else start_loop i tries r.1

  -- A message of a driver, taken from the queue: one of type 1 is reported; where that is not
  -- taken, the connection is closed and made again, whatever comes of that. The message has at most
  -- 1024 bytes.
  pub serve : Info → ℕ → ℕ → List ℕ → Server → Run Server
  serve i now data_type bytes s =
      if data_type == 1
      then if leb (length bytes) 1024
        then (let r = send (report i now bytes) s in
            if r.0 then ok r.1 else (init i (record r.1 { connected = false }) >>= λ q. ok q.1))
        else fault
      else ok s

  -- The loop of `main`: messages of the queue, each with its type and the time at which it is served.
  pub serve_all : Info → List (ℕ × ℕ × List ℕ) → Server → Run Server
  serve_all i [] s = ok s
  serve_all i ((data_type, now, bytes) ∷ messages) s =
      serve i now data_type bytes s >>= serve_all i messages

  -- `main`: nothing is served where the start fails.
  pub tag_server : Info → List (ℕ × ℕ × List ℕ) → Server → Run Server
  tag_server i messages s =
      start_loop i 3 s >>= λ r. if r.0 then serve_all i messages r.1 else ok r.1
