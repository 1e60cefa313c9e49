-- ===== src/M2m/Packets.antt =====
-- src/M2MManager.c: `Pack_Manager` and the commands of a packet.
pub mod Calls
use i_dcu_io_t.Common.{
  ℕ, ◌+◌, ◌*◌, ◌/◌, ◌%◌, Bool, true, false, ◌&&◌, ◌||◌, List, [], ◌∷◌, ◌++◌, ◌==◌, leb, two,
  if◌then◌else◌, Run, ok, ◌>>=◌, read, memcpy, take, replicate,
}
use i_dcu_io_t.Iot.Command.{Selected, failed, rows}
use i_dcu_io_t.M2m.Tables.{Logged, status_reply, data_reply, node_reply}

-- What the program does to the outside: bytes for the client, messages for the two queues, rows
-- of a node deleted, and the system's clock set from a text.
pub data Act : Type 0 where
  write : List ℕ → Act
  event_message : List ℕ → Act
  node_message : List ℕ → Act
  delete_node : ℕ → Act
  set_clock : List ℕ → Act

-- What the selects give, and whether `getDiffTime` is negative for a call time.
pub record World : Type 0 where
  pub status : Selected
  pub log : List ℕ → Logged
  pub nodes : Selected
  pub is_future : List ℕ → Bool

-- The bounds that `AustemTimeSync` tests; `char` is unsigned on this machine.
unfoldable pub is_settable : ℕ → ℕ → ℕ → ℕ → ℕ → ℕ → Bool
is_settable year month day hour minute sec =
    leb 12 year
    && leb year 99
    && leb 1 month
    && leb month 12
    && leb 1 day
    && leb day 31
    && leb hour 24
    && leb minute 59
    && leb sec 59

-- `AustemTimeSync`: its result, and the clock that it sets. The text is MMDDhhmm20YY.ss.
pub austem_time_sync : ℕ → ℕ → ℕ → ℕ → ℕ → ℕ → List Act → Bool × List Act
austem_time_sync year month day hour minute sec acts =
    if is_settable year month day hour minute sec
    then (
      true,
      acts
          ++ (set_clock (
                two month
                ++ (two day
                    ++ (two hour ++ (two minute ++ (50 ∷ 48 ∷ (two year ++ (46 ∷ two sec)))))))
              ∷ []),
    )
    else (false, acts)

-- `case TIMESYNC`.
pub time_sync : List ℕ → List Act → Run (List Act)
time_sync buffer acts = do
  year ← read buffer 5
  month ← read buffer 6
  day ← read buffer 7
  hour ← read buffer 8
  minute ← read buffer 9
  sec ← read buffer 10
  let (done, after) = austem_time_sync year month day hour minute sec acts
  ok (
      after
      ++ (write (
            0xfe
            ∷ 0
            ∷ 0x0d
            ∷ 0x0a
            ∷ 0
            ∷ 0x0a
            ∷ 2
            ∷ 7
            ∷ 0x54
            ∷ year
            ∷ month
            ∷ day
            ∷ hour
            ∷ minute
            ∷ sec
            ∷ (if done then 0 else 1)
            ∷ 0xff
            ∷ [])
          ∷ []))

-- `commandM2MConfig` and `commandNodeConfig`: the `len` bytes of a message.
unfoldable pub message : List ℕ → ℕ → Run (List ℕ)
message buffer len = do
  data_buff ← memcpy (replicate 1024 0) 0 buffer 0 len
  ok (take len data_buff)

-- `getNodeStatusData`: nothing is sent where the select fails.
pub get_node_status_data : Selected → List ℕ → List Act → Run (List Act)
get_node_status_data failed time acts = ok acts
get_node_status_data (rows rs) time acts = do
  bytes ← status_reply time rs
  ok (acts ++ (write bytes ∷ []))

pub command_get_node_info : Selected → List Act → Run (List Act)
command_get_node_info failed acts = ok acts
command_get_node_info (rows rs) acts = do bytes ← node_reply rs; ok (acts ++ (write bytes ∷ []))

-- `case GETDATA`: the state now for the year 99 or a time to come, or else the log.
pub get_data : World → List ℕ → List Act → Run (List Act)
get_data w buffer acts = do
  year ← read buffer 4
  month ← read buffer 5
  day ← read buffer 6
  hour ← read buffer 7
  minute ← read buffer 8
  sec ← read buffer 9
  let time = year ∷ month ∷ day ∷ hour ∷ minute ∷ sec ∷ []
  if (year == 99) || w.is_future time
      then get_node_status_data w.status time acts
      else (do bytes ← data_reply time (w.log time); ok (acts ++ (write bytes ∷ [])))

-- `case REBOOTNODE`: node 0 stands for the program itself as well.
pub reboot_node : ℕ → List ℕ → List Act → List Act
reboot_node nodeid m acts =
    if nodeid == 0
    then acts ++ (node_message m ∷ event_message m ∷ [])
    else acts ++ (node_message m ∷ [])

-- `Pack_Manager`.
unfoldable pub pack_manager : World → List ℕ → ℕ → List Act → Run (List Act)
pack_manager w buffer len acts = do
  type ← read buffer 2
  nodeid ← read buffer 4
  if type == 2
      then time_sync buffer acts
      else if type == 3
      then get_data w buffer acts
      else if type == 5
      then command_get_node_info w.nodes acts
      else if type == 4
      then (do m ← message buffer len; ok (acts ++ (event_message m ∷ delete_node nodeid ∷ [])))
      else if type == 0x12
      then (do
        m ← message buffer len
        ok (acts ++ (node_message m ∷ event_message m ∷ delete_node nodeid ∷ [])))
      else if type == 1
      then (do m ← message buffer len; ok (reboot_node nodeid m acts))
      else ok acts
