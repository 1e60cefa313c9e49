-- ===== src/Lib.antt =====
-- The iDCU gateway of this repository. A counter board on a serial line counts pulses on eight
-- ports and sees eight inputs. The gateway (src/IoTManager.c) reads its frames, holds the last
-- counters and inputs, keeps the counters in a table of SQLite, and answers TCP clients. The
-- driver (src/driver/iDCU_IoT.c) is such a client: it polls the gateway in turn for the inputs
-- and the counters and hands changes to a message queue. The M2M program (src/M2MManager.c) is
-- another server: it answers calls for the state and the log of nodes from its tables, sets the
-- clock, and passes commands on to two message queues. The communication manager
-- (src/CommManager.c) takes them from one of these to the nodes on a serial line, and hands the
-- frames of the nodes to the queue of the tags. The drivers of the PLCS controllers
-- (src/driver/PLCS_12.c and its two relatives) turn lines of fields into messages for that queue,
-- and the tag server (src/tagServer.c) reports its messages to the middleware, where it registers.
-- A last driver (src/driver/GN1200.c) shows the temperatures of a Modbus meter. The set-up server
-- (src/SetupManager.c) writes the configuration files of the network and reads them back for the
-- set-up program.
--
-- Files:
--   Common        outcomes of C functions (`Run`), arrays and `memcpy`, the `for` loop whose body
--                 moves its index (`scan`), bytes of words, bit masks, `sprintf "%ld"` and `atoi`
--   Storage       src/lib/sqliteManager.c: `_sqlite3_transaction`
--   Iot/Serial    src/IoTManager.c: `uartParsingReceiveValue`, `_uartGetCheckSum`, the loop of `main`
--   Iot/Event     src/IoTManager.c: `receiveEvent`, `CreateSync`, `thread_syncCount`
--   Iot/Command   src/IoTManager.c: `CommandProcess` and its commands, `init`
--   Iot/Server    src/IoTManager.c: `ParsingReceiveValue`, the receiving loop of `SocketPorcess`
--   Driver        src/driver/iDCU_IoT.c: its requests, parser, tags and receiving loop
--   M2m           src/M2MManager.c: `ParsingReceiveValue`, the receiving loop of `Socket_Manager`
--   M2m/Packets   src/M2MManager.c: `Pack_Manager`, `AustemTimeSync` and the commands
--   M2m/Tables    src/M2MManager.c: `getNodeStatusData`, `getNodeData`, `commandGetNodeInfo`
--   M2m/Replies   src/M2MManager.c: `tlvSendBuffer` and `_getCheckSum`
--   Comm          src/CommManager.c: `ParsingReceiveValue`, `selectTag`, `remoteNodeCommand`, the loop
--                 of `main`
--   Uart          src/UartManager.c: `ParsingReceiveValue`, of the older bridge to the serial line
--   Plcs          src/driver/PLCS_12.c: `ParsingReceiveValue_12`, `selectTag_12`, the receiving loop
--   Plcs/Ten      src/driver/PLCS_10.c: the same functions, where they differ
--   Plcs/Indexed  src/driver/PLCS_12ex.c: `createETRIPacketFormat`, and where it differs
--   Etri          src/tagServer.c: `main` and `init`; src/lib/ETRI_Registration.c; `sender` of
--                 src/lib/TCPSocket.c
--   Gn1200        src/driver/GN1200.c: `CRC16`, `ParsingReceiveValue`, `selectTag`, the receiving loop
--   Config        src/SetupManager.c: `ReadNetworkConfig`, `WriteNetworkConfig`; src/lib/configRW.c:
--                 `ReadNetworkUseConfig`, `WriteNetworkUseConfig`; files as texts, `fgets`
--   Config/Env    src/lib/configRW.c: `ReadTransducer`, `ReadDeviceInfo`, `ReadEnvConfig`
--   Config/Security  src/SetupManager.c: `ReadSecurityConfig`, `WriteSecurityConfig`,
--                 `WriteSecurityScript` on the bytes of `struct security_var`
--   Setup         src/SetupManager.c: `Pack_Manager` with GETLANINFO and SETLANINFO, the loop
--   Common/Xor    laws of exclusive or; Common/Masks of `&` with masks
--   Common/Text   C strings, `strtok`; src/lib/stringTrim.c
-- The modules below each of these hold its theorems; the modules called Tests run them on
-- concrete bytes.
--
-- State. A receiving loop is a step (`turn`) on a record of the locals that outlive a read
-- (`Link`, `Conn`); the bytes that the system call brings are its argument, so a run is a sequence
-- of turns. The parser takes its handler as a section parameter, as the code calls it, and threads
-- the device through it. What goes to the outside is a list of effects of the device.
--
-- Machine. The code runs on a 32-bit ARM: UINT32 is `unsigned long` of 32 bits, the lowest byte
-- first in memory. Bytes and words are ℕ; a sum into an unsigned char is taken modulo 2 ^ 8. An
-- access outside an array, also the one that a negative size gives, is the outcome `fault`. The
-- content of an array on the stack that the code does not set is the argument `stack`.
--
-- Fuel. `scan` is given `len + 1` rounds for a loop over `len` bytes; each round moves the index
-- forward, so it is enough, and the theorems say that a result is returned. The loop of
-- UartManager.c moves its index back: its number of rounds is an argument. The loop that repeats
-- END TRANSACTION has no bound in the code: `patience` bounds it, and the theorems that need its
-- end assume that END TRANSACTION succeeds, or ends with SQLITE_ERROR, within the patience.
--
-- Not modelled: `sqlite3_exec` is a parameter by the number of its call, the rows of a select are
-- a parameter (no cell is NULL), `getDiffTime` is a parameter, sockets, threads, signals and the
-- clock are left out, and so is the array `settime` of `AustemTimeSync`. The thread that sends the
-- counters is taken to run at once. The address that `trim` returns is that of a dead local array:
-- its bytes are taken to last until the caller has read them. The table of the transducers, the
-- float of an int and the success of each connect, send and answer are parameters, and so are
-- `inet_addr`, of which the theorems assume that it reads what `inet_ntoa` wrote, and the results of
-- the scripts that the set-up server runs; its files are taken to be there. Logging and printing
-- have no effect here.
pub mod Common
pub mod Storage
pub mod Iot
pub mod Driver
pub mod M2m
pub mod Comm
pub mod Uart
pub mod Plcs
pub mod Etri
pub mod Gn1200
pub mod Config
pub mod Setup
