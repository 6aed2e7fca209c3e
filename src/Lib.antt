-- ===== src/Lib.antt =====
-- Verification of the core of the LoRaWAN gateway forwarder in src/fwd (a Dragino packet
-- forwarder for the LPS8 with SX1301 and SX1302 concentrators).
--
-- The forwarder takes uplinks from the concentrator, hands each to the services (Semtech UDP,
-- MQTT, packet, relay, delay), each of which filters and decodes it, and sends the downlinks of
-- the services at their time. Thirteen parts of that are modelled, each in a module of its own
-- with the proofs in child modules and the tests in Tests:
--
--   Jit: the queue of downlinks, src/fwd/src/jitqueue.c. Jit.Types has the records of
--   jitqueue.h and loragw_hal.h, Jit.Queue the tests, the sorting and jit_dequeue, Jit.Enqueue
--   jit_enqueue with its slot search, Jit.Peek jit_peek. Jit.Platform holds what comes from
--   elsewhere: qsort_r and lgw_time_on_air, of which nothing is assumed; where a proof needs
--   that a packet takes less than half of the counter's period on air, that is a condition of
--   the theorem.
--   Base64: src/fwd/src/base64.c, the payloads of the Semtech protocol.
--   Mac: the parsers of src/fwd/src/mac-header-decode.c, with its records and bit fields, and
--   in Mac.Report the traffic records of decode_mac_pkt_up and decode_mac_pkt_down.
--   Crypto: src/fwd/src/loramac-crypto.c; the functions take the static block and return it.
--   AES and CMAC are parameters.
--   Forward: the list of received packets that the services share, src/fwd/src/fwd.c:
--   get_rxpkt, thread_up and thread_rxpkt_recycle with the entries, stamps and counts of
--   src/fwd/inc/gwcfg.h. What lgw_receive, ghost_get and delay_pkt_get give is an argument.
--   Forward.Pending reads the stamps as one queue per service, Forward.Runs has the runs of the
--   threads in any order.
--   Packet: the downlinks of src/fwd/src/pkt_serv.c: prepare_frame over Crypto, in
--   Packet.Downlink custom_rx2dn over Jit and the receive windows of pkt_start, in
--   Packet.Uplink the search for the counter of an uplink, and in Packet.DnList the list of
--   waiting downlinks.
--   Transmit: thread_jit of src/fwd/src/fwd.c for one chain, with the search for the state of
--   the channel under LBT and the counters. The concentrator is a parameter.
--   Delay: src/fwd/src/delay_serv.c, the uplinks kept while the network is down. Delay.Queue is
--   the queue of batches that the list (Delay.Listed) and the table (Delay.Stored) stand for;
--   Delay.Outage puts the service together with Forward.
--   Ghost: the buffer of src/fwd/src/ghost.c, the third source of thread_up.
--   Service: the filter, the dispatch and the checksum of src/fwd/src/service.c. The key
--   database is a parameter.
--   Semtech: the Semtech service, src/fwd/src/semtech_serv.c. Semtech.Datagram composes the
--   datagram of uplinks, over Mac, Service and Base64, and Semtech.Push sends it and waits for
--   its acknowledgement: together thread_push_up. Semtech.Fetch is the loop of semtech_push_up,
--   which takes entries off the list of Forward. Semtech.Pull has the rounds of
--   semtech_pull_down up to the end of the process or a write outside of an array,
--   Semtech.Beacons the beacons that they put into the queue, Semtech.Txpk the reading of a
--   downlink and Semtech.Downlink its way to the queue of Jit; Semtech.TxAck and Semtech.Power
--   are send_tx_ack and get_tx_gain_lut_index of src/fwd/src/fwd.c. The JSON library, snprintf
--   and sscanf are parameters. Transmit.Scan has lbt_enqueue and a pass of thread_lbt_scan,
--   Transmit.Registered puts them together with thread_jit.
--   TimerSync: src/fwd/src/timersync.c, by which the host knows the counter that the queue is
--   timed with.
--   Util: the helpers of src/fwd/src/utilities.c that the others use.
--
-- Base has the comparisons, the lists that stand for C arrays, and the laws of the bit
-- operations. Functions keep their C names (jit_enqueue, lora_mac_parser_data for
-- LoRaMacParserData); a pointer that a function writes through is a further result. Numbers are
-- natural numbers; the casts and the wrap-around of uint8_t, uint16_t and uint32_t are written
-- out as u8, u16, u32, add32 and sub32. Mutexes are left out: each function is one step. The
-- builds define BIGENDIAN: a word is stored with its highest byte first.
--
-- Loops are recursions on the lists, except for the search of jit_peek, which starts again when
-- it drops a packet: it runs on 2000 steps of fuel, more than the 32 restarts of at most 33
-- steps each that a queue of 32 packets can need. The loop of semtech_push_up runs on fuel as
-- well; one step more than there are entries left for the service is enough.
--
-- A run of Forward has at most seven services that take packets, since the stamp is one bit of
-- uint8_t and the lowest bit is not given out.
--
-- Not modelled: the other services (MQTT, relay, traffic), in the Semtech service the packets
-- of beacons and the copy of downlinks for the relay, the start-up of fwd.c, the configuration,
-- the databases, the concentrator libraries and the other third-party code (their functions are
-- parameters where they are used), threads, sockets, logs.
pub mod Base
pub mod Base64
pub mod Jit
pub mod Util
pub mod Mac
pub mod Forward
pub mod Packet
pub mod Delay
pub mod Transmit
pub mod Ghost
pub mod Service
pub mod Semtech
pub mod TimerSync
pub mod Crypto
