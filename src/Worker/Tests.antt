-- ===== src/Worker/Tests.antt =====
-- A RADIUS worker on a request, its response, and a timeout; and the two plain threads.
use traffic_inspector.Base.{ℕ, ◌≡◌, refl, true, false, List, [], ◌∷◌, ok, some, none, arith}
use traffic_inspector.Packets.Types.{processing, sync_timeout, shutdown}
use traffic_inspector.Packets.Radius.{RadiusPacket, radius_control, radius_session_pair}
use traffic_inspector.Packets.Radius.Receive.{built}
use traffic_inspector.Packets.Samples.{request_frame, response_frame, item}
use traffic_inspector.Packets.Udp.{UdpPacket, udp_control}
use traffic_inspector.Packets.Tcp.{TcpPacket, tcp_control}
use traffic_inspector.Worker.Notify.{provide_data}
use traffic_inspector.Worker.SessionMap.{find, erase, insert}
use traffic_inspector.Worker.Pairing.{report}
use traffic_inspector.Worker.Ledger.{ledger_of, settle}
use traffic_inspector.Worker.Ledger.Refines.{process_packets-settle}
use traffic_inspector.Worker.Accounting.{Runs, ends, process_packets_accounted}
use traffic_inspector.Worker.Exchange.{turn_of, process_packets_exchange}
use traffic_inspector.Packets.Avp.{parse_raw}
use traffic_inspector.Packets.Radius.{radius_from_raw}
use traffic_inspector.Packets.Avp.Storage
use traffic_inspector.Worker.Plain.{
  PlainTurn, process_udp_packets, process_tcp_packets, Ended, process_plain_packets-Ended,
}
use traffic_inspector.Worker.{
  Settings, Worker, Turn, new_worker, is_late, on_sync_timeout, on_keyed, session_key,
  process_packets, process_packet, on_packet, sweep, stamp,
}

abbrev pub settings : Settings
settings = record { garbage = λ p. 7; response_timeout_msec = 2000; source_id = 1 ∷ [] }

abbrev pub request : RadiusPacket
request = built (item request_frame 69) ((1, 90 ∷ []) ∷ (44, 65 ∷ 66 ∷ []) ∷ [])

abbrev pub response : RadiusPacket
response = built (item response_frame 69) ((1, 90 ∷ []) ∷ (44, 65 ∷ 66 ∷ []) ∷ [])

abbrev turn : RadiusPacket → Turn
turn p = record { stop_flag = false; packet = p; now = 6000; monotonic = 100 }

abbrev turns : List Turn
turns =
    turn request
    ∷ turn response
    ∷ turn request
    ∷ turn (radius_control sync_timeout)
    ∷ turn (radius_control shutdown)
    ∷ []

abbrev waiting : Worker
waiting = record new_worker { sessions = (77, request) ∷ [] }

-- The pair is matched; the second request is 1000 ms old at the sweep, and stays.
run_turns :
    process_packets settings turns new_worker
    ≡ ok (
      true,
      record waiting { notifications = report settings 100 response request ∷ []; m_stop = true },
    )
unfolding process_packets process_packet on_packet on_keyed session_key radius_session_pair find
    erase insert provide_data on_sync_timeout sweep is_late stamp radius_control
run_turns = refl

request_key : session_key settings request ≡ ok 77
unfolding session_key radius_session_pair
request_key = refl

response_key : session_key settings response ≡ ok 77
unfolding session_key radius_session_pair
response_key = refl

timeout_key : session_key settings (radius_control sync_timeout) ≡ ok 7
unfolding session_key radius_control
timeout_key = refl

shutdown_key : session_key settings (radius_control shutdown) ≡ ok 7
unfolding session_key radius_control
shutdown_key = refl

process_packets_accounted_example : Runs settings turns new_worker
process_packets_accounted_example =
    process_packets_accounted settings turns new_worker
      (record { keys = tt; interval = refl; counter = omega arith })
      (
        (77, request_key),
        ((77, response_key), ((77, request_key), ((7, timeout_key), ((7, shutdown_key), tt)))),
      )

process_packets-settle_example :
    (w' : Worker) × (process_packets settings turns new_worker ≡ ok (ends turns, w'))
    × (ledger_of w' ≡ settle settings turns (ledger_of new_worker))
process_packets-settle_example =
    process_packets-settle settings turns new_worker
      (record { keys = tt; interval = refl; counter = omega arith })
      (
        (77, request_key),
        ((77, response_key), ((77, request_key), ((7, timeout_key), ((7, shutdown_key), tt)))),
      )

abbrev udp_turns : List (PlainTurn UdpPacket)
udp_turns =
    (false, udp_control sync_timeout)
    ∷ (false, udp_control shutdown)
    ∷ (false, udp_control processing)
    ∷ []

abbrev tcp_turns : List (PlainTurn TcpPacket)
tcp_turns = (false, tcp_control processing) ∷ (true, tcp_control processing) ∷ []

process_plain_packets-Ended_example :
    Ended
      (λ p. p.ctrl_message_id)
      udp_turns
      (process_udp_packets udp_turns).0
      (process_udp_packets udp_turns).1
    × Ended
        (λ p. p.ctrl_message_id)
        tcp_turns
        (process_tcp_packets tcp_turns).0
        (process_tcp_packets tcp_turns).1
process_plain_packets-Ended_example = process_plain_packets-Ended udp_turns tcp_turns

pub request_built : radius_from_raw false (some (item request_frame 69)) ≡ ok (request, none)
unfolding radius_from_raw parse_raw traffic_inspector.Packets.Avp.Storage.insert
request_built = refl

pub response_built : radius_from_raw false (some (item response_frame 69)) ≡ ok (response, none)
unfolding radius_from_raw parse_raw traffic_inspector.Packets.Avp.Storage.insert
response_built = refl

process_packets_exchange_example :
    (w' : Worker) × (process_packets settings
        (turn_of request 6000 90 ∷ turn_of response 6010 100 ∷ [])
        new_worker
      ≡ ok (false, w'))
    × ((i : ℕ) → find i w'.sessions ≡ find i [])
    × (w'.notifications ≡ report settings 100 response request ∷ [])
process_packets_exchange_example =
    process_packets_exchange false settings (item request_frame 69) (item response_frame 69)
      request_frame response_frame request response 6000 90 6010 100 new_worker refl refl
      request_built response_built
      (record {
        source = refl;
        destination = refl;
        source_port = refl;
        destination_port = refl;
        identifier = refl;
      })
      (record { keys = tt; interval = refl; counter = omega arith }) (unfold find in refl)
