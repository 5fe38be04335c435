-- ===== src/Bgp/Session/Tests.antt =====
-- Sessions of one peer.
use lb.Bgp.Session.Connect.Laws.{negotiate-encode_open}
use lb.Prelude.{List, [], arith, false, none, refl, some, true, ℕ, ◌*◌, ◌+◌, ◌∷◌, ◌≡◌}
use lb.Prelude.Checked.{value, panic}
use lb.Types.Net.{v4, Ipv4Addr}
use lb.Types.Ttls.{second}
use lb.Types.BgpConfig.{BgpPeerConfig}
use lb.Bgp.Messages.{encode_notification, encode_open}
use lb.Bgp.Session.{
  PeerSessionCtx, Turn, Effect, hold_sleep, read, recv, announce, withdraw, drive,
  keepalive_interval, keepalives_enabled, wrote, hold_timer_expired_after, drive_from, on_arm,
  on_hold, write_all, transient_end, hold_deadline, later,
}
use lb.Types.BgpConfig.{resolved_md5_password}
use lb.Bgp.Messages.{encode_keepalive, is_open, parse_message_type, parse_open_hold_time}
use lb.Bgp.Session.Connect.{
  install_md5, on_connected, handshake, on_reply, confirm, apply_tcp_md5sig, Offer, connect,
  timeout, negotiate, negotiated,
}
use lb.Bgp.Session.Run.{elapsed, Attempt, run, woken, pausing, drain_queue, stops}
use lb.Bgp.Session.Run.Pauses.{Fails, pauses_in, pauses_from, pause_after, run-pauses}
use lb.Bgp.Session.Run.Rounds.{EachSound, FollowsPhases, run-Follows}
use lb.Bgp.Session.Deadline.{Silence, drive-Silence, is_expiry}
use lb.Bgp.Session.Panic.{drive-Sends, drive_zero-panic}
use lb.Bgp.Session.Laws.{Sends}

abbrev address : Ipv4Addr
address = record { a = 192; b = 0; c = 2; d = 1 }

abbrev peer : BgpPeerConfig
peer = record {
  peer_ip = v4 address;
  peer_asn = 65001;
  port = 179;
  hold_time_secs = some 3;
  communities = none;
  enabled = true;
  md5_password = none;
  md5_password_env = none;
}

abbrev ctx : PeerSessionCtx
ctx = record { peer = peer; local_asn = 65000; router_id = address }

-- The last second that a `timespec` holds, and the nanoseconds in it.
abbrev last_instant : ℕ
last_instant = 9_223_372_036_854_775_807 * second + 999_999_999

abbrev quiet : List Turn
quiet =
    record { arm = recv (some (announce (address ∷ []))); now = 2 * second; writable = 5 }
    ∷ record { arm = read (some (1 ∷ 2 ∷ [])); now = 3 * second; writable = 5 }
    ∷ record { arm = hold_sleep; now = 6 * second; writable = 5 }
    ∷ []

drive-Sends_example : Sends (drive last_instant ctx 3 (1 * second) quiet)
drive-Sends_example =
    drive-Sends last_instant ctx 3 (1 * second) quiet (omega arith) (omega arith)
      (omega arith, (omega arith, (omega arith, tt)))

drive_zero-panic_example : drive last_instant ctx 0 (2 * second) quiet ≡ panic
drive_zero-panic_example = drive_zero-panic last_instant ctx (2 * second) quiet (omega arith)

-- Two seconds of hold time, and the timer at the third.
abbrev silent : List Turn
silent = record { arm = hold_sleep; now = 3 * second; writable = 1 } ∷ []

drive-Silence_example : Silence 2 (1 * second) silent
unfolding drive drive_from on_arm on_hold write_all transient_end keepalive_interval
    keepalives_enabled hold_deadline later is_expiry encode_notification
drive-Silence_example =
    drive-Silence last_instant ctx 2 (1 * second) silent (wrote (encode_notification 4 0) ∷ [])
      record { reason = hold_timer_expired_after 2; terminal = false } refl refl

-- The time to connect is over at each attempt.
abbrev dead : Offer
dead = record {
  env_var = λ _. none;
  socket = true;
  setsockopt = true;
  connected = none;
  writable = 0;
  reply = none;
}

abbrev failing : Attempt
failing = record {
  queued = withdraw (address ∷ []) ∷ [];
  offer = dead;
  now = 0;
  turns = [];
  wake = woken (some (announce []));
}

-- Nothing ends the pause.
abbrev patient : Attempt
patient = record failing { wake = elapsed }

failures : Fails ctx 3 (failing ∷ patient ∷ [])
unfolding Fails drain_queue connect stops
failures = (refl, (timeout, refl), refl, (refl, (timeout, refl), refl, tt))

run-pauses_example :
    (out : List Effect) × (run last_instant ctx (failing ∷ patient ∷ [])
      ≡ value (out, pausing (pause_after 2)))
    × (pauses_in out ≡ pauses_from 0 (failing ∷ patient ∷ []))
run-pauses_example = run-pauses last_instant ctx (failing ∷ patient ∷ []) failures

-- The peer answers with its OPEN, the connection holds for two turns, and the next one fails.
abbrev answering : Attempt
answering = record {
  queued = [];
  offer = record dead {
    connected = some true;
    writable = 5;
    reply = some (encode_open 65001 90 address);
  };
  now = 1 * second;
  turns = quiet;
  wake = elapsed;
}

sound : EachSound last_instant ctx 3 (answering ∷ failing ∷ [])
unfolding EachSound connect install_md5 on_connected handshake on_reply confirm negotiate write_all
    encode_open encode_keepalive resolved_md5_password apply_tcp_md5sig is_open parse_message_type
    parse_open_hold_time
sound = ((omega arith, omega arith, (omega arith, (omega arith, (omega arith, tt)))), (tt, tt))

run-Follows_example : FollowsPhases (run last_instant ctx (answering ∷ failing ∷ []))
run-Follows_example = run-Follows last_instant ctx (answering ∷ failing ∷ []) sound

negotiate-encode_open_example :
    (negotiate 3 (encode_open 65001 90 address) ≡ negotiated 3)
    × (negotiate 90 (encode_open 65000 3 address) ≡ negotiated 3)
negotiate-encode_open_example =
    negotiate-encode_open 3 90 65000 65001 address address (omega arith) (omega arith)
