-- ===== src/Bgp/Session/Connect.antt =====
-- crates/lb-bgp/src/speaker.rs: `connect`, from the socket to the KEEPALIVE that answers the
-- peer's OPEN. An offer is what the system and the peer do in one attempt.
use lb.Prelude.{
  Bool, List, Option, [], false, if◌then◌else◌, length, ltb, min, none, not, some, take, true, ℕ,
  ◌++◌, ◌-◌,
}
use lb.Types.Net.{Bytes, IpAddr, v4, v6}
use lb.Types.BgpConfig.{resolved_md5_password, password, password_error, PasswordResult}
use lb.Bgp.Session.{PeerSessionCtx, Effect, write_all}
use lb.Bgp.Messages.{
  encode_keepalive, encode_open, is_open, parse_message_type, parse_open_hold_time,
}
pub mod Laws

pub data BgpError : Type 0 where
  io incomplete_message not_open no_hold_time timeout : BgpError

pub record Offer : Type 0 where
  pub env_var : Bytes → Option Bytes
  pub socket : Bool
  pub setsockopt : Bool
  -- None when the time for it is over, else whether it was set up.
  pub connected : Option Bool
  pub writable : ℕ
  -- None when the read fails.
  pub reply : Option Bytes

pub data ConnectResult : Type 0 where
  negotiated : ℕ → ConnectResult
  refused : BgpError → ConnectResult

-- `apply_tcp_md5sig`, up to its call of `setsockopt`.
unfoldable pub apply_tcp_md5sig : IpAddr → Bytes → Bool → Bool
apply_tcp_md5sig (v4 ip) key setsockopt = if ltb 80 (length key) then false else setsockopt
apply_tcp_md5sig (v6 ip) key setsockopt = false

-- Whether the signature is installed where one is asked for.
unfoldable pub install_md5 : IpAddr → PasswordResult → Bool → Bool
unfolding apply_tcp_md5sig
install_md5 ip (password none) setsockopt = true
install_md5 ip (password (some key)) setsockopt = apply_tcp_md5sig ip key setsockopt
install_md5 ip (password_error e) setsockopt = false

-- The hold time out of the bytes that the peer answered with.
unfoldable pub negotiate : ℕ → Bytes → ConnectResult
negotiate our_hold buf =
    if ltb (length buf) 19
    then refused incomplete_message
    else if not (is_open (parse_message_type buf))
    then refused not_open
    else elim (parse_open_hold_time buf) [
      | none ↦ refused no_hold_time
      | some peer_hold ↦ negotiated (min our_hold peer_hold)
    ]

-- Past the answer, the KEEPALIVE.
unfoldable pub confirm : ℕ → ConnectResult → List Effect × ConnectResult
unfolding write_all
confirm writable (refused e) = ([], refused e)
confirm writable (negotiated hold) =
    let (out, written) = write_all writable encode_keepalive in
    (out, if written then negotiated hold else refused io)

-- Past our OPEN, what is read, into a buffer of 4096 bytes.
unfoldable pub on_reply : ℕ → ℕ → Option Bytes → List Effect × ConnectResult
unfolding confirm negotiate
on_reply our_hold writable none = ([], refused io)
on_reply our_hold writable (some buf) = confirm writable (negotiate our_hold (take 4096 buf))

unfoldable pub handshake : PeerSessionCtx → Offer → ℕ → List Effect × ConnectResult
unfolding write_all on_reply
handshake ctx offer our_hold =
    let (out, written) =
      write_all offer.writable (encode_open ctx.local_asn our_hold ctx.router_id) in
    if not written
    then (out, refused io)
    else let (out', result) = on_reply our_hold (offer.writable - 1) offer.reply in
      (out ++ out', result)

-- Past the time for the connection.
unfoldable pub on_connected : PeerSessionCtx → Offer → ℕ → Option Bool → List Effect × ConnectResult
unfolding handshake
on_connected ctx offer our_hold none = ([], refused timeout)
on_connected ctx offer our_hold (some false) = ([], refused io)
on_connected ctx offer our_hold (some true) = handshake ctx offer our_hold

unfoldable pub connect : PeerSessionCtx → Offer → ℕ → List Effect × ConnectResult
unfolding install_md5 resolved_md5_password on_connected
connect ctx offer our_hold =
    if not offer.socket
    then ([], refused io)
    else if not (
        install_md5 ctx.peer.peer_ip (resolved_md5_password offer.env_var ctx.peer)
          offer.setsockopt)
    then ([], refused io)
    else on_connected ctx offer our_hold offer.connected
