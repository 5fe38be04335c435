-- ===== src/Bgp/Session/Run/Protocol.antt =====
-- The order of what a peer's task does, as a relation between phases.
use lb.Types.BgpConfig.{resolved_md5_password}
use lb.Bgp.Messages.{encode_keepalive, encode_open}
use lb.Bgp.Messages.Laws.{IsFrame, encode_keepalive-IsFrame, encode_open-IsFrame}
use lb.Prelude.{
  List, [], suc, zero, ℕ, ◌*◌, ◌++◌, ◌∷◌, ◌≤◌, Bool, Option, false, none, not, some, true, ◌-◌,
}
use lb.Prelude.Checked.{if-holds}
use lb.Types.Net.{Bytes, IpAddr}
use lb.Types.Ttls.{second}
use lb.Bgp.Session.{
  PeerSessionCtx, Effect, wrote, emitted, state_set, slept, Reason, BgpEvent, peer_connected,
  peer_disconnected, connecting, established, backoff, idle, write_all, encode_keepalive,
}
use lb.Bgp.Session.Laws.{Written, IsReport}
use lb.Bgp.Session.Connect.{
  connect, handshake, confirm, on_reply, on_connected, install_md5, io, ConnectResult, negotiated,
  refused, Offer,
}

pub data Phase : Type 0 where
  resting trying greeting up closing waiting stopped : Phase

pub data Moves : Phase → Effect → Phase → Type 0 where
  begin : Moves resting (state_set connecting) trying
  greet : {b : Bytes} → IsFrame b → Moves trying (wrote b) trying
  establish : Moves trying (state_set established) greeting
  connect_up : {ip : IpAddr} → Moves greeting (emitted (peer_connected ip)) up
  send : {b : Bytes} → IsFrame b → Moves up (wrote b) up
  report : {e : BgpEvent} → IsReport e → Moves up (emitted e) up
  close : {ip : IpAddr} {r : Reason} → Moves up (emitted (peer_disconnected ip r)) closing
  give_up : Moves trying (state_set backoff) waiting
  retreat : Moves closing (state_set backoff) waiting
  pause :
      {d : ℕ} {all : Bool} → 1 * second ≤ d → d ≤ 60 * second → Moves waiting (slept d all) resting
  stop : Moves resting (state_set idle) stopped
  stop_closing : Moves closing (state_set idle) stopped

pub data Follows : Phase → List Effect → Phase → Type 0 where
  done : {p : Phase} → Follows p [] p
  next :
      {p q r : Phase} {e : Effect} {es : List Effect}
      → Moves p e q
      → Follows q es r
      → Follows p (e ∷ es) r

pub Follows-append :
    {p q r : Phase} (xs ys : List Effect) → Follows p xs q → Follows q ys r → Follows p (xs ++ ys) r
Follows-append [] ys done k = k
Follows-append (x ∷ xs) ys (next m f) k = next m (Follows-append xs ys f k)

pub Written-Follows : (out : List Effect) → Written out → Follows up out up
unfolding Written
Written-Follows [] h = done
Written-Follows (wrote b ∷ out) (f, h) = next (send f) (Written-Follows out h)
Written-Follows (emitted e ∷ out) (r, h) = next (report r) (Written-Follows out h)
Written-Follows (state_set s ∷ out) h = elim h [ ]
Written-Follows (slept d all ∷ out) h = elim h [ ]

-- Only frames, and nothing else: the part of an attempt before there is a session.
unfoldable pub Greets : List Effect → Type 0
Greets [] = Unit
Greets (wrote b ∷ out) = IsFrame b × Greets out
Greets (emitted e ∷ out) = ⊥
Greets (state_set s ∷ out) = ⊥
Greets (slept d all ∷ out) = ⊥

pub Greets-Follows : (out : List Effect) → Greets out → Follows trying out trying
unfolding Greets
Greets-Follows [] h = done
Greets-Follows (wrote b ∷ out) (f, h) = next (greet f) (Greets-Follows out h)
Greets-Follows (emitted e ∷ out) h = elim h [ ]
Greets-Follows (state_set s ∷ out) h = elim h [ ]
Greets-Follows (slept d all ∷ out) h = elim h [ ]

Greets-append : (xs ys : List Effect) → Greets xs → Greets ys → Greets (xs ++ ys)
unfolding Greets
Greets-append [] ys h k = k
Greets-append (wrote b ∷ xs) ys (f, h) k = (f, Greets-append xs ys h k)
Greets-append (emitted e ∷ xs) ys h k = elim h [ ]
Greets-append (state_set s ∷ xs) ys h k = elim h [ ]
Greets-append (slept d all ∷ xs) ys h k = elim h [ ]

write_all-Greets : (writable : ℕ) (msg : Bytes) → IsFrame msg → Greets (write_all writable msg).0
unfolding write_all Greets
write_all-Greets zero msg f = tt
write_all-Greets (suc writable) msg f = (f, tt)

confirm-Greets : (writable : ℕ) (r : ConnectResult) → Greets (confirm writable r).0
unfolding confirm Greets
confirm-Greets writable (refused e) = tt
confirm-Greets writable (negotiated hold) =
    write_all-Greets writable encode_keepalive encode_keepalive-IsFrame

-- Still trying after those writes.
abbrev pub Trying : List Effect × ConnectResult → Type 0
Trying r = Greets r.0

on_reply-Greets :
    (hold writable : ℕ) (reply : Option Bytes) → Greets (on_reply hold writable reply).0
unfolding on_reply Greets
on_reply-Greets hold writable none = tt
on_reply-Greets hold writable (some buf) = confirm-Greets writable _

handshake-Greets :
    (ctx : PeerSessionCtx) (offer : Offer) (hold : ℕ) → Greets (handshake ctx offer hold).0
unfolding handshake Greets
handshake-Greets ctx offer hold =
    let sent = write_all offer.writable (encode_open ctx.local_asn hold ctx.router_id) in
    let begun =
      write_all-Greets offer.writable _ (encode_open-IsFrame ctx.local_asn hold ctx.router_id) in
    if-holds Trying (not sent.1) (sent.0, refused io) _ (λ _. begun)
      (λ _. Greets-append sent.0 _ begun (on_reply-Greets hold (offer.writable - 1) offer.reply))

on_connected-Greets :
    (ctx : PeerSessionCtx) (offer : Offer) (hold : ℕ) (connected : Option Bool)
    → Greets (on_connected ctx offer hold connected).0
unfolding on_connected Greets
on_connected-Greets ctx offer hold none = tt
on_connected-Greets ctx offer hold (some false) = tt
on_connected-Greets ctx offer hold (some true) = handshake-Greets ctx offer hold

pub connect-Greets :
    (ctx : PeerSessionCtx) (offer : Offer) (hold : ℕ) → Greets (connect ctx offer hold).0
unfolding connect Greets
connect-Greets ctx offer hold =
    if-holds Trying (not offer.socket) ([], refused io) _ (λ _. tt)
      (λ _.
        if-holds Trying
          (not (
            install_md5 ctx.peer.peer_ip (resolved_md5_password offer.env_var ctx.peer)
              offer.setsockopt))
          ([], refused io) (on_connected ctx offer hold offer.connected) (λ _. tt)
          (λ _. on_connected-Greets ctx offer hold offer.connected))
