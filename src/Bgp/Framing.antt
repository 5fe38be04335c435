-- ===== src/Bgp/Framing.antt =====
-- crates/lb-bgp/src/speaker.rs: `take_message`, and what the session does with the bytes it reads:
-- they are gathered, and whole messages are taken off the front until there is none or one is a
-- NOTIFICATION. The loop takes at least 19 bytes in a turn, so the number of bytes is enough fuel.
use lb.Prelude.{
  List, Option, [], drop, get_or, if◌then◌else◌, length, ltb, none, some, suc, take, zero, ℕ, ◌++◌,
  ◌∷◌,
}
use lb.Types.Net.{Bytes, Bytes-discrete, from_be_bytes}
use lb.Bgp.Messages.{marker, parse_notification}
mod Take
pub mod Laws
mod Tests

-- The message, if there is a whole one, and what is left in the buffer.
unfoldable pub take_message : Bytes → Option Bytes × Bytes
take_message buf =
    if ltb (length buf) 19 then (none, buf) else elim (Bytes-discrete (take 16 buf) marker) [
      | no _ ↦ (none, drop 1 buf)
      | yes _ ↦
          let len = from_be_bytes (get_or buf 16 0) (get_or buf 17 0) in
          if ltb len 19
          then (none, drop 1 buf)
          else if ltb 4096 len
          then (none, drop 1 buf)
          else if ltb (length buf) len
          then (none, buf)
          else (some (take len buf), drop len buf)
    ]

-- The `while let` loop: the NOTIFICATION that ends it, or none, and what is left in the buffer.
unfoldable pub take_messages : ℕ → Bytes → Option (ℕ × ℕ) × Bytes
take_messages zero incoming = (none, incoming)
take_messages (suc fuel) incoming =
    let (message, rest) = take_message incoming in
    elim message [
      | none ↦ (none, rest)
      | some msg ↦ elim (parse_notification msg) [
        | some error ↦ (some error, rest)
        | none ↦ take_messages fuel rest
      ]
    ]

-- `Ok(n)`.
unfoldable pub on_read : Bytes → Bytes → Option (ℕ × ℕ) × Bytes
on_read incoming chunk =
    let incoming' = incoming ++ chunk in take_messages (length incoming') incoming'

-- The reads of a session, up to the one that ends it.
unfoldable pub on_reads : Bytes → List Bytes → Option (ℕ × ℕ) × Bytes
on_reads incoming [] = (none, incoming)
on_reads incoming (chunk ∷ chunks) =
    let (error, rest) = on_read incoming chunk in
    elim error [ some e ↦ (some e, rest) | none ↦ on_reads rest chunks ]
