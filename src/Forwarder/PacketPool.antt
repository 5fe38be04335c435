-- ===== src/Forwarder/PacketPool.antt =====
-- crates/lb-forwarder/src/packet_pool.rs: the arena of frames and the list of those that are free.
-- A frame is a `PacketBuf`: the same bytes and length.
use lb.Prelude.{List, Option, length, min, none, replicate, some, suc, take, zero, ℕ}
use lb.Types.Net.{Bytes}
use lb.Forwarder.PacketBuf.{PacketBuf, overwrite, packet_buf_size}
use lb.Forwarder.PacketBuf.{new as new_frame}
use lb.Forwarder.ArrayQueue.{ArrayQueue}

-- `Frame::write_from`.
unfoldable pub write_from : PacketBuf → Bytes → PacketBuf
unfolding overwrite
write_from frame src =
    let copy_len = min (length src) packet_buf_size in
    record { bytes = overwrite frame.bytes 0 (take copy_len src); len = copy_len }

module _ (A : ArrayQueue) where
  pub record PacketPool : Type 0 where
    pub frames : List PacketBuf
    pub free_list : A.Q
    pub capacity : ℕ

  -- `let _ = queue.push(idx)`.
  unfoldable pub push_or_lose : A.Q → ℕ → A.Q
  push_or_lose q idx = elim (A.push q idx) [ none ↦ q | some q' ↦ q' ]

  -- The indices below `n`, in order.
  unfoldable pub fill : ℕ → A.Q → A.Q
  unfolding push_or_lose
  fill zero q = q
  fill (suc n) q = push_or_lose (fill n q) n

  unfoldable pub new : ℕ → PacketPool
  unfolding fill new_frame
  new capacity = record {
    frames = replicate capacity new_frame;
    free_list = fill capacity (A.new capacity);
    capacity = capacity;
  }

  unfoldable pub alloc : PacketPool → Option (ℕ × PacketPool)
  alloc pool = elim (A.pop pool.free_list) [
    | none ↦ none
    | some r ↦ some (r.0, record pool { free_list = r.1 })
  ]

  unfoldable pub free : PacketPool → ℕ → PacketPool
  unfolding push_or_lose
  free pool idx = record pool { free_list = push_or_lose pool.free_list idx }

  unfoldable pub available : PacketPool → ℕ
  available pool = length (A.contents pool.free_list)
