-- ===== src/Forwarder/ConnTable/States.antt =====
-- The order that `promote_state` follows.
use Prim.Native.Nat.{max}
use lb.Forwarder.ConnTable.Defs.{promote_state}
use lb.Prelude.{arith, refl, ℕ, ◌≡◌, max}
use lb.Types.Packet.{TcpFlowState, handshake, not_tcp, established, closing}

abbrev pub rank : TcpFlowState → ℕ
rank handshake = 0
rank not_tcp = 1
rank established = 2
rank closing = 3

pub rank-injective : (a b : TcpFlowState) → rank a ≡ rank b → a ≡ b
rank-injective handshake handshake e = refl
rank-injective not_tcp not_tcp e = refl
rank-injective established established e = refl
rank-injective closing closing e = refl
rank-injective handshake not_tcp e = absurd (omega arith)
rank-injective handshake established e = absurd (omega arith)
rank-injective handshake closing e = absurd (omega arith)
rank-injective not_tcp handshake e = absurd (omega arith)
rank-injective not_tcp established e = absurd (omega arith)
rank-injective not_tcp closing e = absurd (omega arith)
rank-injective established handshake e = absurd (omega arith)
rank-injective established not_tcp e = absurd (omega arith)
rank-injective established closing e = absurd (omega arith)
rank-injective closing handshake e = absurd (omega arith)
rank-injective closing not_tcp e = absurd (omega arith)
rank-injective closing established e = absurd (omega arith)

promote_state-rank : (a b : TcpFlowState) → rank (promote_state a b) ≡ max (rank a) (rank b)
unfolding promote_state
promote_state-rank handshake handshake = refl
promote_state-rank handshake not_tcp = refl
promote_state-rank handshake established = refl
promote_state-rank handshake closing = refl
promote_state-rank not_tcp handshake = refl
promote_state-rank not_tcp not_tcp = refl
promote_state-rank not_tcp established = refl
promote_state-rank not_tcp closing = refl
promote_state-rank established handshake = refl
promote_state-rank established not_tcp = refl
promote_state-rank established established = refl
promote_state-rank established closing = refl
promote_state-rank closing handshake = refl
promote_state-rank closing not_tcp = refl
promote_state-rank closing established = refl
promote_state-rank closing closing = refl

-- Promoting a flow's state gives the later one of the old and the incoming state in the order
-- handshake, not TCP, established, closing; so it is associative, commutative and idempotent: in
-- whatever order packets report states, the flow ends in the same one, the latest of them.
pub promote_state-semilattice :
    (a b c : TcpFlowState)
    → (promote_state (promote_state a b) c ≡ promote_state a (promote_state b c))
      × (promote_state a b ≡ promote_state b a)
      × (promote_state a a ≡ a)
      × (rank (promote_state a b) ≡ max (rank a) (rank b))
promote_state-semilattice a b c =
    let ab = promote_state-rank a b in
    let ba = promote_state-rank b a in
    let bc = promote_state-rank b c in
    let aa = promote_state-rank a a in
    let left = promote_state-rank (promote_state a b) c in
    let right = promote_state-rank a (promote_state b c) in
    (
      rank-injective _ _ (omega arith),
      rank-injective _ _ (omega arith),
      rank-injective _ _ (omega arith),
      ab,
    )
