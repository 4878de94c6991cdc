-- ===== src/Gpsr/Protocol/Ranges.antt =====
-- The headers that the node writes fit their types.
use map_based_relay.Prelude.{◌<◌, ◌^◌, ℕ, ltb, arith, inl, inr, Bool-cases}
use map_based_relay.Mbr.Neighbors.{Vector}
use map_based_relay.Gpsr.Packet.{PositionHeader}
use map_based_relay.Gpsr.Packet.RoundTrip.{PositionInRange}
use map_based_relay.Gpsr.Protocol.{
  Env, recovery_header, greedy_header, entering_header, newest_place, newest_seconds,
}

-- The doubles are 64-bit patterns, and the seconds fit 32 bits.
pub record EnvInRange (env : Env) : Type 0 where
  pub x : env.my_x < 2 ^ 64
  pub y : env.my_y < 2 ^ 64
  pub place :
      (id : ℕ) → ((env.service.position id).x < 2 ^ 64) × ((env.service.position id).y < 2 ^ 64)
  pub seconds : (id : ℕ) → env.service.update_seconds id < 2 ^ 32

module _ (env : Env) (v : EnvInRange env) where
  pub recovery-InRange :
      (h : PositionHeader) → PositionInRange h → PositionInRange (recovery_header env h)
  recovery-InRange h r = record {
    dst_x = r.dst_x;
    dst_y = r.dst_y;
    updated = r.updated;
    rec_x = r.rec_x;
    rec_y = r.rec_y;
    in_rec = omega arith;
    last_x = v.x;
    last_y = v.y;
    src_x = r.src_x;
    src_y = r.src_y;
  }

  pub greedy-InRange :
      (h : PositionHeader) (p : Vector) (updated : ℕ)
      → PositionInRange h
      → p.x < 2 ^ 64
      → p.y < 2 ^ 64
      → updated < 2 ^ 32
      → PositionInRange (greedy_header env h p updated)
  greedy-InRange h p updated r px py u = record {
    dst_x = px;
    dst_y = py;
    updated = u;
    rec_x = omega arith;
    rec_y = omega arith;
    in_rec = omega arith;
    last_x = v.x;
    last_y = v.y;
    src_x = r.src_x;
    src_y = r.src_y;
  }

  pub entering-InRange :
      (h : PositionHeader) (p : Vector)
      → PositionInRange h
      → p.x < 2 ^ 64
      → p.y < 2 ^ 64
      → PositionInRange (entering_header env h p)
  entering-InRange h p r px py = record {
    dst_x = r.dst_x;
    dst_y = r.dst_y;
    updated = r.updated;
    rec_x = v.x;
    rec_y = v.y;
    in_rec = omega arith;
    last_x = px;
    last_y = py;
    src_x = r.src_x;
    src_y = r.src_y;
  }

  -- What is known of the destination fits the header.
  pub newest :
      (dst : ℕ) (h : PositionHeader)
      → PositionInRange h
      → ((newest_place env dst h).x < 2 ^ 64)
        × ((newest_place env dst h).y < 2 ^ 64)
        × (newest_seconds env dst h < 2 ^ 32)
  newest dst h r = elim (Bool-cases (ltb h.updated (env.service.update_seconds dst))) [
    | inl e ↦ rw e ((v.place dst).0, (v.place dst).1, v.seconds dst)
    | inr e ↦ rw e (r.dst_x, r.dst_y, r.updated)
  ]
