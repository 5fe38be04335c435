-- ===== src/Forwarder/MssClamp/Tests.antt =====
-- An instance of the clamp, on bytes that are no packet.
use lb.Prelude.{replicate}
use lb.Forwarder.MssClamp.{clamp_mss}
use lb.Forwarder.MssClamp.Laws.{Keeps, clamp_mss-Keeps}

clamp_mss-Keeps_example : Keeps (replicate 60 0x4F) (clamp_mss (replicate 60 0x4F) 1436)
clamp_mss-Keeps_example = clamp_mss-Keeps (replicate 60 0x4F) 1436
