-- ===== src/Forwarder/Checksum/Tests.antt =====
-- An instance of the incremental update: the word 1460 becomes 1436.
use lb.Prelude.{arith, ◌%◌, ◌+◌, ◌<◌, ◌^◌, ◌≡◌}
use lb.Forwarder.Checksum.{incremental_checksum}
use lb.Forwarder.Checksum.Laws.{incremental_checksum-valid}

incremental_checksum-valid_example :
    ((1000 + incremental_checksum 63075 1460 1436 + 1436) % 0xFFFF ≡ 0)
    × (incremental_checksum 63075 1460 1436 < 2 ^ 16)
incremental_checksum-valid_example =
    incremental_checksum-valid 1000 63075 1460 1436 (omega arith) (omega arith) (omega arith)
      (omega arith)
