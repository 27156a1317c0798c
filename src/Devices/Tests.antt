-- ===== src/Devices/Tests.antt =====
-- The devices at concrete inputs.
use mini_hft.Base.{◌+◌, ◌%◌, ◌≡◌, refl, true, false, some, [], ◌∷◌, arith}
use mini_hft.Devices.FpgaPipeline.{
  PipelineStage, FpgaPipeline, tick, input, output, filtered, software_process, tick-filtered,
}
use mini_hft.Devices.KernelBypass.{
  KernelBypass, idle, descriptor_at, nic_receive, poll, nic_receive-poll,
}

abbrev idle_stage : PipelineStage
idle_stage = record { input_reg = 0; output_reg = 0; valid = false }

abbrev idle_pipeline : FpgaPipeline
idle_pipeline = record {
  fetch = idle_stage;
  decode = idle_stage;
  execute = idle_stage;
  clock_cycles = 0;
}

tick-filtered_example :
    (output (tick (tick (input 0x1_0200 idle_pipeline))) ≡ some (software_process 0x1_0200))
    × (output (tick (input 7 (tick (input 0x1_0200 idle_pipeline))))
        ≡ some (software_process 0x1_0200))
    × (software_process 0x1_0200 ≡ filtered 0x1_0200)
tick-filtered_example = tick-filtered 0x1_0200 7 idle_pipeline

-- A ring of two descriptors, the second of them with a packet.
abbrev one_waiting : KernelBypass
one_waiting = record { rx_ring = idle ∷ record { data_word = 5; ready = true } ∷ []; head = 0 }

nic_receive-poll_example :
    ((descriptor_at 1 one_waiting).ready ≡ true
      → descriptor_at 1 (nic_receive 2 9 4 one_waiting).1 ≡ descriptor_at 1 one_waiting)
    × (4 % 2 ≡ one_waiting.head
        → (descriptor_at one_waiting.head one_waiting).ready ≡ false
        → ((poll 2 (nic_receive 2 9 4 one_waiting).1).0 ≡ some 9)
          × ((descriptor_at one_waiting.head (poll 2 (nic_receive 2 9 4 one_waiting).1).1).ready
              ≡ false)
          × ((poll 2 (nic_receive 2 9 4 one_waiting).1).1.head ≡ (one_waiting.head + 1) % 2))
nic_receive-poll_example = nic_receive-poll 2 9 4 1 one_waiting refl (omega arith)
