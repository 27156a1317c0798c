-- ===== src/Devices/FpgaPipeline.antt =====
-- The three-stage pipeline of include/FpgaPipeline.hpp.
use mini_hft.Base.{
  ℕ, ◌+◌, ◌≡◌, refl, ap, Bool-cases, inl, inr, Bool, true, Option, none, some, ltb, if◌then◌else◌,
}
use mini_hft.Base.Words.{u64, u16}
use mini_hft.Base.Mask.{bit_and-mask}
use Prim.Native.Nat.{bit_and}

pub record PipelineStage : Type 0 where
  pub input_reg : ℕ
  pub output_reg : ℕ
  pub valid : Bool

pub record FpgaPipeline : Type 0 where
  pub fetch : PipelineStage
  pub decode : PipelineStage
  pub execute : PipelineStage
  pub clock_cycles : ℕ

-- Stage 3 of `tick`.
unfoldable pub run_execute : FpgaPipeline → FpgaPipeline
run_execute p =
    let x = p.decode.output_reg in
    if p.decode.valid
    then record p {
      execute = record { input_reg = x; output_reg = if ltb 100 x then x else 0; valid = true };
    }
    else p

-- Stage 2 of `tick`.
unfoldable pub run_decode : FpgaPipeline → FpgaPipeline
run_decode p =
    let x = p.fetch.output_reg in
    if p.fetch.valid
    then record p { decode = record { input_reg = x; output_reg = bit_and x 0xffff; valid = true } }
    else p

unfoldable pub tick : FpgaPipeline → FpgaPipeline
tick p = run_decode (run_execute (record p { clock_cycles = u64 (p.clock_cycles + 1) }))

unfoldable pub input : ℕ → FpgaPipeline → FpgaPipeline
input x p = let s = p.fetch in record p { fetch = record s { output_reg = x; valid = true } }

unfoldable pub output : FpgaPipeline → Option ℕ
output p = if p.execute.valid then some p.execute.output_reg else none

-- What the hardware filter does to a word: the low 16 bits, if they are above 100.
abbrev pub filtered : ℕ → ℕ
filtered x = if ltb 100 (u16 x) then u16 x else 0

-- `softwareProcess` of src/hw_bench.cpp.
unfoldable pub software_process : ℕ → ℕ
software_process x = let decoded = bit_and x 0xffff in if ltb 100 decoded then decoded else 0

-- A word that is put in comes out after two ticks as `softwareProcess` returns it, whatever the
-- pipeline held before, and also when another word is put in between the two ticks; and that is the
-- low 16 bits of the word if they are above 100, and 0 if not.
pub tick-filtered :
    (x y : ℕ) (p : FpgaPipeline)
    → (output (tick (tick (input x p))) ≡ some (software_process x))
      × (output (tick (input y (tick (input x p)))) ≡ some (software_process x))
      × (software_process x ≡ filtered x)
unfolding tick run_decode run_execute input output software_process
tick-filtered x y p =
    let masked : software_process x ≡ filtered x =
      ap (λ z. if ltb 100 z then z else 0) (bit_and-mask 16 x) in
    elim (Bool-cases p.decode.valid) [
      | inl v ↦ rw v (refl, refl, masked)
      | inr v ↦ rw v (refl, refl, masked)
    ]
