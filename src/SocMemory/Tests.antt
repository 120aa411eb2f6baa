-- ===== src/SocMemory/Tests.antt =====
-- A preload of two segments, the second over the end of the first.
use friscv_soc.Common.{◌≡◌, true, false, [], ◌∷◌, arith}
use friscv_soc.Common.Results.{ok}
use friscv_soc.Elf.{ElfImage}
use friscv_soc.Elf.Load.{image_view}
use friscv_soc.SocMemory.{Sram, preload_sram}
use friscv_soc.SocMemory.Preload.{sram_view, AllInside, preload_sram_lem}

abbrev blank : Sram
blank way i = 0

abbrev two_segments : ElfImage
two_segments = record {
  machine = 243;
  entry = 4096;
  segments =
      record { address = 4098; executable = true; bytes = 17 ∷ 34 ∷ 51 ∷ [] }
      ∷ record { address = 4100; executable = false; bytes = 68 ∷ 85 ∷ [] }
      ∷ [];
}

two_segments-AllInside : AllInside 4096 two_segments.segments
two_segments-AllInside = (
  omega arith,
  omega arith,
  (omega arith, (omega arith, (omega arith, tt))),
  (omega arith, omega arith, (omega arith, (omega arith, tt)), tt),
)

preload_sram_lem_example :
    let r = preload_sram false two_segments 4096 blank in
    (r.0 ≡ ok tt)
    × (sram_view false 4096 r.1 4100
        ≡ image_view two_segments.segments (sram_view false 4096 blank) 4100)
preload_sram_lem_example =
    preload_sram_lem false 4096 (omega arith) two_segments blank 4100 two_segments-AllInside
      (omega arith)
