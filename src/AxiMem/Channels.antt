-- ===== src/AxiMem/Channels.antt =====
-- The handshakes of the AXI memory: what holds between two clock cycles.
use friscv_soc.Common.{ℕ, ◌+◌, ◌^◌, ◌<◌, ◌≡◌, true, false, not, ◌&&◌, of_bool, ◌==◌, arith}
use friscv_soc.AxiMem.{
  AxiMem, Sample, new_axi, write_response, read_beat, write_beat, accept_write, accept_read,
  process,
}

-- The write channels are in exactly one of their three states, the read channels in exactly one
-- of two; while read data is offered at least one beat is left, and the last one is marked.
pub record IsHandshake (s : AxiMem) : Type 0 where
  pub write_state : of_bool s.aw_ready + of_bool s.w_ready + of_bool s.b_valid ≡ 1
  pub read_state : s.ar_ready ≡ not s.r_valid
  pub beats_left : s.r_valid ≡ true → 0 < s.read_beats
  pub beats_in : s.read_beats < 2 ^ 32
  pub last_beat : s.r_valid ≡ true → s.r_last ≡ (s.read_beats == 1)

pub new_axi-IsHandshake : (fill : ℕ → ℕ → ℕ) → IsHandshake (new_axi fill)
unfolding new_axi
new_axi-IsHandshake fill = ground arith

-- Every clock cycle, whatever the master does, keeps the handshake invariant, for bursts whose
-- length fits the eight bits of the length signal.
pub process-IsHandshake :
    (p : Sample) (s : AxiMem) → p.ar_len < 256 → IsHandshake s → IsHandshake (process p s)
unfolding process write_response read_beat write_beat accept_write accept_read
process-IsHandshake p s h v = ground arith

-- A response is given only for a write that has ended: it becomes valid in a cycle exactly when
-- the last beat is taken in it.
pub response_after_last :
    (p : Sample) (s : AxiMem)
    → IsHandshake s
    → s.b_valid ≡ false
    → (process p s).b_valid ≡ (s.w_ready && (p.w_valid && p.w_last))
unfolding process write_response read_beat write_beat accept_write accept_read
response_after_last p s v b = ground arith
