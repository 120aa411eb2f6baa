-- ===== src/MemModel/Transfer.antt =====
-- How long a transfer takes, what ends it, and what holds of the memory between two cycles.
use friscv_soc.Common.{
  ℕ, zero, suc, ◌+◌, ◌≡◌, refl, ap, ◌∙◌, Bool, true, false, not, ◌||◌, List, [], ◌∷◌, ◌++◌,
  if◌then◌else◌, arith,
}
use friscv_soc.Common.Words.{u32}
use friscv_soc.Common.Arrays.{length, replicate}
use friscv_soc.Memory.{PagedMem, in_range}
use friscv_soc.Bus.{Access}
use friscv_soc.MemModel.{
  MemModel, WaitConfig, fixed, new_mem_model, addr_misaligned, next_wait_cycles, read, write,
  finish_transfer, single_cycle, put_in_flight, start_transfer, cycle,
}
use friscv_soc.MemModel.Lanes.{word_at, read_word_aligned_lem}

-- The wait output says whether a transfer is in flight, and a count of wait cycles is pending only
-- then.
pub record IsConsistent (s : MemModel) : Type 0 where
  pub wait_flight : s.out.wait ≡ s.in_flight
  pub idle_count : s.in_flight ≡ false → s.current_wait ≡ 0

pub new_mem_model-IsConsistent :
    (uniform : ℕ → ℕ → ℕ → ℕ) (m : PagedMem) (w : WaitConfig)
    → IsConsistent (new_mem_model uniform m w)
unfolding new_mem_model
new_mem_model-IsConsistent uniform m w = ground arith

-- Every cycle, on every branch, keeps the wait output and the transfer in flight consistent.
pub cycle-IsConsistent : (s : MemModel) (a : Access) → IsConsistent s → IsConsistent (cycle s a)
unfolding cycle finish_transfer start_transfer single_cycle put_in_flight
cycle-IsConsistent s a h = ground arith

-- An access that is out of range or misaligned is refused in its cycle: an error with no wait, and
-- neither the memory nor the data output changes.
pub refused_access :
    (s : MemModel) (a : Access)
    → IsConsistent s
    → s.in_flight ≡ false
    → a.r_en || a.w_en ≡ true
    → (not (in_range s.mem (u32 (s.mem.base + a.offset)))
        || addr_misaligned (u32 (s.mem.base + a.offset)) a.size)
      ≡ true
    → cycle s a ≡ record s { out = record s.out { err = true; wait = false; beat_valid = false } }
unfolding cycle start_transfer
refused_access s a h f e bad = ground arith

step_wait :
    (s : MemModel) (a : Access) (k : ℕ)
    → s.in_flight ≡ true
    → s.current_wait ≡ suc k
    → cycle s a ≡ record s {
      out = record s.out { err = false; beat_valid = false; wait = true };
      current_wait = k;
    }
unfolding cycle
step_wait s a k f e = ground arith

-- The state after the cycles of a list of accesses, and the wait output after each of them.
pub run : MemModel → List Access → MemModel
run s [] = s
run s (a ∷ bs) = run (cycle s a) bs

pub wait_trace : MemModel → List Access → List Bool
wait_trace s [] = []
wait_trace s (a ∷ bs) = (cycle s a).out.wait ∷ wait_trace (cycle s a) bs

-- What the end of the transfer in flight at `s` leaves.
pub record Completed (s u : MemModel) : Type 0 where
  pub landed : u.in_flight ≡ false
  pub rdata_of :
      u.out.rdata
      ≡ (if s.in_flight_r_en then (read s.mem s.in_flight_addr s.in_flight_size).0 else s.out.rdata)
  pub mem_of : u.mem ≡ (
      if s.in_flight_r_en
      then (read s.mem s.in_flight_addr s.in_flight_size).1
      else if s.in_flight_w_en
      then write s.mem s.in_flight_addr s.in_flight_size s.in_flight_wdata
      else s.mem)

step_done :
    (s : MemModel) (a : Access)
    → s.in_flight ≡ true
    → s.current_wait ≡ 0
    → Completed s (cycle s a) × ((cycle s a).out.wait ≡ false)
unfolding cycle finish_transfer
step_done s a f e = ground arith

-- A transfer in flight with `k` wait cycles left keeps the wait output up for the next `k` cycles,
-- whatever accesses are presented in them, and completes in the cycle after those.
pub flight_completes :
    (k : ℕ) (s : MemModel) (bs : List Access)
    → s.in_flight ≡ true
    → s.current_wait ≡ k
    → length bs ≡ suc k
    → Completed s (run s bs) × (wait_trace s bs ≡ replicate k true ++ (false ∷ []))
unfolding run wait_trace
flight_completes k s [] f e l = absurd (omega arith)
flight_completes zero s (b ∷ []) f e l =
    let (done, low) = step_done s b f e in (done, ap (λ w. w ∷ []) low)
flight_completes zero s (b ∷ c ∷ bs) f e l = absurd (omega arith)
flight_completes (suc k) s (b ∷ bs) f e l =
    let c = record s {
      out = record s.out { err = false; beat_valid = false; wait = true };
      current_wait = k;
    } in
    let (done, trace) = flight_completes k c bs f refl (omega arith) in
    rw (step_wait s b k f e) (
      record { landed = done.landed; rdata_of = done.rdata_of; mem_of = done.mem_of },
      ap (λ ws. true ∷ ws) trace,
    )

-- The address of an access, and what the model requires of it.
abbrev pub address : MemModel → Access → ℕ
address s a = u32 (s.mem.base + a.offset)

abbrev pub Accepted : MemModel → Access → Type 0
Accepted s a =
    (in_range s.mem (address s a) ≡ true) × (addr_misaligned (address s a) a.size ≡ false)

read_single :
    (s : MemModel) (a : Access)
    → IsConsistent s
    → s.in_flight ≡ false
    → Accepted s a
    → s.wait_cycles ≡ fixed 0
    → a.r_en ≡ true
    → ((cycle s a).out.rdata ≡ (read s.mem (address s a) a.size).0) × ((cycle s a).out.wait ≡ false)
unfolding cycle start_transfer single_cycle next_wait_cycles
read_single s a h f ok w r = ground arith

flight_started :
    (s : MemModel) (a : Access) (n : ℕ)
    → IsConsistent s
    → s.in_flight ≡ false
    → Accepted s a
    → s.wait_cycles ≡ fixed (suc n)
    → a.r_en || a.w_en ≡ true
    → cycle s a
      ≡ put_in_flight
          (record s {
            out = record s.out { err = false; beat_valid = false };
            current_wait = suc n;
          })
          (address s a)
          a
unfolding cycle start_transfer next_wait_cycles
flight_started s a n h f ok w e = ground arith

-- A read that is in range and aligned, with no wait configured, answers in its own cycle with the
-- aligned word of the flat memory around its address.
pub read_at_once :
    (s : MemModel) (a : Access)
    → IsConsistent s
    → s.in_flight ≡ false
    → Accepted s a
    → s.wait_cycles ≡ fixed 0
    → a.r_en ≡ true
    → ((cycle s a).out.rdata ≡ word_at s.mem (address s a)) × ((cycle s a).out.wait ≡ false)
unfolding read
read_at_once s a h f ok w r =
    let (d, low) = read_single s a h f ok w r in
    (d ∙ read_word_aligned_lem s.mem (address s a) (omega arith), low)

-- A read that is in range and aligned, with n > 0 wait cycles configured, holds the wait output up
-- for n + 1 cycles and answers in the cycle after them with the aligned word of the flat memory,
-- whatever accesses are presented meanwhile.
pub read_after_wait :
    (s : MemModel) (a : Access) (n : ℕ) (bs : List Access)
    → IsConsistent s
    → s.in_flight ≡ false
    → Accepted s a
    → s.wait_cycles ≡ fixed (suc n)
    → a.r_en ≡ true
    → length bs ≡ suc (suc n)
    → ((run s (a ∷ bs)).out.rdata ≡ word_at s.mem (address s a))
      × (wait_trace s (a ∷ bs) ≡ replicate (suc (suc n)) true ++ (false ∷ []))
unfolding run wait_trace read put_in_flight
read_after_wait s a n bs h f ok w r l =
    let t = record s {
      out = record s.out { err = false; beat_valid = false };
      current_wait = suc n;
    } in
    let c = put_in_flight t (address s a) a in
    let (done, trace) = flight_completes (suc n) c bs refl refl l in
    let started = flight_started s a n h f ok w (ground arith) in
    (
      ap (λ x. (run x bs).out.rdata) started
          ∙ done.rdata_of
          ∙ ground (arith, read_word_aligned_lem s.mem (address s a) (omega arith)),
      ap (λ x. x.out.wait ∷ wait_trace x bs) started ∙ ap (λ ws. true ∷ ws) trace,
    )
