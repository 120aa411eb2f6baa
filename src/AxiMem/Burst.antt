-- ===== src/AxiMem/Burst.antt =====
-- A read burst: what the master is given, beat by beat.
use friscv_soc.Common.{
  ℕ, zero, suc, ◌+◌, ◌^◌, ◌<◌, ◌≡◌, refl, sym, ap, ◌∙◌, Bool, true, false, ◌&&◌, if◌then◌else◌,
  List, [], ◌∷◌, ◌==◌, arith,
}
use mathlib.Core.Path.{ap₂}
use friscv_soc.Common.Words.{u32}
use friscv_soc.Memory.{PagedMem}
use friscv_soc.Memory.View.{view}
use friscv_soc.AxiMem.{
  AxiMem, Sample, read_word, word_base, write_response, read_beat, write_beat, accept_write,
  accept_read, process,
}
use friscv_soc.AxiMem.Words.{word_view, read_word_lem, view-read_word}

-- The master takes read data in every cycle, writes nothing and asks for nothing further.
pub record Draining (p : Sample) : Type 0 where
  pub takes : p.r_ready ≡ true
  pub no_write : p.w_valid ≡ false
  pub no_read : p.ar_valid ≡ false

-- What the master is given in the next cycles: the word and the last mark of every cycle in which
-- the memory says that they are valid and the master is ready for them.
pub beats : ℕ → Sample → AxiMem → List (ℕ × Bool)
beats zero p s = []
beats (suc n) p s =
    let rest = beats n p (process p s) in
    if s.r_valid && p.r_ready then (s.r_data, s.r_last) ∷ rest else rest

-- The words of the flat memory from an address on, `step` bytes apart, the last one marked.
pub burst : ℕ → ℕ → ℕ → PagedMem → List (ℕ × Bool)
burst zero a step m = []
burst (suc n) a step m = (word_view m a, n == 0) ∷ burst n (u32 (a + step)) step m

-- In the middle of a burst: `n` further beats after the one offered.
record Offered (s : AxiMem) (n : ℕ) : Type 0 where
  offered : s.r_valid ≡ true
  busy : s.ar_ready ≡ false
  left : s.read_beats ≡ suc n
  small : n < 2 ^ 31
  marked : s.r_last ≡ (n == 0)
  current : s.r_data ≡ word_view s.memory s.read_address

word_view_same :
    (m m' : PagedMem) (a : ℕ) → ((b : ℕ) → view m' b ≡ view m b) → word_view m' a ≡ word_view m a
word_view_same m m' a h =
    let base = word_base a in ground (arith, h base, h (base + 1), h (base + 2), h (base + 3))

burst_same :
    (n a step : ℕ) (m m' : PagedMem)
    → ((b : ℕ) → view m' b ≡ view m b)
    → burst n a step m' ≡ burst n a step m
unfolding burst
burst_same zero a step m m' h = refl
burst_same (suc n) a step m m' h =
    ap₂ (λ w r. (w, n == 0) ∷ r) (word_view_same m m' a h)
      (burst_same n (u32 (a + step)) step m m' h)

-- The address of the next beat.
abbrev next_address : AxiMem → ℕ
next_address s = u32 (s.read_address + 2 ^ s.read_size)

next_fields :
    (p : Sample) (s : AxiMem) (n : ℕ)
    → Draining p
    → Offered s (suc n)
    → let t = process p s in
      (t.r_valid ≡ true)
      × (t.ar_ready ≡ false)
      × (t.read_beats ≡ suc n)
      × (t.r_last ≡ (suc n == 1))
      × (t.r_data ≡ (read_word s.memory (next_address s)).0)
      × (t.memory ≡ (read_word s.memory (next_address s)).1)
      × (t.read_address ≡ next_address s)
      × (t.read_size ≡ s.read_size)
unfolding process write_response read_beat write_beat accept_write accept_read
next_fields p s n d o = ground arith

next_beat :
    (p : Sample) (s : AxiMem) (n : ℕ) → Draining p → Offered s (suc n) → Offered (process p s) n
next_beat p s n d o =
    let (valid, busy', left', last', data', memory', address', size') = next_fields p s n d o in
    let m = (read_word s.memory (next_address s)).1 in
    record {
      offered = valid;
      busy = busy';
      left = left';
      small = omega (arith, o.small);
      marked = last' ∙ ground arith;
      current =
          data'
          ∙ read_word_lem s.memory (next_address s)
          ∙ sym (
              word_view_same s.memory m (next_address s) (view-read_word s.memory (next_address s)))
          ∙ ap₂ word_view (sym memory') (sym address');
    }

-- A cycle that offers a word which is taken.
beats_taken :
    (n : ℕ) (p : Sample) (s : AxiMem)
    → s.r_valid ≡ true
    → p.r_ready ≡ true
    → beats (suc n) p s ≡ (s.r_data, s.r_last) ∷ beats n p (process p s)
unfolding beats
beats_taken n p s v r = rw (v, r) refl

-- After the last beat nothing is offered.
last_beat : (p : Sample) (s : AxiMem) → Draining p → Offered s 0 → (process p s).r_valid ≡ false
unfolding process write_response read_beat write_beat accept_write accept_read
last_beat p s d o = ground arith

stays_silent :
    (p : Sample) (s : AxiMem) → Draining p → s.r_valid ≡ false → (process p s).r_valid ≡ false
unfolding process write_response read_beat write_beat accept_write accept_read
stays_silent p s d v = ground arith

beats_silent : (n : ℕ) (p : Sample) (s : AxiMem) → Draining p → s.r_valid ≡ false → beats n p s ≡ []
unfolding beats
beats_silent zero p s d v = refl
beats_silent (suc n) p s d v =
    let rest = beats n p (process p s) in
    ap (λ b. if b && p.r_ready then (s.r_data, s.r_last) ∷ rest else rest) v
    ∙ beats_silent n p (process p s) d (stays_silent p s d v)

beats_in_order :
    (n cycles : ℕ) (p : Sample) (s : AxiMem)
    → Draining p
    → Offered s n
    → n < cycles
    → beats cycles p s ≡ burst (suc n) s.read_address (2 ^ s.read_size) s.memory
unfolding burst
beats_in_order n zero p s d o h = absurd (omega arith)
beats_in_order zero (suc more) p s d o h =
    beats_taken more p s o.offered d.takes
    ∙ ap₂ (λ w l. (w, l) ∷ beats more p (process p s)) o.current o.marked
    ∙ ap (λ r. (word_view s.memory s.read_address, true) ∷ r)
        (beats_silent more p (process p s) d (last_beat p s d o))
beats_in_order (suc n) (suc more) p s d o h =
    let (valid, busy', left', last', data', memory', address', size') = next_fields p s n d o in
    let m = (read_word s.memory (next_address s)).1 in
    beats_taken more p s o.offered d.takes
    ∙ ap₂ (λ w l. (w, l) ∷ beats more p (process p s)) o.current o.marked
    ∙ ap (λ r. (word_view s.memory s.read_address, suc n == 0) ∷ r)
        (beats_in_order n more p (process p s) d (next_beat p s n d o) (omega arith)
          ∙ ap₂ (λ a k. burst (suc n) a (2 ^ k) (process p s).memory) address' size'
          ∙ ap (λ x. burst (suc n) (next_address s) (2 ^ s.read_size) x) memory'
          ∙ burst_same (suc n) (next_address s) (2 ^ s.read_size) s.memory m
              (view-read_word s.memory (next_address s)))

accepted_fields :
    (p : Sample) (s : AxiMem)
    → s.ar_ready ≡ true
    → s.r_valid ≡ false
    → p.ar_valid ≡ true
    → p.w_valid ≡ false
    → let t = process p s in
      (t.r_valid ≡ true)
      × (t.ar_ready ≡ false)
      × (t.read_beats ≡ u32 (p.ar_len + 1))
      × (t.r_last ≡ (u32 (p.ar_len + 1) == 1))
      × (t.r_data ≡ (read_word s.memory p.ar_addr).0)
      × (t.memory ≡ (read_word s.memory p.ar_addr).1)
      × (t.read_address ≡ p.ar_addr)
      × (t.read_size ≡ p.ar_size)
unfolding process write_response read_beat write_beat accept_write accept_read
accepted_fields p s a r v w = ground arith

-- A read request that is accepted, followed by a master that takes the data in every cycle, writes
-- nothing and asks for nothing further, is given, in any number of cycles above `ar_len`, exactly
-- `ar_len + 1` words: those of the flat memory from the requested address on, a transfer size apart,
-- with the last one alone marked as the last.
pub read_burst :
    (p q : Sample) (s : AxiMem) (cycles : ℕ)
    → s.ar_ready ≡ true
    → s.r_valid ≡ false
    → p.ar_valid ≡ true
    → p.w_valid ≡ false
    → p.ar_len < 256
    → Draining q
    → p.ar_len < cycles
    → beats cycles q (process p s) ≡ burst (suc p.ar_len) p.ar_addr (2 ^ p.ar_size) s.memory
read_burst p q s cycles a r v w l d longer =
    let (valid, busy', left', last', data', memory', address', size') =
      accepted_fields p s a r v w in
    let m = (read_word s.memory p.ar_addr).1 in
    let o : Offered (process p s) p.ar_len = record {
      offered = valid;
      busy = busy';
      left = left' ∙ omega arith;
      small = omega arith;
      marked = last' ∙ ground arith;
      current =
          data'
          ∙ read_word_lem s.memory p.ar_addr
          ∙ sym (word_view_same s.memory m p.ar_addr (view-read_word s.memory p.ar_addr))
          ∙ ap₂ word_view (sym memory') (sym address');
    } in
    beats_in_order p.ar_len cycles q (process p s) d o longer
    ∙ ap₂ (λ x k. burst (suc p.ar_len) x (2 ^ k) (process p s).memory) address' size'
    ∙ ap (λ x. burst (suc p.ar_len) p.ar_addr (2 ^ p.ar_size) x) memory'
    ∙ burst_same (suc p.ar_len) p.ar_addr (2 ^ p.ar_size) s.memory m
        (view-read_word s.memory p.ar_addr)
