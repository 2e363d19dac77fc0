-- ===== src/Meter/Reply.antt =====
-- main/fronius_meter.c: the answer to a request, `fronius_meter_answer`.

use deye_inverter_display_es.Common.{
  ℕ, zero, suc, ◌+◌, ◌*◌, ◌/◌, ◌%◌, ◌^◌, not, ◌&&◌, ◌||◌, Option, none, some, List, [], ◌∷◌, length,
  get_or, ltb, ◌==◌, if◌then◌else◌, u16, u32, be16, bit_or, u8,
}
use deye_inverter_display_es.Meter.{Nums, Live, Meter, Values, snapshot}
use deye_inverter_display_es.Meter.Image.{reg_value}

-- The counters of `s_st`.
pub record Counts : Type 0 where
  pub requests : ℕ
  pub answered : ℕ
  pub exceptions : ℕ
  pub silent : ℕ

abbrev fc_read_holding : ℕ
fc_read_holding = 3

abbrev ex_illegal_func : ℕ
ex_illegal_func = 1

abbrev ex_illegal_addr : ℕ
ex_illegal_addr = 2

abbrev ex_illegal_value : ℕ
ex_illegal_value = 3

abbrev pub max_read_regs : ℕ
max_read_regs = 125

-- The bytes of an answer, none for silence, with the counters.
abbrev pub Answer : Type 0
Answer = Option (List ℕ) × Counts

abbrev pub exception : ℕ → ℕ → Counts → Answer
exception fc code c =
    (some (bit_or fc 128 ∷ code ∷ []), record c { exceptions = u32 (c.exceptions + 1) })

-- A register's bytes in front of those of the registers behind it.
abbrev pub with_value : Option ℕ → Option (List ℕ) → Option (List ℕ)
with_value none rest = none
with_value (some v) none = none
with_value (some v) (some bs) = some (v / 2 ^ 8 % 2 ^ 8 ∷ v % 2 ^ 8 ∷ bs)

abbrev pub read_answer : ℕ → Option (List ℕ) → Counts → Answer
read_answer cnt none c = exception fc_read_holding ex_illegal_addr c
read_answer cnt (some bs) c =
    (some (fc_read_holding ∷ u8 (2 * cnt) ∷ bs), record c { answered = u32 (c.answered + 1) })

module _ (F : Nums) where
  -- The bytes of `n` registers from `a` on; `none` where one is unknown.
  unfoldable pub registers : ℕ → ℕ → Values F → Option (List ℕ)
  registers zero a m = some []
  registers (suc n) a m = with_value (reg_value F (u16 a) m) (registers n (a + 1) m)

  unfoldable pub read_request : List ℕ → ℕ → Values F → Counts → Answer
  read_request pdu out_max m c =
      let start = be16 (get_or pdu 1 0) (get_or pdu 2 0) in
      let cnt = be16 (get_or pdu 3 0) (get_or pdu 4 0) in
      if ltb cnt 1 || (ltb max_read_regs cnt || ltb out_max (2 + 2 * cnt))
      then exception fc_read_holding ex_illegal_value c
      else read_answer cnt (registers cnt start m) c

  unfoldable pub answer_with : ℕ → List ℕ → ℕ → Option (Values F) → Counts → Answer
  answer_with fc pdu out_max none c = (none, record c { silent = u32 (c.silent + 1) })
  answer_with fc pdu out_max (some m) c =
      if not (fc == fc_read_holding)
      then exception fc ex_illegal_func c
      else read_request pdu out_max m c

  -- `fronius_meter_answer`; the time and the address of the client are kept for the page only.
  unfoldable pub fronius_meter_answer : List ℕ → ℕ → Live F → Meter F → Counts → Answer
  fronius_meter_answer pdu out_max l m c =
      let fc = get_or pdu 0 0 in
      if length pdu == 0 || (fc == fc_read_holding && not (length pdu == 5))
      then (none, c)
      else answer_with fc pdu out_max (snapshot F l m)
          (record c { requests = u32 (c.requests + 1) })
