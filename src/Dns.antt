-- ===== src/Dns.antt =====
-- main/dns_hijack.h: the captive portal's DNS reply. A message is the list of its bytes; the
-- address to hand out is the list of its four bytes as they lie in memory.
pub mod Question
pub mod Reply
mod Tests
use deye_inverter_display_es.Common.{
  ℕ, zero, suc, ◌+◌, Bool, true, false, ◌||◌, not, Option, none, some, List, [], ◌∷◌, ◌++◌, ltb,
  leb, ◌==◌, if◌then◌else◌, be16, bit_and, length, get_or, set, take,
}

abbrev pub Bytes : Type 0
Bytes = List ℕ

abbrev pub answer_len : ℕ
answer_len = 16

-- How the walk over the name ends: the `return -1` of its checks, the offset past the root label,
-- or the end of the fuel.
pub data Walk : Type 0 where
  bad : Walk
  at : ℕ → Walk
  out_of_fuel : Walk

-- The loop of `dns_question_end` over the labels.
unfoldable pub walk : ℕ → Bytes → ℕ → ℕ → Walk
walk zero m off name = out_of_fuel
walk (suc fuel) m off name =
    let l = get_or m off 0 in
    let rest = walk fuel m (off + (1 + l)) (name + (1 + l)) in
    if leb (length m) off
    then bad
    else if l == 0
    then at (off + 1)
    else if not (bit_and l 0xC0 == 0)
    then bad
    else if ltb 255 (name + (1 + l))
    then bad
    else rest

-- A label that goes on takes at least two bytes of the 255 that a name may have.
abbrev pub walk_fuel : ℕ
walk_fuel = 129

-- Offset past the first question, and its QTYPE; `none` is -1.
abbrev pub finish_question : Bytes → Walk → Option (ℕ × ℕ)
finish_question m bad = none
finish_question m out_of_fuel = none
finish_question m (at off) =
    if ltb (length m) (off + 4)
    then none
    else some (off + 4, be16 (get_or m off 0) (get_or m (off + 1) 0))

unfoldable pub question_end : Bytes → Option (ℕ × ℕ)
question_end m =
    let w = walk walk_fuel m 12 0 in
    if ltb (length m) 12
    then none
    else if not (be16 (get_or m 4 0) (get_or m 5 0) == 1)
    then none
    else finish_question m w

-- The ten header bytes that the reply overwrites, from offset 2 on.
abbrev pub overwrite : ℕ → Bytes → Bytes → Bytes
overwrite off [] out = out
overwrite off (b ∷ bs) out = overwrite (off + 1) bs (set out off b)

abbrev pub is_answered : ℕ → Bool
is_answered qtype = qtype == 1 || qtype == 255

abbrev pub flag_bytes : Bool → Bytes
flag_bytes answer = 0x81 ∷ 0x80 ∷ 0 ∷ 1 ∷ 0 ∷ (if answer then 1 else 0) ∷ 0 ∷ 0 ∷ 0 ∷ 0 ∷ []

-- Name, type A, class IN, TTL 60 s, RDLENGTH 4, then the address.
abbrev pub answer_bytes : Bytes → Bytes
answer_bytes ip = 0xC0 ∷ 0x0C ∷ 0 ∷ 1 ∷ 0 ∷ 1 ∷ 0 ∷ 0 ∷ 0 ∷ 0x3C ∷ 0 ∷ 4 ∷ ip

abbrev pub reply_to : Bytes → ℕ → ℕ → Bytes → ℕ → Option Bytes
reply_to q qend qtype ip outcap =
    let answer = is_answered qtype in
    let need = qend + (if answer then answer_len else 0) in
    if ltb outcap need
    then none
    else some
        (overwrite 2 (flag_bytes answer) (take qend q) ++ (if answer then answer_bytes ip else []))

-- `dns_build_reply`: the bytes of the reply, whose number it returns.
unfoldable pub build_reply : Bytes → Bytes → ℕ → Option Bytes
build_reply q ip outcap = elim (question_end q) [
  | none ↦ none
  | some (qend, qtype) ↦ reply_to q qend qtype ip outcap
]
