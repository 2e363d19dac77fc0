-- ===== src/Dns/Tests.antt =====
-- Queries of a captive-portal probe.
use deye_inverter_display_es.Common.{
  ℕ, ◌+◌, ◌≤◌, ◌≡◌, ◌≢◌, refl, some, List, [], ◌∷◌, arith, length,
}
use deye_inverter_display_es.Dns.{Bytes, walk, walk_fuel, out_of_fuel, question_end, build_reply}
use deye_inverter_display_es.Dns.Question.{query, encode_name, question_end-query, walk_terminates}
use deye_inverter_display_es.Dns.Reply.{IsReply, build_reply-IsReply}

-- "ab.de", and an OPT record behind the question.
abbrev labels : List Bytes
labels = (0x61 ∷ 0x62 ∷ []) ∷ (0x64 ∷ 0x65 ∷ []) ∷ []

abbrev opt : Bytes
opt = 0 ∷ 0 ∷ 41 ∷ 16 ∷ 0 ∷ 0 ∷ 0 ∷ 0 ∷ 0 ∷ 0 ∷ 0 ∷ []

abbrev counts : Bytes
counts = 0 ∷ 0 ∷ 0 ∷ 0 ∷ 0 ∷ 1 ∷ []

abbrev probe : Bytes
probe = query 0x12 0x34 0x01 0x00 counts labels 1 opt

abbrev portal : Bytes
portal = 192 ∷ 168 ∷ 4 ∷ 1 ∷ []

walk_terminates_example : walk walk_fuel probe 12 0 ≢ out_of_fuel
walk_terminates_example = walk_terminates probe

question_end-query_example : question_end probe ≡ some (12 + length (encode_name labels) + 5, 1)
question_end-query_example =
    question_end-query 0x12 0x34 0x01 0x00 counts labels 1 opt refl (omega arith) (omega arith)

abbrev reply : Bytes
reply =
    0x12 ∷ 0x34 ∷ 0x81 ∷ 0x80 ∷ 0 ∷ 1 ∷ 0 ∷ 1 ∷ 0 ∷ 0 ∷ 0 ∷ 0 ∷ 2 ∷ 0x61 ∷ 0x62 ∷ 2 ∷ 0x64 ∷ 0x65
    ∷ 0 ∷ 0 ∷ 1 ∷ 0 ∷ 1 ∷ 0xC0 ∷ 0x0C ∷ 0 ∷ 1 ∷ 0 ∷ 1 ∷ 0 ∷ 0 ∷ 0 ∷ 0x3C ∷ 0 ∷ 4 ∷ portal

build_reply-IsReply_example :
    (e : ℕ) × (qtype : ℕ) × (question_end probe ≡ some (e, qtype))
    × ((length reply ≤ 512) × IsReply probe portal e qtype reply)
unfolding build_reply question_end walk
build_reply-IsReply_example = build_reply-IsReply probe portal 512 refl refl
