-- ===== src/Dns/Reply.antt =====
-- The reply of main/dns_hijack.h.
use deye_inverter_display_es.Common.{
  ℕ, zero, suc, ◌+◌, ◌≤◌, ◌<◌, ◌≡◌, ◌≢◌, ◌⊎◌, inl, inr, refl, ap, sym, ◌∙◌, subst, none, some, [],
  ◌∷◌, ◌++◌, if◌then◌else◌, be16, arith, length, get_or, set, take, drop, length-append,
  length-take, length-set, Option-cases,
}
use deye_inverter_display_es.Common.Bytes.{
  get_or-set_ne, get_or-set_self, get_or-take, get_or-append_left, drop-append,
}
use deye_inverter_display_es.Dns.{
  Bytes, overwrite, is_answered, flag_bytes, answer_bytes, reply_to, build_reply, question_end,
}
use deye_inverter_display_es.Dns.Question.{question_end_bounds, question_end_agree}

length-overwrite : (off : ℕ) (bs out : Bytes) → length (overwrite off bs out) ≡ length out
length-overwrite off [] out = refl
length-overwrite off (b ∷ bs) out =
    length-overwrite (off + 1) bs (set out off b) ∙ length-set out off b

-- A byte before or behind what is overwritten stays.
get_or-overwrite_out :
    (off : ℕ) (bs out : Bytes) (j : ℕ)
    → (j < off) ⊎ (off + length bs ≤ j)
    → get_or (overwrite off bs out) j 0 ≡ get_or out j 0
get_or-overwrite_out off [] out j h = refl
get_or-overwrite_out off (b ∷ bs) out j h =
    get_or-overwrite_out (off + 1) bs (set out off b) j (omega arith)
    ∙ get_or-set_ne out off j b (omega arith)

-- A byte inside is the new one.
get_or-overwrite_in :
    (off : ℕ) (bs out : Bytes) (i : ℕ)
    → i < length bs
    → off + length bs ≤ length out
    → get_or (overwrite off bs out) (off + i) 0 ≡ get_or bs i 0
get_or-overwrite_in off [] out i h k = absurd (omega arith)
get_or-overwrite_in off (b ∷ bs) out zero h k =
    ap (λ j. get_or (overwrite (off + 1) bs (set out off b)) j 0) {y = off} (omega arith)
    ∙ get_or-overwrite_out (off + 1) bs (set out off b) off (omega arith)
    ∙ get_or-set_self out off b (omega arith)
get_or-overwrite_in off (b ∷ bs) out (suc i) h k =
    ap (λ j. get_or (overwrite (off + 1) bs (set out off b)) j 0) {y = off + 1 + i} (omega arith)
    ∙ get_or-overwrite_in (off + 1) bs (set out off b) i (omega arith)
        (omega (arith, length-set out off b))

drop-set : (n j b : ℕ) (out : Bytes) → j < n → drop n (set out j b) ≡ drop n out
drop-set zero j b out h = absurd (omega arith)
drop-set (suc n) j b [] h = refl
drop-set (suc n) zero b (x ∷ out) h = refl
drop-set (suc n) (suc j) b (x ∷ out) h = drop-set n j b out (omega (arith, h))

-- What lies behind the overwritten bytes stays.
drop-overwrite :
    (n off : ℕ) (bs out : Bytes) → off + length bs ≤ n → drop n (overwrite off bs out) ≡ drop n out
drop-overwrite n off [] out h = refl
drop-overwrite n off (b ∷ bs) out h =
    drop-overwrite n (off + 1) bs (set out off b) (omega (arith, h))
    ∙ drop-set n off b out (omega (arith, h))

take-append : (xs ys : Bytes) (n : ℕ) → n ≡ length xs → take n (xs ++ ys) ≡ xs
take-append [] ys zero h = refl
take-append [] ys (suc n) h = absurd (omega (arith, h))
take-append (x ∷ xs) ys zero h = absurd (omega (arith, h))
take-append (x ∷ xs) ys (suc n) h = ap (λ r. x ∷ r) (take-append xs ys n (omega (arith, h)))

-- What a reply holds: `answer` says whether the question is one for an address.
pub record IsReply (q ip : Bytes) (e qtype : ℕ) (r : Bytes) : Type 0 where
  pub size : length r ≡ e + (if is_answered qtype then 16 else 0)
  pub same_question : question_end r ≡ some (e, qtype)
  pub question : drop 12 (take e r) ≡ drop 12 (take e q)
  pub id_hi : get_or r 0 0 ≡ get_or q 0 0
  pub id_lo : get_or r 1 0 ≡ get_or q 1 0
  pub flags : be16 (get_or r 2 0) (get_or r 3 0) ≡ 0x8180
  pub one_question : be16 (get_or r 4 0) (get_or r 5 0) ≡ 1
  pub answers : be16 (get_or r 6 0) (get_or r 7 0) ≡ (if is_answered qtype then 1 else 0)
  pub no_authority : be16 (get_or r 8 0) (get_or r 9 0) ≡ 0
  pub no_additional : be16 (get_or r 10 0) (get_or r 11 0) ≡ 0
  pub answer : drop e r ≡ (if is_answered qtype then answer_bytes ip else [])

module _ (q ip : Bytes) (e qtype : ℕ) (four : length ip ≡ 4)
    (parsed : question_end q ≡ some (e, qtype)) where
  head : Bytes
  head = overwrite 2 (flag_bytes (is_answered qtype)) (take e q)

  tail : Bytes
  tail = if is_answered qtype then answer_bytes ip else []

  length-head : length head ≡ e
  unfolding head
  length-head = omega (
    arith,
    length-overwrite 2 (flag_bytes (is_answered qtype)) (take e q),
    length-take e q,
    question_end_bounds q e qtype parsed,
  )

  flag_at :
      (i : ℕ)
      → i < 10
      → get_or (head ++ tail) (2 + i) 0 ≡ get_or (flag_bytes (is_answered qtype)) i 0
  flag_at i h =
      get_or-append_left head tail (2 + i)
        (omega (arith, length-head, question_end_bounds q e qtype parsed))
      ∙ unfold head in
        get_or-overwrite_in 2 (flag_bytes (is_answered qtype)) (take e q) i h
          (omega (arith, length-take e q, question_end_bounds q e qtype parsed))

  copied_at : (j : ℕ) → (j < 2) ⊎ (12 ≤ j) → j < e → get_or (head ++ tail) j 0 ≡ get_or q j 0
  unfolding head
  copied_at j out h =
      get_or-append_left head tail j (omega (arith, length-head))
      ∙ get_or-overwrite_out 2 (flag_bytes (is_answered qtype)) (take e q) j (omega arith)
      ∙ get_or-take e q j h

  length-tail : length tail ≡ (if is_answered qtype then 16 else 0)
  unfolding tail
  length-tail = ground arith

  head-tail-IsReply : IsReply q ip e qtype (head ++ tail)
  head-tail-IsReply =
      let bounds = question_end_bounds q e qtype parsed in
      let one : be16 (get_or (head ++ tail) 4 0) (get_or (head ++ tail) 5 0) ≡ 1 =
        ground (arith, flag_at 2, flag_at 3) in
      record {
        size = omega (arith, length-append head tail, length-head, length-tail);
        same_question =
            question_end_agree q (head ++ tail) e qtype parsed
              (omega (arith, length-append head tail, length-head)) one
              (λ i low high. copied_at i (inr low) high);
        question =
            ap (drop 12) (take-append head tail e (sym length-head))
            ∙ unfold head in
              drop-overwrite 12 2 (flag_bytes (is_answered qtype)) (take e q) (omega arith);
        id_hi = copied_at 0 (omega arith) (omega arith);
        id_lo = copied_at 1 (omega arith) (omega arith);
        flags = ground (arith, flag_at 0, flag_at 1);
        one_question = one;
        answers = ground (arith, flag_at 4, flag_at 5);
        no_authority = ground (arith, flag_at 6, flag_at 7);
        no_additional = ground (arith, flag_at 8, flag_at 9);
        answer = unfold tail in drop-append head tail e (sym length-head);
      }

build_none :
    (q ip : Bytes) (outcap : ℕ) (r : Bytes)
    → question_end q ≡ none
    → build_reply q ip outcap ≢ some r
unfolding build_reply
build_none q ip outcap r silent h = ground arith

reply_to_eq :
    (q ip : Bytes) (e qtype outcap : ℕ) (r : Bytes) (four : length ip ≡ 4)
    (parsed : question_end q ≡ some (e, qtype))
    → reply_to q e qtype ip outcap ≡ some r
    → (head q ip e qtype four parsed ++ tail q ip e qtype four parsed ≡ r)
      × (e + (if is_answered qtype then 16 else 0) ≤ outcap)
unfolding head tail
reply_to_eq q ip e qtype outcap r four parsed h = ground arith

reply_to-some :
    (q ip : Bytes) (e qtype outcap : ℕ) (r : Bytes)
    → length ip ≡ 4
    → question_end q ≡ some (e, qtype)
    → reply_to q e qtype ip outcap ≡ some r
    → (length r ≤ outcap) × IsReply q ip e qtype r
reply_to-some q ip e qtype outcap r four parsed h =
    let (whole, room) = reply_to_eq q ip e qtype outcap r four parsed h in
    let reply : IsReply q ip e qtype r =
      subst (IsReply q ip e qtype) whole (head-tail-IsReply q ip e qtype four parsed) in
    (omega (arith, reply.size), reply)

-- A reply fits the buffer, echoes the query's id and question, and holds nothing else but the one
-- A record of the portal's address, and that only where the question asks for an address.
pub build_reply-IsReply :
    (q ip : Bytes) (outcap : ℕ) {r : Bytes}
    → length ip ≡ 4
    → build_reply q ip outcap ≡ some r
    → (e : ℕ) × (qtype : ℕ) × (question_end q ≡ some (e, qtype))
      × ((length r ≤ outcap) × IsReply q ip e qtype r)
unfolding build_reply
build_reply-IsReply q ip outcap {r} four h = elim (Option-cases (question_end q)) [
  | inl silent ↦ absurd (build_none q ip outcap r silent h)
  | inr ((e, qtype), parsed) ↦ (
    e,
    qtype,
    parsed,
    reply_to-some q ip e qtype outcap r four parsed (rw (parsed, build_reply) at h),
  )
]

-- Every query that holds one question is answered, if the buffer has room for the reply.
build_reply_answers :
    (q ip : Bytes) (outcap e qtype : ℕ)
    → question_end q ≡ some (e, qtype)
    → e + (if is_answered qtype then 16 else 0) ≤ outcap
    → build_reply q ip outcap ≢ none
unfolding build_reply
build_reply_answers q ip outcap e qtype parsed room = ground arith
