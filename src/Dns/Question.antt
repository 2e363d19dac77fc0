-- ===== src/Dns/Question.antt =====
-- The walk of main/dns_hijack.h over a question.
use deye_inverter_display_es.Common.{
  ℕ, zero, suc, ◌+◌, ◌*◌, ◌-◌, ◌≤◌, ◌<◌, ◌/◌, ◌%◌, ◌≡◌, ◌≢◌, refl, ap, ◌∙◌, Bool, true, ◌==◌, some,
  List, [], ◌∷◌, ◌++◌, bit_and, be16, arith, length, get_or, length-append, append_assoc, ◌&&◌,
}
use deye_inverter_display_es.Common.Bytes.{get_or-append, get_or-append_add}
use deye_inverter_display_es.Dns.{Bytes, at, out_of_fuel, walk, walk_fuel, question_end}

-- The fuel is enough: each label that the walk passes takes two bytes of the name at least.
walk_ends :
    (fuel : ℕ) (m : Bytes) (off name : ℕ)
    → name ≤ 255
    → 255 < name + 2 * fuel
    → walk fuel m off name ≢ out_of_fuel
unfolding walk
walk_ends zero m off name n h = absurd (omega arith)
walk_ends (suc fuel) m off name n h =
    ground (arith, walk_ends fuel m (off + (1 + get_or m off 0)) (name + (1 + get_or m off 0)))

-- The walk over the name of a question always ends by one of its own checks.
pub walk_terminates : (m : Bytes) → walk walk_fuel m 12 0 ≢ out_of_fuel
walk_terminates m = walk_ends walk_fuel m 12 0 (omega arith) (omega arith)

-- Where the walk ends: inside the message, and after a name of at most 255 bytes and the root.
walk_bounds :
    (fuel : ℕ) (m : Bytes) (off name e : ℕ)
    → name ≤ 255
    → walk fuel m off name ≡ at e
    → (off + 1 ≤ e) × (e ≤ length m) × (e + name ≤ off + 256)
unfolding walk
walk_bounds zero m off name e n h = cc
walk_bounds (suc fuel) m off name e n h =
    ground (arith, walk_bounds fuel m (off + (1 + get_or m off 0)) (name + (1 + get_or m off 0)) e)

-- A question that is accepted ends inside the message, after the header, a name of at most 256
-- bytes with its root label, and the four bytes of QTYPE and QCLASS.
pub question_end_bounds :
    (m : Bytes) (e qtype : ℕ)
    → question_end m ≡ some (e, qtype)
    → (17 ≤ e) × (e ≤ length m) × (e ≤ 272) × (be16 (get_or m 4 0) (get_or m 5 0) ≡ 1)
unfolding question_end
question_end_bounds m e qtype h = ground (arith, walk_bounds walk_fuel m 12 0 (e - 4))

-- Messages that agree on a name are walked alike.
walk_agree :
    (fuel : ℕ) (m k : Bytes) (off name e : ℕ)
    → e ≤ length k
    → ((i : ℕ) → off ≤ i → i < e → get_or k i 0 ≡ get_or m i 0)
    → name ≤ 255
    → walk fuel m off name ≡ at e
    → walk fuel k off name ≡ at e
unfolding walk
walk_agree zero m k off name e l same n h = cc
walk_agree (suc fuel) m k off name e l same n h =
    let here : get_or k off 0 ≡ get_or m off 0 =
      same off (omega arith) (omega (arith, walk_bounds (suc fuel) m off name e n h)) in
    ground (
      arith,
      here,
      walk_bounds (suc fuel) m off name e n h,
      walk_agree fuel m k (off + (1 + get_or m off 0)) (name + (1 + get_or m off 0)) e l
          (λ i a b. same i (omega arith) b),
    )

-- Messages that agree up to the end of a question, from the counts on, hold the same question.
pub question_end_agree :
    (m k : Bytes) (e qtype : ℕ)
    → question_end m ≡ some (e, qtype)
    → e ≤ length k
    → be16 (get_or k 4 0) (get_or k 5 0) ≡ 1
    → ((i : ℕ) → 12 ≤ i → i < e → get_or k i 0 ≡ get_or m i 0)
    → question_end k ≡ some (e, qtype)
unfolding question_end
question_end_agree m k e qtype h l one same = ground (
  arith,
  question_end_bounds m e qtype h,
  walk_bounds walk_fuel m 12 0 (e - 4),
  walk_agree walk_fuel m k 12 0 (e - 4) (omega (arith, question_end_bounds m e qtype h))
      (λ i a b. same i a (omega arith)),
  same (e - 4),
  same (e - 4 + 1),
)

-- The bytes of a name without its root label: each label behind its length.
abbrev pub encode_name : List Bytes → Bytes
encode_name [] = []
encode_name (l ∷ ls) = (length l ∷ l) ++ encode_name ls

-- Each label has 1 to 63 bytes.
abbrev pub AreLabels : List Bytes → Type 0
AreLabels [] = Unit
AreLabels (l ∷ ls) = (0 < length l) × (length l < 64) × AreLabels ls

-- Whether the two marker bits are clear in every length under `n`.
are_plain : ℕ → Bool
are_plain zero = true
are_plain (suc l) = bit_and l 0xC0 == 0 && are_plain l

are_plain-lt : (n l : ℕ) → l < n → are_plain n ≡ true → bit_and l 0xC0 ≡ 0
unfolding are_plain
are_plain-lt zero l under all = absurd (omega arith)
are_plain-lt (suc n) l under all = ground (arith, are_plain-lt n l)

are_plain_64 : are_plain 64 ≡ true
unfolding are_plain
are_plain_64 = refl

walk_root :
    (fuel : ℕ) (m : Bytes) (off name : ℕ)
    → off < length m
    → get_or m off 0 ≡ 0
    → walk (suc fuel) m off name ≡ at (off + 1)
unfolding walk
walk_root fuel m off name h k = ground arith

walk_label :
    (fuel : ℕ) (m : Bytes) (off name n : ℕ)
    → off < length m
    → get_or m off 0 ≡ n
    → 0 < n
    → n < 64
    → name + (1 + n) ≤ 255
    → walk (suc fuel) m off name ≡ walk fuel m (off + (1 + n)) (name + (1 + n))
unfolding walk
walk_label fuel m off name n h k pos small fits =
    ground (arith, are_plain-lt 64 n small are_plain_64)

-- The walk passes every label of a name, and stops behind its root label.
walk_name :
    (fuel : ℕ) (ls : List Bytes) (before rest m : Bytes) (off name : ℕ)
    → AreLabels ls
    → name + length (encode_name ls) ≤ 255
    → 255 < name + 2 * fuel
    → m ≡ before ++ (encode_name ls ++ (0 ∷ rest))
    → off ≡ length before
    → walk fuel m off name ≡ at (off + length (encode_name ls) + 1)
walk_name zero ls before rest m off name ok n h e o = absurd (omega arith)
walk_name (suc fuel) [] before rest m off name ok n h e o =
    rw
      (walk_root fuel m off name (rw (e, o, length-append before (0 ∷ rest)) (omega arith))
        (rw (e, o) (get_or-append before (0 ∷ rest))))
      (ap at (omega arith))
walk_name (suc fuel) (l ∷ ls) before rest m off name ok n h e o =
    let tail = encode_name ls ++ (0 ∷ rest) in
    let e' : m ≡ (before ++ (length l ∷ l)) ++ tail = simp (e, append_assoc) in
    let here : get_or m off 0 ≡ length l =
      rw (e, o) (get_or-append before (encode_name (l ∷ ls) ++ (0 ∷ rest))) in
    let long : length m ≡ length before + suc (length l) + length tail = rw e' (
      omega (
        arith,
        length-append (before ++ (length l ∷ l)) tail,
        length-append before (length l ∷ l),
      )) in
    let size : length (encode_name (l ∷ ls)) ≡ suc (length l) + length (encode_name ls) =
      omega (arith, length-append l (encode_name ls)) in
    rw (walk_label fuel m off name (length l) (omega arith) here ok.0 ok.1 (omega arith)) (
      walk_name fuel ls (before ++ (length l ∷ l)) rest m (off + (1 + length l))
        (name + (1 + length l)) ok.2 (omega arith) (omega arith) e'
        (omega (arith, length-append before (length l ∷ l)))
      ∙ ap at {y = off + length (encode_name (l ∷ ls)) + 1} (omega arith))

-- A query as a client writes it: a header whose QDCOUNT is 1, a name, QTYPE, QCLASS and whatever
-- follows (an EDNS0 record, say).
abbrev pub query : ℕ → ℕ → ℕ → ℕ → Bytes → List Bytes → ℕ → Bytes → Bytes
query id_hi id_lo flags_hi flags_lo counts ls qtype rest =
    (id_hi ∷ id_lo ∷ flags_hi ∷ flags_lo ∷ 0 ∷ 1 ∷ counts)
    ++ (encode_name ls ++ (0 ∷ qtype / 256 ∷ qtype % 256 ∷ 0 ∷ 1 ∷ rest))

-- Every well-formed query is understood, whatever follows its question: the walk returns the
-- offset just past the question, and its type.
pub question_end-query :
    (id_hi id_lo flags_hi flags_lo : ℕ) (counts : Bytes) (ls : List Bytes) (qtype : ℕ)
    (rest : Bytes)
    → length counts ≡ 6
    → AreLabels ls
    → length (encode_name ls) ≤ 255
    → question_end (query id_hi id_lo flags_hi flags_lo counts ls qtype rest)
      ≡ some (12 + length (encode_name ls) + 5, qtype)
unfolding question_end
question_end-query id_hi id_lo flags_hi flags_lo counts ls qtype rest six ok small =
    let before = id_hi ∷ id_lo ∷ flags_hi ∷ flags_lo ∷ 0 ∷ 1 ∷ counts in
    let name = encode_name ls in
    let after = 0 ∷ qtype / 256 ∷ qtype % 256 ∷ 0 ∷ 1 ∷ rest in
    let m = before ++ (name ++ after) in
    let l = length name in
    let e : m ≡ (before ++ name) ++ after = rw append_assoc in
    let long : length m ≡ 12 + l + (5 + length rest) =
      omega (arith, length-append before (name ++ after), length-append name after) in
    let at_name : length (before ++ name) ≡ 12 + l = omega (arith, length-append before name) in
    let hi : get_or m (12 + l + 1) 0 ≡ qtype / 256 =
      rw e (get_or-append_add (before ++ name) after (12 + l + 1) 1 (omega arith)) in
    let lo : get_or m (12 + l + 1 + 1) 0 ≡ qtype % 256 =
      rw e (get_or-append_add (before ++ name) after (12 + l + 1 + 1) 2 (omega arith)) in
    ground (
      arith,
      walk_name walk_fuel ls before (qtype / 256 ∷ qtype % 256 ∷ 0 ∷ 1 ∷ rest) m 12 0 ok
          (omega arith) (omega arith) refl (omega arith),
    )
