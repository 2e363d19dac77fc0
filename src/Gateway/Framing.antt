-- ===== src/Gateway/Framing.antt =====
-- How main/modbus_gw.c cuts a client's byte stream into frames.
use deye_inverter_display_es.Common.{
  ℕ, zero, suc, ◌≤◌, ◌<◌, ◌≡◌, ◌≢◌, ◌⊎◌, inl, inr, refl, ap, sym, ◌∙◌, subst, true, false,
  Bool-cases, List, [], ◌∷◌, ◌++◌, append_assoc, append-nil, arith, length, take, drop,
  length-append, length-drop,
}
use deye_inverter_display_es.Common.Bytes.{get_or-append_left, take-append_left, drop-append_left}
use deye_inverter_display_es.Gateway.{
  Bytes, Cfg, Net, World, Drained, keep, closed, out_of_fuel, Head, wait, bad, frame, classify,
  serve, drain, recv, recv_all,
}

-- A complete frame has 8 to 260 bytes, all of them buffered.
classify_frame :
    (buf : Bytes) (total : ℕ)
    → classify buf ≡ frame total
    → (8 ≤ total) × (total ≤ 260) × (total ≤ length buf)
unfolding classify
classify_frame buf total h = ground arith

-- Only less than one maximum-size frame is ever waited with.
classify_wait : (buf : Bytes) → classify buf ≡ wait → length buf < 260
unfolding classify
classify_wait buf h = ground arith

-- What follows does not change how a header is read, except that it may complete a frame.
classify-append : (x y : Bytes) → (classify x ≡ wait) ⊎ (classify (x ++ y) ≡ classify x)
unfolding classify
classify-append x y = ground (
  arith,
  length-append x y,
  get_or-append_left x y 2,
  get_or-append_left x y 3,
  get_or-append_left x y 4,
  get_or-append_left x y 5,
)

Head-cases : (h : Head) → (h ≡ wait) ⊎ ((h ≡ bad) ⊎ ((total : ℕ) × (h ≡ frame total)))
Head-cases wait = inl refl
Head-cases bad = inr (inl refl)
Head-cases (frame total) = inr (inr (total, refl))

keep_eq : (a b : Bytes) → keep a ≡ keep b → a ≡ b
keep_eq a b h = cc

out_of_fuel_keep : (a : Bytes) → out_of_fuel ≢ keep a
out_of_fuel_keep a h = cc

closed_keep : (a : Bytes) → closed ≢ keep a
closed_keep a h = cc

Drained-cases :
    (d : Drained) → (d ≡ closed) ⊎ ((d ≡ out_of_fuel) ⊎ ((rest : Bytes) × (d ≡ keep rest)))
Drained-cases (keep rest) = inr (inr (rest, refl))
Drained-cases closed = inl refl
Drained-cases out_of_fuel = inr (inl refl)

-- The pieces of a stream in one.
abbrev pub join : List Bytes → Bytes
join [] = []
join (c ∷ cs) = c ++ join cs

module _ (n : Net) (cfg : Cfg) where
  drain_wait :
      (fuel : ℕ) (buf : Bytes) (w : World n)
      → classify buf ≡ wait
      → drain n cfg (suc fuel) buf w ≡ (keep buf, w)
  unfolding drain
  drain_wait fuel buf w h = rw (h, drain)

  drain_bad :
      (fuel : ℕ) (buf : Bytes) (w : World n)
      → classify buf ≡ bad
      → drain n cfg (suc fuel) buf w ≡ (closed, w)
  unfolding drain
  drain_bad fuel buf w h = rw (h, drain)

  drain_sent :
      (fuel total : ℕ) (buf : Bytes) (w : World n)
      → classify buf ≡ frame total
      → (serve n cfg (take total buf) w).0 ≡ true
      → drain n cfg (suc fuel) buf w
        ≡ drain n cfg fuel (drop total buf) (serve n cfg (take total buf) w).1
  unfolding drain
  drain_sent fuel total buf w h s = rw (h, s, drain)

  drain_failed :
      (fuel total : ℕ) (buf : Bytes) (w : World n)
      → classify buf ≡ frame total
      → (serve n cfg (take total buf) w).0 ≡ false
      → drain n cfg (suc fuel) buf w ≡ (closed, (serve n cfg (take total buf) w).1)
  unfolding drain
  drain_failed fuel total buf w h s = rw (h, s, drain)

  -- More fuel than buffered bytes is enough.
  drain_ends :
      (fuel : ℕ) (buf : Bytes) (w : World n)
      → length buf < fuel
      → (drain n cfg fuel buf w).0 ≢ out_of_fuel
  drain_ends zero buf w h = absurd (omega arith)
  drain_ends (suc fuel) buf w h = elim (Head-cases (classify buf)) [
    | inl e ↦ rw (drain_wait fuel buf w e) (λ (k : keep buf ≡ out_of_fuel). cc)
    | inr (inl e) ↦ rw (drain_bad fuel buf w e) (λ (k : closed ≡ out_of_fuel). cc)
    | inr (inr (total, e)) ↦ elim (Bool-cases (serve n cfg (take total buf) w).0) [
      | inl s ↦ rw (drain_sent fuel total buf w e s) (
          drain_ends fuel (drop total buf) (serve n cfg (take total buf) w).1
            (omega (arith, classify_frame buf total e, length-drop total buf)))
      | inr s ↦ rw (drain_failed fuel total buf w e s) (λ (k : closed ≡ out_of_fuel). cc)
    ]
  ]

  -- The fuel makes no difference, as long as it is enough.
  drain_fuel :
      (f g : ℕ) (buf : Bytes) (w : World n)
      → length buf < f
      → length buf < g
      → drain n cfg f buf w ≡ drain n cfg g buf w
  drain_fuel zero g buf w h k = absurd (omega arith)
  drain_fuel (suc f) zero buf w h k = absurd (omega arith)
  drain_fuel (suc f) (suc g) buf w h k = elim (Head-cases (classify buf)) [
    | inl e ↦ drain_wait f buf w e ∙ sym (drain_wait g buf w e)
    | inr (inl e) ↦ drain_bad f buf w e ∙ sym (drain_bad g buf w e)
    | inr (inr (total, e)) ↦ elim (Bool-cases (serve n cfg (take total buf) w).0) [
      | inl s ↦
          drain_sent f total buf w e s
          ∙ drain_fuel f g (drop total buf) (serve n cfg (take total buf) w).1
              (omega (arith, classify_frame buf total e, length-drop total buf))
              (omega (arith, classify_frame buf total e, length-drop total buf))
          ∙ sym (drain_sent g total buf w e s)
      | inr s ↦ drain_failed f total buf w e s ∙ sym (drain_failed g total buf w e s)
    ]
  ]

  -- Going on with `more` behind what a drain left.
  abbrev go_on : Bytes → Drained × World n → Drained × World n
  go_on more r = elim r.0 [
    | keep buf ↦ recv n cfg buf more r.1
    | closed ↦ (closed, r.1)
    | out_of_fuel ↦ (out_of_fuel, r.1)
  ]

  -- Draining a prefix and going on is draining the whole.
  drain-append :
      (f g : ℕ) (x y : Bytes) (w : World n)
      → length x < f
      → length (x ++ y) < g
      → go_on y (drain n cfg f x w) ≡ drain n cfg g (x ++ y) w
  unfolding recv
  drain-append zero g x y w h k = absurd (omega arith)
  drain-append (suc f) zero x y w h k = absurd (omega arith)
  drain-append (suc f) (suc g) x y w h k = elim (Head-cases (classify x)) [
    | inl e ↦
        ap (go_on y) (drain_wait f x w e)
        ∙ drain_fuel (suc (length (x ++ y))) (suc g) (x ++ y) w (omega arith) k
    | inr (inl e) ↦
        ap (go_on y) (drain_bad f x w e) ∙ sym (drain_bad g (x ++ y) w (head_of bad e (λ q. cc)))
    | inr (inr (total, e)) ↦
        let fits = classify_frame x total e in
        let e' : classify (x ++ y) ≡ frame total = head_of (frame total) e (λ q. cc) in
        let same : take total (x ++ y) ≡ take total x = take-append_left total x y fits.2 in
        elim (Bool-cases (serve n cfg (take total x) w).0) [
          | inl s ↦
              ap (go_on y) (drain_sent f total x w e s)
              ∙ drain-append f g (drop total x) y (serve n cfg (take total x) w).1
                  (omega (arith, length-drop total x))
                  (omega
                    (arith, length-drop total x, length-append x y, length-append (drop total x) y))
              ∙ sym (
                  drain_sent g total (x ++ y) w e' (rw same s)
                  ∙ rw (same, drop-append_left total x y fits.2))
          | inr s ↦
              ap (go_on y) (drain_failed f total x w e s)
              ∙ sym (drain_failed g total (x ++ y) w e' (rw same s) ∙ rw same)
        ]
  ]
    where
      head_of : (r : Head) → classify x ≡ r → (r ≢ wait) → classify (x ++ y) ≡ r
      head_of r e ne = ground (arith, classify-append x y)

  -- What a drain keeps is less than a frame.
  drain_keeps :
      (fuel : ℕ) (buf rest : Bytes) (w : World n)
      → (drain n cfg fuel buf w).0 ≡ keep rest
      → classify rest ≡ wait
  drain_keeps zero buf rest w h = absurd (out_of_fuel_keep rest (unfold drain in h))
  drain_keeps (suc fuel) buf rest w h = elim (Head-cases (classify buf)) [
    | inl e ↦
        subst (λ b. classify b ≡ wait) (keep_eq buf rest (rw (drain_wait fuel buf w e) at h)) e
    | inr (inl e) ↦ absurd (closed_keep rest (rw (drain_bad fuel buf w e) at h))
    | inr (inr (total, e)) ↦ elim (Bool-cases (serve n cfg (take total buf) w).0) [
      | inl s ↦
          drain_keeps fuel (drop total buf) rest (serve n cfg (take total buf) w).1
            (rw (drain_sent fuel total buf w e s) at h)
      | inr s ↦ absurd (closed_keep rest (rw (drain_failed fuel total buf w e s) at h))
    ]
  ]

  -- Whatever a client sends, a read leaves it closed or with less than one frame buffered, so that
  -- the next read always has room.
  recv_room :
      (buf chunk : Bytes) (w : World n)
      → ((recv n cfg buf chunk w).0 ≡ closed)
        ⊎ ((rest : Bytes) × ((recv n cfg buf chunk w).0 ≡ keep rest) × (length rest < 260))
  unfolding recv
  recv_room buf chunk w =
      let all = buf ++ chunk in
      elim (Drained-cases (drain n cfg (suc (length all)) all w).0) [
        | inl c ↦ inl c
        | inr (inl o) ↦ absurd (drain_ends (suc (length all)) all w (omega arith) o)
        | inr (inr (rest, k)) ↦
            inr (rest, k, classify_wait rest (drain_keeps (suc (length all)) all rest w k))
      ]

  recv-append :
      (buf x y : Bytes) (w : World n) → go_on y (recv n cfg buf x w) ≡ recv n cfg buf (x ++ y) w
  unfolding recv
  recv-append buf x y w =
      drain-append (suc (length (buf ++ x))) (suc (length (buf ++ (x ++ y)))) (buf ++ x) y w
        (omega arith) (rw append_assoc (omega arith))
      ∙ rw append_assoc

  -- Reading the pieces `cs` behind what a read left.
  following :
      (cs : List Bytes) (d : Drained) (v : World n)
      → ((rest : Bytes) → d ≡ keep rest → classify rest ≡ wait)
      → ((rest : Bytes)
          → classify rest ≡ wait
          → recv_all n cfg rest cs v ≡ recv n cfg rest (join cs) v)
      → elim d as (λ x. Drained × World n) [
        | keep rest ↦ recv_all n cfg rest cs v
        | closed ↦ (closed, v)
        | out_of_fuel ↦ (out_of_fuel, v)
      ]
        ≡ go_on (join cs) (d, v)
  following cs (keep rest) v waits ih = ih rest (waits rest refl)
  following cs closed v waits ih = refl
  following cs out_of_fuel v waits ih = refl

  -- TCP may cut a client's stream anywhere: from a client that waits for a frame, reading it in any
  -- pieces serves the same frames in the same order, and ends in the same state, as reading it
  -- whole.
  pub recv_all-join :
      (chunks : List Bytes) (buf : Bytes) (w : World n)
      → classify buf ≡ wait
      → recv_all n cfg buf chunks w ≡ recv n cfg buf (join chunks) w
  unfolding recv_all
  recv_all-join [] buf w h = sym (unfold recv in rw append-nil (drain_wait (length buf) buf w h))
  recv_all-join (c ∷ cs) buf w h =
      let r = recv n cfg buf c w in
      following cs r.0 r.1
        (λ rest k. unfold recv in drain_keeps (suc (length (buf ++ c))) (buf ++ c) rest w k)
        (λ rest k. recv_all-join cs rest r.1 k)
      ∙ recv-append buf c (join cs) w
