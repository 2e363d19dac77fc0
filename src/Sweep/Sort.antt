-- ===== src/Sweep/Sort.antt =====
-- main/eff_sweep.c: the powers of a sweep are sorted, without duplicates, and none is lost.
use deye_inverter_display_es.Common.{
  ℕ, ◌≤◌, ◌<◌, ◌≡◌, ◌∙◌, Bool, false, ◌||◌, List, [], ◌∷◌, ◌==◌, arith,
}
use deye_inverter_display_es.Sweep.Request.{
  sink, sink_all, turn_onto, drop_equal, drop_duplicates, sort_powers,
}

abbrev pub has : ℕ → List ℕ → Bool
has z [] = false
has z (x ∷ xs) = x == z || has z xs

-- Descending from at most a bound, and ascending from at least one.
abbrev IsDown : ℕ → List ℕ → Type 0
IsDown b [] = Unit
IsDown b (x ∷ xs) = (x ≤ b) × IsDown x xs

abbrev IsUp : ℕ → List ℕ → Type 0
IsUp b [] = Unit
IsUp b (x ∷ xs) = (b ≤ x) × IsUp x xs

-- Strictly ascending, the first element free.
abbrev IsAbove : ℕ → List ℕ → Type 0
IsAbove b [] = Unit
IsAbove b (x ∷ xs) = (b < x) × IsAbove x xs

abbrev pub IsAscending : List ℕ → Type 0
IsAscending [] = Unit
IsAscending (x ∷ xs) = IsAbove x xs

sink-IsDown : (b x : ℕ) (xs : List ℕ) → IsDown b xs → x ≤ b → IsDown b (sink x xs)
unfolding sink
sink-IsDown b x [] d h = ground arith
sink-IsDown b x (y ∷ ys) d h = ground (arith, sink-IsDown y x ys)

abbrev IsDescending : List ℕ → Type 0
IsDescending [] = Unit
IsDescending (x ∷ xs) = IsDown x xs

sink-IsDescending : (x : ℕ) (xs : List ℕ) → IsDescending xs → IsDescending (sink x xs)
unfolding sink
sink-IsDescending x [] d = ground arith
sink-IsDescending x (y ∷ ys) d = ground (arith, sink-IsDown y x ys)

sink_all-IsDescending : (done xs : List ℕ) → IsDescending done → IsDescending (sink_all done xs)
unfolding sink_all
sink_all-IsDescending done [] d = d
sink_all-IsDescending done (x ∷ xs) d =
    sink_all-IsDescending (sink x done) xs (sink-IsDescending x done d)

IsUp-weaken : (a b : ℕ) (xs : List ℕ) → a ≤ b → IsUp b xs → IsUp a xs
IsUp-weaken a b [] h u = ground arith
IsUp-weaken a b (x ∷ xs) h u = ground arith

turn_onto-IsUp : (b : ℕ) (acc xs : List ℕ) → IsDown b xs → IsUp b acc → IsUp 0 (turn_onto acc xs)
unfolding turn_onto
turn_onto-IsUp b acc [] d u = IsUp-weaken 0 b acc (ground arith) u
turn_onto-IsUp b acc (x ∷ xs) d u =
    turn_onto-IsUp x (x ∷ acc) xs d.1 (ground (arith, IsUp-weaken x b acc))

turn-IsUp : (xs : List ℕ) → IsDescending xs → IsUp 0 (turn_onto [] xs)
unfolding turn_onto
turn-IsUp [] d = ground arith
turn-IsUp (x ∷ xs) d = turn_onto-IsUp x (x ∷ []) xs d (ground arith)

drop_equal-IsAbove : (b : ℕ) (xs : List ℕ) → IsUp b xs → IsAbove b (drop_equal b xs)
unfolding drop_equal
drop_equal-IsAbove b [] u = ground arith
drop_equal-IsAbove b (x ∷ xs) u =
    ground (arith, drop_equal-IsAbove b xs, drop_equal-IsAbove x xs, IsUp-weaken b x xs)

has-sink : (z x : ℕ) (xs : List ℕ) → has z (sink x xs) ≡ (x == z || has z xs)
unfolding sink
has-sink z x [] = ground arith
has-sink z x (y ∷ ys) = ground (arith, has-sink z x ys)

has-sink_all : (z : ℕ) (done xs : List ℕ) → has z (sink_all done xs) ≡ (has z done || has z xs)
unfolding sink_all
has-sink_all z done [] = ground arith
has-sink_all z done (x ∷ xs) = ground (arith, has-sink_all z (sink x done) xs, has-sink z x done)

has-turn_onto : (z : ℕ) (acc xs : List ℕ) → has z (turn_onto acc xs) ≡ (has z acc || has z xs)
unfolding turn_onto
has-turn_onto z acc [] = ground arith
has-turn_onto z acc (x ∷ xs) = ground (arith, has-turn_onto z (x ∷ acc) xs)

has-drop_equal :
    (z b : ℕ) (xs : List ℕ) → (b == z || has z (drop_equal b xs)) ≡ (b == z || has z xs)
unfolding drop_equal
has-drop_equal z b [] = ground arith
has-drop_equal z b (x ∷ xs) = ground (arith, has-drop_equal z b xs, has-drop_equal z x xs)

has-drop_duplicates : (z : ℕ) (xs : List ℕ) → has z (drop_duplicates xs) ≡ has z xs
unfolding drop_duplicates
has-drop_duplicates z [] = ground arith
has-drop_duplicates z (x ∷ xs) = has-drop_equal z x xs

drop_duplicates-IsAscending : (xs : List ℕ) → IsUp 0 xs → IsAscending (drop_duplicates xs)
unfolding drop_duplicates
drop_duplicates-IsAscending [] u = ground arith
drop_duplicates-IsAscending (x ∷ xs) u = drop_equal-IsAbove x xs u.1

-- The sort of the powers leaves them strictly ascending, and holds exactly the powers of the
-- request.
pub sort_powers-IsAscending :
    (ps : List ℕ) → IsAscending (sort_powers ps) × ((z : ℕ) → has z (sort_powers ps) ≡ has z ps)
unfolding sort_powers
sort_powers-IsAscending ps =
    let down = sink_all [] ps in
    let up = turn_onto [] down in
    (
      drop_duplicates-IsAscending up (turn-IsUp down (sink_all-IsDescending [] ps tt)),
      λ z. has-drop_duplicates z up ∙ has-turn_onto z [] down ∙ has-sink_all z [] ps,
    )
