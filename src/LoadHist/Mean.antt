-- ===== src/LoadHist/Mean.antt =====
-- main/load_hist.c: the trimmed mean of a slot.
use deye_inverter_display_es.Common.{
  ℕ, zero, suc, ◌-◌, ◌*◌, ◌≡◌, ◌≤◌, ◌<◌, inl, inr, refl, ap, ◌∙◌, List, [], ◌∷◌, length, take, drop,
  leb, arith, Bool-cases,
}
use deye_inverter_display_es.LoadHist.Average.{insert, sort, cut_of, total, trimmed}

-- All the values lie from `lo` to `hi`.
abbrev pub AllWithin : ℕ → ℕ → List ℕ → Type 0
AllWithin lo hi [] = Unit
AllWithin lo hi (x ∷ xs) = (lo ≤ x) × (x ≤ hi) × AllWithin lo hi xs

insert-AllWithin :
    (lo hi v : ℕ) (xs : List ℕ)
    → lo ≤ v
    → v ≤ hi
    → AllWithin lo hi xs
    → AllWithin lo hi (insert v xs)
insert-AllWithin lo hi v [] l h q = (l, h, tt)
insert-AllWithin lo hi v (x ∷ xs) l h (xl, xh, q) = elim (Bool-cases (leb v x)) [
  | inl e ↦ rw e (l, h, (xl, xh, q))
  | inr e ↦ rw e (xl, xh, insert-AllWithin lo hi v xs l h q)
]

sort-AllWithin : (lo hi : ℕ) (xs : List ℕ) → AllWithin lo hi xs → AllWithin lo hi (sort xs)
sort-AllWithin lo hi [] q = tt
sort-AllWithin lo hi (x ∷ xs) (l, h, q) =
    insert-AllWithin lo hi x (sort xs) l h (sort-AllWithin lo hi xs q)

length-insert : (v : ℕ) (xs : List ℕ) → length (insert v xs) ≡ suc (length xs)
length-insert v [] = refl
length-insert v (x ∷ xs) = elim (Bool-cases (leb v x)) [
  | inl e ↦ rw e refl
  | inr e ↦ rw e (ap suc (length-insert v xs))
]

length-sort : (xs : List ℕ) → length (sort xs) ≡ length xs
length-sort [] = refl
length-sort (x ∷ xs) = length-insert x (sort xs) ∙ ap suc (length-sort xs)

drop-AllWithin : (lo hi n : ℕ) (xs : List ℕ) → AllWithin lo hi xs → AllWithin lo hi (drop n xs)
drop-AllWithin lo hi zero xs q = q
drop-AllWithin lo hi (suc n) [] q = tt
drop-AllWithin lo hi (suc n) (x ∷ xs) (l, h, q) = drop-AllWithin lo hi n xs q

length-drop : (n : ℕ) (xs : List ℕ) → length (drop n xs) ≡ length xs - n
length-drop zero xs = omega arith
length-drop (suc n) [] = omega arith
length-drop (suc n) (x ∷ xs) = omega (arith, length-drop n xs)

-- The sum of the first `n` of the values.
total-take :
    (lo hi n : ℕ) (xs : List ℕ)
    → AllWithin lo hi xs
    → n ≤ length xs
    → (lo * n ≤ total (take n xs)) × (total (take n xs) ≤ hi * n)
unfolding total
total-take lo hi zero xs q h = omega arith
total-take lo hi (suc n) [] q h = absurd (omega (arith, h))
total-take lo hi (suc n) (x ∷ xs) (l, u, q) h =
    let (a, b) = total-take lo hi n xs q (omega (arith, h)) in grind (arith, a, b, l, u)

-- The mean of a slot divides by the number of the values it sums, which is never 0, so it lies
-- between the smallest and the largest value that was measured.
mean_between :
    (lo hi : ℕ) (col : List ℕ)
    → 0 < length col
    → AllWithin lo hi col
    → let n = length col - 2 * cut_of (length col) in
      (0 < n) × (lo * n ≤ total (trimmed col)) × (total (trimmed col) ≤ hi * n)
unfolding cut_of trimmed
mean_between lo hi col some_values q =
    let m = length col in
    let cut = cut_of m in
    let room : 2 * cut < m = ground (arith, some_values) in
    let fits : m - 2 * cut ≤ length (drop cut (sort col)) =
      omega (arith, length-drop cut (sort col), length-sort col, room) in
    let (least, most) =
      total-take lo hi (m - 2 * cut) (drop cut (sort col))
        (drop-AllWithin lo hi cut (sort col) (sort-AllWithin lo hi col q)) fits in
    (omega (arith, room), least, most)
