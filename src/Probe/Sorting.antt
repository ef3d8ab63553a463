-- ===== src/Probe/Sorting.antt =====
-- The sorted samples of cmd/otcat-latencyprobe/main.go.
use otcat.Base.{
  subst, ℕ, zero, suc, ◌-◌, ◌≤◌, ◌<◌, ◌≡◌, refl, ap, ◌∙◌, true, false, some, List, [], ◌∷◌, leb,
  length, All, arith, Bool-cases, inl, inr, leb→le,
}
use otcat.Probe.{index, insert, sort_samples}

-- Each sample is at most those behind it.
abbrev pub IsAscending : List ℕ → Type 0
IsAscending [] = Unit
IsAscending (x ∷ xs) = All (λ y. x ≤ y) xs × IsAscending xs

insert_here : (x y : ℕ) (ys : List ℕ) → leb x y ≡ true → insert x (y ∷ ys) ≡ x ∷ y ∷ ys
unfolding insert
insert_here x y ys e = rw e refl

insert_later : (x y : ℕ) (ys : List ℕ) → leb x y ≡ false → insert x (y ∷ ys) ≡ y ∷ insert x ys
unfolding insert
insert_later x y ys e = rw e refl

length-insert : (x : ℕ) (ys : List ℕ) → length (insert x ys) ≡ suc (length ys)
length-insert x [] = unfold insert in refl
length-insert x (y ∷ ys) = elim (Bool-cases (leb x y)) [
  | inl e ↦ ap length (insert_here x y ys e)
  | inr e ↦ ap length (insert_later x y ys e) ∙ ap suc (length-insert x ys)
]

pub length-sort_samples : (xs : List ℕ) → length (sort_samples xs) ≡ length xs
unfolding sort_samples
length-sort_samples [] = refl
length-sort_samples (x ∷ xs) = length-insert x (sort_samples xs) ∙ ap suc (length-sort_samples xs)

module _ (P : ℕ → Type 0) where
  All-insert : (x : ℕ) (ys : List ℕ) → P x → All P ys → All P (insert x ys)
  All-insert x [] p h = unfold insert in (p, tt)
  All-insert x (y ∷ ys) p h = elim (Bool-cases (leb x y)) [
    | inl e ↦ rw (insert_here x y ys e) (p, h)
    | inr e ↦ rw (insert_later x y ys e) (h.0, All-insert x ys p h.1)
  ]

  insert-All : (x : ℕ) (ys : List ℕ) → All P (insert x ys) → P x × All P ys
  insert-All x [] h = (unfold insert in h.0, tt)
  insert-All x (y ∷ ys) h = elim (Bool-cases (leb x y)) [
    | inl e ↦ rw (insert_here x y ys e) at h
    | inr e ↦
        let g = (rw (insert_later x y ys e) at h) in
        let (p, q) = insert-All x ys g.1 in (p, (g.0, q))
  ]

  pub sort_samples-All : (xs : List ℕ) → All P (sort_samples xs) → All P xs
  unfolding sort_samples
  sort_samples-All [] h = tt
  sort_samples-All (x ∷ xs) h =
      let (p, q) = insert-All x (sort_samples xs) h in (p, sort_samples-All xs q)

All-weaken : (x y : ℕ) (ys : List ℕ) → x ≤ y → All (λ z. y ≤ z) ys → All (λ z. x ≤ z) ys
All-weaken x y [] h k = tt
All-weaken x y (z ∷ zs) h k = (omega (arith, k.0), All-weaken x y zs h k.1)

insert-IsAscending : (x : ℕ) (ys : List ℕ) → IsAscending ys → IsAscending (insert x ys)
insert-IsAscending x [] h = unfold insert in (tt, tt)
insert-IsAscending x (y ∷ ys) h = elim (Bool-cases (leb x y)) [
  | inl e ↦ let le = leb→le x y e in rw (insert_here x y ys e) ((le, All-weaken x y ys le h.0), h)
  | inr e ↦
      rw (insert_later x y ys e)
        (All-insert (λ z. y ≤ z) x ys (ground (arith, e)) h.0, insert-IsAscending x ys h.1)
]

pub sort_samples-IsAscending : (xs : List ℕ) → IsAscending (sort_samples xs)
unfolding sort_samples
sort_samples-IsAscending [] = tt
sort_samples-IsAscending (x ∷ xs) =
    insert-IsAscending x (sort_samples xs) (sort_samples-IsAscending xs)

pub index_lt : (xs : List ℕ) (i : ℕ) → i < length xs → (v : ℕ) × (index xs i ≡ some v)
unfolding index
index_lt [] i h = absurd (omega arith)
index_lt (x ∷ xs) zero h = (x, refl)
index_lt (x ∷ xs) (suc i) h = index_lt xs i (omega arith)

index-All : (P : ℕ → Type 0) (xs : List ℕ) (i v : ℕ) → All P xs → index xs i ≡ some v → P v
unfolding index
index-All P [] i v h e = absurd (ground (arith, e))
index-All P (x ∷ xs) zero v h e = let q : x ≡ v = ground (arith, e) in subst P q h.0
index-All P (x ∷ xs) (suc i) v h e = index-All P xs i v h.1 e

-- In ascending samples a later index holds no less.
pub index_mono :
    (xs : List ℕ) (i j v w : ℕ)
    → IsAscending xs
    → i ≤ j
    → index xs i ≡ some v
    → index xs j ≡ some w
    → v ≤ w
unfolding index
index_mono [] i j v w h le e f = absurd (ground (arith, e))
index_mono (x ∷ xs) zero zero v w h le e f = ground (arith, e, f)
index_mono (x ∷ xs) zero (suc j) v w h le e f =
    let q : x ≡ v = ground (arith, e) in rw (← q) (index-All (λ y. x ≤ y) xs j w h.0 f)
index_mono (x ∷ xs) (suc i) zero v w h le e f = absurd (omega arith)
index_mono (x ∷ xs) (suc i) (suc j) v w h le e f = index_mono xs i j v w h.1 (omega arith) e f

-- The first and the last of ascending samples bound them all.
pub first_bound : (xs : List ℕ) (v : ℕ) → IsAscending xs → index xs 0 ≡ some v → All (λ y. v ≤ y) xs
unfolding index
first_bound [] v h e = tt
first_bound (x ∷ xs) v h e =
    let q : x ≡ v = ground (arith, e) in subst (λ z. All (λ y. z ≤ y) (x ∷ xs)) q (omega arith, h.0)

pub last_bound :
    (xs : List ℕ) (v : ℕ) → IsAscending xs → index xs (length xs - 1) ≡ some v → All (λ y. y ≤ v) xs
unfolding index
last_bound [] v h e = tt
last_bound (x ∷ []) v h e = (ground (arith, e), tt)
last_bound (x ∷ y ∷ ys) v h e =
    let q : length (x ∷ y ∷ ys) - 1 ≡ suc (length (y ∷ ys) - 1) = omega arith in
    let rest = last_bound (y ∷ ys) v h.1 (subst (λ i. index (x ∷ y ∷ ys) i ≡ some v) q e) in
    (omega (arith, h.0.0, rest.0), rest)
