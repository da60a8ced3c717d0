-- ===== src/Worker/Loop/Slots.antt =====
-- The slots of `Worker.Run` (internal/worker/worker.go): each is free, in use or on its way back.
use taskcluster_multistage_d.Common.{
  ℕ, zero, suc, ◌+◌, ◌≤◌, ◌≡◌, refl, ap, ◌==◌, some, List, [], ◌∷◌, ◌++◌, length, if◌then◌else◌,
  arith,
}
use taskcluster_multistage_d.Worker.Claim.{TaskClaim}
use taskcluster_multistage_d.Worker.Loop.{pop_last, launch}
use taskcluster_multistage_d.Worker.Loop.System.{range_from, claims_of}

-- How often a slot stands in a list.
abbrev pub count : ℕ → List ℕ → ℕ
count x [] = 0
count x (y ∷ ys) = (if x == y then 1 else 0) + count x ys

abbrev pub slots_of : List (ℕ × TaskClaim) → List ℕ
slots_of [] = []
slots_of ((slot, claim) ∷ rest) = slot ∷ slots_of rest

pub count-append : (x : ℕ) (xs ys : List ℕ) → count x (xs ++ ys) ≡ count x xs + count x ys
count-append x [] ys = omega arith
count-append x (y ∷ xs) ys = ground (arith, count-append x xs ys)

pub slots_of-append :
    (xs ys : List (ℕ × TaskClaim)) → slots_of (xs ++ ys) ≡ slots_of xs ++ slots_of ys
slots_of-append [] ys = refl
slots_of-append ((slot, claim) ∷ xs) ys = ap (λ t. slot ∷ t) (slots_of-append xs ys)

pub length-range_from : (i n : ℕ) → length (range_from i n) ≡ n
length-range_from i zero = refl
length-range_from i (suc n) = ap suc (length-range_from (suc i) n)

-- The last slot of a list that is not empty, and the others.
pop_last-some :
    (x : ℕ) (xs : List ℕ)
    → (front : List ℕ) × (last : ℕ) × (pop_last (x ∷ xs) ≡ some (front, last))
      × (length xs ≡ length front)
      × ((y : ℕ) → count y (x ∷ xs) ≡ (if y == last then 1 else 0) + count y front)
pop_last-some x [] = ([], x, refl, refl, λ y. refl)
pop_last-some x (z ∷ zs) =
    let (front, last, e, len, counts) = pop_last-some z zs in
    (x ∷ front, last, ground arith, ground arith, λ y. ground (arith, counts y))

-- What the launch of tasks does, if there are slots enough: it does not panic, and the slots are
-- shared out between those that stay free and the started tasks, one to each claim.
pub record Launched (claims : List TaskClaim) (free : List ℕ) (rest : List ℕ)
    (started : List (ℕ × TaskClaim)) : Type 0 where
  pub lengths : length rest + length claims ≡ length free
  pub one_each : claims_of started ≡ claims
  pub counts : (y : ℕ) → count y free ≡ count y rest + count y (slots_of started)

pub launch-some :
    (claims : List TaskClaim) (free : List ℕ)
    → length claims ≤ length free
    → (rest : List ℕ) × (started : List (ℕ × TaskClaim)) × (launch claims free
        ≡ some (rest, started))
      × Launched claims free rest started
launch-some [] free h =
    (free, [], refl, record { lengths = omega arith; one_each = refl; counts = λ y. omega arith })
launch-some (claim ∷ claims) [] h = absurd (omega arith)
launch-some (claim ∷ claims) (x ∷ xs) h =
    let (front, last, e, len, counts) = pop_last-some x xs in
    let (rest, started, f, l) = launch-some claims front (omega arith) in
    (
      rest,
      (last, claim) ∷ started,
      ground arith,
      record {
        lengths = omega (arith, l.lengths);
        one_each = ap (λ t. claim ∷ t) l.one_each;
        counts = λ y. omega (arith, counts y, l.counts y);
      },
    )
