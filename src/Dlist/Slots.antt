-- ===== src/Dlist/Slots.antt =====
-- The invariant of a dlist, and what its two loops do to the slots.
use helix_os.Common.{
  ℕ, zero, suc, ◌+◌, ◌*◌, ◌^◌, ◌≤◌, ◌<◌, ◌≡◌, ◌≢◌, refl, ◌∙◌, ◌&&◌, List, [], ◌∷◌, arith, ◌==◌, leb,
  ltb, if◌then◌else◌, get_or, set, length, length-set, replicate, get_or-set_self, get_or-set_ne,
  ℕ_discrete, inl, inr, Bool-cases,
}
use helix_os.Dlist.{Dlist, find_free, clear_from}

-- How many entries are not NULL.
unfoldable pub occupied : List ℕ → ℕ
occupied [] = 0
occupied (x ∷ xs) = (if x == 0 then 0 else 1) + occupied xs

pub record IsValid (list : Dlist) : Type 0 where
  pub room : length list.entries ≡ list.alloced
  pub blocks : list.alloced ≡ list.blocks_alloced * list.block_size
  pub some_block : 0 < list.block_size
  pub some_room : 0 < list.alloced
  pub small : list.alloced < 2 ^ 31
  pub counted : list.used ≡ occupied list.entries

pub occupied-le : (xs : List ℕ) → occupied xs ≤ length xs
unfolding occupied
occupied-le [] = omega arith
occupied-le (x ∷ xs) = ground (arith, occupied-le xs)

pub occupied-set :
    (xs : List ℕ) (i v : ℕ)
    → i < length xs
    → occupied (set xs i v) + (if get_or xs i 0 == 0 then 0 else 1)
      ≡ occupied xs + (if v == 0 then 0 else 1)
unfolding occupied
occupied-set [] i v h = absurd (omega arith)
occupied-set (x ∷ xs) zero v h = omega arith
occupied-set (x ∷ xs) (suc i) v h = omega (arith, occupied-set xs i v)

-- The count goes by the entries alone: NULL entries at the end do not matter.
pub occupied-cong :
    (xs ys : List ℕ) → ((k : ℕ) → get_or xs k 0 ≡ get_or ys k 0) → occupied xs ≡ occupied ys
unfolding occupied
occupied-cong [] [] same = refl
occupied-cong [] (y ∷ ys) same = ground (arith, same 0, occupied-cong [] ys (λ k. same (suc k)))
occupied-cong (x ∷ xs) [] same = ground (arith, same 0, occupied-cong xs [] (λ k. same (suc k)))
occupied-cong (x ∷ xs) (y ∷ ys) same =
    ground (arith, same 0, occupied-cong xs ys (λ k. same (suc k)))

-- What the search for a free slot finds among the slots from `i` on.
pub record Found (entries : List ℕ) (left i r : ℕ) : Type 0 where
  pub from : i ≤ r
  pub upto : r ≤ i + left
  pub taken_before : (k : ℕ) → i ≤ k → k < r → get_or entries k 0 ≢ 0
  pub free_at : r < i + left → get_or entries r 0 ≡ 0

past_taken :
    (entries : List ℕ) (i k : ℕ)
    → get_or entries i 0 ≢ 0
    → (i + 1 ≤ k → get_or entries k 0 ≢ 0)
    → i ≤ k
    → get_or entries k 0 ≢ 0
past_taken entries i k here later lo = elim (ℕ_discrete i k) [
  | yes e ↦ rw (← e) here
  | no ne ↦ later (omega arith)
]

pub find_free-Found :
    (entries : List ℕ) (left i : ℕ) → Found entries left i (find_free entries left i)
unfolding find_free
find_free-Found entries zero i = record {
  from = omega arith;
  upto = omega arith;
  taken_before = λ k lo hi. absurd (omega arith);
  free_at = λ h. absurd (omega arith);
}
find_free-Found entries (suc left) i = elim (Bool-cases (get_or entries i 0 == 0)) [
  | inl free ↦ rw free (record {
    from = omega arith;
    upto = omega arith;
    taken_before = λ k lo hi. absurd (omega arith);
    free_at = λ h. ground arith;
  })
  | inr taken ↦
      let w = find_free-Found entries left (i + 1) in
      rw taken (record {
        from = omega (arith, w.from);
        upto = omega (arith, w.upto);
        taken_before =
            λ k lo hi. past_taken entries i k (ground arith) (λ h. w.taken_before k h hi) lo;
        free_at = λ h. w.free_at (omega arith);
      })
]

pub get_or-clear_from :
    (entries : List ℕ) (left j k : ℕ)
    → j + left ≤ length entries
    → get_or (clear_from entries left j) k 0
      ≡ (if leb j k && ltb k (j + left) then 0 else get_or entries k 0)
unfolding clear_from
get_or-clear_from entries zero j k h = ground arith
get_or-clear_from entries (suc left) j k h = ground (
  arith,
  get_or-clear_from (set entries j 0) left (j + 1) k (omega (arith, length-set entries j 0)),
  get_or-set_self entries j 0 0 (omega arith),
  get_or-set_ne entries j k 0 0,
)

pub length-clear_from :
    (entries : List ℕ) (left j : ℕ) → length (clear_from entries left j) ≡ length entries
unfolding clear_from
length-clear_from entries zero j = refl
length-clear_from entries (suc left) j =
    length-clear_from (set entries j 0) left (j + 1) ∙ length-set entries j 0

pub get_or_past : (xs : List ℕ) (k : ℕ) → length xs ≤ k → get_or xs k 0 ≡ 0
get_or_past [] k h = refl
get_or_past (x ∷ xs) zero h = absurd (omega arith)
get_or_past (x ∷ xs) (suc k) h = get_or_past xs k (omega arith)

pub occupied-replicate : (n : ℕ) → occupied (replicate n 0) ≡ 0
unfolding occupied
occupied-replicate zero = refl
occupied-replicate (suc n) = omega (arith, occupied-replicate n)

pub get_or-replicate : (n k : ℕ) → get_or {A = ℕ} (replicate n 0) k 0 ≡ 0
get_or-replicate zero k = refl
get_or-replicate (suc n) zero = refl
get_or-replicate (suc n) (suc k) = get_or-replicate n k
