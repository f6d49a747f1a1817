-- ===== src/Sched/Pick.antt =====
-- The loop of `rrschedule_call` takes the nearest task that need not be skipped.
use helix_os.Common.{
  ℕ, zero, suc, ◌+◌, ◌-◌, ◌≤◌, ◌<◌, ◌≡◌, ◌≢◌, Bool, true, false, some, arith, ltb, if◌then◌else◌,
  inl, inr, Bool-cases,
}
use helix_os.Sched.{next_index, pick}

-- How many steps lead from `i` to `t` round a list of `len` tasks: 1 to `len`.
abbrev pub distance : ℕ → ℕ → ℕ → ℕ
distance len i t = if ltb i t then t - i else t + len - i

module _ (len i t : ℕ) (i_in : i < len) (t_in : t < len) where
  pub distance_bounds : (0 < distance len i t) × (distance len i t ≤ len)
  distance_bounds = ground arith

  pub next_index-lt : next_index len i < len
  unfolding next_index
  next_index-lt = ground arith

  -- A step that does not arrive comes one nearer.
  pub distance-next_index :
      next_index len i ≢ t → distance len (next_index len i) t + 1 ≡ distance len i t
  unfolding next_index
  distance-next_index h = ground arith

pub distance_one : (len i : ℕ) → i < len → distance len i (next_index len i) ≡ 1
unfolding next_index
distance_one len i h = ground arith

-- The task found is one of the list, it need not be skipped, and no such task is nearer.
pub record Nearest (len : ℕ) (skip : ℕ → Bool) (i n : ℕ) : Type 0 where
  pub inside : n < len
  pub ready : skip n ≡ false
  pub first : (t : ℕ) → t < len → skip t ≡ false → distance len i n ≤ distance len i t

skipped_ne : {i t : ℕ} (skip : ℕ → Bool) → skip i ≡ true → skip t ≡ false → i ≢ t
skipped_ne skip p q e = cc

-- A step over a task that is skipped does not change which one is the nearest.
Nearest-back :
    (len : ℕ) (skip : ℕ → Bool) (i n : ℕ)
    → i < len
    → skip (next_index len i) ≡ true
    → Nearest len skip (next_index len i) n
    → Nearest len skip i n
Nearest-back len skip i n hi skipped near = record {
  inside = near.inside;
  ready = near.ready;
  first = λ t ht rt.
      let a = distance-next_index len i t hi ht (skipped_ne skip skipped rt) in
      let b = distance-next_index len i n hi near.inside (skipped_ne skip skipped near.ready) in
      omega (arith, near.first t ht rt);
}

-- With a ready task among `len`, and fuel for `len` rounds, the loop ends at the nearest one.
pub pick-Nearest :
    (fuel len : ℕ) (skip : ℕ → Bool) (i t : ℕ)
    → i < len
    → t < len
    → skip t ≡ false
    → distance len i t ≤ fuel
    → (n : ℕ) × (pick fuel len skip i ≡ some n) × Nearest len skip i n
unfolding pick
pick-Nearest zero len skip i t hi ht ready enough =
    absurd (omega (arith, (distance_bounds len i t hi ht).0))
pick-Nearest (suc fuel) len skip i t hi ht ready enough =
    elim (Bool-cases (skip (next_index len i))) [
      | inl skipped ↦
          let nt = distance-next_index len i t hi ht (skipped_ne skip skipped ready) in
          let (n, e, near) =
            pick-Nearest fuel len skip (next_index len i) t (next_index-lt len i t hi ht) ht ready
              (omega arith) in
          (n, rw skipped e, Nearest-back len skip i n hi skipped near)
      | inr here ↦ (
        next_index len i,
        rw here,
        record {
          inside = next_index-lt len i t hi ht;
          ready = here;
          first =
              λ u hu ru. omega (arith, distance_one len i hi, (distance_bounds len i u hi hu).0);
        },
      )
    ]
