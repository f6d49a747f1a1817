-- ===== src/Region/Search.antt =====
-- The search for free bits: full bytes, the first free bit of a byte, and free runs.
use Prim.Native.Nat.{bit_and}
use helix_os.Common.{
  ℕ, zero, suc, ◌+◌, ◌-◌, ◌*◌, ◌/◌, ◌%◌, ◌≤◌, ◌<◌, ◌≡◌, ◌≢◌, refl, sym, ap, ◌∙◌, Bool, true, false,
  not, ◌&&◌, ◌||◌, some, List, arith, ltb, ◌==◌, if◌then◌else◌, length, Bool-cases, inl, inr,
  ℕ_discrete,
}
use helix_os.Common.Bytes.{within}
use helix_os.Common.Tables.{table_holds, entry_of}
use helix_os.Region.{bit_of, bitmap_get, find_bit, is_free_run}
use helix_os.Region.Runs.{byte_at, get-byte}

-- The `n` bits from `page` on are free.
abbrev pub Free : List ℕ → ℕ → ℕ → Type 0
Free map page n = (i : ℕ) → within page n i ≡ true → bitmap_get map i ≡ some false

pub bit_at :
    (map : List ℕ) (i : ℕ) → i < 8 * length map → (bit : Bool) × (bitmap_get map i ≡ some bit)
bit_at map i h =
    let (byte, e) = byte_at map (i / 8) (omega arith) in
    (bit_of byte (i % 8), get-byte map i byte e)

-- A byte that is not full has a free bit.
lowest_free : ℕ → ℕ → ℕ
lowest_free zero byte = 0
lowest_free (suc left) byte = if bit_of byte (7 - left) then lowest_free left byte else 7 - left

full_or_free : ℕ → Bool
full_or_free byte =
    (bit_and byte 0xff == 0xff)
    || (ltb (lowest_free 8 byte) 8 && not (bit_of byte (lowest_free 8 byte)))

full_table : table_holds full_or_free 256 ≡ true
unfolding table_holds full_or_free lowest_free
full_table = refl

split_full :
    (full : Bool) (k : ℕ) (bit : Bool)
    → full || (ltb k 8 && not bit) ≡ true
    → full ≡ false
    → (k < 8) × (bit ≡ false)
split_full full k bit e f = ground arith

pub free_bit :
    (byte : ℕ)
    → byte < 256
    → (bit_and byte 0xff == 0xff) ≡ false
    → (k : ℕ) × (k < 8) × (bit_of byte k ≡ false)
unfolding full_or_free
free_bit byte small f =
    let (small_k, open_bit) =
      split_full _ _ _ (entry_of full_or_free 256 byte full_table small) f in
    (lowest_free 8 byte, small_k, open_bit)

-- A byte that has a free bit is not full.
not_full_entry : ℕ → ℕ → Bool
not_full_entry byte k = bit_of byte k || not (bit_and byte 0xff == 0xff)

not_full_table : table_holds (λ x. not_full_entry (x / 8) (x % 8)) 2048 ≡ true
unfolding table_holds not_full_entry
not_full_table = refl

split_not_full : (bit full : Bool) → bit || not full ≡ true → bit ≡ false → full ≡ false
split_not_full bit full e f = ground arith

pub not_full :
    (byte k : ℕ) → byte < 256 → k < 8 → bit_of byte k ≡ false → (bit_and byte 0xff == 0xff) ≡ false
unfolding not_full_entry
not_full byte k small hk f =
    let a : (byte * 8 + k) / 8 ≡ byte = omega arith in
    let b : (byte * 8 + k) % 8 ≡ k = omega arith in
    let e =
      entry_of (λ x. not_full_entry (x / 8) (x % 8)) 2048 (byte * 8 + k) not_full_table
        (omega arith) in
    split_not_full (bit_of byte k) _
      (sym (ap (λ x. not_full_entry x ((byte * 8 + k) % 8)) a ∙ ap (not_full_entry byte) b) ∙ e) f

-- The loop finds the first free bit, if there is one within its fuel and no access before it is
-- outside the map.
pub find_bit-first :
    (fuel : ℕ) (map : List ℕ) (i p : ℕ)
    → i ≤ p
    → p < i + fuel
    → p < 8 * length map
    → bitmap_get map p ≡ some false
    → (q : ℕ) × (find_bit fuel map i ≡ some q)
      × (i ≤ q)
      × (q ≤ p)
      × (bitmap_get map q ≡ some false)
      × ((j : ℕ) → i ≤ j → j < q → bitmap_get map j ≡ some true)
unfolding find_bit
find_bit-first zero map i p lo hi inside free = absurd (omega arith)
find_bit-first (suc fuel) map i p lo hi inside free =
    let (bit, e) = bit_at map i (omega arith) in
    elim (Bool-cases bit) [
      | inl taken ↦
          let here : bitmap_get map i ≡ some true = e ∙ ap some taken in
          let ne : i ≢ p = λ same. some_ne (sym here ∙ ap (bitmap_get map) same ∙ free) in
          let (q, found, lo', hi', free', before) =
            find_bit-first fuel map (i + 1) p (omega arith) (omega arith) inside free in
          (
            q,
            rw here found,
            omega arith,
            hi',
            free',
            λ j a b. elim (ℕ_discrete j i) [
              | yes same ↦ ap (bitmap_get map) same ∙ here
              | no other ↦ before j (omega arith) b
            ],
          )
      | inr open_bit ↦
          let here : bitmap_get map i ≡ some false = e ∙ ap some open_bit in
          (i, rw here refl, omega arith, lo, here, λ j a b. absurd (omega arith))
    ]
  where
    some_ne : some true ≢ some false
    some_ne e = cc

pub is_free_run_sound :
    (n : ℕ) (map : List ℕ) (page : ℕ)
    → page + n ≤ 8 * length map
    → (free : Bool) × (is_free_run n map page ≡ some free) × (free ≡ true → Free map page n)
unfolding is_free_run
is_free_run_sound zero map page fits = (true, refl, λ e i h. absurd (ground arith))
is_free_run_sound (suc n) map page fits =
    let (bit, e) = bit_at map page (omega arith) in
    let (free, run, all) = is_free_run_sound n map (page + 1) (omega arith) in
    elim (Bool-cases bit) [
      | inl taken ↦ (false, rw (e, taken) refl, λ f. absurd (ground arith))
      | inr open_bit ↦ (
        free,
        rw (e, open_bit) run,
        λ f i h. elim (ℕ_discrete i page) [
          | yes same ↦ ap (bitmap_get map) same ∙ e ∙ ap some open_bit
          | no other ↦ all f i (ground arith)
        ],
      )
    ]

pub is_free_run-Free :
    (n : ℕ) (map : List ℕ) (page : ℕ) → Free map page n → is_free_run n map page ≡ some true
unfolding is_free_run
is_free_run-Free zero map page free = refl
is_free_run-Free (suc n) map page free =
    rw (free page (ground arith)) (is_free_run-Free n map (page + 1) (λ i h. free i (ground arith)))
