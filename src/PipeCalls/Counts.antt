-- ===== src/PipeCalls/Counts.antt =====
-- The references of a shared object: the last release frees it, and no earlier one does.
use mathlib.Core.Path.{subst}
use helix_os.Common.{
  ℕ, zero, suc, ◌+◌, ◌-◌, ◌^◌, ◌≤◌, ◌<◌, ◌≡◌, ◌≢◌, refl, true, false, arith, ◌==◌, ◌-w◌,
}
use helix_os.PipeCalls.{World, shared_new, shared_aquire, shared_release}

pub acquires : ℕ → World → ℕ → World
acquires zero world ptr = world
acquires (suc n) world ptr = acquires n (shared_aquire world ptr) ptr

pub releases : ℕ → World → ℕ → World
releases zero world ptr = world
releases (suc n) world ptr = releases n (shared_release world ptr) ptr

-- The object at `ptr` has `n` references and stands for `object`, which `kfree` frees in the end.
-- Neither is free.
pub record Referenced (world : World) (ptr object n : ℕ) : Type 0 where
  pub count : (world.shareds ptr).references ≡ n
  pub stands : (world.shareds ptr).object ≡ object
  pub dtor : (world.shareds ptr).dtor ≢ 0
  pub live : world.freed ptr ≡ false
  pub object_live : world.freed object ≡ false

module _ (ptr object : ℕ) (ne : ptr ≢ 0) where
  aquire-Referenced :
      (world : World) (n : ℕ)
      → suc n < 2 ^ 32
      → Referenced world ptr object n
      → Referenced (shared_aquire world ptr) ptr object (suc n)
  unfolding shared_aquire
  aquire-Referenced world n small r =
      let some_ptr : (ptr == 0) ≡ false = ground arith in
      let same : (ptr == ptr) ≡ true = ground arith in
      rw some_ptr (record {
        count = rw same (omega (arith, r.count));
        stands = rw same r.stands;
        dtor = rw same r.dtor;
        live = r.live;
        object_live = r.object_live;
      })

  release-Referenced :
      (world : World) (n : ℕ)
      → suc (suc n) < 2 ^ 32
      → Referenced world ptr object (suc (suc n))
      → Referenced (shared_release world ptr) ptr object (suc n)
  unfolding shared_release
  release-Referenced world n small r =
      let some_ptr : (ptr == 0) ≡ false = ground arith in
      let c = r.count in
      let held : ((world.shareds ptr).references == 0) ≡ false = ground arith in
      let more : ((world.shareds ptr).references -w 1 == 0) ≡ false = ground arith in
      let same : (ptr == ptr) ≡ true = ground arith in
      rw (some_ptr, held, more)
        (record {
          count = rw same (omega (arith, c));
          stands = rw same r.stands;
          dtor = rw same r.dtor;
          live = r.live;
          object_live = r.object_live;
        })

  release-last :
      (world : World)
      → Referenced world ptr object 1
      → ((shared_release world ptr).freed ptr ≡ true)
        × ((shared_release world ptr).freed object ≡ true)
  unfolding shared_release
  release-last world r =
      let some_ptr : (ptr == 0) ≡ false = ground arith in
      let c = r.count in
      let d = r.dtor in
      let held : ((world.shareds ptr).references == 0) ≡ false = ground arith in
      let last : ((world.shareds ptr).references -w 1 == 0) ≡ true = ground arith in
      let frees : ((world.shareds ptr).dtor == 0) ≡ false = ground arith in
      let same : (ptr == ptr) ≡ true = ground arith in
      rw (some_ptr, held, last, frees) (rw same refl, ground (arith, r.stands))

  acquires-Referenced :
      (k n : ℕ) (world : World)
      → n + k < 2 ^ 32
      → Referenced world ptr object n
      → Referenced (acquires k world ptr) ptr object (n + k)
  unfolding acquires
  acquires-Referenced zero n world small r = subst (Referenced world ptr object) (omega arith) r
  acquires-Referenced (suc k) n world small r = subst (Referenced _ ptr object) (omega arith) (
      acquires-Referenced k (suc n) (shared_aquire world ptr) (omega arith)
        (aquire-Referenced world n (omega arith) r))

  releases-Referenced :
      (k n : ℕ) (world : World)
      → n + k < 2 ^ 32 - 1
      → Referenced world ptr object (suc n + k)
      → Referenced (releases k world ptr) ptr object (suc n)
  unfolding releases
  releases-Referenced zero n world small r = subst (Referenced world ptr object) (omega arith) r
  releases-Referenced (suc k) n world small r =
      releases-Referenced k n (shared_release world ptr) (omega arith) (
        subst (Referenced _ ptr object) (omega arith) (
          release-Referenced world (n + k) (omega arith)
            (subst (Referenced world ptr object) (omega arith) r)))

  -- A new shared object whose destructor is `kfree`, acquired `k` times more (fewer than 2 ^ 32 - 1):
  -- neither it nor what it stands for is free after `j` releases, `j` at most `k`, and both are after
  -- the release that follows `k` others.
  pub shared_release-frees :
      (world : World) (dtor k j : ℕ)
      → dtor ≢ 0
      → world.freed ptr ≡ false
      → world.freed object ≡ false
      → k < 2 ^ 32 - 1
      → j ≤ k
      → let start = acquires k (shared_new ptr object dtor world) ptr in
        let last = shared_release (releases k start ptr) ptr in
        ((releases j start ptr).freed ptr ≡ false)
        × ((releases j start ptr).freed object ≡ false)
        × (last.freed ptr ≡ true)
        × (last.freed object ≡ true)
  unfolding shared_new
  shared_release-frees world dtor k j some_dtor live object_live small le =
      let same : (ptr == ptr) ≡ true = ground arith in
      let r0 : Referenced (shared_new ptr object dtor world) ptr object 1 = record {
        count = rw same refl;
        stands = rw same refl;
        dtor = rw same some_dtor;
        live = live;
        object_live = object_live;
      } in
      let r1 = acquires-Referenced k 1 (shared_new ptr object dtor world) (omega arith) r0 in
      let start = acquires k (shared_new ptr object dtor world) ptr in
      let rj =
        releases-Referenced j (k - j) start (omega arith)
          (subst (Referenced start ptr object) (omega arith) r1) in
      let rk =
        releases-Referenced k 0 start (omega arith)
          (subst (Referenced start ptr object) (omega arith) r1) in
      let (a, b) = release-last (releases k start ptr) rk in (rj.live, rj.object_live, a, b)
