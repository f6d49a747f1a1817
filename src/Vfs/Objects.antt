-- ===== src/Vfs/Objects.antt =====
-- What a descriptor stands for, in terms of the object table and the objects.
use helix_os.Common.{
  ℕ, ◌≡◌, ◌≢◌, refl, sym, ap, ◌∙◌, true, false, Option, none, some, arith, ltb, ◌==◌, Bool-cases,
  inl, inr,
}
use helix_os.Dlist.{Dlist, dlist_allocated, dlist_get}
use helix_os.Vfs.{
  State, FileObj, put_obj, update, found, refused, file_of, file_pobj, vfs_get_pobj, neg,
  error_not_found, error_not_file, error_invalid_argument,
}

pub allocated_of_get :
    (list : Dlist) (i : ℕ) → dlist_get list i ≢ 0 → ltb i (dlist_allocated list) ≡ true
unfolding dlist_get dlist_allocated
allocated_of_get list i ne = ground arith

file_of-found :
    (o : Option FileObj) (p ptr : ℕ) (obj : FileObj)
    → file_of p o ≡ found ptr obj
    → (p ≡ ptr) × (o ≡ some obj) × (obj.base_type ≡ file_pobj)
unfolding file_of
file_of-found none p ptr obj e = cc
file_of-found (some x) p ptr obj e = elim (Bool-cases (x.base_type == file_pobj)) [
  | inl yes_file ↦
      let e' : found p x ≡ found ptr obj = rw yes_file at e in
      let same : x ≡ obj = cc in (cc, cc, ap (λ o. o.base_type) (sym same) ∙ ground arith)
  | inr no_file ↦ let e' : refused (neg error_not_file) ≡ found ptr obj = rw no_file at e in cc
]

module _ {W : Type 0} (st : State W) (pnode : ℕ) where
  abbrev slot : ℕ
  slot = dlist_get st.pobjects pnode

  pub get_pobj-found :
      (obj : FileObj)
      → slot ≢ 0
      → st.objects slot ≡ some obj
      → obj.base_type ≡ file_pobj
      → vfs_get_pobj st pnode ≡ found slot obj
  unfolding vfs_get_pobj file_of
  get_pobj-found obj ne there is_file =
      let a = allocated_of_get st.pobjects pnode ne in
      let b : (slot == 0) ≡ false = ground arith in
      let c : (obj.base_type == file_pobj) ≡ true = ground arith in rw (a, b, there, c) refl

  pub get_pobj-not_found :
      ltb pnode (dlist_allocated st.pobjects) ≡ true
      → slot ≡ 0
      → vfs_get_pobj st pnode ≡ refused (neg error_not_found)
  unfolding vfs_get_pobj
  get_pobj-not_found inside free = let b : (slot == 0) ≡ true = ground arith in rw (inside, b) refl

  -- What is known of a descriptor that stands for a file.
  pub record IsFile (ptr : ℕ) (obj : FileObj) : Type 0 where
    pub here : slot ≡ ptr
    pub ne_null : ptr ≢ 0
    pub live : st.objects ptr ≡ some obj
    pub type : obj.base_type ≡ file_pobj
    pub allocated : ltb pnode (dlist_allocated st.pobjects) ≡ true

  pub IsFile-found :
      {ptr : ℕ} {obj : FileObj} → IsFile ptr obj → vfs_get_pobj st pnode ≡ found ptr obj
  IsFile-found {ptr} {obj} f =
      let ne : slot ≢ 0 = λ z. f.ne_null (sym f.here ∙ z) in
      get_pobj-found obj ne (ap st.objects f.here ∙ f.live) f.type ∙ ap (λ p. found p obj) f.here

  pub get_pobj-IsFile :
      (ptr : ℕ) (obj : FileObj) → vfs_get_pobj st pnode ≡ found ptr obj → IsFile ptr obj
  unfolding vfs_get_pobj
  get_pobj-IsFile ptr obj e = elim (Bool-cases (ltb pnode (dlist_allocated st.pobjects))) [
    | inl inside ↦ elim (Bool-cases (slot == 0)) [
      | inl empty ↦
          let e' : refused (neg error_not_found) ≡ found ptr obj = rw (inside, empty) at e in cc
      | inr full ↦
          let e' : file_of slot (st.objects slot) ≡ found ptr obj = rw (inside, full) at e in
          let (here, live, type) = file_of-found (st.objects slot) slot ptr obj e' in
          record {
            here = here;
            ne_null = ground arith;
            live = ap st.objects (sym here) ∙ live;
            type = type;
            allocated = inside;
          }
    ]
    | inr outside ↦
        let e' : refused (neg error_invalid_argument) ≡ found ptr obj = rw outside at e in cc
  ]

  -- A file object that is written anew is found with what was written.
  pub put_obj-found :
      {ptr : ℕ} {obj : FileObj}
      → IsFile ptr obj
      → (obj' : FileObj) (world : W) → obj'.base_type ≡ file_pobj
      → vfs_get_pobj (put_obj st ptr obj' world) pnode ≡ found ptr obj'
  unfolding vfs_get_pobj file_of
  put_obj-found {ptr} f obj' world is_file =
      let a = f.allocated in
      let b : (slot == 0) ≡ false = ground (arith, f.here, f.ne_null) in
      let c : (obj'.base_type == file_pobj) ≡ true = ground arith in
      let d : update st.objects ptr (some obj') slot ≡ some obj' = ground (arith, f.here) in
      rw (a, b, d, c) (ap (λ p. found p obj') f.here)
