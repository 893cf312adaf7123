-- ===== src/Vector/Append.antt =====
-- `vector_push_back`, `vector_pop_back` and `vector_set` against the list of elements.
use libcutils.Base.{
  ℕ, ◌+◌, ◌-◌, ◌*◌, ◌%◌, ◌^◌, ◌≤◌, ◌<◌, ◌≡◌, refl, sym, ap, ap₂, ◌∙◌, List, [], ◌∷◌, ◌++◌, true,
  false, some, arith, length, take, drop, ltb, ◌==◌, if◌then◌else◌, take_all,
}
use libcutils.Base.Memory.{
  slice, overwrite, load-some, store-some, length-slice, length-overwrite, slice-append,
  slice-overwrite_before, slice-overwrite_after, slice-overwrite_self, take-slice, drop-slice,
}
use native.Mathlib.Decide.{dec_lt, ℕ_discrete}
use libcutils.Base.Words.{add32, sub32}
use libcutils.Vector.{Vector, push_back, pop_back, set}
use libcutils.Vector.Contents.{contents, IsValid, length-contents}

module _ {ℓ} {A : Type ℓ} where
  -- One cell written behind the elements.
  contents-store :
      (b : List A) (n : ℕ) (x : A)
      → n < length b
      → slice (overwrite b n (x ∷ [])) 0 (n + 1) ≡ slice b 0 n ++ (x ∷ [])
  contents-store b n x h =
      sym (slice-append (overwrite b n (x ∷ [])) 0 n 1 n (n + 1) (omega arith) refl)
      ∙ ap₂ ◌++◌ (slice-overwrite_before b n (x ∷ []) 0 n (omega arith))
          (slice-overwrite_self b n 1 (x ∷ []) (omega arith) refl)

  -- In a valid vector of a capacity above zero and below 2 ^ 30, with a block of twice the capacity from
  -- the allocator, a push puts the element behind the others and keeps the vector valid. While there is
  -- room the capacity stays and the element is written into the vector's own block; in a full vector the
  -- capacity doubles and the allocator's block takes the cells and the element.
  pub push_back_lem :
      (v : Vector A) (x : A) (block : List A)
      → IsValid v
      → 0 < v.capacity
      → 2 * v.capacity < 2 ^ 31
      → length block ≡ 2 * v.capacity
      → (v' : Vector A) × (push_back v x (some block) ≡ some v')
        × (contents v' ≡ contents v ++ (x ∷ []))
        × IsValid v'
        × (v'.capacity ≡ (if ltb v.end v.capacity then v.capacity else 2 * v.capacity))
        × (v'.vector_head
            ≡ overwrite
                (if ltb v.end v.capacity
                  then v.vector_head
                  else overwrite block 0 (slice v.vector_head 0 v.capacity))
                v.end
                (x ∷ []))
  unfolding push_back contents
  push_back_lem v x block k pos small fresh = elim (dec_lt v.end v.capacity) [
    | yes p ↦ (
      record v { vector_head = overwrite v.vector_head v.end (x ∷ []); end = v.end + 1 },
      (let e : add32 v.end 1 ≡ v.end + 1 = omega arith in
          ground (arith, e, store-some v.vector_head v.end (x ∷ []))),
      contents-store v.vector_head v.end x (omega arith),
      omega (arith, length-overwrite v.vector_head v.end (x ∷ [])),
      ground arith,
      (let room : ltb v.end v.capacity ≡ true = ground arith in rw room refl),
    )
    | no p ↦
        let old = slice v.vector_head 0 v.capacity in
        let lo : length old ≡ v.capacity = length-slice v.vector_head 0 v.capacity (omega arith) in
        let b = overwrite block 0 old in
        let lb : length b ≡ length block = length-overwrite block 0 old (omega (arith, lo)) in
        let full : v.end ≡ v.capacity = omega arith in
        (
          record v {
            vector_head = overwrite b v.end (x ∷ []);
            capacity = 2 * v.capacity;
            end = v.end + 1;
          },
          (let e : add32 v.end 1 ≡ v.end + 1 = omega arith in
              let c : (2 * v.capacity) % 2 ^ 32 ≡ 2 * v.capacity = omega arith in
              ground (
                arith,
                e,
                c,
                lo,
                lb,
                load-some v.vector_head 0 v.capacity,
                store-some block 0 old,
                store-some b v.end (x ∷ []),
              )),
          contents-store b v.end x (omega (arith, lb))
              ∙ ap (λ t. t ++ (x ∷ []))
                  (slice-overwrite_self block 0 v.end old (omega arith) (omega (arith, lo))
                    ∙ ap (λ (n : ℕ). slice v.vector_head 0 n) (sym full)),
          omega (arith, lb, length-overwrite b v.end (x ∷ [])),
          ground arith,
          (let over : ltb v.end v.capacity ≡ false = ground arith in rw over refl),
        )
  ]

  -- A pop takes the last element away, leaves an empty vector alone, and keeps the vector valid.
  pub pop_back_lem :
      (v : Vector A)
      → IsValid v
      → (contents (pop_back v) ≡ take (length (contents v) - 1) (contents v)) × IsValid (pop_back v)
  unfolding pop_back contents
  pop_back_lem v k = elim (ℕ_discrete v.end 0) [
    | yes e ↦
        let t : (v.begin == v.end) ≡ true = ground arith in
        let l : length (contents v) ≤ 0 = omega (arith, length-contents v k) in
        (
          rw t (
              sym (take_all (length (contents v) - 1) (contents v) (omega (arith, l)))
              ∙ ap (λ (n : ℕ). take n (contents v)) refl),
          rw t k,
        )
    | no ne ↦
        let t : (v.begin == v.end) ≡ false = ground arith in
        let s : sub32 v.end 1 ≡ v.end - 1 = omega arith in
        (
          rw (t, s)
              (sym (take-slice v.vector_head 0 v.end (v.end - 1) (omega arith) (omega arith))
                ∙ ap (λ (n : ℕ). take n (slice v.vector_head 0 v.end))
                    (omega (arith, length-slice v.vector_head 0 v.end (omega arith)))),
          rw (t, s) (omega arith),
        )
  ]

  -- A write inside the elements replaces one of them and keeps the vector valid.
  pub set_inside :
      (v : Vector A) (i : ℕ) (x : A)
      → IsValid v
      → i < v.end
      → (v' : Vector A) × (set v i x ≡ some v')
        × (contents v' ≡ take i (contents v) ++ (x ∷ drop (i + 1) (contents v)))
        × IsValid v'
  unfolding set contents
  set_inside v i x k h = (
    record v { vector_head = overwrite v.vector_head i (x ∷ []) },
    ground (arith, store-some v.vector_head i (x ∷ [])),
    sym (
          slice-append (overwrite v.vector_head i (x ∷ [])) 0 i (v.end - i) i v.end (omega arith)
            (omega arith))
        ∙ ap₂ ◌++◌
            (slice-overwrite_before v.vector_head i (x ∷ []) 0 i (omega arith)
              ∙ sym (take-slice v.vector_head 0 v.end i (omega arith) (omega arith)))
            (sym (
                slice-append (overwrite v.vector_head i (x ∷ [])) i 1 (v.end - (i + 1)) (i + 1)
                  (v.end - i) refl (omega arith))
              ∙ ap₂ ◌++◌ (slice-overwrite_self v.vector_head i 1 (x ∷ []) (omega arith) refl) (
                  slice-overwrite_after v.vector_head i (x ∷ []) (i + 1) (v.end - (i + 1))
                    (omega arith) (omega arith)
                  ∙ sym (
                      drop-slice v.vector_head 0 v.end (i + 1) (i + 1) (v.end - (i + 1))
                        (omega arith) (omega arith) (omega arith) (omega arith)))),
    omega (arith, length-overwrite v.vector_head i (x ∷ [])),
  )

  -- A write at the end or behind it, inside the block, succeeds, and yet the new element is not
  -- among those of the vector: the elements are the old ones and the cells up to the position.
  pub set_behind :
      (v : Vector A) (i : ℕ) (x : A)
      → IsValid v
      → v.end ≤ i
      → i < v.capacity
      → (v' : Vector A) × (set v i x ≡ some v')
        × (contents v' ≡ slice v.vector_head 0 i)
        × (v'.end ≡ i)
  unfolding set contents
  set_behind v i x k h room = (
    record v { vector_head = overwrite v.vector_head i (x ∷ []); end = i },
    (let e : (if ltb v.end i then i else v.end) ≡ i = ground arith in
        rw (store-some v.vector_head i (x ∷ []) (omega arith), e) refl),
    slice-overwrite_before v.vector_head i (x ∷ []) 0 i (omega arith),
    refl,
  )
